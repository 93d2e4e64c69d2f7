-- ===== src/Executor/Tools/PathGuard/Within.antt =====
-- Where an allowed path lies.

use secure_openclaw_poc.Executor.Tools.Replace.Found.{starts_with-drop}
use secure_openclaw_poc.Common.{
  Bool-cases, List, Option, Text, [], inl, inr, refl, subst, sym, true, ◌∙◌, ◌∷◌, ◌≡◌, ◌⊎◌, ◌++◌,
  append_assoc, drop, length, none, some, starts_with, text_eq, text_eq_same,
}
use secure_openclaw_poc.Common.Outcome.{Outcome, returned, thrown}
use secure_openclaw_poc.Executor.Tools.PathGuard.{
  IoCode, Paths, allowed, check_located, check_path, check_roots, effective_roots, eloop, emlink,
  enoent, is_path_allowed, is_within, locate_by, new_file, other, root_by,
}

module _ (p : Paths) where
  abbrev pub root_of : Text → Option Text
  root_of r = root_by (p.resolve r) (p.realpath (p.resolve r))

  -- A place is a root itself, or below it.
  abbrev pub IsBelow : (place : Text) → (root : Option Text) → Type 0
  IsBelow place none = ⊥
  IsBelow place (some root) = (place ≡ root) ⊎ ((rest : Text) × (place ≡ root ++ 47 ∷ rest))

  abbrev pub IsInSome : (place : Text) → (roots : List Text) → Type 0
  IsInSome place [] = ⊥
  IsInSome place (r ∷ rs) = IsBelow place (root_of r) ⊎ IsInSome place rs

  is_within-IsBelow :
      (place : Text) (root : Option Text) → is_within place root ≡ true → IsBelow place root
  is_within-IsBelow place none h = absurd (cc)
  is_within-IsBelow place (some root) h = elim (Bool-cases (text_eq place root)) [
    | inl same ↦ inl (text_eq_same place root same)
    | inr apart ↦
        let below : starts_with place (root ++ 47 ∷ []) ≡ true = rw apart at h in
        inr (
          drop (length (root ++ 47 ∷ [])) place,
          starts_with-drop (root ++ 47 ∷ []) place below ∙ append_assoc root (47 ∷ []) _,
        )
  ]

  check_roots-within :
      (resolved : Text) (roots : List Text) (place : Text)
      → check_roots p resolved roots ≡ allowed place
      → (place ≡ resolved) × IsInSome resolved roots
  unfolding check_roots
  check_roots-within resolved [] place h = cc
  check_roots-within resolved (r ∷ rs) place h =
      elim (Bool-cases (is_within resolved (root_of r))) [
        | inl inside ↦
            let e : allowed resolved ≡ allowed place = rw inside at h in
            (sym (cc), inl (is_within-IsBelow resolved (root_of r) inside))
        | inr outside ↦
            let (same, found) = check_roots-within resolved rs place (rw outside at h) in
            (same, inr found)
      ]

  -- The place is the real path, or where the file is not there the one in the real path of its
  -- directory, or the lexical one where that has none.
  abbrev pub IsPlace : (abs_path place : Text) → Type 0
  IsPlace abs_path place =
      (p.realpath abs_path ≡ returned place)
      ⊎ ((p.realpath abs_path ≡ thrown enoent)
          × (place ≡ new_file p abs_path (p.realpath (p.dirname abs_path))))

  locate_by-IsPlace :
      (abs_path : Text) (o : Outcome IoCode Text) (place : Text)
      → p.realpath abs_path ≡ o
      → locate_by p abs_path o ≡ returned place
      → IsPlace abs_path place
  unfolding locate_by
  locate_by-IsPlace abs_path (returned real) place e h = inl (e ∙ h)
  locate_by-IsPlace abs_path (thrown enoent) place e h =
      let same : new_file p abs_path (p.realpath (p.dirname abs_path)) ≡ place = cc in
      inr (e, sym same)
  locate_by-IsPlace abs_path (thrown eloop) place e h = cc
  locate_by-IsPlace abs_path (thrown emlink) place e h = cc
  locate_by-IsPlace abs_path (thrown (other code)) place e h = cc

  abbrev pub IsWithin : (file_path : Text) (roots : List Text) (place : Text) → Type 0
  IsWithin file_path roots place = IsPlace (p.resolve file_path) place × IsInSome place roots

  check_located-IsWithin :
      (file_path : Text) (roots : List Text) (o : Outcome IoCode Text) (place : Text)
      → locate_by p (p.resolve file_path) (p.realpath (p.resolve file_path)) ≡ o
      → check_located p (p.resolve file_path) roots o ≡ allowed place
      → IsWithin file_path roots place
  unfolding check_located
  check_located-IsWithin file_path roots (thrown code) place e h = cc
  check_located-IsWithin file_path roots (returned resolved) place e h =
      let (same, found) = check_roots-within resolved roots place h in
      let located =
        locate_by-IsPlace (p.resolve file_path) (p.realpath (p.resolve file_path)) resolved refl
          e in
      subst (IsWithin file_path roots) (sym same) (located, found)

  check_path-IsWithin :
      (file_path : Text) (roots : List Text) (place : Text)
      → check_path p file_path roots ≡ allowed place
      → (roots ≡ []) ⊎ IsWithin file_path roots place
  unfolding check_path
  check_path-IsWithin file_path [] place h = inl refl
  check_path-IsWithin file_path (r ∷ rs) place h = inr (
      check_located-IsWithin file_path (r ∷ rs)
        (locate_by p (p.resolve file_path) (p.realpath (p.resolve file_path))) place refl h)

  -- A path that is allowed has its place in a root, or there is no root at all.
  pub is_path_allowed-IsWithin :
      (file_path : Text) (allowed_roots : Option (List Text)) (place : Text)
      → is_path_allowed p file_path allowed_roots ≡ allowed place
      → (effective_roots p allowed_roots ≡ [])
        ⊎ IsWithin file_path (effective_roots p allowed_roots) place
  unfolding is_path_allowed
  is_path_allowed-IsWithin file_path allowed_roots place h =
      check_path-IsWithin file_path (effective_roots p allowed_roots) place h
