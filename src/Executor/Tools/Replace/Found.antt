-- ===== src/Executor/Tools/Replace/Found.antt =====
-- Where a text is found, and what replacing it gives.

use secure_openclaw_poc.Common.{
  ◌++◌, ◌-◌, ◌==◌, Bool, Bool-cases, Option, Text, [], after_prefix, arith, drop, if◌then◌else◌,
  false, inl, inr, length, none, refl, some, starts_with, suc, true, zero, ℕ, ◌∷◌, ◌≡◌, any, ap,
  ◌∙◌, subst, sym,
}
use secure_openclaw_poc.Executor.Tools.Replace.{
  count_from, put_before, split_first, by_number, expand, occurrences, single,
}

pub starts_with-drop : (p t : Text) → starts_with t p ≡ true → t ≡ p ++ drop (length p) t
starts_with-drop [] t h = refl
starts_with-drop (q ∷ qs) [] h = cc
starts_with-drop (q ∷ qs) (c ∷ cs) h =
    ground (arith, starts_with-drop qs cs, after_head (c == q) (after_prefix qs cs) h)
  where
    after_head :
        (same : Bool) (rest : Option Text)
        → (elim (if same then rest else none) [ none ↦ false | some u ↦ true ]) ≡ true
        → same ≡ true
    after_head true rest h = refl
    after_head false rest h = cc

count_from-skip :
    (old cs : Text) (skip : ℕ) → count_from old cs skip ≡ count_from old (drop skip cs) 0
unfolding count_from
count_from-skip old [] zero = refl
count_from-skip old [] (suc skip) = refl
count_from-skip old (c ∷ cs) zero = refl
count_from-skip old (c ∷ cs) (suc skip) = count_from-skip old cs skip

pub put_before-some :
    (c : ℕ) (found : Option (Text × Text)) (before after : Text)
    → put_before c found ≡ some (before, after)
    → (b : Text) × (found ≡ some (b, after)) × (before ≡ c ∷ b)
put_before-some c none before after h = cc
put_before-some c (some (b, a)) before after h =
    let e : ◌≡◌ {A = Option (Text × Text)} (some (c ∷ b, a)) (some (before, after)) = h in
    (b, ground (arith, e), ground (arith, e))

put_before-none : (c : ℕ) (found : Option (Text × Text)) → put_before c found ≡ none → found ≡ none
put_before-none c none h = refl
put_before-none c (some (b, a)) h = cc

pub split_first-append :
    (old content before after : Text)
    → split_first old content ≡ some (before, after)
    → content ≡ before ++ (old ++ after)
unfolding split_first
split_first-append [] [] before after h = ground arith
split_first-append (o ∷ os) [] before after h = cc
split_first-append old (c ∷ cs) before after h = elim (Bool-cases (starts_with (c ∷ cs) old)) [
  | inl here ↦ ground (arith, here, h, starts_with-drop old (c ∷ cs) here)
  | inr later ↦
      let (b, found, shifted) =
        put_before-some c (split_first old cs) before after (rw later at h) in
      rw shifted (ap (λ (t : Text). c ∷ t) (split_first-append old cs b after found))
]

-- The text stands at no place of `before`, read on into `rest`.
abbrev pub NoneBefore : (old before rest : Text) → Type 0
NoneBefore old [] rest = Unit
NoneBefore old (c ∷ cs) rest = (starts_with (c ∷ cs ++ rest) old ≡ false) × NoneBefore old cs rest

pub split_first-NoneBefore :
    (old content before after : Text)
    → split_first old content ≡ some (before, after)
    → NoneBefore old before (old ++ after)
unfolding split_first
split_first-NoneBefore [] [] before after h =
    let e : ◌≡◌ {A = Option (Text × Text)} (some ([], [])) (some (before, after)) = h in
    let empty : [] ≡ before = ground (arith, e) in
    subst (λ (b : Text). NoneBefore [] b after) empty tt
split_first-NoneBefore (o ∷ os) [] before after h = cc
split_first-NoneBefore old (c ∷ cs) before after h = elim (Bool-cases (starts_with (c ∷ cs) old)) [
  | inl here ↦
      let e : ◌≡◌ {A = Option (Text × Text)} (some ([], drop (length old) (c ∷ cs)))
          (some (before, after)) =
        rw here at h in
      let empty : [] ≡ before = ground (arith, e) in
      subst (λ (b : Text). NoneBefore old b (old ++ after)) empty tt
  | inr later ↦
      let (b, found, shifted) =
        put_before-some c (split_first old cs) before after (rw later at h) in
      let joined : cs ≡ b ++ (old ++ after) = split_first-append old cs b after found in
      subst (λ (x : Text). NoneBefore old x (old ++ after)) (sym shifted)
        (
          subst (λ (x : Text). starts_with (c ∷ x) old ≡ false) joined later,
          split_first-NoneBefore old cs b after found,
        )
]

-- A text without an occurrence is not cut.
none_counted :
    (o : ℕ) (os content : Text)
    → split_first (o ∷ os) content ≡ none
    → count_from (o ∷ os) content 0 ≡ 0
unfolding split_first count_from
none_counted o os [] h = refl
none_counted o os (c ∷ cs) h = elim (Bool-cases (starts_with (c ∷ cs) (o ∷ os))) [
  | inl here ↦ absurd (ground (arith, here, h))
  | inr later ↦
      rw later (none_counted o os cs (put_before-none c (split_first (o ∷ os) cs) (rw later at h)))
]

-- The occurrences are the first one and those after it.
some_counted :
    (o : ℕ) (os content before after : Text)
    → split_first (o ∷ os) content ≡ some (before, after)
    → count_from (o ∷ os) content 0 ≡ suc (count_from (o ∷ os) after 0)
unfolding split_first count_from
some_counted o os [] before after h = cc
some_counted o os (c ∷ cs) before after h = elim (Bool-cases (starts_with (c ∷ cs) (o ∷ os))) [
  | inl here ↦
      let e : ◌≡◌ {A = Option (Text × Text)} (some ([], drop (length os) cs))
          (some (before, after)) =
        rw here at h in
      let rest : drop (length os) cs ≡ after = ground (arith, e) in
      let n : suc (length os) - 1 ≡ length os = omega arith in
      rw here (
        ap (λ (k : ℕ). suc k)
          (rw n (
            count_from-skip (o ∷ os) cs (length os)
            ∙ ap (λ (t : Text). count_from (o ∷ os) t 0) rest)))
  | inr later ↦
      let (b, found, shifted) =
        put_before-some c (split_first (o ∷ os) cs) before after (rw later at h) in
      rw later (some_counted o os cs b after found)
]

by_number_single : (n : ℕ) → by_number n ≡ single → n ≡ 1
by_number_single zero h = cc
by_number_single (suc zero) h = refl
by_number_single (suc (suc n)) h = cc

-- No occurrence is left, but of the empty text.
abbrev pub HasNone : (old t : Text) → Type 0
HasNone [] t = Unit
HasNone (o ∷ os) t = count_from (o ∷ os) t 0 ≡ 0

nonempty_single :
    (o : ℕ) (os content : Text) (found : Option (Text × Text))
    → split_first (o ∷ os) content ≡ found
    → count_from (o ∷ os) content 0 ≡ 1
    → (before : Text) × (after : Text) × (split_first (o ∷ os) content ≡ some (before, after))
      × HasNone (o ∷ os) after
nonempty_single o os content none e h = absurd (omega (arith, h, none_counted o os content e))
nonempty_single o os content (some (b, a)) e h =
    (b, a, e, omega (arith, h, some_counted o os content b a e))

pub occurrences-single :
    (content old : Text)
    → occurrences content old ≡ single
    → (before : Text) × (after : Text) × (split_first old content ≡ some (before, after))
      × HasNone old after
unfolding occurrences split_first
occurrences-single [] [] h = ([], [], refl, tt)
occurrences-single (c ∷ cs) [] h = ([], c ∷ cs, refl, tt)
occurrences-single [] (o ∷ os) h = absurd (ground (arith, by_number_single 0 h))
occurrences-single (c ∷ cs) (o ∷ os) h =
    nonempty_single o os (c ∷ cs) (split_first (o ∷ os) (c ∷ cs)) refl
      (by_number_single (count_from (o ∷ os) (c ∷ cs) 0) h)

-- A replacement without `$` stands for itself.
pub expand-plain :
    (before matched after replacement : Text)
    → any (λ c. c == 36) replacement ≡ false
    → expand before matched after replacement ≡ replacement
unfolding expand
expand-plain before matched after [] h = refl
expand-plain before matched after (c ∷ []) h = refl
expand-plain before matched after (c ∷ d ∷ ds) h =
    ground (arith, expand-plain before matched after (d ∷ ds))
