-- ===== src/Executor/Egress/Placeholders/Kept.antt =====
-- What the filling of placeholders leaves of a text.
use secure_openclaw_poc.Common.{
  ◌++◌, ◌==◌, All, Option-cases, List, Option, Text, [], ap, arith, false, inl, inr, none, refl,
  some, starts_with, sym, ◌∙◌, ◌∷◌, ◌≡◌,
}
use secure_openclaw_poc.Common.Outcome.{Outcome, returned, thrown}
use secure_openclaw_poc.Crypto.UseCredential.{
  Credential, Vault, VaultError, use_credential, value_of,
}
use secure_openclaw_poc.Executor.Egress.Placeholders.{
  Placeholder, collect, fill, find_all, first_foreign, full, no_such_field, placeholder_prefix,
  replace_all, resolve, substitute_placeholders, with_credential, with_matches,
}
use secure_openclaw_poc.Executor.Tools.Replace.Found.{NoneBefore}

-- `t` is `start`, a slash and anything.
abbrev pub Begins : (start t : Text) → Type 0
Begins start t = (rest : Text) × (t ≡ start ++ 47 ∷ rest)

abbrev HasNoSlash : Text → Type 0
HasNoSlash p = All (λ c. (c == 47) ≡ false) p

-- Whether a text without a slash stands before a slash does not depend on what follows the slash.
starts_with-slash :
    (p start rest other : Text)
    → HasNoSlash p
    → starts_with (start ++ 47 ∷ rest) p ≡ starts_with (start ++ 47 ∷ other) p
starts_with-slash [] start rest other h = refl
starts_with-slash (q ∷ qs) [] rest other h = ground (arith, h)
starts_with-slash (q ∷ qs) (c ∷ cs) rest other h =
    ground (arith, starts_with-slash qs cs rest other h.1)

NoneBefore-slash :
    (p start rest other : Text)
    → HasNoSlash p
    → NoneBefore p start (47 ∷ rest)
    → NoneBefore p start (47 ∷ other)
NoneBefore-slash p [] rest other h n = tt
NoneBefore-slash p (c ∷ cs) rest other h n =
    (sym (starts_with-slash p (c ∷ cs) rest other h) ∙ n.0, NoneBefore-slash p cs rest other h n.1)

-- Where a text is not, no longer one is.
starts_with-longer : (p q t : Text) → starts_with t p ≡ false → starts_with t (p ++ q) ≡ false
starts_with-longer [] q t h = cc
starts_with-longer (c ∷ cs) q [] h = refl
starts_with-longer (c ∷ cs) q (d ∷ ds) h = ground (arith, starts_with-longer cs q ds)

module _ (p : Placeholder) (value : Text) where
  abbrev tail : Text
  tail = p.service_id ++ (95 ∷ 95 ∷ p.field)

  replace_all-Begins :
      (before start rest : Text)
      → NoneBefore placeholder_prefix start (47 ∷ rest)
      → Begins start (replace_all (full p) value before (start ++ 47 ∷ rest) 0)
  unfolding replace_all
  replace_all-Begins before [] rest n =
      (replace_all (full p) value (before ++ 47 ∷ []) rest 0, refl)
  replace_all-Begins before (c ∷ cs) rest n =
      let (rest', same) = replace_all-Begins (before ++ c ∷ []) cs rest n.1 in
      let absent = starts_with-longer placeholder_prefix tail (c ∷ cs ++ 47 ∷ rest) n.0 in
      (rest', rw absent (ap (λ (t : Text). c ∷ t) same))

prefix_slash : HasNoSlash placeholder_prefix
prefix_slash = ground arith

module _ (start : Text) where
  -- The text begins with the start, and no placeholder begins in the start.
  abbrev pub IsPlain : Text → Type 0
  IsPlain t =
      (rest : Text) × (t ≡ start ++ 47 ∷ rest) × NoneBefore placeholder_prefix start (47 ∷ rest)

  fill-IsPlain :
      (ps : List Placeholder) (cred : Credential) (t filled : Text)
      → IsPlain t
      → fill ps cred t ≡ returned filled
      → Begins start filled
  fill-IsPlain [] cred t filled (rest, same, n) h = let e : t ≡ filled = cc in (rest, sym e ∙ same)
  fill-IsPlain (p ∷ ps) cred t filled (rest, same, n) h =
      elim (Option-cases (value_of p.field cred)) [
        | inl missing ↦
            let broken : thrown (no_such_field p.service_id p.field) ≡ returned filled =
              rw (missing, fill) at h in
            cc
        | inr (value, found) ↦
            let (rest', kept) = replace_all-Begins p value [] start rest n in
            fill-IsPlain ps cred (replace_all (full p) value [] t 0) filled
              (
                rest',
                rw same kept,
                NoneBefore-slash placeholder_prefix start rest rest' prefix_slash n,
              )
              (rw (found, fill) at h)
      ]

  -- A start of the text before a slash, in which no placeholder begins, is kept.
  pub substitute_placeholders-Begins :
      (t : Text) (vault : Vault) (service_id filled : Text)
      → IsPlain t
      → substitute_placeholders t vault service_id ≡ returned filled
      → Begins start filled
  unfolding substitute_placeholders
  substitute_placeholders-Begins t vault service_id filled plain h =
      matched (collect [] (find_all t 0)) h
    where
      opened :
          (ps : List Placeholder) (o : Outcome VaultError Credential)
          → with_credential ps t o ≡ returned filled
          → Begins start filled
      opened ps (thrown e) k = cc
      opened ps (returned cred) k = fill-IsPlain ps cred t filled plain k

      resolved :
          (ps : List Placeholder) (foreign : Option Placeholder)
          → resolve vault service_id t ps foreign ≡ returned filled
          → Begins start filled
      resolved ps (some p) k = cc
      resolved ps none k = opened ps (use_credential vault service_id) k

      matched :
          (ps : List Placeholder)
          → with_matches vault service_id t ps ≡ returned filled
          → Begins start filled
      matched [] k = let e : t ≡ filled = cc in (plain.0, sym e ∙ plain.1)
      matched (p ∷ ps) k = resolved (p ∷ ps) (first_foreign service_id (p ∷ ps)) k
