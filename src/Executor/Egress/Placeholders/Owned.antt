-- ===== src/Executor/Egress/Placeholders/Owned.antt =====
-- What is substituted belongs to the service that the destination is bound to.

-- The placeholders that a text names.
use secure_openclaw_poc.Common.{
  All, Bool-cases, List, Option, Text, [], inl, inr, none, refl, some, text_eq, true, ◌∷◌, ◌≡◌,
}
use secure_openclaw_poc.Common.Outcome.{returned}
use secure_openclaw_poc.Executor.Egress.Placeholders.{
  Placeholder, collect, find_all, first_foreign, resolve, substitute_placeholders, with_matches,
}
use secure_openclaw_poc.Crypto.UseCredential.{Vault, use_credential}

abbrev pub placeholders : Text → List Placeholder
placeholders text = collect [] (find_all text 0)

-- All of them are of one service.
abbrev pub HasOnly : (service_id text : Text) → Type 0
HasOnly service_id text = All (λ p. text_eq p.service_id service_id ≡ true) (placeholders text)

first_foreign-none :
    (service_id : Text) (ps : List Placeholder)
    → first_foreign service_id ps ≡ none
    → All (λ p. text_eq p.service_id service_id ≡ true) ps
first_foreign-none service_id [] h = tt
first_foreign-none service_id (p ∷ ps) h = elim (Bool-cases (text_eq p.service_id service_id)) [
  | inl same ↦ (same, first_foreign-none service_id ps (rw same at h))
  | inr foreign ↦ let broken : some p ≡ none = rw foreign at h in absurd (cc)
]

resolve_returned :
    (vault : Vault) (service_id text : Text) (ps : List Placeholder) (foreign : Option Placeholder)
    {filled : Text}
    → resolve vault service_id text ps foreign ≡ returned filled
    → foreign ≡ none
resolve_returned vault service_id text ps none h = refl
resolve_returned vault service_id text ps (some p) h = cc

with_matches_returned :
    (vault : Vault) (service_id text : Text) (ps : List Placeholder) {filled : Text}
    → with_matches vault service_id text ps ≡ returned filled
    → All (λ p. text_eq p.service_id service_id ≡ true) ps
with_matches_returned vault service_id text [] h = tt
with_matches_returned vault service_id text (p ∷ ps) h =
    first_foreign-none service_id (p ∷ ps)
      (resolve_returned vault service_id text (p ∷ ps) (first_foreign service_id (p ∷ ps)) h)

-- A text that is filled names placeholders of the service only.
pub substitute_placeholders-HasOnly :
    (text : Text) (vault : Vault) (service_id : Text) {filled : Text}
    → substitute_placeholders text vault service_id ≡ returned filled
    → HasOnly service_id text
unfolding substitute_placeholders
substitute_placeholders-HasOnly text vault service_id h =
    with_matches_returned vault service_id text (placeholders text) h

-- What is filled in comes from the credential of the service.
module _ (v w : Vault) (service_id : Text) (same : v service_id ≡ w service_id) where
  pub use_credential-own : use_credential v service_id ≡ use_credential w service_id
  unfolding use_credential
  use_credential-own = rw same refl

  resolve-own :
      (text : Text) (ps : List Placeholder) (foreign : Option Placeholder)
      → resolve v service_id text ps foreign ≡ resolve w service_id text ps foreign
  resolve-own text ps none = rw use_credential-own refl
  resolve-own text ps (some p) = refl

  with_matches-own :
      (text : Text) (ps : List Placeholder)
      → with_matches v service_id text ps ≡ with_matches w service_id text ps
  with_matches-own text [] = refl
  with_matches-own text (p ∷ ps) = resolve-own text (p ∷ ps) (first_foreign service_id (p ∷ ps))

  -- Two vaults with the same entry for the service fill a text alike.
  pub substitute_placeholders-own :
      (text : Text)
      → substitute_placeholders text v service_id ≡ substitute_placeholders text w service_id
  unfolding substitute_placeholders
  substitute_placeholders-own text = with_matches-own text (placeholders text)
