-- ===== src/Executor/Egress/Placeholders.antt =====
-- substitutePlaceholders of packages/executor/src/egress-proxy.ts, the pattern of
-- packages/types/src/egress.ts.
pub mod Owned
pub mod Kept
use secure_openclaw_poc.Common.{
  ◌&&◌, ◌++◌, ◌-◌, ◌==◌, Bool, List, Option, Text, [], after_prefix, codes, drop, if◌then◌else◌,
  leb, length, none, some, starts_with, suc, text_eq, text_in, zero, ◌||◌, ℕ, ◌∷◌,
}
use secure_openclaw_poc.Common.Outcome.{Outcome, returned, thrown}
use secure_openclaw_poc.Crypto.UseCredential.{
  Vault, VaultError, Credential, use_credential, value_of,
}
use secure_openclaw_poc.Executor.Tools.Replace.{expand}

abbrev pub is_alphanumeric : ℕ → Bool
is_alphanumeric c = (leb 48 c && leb c 57) || ((leb 65 c && leb c 90) || (leb 97 c && leb c 122))

abbrev pub is_field_unit : ℕ → Bool
is_field_unit c = is_alphanumeric c || c == 95

-- The units from the start on that pass the test, and the rest.
abbrev pub span : (ℕ → Bool) → Text → Text × Text
span p [] = ([], [])
span p (c ∷ cs) = let (kept, rest) = span p cs in if p c then (c ∷ kept, rest) else ([], c ∷ cs)

pub record Placeholder : Type 0 where
  pub service_id : Text
  pub field : Text

abbrev pub placeholder_prefix : Text
placeholder_prefix = codes "SENTINEL_PLACEHOLDER_"

-- The text that was matched.
abbrev pub full : Placeholder → Text
full p = placeholder_prefix ++ (p.service_id ++ (codes "__" ++ p.field))

abbrev pub with_field : (service_id : Text) → (field : Text) → Option Placeholder
with_field service_id [] = none
with_field service_id (c ∷ cs) = some (record { service_id = service_id; field = c ∷ cs })

abbrev pub with_separator : (service_id : Text) → Option Text → Option Placeholder
with_separator [] rest = none
with_separator (c ∷ cs) none = none
with_separator (c ∷ cs) (some rest) = with_field (c ∷ cs) (span is_field_unit rest).0

abbrev pub with_prefix : Option Text → Option Placeholder
with_prefix none = none
with_prefix (some rest) =
    let (service_id, after) = span is_alphanumeric rest in
    with_separator service_id (after_prefix (codes "__") after)

-- The match of `SENTINEL_PLACEHOLDER_([A-Za-z0-9]+)__([A-Za-z0-9_]+)` at the start of a text.
unfoldable pub match_at : Text → Option Placeholder
match_at t = with_prefix (after_prefix placeholder_prefix t)

-- All matches, in order; `skip` units are left of the last one.
unfoldable pub find_all : Text → (skip : ℕ) → List Placeholder
unfolding match_at
find_all [] skip = []
find_all (c ∷ cs) (suc skip) = find_all cs skip
find_all (c ∷ cs) zero = elim (match_at (c ∷ cs)) [
  | none ↦ find_all cs 0
  | some p ↦ p ∷ find_all cs (length (full p) - 1)
]

abbrev pub key : Placeholder → Text
key p = p.service_id ++ 58 ∷ p.field

-- The matches without those whose key was seen.
unfoldable pub collect : (seen : List Text) → List Placeholder → List Placeholder
collect seen [] = []
collect seen (p ∷ ps) =
    let again = collect seen ps in
    let first = p ∷ collect (key p ∷ seen) ps in if text_in (key p) seen then again else first

-- `text.replaceAll(old, replacement)`, for an `old` that is not empty; `before` is what was passed.
unfoldable pub replace_all : (old replacement before : Text) → Text → (skip : ℕ) → Text
unfolding expand
replace_all old replacement before [] skip = []
replace_all old replacement before (c ∷ cs) (suc skip) =
    replace_all old replacement (before ++ c ∷ []) cs skip
replace_all old replacement before (c ∷ cs) zero =
    let found =
      expand before old (drop (length old) (c ∷ cs)) replacement
      ++ replace_all old replacement (before ++ c ∷ []) cs (length old - 1) in
    let kept = c ∷ replace_all old replacement (before ++ c ∷ []) cs 0 in
    if starts_with (c ∷ cs) old then found else kept

-- A failed check of the proxy, or any other error of the vault.
pub data SubstitutionError : Type 0 where
  foreign_service : (service_id : Text) → SubstitutionError
  no_such_field : (service_id field : Text) → SubstitutionError
  vault_error : SubstitutionError

-- The callback: one placeholder after the other.
abbrev pub fill : List Placeholder → Credential → Text → Outcome SubstitutionError Text
fill [] cred result = returned result
fill (p ∷ ps) cred result = elim (value_of p.field cred) [
  | none ↦ thrown (no_such_field p.service_id p.field)
  | some value ↦ fill ps cred (replace_all (full p) value [] result 0)
]

abbrev pub with_credential :
    List Placeholder
    → (text : Text) → Outcome VaultError Credential
    → Outcome SubstitutionError Text
with_credential ps text (thrown e) = thrown vault_error
with_credential ps text (returned cred) = fill ps cred text

-- The first placeholder of another service.
abbrev pub first_foreign : (allowed_service_id : Text) → List Placeholder → Option Placeholder
first_foreign allowed_service_id [] = none
first_foreign allowed_service_id (p ∷ ps) =
    let later = first_foreign allowed_service_id ps in
    if text_eq p.service_id allowed_service_id then later else some p

abbrev pub resolve :
    Vault
    → (allowed_service_id text : Text) → List Placeholder
    → Option Placeholder
    → Outcome SubstitutionError Text
resolve vault allowed_service_id text ps (some p) = thrown (foreign_service p.service_id)
resolve vault allowed_service_id text ps none =
    with_credential ps text (use_credential vault allowed_service_id)

abbrev pub with_matches :
    Vault → (allowed_service_id text : Text) → List Placeholder → Outcome SubstitutionError Text
with_matches vault allowed_service_id text [] = returned text
with_matches vault allowed_service_id text (p ∷ ps) =
    resolve vault allowed_service_id text (p ∷ ps) (first_foreign allowed_service_id (p ∷ ps))

unfoldable pub substitute_placeholders :
    (text : Text) → Vault → (allowed_service_id : Text) → Outcome SubstitutionError Text
unfolding find_all collect
substitute_placeholders text vault allowed_service_id =
    with_matches vault allowed_service_id text (collect [] (find_all text 0))
