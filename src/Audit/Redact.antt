-- ===== src/Audit/Redact.antt =====
-- packages/audit/src/redact.ts. `redact_all` is the pattern-based redaction of packages/types.
use secure_openclaw_poc.Common.{
  ◌++◌, ◌-◌, [], if◌then◌else◌, length, ltb, take, ℕ, ◌∷◌, ◌≡◌, ◌≤◌, arith, length-append,
  length-take, ◌∙◌, Text,
}

abbrev pub max_length : ℕ
max_length = 500

-- The code units of "... [truncated]".
abbrev pub truncated_suffix : Text
truncated_suffix =
    46 ∷ 46 ∷ 46 ∷ 32 ∷ 91 ∷ 116 ∷ 114 ∷ 117 ∷ 110 ∷ 99 ∷ 97 ∷ 116 ∷ 101 ∷ 100 ∷ 93 ∷ []

unfoldable pub truncate : (limit : ℕ) → (suffix : Text) → Text → Text
truncate limit suffix text =
    if ltb limit (length text) then take (limit - length suffix) text ++ suffix else text

truncate_bounds :
    (limit : ℕ) (suffix text : Text)
    → length suffix ≤ limit
    → (length (truncate limit suffix text) ≤ limit)
      × (length text ≤ limit → truncate limit suffix text ≡ text)
unfolding truncate
truncate_bounds limit suffix text h = ground (
  arith,
  length-append (take (limit - length suffix) text) suffix,
  length-take (limit - length suffix) text,
)

module _ (redact_all : Text → Text) where
  unfoldable pub redact_credentials : Text → Text
  redact_credentials text = truncate max_length truncated_suffix (redact_all text)

  -- The summary that is stored has at most 500 code units, and a text that is short enough after the
  -- redaction is stored as the redaction left it.
  pub redact_credentials_bounds :
      (text : Text)
      → (length (redact_credentials text) ≤ max_length)
        × (length (redact_all text) ≤ max_length → redact_credentials text ≡ redact_all text)
  unfolding redact_credentials
  redact_credentials_bounds text =
      truncate_bounds max_length truncated_suffix (redact_all text) (omega arith)

  -- Redacting twice is redacting once, if that holds of the patterns and they find nothing new in a
  -- text that was cut off.
  pub redact_credentials_twice :
      (text : Text)
      → redact_all (redact_credentials text) ≡ redact_credentials text
      → redact_credentials (redact_credentials text) ≡ redact_credentials text
  redact_credentials_twice text h =
      (redact_credentials_bounds (redact_credentials text)).1
        (rw h (redact_credentials_bounds text).0)
      ∙ h
