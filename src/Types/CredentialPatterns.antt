-- ===== src/Types/CredentialPatterns.antt =====
-- packages/types/src/credential-patterns.ts. A pattern is its source text; the engine of regular
-- expressions gives the pieces of a text by a pattern, those that match and those between them. The
-- decoding of base64 with UTF-8, which gives a text for any text, and `decodeURIComponent`, which may
-- fail, come from outside as well.
use secure_openclaw_poc.Common.{
  ◌&&◌, ◌*◌, ◌++◌, Bool, List, Option, String, Text, [], any, codes, if◌then◌else◌, false, length,
  ltb, none, not, some, suc, text_eq, true, zero, ◌||◌, ℕ, ◌∷◌,
}
pub mod Clean
mod Tests

pub data Piece : Type 0 where
  between : Text → Piece
  matched : Text → Piece

pub record Engine : Type 0 where
  pub pieces : (pattern : String) → Text → List Piece
  pub decode_base64 : Text → Text
  pub decode_uri : Text → Option Text

abbrev pub credential_patterns : List String
credential_patterns =
    "sk-ant-[A-Za-z0-9_-]+" ∷ "sk-[A-Za-z0-9_-]{20,}" ∷ "AIza[A-Za-z0-9_-]{35}"
    ∷ "ya29\\.[A-Za-z0-9_\\-.]+" ∷ "1\\/\\/[A-Za-z0-9_\\-.]{60,}" ∷ "4\\/[A-Za-z0-9_\\-.]{40,}"
    ∷ "GOCSPX-[A-Za-z0-9_-]{20,}" ∷ "ghp_[A-Za-z0-9]{36,}" ∷ "gho_[A-Za-z0-9]{36,}"
    ∷ "ghu_[A-Za-z0-9]{36,}" ∷ "ghs_[A-Za-z0-9]{36,}" ∷ "xoxb-[A-Za-z0-9-]+" ∷ "xoxp-[A-Za-z0-9-]+"
    ∷ "xoxa-[A-Za-z0-9-]+" ∷ "xoxr-[A-Za-z0-9-]+" ∷ "AKIA[A-Z0-9]{16}"
    ∷ "Bearer\\s+[A-Za-z0-9_\\-.~+/]+=*" ∷ "(?:postgres|mysql|mongodb(?:\\+srv)?):\\/\\/[^\\s]+"
    ∷ "-----BEGIN\\s+(?:RSA\\s+|EC\\s+|OPENSSH\\s+|DSA\\s+)?PRIVATE KEY-----[\\s\\S]{1,16384}?-----END\\s+(?:RSA\\s+|EC\\s+|OPENSSH\\s+|DSA\\s+)?PRIVATE KEY-----"
    ∷ "\\beyJ[A-Za-z0-9_-]{10,}\\.[A-Za-z0-9_-]+\\.[A-Za-z0-9_-]+"
    ∷ "\\bsk_(live|test)_[A-Za-z0-9]{20,}" ∷ "\\b\\d{8,}:[A-Za-z0-9_-]{35}\\b" ∷ []

abbrev pub redacted : Text
redacted = codes "[REDACTED]"

abbrev pub redacted_encoded : Text
redacted_encoded = codes "[REDACTED_ENCODED]"

abbrev pub base64_chunk_re : String
base64_chunk_re = "[A-Za-z0-9+/=]{20,}"

abbrev pub percent_encoded_re : String
percent_encoded_re = "%[0-9A-Fa-f]{2}"

abbrev pub url_encoded_run_re : String
url_encoded_run_re = "[A-Za-z0-9_\\-.~+/=]*(?:%[0-9A-Fa-f]{2}[A-Za-z0-9_\\-.~+/=]*)+"

abbrev pub max_recursive_depth : ℕ
max_recursive_depth = 4

abbrev pub max_recursive_input_size : ℕ
max_recursive_input_size = 65536

abbrev pub pii_patterns : List String
pii_patterns =
    "\\b\\d{3}-\\d{2}-\\d{4}\\b" ∷ "\\(\\d{3}\\)\\s?\\d{3}[-. ]\\d{4}"
    ∷ "(?<!\\d)\\d{3}[-. ]\\d{3}[-. ]\\d{4}(?!\\d)" ∷ "\\+1\\d{10}\\b"
    ∷ "\\b[A-Za-z0-9._%+-]+@[A-Za-z0-9.-]+\\.[A-Za-z]{2,}\\b"
    ∷ "\\$\\d{1,3},\\d{3}(,\\d{3})*(\\.\\d{2})?\\b" ∷ "\\$\\d+[Kk]\\b"
    ∷ "https?:\\/\\/(www\\.)?linkedin\\.com\\/in\\/[A-Za-z0-9_-]+\\/?"
    ∷ "https?:\\/\\/(www\\.)?github\\.com\\/[A-Za-z0-9_-]+\\/?(?=\\s|$)" ∷ []

abbrev pub pii_redacted : Text
pii_redacted = codes "[PII_REDACTED]"

abbrev pub matches : List Piece → List Text
matches [] = []
matches (between t ∷ ps) = matches ps
matches (matched t ∷ ps) = t ∷ matches ps

abbrev pub replaced : (Text → Text) → List Piece → Text
replaced f [] = []
replaced f (between t ∷ ps) = t ++ replaced f ps
replaced f (matched t ∷ ps) = f t ++ replaced f ps

abbrev pub is_full : List Text → Bool
is_full [] = false
is_full (t ∷ ts) = true

module _ (engine : Engine) where
  -- `pattern.test(text)`, from the start.
  abbrev pub test : (pattern : String) → Text → Bool
  test pattern text = is_full (matches (engine.pieces pattern text))

  -- `text.replace(pattern, f)`, for all matches.
  abbrev pub replace : (pattern : String) → (Text → Text) → Text → Text
  replace pattern f text = replaced f (engine.pieces pattern text)

  unfoldable pub contains_credential : Text → Bool
  contains_credential text = any (λ pattern. test pattern text) credential_patterns

  abbrev pub replace_each : (replacement : Text) → List String → Text → Text
  replace_each replacement [] text = text
  replace_each replacement (pattern ∷ patterns) text =
      replace_each replacement patterns (replace pattern (λ found. replacement) text)

  unfoldable pub redact_all_credentials : Text → Text
  redact_all_credentials text = replace_each redacted credential_patterns text

  -- Of the chunks, one that is not its own decoding and whose decoding fails the test.
  abbrev pub any_chunk : (fails : Text → Bool) → List Text → Bool
  any_chunk fails [] = false
  any_chunk fails (chunk ∷ chunks) =
      let decoded = engine.decode_base64 chunk in
      (not (text_eq decoded chunk) && (not (text_eq decoded []) && fails decoded))
      || any_chunk fails chunks

  abbrev pub decoded_fails : (fails : Text → Bool) → (text : Text) → Option Text → Bool
  decoded_fails fails text none = false
  decoded_fails fails text (some decoded) = not (text_eq decoded text) && fails decoded

  -- `left` is the number of levels that are left: the depth is `max_recursive_depth - left`.
  unfoldable pub recursive_contains : (left : ℕ) → (text : Text) → Bool
  unfolding contains_credential
  recursive_contains zero text = true
  recursive_contains (suc left) text =
      ltb max_recursive_input_size (length text)
      || (contains_credential text
          || (any_chunk (recursive_contains left) (matches (engine.pieces base64_chunk_re text))
              || (test percent_encoded_re text
                  && decoded_fails (recursive_contains left) text (engine.decode_uri text))))

  unfoldable pub recursive_contains_credential : (text : Text) → Bool
  unfolding recursive_contains
  recursive_contains_credential text = recursive_contains max_recursive_depth text

  unfoldable pub redact_chunk : (chunk : Text) → Text
  unfolding recursive_contains_credential
  redact_chunk chunk =
      if recursive_contains_credential (engine.decode_base64 chunk) then redacted_encoded else chunk

  abbrev pub redact_decoded : (segment : Text) → Option Text → Text
  redact_decoded segment none = segment
  redact_decoded segment (some decoded) =
      if recursive_contains_credential decoded then redacted_encoded else segment

  unfoldable pub redact_segment : (segment : Text) → Text
  unfolding recursive_contains_credential
  redact_segment segment = redact_decoded segment (engine.decode_uri segment)

  unfoldable pub redact_all_credentials_with_encoding : Text → Text
  unfolding redact_all_credentials redact_chunk redact_segment
  redact_all_credentials_with_encoding text =
      let result = replace base64_chunk_re redact_chunk (redact_all_credentials text) in
      if test percent_encoded_re result
      then replace url_encoded_run_re redact_segment result
      else result

  unfoldable pub redact_pii : Text → Text
  redact_pii text = replace_each pii_redacted pii_patterns text

  unfoldable pub redact_all : Text → Text
  unfolding redact_pii redact_all_credentials_with_encoding
  redact_all text = redact_pii (redact_all_credentials_with_encoding text)
