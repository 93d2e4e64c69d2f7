-- ===== src/Types/CredentialPatterns/Tests.antt =====
-- Runs of the search with an engine that knows one pattern, and one chunk.

use secure_openclaw_poc.Common.{
  ◌&&◌, Text, [], codes, if◌then◌else◌, false, length, none, refl, str_eq, text_eq, true, ◌∷◌, ◌≡◌,
  ◌≤◌,
}
use secure_openclaw_poc.Types.CredentialPatterns.Clean.{
  itself, recursive_contains_credential-Decodes,
}
use secure_openclaw_poc.Types.CredentialPatterns.{
  Engine, base64_chunk_re, between, contains_credential, matched, max_recursive_input_size,
  recursive_contains_credential, redact_all, redacted_encoded,
}

abbrev key_text : Text
key_text = codes "sk-ant-x"

abbrev chunk_text : Text
chunk_text = codes "c2stYW50LXg="

-- It takes a whole text for a match.
abbrev toy : Engine
toy = record {
  pieces = λ pattern t.
      if str_eq pattern "sk-ant-[A-Za-z0-9_-]+" && text_eq t key_text
      then matched t ∷ []
      else if str_eq pattern base64_chunk_re && text_eq t chunk_text
      then matched t ∷ []
      else between t ∷ [];
  decode_base64 = λ t. if text_eq t chunk_text then key_text else codes "?";
  decode_uri = λ t. none;
}

finds_the_key_behind_a_chunk : recursive_contains_credential toy chunk_text ≡ true
unfolding recursive_contains_credential
finds_the_key_behind_a_chunk = refl

redacts_the_chunk : redact_all toy chunk_text ≡ redacted_encoded
unfolding redact_all
redacts_the_chunk = refl

plain_is_free : recursive_contains_credential toy (codes "plain") ≡ false
unfolding recursive_contains_credential
plain_is_free = refl

recursive_contains_credential-Decodes_example :
    (contains_credential toy (codes "plain") ≡ false)
    × (length (codes "plain") ≤ max_recursive_input_size)
recursive_contains_credential-Decodes_example =
    recursive_contains_credential-Decodes toy (codes "plain") (codes "plain") plain_is_free itself
