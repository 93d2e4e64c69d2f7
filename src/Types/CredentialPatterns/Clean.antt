-- ===== src/Types/CredentialPatterns/Clean.antt =====
-- What the recursive search for credentials rules out.

use secure_openclaw_poc.Common.{
  ◌&&◌, Bool, List, Text, [], arith, false, inl, inr, length, not, some, subst, suc, sym, text_eq,
  true, zero, ◌||◌, ℕ, ◌∷◌, ◌≡◌, ◌≤◌, ◌⊎◌, Bool-cases, ltb, refl, ◌≢◌,
}
use secure_openclaw_poc.Types.CredentialPatterns.{
  Engine, any_chunk, base64_chunk_re, contains_credential, matches, max_recursive_input_size,
  percent_encoded_re, recursive_contains, test, max_recursive_depth, recursive_contains_credential,
  redact_chunk, redacted_encoded,
}

abbrev pub IsIn : Text → List Text → Type 0
IsIn t [] = ⊥
IsIn t (u ∷ us) = (t ≡ u) ⊎ IsIn t us

-- The parts of a disjunction that is false.
or_false : (a b : Bool) → (a || b) ≡ false → (a ≡ false) × (b ≡ false)
or_false a b h = ground arith

module _ (engine : Engine) where
  -- One decoding: of a chunk that looks like base64, or of the whole text where it has a percent sign.
  pub data IsDecoding (t v : Text) : Type 0 where
    of_chunk :
        {chunk : Text}
        → IsIn chunk (matches (engine.pieces base64_chunk_re t))
        → engine.decode_base64 chunk ≡ v
        → text_eq v chunk ≡ false
        → text_eq v [] ≡ false
        → IsDecoding t v
    of_whole :
        test engine percent_encoded_re t ≡ true
        → engine.decode_uri t ≡ some v
        → text_eq v t ≡ false
        → IsDecoding t v

  -- What a text gives by any number of decodings.
  pub data Decodes : Text → Text → Type 0 where
    itself : {t : Text} → Decodes t t
    further : {t v u : Text} → IsDecoding t v → Decodes v u → Decodes t u

  any_chunk-false :
      (fails : Text → Bool) (chunks : List Text) (chunk : Text)
      → any_chunk engine fails chunks ≡ false
      → IsIn chunk chunks
      → text_eq (engine.decode_base64 chunk) chunk ≡ false
      → text_eq (engine.decode_base64 chunk) [] ≡ false
      → fails (engine.decode_base64 chunk) ≡ false
  any_chunk-false fails [] chunk h i changed full = absurd i
  any_chunk-false fails (c ∷ cs) chunk h (inr i) changed full =
      any_chunk-false fails cs chunk (or_false _ (any_chunk engine fails cs) h).1 i changed full
  any_chunk-false fails (c ∷ cs) chunk h (inl same) changed full =
      let first = (or_false _ (any_chunk engine fails cs) h).0 in
      let same_first =
        subst
          (λ (x : Text).
            (not (text_eq (engine.decode_base64 x) x)
              && (not (text_eq (engine.decode_base64 x) []) && fails (engine.decode_base64 x)))
            ≡ false)
          (sym same) first in
      ground arith

  decoding-recursive_contains :
      (left : ℕ) (t v : Text)
      → recursive_contains engine (suc left) t ≡ false
      → IsDecoding t v
      → recursive_contains engine left v ≡ false
  unfolding recursive_contains
  decoding-recursive_contains left t v h (of_chunk {chunk = chunk} i e changed full) =
      let chunks = matches (engine.pieces base64_chunk_re t) in
      let fails = recursive_contains engine left in
      let small = (or_false (ltb max_recursive_input_size (length t)) _ h).1 in
      let searched = (or_false (contains_credential engine t) _ small).1 in
      let none_fails = (or_false (any_chunk engine fails chunks) _ searched).0 in
      subst (λ (x : Text). recursive_contains engine left x ≡ false) e
        (any_chunk-false fails chunks chunk none_fails i (rw e changed) (rw e full))
  decoding-recursive_contains left t v h (of_whole encoded e changed) =
      let chunks = matches (engine.pieces base64_chunk_re t) in
      let fails = recursive_contains engine left in
      let small = (or_false (ltb max_recursive_input_size (length t)) _ h).1 in
      let searched = (or_false (contains_credential engine t) _ small).1 in
      let whole = (or_false (any_chunk engine fails chunks) _ searched).1 in
      let decoded : (not (text_eq v t) && fails v) ≡ false = rw (encoded, e) at whole in
      ground arith

  -- What the search with some levels left rules out.
  recursive_contains-clean :
      (left : ℕ) (t u : Text)
      → recursive_contains engine left t ≡ false
      → Decodes t u
      → (contains_credential engine u ≡ false) × (length u ≤ max_recursive_input_size)
  unfolding recursive_contains
  recursive_contains-clean zero t u h d = absurd (cc)
  recursive_contains-clean (suc left) t u h itself = ground arith
  recursive_contains-clean (suc left) t u h (further {v = v} one rest) =
      recursive_contains-clean left v u (decoding-recursive_contains left t v h one) rest

  -- A text in which no credential is found gives none by any number of decodings, and no text that is
  -- longer than the search reads.
  pub recursive_contains_credential-Decodes :
      (t u : Text)
      → recursive_contains_credential engine t ≡ false
      → Decodes t u
      → (contains_credential engine u ≡ false) × (length u ≤ max_recursive_input_size)
  unfolding recursive_contains_credential
  recursive_contains_credential-Decodes t u h d =
      recursive_contains-clean max_recursive_depth t u h d

  -- What a chunk that is left in a text decodes to holds no credential, by any number of decodings.
  pub redact_chunk-Decodes :
      (chunk u : Text)
      → redact_chunk engine chunk ≢ redacted_encoded
      → Decodes (engine.decode_base64 chunk) u
      → (redact_chunk engine chunk ≡ chunk) × (contains_credential engine u ≡ false)
  unfolding redact_chunk
  redact_chunk-Decodes chunk u kept d =
      elim (Bool-cases (recursive_contains_credential engine (engine.decode_base64 chunk))) [
        | inl found ↦ absurd (kept (rw found refl))
        | inr free ↦ (rw free refl, (recursive_contains_credential-Decodes _ u free d).0)
      ]
