-- ===== src/Executor/Auth.antt =====
-- packages/executor/src/auth-middleware.ts, confirm-token.ts, and the middleware of server.ts that
-- lets a request in.
--
-- `sha256` and `hmac` are node:crypto's; `hmac id expires` is the hexadecimal digest of the payload
-- `id:expires` under the secret. Digests are compared as texts of lower-case digits, which is the
-- comparison of their bytes. A missing header and an empty one are told apart.
pub mod Entry
mod Tests
use secure_openclaw_poc.Common.{
  List, ◌&&◌, ◌==◌, Bool, Option, String, Text, [], after_prefix, any, codes, if◌then◌else◌, false,
  is_space, leb, length, ltb, none, not, skip_spaces, some, text_eq, ◌||◌, ℕ, ◌∷◌,
}

pub data Verdict : Type 0 where
  next : Verdict
  invalid_format authorization_required invalid_token : Verdict
  both_required invalid_query invalid_confirmation : Verdict

pub record Request : Type 0 where
  pub is_health : Bool
  pub confirm_id : Option String
  pub token : Option Text
  pub expires : Option Text
  pub authorization : Option Text
  pub x_api_key : Option Text

-- `value ? value : undefined`.
abbrev pub truthy : Option Text → Option Text
truthy none = none
truthy (some []) = none
truthy (some (c ∷ cs)) = some (c ∷ cs)

-- `(\S+)$`.
abbrev no_spaces : Text → Option Text
no_spaces [] = none
no_spaces (c ∷ cs) = if any is_space (c ∷ cs) then none else some (c ∷ cs)

-- `^Bearer\s+(\S+)$`.
unfoldable pub bearer : Text → Option Text
bearer header = elim (after_prefix (codes "Bearer") header) [
  | none ↦ none
  | some [] ↦ none
  | some (c ∷ cs) ↦ if is_space c then no_spaces (skip_spaces cs) else none
]

-- `^[0-9a-f]{64}$`.
unfoldable pub is_hex_digest : Text → Bool
is_hex_digest t =
    (length t == 64) && not (any (λ c. not ((leb 48 c && leb c 57) || (leb 97 c && leb c 102))) t)

module _ (sha256 : Text → Text) where
  pub with_provided : (configured_hash : Text) → Option Text → Verdict
  with_provided configured_hash none = authorization_required
  with_provided configured_hash (some provided) =
      if text_eq (sha256 provided) configured_hash then next else invalid_token

  -- `found`: what the pattern matched in the header.
  pub with_match : (configured_hash : Text) → (found : Option Text) → Verdict
  unfolding with_provided
  with_match configured_hash none = invalid_format
  with_match configured_hash (some provided) = with_provided configured_hash (some provided)

  pub with_header : (configured_hash : Text) → Option Text → Option Text → Verdict
  unfolding with_match
  with_header configured_hash (some header) x_api_key = with_match configured_hash (bearer header)
  with_header configured_hash none x_api_key = with_provided configured_hash x_api_key

  pub with_configured : (configured : Option Text) → Request → Verdict
  unfolding with_header
  with_configured none r = next
  with_configured (some configured) r =
      with_header (sha256 configured) (truthy r.authorization) (truthy r.x_api_key)

  unfoldable pub auth_middleware : (configured_token : Option Text) → Request → Verdict
  unfolding with_configured
  auth_middleware configured_token r = with_configured (truthy configured_token) r

module _ (hmac : String → ℕ → Text) where
  unfoldable pub verify_confirm_token : (now : ℕ) → String → Text → (expires_at : ℕ) → Bool
  verify_confirm_token now manifest_id token expires_at =
      if ltb expires_at now
      then false
      else if not (is_hex_digest token)
      then false
      else text_eq (hmac manifest_id expires_at) token

  unfoldable pub generate_confirm_token : String → (expires_at : ℕ) → Text
  generate_confirm_token manifest_id expires_at = hmac manifest_id expires_at

-- `coerce` is `z.coerce.number().int()` on a text, and none where it fails or gives a negative number,
-- which the schema refuses as well.
module _ (sha256 : Text → Text) (hmac : String → ℕ → Text) (coerce : Text → Option ℕ) where
  pub with_expiry : (now : ℕ) → String → (token : Text) → Option ℕ → Verdict
  with_expiry now id token none = invalid_query
  with_expiry now id token (some expires) =
      if (expires == 0) || not (is_hex_digest token)
      then invalid_query
      else if verify_confirm_token hmac now id token expires
      then next
      else invalid_confirmation

  -- For a route of the confirmations, by the two parameters of the query.
  pub with_query :
      (configured_token : Option Text) (now : ℕ)
      → Request
      → String
      → (token expires : Option Text) → Verdict
  unfolding with_expiry
  with_query configured now r id none none = auth_middleware sha256 configured r
  with_query configured now r id none (some expires) = both_required
  with_query configured now r id (some token) none = both_required
  with_query configured now r id (some token) (some expires) =
      with_expiry now id token (coerce expires)

  pub with_route :
      (configured_token : Option Text) (now : ℕ) → Request → (confirm_id : Option String) → Verdict
  unfolding with_query
  with_route configured now r none = auth_middleware sha256 configured r
  with_route configured now r (some id) =
      with_query configured now r id (truthy r.token) (truthy r.expires)

  unfoldable pub authorize : (configured_token : Option Text) (now : ℕ) → Request → Verdict
  unfolding with_route
  authorize configured now r =
      if r.is_health then next else with_route configured now r r.confirm_id
