-- ===== src/Executor/Auth/Tests.antt =====
-- Runs of the authentication.
use secure_openclaw_poc.Executor.Auth.{
  Request, authorize, next, authorization_required, invalid_confirmation, auth_middleware,
  verify_confirm_token, bearer, is_hex_digest,
}
use secure_openclaw_poc.Common.{
  Option, String, Text, codes, false, none, refl, some, true, ℕ, ◌≡◌, ◌⊎◌, is_space, skip_spaces,
}
use secure_openclaw_poc.Executor.Auth.Entry.{authorize-next, IsAuthenticated, HasConfirmToken}

abbrev same : Text → Text
same t = t

abbrev one_digest : String → ℕ → Text
one_digest id expires = codes "0000000000000000000000000000000000000000000000000000000000000000"

abbrev at_nine : Text → Option ℕ
at_nine t = some 9

abbrev from_a_phone : Request
from_a_phone = record {
  is_health = false;
  confirm_id = some "m";
  token = some (one_digest "m" 9);
  expires = some (codes "9");
  authorization = none;
  x_api_key = none;
}

abbrev from_the_agent : Request
from_the_agent = record {
  is_health = false;
  confirm_id = none;
  token = none;
  expires = none;
  authorization = some (codes "Bearer  key");
  x_api_key = none;
}

abbrev from_nobody : Request
from_nobody = record {
  is_health = false;
  confirm_id = some "m";
  token = none;
  expires = none;
  authorization = none;
  x_api_key = none;
}

the_agent_is_let_in : authorize same one_digest at_nine (some (codes "key")) 5 from_the_agent ≡ next
unfolding authorize auth_middleware bearer is_space skip_spaces
the_agent_is_let_in = refl

nobody_is_asked_for_a_token :
    authorize same one_digest at_nine (some (codes "key")) 5 from_nobody ≡ authorization_required
unfolding authorize auth_middleware
nobody_is_asked_for_a_token = refl

a_late_phone_is_refused :
    authorize same one_digest at_nine (some (codes "key")) 10 from_a_phone ≡ invalid_confirmation
unfolding authorize verify_confirm_token is_hex_digest
a_late_phone_is_refused = refl

authorize-next_example :
    (false ≡ true)
    ⊎ (IsAuthenticated same one_digest at_nine (some (codes "key")) from_a_phone
        ⊎ HasConfirmToken same one_digest at_nine 5 from_a_phone)
unfolding authorize verify_confirm_token is_hex_digest
authorize-next_example =
    authorize-next same one_digest at_nine (some (codes "key")) 5 from_a_phone refl
