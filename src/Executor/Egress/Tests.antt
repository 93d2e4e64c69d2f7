-- ===== src/Executor/Egress/Tests.antt =====
-- Runs of the egress proxy.
use secure_openclaw_poc.Executor.Egress.Placeholders.Kept.{Begins}
use secure_openclaw_poc.Executor.SsrfGuard.{check_ssrf}
use secure_openclaw_poc.Types.Json.{Json}
use secure_openclaw_poc.Types.{auto_approve, success}
use secure_openclaw_poc.Common.{
  List, Text, [], codes, if◌then◌else◌, false, none, refl, some, subst, suc, text_eq, true, ℕ, ◌∷◌,
  ◌≡◌, ◌⊎◌, text_in, includes, sym, ◌∙◌, arith,
}
use secure_openclaw_poc.Common.Outcome.{returned, thrown}
use secure_openclaw_poc.Executor.Egress.Handler.Independence.{handle_egress-own}
use secure_openclaw_poc.Executor.Egress.Handler.Receiving.{handle_egress-Comes, Comes}
use secure_openclaw_poc.Executor.Egress.Handler.{
  bound_service, handle_egress, ssrf_verdict, respond,
}
use secure_openclaw_poc.Executor.Egress.Placeholders.{
  foreign_service, substitute_placeholders, replace_all,
}
use secure_openclaw_poc.Crypto.UseCredential.{no_credential, Vault, use_credential}
use secure_openclaw_poc.Executor.Egress.Handler.Sending.{
  IsLogged, Sends, handle_egress-IsLogged, handle_egress-Begins,
}
use secure_openclaw_poc.Executor.Egress.Telegram.{
  Intercepted, TelegramInterceptor, TelegramUpdate, acknowledges, intercept_telegram_updates,
  passed, resolves, stub, data_text,
}
use secure_openclaw_poc.Executor.Egress.Proxy.{
  EgressRequest, Refusal, Url, audit_log, fetches, forwarded, request, telegram, upstream_error,
  Env, refused, refuse, substitute_request, read_body, is_telegram_get_updates,
}

abbrev host : Text
host = codes "api.telegram.org"

abbrev address : Url
address = record { protocol = codes "https:"; hostname = host; pathname = codes "/getUpdates" }

-- An update that approves a confirmation, and one that is none.
abbrev approval : TelegramUpdate
approval = record {
  update_id = 7;
  callback_query = some (record {
    id = codes "q";
    callback_data = data_text (codes "confirm:m1:approve");
    chat_id = some (codes "-5");
  });
  original = Json.null;
}

abbrev message : TelegramUpdate
message = record { update_id = 8; callback_query = none; original = Json.null }

abbrev interceptor : TelegramInterceptor ℕ
interceptor = record {
  is_authorized_chat = λ chat_id. text_eq chat_id (codes "-5");
  resolve_confirmation = λ n manifest_id approved. (suc n, true);
}

abbrev shown : List Intercepted → Text
shown [] = []
shown (passed u ∷ ps) = u.update_id ∷ shown ps
shown (stub n ∷ ps) = 0 ∷ shown ps

-- An upstream service that answers with a status.
abbrev env_of : (status : ℕ) → Env ℕ
env_of status = record {
  lower = λ t. t;
  parse_url = λ t. some address;
  number = λ t. some 8;
  parse_hex = λ t. none;
  resolve4 = λ t. some (codes "8.8.8.8" ∷ []);
  resolve6 = λ t. none;
  fetch = λ method f. some (record {
    status = status;
    headers = (codes "retry-after", codes "1") ∷ (codes "set-cookie", codes "c") ∷ [];
    readings = some (1 ∷ 2 ∷ []) ∷ some (3 ∷ []) ∷ [];
  });
  decode = λ bytes. bytes;
  poll_timeout_ms = λ body. none;
  updates_of = λ body. some (approval ∷ message ∷ []);
  with_updates = λ body places. shown places;
  redact = λ t. t;
  uuid = "e";
  manifest_uuid = "m";
  iso_time = "t";
  duration_ms = 1;
  bindings = record { service_id = codes "TG"; allowed_domains = host ∷ [] } ∷ [];
  max_response_bytes = 10;
  telegram_interceptor = some interceptor;
}

abbrev vault : Vault
vault service_id =
    if text_eq service_id (codes "TG")
    then returned
        ((codes "TOKEN", Json.text (codes "abc")) ∷ (codes "TOKEN_2", Json.text (codes "xyz")) ∷ [])
    else returned ((codes "KEY", Json.text (codes "hidden")) ∷ [])

abbrev other_vault : Vault
other_vault service_id =
    if text_eq service_id (codes "TG") then vault service_id else thrown no_credential

abbrev poll : EgressRequest
poll = record {
  url = codes "https://api.telegram.org/botSENTINEL_PLACEHOLDER_TG__TOKEN/getUpdates";
  method = codes "GET";
  headers = [];
  body = none;
  agent_id = "a";
  session_id = "s";
}

fills_the_token :
    substitute_placeholders poll.url vault (codes "TG")
    ≡ returned (codes "https://api.telegram.org/botabc/getUpdates")
unfolding substitute_placeholders text_in use_credential replace_all
fills_the_token = refl

refuses_another_service :
    substitute_placeholders (codes "SENTINEL_PLACEHOLDER_GH__KEY") vault (codes "TG")
    ≡ thrown (foreign_service (codes "GH"))
unfolding substitute_placeholders text_in
refuses_another_service = refl

-- A placeholder whose text begins with that of an earlier one is filled with the wrong credential.
fills_a_longer_name_wrongly :
    substitute_placeholders
      (codes "SENTINEL_PLACEHOLDER_TG__TOKEN SENTINEL_PLACEHOLDER_TG__TOKEN_2")
      vault
      (codes "TG")
    ≡ returned (codes "abc abc_2")
unfolding substitute_placeholders text_in use_credential replace_all
fills_a_longer_name_wrongly = refl

-- An update with an approval settles it, and the agent sees its id only; one header is forwarded.
intercepts : handle_egress (env_of 200) (some vault) 0 (request poll) ≡ record {
  state = 1;
  events =
      fetches
        (codes "GET")
        (record {
          url = codes "https://api.telegram.org/botabc/getUpdates";
          headers = [];
          body = none;
        })
        60000
      ∷ telegram (resolves (codes "m1") true)
      ∷ telegram (acknowledges (codes "q") (codes "Approved") false)
      ∷ audit_log (env_of 200) poll address auto_approve success
      ∷ [];
  response = forwarded 200 ((codes "retry-after", codes "1") ∷ []) (0 ∷ 8 ∷ []);
}
unfolding handle_egress bound_service ssrf_verdict check_ssrf includes substitute_request
    substitute_placeholders text_in use_credential read_body replace_all is_telegram_get_updates
    respond intercept_telegram_updates
intercepts = refl

-- A response without content is logged as a success and as a failure, and given to the agent as an error.
no_content_is_an_error :
    (handle_egress (env_of 204) (some vault) 0 (request poll)).response ≡ refused 502 upstream_error
unfolding handle_egress bound_service ssrf_verdict check_ssrf includes substitute_request
    substitute_placeholders text_in use_credential read_body is_telegram_get_updates respond
no_content_is_an_error = refl

-- The host of the polled URL stands before its placeholder.
handle_egress-Begins_example :
    Sends
      (λ method f. Begins (codes "https://api.telegram.org") f.url)
      (handle_egress (env_of 200) (some vault) 0 (request poll)).events
handle_egress-Begins_example =
    handle_egress-Begins (env_of 200) (some vault) 0 poll (codes "https://api.telegram.org")
      (codes "botSENTINEL_PLACEHOLDER_TG__TOKEN/getUpdates", refl, ground arith)

bound_to_telegram : bound_service (env_of 200) address ≡ some (codes "TG")
unfolding bound_service
bound_to_telegram = refl

handle_egress-own_example :
    handle_egress (env_of 200) (some vault) 0 (request poll)
    ≡ handle_egress (env_of 200) (some other_vault) 0 (request poll)
handle_egress-own_example =
    handle_egress-own (env_of 200) vault other_vault 0 poll address refl held_by_both
  where
    held_by_both :
        (service_id : Text)
        → bound_service (env_of 200) address ≡ some service_id
        → vault service_id ≡ other_vault service_id
    held_by_both service_id e =
        let named : some (codes "TG") ≡ some service_id = sym bound_to_telegram ∙ e in
        let same : codes "TG" ≡ service_id = cc in
        subst (λ (t : Text). vault t ≡ other_vault t) same refl

handle_egress-IsLogged_example :
    ((why : Refusal) × (handle_egress (env_of 204) (some vault) 0 (request poll)
        ≡ refuse (env_of 204) 0 [] 400 why))
    ⊎ IsLogged (env_of 204) (handle_egress (env_of 204) (some vault) 0 (request poll))
handle_egress-IsLogged_example = handle_egress-IsLogged (env_of 204) (some vault) 0 (request poll)

handle_egress-Comes_example :
    Comes
      (env_of 200)
      (some vault)
      (request poll)
      (handle_egress (env_of 200) (some vault) 0 (request poll)).response
handle_egress-Comes_example = handle_egress-Comes (env_of 200) (some vault) 0 (request poll)
