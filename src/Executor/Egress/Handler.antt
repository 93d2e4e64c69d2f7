-- ===== src/Executor/Egress/Handler.antt =====
-- The handler that createEgressProxyHandler of packages/executor/src/egress-proxy.ts makes: each function
-- is the rest of the handler from one of its tests on.
pub mod Cases
pub mod Sending
pub mod Receiving
pub mod Independence
use secure_openclaw_poc.Common.{
  ◌&&◌, ◌++◌, ◌==◌, Bool, List, Option, Text, [], codes, if◌then◌else◌, filter, ltb, map, none, not,
  some, text_eq, text_in, ℕ, ◌∷◌,
}
use secure_openclaw_poc.Executor.Egress.Placeholders.{
  SubstitutionError, foreign_service, no_such_field, vault_error,
}
use secure_openclaw_poc.Crypto.UseCredential.{Vault}
use secure_openclaw_poc.Executor.SsrfGuard.{SsrfError, SsrfResult, check_ssrf}
use secure_openclaw_poc.Common.Outcome.{Outcome, returned, thrown}
use secure_openclaw_poc.Types.{
  AuditResult, auto_approve, block, success, failure, blocked_by_policy,
}
use secure_openclaw_poc.Executor.Egress.Proxy.{
  Body, EgressRequest, Forward, Incoming, Reply, UpstreamResponse, Url, allowed_response_headers,
  allows_body, audit_log, blocked, broken, build_domain_map, credential_error, fetches, forwarded,
  get_domain, invalid_json, is_https, is_telegram_get_updates, no_json, no_request, no_vault,
  not_bound, not_https, over_limit, read_body, request, ssrf_protection, substitute_request,
  substitution_failed, target_host, telegram, timeout_for, too_large, upstream_error, whole, Env,
  Event, refuse, invalid_url, invalid_request,
}
use secure_openclaw_poc.Executor.Egress.Telegram.{
  Action, Intercepted, TelegramInterceptor, TelegramUpdate, intercept_telegram_updates,
}

module _ {S : Type 0} (env : Env S) where
  abbrev pub is_allowed_header : (name : Text) → Bool
  is_allowed_header name =
      text_in (env.lower name) allowed_response_headers
      && not (text_eq (env.lower name) (codes "content-length"))

  abbrev pub status_result : (status : ℕ) → AuditResult
  status_result status = if ltb status 400 then success else failure

  -- The response, with the last entry; where it cannot be made, the error is caught.
  unfoldable pub respond :
      S → EgressRequest → Url → UpstreamResponse → (before : List Event) (raw_body : Text) → Reply S
  unfolding allows_body
  respond s r u a before raw_body =
      let events = before ++ audit_log env r u auto_approve (status_result a.status) ∷ [] in
      if allows_body a.status
      then record {
        state = s;
        events = events;
        response =
            forwarded a.status (filter (λ h. is_allowed_header h.0) a.headers)
              (env.redact raw_body);
      }
      else refuse env s (events ++ audit_log env r u auto_approve failure ∷ []) 502 upstream_error

  abbrev pub respond_intercepted :
      EgressRequest
      → Url
      → UpstreamResponse
      → (raw_body : Text) → S × (List Action × List Intercepted)
      → Reply S
  respond_intercepted r u a raw_body (s, (actions, places)) =
      respond s r u a (map telegram actions) (env.with_updates raw_body places)

  abbrev pub with_updates :
      S
      → EgressRequest
      → Url
      → UpstreamResponse
      → (raw_body : Text) → TelegramInterceptor S
      → Option (List TelegramUpdate)
      → Reply S
  with_updates s r u a raw_body i none = respond s r u a [] raw_body
  with_updates s r u a raw_body i (some updates) =
      respond_intercepted r u a raw_body (intercept_telegram_updates i s updates)

  pub with_interceptor :
      S
      → EgressRequest
      → Url
      → UpstreamResponse
      → (raw_body : Text) → Option (TelegramInterceptor S)
      → Reply S
  with_interceptor s r u a raw_body none = respond s r u a [] raw_body
  with_interceptor s r u a raw_body (some i) =
      if is_telegram_get_updates env u && a.status == 200
      then with_updates s r u a raw_body i (env.updates_of raw_body)
      else respond s r u a [] raw_body

  pub with_body : S → EgressRequest → Url → UpstreamResponse → Body → Reply S
  unfolding with_interceptor
  with_body s r u a over_limit =
      refuse env s (audit_log env r u block blocked_by_policy ∷ []) 502 too_large
  with_body s r u a broken =
      refuse env s (audit_log env r u auto_approve failure ∷ []) 502 upstream_error
  with_body s r u a (whole bytes) =
      with_interceptor s r u a (env.decode bytes) env.telegram_interceptor

  pub with_answer : S → EgressRequest → Url → Option UpstreamResponse → Reply S
  unfolding with_body
  with_answer s r u none =
      refuse env s (audit_log env r u auto_approve failure ∷ []) 502 upstream_error
  with_answer s r u (some a) = with_body s r u a (read_body env.max_response_bytes 0 a.readings)

  abbrev pub after : Event → Reply S → Reply S
  after e reply = record reply { events = e ∷ reply.events }

  -- The request is sent.
  abbrev pub send : S → EgressRequest → Url → Forward → Reply S
  send s r u f =
      after (fetches r.method f (timeout_for env (is_telegram_get_updates env u) f.body))
        (with_answer s r u (env.fetch r.method f))

  pub with_forward : S → EgressRequest → Url → Outcome SubstitutionError Forward → Reply S
  unfolding with_answer
  with_forward s r u (returned f) = send s r u f
  with_forward s r u (thrown vault_error) = blocked env s r u failure 500 credential_error
  with_forward s r u (thrown (foreign_service service_id)) =
      blocked env s r u blocked_by_policy 403 substitution_failed
  with_forward s r u (thrown (no_such_field service_id field)) =
      blocked env s r u blocked_by_policy 403 substitution_failed

  pub with_vault : S → EgressRequest → Url → (service_id : Text) → Option Vault → Reply S
  unfolding with_forward
  with_vault s r u service_id none = blocked env s r u failure 500 no_vault
  with_vault s r u service_id (some vault) =
      with_forward s r u (substitute_request env vault service_id r)

  pub with_ssrf :
      S
      → Option Vault
      → EgressRequest
      → Url
      → (service_id : Text) → Outcome SsrfError SsrfResult
      → Reply S
  unfolding with_vault
  with_ssrf s vault r u service_id (thrown e) =
      blocked env s r u blocked_by_policy 403 ssrf_protection
  with_ssrf s vault r u service_id (returned ips) = with_vault s r u service_id vault

  unfoldable pub ssrf_verdict : Url → Outcome SsrfError SsrfResult
  ssrf_verdict u = check_ssrf env.number env.parse_hex env.resolve4 env.resolve6 (some u.hostname)

  pub with_binding : S → Option Vault → EgressRequest → Url → (bound : Option Text) → Reply S
  unfolding with_ssrf
  with_binding s vault r u none = blocked env s r u blocked_by_policy 403 not_bound
  with_binding s vault r u (some []) = blocked env s r u blocked_by_policy 403 not_bound
  with_binding s vault r u (some (c ∷ cs)) = with_ssrf s vault r u (c ∷ cs) (ssrf_verdict u)

  unfoldable pub bound_service : Url → Option Text
  unfolding build_domain_map get_domain
  bound_service u = get_domain (target_host env u) (build_domain_map env env.bindings)

  pub with_url : S → Option Vault → EgressRequest → Option Url → Reply S
  unfolding with_binding
  with_url s vault r none = refuse env s [] 400 invalid_url
  with_url s vault r (some u) =
      if not (is_https u)
      then refuse env s [] 400 not_https
      else with_binding s vault r u (bound_service u)

  unfoldable pub handle_egress : (vault : Option Vault) → S → Incoming → Reply S
  unfolding with_url
  handle_egress vault s no_json = refuse env s [] 400 invalid_json
  handle_egress vault s no_request = refuse env s [] 400 invalid_request
  handle_egress vault s (request r) = with_url s vault r (env.parse_url r.url)
