-- ===== src/Executor/Egress/Handler/Independence.antt =====
-- A call of the egress proxy reads no credential but that of the service its host is bound to.

use secure_openclaw_poc.Common.{List, Option, Text, [], none, refl, some, ◌∷◌, ◌≡◌}
use secure_openclaw_poc.Executor.Egress.Placeholders.Owned.{substitute_placeholders-own}
use secure_openclaw_poc.Executor.Egress.Handler.{
  bound_service, handle_egress, ssrf_verdict, with_binding, with_ssrf, with_url, with_vault, Env,
}
use secure_openclaw_poc.Crypto.UseCredential.{Vault}
use secure_openclaw_poc.Executor.SsrfGuard.{SsrfError, SsrfResult}
use secure_openclaw_poc.Common.Outcome.{Outcome, returned, thrown}
use secure_openclaw_poc.Executor.Egress.Proxy.{
  EgressRequest, Url, request, substitute_body, substitute_headers, substitute_request,
}

module _ {S : Type 0} (env : Env S) where
  module _ (v w : Vault) (service_id : Text) (same : v service_id ≡ w service_id) where
    substitute_headers-own :
        (hs : List (Text × Text))
        → substitute_headers env v service_id hs ≡ substitute_headers env w service_id hs
    unfolding substitute_headers
    substitute_headers-own [] = refl
    substitute_headers-own ((name, value) ∷ hs) =
        rw (substitute_headers-own hs, substitute_placeholders-own v w service_id same value) refl

    substitute_body-own :
        (body : Option Text)
        → substitute_body env v service_id body ≡ substitute_body env w service_id body
    substitute_body-own none = refl
    substitute_body-own (some []) = refl
    substitute_body-own (some (c ∷ cs)) =
        rw (substitute_placeholders-own v w service_id same (c ∷ cs)) refl

    substitute_request-own :
        (r : EgressRequest)
        → substitute_request env v service_id r ≡ substitute_request env w service_id r
    unfolding substitute_request
    substitute_request-own r =
        rw
          (
            substitute_placeholders-own v w service_id same r.url,
            substitute_headers-own r.headers,
            substitute_body-own r.body,
          )
          refl

  module _ (v w : Vault) (s : S) where
    with_ssrf-own :
        (r : EgressRequest) (u : Url) (service_id : Text) (o : Outcome SsrfError SsrfResult)
        → v service_id ≡ w service_id
        → with_ssrf env s (some v) r u service_id o ≡ with_ssrf env s (some w) r u service_id o
    unfolding with_ssrf with_vault
    with_ssrf-own r u service_id (thrown e) same = refl
    with_ssrf-own r u service_id (returned ips) same =
        rw (substitute_request-own v w service_id same r) refl

    with_binding-own :
        (r : EgressRequest) (u : Url) (bound : Option Text)
        → ((service_id : Text) → bound ≡ some service_id → v service_id ≡ w service_id)
        → with_binding env s (some v) r u bound ≡ with_binding env s (some w) r u bound
    unfolding with_binding
    with_binding-own r u none same = refl
    with_binding-own r u (some []) same = refl
    with_binding-own r u (some (c ∷ cs)) same =
        with_ssrf-own r u (c ∷ cs) (ssrf_verdict env u) (same (c ∷ cs) refl)

    with_url-own :
        (r : EgressRequest) (u : Url)
        → ((service_id : Text)
            → bound_service env u ≡ some service_id
            → v service_id ≡ w service_id)
        → with_url env s (some v) r (some u) ≡ with_url env s (some w) r (some u)
    unfolding with_url
    with_url-own r u same = rw (with_binding-own r u (bound_service env u) same) refl

    -- Two vaults with the same entry for the service that the host of the request is bound to, if it is
    -- bound to one, make the same call: what it sends and answers does not depend on other entries.
    pub handle_egress-own :
        (r : EgressRequest) (u : Url)
        → env.parse_url r.url ≡ some u
        → ((service_id : Text)
            → bound_service env u ≡ some service_id
            → v service_id ≡ w service_id)
        → handle_egress env (some v) s (request r) ≡ handle_egress env (some w) s (request r)
    unfolding handle_egress
    handle_egress-own r u parsed same = rw parsed (with_url-own r u same)
