-- ===== src/Executor/Egress/Handler/Cases.antt =====
-- The ways in which a call of the egress proxy ends.

use secure_openclaw_poc.Common.{
  Option, Text, [], arith, if_elim, none, not, refl, some, true, ℕ, ◌∷◌, ◌≡◌, ◌≢◌,
}
use secure_openclaw_poc.Executor.Egress.Handler.{
  bound_service, handle_egress, send, ssrf_verdict, with_binding, with_forward, with_ssrf, with_url,
  with_vault, Env, refuse, AuditResult,
}
use secure_openclaw_poc.Executor.Egress.Placeholders.{
  SubstitutionError, foreign_service, no_such_field, vault_error,
}
use secure_openclaw_poc.Crypto.UseCredential.{Vault}
use secure_openclaw_poc.Executor.SsrfGuard.{SsrfError, SsrfResult}
use secure_openclaw_poc.Common.Outcome.{Outcome, returned, thrown}
use secure_openclaw_poc.Executor.Egress.Proxy.{
  EgressRequest, Forward, Incoming, Refusal, Reply, Url, blocked, is_https, no_json, no_request,
  not_https, request, substitute_request,
}

module _ {S : Type 0} (env : Env S) where
  -- What holds of a call that sends `f`.
  pub record IsBound (vault : Option Vault) (r : EgressRequest) (u : Url) (f : Forward)
      : Type 0 where
    pub service_id : Text
    pub credentials : Vault
    pub resolved : SsrfResult
    pub parsed : env.parse_url r.url ≡ some u
    pub secure : is_https u ≡ true
    pub bound : bound_service env u ≡ some service_id
    pub named : service_id ≢ []
    pub outward : ssrf_verdict env u ≡ returned resolved
    pub held : vault ≡ some credentials
    pub filled : substitute_request env credentials service_id r ≡ returned f

  -- A call is refused with no entry, or blocked with one, or it sends what it is bound to send.
  module _ {κ} (P : Reply S → Type κ) (vault : Option Vault) (s : S)
      (refusal : (why : Refusal) → P (refuse env s [] 400 why))
      (block_of : (r : EgressRequest) (u : Url) (result : AuditResult) (status : ℕ) (why : Refusal)
        → P (blocked env s r u result status why)) where
    abbrev Sent : EgressRequest → Type κ
    Sent r = (u : Url) (f : Forward) → IsBound vault r u f → P (send env s r u f)

    with_forward_elim :
        (r : EgressRequest) (u : Url) (o : Outcome SubstitutionError Forward)
        → ((f : Forward) → o ≡ returned f → P (send env s r u f))
        → P (with_forward env s r u o)
    unfolding with_forward
    with_forward_elim r u (returned f) sent = sent f refl
    with_forward_elim r u (thrown vault_error) sent = block_of r u _ _ _
    with_forward_elim r u (thrown (foreign_service service_id)) sent = block_of r u _ _ _
    with_forward_elim r u (thrown (no_such_field service_id field)) sent = block_of r u _ _ _

    with_vault_elim :
        (r : EgressRequest) (u : Url) (service_id : Text) (v : Option Vault)
        → ((w : Vault) (f : Forward)
            → v ≡ some w
            → substitute_request env w service_id r ≡ returned f
            → P (send env s r u f))
        → P (with_vault env s r u service_id v)
    unfolding with_vault
    with_vault_elim r u service_id none sent = block_of r u _ _ _
    with_vault_elim r u service_id (some w) sent =
        with_forward_elim r u (substitute_request env w service_id r) (λ f. sent w f refl)

    with_ssrf_elim :
        (r : EgressRequest) (u : Url) (service_id : Text) (o : Outcome SsrfError SsrfResult)
        → ((ips : SsrfResult) → o ≡ returned ips → P (with_vault env s r u service_id vault))
        → P (with_ssrf env s vault r u service_id o)
    unfolding with_ssrf
    with_ssrf_elim r u service_id (thrown e) go = block_of r u _ _ _
    with_ssrf_elim r u service_id (returned ips) go = go ips refl

    with_binding_elim :
        (r : EgressRequest) (u : Url) (bound : Option Text)
        → ((service_id : Text)
            → bound ≡ some service_id
            → service_id ≢ []
            → P (with_ssrf env s vault r u service_id (ssrf_verdict env u)))
        → P (with_binding env s vault r u bound)
    unfolding with_binding
    with_binding_elim r u none go = block_of r u _ _ _
    with_binding_elim r u (some []) go = block_of r u _ _ _
    with_binding_elim r u (some (c ∷ cs)) go = go (c ∷ cs) refl (λ h. cc)

    with_url_elim :
        (r : EgressRequest) (u : Option Url)
        → env.parse_url r.url ≡ u
        → Sent r
        → P (with_url env s vault r u)
    unfolding with_url
    with_url_elim r none e sent = refusal _
    with_url_elim r (some u) e sent =
        if_elim P (not (is_https u)) (refuse env s [] 400 not_https)
          (with_binding env s vault r u (bound_service env u)) (λ plain. refusal _)
          (λ secure. with_binding_elim r u (bound_service env u) (λ service_id bound named.
            with_ssrf_elim r u service_id (ssrf_verdict env u) (λ ips outward.
              with_vault_elim r u service_id vault (λ w f held filled. sent u f (record {
                service_id = service_id;
                credentials = w;
                resolved = ips;
                parsed = e;
                secure = ground arith;
                bound = bound;
                named = named;
                outward = outward;
                held = held;
                filled = filled;
              })))))

    pub handle_egress_elim :
        (incoming : Incoming)
        → ((r : EgressRequest) → incoming ≡ request r → Sent r)
        → P (handle_egress env vault s incoming)
    unfolding handle_egress
    handle_egress_elim no_json sent = refusal _
    handle_egress_elim no_request sent = refusal _
    handle_egress_elim (request r) sent = with_url_elim r (env.parse_url r.url) refl (sent r refl)
