-- ===== src/Executor/Endpoints/Permission.antt =====
-- What /confirm-only grants.
use secure_openclaw_poc.Common.{
  Bool, Bool-cases, List, Option, String, Text, [], any, arith, false, inl, inr, none, refl, some,
  true, ◌≡◌, ◌≢◌,
}
use secure_openclaw_poc.Common.Outcome.{Outcome, returned, thrown}
use secure_openclaw_poc.Types.{
  PolicyAction, Source, ActionManifest, PolicyDecision, SentinelConfig, AuditEntry, AuditResult,
  success,
}
use secure_openclaw_poc.Policy.Classifier.{classify}
use secure_openclaw_poc.Policy.RateLimiter.{RateLimiter, RateLimitResult, allowed}
use secure_openclaw_poc.Policy.LoopGuard.{LoopCheckResult, LoopAction}
use secure_openclaw_poc.Executor.Run.{Run, give, ◌>>◌}
use secure_openclaw_poc.Executor.Router
use secure_openclaw_poc.Executor.Router.{
  Thrown, Event, audited, asked, ran, PipelineGuards, check_rate, check_loop, audit_failed, audit,
}
use secure_openclaw_poc.Executor.Router.Mediation.{IsPermitted, IsUnblocked, audit_elim}
use secure_openclaw_poc.Executor.Endpoints.{
  ClassifyRequest, manifest_of, Decision, Response, invalid_request, limited, decided, auto_approve,
  confirm, block, approved, denied, with_answer, with_action, with_loop_action, with_loop_check,
  with_rate_check, checked, handle_confirm_only, fits_request, Parameters,
}

abbrev pub grants : Decision → Bool
grants auto_approve = true
grants approved = true
grants confirm = false
grants block = false
grants denied = false

-- The call came to a response that lets the caller run its tool.
abbrev pub is_granted : Outcome Thrown Response → Bool
is_granted (thrown e) = false
is_granted (returned invalid_request) = false
is_granted (returned (limited l id)) = false
is_granted (returned (decided d category reason id)) = grants d

abbrev is_success : AuditResult → Bool
is_success success = true
is_success _ = false

abbrev records_success : Event → Bool
records_success (audited e) = is_success e.result
records_success (asked m d) = false
records_success (ran tool ps) = false

-- An entry of the run says success.
abbrev pub has_success : List Event → Bool
has_success events = any records_success events

module _ {T : Type 0} (env : Router.Env T) (to_json : Parameters → Option Text) where
  -- What is granted is recorded, and only under the condition.
  record GrantedOnlyIf (C : Type 0) (r : Run Event Thrown Response) : Type 0 where
    only : is_granted r.outcome ≡ true → C × (has_success r.events ≡ true)

  weaken :
      {C D : Type 0} {r : Run Event Thrown Response}
      → GrantedOnlyIf C r
      → (C → D)
      → GrantedOnlyIf D r
  weaken o f = record { only = λ h. let (c, s) = o.only h in (f c, s) }

  refusal :
      {C : Type 0} (e : AuditEntry) (response : Response)
      → is_granted (returned response) ≡ false
      → GrantedOnlyIf C (audit env e >> give response)
  refusal {C} e response h =
      audit_elim env (GrantedOnlyIf C) e (give response) (record { only = λ g. cc })
        (record { only = λ g. cc })

  grant :
      {C : Type 0} (e : AuditEntry) (response : Response)
      → is_success e.result ≡ true
      → C
      → GrantedOnlyIf C (audit env e >> give response)
  grant {C} e response s c =
      audit_elim env (GrantedOnlyIf C) e (give response) (record { only = λ g. cc })
        (record { only = λ g. (c, ground (arith, s)) })

  with_answer-GrantedOnlyIf :
      (m : ActionManifest) (source : Option Source) (d : PolicyDecision) (o : Outcome Thrown Bool)
      → GrantedOnlyIf (o ≡ returned true) (with_answer env to_json m source d o)
  unfolding with_answer
  with_answer-GrantedOnlyIf m source d (thrown e) = record { only = λ g. cc }
  with_answer-GrantedOnlyIf m source d (returned true) = grant _ _ refl refl
  with_answer-GrantedOnlyIf m source d (returned false) = refusal _ _ refl

  with_action-GrantedOnlyIf :
      (m : ActionManifest) (source : Option Source) (d : PolicyDecision) (a : PolicyAction)
      → GrantedOnlyIf (IsPermitted env m d a) (with_action env to_json m source d a)
  unfolding with_action
  with_action-GrantedOnlyIf m source d PolicyAction.block = refusal _ _ refl
  with_action-GrantedOnlyIf m source d PolicyAction.auto_approve = grant _ _ refl tt
  with_action-GrantedOnlyIf m source d PolicyAction.allow = grant _ _ refl tt
  with_action-GrantedOnlyIf m source d PolicyAction.confirm = record {
    only = (with_answer-GrantedOnlyIf m source d (env.confirm_fn m d)).only;
  }

  module _ {C : Type 0} (m : ActionManifest) (source : Option Source) (summary : Text)
      (rest : Run Event Thrown Response) (o : GrantedOnlyIf C rest) where
    with_loop_action-GrantedOnlyIf :
        (r : LoopCheckResult) (a : LoopAction)
        → GrantedOnlyIf
            ((a ≢ LoopAction.block) × C)
            (with_loop_action env to_json m source summary rest r a)
    unfolding with_loop_action
    with_loop_action-GrantedOnlyIf r LoopAction.allow = weaken o (λ c. ((λ h. cc), c))
    with_loop_action-GrantedOnlyIf r LoopAction.warn = weaken o (λ c. ((λ h. cc), c))
    with_loop_action-GrantedOnlyIf r LoopAction.block = refusal _ _ refl

    with_loop_check-GrantedOnlyIf :
        (v : Option LoopCheckResult)
        → GrantedOnlyIf
            (IsUnblocked env v × C)
            (with_loop_check env to_json m source summary rest v)
    unfolding with_loop_check
    with_loop_check-GrantedOnlyIf none = weaken o (λ c. (tt, c))
    with_loop_check-GrantedOnlyIf (some r) = with_loop_action-GrantedOnlyIf r r.action

    with_rate_check-GrantedOnlyIf :
        (guards : PipelineGuards T) (limiter : Option (RateLimiter T)) (rate : RateLimitResult)
        → GrantedOnlyIf
            ((rate ≡ allowed) × (IsUnblocked env (check_loop env guards.loop_guard m).1 × C))
            (with_rate_check env to_json guards m source summary rest limiter rate).1
    unfolding with_rate_check
    with_rate_check-GrantedOnlyIf guards limiter (RateLimitResult.denied retry_after) =
        refusal _ _ refl
    with_rate_check-GrantedOnlyIf guards limiter allowed =
        weaken (with_loop_check-GrantedOnlyIf (check_loop env guards.loop_guard m).1)
          (λ c. (refl, c))

    checked-GrantedOnlyIf :
        (guards : PipelineGuards T)
        → GrantedOnlyIf
            (((check_rate env guards.rate_limiter m).1 ≡ allowed)
              × (IsUnblocked env (check_loop env guards.loop_guard m).1 × C))
            (checked env to_json guards m source summary rest).1
    unfolding checked
    checked-GrantedOnlyIf guards =
        with_rate_check-GrantedOnlyIf guards (check_rate env guards.rate_limiter m).0
          (check_rate env guards.rate_limiter m).1

  confirm_only-GrantedOnlyIf :
      (config : SentinelConfig) (guards : PipelineGuards T) (id time : String) (r : ClassifyRequest)
      → (let m = manifest_of id time r in
          let d = classify env.regexp_test m config in
          GrantedOnlyIf
            (((check_rate env guards.rate_limiter m).1 ≡ allowed)
              × (IsUnblocked env (check_loop env guards.loop_guard m).1
                  × IsPermitted env m d d.action))
            (handle_confirm_only env to_json config guards id time r).1)
  unfolding handle_confirm_only
  confirm_only-GrantedOnlyIf config guards id time r =
      let m = manifest_of id time r in
      let d = classify env.regexp_test m config in
      elim (Bool-cases (fits_request r)) [
        | inl fits ↦ rw fits (
            checked-GrantedOnlyIf m r.source [] (with_action env to_json m r.source d d.action)
              (with_action-GrantedOnlyIf m r.source d d.action) guards)
        | inr unfit ↦ rw unfit (record { only = λ g. cc })
      ]

  -- A request to /confirm-only is granted only if the rate limiter and the loop guard let it pass and
  -- the policy approves it or the user does, and the grant is in the audit log.
  pub handle_confirm_only-IsPermitted :
      (config : SentinelConfig) (guards : PipelineGuards T) (id time : String) (r : ClassifyRequest)
      → is_granted (handle_confirm_only env to_json config guards id time r).1.outcome ≡ true
      → (((check_rate env guards.rate_limiter (manifest_of id time r)).1 ≡ allowed)
          × (IsUnblocked env (check_loop env guards.loop_guard (manifest_of id time r)).1
              × IsPermitted env
                  (manifest_of id time r)
                  (classify env.regexp_test (manifest_of id time r) config)
                  (classify env.regexp_test (manifest_of id time r) config).action))
        × (has_success (handle_confirm_only env to_json config guards id time r).1.events ≡ true)
  handle_confirm_only-IsPermitted config guards id time r h =
      (confirm_only-GrantedOnlyIf config guards id time r).only h
