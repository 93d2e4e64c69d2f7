-- ===== src/Executor/Router/Mediation.antt =====
-- No tool runs unless every check before it let the call through.
use secure_openclaw_poc.Common.{
  List, Bool, any, false, true, ◌≡◌, if_elim, refl, ◌∷◌, Option, if◌then◌else◌, none, some, ◌≢◌,
}
use secure_openclaw_poc.Common.Outcome.{Outcome, returned, thrown}
use secure_openclaw_poc.Types.{
  PolicyAction, auto_approve, confirm, block, ActionManifest, PolicyDecision, SentinelConfig,
  AuditEntry,
}
use secure_openclaw_poc.Types.Json.{Json}
use secure_openclaw_poc.Policy.Classifier.{classify}
use secure_openclaw_poc.Policy.RateLimiter.{RateLimiter, RateLimitResult, allowed, denied}
use secure_openclaw_poc.Policy.LoopGuard.{LoopCheckResult, LoopAction}
use secure_openclaw_poc.Executor.Run.{Run, give, fail, emit, ◌>>◌}
use secure_openclaw_poc.Executor.Moderation.{moderate}
use secure_openclaw_poc.Executor.Registry
use secure_openclaw_poc.Executor.Registry.{ToolRegistry}
use secure_openclaw_poc.Executor.Router.{
  Thrown, Event, audited, asked, ran, Handler, Env, PipelineGuards, Result, summarize_params, audit,
  check_rate, check_loop, with_handler, proceed, with_answer, with_decision, decide,
  with_loop_action, after_loop_check, after_rate_check, execute_parsed, handle_execute,
  audit_failed,
}

abbrev pub is_run : Event → Bool
is_run (audited e) = false
is_run (asked m d) = false
is_run (ran tool ps) = true

-- A tool was run.
abbrev pub has_run : List Event → Bool
has_run events = any is_run events

module _ {T : Type 0} (env : Env T) where
  open env use {
    parse, regexp_test, regexp_matches, moderation_mode, stringify, confirm_fn, log_succeeds,
  }

  -- An entry is written, or the run ends there.
  pub audit_elim {κ} :
      {A : Type 0} (P : Run Event Thrown A → Type κ) (e : AuditEntry) (next : Run Event Thrown A)
      → P (fail audit_failed)
      → P (record { events = audited e ∷ next.events; outcome = next.outcome })
      → P (audit env e >> next)
  unfolding audit
  audit_elim P e next failed written =
      if_elim (λ r. P (r >> next)) (log_succeeds e) (emit (audited e)) (fail audit_failed)
        (λ h. written) (λ h. failed)

  -- A tool runs in this run only under the condition.
  record RanOnlyIf (A C : Type 0) (r : Run Event Thrown A) : Type 0 where
    only : has_run r.events ≡ true → C

  weaken : {A C D : Type 0} {r : Run Event Thrown A} → RanOnlyIf A C r → (C → D) → RanOnlyIf A D r
  weaken o f = record { only = λ h. f (o.only h) }

  give-RanOnlyIf : {A C : Type 0} (a : A) → RanOnlyIf A C (give a)
  give-RanOnlyIf a = record { only = λ h. cc }

  fail-RanOnlyIf : {A C : Type 0} (e : Thrown) → RanOnlyIf A C (fail e)
  fail-RanOnlyIf e = record { only = λ h. cc }

  audit-RanOnlyIf :
      {A C : Type 0} (e : AuditEntry) (next : Run Event Thrown A)
      → RanOnlyIf A C next
      → RanOnlyIf A C (audit env e >> next)
  audit-RanOnlyIf {A} {C} e next o =
      audit_elim (RanOnlyIf A C) e next (fail-RanOnlyIf audit_failed) (record { only = o.only })

  if-RanOnlyIf :
      {A C : Type 0} (b : Bool) (x y : Run Event Thrown A)
      → (b ≡ true → RanOnlyIf A C x)
      → (b ≡ false → RanOnlyIf A C y)
      → RanOnlyIf A C (if b then x else y)
  if-RanOnlyIf {A} {C} b x y on_true on_false = if_elim (RanOnlyIf A C) b x y on_true on_false

  -- The moderation lets the parameters pass, and the tool has a handler.
  abbrev pub IsReady : ToolRegistry Handler → ActionManifest → Type 0
  IsReady registry m =
      ((moderate regexp_matches moderation_mode (summarize_params stringify m.parameters)).blocked
        ≡ false)
      × ((h : Handler) × (Registry.get registry m.tool ≡ some h))

  with_handler-RanOnlyIf :
      (m : ActionManifest) (d : PolicyDecision) (o : Option Handler)
      → RanOnlyIf Result ((h : Handler) × (o ≡ some h)) (with_handler env m d o)
  unfolding with_handler
  with_handler-RanOnlyIf m d none = audit-RanOnlyIf _ _ (give-RanOnlyIf _)
  with_handler-RanOnlyIf m d (some h) = record { only = λ ran_it. (h, refl) }

  proceed-RanOnlyIf :
      (registry : ToolRegistry Handler) (m : ActionManifest) (d : PolicyDecision)
      → RanOnlyIf Result (IsReady registry m) (proceed env registry m d)
  unfolding proceed
  proceed-RanOnlyIf registry m d =
      if-RanOnlyIf _ _ _ (λ harmful. audit-RanOnlyIf _ _ (give-RanOnlyIf _))
        (λ harmless. weaken (with_handler-RanOnlyIf m d _) (λ found. (harmless, found)))

  -- The policy or the user permits the call.
  abbrev pub IsPermitted : ActionManifest → PolicyDecision → PolicyAction → Type 0
  IsPermitted m d block = ⊥
  IsPermitted m d confirm = confirm_fn m d ≡ returned true
  IsPermitted m d auto_approve = Unit
  IsPermitted m d PolicyAction.allow = Unit

  with_answer-RanOnlyIf :
      (registry : ToolRegistry Handler) (m : ActionManifest) (d : PolicyDecision)
      (answer : Outcome Thrown Bool)
      → RanOnlyIf Result
          ((answer ≡ returned true) × IsReady registry m)
          (with_answer env registry m d answer)
  unfolding with_answer
  with_answer-RanOnlyIf registry m d (thrown e) = fail-RanOnlyIf e
  with_answer-RanOnlyIf registry m d (returned true) =
      weaken (proceed-RanOnlyIf registry m d) (λ ready. (refl, ready))
  with_answer-RanOnlyIf registry m d (returned false) = audit-RanOnlyIf _ _ (give-RanOnlyIf _)

  with_decision-RanOnlyIf :
      (registry : ToolRegistry Handler) (m : ActionManifest) (d : PolicyDecision) (a : PolicyAction)
      → RanOnlyIf Result (IsPermitted m d a × IsReady registry m) (with_decision env registry m d a)
  unfolding with_decision
  with_decision-RanOnlyIf registry m d block = audit-RanOnlyIf _ _ (give-RanOnlyIf _)
  with_decision-RanOnlyIf registry m d confirm = record {
    only = (with_answer-RanOnlyIf registry m d (confirm_fn m d)).only;
  }
  with_decision-RanOnlyIf registry m d auto_approve =
      weaken (proceed-RanOnlyIf registry m d) (λ ready. (tt, ready))
  with_decision-RanOnlyIf registry m d PolicyAction.allow =
      weaken (proceed-RanOnlyIf registry m d) (λ ready. (tt, ready))

  -- The loop guard is off, or does not block the call.
  abbrev pub IsUnblocked : Option LoopCheckResult → Type 0
  IsUnblocked none = Unit
  IsUnblocked (some r) = r.action ≢ LoopAction.block

  -- The decision of the policy permits the call, and the call is ready.
  abbrev pub IsDecided : ToolRegistry Handler → SentinelConfig → ActionManifest → Type 0
  IsDecided registry config m =
      IsPermitted m (classify regexp_test m config) (classify regexp_test m config).action
      × IsReady registry m

  decide-RanOnlyIf :
      (registry : ToolRegistry Handler) (config : SentinelConfig) (m : ActionManifest)
      → RanOnlyIf Result (IsDecided registry config m) (decide env registry config m)
  unfolding decide
  decide-RanOnlyIf registry config m = with_decision-RanOnlyIf registry m _ _

  with_loop_action-RanOnlyIf :
      (registry : ToolRegistry Handler) (config : SentinelConfig) (m : ActionManifest)
      (r : LoopCheckResult) (a : LoopAction)
      → RanOnlyIf Result
          ((a ≢ LoopAction.block) × IsDecided registry config m)
          (with_loop_action env registry config m r a)
  unfolding with_loop_action
  with_loop_action-RanOnlyIf registry config m r LoopAction.allow =
      weaken (decide-RanOnlyIf registry config m) (λ decided. ((λ h. cc), decided))
  with_loop_action-RanOnlyIf registry config m r LoopAction.warn =
      audit-RanOnlyIf _ _
        (weaken (decide-RanOnlyIf registry config m) (λ decided. ((λ h. cc), decided)))
  with_loop_action-RanOnlyIf registry config m r LoopAction.block =
      audit-RanOnlyIf _ _ (give-RanOnlyIf _)

  after_loop_check-RanOnlyIf :
      (registry : ToolRegistry Handler) (config : SentinelConfig) (m : ActionManifest)
      (verdict : Option LoopCheckResult)
      → RanOnlyIf Result
          (IsUnblocked verdict × IsDecided registry config m)
          (after_loop_check env registry config m verdict)
  unfolding after_loop_check
  after_loop_check-RanOnlyIf registry config m none =
      weaken (decide-RanOnlyIf registry config m) (λ decided. (tt, decided))
  after_loop_check-RanOnlyIf registry config m (some r) =
      with_loop_action-RanOnlyIf registry config m r r.action

  after_rate_check-RanOnlyIf :
      (registry : ToolRegistry Handler) (config : SentinelConfig) (guards : PipelineGuards T)
      (m : ActionManifest) (limiter : Option (RateLimiter T)) (rate : RateLimitResult)
      → RanOnlyIf Result
          ((rate ≡ allowed)
            × (IsUnblocked (check_loop env guards.loop_guard m).1 × IsDecided registry config m))
          (after_rate_check env registry config guards m limiter rate).1
  unfolding after_rate_check
  after_rate_check-RanOnlyIf registry config guards m limiter (denied retry_after) =
      audit-RanOnlyIf _ _ (give-RanOnlyIf _)
  after_rate_check-RanOnlyIf registry config guards m limiter allowed =
      weaken (after_loop_check-RanOnlyIf registry config m _) (λ rest. (refl, rest))

  execute_parsed-RanOnlyIf :
      (registry : ToolRegistry Handler) (config : SentinelConfig) (guards : PipelineGuards T)
      (parsed : Option ActionManifest)
      → RanOnlyIf Result
          ((m : ActionManifest) × ((parsed ≡ some m)
              × (((check_rate env guards.rate_limiter m).1 ≡ allowed)
                  × (IsUnblocked (check_loop env guards.loop_guard m).1
                      × IsDecided registry config m))))
          (execute_parsed env registry config guards parsed).1
  unfolding execute_parsed
  execute_parsed-RanOnlyIf registry config guards none = fail-RanOnlyIf _
  execute_parsed-RanOnlyIf registry config guards (some m) =
      weaken (after_rate_check-RanOnlyIf registry config guards m _ _) (λ rest. (m, (refl, rest)))

  -- A call that runs a tool has a valid manifest, the rate limiter and the loop guard let it pass, the
  -- policy approves it or the user does, the moderation does not block its parameters, and the tool is
  -- registered.
  pub handle_execute-mediation :
      (registry : ToolRegistry Handler) (config : SentinelConfig) (guards : PipelineGuards T)
      (raw : Json)
      → has_run (handle_execute env registry config guards raw).1.events ≡ true
      → (m : ActionManifest) × ((parse raw ≡ some m)
          × (((check_rate env guards.rate_limiter m).1 ≡ allowed)
              × (IsUnblocked (check_loop env guards.loop_guard m).1 × IsDecided registry config m)))
  unfolding handle_execute
  handle_execute-mediation registry config guards raw h =
      (execute_parsed-RanOnlyIf registry config guards (parse raw)).only h
