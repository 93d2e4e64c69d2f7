-- ===== src/Executor/Router/AuditTrail.antt =====
-- What the audit log says of a call.
use secure_openclaw_poc.Executor.Router.Recorded.{
  runs_announced, last_result, IsClosed, IsRecorded, audit-IsRecorded, fail-IsRecorded,
  if-IsRecorded, base_entry-IsRecorded, entry_at-IsRecorded, renewed_entry-result,
}
use secure_openclaw_poc.Common.{
  List, Bool, false, true, ◌≡◌, inl, inr, refl, ◌∷◌, Option, if◌then◌else◌, none, some, String, ap,
  eq_iff,
}
use secure_openclaw_poc.Common.Outcome.{Outcome, returned, thrown}
use secure_openclaw_poc.Types.{
  PolicyAction, auto_approve, confirm, block, ActionManifest, PolicyDecision, SentinelConfig,
  AuditEntry, pending,
}
use secure_openclaw_poc.Types.Json.{Json}
use secure_openclaw_poc.Policy.RateLimiter.{RateLimiter, RateLimitResult, allowed, denied}
use secure_openclaw_poc.Policy.LoopGuard.{LoopCheckResult, LoopAction}
use secure_openclaw_poc.Executor.Run.{Run, give, fail, emit, ◌>>◌}
use secure_openclaw_poc.Executor.Moderation.{moderate}
use secure_openclaw_poc.Executor.Filters.{ToolResult}
use secure_openclaw_poc.Executor.Registry
use secure_openclaw_poc.Executor.Registry.{ToolRegistry}
use secure_openclaw_poc.Executor.Router.{
  Thrown, Event, audited, asked, ran, Handler, Env, PipelineGuards, Result, summarize_params, audit,
  base_entry, renewed_entry, after_handler, with_verdict, with_outcome, execute, with_handler,
  proceed, with_answer, with_decision, decide, with_loop_action, after_loop_check, after_rate_check,
  execute_parsed, handle_execute, AuditResult, failure, refused, rate_limit_exceeded,
  blocked_by_rate_limit, loop_detected, blocked_by_loop_guard, policy_blocked, blocked_by_policy,
  denied_by_user, unknown_tool, tool_result, success, user_denied, moderation_blocked,
  output_blocked, at_failure, at_loop, at_rate, dangerous, Parameters, at_pending,
}
use secure_openclaw_poc.Executor.Router.Mediation.{has_run, audit_elim}

module _ {T : Type 0} (env : Env T) where
  open env use {
    parse, regexp_test, regexp_matches, moderation_mode, stringify, confirm_fn, log_succeeds,
    failure_duration,
  }

  with_verdict-IsRecorded :
      (before : Option AuditResult) (b : Bool) (m : ActionManifest) (d : PolicyDecision)
      (result : ToolResult) (harmful : Bool)
      → IsRecorded before b (with_verdict env m d result harmful)
  unfolding with_verdict
  with_verdict-IsRecorded before b m d result true =
      base_entry-IsRecorded env before b m d blocked_by_policy result.duration_ms
        (refused output_blocked result.duration_ms) refl
  with_verdict-IsRecorded before b m d result false =
      base_entry-IsRecorded env before b m d (if result.success then success else failure)
        result.duration_ms (tool_result result) refl

  after_handler-IsRecorded :
      (before : Option AuditResult) (b : Bool) (m : ActionManifest) (d : PolicyDecision)
      (raw : ToolResult)
      → IsRecorded before b (after_handler env m d raw)
  unfolding after_handler
  after_handler-IsRecorded before b m d raw = with_verdict-IsRecorded before b m d _ _

  -- What follows the handler runs nothing more.
  with_outcome-IsRecorded :
      (before : Option AuditResult) (m : ActionManifest) (d : PolicyDecision)
      (o : Outcome Thrown ToolResult)
      → IsRecorded before true (with_outcome env m d o)
  unfolding with_outcome
  with_outcome-IsRecorded before m d (thrown e) =
      audit-IsRecorded env before true _ _
        (fail-IsRecorded _ true e (inr (ap some (renewed_entry-result env at_failure m d _ _).0)))
  with_outcome-IsRecorded before m d (returned raw) = after_handler-IsRecorded before true m d raw

  audit-quiet :
      {A : Type 0} (e : AuditEntry) (next : Run Event Thrown A)
      → has_run next.events ≡ false
      → has_run (audit env e >> next).events ≡ false
  audit-quiet e next h = audit_elim env (λ r. has_run r.events ≡ false) e next refl h

  with_verdict-quiet :
      (m : ActionManifest) (d : PolicyDecision) (result : ToolResult) (harmful : Bool)
      → has_run (with_verdict env m d result harmful).events ≡ false
  unfolding with_verdict
  with_verdict-quiet m d result true =
      audit-quiet (base_entry env m d blocked_by_policy result.duration_ms)
        (give (refused output_blocked result.duration_ms)) refl
  with_verdict-quiet m d result false =
      audit-quiet
        (base_entry env m d (if result.success then success else failure) result.duration_ms)
        (give (tool_result result)) refl

  with_outcome-quiet :
      (m : ActionManifest) (d : PolicyDecision) (o : Outcome Thrown ToolResult)
      → has_run (with_outcome env m d o).events ≡ false
  unfolding with_outcome after_handler
  with_outcome-quiet m d (thrown e) =
      audit-quiet (renewed_entry env at_failure m d failure failure_duration) (fail {A = Result} e)
        refl
  with_outcome-quiet m d (returned raw) = with_verdict-quiet m d _ _

  -- The tool that is run is the one of the pending entry before it.
  announced_lem :
      (e : AuditEntry) (tool : String) (ps : Parameters) (es : List Event)
      → e.result ≡ pending
      → e.tool ≡ tool
      → has_run es ≡ false
      → runs_announced (some (ran tool ps)) es ≡ true
      → runs_announced (some (audited e)) (ran tool ps ∷ es) ≡ true
  announced_lem e tool ps es is_first same quiet rest =
      rw (is_first, (eq_iff e.tool tool).1 same, quiet, rest)

  execute-IsRecorded :
      (before : Option AuditResult) (m : ActionManifest) (d : PolicyDecision) (handler : Handler)
      → IsRecorded before false (execute env m d handler)
  unfolding execute
  execute-IsRecorded before m d handler =
      let e = renewed_entry env at_pending m d pending 0 in
      let after = handler m.parameters m.id m.agent_id in
      let right = renewed_entry-result env at_pending m d pending 0 in
      let o = with_outcome-IsRecorded (some e.result) m d after in
      audit_elim env (IsRecorded before false) e
        (emit (ran m.tool m.parameters) >> with_outcome env m d after)
        (record { announced = λ e. refl; closed = tt })
        (record {
          announced = λ x.
              announced_lem e m.tool m.parameters (with_outcome env m d after).events right.0
                right.1 (with_outcome-quiet m d after)
                (o.announced (some (ran m.tool m.parameters)));
          closed = o.closed;
        })

  with_handler-IsRecorded :
      (before : Option AuditResult) (m : ActionManifest) (d : PolicyDecision) (o : Option Handler)
      → IsRecorded before false (with_handler env m d o)
  unfolding with_handler
  with_handler-IsRecorded before m d none =
      base_entry-IsRecorded env before false m d failure 0 (refused (unknown_tool m.tool) 0) refl
  with_handler-IsRecorded before m d (some handler) = execute-IsRecorded before m d handler

  proceed-IsRecorded :
      (before : Option AuditResult) (registry : ToolRegistry Handler) (m : ActionManifest)
      (d : PolicyDecision)
      → IsRecorded before false (proceed env registry m d)
  unfolding proceed
  proceed-IsRecorded before registry m d =
      if-IsRecorded before false
        (moderate regexp_matches moderation_mode (summarize_params stringify m.parameters)).blocked
        _ (with_handler env m d (Registry.get registry m.tool))
        (λ harmful.
          base_entry-IsRecorded env before false m d blocked_by_policy 0
            (refused moderation_blocked 0) refl)
        (λ harmless. with_handler-IsRecorded before m d (Registry.get registry m.tool))

  with_answer-IsRecorded :
      (before : Option AuditResult) (registry : ToolRegistry Handler) (m : ActionManifest)
      (d : PolicyDecision) (answer : Outcome Thrown Bool)
      → IsRecorded before false (with_answer env registry m d answer)
  unfolding with_answer
  with_answer-IsRecorded before registry m d (thrown e) = fail-IsRecorded before false e (inl refl)
  with_answer-IsRecorded before registry m d (returned true) =
      proceed-IsRecorded before registry m d
  with_answer-IsRecorded before registry m d (returned false) =
      base_entry-IsRecorded env before false m d denied_by_user 0 (refused user_denied 0) refl

  with_decision-IsRecorded :
      (before : Option AuditResult) (registry : ToolRegistry Handler) (m : ActionManifest)
      (d : PolicyDecision) (a : PolicyAction)
      → IsRecorded before false (with_decision env registry m d a)
  unfolding with_decision
  with_decision-IsRecorded before registry m d block =
      base_entry-IsRecorded env before false m d blocked_by_policy 0
        (refused (policy_blocked d.reason) 0) refl
  with_decision-IsRecorded before registry m d confirm =
      let o = with_answer-IsRecorded before registry m d (confirm_fn m d) in
      record { announced = λ e. o.announced (some (asked m d)); closed = o.closed }
  with_decision-IsRecorded before registry m d auto_approve = proceed-IsRecorded before registry m d
  with_decision-IsRecorded before registry m d PolicyAction.allow =
      proceed-IsRecorded before registry m d

  decide-IsRecorded :
      (before : Option AuditResult) (registry : ToolRegistry Handler) (config : SentinelConfig)
      (m : ActionManifest)
      → IsRecorded before false (decide env registry config m)
  unfolding decide
  decide-IsRecorded before registry config m = with_decision-IsRecorded before registry m _ _

  with_loop_action-IsRecorded :
      (registry : ToolRegistry Handler) (config : SentinelConfig) (m : ActionManifest)
      (r : LoopCheckResult) (a : LoopAction)
      → IsRecorded none false (with_loop_action env registry config m r a)
  unfolding with_loop_action
  with_loop_action-IsRecorded registry config m r LoopAction.allow =
      decide-IsRecorded none registry config m
  with_loop_action-IsRecorded registry config m r LoopAction.warn =
      audit-IsRecorded env none false _ _ (decide-IsRecorded _ registry config m)
  with_loop_action-IsRecorded registry config m r LoopAction.block =
      entry_at-IsRecorded env none false at_loop m dangerous block blocked_by_loop_guard 0
        (refused (loop_detected r.reason) 0) refl

  after_loop_check-IsRecorded :
      (registry : ToolRegistry Handler) (config : SentinelConfig) (m : ActionManifest)
      (verdict : Option LoopCheckResult)
      → IsRecorded none false (after_loop_check env registry config m verdict)
  unfolding after_loop_check
  after_loop_check-IsRecorded registry config m none = decide-IsRecorded none registry config m
  after_loop_check-IsRecorded registry config m (some r) =
      with_loop_action-IsRecorded registry config m r r.action

  after_rate_check-IsRecorded :
      (registry : ToolRegistry Handler) (config : SentinelConfig) (guards : PipelineGuards T)
      (m : ActionManifest) (limiter : Option (RateLimiter T)) (rate : RateLimitResult)
      → IsRecorded none false (after_rate_check env registry config guards m limiter rate).1
  unfolding after_rate_check
  after_rate_check-IsRecorded registry config guards m limiter (denied retry_after) =
      entry_at-IsRecorded env none false at_rate m dangerous block blocked_by_rate_limit 0
        (refused (rate_limit_exceeded retry_after) 0) refl
  after_rate_check-IsRecorded registry config guards m limiter allowed =
      after_loop_check-IsRecorded registry config m _

  execute_parsed-IsRecorded :
      (registry : ToolRegistry Handler) (config : SentinelConfig) (guards : PipelineGuards T)
      (parsed : Option ActionManifest)
      → IsRecorded none false (execute_parsed env registry config guards parsed).1
  unfolding execute_parsed
  execute_parsed-IsRecorded registry config guards none = record {
    announced = λ e. refl;
    closed = inl refl;
  }
  execute_parsed-IsRecorded registry config guards (some m) =
      after_rate_check-IsRecorded registry config guards m _ _

  -- A tool runs only directly after its pending entry was written, and at most once. A call that
  -- returns has a last entry with the result that the caller gets; one that throws had a failed write,
  -- or ran nothing, or has a last entry that says failure.
  pub handle_execute-audit_trail :
      (registry : ToolRegistry Handler) (config : SentinelConfig) (guards : PipelineGuards T)
      (raw : Json)
      → (runs_announced none (handle_execute env registry config guards raw).1.events ≡ true)
        × IsClosed
            (last_result none (handle_execute env registry config guards raw).1.events)
            (has_run (handle_execute env registry config guards raw).1.events)
            (handle_execute env registry config guards raw).1.outcome
  unfolding handle_execute
  handle_execute-audit_trail registry config guards raw =
      let o = execute_parsed-IsRecorded registry config guards (parse raw) in
      (o.announced none, o.closed)
