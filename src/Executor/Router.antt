-- ===== src/Executor/Router.antt =====
-- packages/executor/src/router.ts: `handleExecute`, the pipeline that every tool call passes.
--
-- A run is the list of its events (audit entries written, the question to the user, the tool that was
-- run) and its outcome. What comes from outside is the record `Env`.
pub mod Call
pub mod Mediation
pub mod Recorded
pub mod AuditTrail
pub mod Summary
mod Tests
unfoldable pub use Call.*
use secure_openclaw_poc.Common.{
  List, ◌&&◌, ◌++◌, Bool, Option, String, Text, [], codes, if◌then◌else◌, get_or, length, ltb, map,
  none, not, some, take, text_eq, ℕ, ◌∷◌, false, true, ◌*◌,
}
use secure_openclaw_poc.Common.Outcome.{Outcome, returned, thrown}
use secure_openclaw_poc.Types.{
  ActionCategory, PolicyAction, ActionManifest, PolicyDecision, SentinelConfig, AuditEntry,
  AuditResult, success, failure, pending, dangerous, block, blocked_by_rate_limit, confirm,
  loop_guard_warning, auto_approve, blocked_by_loop_guard, blocked_by_policy, denied_by_user,
}
use secure_openclaw_poc.Types.Json.{Json, Parameters}
use secure_openclaw_poc.Audit.Redact.{redact_credentials}
use secure_openclaw_poc.Policy.Classifier.{classify}
use secure_openclaw_poc.Policy.RateLimiter
use secure_openclaw_poc.Policy.RateLimiter.{RateLimiter, RateLimitResult, TatTable, allowed, denied}
use secure_openclaw_poc.Policy.LoopGuard
use secure_openclaw_poc.Policy.LoopGuard.{LoopGuard, LoopCheckResult, LoopAction, allow}
use secure_openclaw_poc.Executor.Run.{Run, give, fail, emit, ◌>>=◌, ◌>>◌}
use secure_openclaw_poc.Executor.Moderation.{ModerationMode, moderate}
use secure_openclaw_poc.Executor.Filters.{ToolResult, filter_credentials, scrub_pii}
use secure_openclaw_poc.Executor.Registry
use secure_openclaw_poc.Executor.Registry.{ToolRegistry}

module _ {T : Type 0} (env : Env T) where
  open env use {
    parse, tat_table, rate_now, loop_now, fingerprint, stringify, redact_all, redact_pii,
    regexp_test, regexp_matches, moderation_mode, uuid, iso_time, failure_duration, log_succeeds,
    confirm_fn,
  }

  -- `auditLogger.log`, which may throw.
  unfoldable pub audit : AuditEntry → Run Event Thrown (Unit {0})
  audit e = if log_succeeds e then emit (audited e) else fail audit_failed

  -- The entry of a call, with the id of its place.
  pub entry_at :
      Place
      → ActionManifest
      → ActionCategory
      → PolicyAction
      → AuditResult
      → (duration_ms : ℕ) → AuditEntry
  entry_at place m category decision result duration_ms = record {
    id = uuid place;
    timestamp = iso_time place;
    manifest_id = m.id;
    session_id = m.session_id;
    agent_id = m.agent_id;
    tool = m.tool;
    category = category;
    decision = decision;
    parameters_summary = redact_credentials redact_all (summarize_params stringify m.parameters);
    result = result;
    duration_ms = some duration_ms;
    source = none;
  }

  -- `{ ...auditBase, result, duration_ms }`.
  pub base_entry : ActionManifest → PolicyDecision → AuditResult → (duration_ms : ℕ) → AuditEntry
  unfolding entry_at
  base_entry m d result duration_ms = entry_at at_base m d.category d.action result duration_ms

  -- `{ ...auditBase, id: crypto.randomUUID(), ... }`.
  pub renewed_entry :
      Place → ActionManifest → PolicyDecision → AuditResult → (duration_ms : ℕ) → AuditEntry
  unfolding base_entry
  renewed_entry place m d result duration_ms = record (base_entry m d result duration_ms) {
    id = uuid place;
  }

  abbrev pub check_rate :
      Option (RateLimiter T) → ActionManifest → Option (RateLimiter T) × RateLimitResult
  check_rate none m = (none, allowed)
  check_rate (some l) m =
      let r = RateLimiter.check tat_table l m.agent_id rate_now in (some r.0, r.1)

  abbrev pub check_loop :
      Option LoopGuard → ActionManifest → Option LoopGuard × Option LoopCheckResult
  check_loop none m = (none, none)
  check_loop (some g) m =
      let r = LoopGuard.check g m.agent_id m.tool (fingerprint m.tool m.parameters) loop_now in
      (some r.0, some r.1)

  -- Steps 10 and 11; `harmful` is the verdict of the moderation on the output.
  unfoldable pub with_verdict :
      ActionManifest → PolicyDecision → ToolResult → (harmful : Bool) → Run Event Thrown Result
  with_verdict m d result true =
      audit (base_entry m d blocked_by_policy result.duration_ms)
      >> give (refused output_blocked result.duration_ms)
  with_verdict m d result false =
      audit (base_entry m d (if result.success then success else failure) result.duration_ms)
      >> give (tool_result result)

  -- Steps 8 to 11, on what the handler returned.
  unfoldable pub after_handler :
      ActionManifest → PolicyDecision → ToolResult → Run Event Thrown Result
  unfolding with_verdict
  after_handler m d raw =
      let result = scrub_pii redact_pii (filter_credentials redact_all raw) in
      let output = get_or result.output [] in
      let harmful = (moderate regexp_matches moderation_mode output).blocked in
      with_verdict m d result (not (text_eq output []) && harmful)

  -- What follows the handler, by its outcome.
  unfoldable pub with_outcome :
      ActionManifest → PolicyDecision → Outcome Thrown ToolResult → Run Event Thrown Result
  unfolding after_handler
  with_outcome m d (thrown e) =
      audit (renewed_entry at_failure m d failure failure_duration) >> fail e
  with_outcome m d (returned raw) = after_handler m d raw

  -- Step 7, with a handler.
  unfoldable pub execute : ActionManifest → PolicyDecision → Handler → Run Event Thrown Result
  unfolding with_outcome
  execute m d handler =
      audit (renewed_entry at_pending m d pending 0)
      >> (emit (ran m.tool m.parameters) >> with_outcome m d (handler m.parameters m.id m.agent_id))

  unfoldable pub with_handler :
      ActionManifest → PolicyDecision → Option Handler → Run Event Thrown Result
  unfolding execute
  with_handler m d none = audit (base_entry m d failure 0) >> give (refused (unknown_tool m.tool) 0)
  with_handler m d (some handler) = execute m d handler

  -- Steps 6 and 7.
  unfoldable pub proceed :
      ToolRegistry Handler → ActionManifest → PolicyDecision → Run Event Thrown Result
  unfolding with_handler
  proceed registry m d =
      let param_text = summarize_params stringify m.parameters in
      if (moderate regexp_matches moderation_mode param_text).blocked
      then audit (base_entry m d blocked_by_policy 0) >> give (refused moderation_blocked 0)
      else with_handler m d (Registry.get registry m.tool)

  pub with_answer :
      ToolRegistry Handler
      → ActionManifest
      → PolicyDecision
      → Outcome Thrown Bool
      → Run Event Thrown Result
  unfolding proceed
  with_answer registry m d (thrown e) = fail e
  with_answer registry m d (returned true) = proceed registry m d
  with_answer registry m d (returned false) =
      audit (base_entry m d denied_by_user 0) >> give (refused user_denied 0)

  -- Step 5 and what follows, by the action of the decision.
  unfoldable pub with_decision :
      ToolRegistry Handler
      → ActionManifest
      → PolicyDecision
      → PolicyAction
      → Run Event Thrown Result
  unfolding with_answer
  with_decision registry m d PolicyAction.block =
      audit (base_entry m d blocked_by_policy 0) >> give (refused (policy_blocked d.reason) 0)
  with_decision registry m d confirm = emit (asked m d) >> with_answer registry m d (confirm_fn m d)
  with_decision registry m d auto_approve = proceed registry m d
  with_decision registry m d PolicyAction.allow = proceed registry m d

  -- Steps 4 to 11.
  unfoldable pub decide :
      ToolRegistry Handler → SentinelConfig → ActionManifest → Run Event Thrown Result
  unfolding with_decision
  decide registry config m =
      let d = classify regexp_test m config in with_decision registry m d d.action

  -- Step 3 and what follows, by the action of the loop guard.
  unfoldable pub with_loop_action :
      ToolRegistry Handler
      → SentinelConfig
      → ActionManifest
      → LoopCheckResult
      → LoopAction
      → Run Event Thrown Result
  unfolding decide
  with_loop_action registry config m r LoopAction.allow = decide registry config m
  with_loop_action registry config m r LoopAction.warn =
      audit (entry_at at_warning m dangerous PolicyAction.allow loop_guard_warning 0)
      >> decide registry config m
  with_loop_action registry config m r LoopAction.block =
      audit (entry_at at_loop m dangerous PolicyAction.block blocked_by_loop_guard 0)
      >> give (refused (loop_detected r.reason) 0)

  unfoldable pub after_loop_check :
      ToolRegistry Handler
      → SentinelConfig
      → ActionManifest
      → Option LoopCheckResult
      → Run Event Thrown Result
  unfolding with_loop_action
  after_loop_check registry config m none = decide registry config m
  after_loop_check registry config m (some r) = with_loop_action registry config m r r.action

  abbrev pub Outcomes : Type 0
  Outcomes = PipelineGuards T × Run Event Thrown Result

  -- What follows step 2; `limiter` is the rate limiter after the check.
  unfoldable pub after_rate_check :
      ToolRegistry Handler
      → SentinelConfig
      → PipelineGuards T
      → ActionManifest
      → (limiter : Option (RateLimiter T)) → RateLimitResult
      → Outcomes
  unfolding after_loop_check
  after_rate_check registry config guards m limiter (denied retry_after) = (
    record guards { rate_limiter = limiter },
    audit (entry_at at_rate m dangerous PolicyAction.block blocked_by_rate_limit 0)
        >> give (refused (rate_limit_exceeded retry_after) 0),
  )
  after_rate_check registry config guards m limiter allowed =
      let (loop_guard, verdict) = check_loop guards.loop_guard m in
      (
        record { rate_limiter = limiter; loop_guard = loop_guard },
        after_loop_check registry config m verdict,
      )

  unfoldable pub execute_parsed :
      ToolRegistry Handler → SentinelConfig → PipelineGuards T → Option ActionManifest → Outcomes
  unfolding after_rate_check
  execute_parsed registry config guards none = (guards, fail manifest_validation)
  execute_parsed registry config guards (some m) =
      let (limiter, rate) = check_rate guards.rate_limiter m in
      after_rate_check registry config guards m limiter rate

  unfoldable pub handle_execute :
      ToolRegistry Handler → SentinelConfig → PipelineGuards T → (raw_manifest : Json) → Outcomes
  unfolding execute_parsed
  handle_execute registry config guards raw_manifest =
      execute_parsed registry config guards (parse raw_manifest)
