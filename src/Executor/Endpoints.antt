-- ===== src/Executor/Endpoints.antt =====
-- packages/executor/src/classify-endpoint.ts, confirm-endpoint.ts and filter-endpoint.ts, with the
-- requests of packages/types/src/classify.ts and filter-output.ts. What comes from outside is the
-- record `Env` of the pipeline; `manifest_id` and `timestamp` are the defaults of a new manifest, and
-- `to_json` is JSON.stringify, where it does not throw.
pub mod Agreement
pub mod Permission
mod Tests
use secure_openclaw_poc.Common.{
  ◌&&◌, ◌++◌, Bool, Option, String, Text, [], any, codes, if◌then◌else◌, false, get_or, is_one_of,
  leb, length, ltb, none, not, some, str_eq, take, text_eq, true, ◌||◌, ℕ, ◌∷◌,
}
use secure_openclaw_poc.Types.{
  ActionCategory, PolicyAction, Source, ActionManifest, PolicyDecision, SentinelConfig, AuditEntry,
  AuditResult, success, dangerous, blocked_by_rate_limit, blocked_by_loop_guard, blocked_by_policy,
  denied_by_user,
}
use secure_openclaw_poc.Types.Json.{Parameters}
use secure_openclaw_poc.Audit.Redact.{redact_credentials}
use secure_openclaw_poc.Policy.Classifier.{classify}
use secure_openclaw_poc.Policy.RateLimiter.{RateLimiter, RateLimitResult, allowed}
use secure_openclaw_poc.Policy.LoopGuard
use secure_openclaw_poc.Policy.LoopGuard.{LoopCheckResult, LoopAction}
use secure_openclaw_poc.Executor.Run.{Run, give, fail, emit, ◌>>◌}
use secure_openclaw_poc.Executor.Moderation.{moderate}
use secure_openclaw_poc.Executor.Router
use secure_openclaw_poc.Executor.Router.{
  Thrown, Event, asked, Place, at_rate, at_loop, at_base, PipelineGuards, audit, check_rate,
  check_loop,
}
use secure_openclaw_poc.Common.Outcome.{Outcome, returned, thrown}

pub record ClassifyRequest : Type 0 where
  pub tool : String
  pub params : Parameters
  pub agent_id : String
  pub session_id : String
  pub source : Option Source

abbrev pub is_letter : ℕ → Bool
is_letter c = (leb 65 c && leb c 90) || (leb 97 c && leb c 122)

abbrev pub is_name_rest : ℕ → Bool
is_name_rest c = is_letter c || ((leb 48 c && leb c 57) || is_one_of c (95 ∷ 46 ∷ 45 ∷ []))

-- `^[a-zA-Z][a-zA-Z0-9_.-]*$`, and at most 256 characters.
unfoldable pub is_tool_name : Text → Bool
is_tool_name [] = false
is_tool_name (c ∷ cs) =
    leb (length (c ∷ cs)) 256 && (is_letter c && not (any (λ d. not (is_name_rest d)) cs))

abbrev pub is_given : String → Bool
is_given s = not (str_eq s "")

unfoldable pub fits_request : ClassifyRequest → Bool
unfolding is_tool_name
fits_request r = is_tool_name (codes r.tool) && (is_given r.agent_id && is_given r.session_id)

-- The new manifest of a request.
abbrev pub manifest_of : (manifest_id timestamp : String) → ClassifyRequest → ActionManifest
manifest_of manifest_id timestamp r = record {
  id = manifest_id;
  timestamp = timestamp;
  tool = r.tool;
  parameters = r.params;
  category = none;
  session_id = r.session_id;
  agent_id = r.agent_id;
}

pub data Decision : Type 0 where
  auto_approve confirm block approved denied : Decision

-- Why a guard blocked.
pub data Limit : Type 0 where
  rate_limited : (retry_after : ℕ) → Limit
  looping : Option LoopGuard.Reason → Limit

pub data Response : Type 0 where
  invalid_request : Response
  limited : Limit → (manifest_id : String) → Response
  decided : Decision → ActionCategory → (reason : String) → (manifest_id : String) → Response

-- The status of a response of /classify.
abbrev pub status : Response → ℕ
status invalid_request = 400
status (limited l manifest_id) = 429
status (decided block category reason manifest_id) = 403
status (decided _ category reason manifest_id) = 200

abbrev pub decision_of : PolicyAction → Decision
decision_of PolicyAction.auto_approve = auto_approve
decision_of PolicyAction.allow = auto_approve
decision_of PolicyAction.block = block
decision_of PolicyAction.confirm = confirm

abbrev pub result_of : PolicyAction → AuditResult
result_of PolicyAction.block = blocked_by_policy
result_of _ = success

abbrev pub cut_summary : Text → Text
cut_summary t = if ltb 500 (length t) then take 497 t ++ codes "..." else t

module _ {T : Type 0} (env : Router.Env T) (to_json : Parameters → Option Text) where
  abbrev pub summary_of : Option Text → Text
  summary_of none = codes "[unserializable]"
  summary_of (some json) = cut_summary (redact_credentials env.redact_all json)

  -- `summarizeParams` of classify-endpoint.ts.
  unfoldable pub summarize_json : Parameters → Text
  summarize_json params = summary_of (to_json params)

  abbrev pub entry_of :
      Place
      → ActionManifest
      → (source : Option Source) → ActionCategory
      → PolicyAction
      → (summary : Text) → AuditResult
      → AuditEntry
  entry_of place m source category decision summary result = record {
    id = env.uuid place;
    timestamp = env.iso_time place;
    manifest_id = m.id;
    session_id = m.session_id;
    agent_id = m.agent_id;
    tool = m.tool;
    category = category;
    decision = decision;
    parameters_summary = summary;
    result = result;
    duration_ms = some 0;
    source = source;
  }

  abbrev pub Answered : Type 0
  Answered = PipelineGuards T × Run Event Thrown Response

  -- What the loop guard lets pass or blocks; a warning is not recorded here.
  pub with_loop_action :
      ActionManifest
      → (source : Option Source) → (summary : Text) → Run Event Thrown Response
      → LoopCheckResult
      → LoopAction
      → Run Event Thrown Response
  with_loop_action m source summary rest r LoopAction.allow = rest
  with_loop_action m source summary rest r LoopAction.warn = rest
  with_loop_action m source summary rest r LoopAction.block =
      audit env
        (entry_of at_loop m source dangerous PolicyAction.block summary blocked_by_loop_guard)
      >> give (limited (looping r.reason) m.id)

  pub with_loop_check :
      ActionManifest
      → (source : Option Source) → (summary : Text) → Run Event Thrown Response
      → Option LoopCheckResult
      → Run Event Thrown Response
  unfolding with_loop_action
  with_loop_check m source summary rest none = rest
  with_loop_check m source summary rest (some r) = with_loop_action m source summary rest r r.action

  -- The two checks of the guards, which both endpoints make; `rest` is what follows them.
  pub with_rate_check :
      PipelineGuards T
      → ActionManifest
      → (source : Option Source) → (summary : Text) → Run Event Thrown Response
      → (limiter : Option (RateLimiter T)) → RateLimitResult
      → Answered
  unfolding with_loop_check
  with_rate_check guards m source summary rest limiter (RateLimitResult.denied retry_after) = (
    record guards { rate_limiter = limiter },
    audit env (entry_of at_rate m source dangerous PolicyAction.block summary blocked_by_rate_limit)
        >> give (limited (rate_limited retry_after) m.id),
  )
  with_rate_check guards m source summary rest limiter allowed =
      let (loop_guard, verdict) = check_loop env guards.loop_guard m in
      (
        record { rate_limiter = limiter; loop_guard = loop_guard },
        with_loop_check m source summary rest verdict,
      )

  unfoldable pub checked :
      PipelineGuards T
      → ActionManifest
      → (source : Option Source) → (summary : Text) → Run Event Thrown Response
      → Answered
  unfolding with_rate_check
  checked guards m source summary rest =
      let (limiter, rate) = check_rate env guards.rate_limiter m in
      with_rate_check guards m source summary rest limiter rate

  -- /classify, from the decision of the policy on.
  abbrev pub classified :
      ActionManifest → (source : Option Source) → PolicyDecision → Run Event Thrown Response
  classified m source d =
      audit env (
        entry_of at_base m source d.category d.action (summarize_json m.parameters)
          (result_of d.action))
      >> give (decided (decision_of d.action) d.category d.reason m.id)

  unfoldable pub handle_classify :
      SentinelConfig
      → PipelineGuards T
      → (manifest_id timestamp : String) → ClassifyRequest
      → Answered
  unfolding checked
  handle_classify config guards manifest_id timestamp r =
      let m = manifest_of manifest_id timestamp r in
      if not (fits_request r)
      then (guards, give invalid_request)
      else checked guards m r.source (summarize_json m.parameters)
          (classified m r.source (classify env.regexp_test m config))

  abbrev pub confirm_entry :
      ActionManifest
      → (source : Option Source) → PolicyDecision
      → PolicyAction
      → AuditResult
      → Run Event Thrown (Unit {0})
  confirm_entry m source d action result =
      audit env (entry_of at_base m source d.category action [] result)

  -- /confirm-only, from the answer of the user on.
  pub with_answer :
      ActionManifest
      → (source : Option Source) → PolicyDecision
      → Outcome Thrown Bool
      → Run Event Thrown Response
  with_answer m source d (thrown e) = fail e
  with_answer m source d (returned true) =
      confirm_entry m source d PolicyAction.allow success
      >> give (decided approved d.category "" m.id)
  with_answer m source d (returned false) =
      confirm_entry m source d PolicyAction.block denied_by_user
      >> give (decided denied d.category "" m.id)

  -- By the action of the decision.
  pub with_action :
      ActionManifest
      → (source : Option Source) → PolicyDecision
      → PolicyAction
      → Run Event Thrown Response
  unfolding with_answer
  with_action m source d PolicyAction.block =
      confirm_entry m source d PolicyAction.block blocked_by_policy
      >> give (decided block d.category d.reason m.id)
  with_action m source d PolicyAction.auto_approve =
      confirm_entry m source d PolicyAction.auto_approve success
      >> give (decided auto_approve d.category "" m.id)
  with_action m source d PolicyAction.allow =
      confirm_entry m source d PolicyAction.allow success
      >> give (decided auto_approve d.category "" m.id)
  with_action m source d PolicyAction.confirm =
      emit (asked m d) >> with_answer m source d (env.confirm_fn m d)

  unfoldable pub handle_confirm_only :
      SentinelConfig
      → PipelineGuards T
      → (manifest_id timestamp : String) → ClassifyRequest
      → Answered
  unfolding checked with_action
  handle_confirm_only config guards manifest_id timestamp r =
      let m = manifest_of manifest_id timestamp r in
      let d = classify env.regexp_test m config in
      if not (fits_request r)
      then (guards, give invalid_request)
      else checked guards m r.source [] (with_action m r.source d d.action)

pub record FilterOutputResponse : Type 0 where
  pub filtered : Text
  pub redacted : Bool
  pub moderation_flagged : Bool
  pub moderation_blocked : Bool

module _ {T : Type 0} (env : Router.Env T) where
  unfoldable pub filter_output : Text → FilterOutputResponse
  filter_output output =
      let redacted = env.redact_all output in
      let scrubbed = env.redact_pii redacted in
      let moderation = moderate env.regexp_matches env.moderation_mode scrubbed in
      record {
        filtered = if moderation.blocked then codes "[CONTENT_BLOCKED]" else scrubbed;
        redacted = not (text_eq redacted output) || not (text_eq scrubbed redacted);
        moderation_flagged = moderation.scan_result.flagged;
        moderation_blocked = moderation.blocked;
      }

  -- `none` is a request of the wrong form: an output of more than 1,048,576 code units, or an agent or
  -- a tool without a name.
  unfoldable pub handle_filter_output :
      (output : Text) (agent_id : String) (tool : Option String) → Option FilterOutputResponse
  handle_filter_output output agent_id tool =
      if leb (length output) 1048576 && (is_given agent_id && is_given (get_or tool "tool"))
      then some (filter_output output)
      else none
