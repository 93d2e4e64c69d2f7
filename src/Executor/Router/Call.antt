-- ===== src/Executor/Router/Call.antt =====
-- packages/executor/src/router.ts: what a call of `handleExecute` is given, does and returns.
use secure_openclaw_poc.Common.{
  List, ◌++◌, Bool, Option, String, Text, [], codes, if◌then◌else◌, length, ltb, map, take, ℕ, ◌∷◌,
}
use secure_openclaw_poc.Common.Outcome.{Outcome}
use secure_openclaw_poc.Types.{ActionManifest, PolicyDecision, AuditEntry}
use secure_openclaw_poc.Types.Json.{Json, Parameters}
use secure_openclaw_poc.Policy.RateLimiter.{RateLimiter, TatTable}
use secure_openclaw_poc.Policy.LoopGuard
use secure_openclaw_poc.Policy.LoopGuard.{LoopGuard, LoopCheckResult, LoopAction, allow}
use secure_openclaw_poc.Executor.Moderation.{ModerationMode}
use secure_openclaw_poc.Executor.Filters.{ToolResult}

pub data Thrown : Type 0 where
  manifest_validation audit_failed confirm_failed handler_failed : Thrown

-- The calls of `randomUUID` and `toISOString`, by where they stand.
pub data Place : Type 0 where
  at_rate at_warning at_loop at_base at_pending at_failure : Place

pub data Event : Type 0 where
  audited : AuditEntry → Event
  asked : ActionManifest → PolicyDecision → Event
  ran : (tool : String) → Parameters → Event

-- A handler, with what it comes to on each call.
abbrev pub Handler : Type 0
Handler = Parameters → (manifest_id agent_id : String) → Outcome Thrown ToolResult

pub record Env (T : Type 0) : Type 0 where
  pub parse : Json → Option ActionManifest
  pub tat_table : TatTable T
  pub rate_now : ℕ
  pub loop_now : ℕ
  pub fingerprint : (tool : String) → Parameters → String
  pub stringify : Json → Text
  pub redact_all : Text → Text
  pub redact_pii : Text → Text
  pub regexp_test : (pattern text : Text) → Option Bool
  pub regexp_matches : (source flags : String) → Text → Bool
  pub moderation_mode : ModerationMode
  pub uuid : Place → String
  pub iso_time : Place → String
  pub failure_duration : ℕ
  pub log_succeeds : AuditEntry → Bool
  pub confirm_fn : ActionManifest → PolicyDecision → Outcome Thrown Bool

pub record PipelineGuards (T : Type 0) : Type 0 where
  pub rate_limiter : Option (RateLimiter T)
  pub loop_guard : Option LoopGuard

pub data Error : Type 0 where
  rate_limit_exceeded : (retry_after : ℕ) → Error
  loop_detected : Option LoopGuard.Reason → Error
  policy_blocked : (reason : String) → Error
  user_denied moderation_blocked output_blocked : Error
  unknown_tool : (tool : String) → Error

-- The result of a call: the pipeline's refusal, or what the tool gave.
pub data Result : Type 0 where
  refused : Error → (duration_ms : ℕ) → Result
  tool_result : ToolResult → Result

abbrev pub join : Text → List Text → Text
join separator [] = []
join separator (t ∷ []) = t
join separator (t ∷ u ∷ us) = t ++ separator ++ join separator (u ∷ us)

abbrev text_of : (stringify : Json → Text) → Json → Text
text_of stringify (Json.text t) = t
text_of stringify v = stringify v

abbrev pub shorten : Text → Text
shorten t = if ltb 100 (length t) then take 100 t ++ codes "..." else t

abbrev pub summarize_param : (stringify : Json → Text) → Text × Json → Text
summarize_param stringify p = p.0 ++ 61 ∷ shorten (text_of stringify p.1)

unfoldable pub summarize_params : (stringify : Json → Text) → Parameters → Text
summarize_params stringify ps = join (44 ∷ 32 ∷ []) (map (summarize_param stringify) ps)
