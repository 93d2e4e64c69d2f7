-- ===== src/Executor/Router/Tests.antt =====
-- Calls of the pipeline, and its theorems at concrete calls.
use secure_openclaw_poc.Common.{
  List, String, Text, [], codes, false, none, refl, some, suc, true, zero, ℕ, ◌∷◌, ◌≡◌,
}
use secure_openclaw_poc.Common.Outcome.{returned, thrown}
use secure_openclaw_poc.Common.JsMap.{JsMap}
use secure_openclaw_poc.Types.{ActionManifest, SentinelConfig, read, write}
use secure_openclaw_poc.Types.Json.{Json, null}
use secure_openclaw_poc.Policy.Classifier.{classify}
use secure_openclaw_poc.Policy.RateLimiter
use secure_openclaw_poc.Policy.LoopGuard
use secure_openclaw_poc.Policy.RateLimiter.{RateLimiter, TatTable, allowed}
use secure_openclaw_poc.Policy.LoopGuard.{LoopGuard, default_config}
use secure_openclaw_poc.Executor.Filters.{ToolResult, scrub_pii, filter_credentials}
use secure_openclaw_poc.Executor.Moderation.{enforce, moderate, scan_content}
use secure_openclaw_poc.Executor.Registry.{ToolRegistry, get}
use secure_openclaw_poc.Executor.Router.{
  Env, Thrown, Handler, PipelineGuards, refused, tool_result, check_rate, check_loop,
  handle_execute, user_denied, audit, PolicyDecision,
}
use secure_openclaw_poc.Executor.Router.Mediation.{
  has_run, IsUnblocked, IsDecided, handle_execute-mediation,
}
use secure_openclaw_poc.Executor.Router.Recorded.{runs_announced, last_result, IsClosed}
use secure_openclaw_poc.Executor.Router.AuditTrail.{handle_execute-audit_trail}

abbrev manifest : String → ActionManifest
manifest tool = record {
  id = "m";
  timestamp = "2026";
  tool = tool;
  parameters = (codes "path", Json.text (codes "a.txt")) ∷ [];
  category = none;
  session_id = "s";
  agent_id = "a";
}

abbrev no_table : TatTable (Unit {0})
no_table = record {
  rows = λ t. [];
  upsert = λ agent tat t. t;
  delete_row = λ agent t. t;
  delete_rows = λ t. t;
}

-- The user denies everything, the log works, nothing matches a pattern.
abbrev env : String → Env (Unit {0})
env tool = record {
  parse = λ j. some (manifest tool);
  tat_table = no_table;
  rate_now = 1000;
  loop_now = 1000;
  fingerprint = λ t ps. t;
  stringify = λ j. [];
  redact_all = λ t. t;
  redact_pii = λ t. t;
  regexp_test = λ p t. some false;
  regexp_matches = λ s f t. false;
  moderation_mode = enforce;
  uuid = λ p. "u";
  iso_time = λ p. "2026";
  failure_duration = 3;
  log_succeeds = λ e. true;
  confirm_fn = λ m d. returned false;
}

abbrev read_result : ToolResult
read_result = record {
  manifest_id = "m";
  success = true;
  output = some (codes "text");
  error = none;
  duration_ms = 2;
}

abbrev registry : ToolRegistry Handler
registry = record {
  handlers =
      ("read_file", (λ ps m a. returned read_result))
      ∷ ("write_file", (λ ps m a. thrown Thrown.handler_failed))
      ∷ [];
  entries = [];
}

abbrev config : SentinelConfig
config = record {
  classifications =
      record { tool = "read_file"; default_category = read; overrides = none }
      ∷ record { tool = "write_file"; default_category = write; overrides = none }
      ∷ [];
  auto_approve_read_ops = true;
}

abbrev guards : PipelineGuards (Unit {0})
guards = record {
  rate_limiter = some (record {
    rate = 2;
    emission_interval = 100;
    period = 200;
    max_agents = 5;
    tats = [];
    db = none;
    dirty = [];
  });
  loop_guard = some (record { config = default_config; history = [] });
}

read_runs : has_run (handle_execute (env "read_file") registry config guards null).1.events ≡ true
unfolding handle_execute RateLimiter.check LoopGuard.check secure_openclaw_poc.Common.JsMap.get
    classify moderate scan_content get audit
read_runs = refl

read_returns :
    (handle_execute (env "read_file") registry config guards null).1.outcome
    ≡ returned (tool_result read_result)
unfolding handle_execute RateLimiter.check LoopGuard.check secure_openclaw_poc.Common.JsMap.get
    classify moderate scan_content get audit scrub_pii filter_credentials
read_returns = refl

write_is_denied :
    (handle_execute (env "write_file") registry config guards null).1.outcome
    ≡ returned (refused user_denied 0)
unfolding handle_execute RateLimiter.check LoopGuard.check secure_openclaw_poc.Common.JsMap.get
    classify audit
write_is_denied = refl

handle_execute-mediation_example :
    (m : ActionManifest) × ((some (manifest "read_file") ≡ some m)
      × (((check_rate (env "read_file") guards.rate_limiter m).1 ≡ allowed)
          × (IsUnblocked (env "read_file") (check_loop (env "read_file") guards.loop_guard m).1
              × IsDecided (env "read_file") registry config m)))
handle_execute-mediation_example =
    handle_execute-mediation (env "read_file") registry config guards null read_runs

handle_execute-audit_trail_example :
    (runs_announced none (handle_execute (env "write_file") registry config guards null).1.events
      ≡ true)
    × IsClosed
        (last_result none (handle_execute (env "write_file") registry config guards null).1.events)
        (has_run (handle_execute (env "write_file") registry config guards null).1.events)
        (handle_execute (env "write_file") registry config guards null).1.outcome
handle_execute-audit_trail_example =
    handle_execute-audit_trail (env "write_file") registry config guards null

abbrev letters : ℕ → Text
letters zero = []
letters (suc n) = 97 ∷ letters n

abbrev read_decision : PolicyDecision
read_decision = classify (λ p t. some false) (manifest "read_file") config
