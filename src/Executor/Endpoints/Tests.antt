-- ===== src/Executor/Endpoints/Tests.antt =====
-- Requests to the endpoints.
use secure_openclaw_poc.Common.{Option, Text, [], codes, false, none, refl, some, true, ◌∷◌, ◌≡◌}
use secure_openclaw_poc.Executor.Endpoints.Permission.{
  handle_confirm_only-IsPermitted, has_success, is_granted,
}
use secure_openclaw_poc.Executor.Endpoints.Agreement.{OutcomeForetells, handle_classify-Foretells}
use secure_openclaw_poc.Executor.Endpoints.{
  ClassifyRequest, checked, confirm, decided, fits_request, handle_classify, handle_confirm_only,
  manifest_of,
}
use secure_openclaw_poc.Common.Outcome.{returned}
use secure_openclaw_poc.Types.{SentinelConfig, write}
use secure_openclaw_poc.Types.Json
use secure_openclaw_poc.Types.Json.{Json}
use secure_openclaw_poc.Policy.Classifier.{classify}
use secure_openclaw_poc.Policy.RateLimiter
use secure_openclaw_poc.Policy.LoopGuard
use secure_openclaw_poc.Policy.RateLimiter.{TatTable, allowed}
use secure_openclaw_poc.Policy.LoopGuard.{LoopAction, default_config}
use secure_openclaw_poc.Executor.Moderation.{enforce}
use secure_openclaw_poc.Executor.Registry.{ToolRegistry}
use secure_openclaw_poc.Executor.Router
use secure_openclaw_poc.Executor.Router.{
  Thrown, PipelineGuards, Handler, check_rate, check_loop, handle_execute, audit,
}
use secure_openclaw_poc.Executor.Router.Mediation.{IsPermitted, IsUnblocked}

abbrev to_write : ClassifyRequest
to_write = record {
  tool = "write_file";
  params = (codes "path", Json.text (codes "a.txt")) ∷ [];
  agent_id = "a";
  session_id = "s";
  source = none;
}

abbrev no_rows : TatTable (Unit {0})
no_rows = record {
  rows = λ t. [];
  upsert = λ agent tat t. t;
  delete_row = λ agent t. t;
  delete_rows = λ t. t;
}

-- The user approves everything.
abbrev env : Router.Env (Unit {0})
env = record {
  parse = λ j. some (manifest_of "m" "2026" to_write);
  tat_table = no_rows;
  rate_now = 1000;
  loop_now = 1000;
  fingerprint = λ t ps. t;
  stringify = λ j. [];
  redact_all = λ t. t;
  redact_pii = λ t. t;
  regexp_test = λ p t. some false;
  regexp_matches = λ s f t. false;
  moderation_mode = enforce;
  uuid = λ p. "u";
  iso_time = λ p. "2026";
  failure_duration = 3;
  log_succeeds = λ e. true;
  confirm_fn = λ m d. returned true;
}

abbrev config : SentinelConfig
config = record {
  classifications = record { tool = "write_file"; default_category = write; overrides = none } ∷ [];
  auto_approve_read_ops = true;
}

abbrev guards : PipelineGuards (Unit {0})
guards = record {
  rate_limiter = some (record {
    rate = 2;
    emission_interval = 100;
    period = 200;
    max_agents = 5;
    tats = [];
    db = none;
    dirty = [];
  });
  loop_guard = some (record { config = default_config; history = [] });
}

abbrev registry : ToolRegistry Handler
registry = record { handlers = []; entries = [] }

abbrev no_json : Json.Parameters → Option Text
no_json ps = none

write_is_to_be_confirmed :
    (handle_classify env no_json config guards "m" "2026" to_write).1.outcome
    ≡ returned (
        decided confirm write
          (classify env.regexp_test (manifest_of "m" "2026" to_write) config).reason
          "m")
unfolding handle_classify checked fits_request RateLimiter.check LoopGuard.check
    secure_openclaw_poc.Common.JsMap.get classify audit
write_is_to_be_confirmed = refl

write_is_granted :
    is_granted (handle_confirm_only env no_json config guards "m" "2026" to_write).1.outcome ≡ true
unfolding handle_confirm_only checked fits_request RateLimiter.check LoopGuard.check
    secure_openclaw_poc.Common.JsMap.get classify audit
write_is_granted = refl

handle_confirm_only-IsPermitted_example :
    (((check_rate env guards.rate_limiter (manifest_of "m" "2026" to_write)).1 ≡ allowed)
      × (IsUnblocked env (check_loop env guards.loop_guard (manifest_of "m" "2026" to_write)).1
          × IsPermitted env
              (manifest_of "m" "2026" to_write)
              (classify env.regexp_test (manifest_of "m" "2026" to_write) config)
              (classify env.regexp_test (manifest_of "m" "2026" to_write) config).action))
    × (has_success (handle_confirm_only env no_json config guards "m" "2026" to_write).1.events
        ≡ true)
handle_confirm_only-IsPermitted_example =
    handle_confirm_only-IsPermitted env no_json config guards "m" "2026" to_write write_is_granted

handle_classify-Foretells_example :
    ((handle_classify env no_json config guards "m" "2026" to_write).0
      ≡ (handle_execute env registry config guards Json.null).0)
    × OutcomeForetells env
        (handle_classify env no_json config guards "m" "2026" to_write).1.outcome
        (handle_execute env registry config guards Json.null).1.events
unfolding fits_request
handle_classify-Foretells_example =
    handle_classify-Foretells env no_json registry config guards "m" "2026" to_write Json.null refl
      refl
