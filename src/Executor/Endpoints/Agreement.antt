-- ===== src/Executor/Endpoints/Agreement.antt =====
-- What /classify foretells of a call of the pipeline.
use secure_openclaw_poc.Common.{
  Bool, List, Option, any, false, if_elim, none, refl, some, true, ◌≡◌, Text, String, [],
  if◌then◌else◌, subst, sym, ◌∷◌,
}
use secure_openclaw_poc.Common.Outcome.{Outcome, returned, thrown}
use secure_openclaw_poc.Types.{
  PolicyAction, Source, ActionManifest, PolicyDecision, SentinelConfig, AuditEntry,
  blocked_by_policy, blocked_by_loop_guard, blocked_by_rate_limit, loop_guard_warning, dangerous,
}
use secure_openclaw_poc.Types.Json.{Json, Parameters}
use secure_openclaw_poc.Policy.Classifier.{classify}
use secure_openclaw_poc.Policy.RateLimiter.{RateLimiter, RateLimitResult, allowed}
use secure_openclaw_poc.Policy.LoopGuard.{LoopCheckResult, LoopAction}
use secure_openclaw_poc.Executor.Run.{Run, give, ◌>>◌}
use secure_openclaw_poc.Executor.Filters.{ToolResult}
use secure_openclaw_poc.Executor.Moderation.{moderate}
use secure_openclaw_poc.Executor.Registry
use secure_openclaw_poc.Executor.Registry.{ToolRegistry}
use secure_openclaw_poc.Executor.Router
use secure_openclaw_poc.Executor.Router.{
  Thrown, Event, audited, asked, ran, PipelineGuards, check_rate, check_loop, audit_failed, audit,
  Handler, Result, with_verdict, after_handler, with_outcome, execute, with_handler, proceed,
  decide, with_decision, with_loop_action as pipeline_loop_action, after_loop_check,
  after_rate_check, handle_execute, execute_parsed,
}
use secure_openclaw_poc.Executor.Router.Mediation.{audit_elim, has_run}
use secure_openclaw_poc.Executor.Endpoints.{
  ClassifyRequest, manifest_of, Response, invalid_request, limited, decided, auto_approve, confirm,
  block, approved, denied, with_loop_action, with_loop_check, with_rate_check, checked,
  handle_classify, classified, fits_request, summarize_json, decision_of,
}

abbrev is_asked : Event → Bool
is_asked (audited e) = false
is_asked (asked m d) = true
is_asked (ran tool ps) = false

-- The user is asked.
abbrev pub has_asked : List Event → Bool
has_asked events = any is_asked events

module _ {T : Type 0} (env : Router.Env T) where
  record NotAsked (A : Type 0) (r : Run Event Thrown A) : Type 0 where
    none_asked : has_asked r.events ≡ false

  -- Nobody is asked and nothing is run.
  record Quiet (A : Type 0) (r : Run Event Thrown A) : Type 0 where
    unasked : has_asked r.events ≡ false
    not_run : has_run r.events ≡ false

  audit-NotAsked :
      {A : Type 0} (e : AuditEntry) (rest : Run Event Thrown A)
      → NotAsked A rest
      → NotAsked A (audit env e >> rest)
  audit-NotAsked {A} e rest n =
      audit_elim env (NotAsked A) e rest (record { none_asked = refl })
        (record { none_asked = n.none_asked })

  audit-Quiet : {A : Type 0} (e : AuditEntry) (a : A) → Quiet A (audit env e >> give a)
  audit-Quiet {A} e a =
      audit_elim env (Quiet A) e (give a) (record { unasked = refl; not_run = refl })
        (record { unasked = refl; not_run = refl })

  give-NotAsked : {A : Type 0} (a : A) → NotAsked A (give a)
  give-NotAsked a = record { none_asked = refl }

  with_verdict-NotAsked :
      (m : ActionManifest) (d : PolicyDecision) (r : ToolResult) (harmful : Bool)
      → NotAsked Result (with_verdict env m d r harmful)
  unfolding with_verdict
  with_verdict-NotAsked m d r true = audit-NotAsked _ _ (give-NotAsked _)
  with_verdict-NotAsked m d r false = audit-NotAsked _ _ (give-NotAsked _)

  with_outcome-NotAsked :
      (m : ActionManifest) (d : PolicyDecision) (o : Outcome Thrown ToolResult)
      → NotAsked Result (with_outcome env m d o)
  unfolding with_outcome after_handler
  with_outcome-NotAsked m d (thrown e) = audit-NotAsked _ _ (record { none_asked = refl })
  with_outcome-NotAsked m d (returned raw) = with_verdict-NotAsked m d _ _

  with_handler-NotAsked :
      (m : ActionManifest) (d : PolicyDecision) (o : Option Handler)
      → NotAsked Result (with_handler env m d o)
  unfolding with_handler execute
  with_handler-NotAsked m d none = audit-NotAsked _ _ (give-NotAsked _)
  with_handler-NotAsked m d (some h) = audit-NotAsked _ _ (record {
    none_asked = (with_outcome-NotAsked m d (h m.parameters m.id m.agent_id)).none_asked;
  })

  if-NotAsked :
      {A : Type 0} (b : Bool) (x y : Run Event Thrown A)
      → (b ≡ true → NotAsked A x)
      → (b ≡ false → NotAsked A y)
      → NotAsked A (if b then x else y)
  if-NotAsked {A} b x y on_true on_false = if_elim (NotAsked A) b x y on_true on_false

  proceed-NotAsked :
      (registry : ToolRegistry Handler) (m : ActionManifest) (d : PolicyDecision)
      → NotAsked Result (proceed env registry m d)
  unfolding proceed
  proceed-NotAsked registry m d =
      let text = Router.summarize_params env.stringify m.parameters in
      if-NotAsked (moderate env.regexp_matches env.moderation_mode text).blocked
        (audit env (Router.base_entry env m d blocked_by_policy 0)
          >> give (Router.refused Router.moderation_blocked 0))
        (with_handler env m d (Registry.get registry m.tool))
        (λ harmful. audit-NotAsked _ _ (give-NotAsked _))
        (λ harmless. with_handler-NotAsked m d (Registry.get registry m.tool))

  -- By the response, what the events of the call are like.
  abbrev pub Foretells : Response → List Event → Type 0
  Foretells invalid_request events = Unit
  Foretells (limited l id) events = (has_asked events ≡ false) × (has_run events ≡ false)
  Foretells (decided block category reason id) events =
      (has_asked events ≡ false) × (has_run events ≡ false)
  Foretells (decided auto_approve category reason id) events = has_asked events ≡ false
  Foretells (decided confirm category reason id) events = Unit
  Foretells (decided approved category reason id) events = Unit
  Foretells (decided denied category reason id) events = Unit

  abbrev pub OutcomeForetells : Outcome Thrown Response → List Event → Type 0
  OutcomeForetells (thrown e) events = Unit
  OutcomeForetells (returned r) events = Foretells r events

  record Agrees (r : Run Event Thrown Response) (call : Run Event Thrown Result) : Type 0 where
    foretold : OutcomeForetells r.outcome call.events

  audited_answer :
      (e : AuditEntry) (response : Response) (call : Run Event Thrown Result)
      → Foretells response call.events
      → Agrees (audit env e >> give response) call
  audited_answer e response call f =
      audit_elim env (λ r. Agrees r call) e (give response) (record { foretold = tt })
        (record { foretold = f })

module _ {T : Type 0} (env : Router.Env T) (to_json : Parameters → Option Text)
    (registry : ToolRegistry Handler) (config : SentinelConfig) where
  by_action :
      (m : ActionManifest) (source : Option Source) (d : PolicyDecision) (a : PolicyAction)
      (call : Run Event Thrown Result)
      → d.action ≡ a
      → Foretells env (decided (decision_of a) d.category d.reason m.id) call.events
      → Agrees env (classified env to_json m source d) call
  by_action m source d a call e f = audited_answer env _ _ call (
      subst (λ b. Foretells env (decided (decision_of b) d.category d.reason m.id) call.events)
        (sym e) f)

  classified-Agrees :
      (m : ActionManifest) (source : Option Source) (d : PolicyDecision) (a : PolicyAction)
      → d.action ≡ a
      → Agrees env (classified env to_json m source d) (with_decision env registry m d a)
  unfolding with_decision
  classified-Agrees m source d PolicyAction.auto_approve e =
      by_action m source d PolicyAction.auto_approve _ e
        (proceed-NotAsked env registry m d).none_asked
  classified-Agrees m source d PolicyAction.allow e =
      by_action m source d PolicyAction.allow _ e (proceed-NotAsked env registry m d).none_asked
  classified-Agrees m source d PolicyAction.block e =
      let q =
        audit-Quiet env (Router.base_entry env m d blocked_by_policy 0)
          (Router.refused (Router.policy_blocked d.reason) 0) in
      by_action m source d PolicyAction.block _ e (q.unasked, q.not_run)
  classified-Agrees m source d PolicyAction.confirm e =
      by_action m source d PolicyAction.confirm _ e tt

  decide-Agrees :
      (m : ActionManifest) (source : Option Source)
      → Agrees env
          (classified env to_json m source (classify env.regexp_test m config))
          (decide env registry config m)
  unfolding decide
  decide-Agrees m source =
      classified-Agrees m source (classify env.regexp_test m config)
        (classify env.regexp_test m config).action refl

  empty_foretold : (r : Response) → Foretells env r []
  empty_foretold invalid_request = tt
  empty_foretold (limited l id) = (refl, refl)
  empty_foretold (decided block category reason id) = (refl, refl)
  empty_foretold (decided auto_approve category reason id) = refl
  empty_foretold (decided confirm category reason id) = tt
  empty_foretold (decided approved category reason id) = tt
  empty_foretold (decided denied category reason id) = tt

  entry_foretold :
      (e : AuditEntry) (r : Response) (events : List Event)
      → Foretells env r events
      → Foretells env r (audited e ∷ events)
  entry_foretold e invalid_request events f = tt
  entry_foretold e (limited l id) events f = f
  entry_foretold e (decided block category reason id) events f = f
  entry_foretold e (decided auto_approve category reason id) events f = f
  entry_foretold e (decided confirm category reason id) events f = tt
  entry_foretold e (decided approved category reason id) events f = tt
  entry_foretold e (decided denied category reason id) events f = tt

  -- An entry before the call changes nothing that is foretold.
  foretold_after :
      (o : Outcome Thrown Response) (e : AuditEntry) (call : Run Event Thrown Result)
      → OutcomeForetells env o call.events
      → OutcomeForetells env o (audit env e >> call).events
  foretold_after (thrown x) e call f = tt
  foretold_after (returned r) e call f =
      audit_elim env (λ (c : Run Event Thrown Result). Foretells env r c.events) e call
        (empty_foretold r) (entry_foretold e r call.events f)

  with_loop_action-Agrees :
      (m : ActionManifest) (source : Option Source) (summary : Text) (r : LoopCheckResult)
      (a : LoopAction)
      → Agrees env
          (with_loop_action env to_json m source summary
            (classified env to_json m source (classify env.regexp_test m config))
            r
            a)
          (pipeline_loop_action env registry config m r a)
  unfolding with_loop_action pipeline_loop_action
  with_loop_action-Agrees m source summary r LoopAction.allow = decide-Agrees m source
  with_loop_action-Agrees m source summary r LoopAction.warn = record {
    foretold =
        foretold_after (classified env to_json m source (classify env.regexp_test m config)).outcome
          (Router.entry_at env Router.at_warning m dangerous PolicyAction.allow loop_guard_warning
            0)
          (decide env registry config m) (decide-Agrees m source).foretold;
  }
  with_loop_action-Agrees m source summary r LoopAction.block =
      let q =
        audit-Quiet env
          (Router.entry_at env Router.at_loop m dangerous PolicyAction.block blocked_by_loop_guard
            0)
          (Router.refused (Router.loop_detected r.reason) 0) in
      audited_answer env _ _ _ (q.unasked, q.not_run)

  with_loop_check-Agrees :
      (m : ActionManifest) (source : Option Source) (summary : Text) (v : Option LoopCheckResult)
      → Agrees env
          (with_loop_check env to_json m source summary
            (classified env to_json m source (classify env.regexp_test m config))
            v)
          (after_loop_check env registry config m v)
  unfolding with_loop_check after_loop_check
  with_loop_check-Agrees m source summary none = decide-Agrees m source
  with_loop_check-Agrees m source summary (some r) =
      with_loop_action-Agrees m source summary r r.action

  -- The two leave the same guards, and the first foretells the second.
  abbrev Pair :
      (PipelineGuards T × Run Event Thrown Response)
      → (PipelineGuards T × Run Event Thrown Result)
      → Type 0
  Pair a b = (a.0 ≡ b.0) × Agrees env a.1 b.1

  with_rate_check-Agrees :
      (guards : PipelineGuards T) (m : ActionManifest) (source : Option Source) (summary : Text)
      (limiter : Option (RateLimiter T)) (rate : RateLimitResult)
      → Pair
          (with_rate_check env to_json guards m source summary
            (classified env to_json m source (classify env.regexp_test m config))
            limiter
            rate)
          (after_rate_check env registry config guards m limiter rate)
  unfolding with_rate_check after_rate_check
  with_rate_check-Agrees guards m source summary limiter (RateLimitResult.denied retry_after) =
      let q =
        audit-Quiet env
          (Router.entry_at env Router.at_rate m dangerous PolicyAction.block blocked_by_rate_limit
            0)
          (Router.refused (Router.rate_limit_exceeded retry_after) 0) in
      (refl, audited_answer env _ _ _ (q.unasked, q.not_run))
  with_rate_check-Agrees guards m source summary limiter allowed =
      (refl, with_loop_check-Agrees m source summary (check_loop env guards.loop_guard m).1)

  -- /classify leaves the guards as a call of the pipeline with the same manifest leaves them, and its
  -- response foretells the call: after a limit or a block nothing is run and nobody is asked, and after
  -- an approval nobody is asked.
  pub handle_classify-Foretells :
      (guards : PipelineGuards T) (id time : String) (r : ClassifyRequest) (raw : Json)
      → fits_request r ≡ true
      → env.parse raw ≡ some (manifest_of id time r)
      → ((handle_classify env to_json config guards id time r).0
          ≡ (handle_execute env registry config guards raw).0)
        × OutcomeForetells env
            (handle_classify env to_json config guards id time r).1.outcome
            (handle_execute env registry config guards raw).1.events
  unfolding handle_classify checked handle_execute execute_parsed
  handle_classify-Foretells guards id time r raw fits parsed =
      let m = manifest_of id time r in
      let (same, agrees) =
        with_rate_check-Agrees guards m r.source (summarize_json env to_json m.parameters)
          (check_rate env guards.rate_limiter m).0 (check_rate env guards.rate_limiter m).1 in
      rw (fits, parsed) (same, agrees.foretold)
