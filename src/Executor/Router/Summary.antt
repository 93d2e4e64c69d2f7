-- ===== src/Executor/Router/Summary.antt =====
-- packages/executor/src/router.ts: what the moderation of step 6 sees of the parameters.
use secure_openclaw_poc.Executor.Router.Call.{
  Env, Event, Handler, Result, Thrown, moderation_blocked, refused,
}
use secure_openclaw_poc.Common.{◌≡◌, ◌⊎◌}
use secure_openclaw_poc.Types.Json.{Json}
use secure_openclaw_poc.Executor.Registry
use secure_openclaw_poc.Executor.Router.{
  audit, base_entry, proceed, with_handler, ActionManifest, ToolRegistry, PolicyDecision, Run,
  blocked_by_policy, ◌>>◌, give,
}

module _ {T : Type 0} (env : Env T) where
  -- The end of a call that the moderation of the parameters stops.
  abbrev pub stopped : ActionManifest → PolicyDecision → Run Event Thrown Result
  stopped m d =
      audit env (base_entry env m d blocked_by_policy 0) >> give (refused moderation_blocked 0)

  -- How two calls are treated alike: both are stopped, and their runs are the same; or both are given to
  -- the handler of their tool, each with its own parameters.
  abbrev pub AreAlike : ToolRegistry Handler → PolicyDecision → (m m' : ActionManifest) → Type 0
  AreAlike registry d m m' =
      ((proceed env registry m d ≡ stopped m d) × (proceed env registry m' d ≡ stopped m d))
      ⊎ ((proceed env registry m d ≡ with_handler env m d (Registry.get registry m.tool))
          × (proceed env registry m' d ≡ with_handler env m' d (Registry.get registry m.tool)))
