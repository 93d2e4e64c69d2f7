-- ===== src/Executor/Router/Recorded.antt =====
-- What it means that the audit log records a run, and the parts of runs that it is shown for.
use secure_openclaw_poc.Common.{
  List, Bool, false, true, ◌≡◌, if_elim, refl, ◌∷◌, Option, if◌then◌else◌, some, ◌&&◌, String, [],
  not, str_eq, ◌||◌, ◌⊎◌, subst, sym, ℕ, ◌∙◌,
}
use secure_openclaw_poc.Common.Outcome.{Outcome, returned, thrown}
use secure_openclaw_poc.Types.{
  ActionCategory, PolicyAction, ActionManifest, PolicyDecision, AuditEntry, pending,
}
use secure_openclaw_poc.Executor.Run.{Run, give, fail, ◌>>◌}
use mathlib.Core.Bool.{or-false}
use secure_openclaw_poc.Executor.Router.{
  handler_failed, Thrown, Event, audited, asked, ran, Env, Result, audit, entry_at, base_entry,
  renewed_entry, audit_failed, AuditResult, failure, refused, rate_limit_exceeded,
  blocked_by_rate_limit, loop_detected, blocked_by_loop_guard, policy_blocked, blocked_by_policy,
  denied_by_user, unknown_tool, tool_result, success, user_denied, moderation_blocked,
  output_blocked, Place, at_base, manifest_validation, confirm_failed,
}
use secure_openclaw_poc.Executor.Router.Mediation.{has_run, audit_elim}

abbrev is_pending : AuditResult → Bool
is_pending pending = true
is_pending _ = false

-- The event before is the pending entry of the tool.
abbrev announces : (tool : String) → Option Event → Bool
announces tool (some (audited e)) = is_pending e.result && str_eq e.tool tool
announces tool _ = false

-- A run of a tool comes directly after its pending entry, and no run follows it.
abbrev pub runs_announced : (before : Option Event) → List Event → Bool
runs_announced before [] = true
runs_announced before (ran tool ps ∷ es) =
    announces tool before && (not (has_run es) && runs_announced (some (ran tool ps)) es)
runs_announced before (audited e ∷ es) = runs_announced (some (audited e)) es
runs_announced before (asked m d ∷ es) = runs_announced (some (asked m d)) es

-- The result in the last entry; `before` is that of the entries before.
abbrev pub last_result : (before : Option AuditResult) → List Event → Option AuditResult
last_result before [] = before
last_result before (audited e ∷ es) = last_result (some e.result) es
last_result before (asked m d ∷ es) = last_result before es
last_result before (ran tool ps ∷ es) = last_result before es

-- The result that the log keeps of what the caller gets.
abbrev pub result_of : Result → AuditResult
result_of (refused (rate_limit_exceeded retry_after) duration) = blocked_by_rate_limit
result_of (refused (loop_detected reason) duration) = blocked_by_loop_guard
result_of (refused (policy_blocked reason) duration) = blocked_by_policy
result_of (refused user_denied duration) = denied_by_user
result_of (refused moderation_blocked duration) = blocked_by_policy
result_of (refused output_blocked duration) = blocked_by_policy
result_of (refused (unknown_tool tool) duration) = failure
result_of (tool_result r) = if r.success then success else failure

-- By the outcome: the last entry has the result that the caller gets; or the log failed; or an
-- exception came before any tool ran; or the last entry says that the tool failed.
abbrev pub IsClosed : (last : Option AuditResult) (has_run : Bool) → Outcome Thrown Result → Type 0
IsClosed last has_run (returned r) = last ≡ some (result_of r)
IsClosed last has_run (thrown audit_failed) = Unit
IsClosed last has_run (thrown e) = (has_run ≡ false) ⊎ (last ≡ some failure)

-- A part of a run, after entries whose last result is `before`; `ran_before` says that the tool ran.
pub record IsRecorded (before : Option AuditResult) (ran_before : Bool)
    (r : Run Event Thrown Result) : Type 0 where
  pub announced : (e : Option Event) → runs_announced e r.events ≡ true
  pub closed : IsClosed (last_result before r.events) (ran_before || has_run r.events) r.outcome

give-IsRecorded : (b : Bool) (r : Result) → IsRecorded (some (result_of r)) b (give r)
give-IsRecorded b r = record { announced = λ e. refl; closed = refl }

closing :
    (before : Option AuditResult) (b : Bool) (e : Thrown)
    → (b ≡ false) ⊎ (before ≡ some failure)
    → IsClosed before b (thrown e)
closing before b audit_failed h = tt
closing before b manifest_validation h = h
closing before b confirm_failed h = h
closing before b handler_failed h = h

pub fail-IsRecorded :
    (before : Option AuditResult) (b : Bool) (e : Thrown)
    → (b ≡ false) ⊎ (before ≡ some failure)
    → IsRecorded before b (fail e)
fail-IsRecorded before b e h = record {
  announced = λ e. refl;
  closed = subst (λ x. IsClosed before x (thrown e)) (sym (or-false b)) (closing before b e h);
}

pub if-IsRecorded :
    (before : Option AuditResult) (c b : Bool) (x y : Run Event Thrown Result)
    → (b ≡ true → IsRecorded before c x)
    → (b ≡ false → IsRecorded before c y)
    → IsRecorded before c (if b then x else y)
if-IsRecorded before c b x y on_true on_false = if_elim (IsRecorded before c) b x y on_true on_false

module _ {T : Type 0} (env : Env T) where
  pub audit-IsRecorded :
      (before : Option AuditResult) (b : Bool) (e : AuditEntry) (next : Run Event Thrown Result)
      → IsRecorded (some e.result) b next
      → IsRecorded before b (audit env e >> next)
  audit-IsRecorded before b e next o =
      audit_elim env (IsRecorded before b) e next (record { announced = λ e. refl; closed = tt })
        (record { announced = λ before. o.announced (some (audited e)); closed = o.closed })

  -- The entry that closes the call, with the result of what the caller gets.
  last_entry-IsRecorded :
      (before : Option AuditResult) (b : Bool) (e : AuditEntry) (r : Result)
      → e.result ≡ result_of r
      → IsRecorded before b (audit env e >> give r)
  last_entry-IsRecorded before b e r same =
      audit-IsRecorded before b e (give r)
        (subst (λ a. IsRecorded (some a) b (give r)) (sym same) (give-IsRecorded b r))

  entry_at-result :
      (p : Place) (m : ActionManifest) (c : ActionCategory) (a : PolicyAction) (r : AuditResult)
      (n : ℕ)
      → ((entry_at env p m c a r n).result ≡ r) × ((entry_at env p m c a r n).tool ≡ m.tool)
  unfolding entry_at
  entry_at-result p m c a r n = (refl, refl)

  base_entry-result :
      (m : ActionManifest) (d : PolicyDecision) (r : AuditResult) (n : ℕ)
      → (base_entry env m d r n).result ≡ r
  unfolding base_entry
  base_entry-result m d r n = (entry_at-result at_base m d.category d.action r n).0

  pub renewed_entry-result :
      (p : Place) (m : ActionManifest) (d : PolicyDecision) (r : AuditResult) (n : ℕ)
      → ((renewed_entry env p m d r n).result ≡ r) × ((renewed_entry env p m d r n).tool ≡ m.tool)
  unfolding renewed_entry base_entry
  renewed_entry-result p m d r n = entry_at-result at_base m d.category d.action r n

  pub base_entry-IsRecorded :
      (before : Option AuditResult) (b : Bool) (m : ActionManifest) (d : PolicyDecision)
      (a : AuditResult) (n : ℕ) (r : Result)
      → a ≡ result_of r
      → IsRecorded before b (audit env (base_entry env m d a n) >> give r)
  base_entry-IsRecorded before b m d a n r same =
      last_entry-IsRecorded before b (base_entry env m d a n) r (base_entry-result m d a n ∙ same)

  pub entry_at-IsRecorded :
      (before : Option AuditResult) (b : Bool) (p : Place) (m : ActionManifest) (c : ActionCategory)
      (action : PolicyAction) (a : AuditResult) (n : ℕ) (r : Result)
      → a ≡ result_of r
      → IsRecorded before b (audit env (entry_at env p m c action a n) >> give r)
  entry_at-IsRecorded before b p m c action a n r same =
      last_entry-IsRecorded before b (entry_at env p m c action a n) r
        ((entry_at-result p m c action a n).0 ∙ same)
