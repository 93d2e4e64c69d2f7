-- ===== src/Executor/Confirmations/Tests.antt =====
-- Courses of confirmations, and the theorems at concrete courses.
use secure_openclaw_poc.Common.{List, ◌+◌, [], false, refl, some, true, ◌∷◌, ◌≡◌, ◌≤◌}
use secure_openclaw_poc.Executor.Confirmations.{
  start, confirm_fn, resolve_confirmation, fire, Step, requested, answered, timed_out, run,
}
use secure_openclaw_poc.Executor.Confirmations.Settled.{effective}
use secure_openclaw_poc.Executor.Confirmations.Answers.{approvals, approvals_sent, run-approvals}

abbrev course : List Step
course =
    requested "a" true
    ∷ requested "b" false
    ∷ answered "a" true
    ∷ answered "a" true
    ∷ timed_out 1
    ∷ requested "c" true
    ∷ []

one_approved : (run start course).settled ≡ (0, true) ∷ (1, false) ∷ []
unfolding run confirm_fn fire resolve_confirmation secure_openclaw_poc.Common.JsMap.get
    secure_openclaw_poc.Common.JsMap.set secure_openclaw_poc.Common.JsMap.delete
one_approved = refl

-- The promise of "b" was rejected, and its timer ran all the same: the answer has no effect.
answer_without_effect :
    ((run start course).rejected ≡ (1, "b") ∷ []) × (effective (run start course) ≡ (0, true) ∷ [])
unfolding run effective confirm_fn fire resolve_confirmation secure_openclaw_poc.Common.JsMap.get
    secure_openclaw_poc.Common.JsMap.set secure_openclaw_poc.Common.JsMap.delete
answer_without_effect = (refl, refl)

run-approvals_example :
    approvals (run start course).settled ≤ approvals start.settled + approvals_sent course
run-approvals_example = run-approvals start course
