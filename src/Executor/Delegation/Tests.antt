-- ===== src/Executor/Delegation/Tests.antt =====
-- Runs of a queue with one delegation.

use secure_openclaw_poc.Common.{
  ◌++◌, All, List, [], codes, none, refl, some, true, ◌∷◌, ◌≡◌, ◌*◌, ◌+◌, Bool, false, text_eq,
}
use secure_openclaw_poc.Executor.Delegation.Polling.{
  AddsOthers, StartsOther, end_process-settles, polls, polls_in, smooth, times,
}
use secure_openclaw_poc.Executor.Delegation.Counts.{how_many, how_many_wait, polls-started}
use secure_openclaw_poc.Executor.Delegation.{
  DelegateParams, Process, Row, System, end_process, handle_delegate, new_row, nth, poll, not_saved,
  throws,
}

abbrev params : DelegateParams
params = record {
  task = codes "fix it";
  worktree_name = none;
  allowed_tools = codes "Read" ∷ codes "Edit" ∷ [];
  max_budget_usd = codes "5";
  timeout_seconds = 900;
}

abbrev row : Row
row = new_row params (codes "d1") "a" "s" 10

abbrev fresh : System
fresh = record { rows = row ∷ []; active = []; processes = []; started = [] }

abbrev process : Process
process = record {
  delegation_id = codes "d1";
  args =
      codes "-p"
      ∷ codes "fix it"
      ∷ codes "--output-format"
      ∷ codes "json"
      ∷ codes "--max-budget-usd"
      ∷ codes "5"
      ∷ codes "--allowedTools"
      ∷ codes "Read,Edit"
      ∷ [];
}

queues_the_task : handle_delegate [] (some params) (codes "d1") "a" "s" 10 ≡ some (row ∷ [])
unfolding handle_delegate
queues_the_task = refl

-- Two polls start two processes for one delegation.
two_polls_start_it_twice : (polls (λ t. t) 2 fresh).started ≡ process ∷ process ∷ []
unfolding poll
two_polls_start_it_twice = refl

-- The end of one of them takes both off the file of active delegations, though the other runs on.
end_forgets_the_other :
    let e = end_process (polls (λ t. t) 2 fresh) 0 true 20 in
    (e.active ≡ []) × (e.processes ≡ process ∷ [])
unfolding end_process poll
end_forgets_the_other = (refl, refl)

-- A poll without an answer starts nothing, and one whose first start throws stops there.
a_failed_poll_starts_none :
    let other = new_row params (codes "d2") "a" "s" 20 in
    let two : System = record fresh { rows = row ∷ other ∷ [] } in
    ((poll (λ t. t) (record smooth { answers = false }) two).started ≡ [])
    × ((poll (λ t. t) (record smooth { spawns = λ r. throws }) two).started ≡ [])
    × ((poll (λ t. t) (record smooth { spawns = λ r. not_saved }) two).started ≡ process ∷ [])
unfolding poll
a_failed_poll_starts_none = (refl, refl, refl)

abbrev is_d1 : Process → Bool
is_d1 p = text_eq p.delegation_id (codes "d1")

polls-started_example :
    how_many is_d1 (polls (λ t. t) 2 fresh).started
    ≡ how_many is_d1 [] + 2 * how_many_wait (λ t. t) is_d1 (row ∷ [])
polls-started_example = polls-started (λ t. t) is_d1 2 fresh

one_process : nth 0 (polls (λ t. t) 1 fresh).processes ≡ some process
unfolding poll
one_process = refl

end_process-settles_example :
    ((ps : List Process) × ((polls
          (λ t. t)
          3
          (end_process (polls (λ t. t) 1 fresh) 0 true 20)).started
        ≡ (polls (λ t. t) 1 fresh).started ++ times 3 ps)
      × All (StartsOther (codes "d1")) ps)
    × AddsOthers
        (λ t. t)
        (codes "d1")
        (polls (λ t. t) 1 fresh).started
        (polls_in (λ t. t) (smooth ∷ []) (end_process (polls (λ t. t) 1 fresh) 0 true 20)).started
end_process-settles_example =
    end_process-settles (λ t. t) (polls (λ t. t) 1 fresh) 0 true 20 process 3 (smooth ∷ [])
      one_process
