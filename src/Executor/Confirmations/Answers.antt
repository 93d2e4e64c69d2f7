-- ===== src/Executor/Confirmations/Answers.antt =====
-- Who gives the answers.
use secure_openclaw_poc.Common.{
  List, ◌+◌, ◌++◌, Bool, Option, String, [], arith, if◌then◌else◌, false, none, refl, some, suc, ℕ,
  ◌∷◌, ◌≡◌, ◌≤◌, ==_iff, eq_refl, ◌∙◌, ◌≢◌,
}
use secure_openclaw_poc.Common.JsMap
use secure_openclaw_poc.Executor.Confirmations.{
  State, find_timer, confirm_fn, settle, resolve_found, resolve_confirmation, fire_found, fire,
  Step, requested, answered, timed_out, step, run,
}
use secure_openclaw_poc.Executor.Confirmations.Once.{
  IsOnce, confirm_fn-IsOnce, next_is_new, find_timer-count, find_timer-append,
  find_timer-clear_timer,
}

-- The approvals among the answers that confirmations got.
abbrev pub approvals : List (ℕ × Bool) → ℕ
approvals [] = 0
approvals (e ∷ es) = (if e.1 then 1 else 0) + approvals es

-- The approvals among the answers that were sent.
abbrev pub approvals_sent : List Step → ℕ
approvals_sent [] = 0
approvals_sent (requested id is_readable ∷ xs) = approvals_sent xs
approvals_sent (answered id b ∷ xs) = (if b then 1 else 0) + approvals_sent xs
approvals_sent (timed_out n ∷ xs) = approvals_sent xs

approvals-append : (xs ys : List (ℕ × Bool)) → approvals (xs ++ ys) ≡ approvals xs + approvals ys
approvals-append [] ys = omega arith
approvals-append (x ∷ xs) ys = omega (arith, approvals-append xs ys)

resolve_found-approvals :
    (s : State) (id : String) (b : Bool) (o : Option ℕ)
    → approvals (resolve_found s id b o).0.settled ≤ approvals s.settled + (if b then 1 else 0)
unfolding resolve_found settle
resolve_found-approvals s id b none = ground arith
resolve_found-approvals s id b (some n) = ground (arith, approvals-append s.settled ((n, b) ∷ []))

fire_found-approvals :
    (s : State) (n : ℕ) (o : Option String)
    → approvals (fire_found s n o).settled ≡ approvals s.settled
unfolding fire_found settle
fire_found-approvals s n none = refl
fire_found-approvals s n (some id) = ground (arith, approvals-append s.settled ((n, false) ∷ []))

-- No more confirmations are approved than approvals were sent: a timeout never approves, and one
-- approval serves one confirmation.
pub run-approvals :
    (s : State) (xs : List Step)
    → approvals (run s xs).settled ≤ approvals s.settled + approvals_sent xs
unfolding run step resolve_confirmation fire confirm_fn
run-approvals s [] = omega arith
run-approvals s (requested id is_readable ∷ xs) = run-approvals (confirm_fn s id is_readable) xs
run-approvals s (answered id b ∷ xs) =
    let one = resolve_found-approvals s id b (JsMap.get id s.pending_confirmations) in
    omega (arith, one, run-approvals (resolve_confirmation s id b).0 xs)
run-approvals s (timed_out n ∷ xs) =
    let none_new = fire_found-approvals s n (find_timer n s.timers) in
    omega (arith, none_new, run-approvals (fire s n) xs)

get-set-same : (id : String) (n : ℕ) (m : JsMap.JsMap ℕ) → JsMap.get id (JsMap.set id n m) ≡ some n
get-set-same id n m = JsMap.get-set id id n m ∙ rw (eq_refl id)

get-delete-same :
    (id : String) (m : JsMap.JsMap ℕ)
    → JsMap.HasDistinctKeys m
    → JsMap.get id (JsMap.delete id m) ≡ none
get-delete-same id m d = JsMap.get-delete id id m d ∙ rw (eq_refl id)

-- A new confirmation waits on its timer.
new_waits :
    (s : State) (id : String) (is_readable : Bool)
    → IsOnce s
    → find_timer s.next (confirm_fn s id is_readable).timers ≡ some id
unfolding confirm_fn
new_waits s id is_readable i =
    (confirm_fn-IsOnce s id is_readable i).timed id s.next
      (get-set-same id s.next s.pending_confirmations)

-- Another confirmation leaves the timers that run.
still_waits :
    (s : State) (n : ℕ) (id other : String) (is_readable : Bool)
    → IsOnce s
    → find_timer n s.timers ≡ some id
    → find_timer n (confirm_fn s other is_readable).timers ≡ some id
unfolding confirm_fn
still_waits s n id other is_readable i waits =
    let new = next_is_new s i in
    let used = find_timer-count n s.timers id waits in
    let after = find_timer-append s.next n other s.timers new.0 in
    ground (arith, waits, used, after, new.0, ==_iff s.next n)

lost :
    (s : State) (n later : ℕ) (id : String) (answer : Bool)
    → IsOnce s
    → n ≢ later
    → find_timer n s.timers ≡ some id
    → find_timer later s.timers ≡ some id
    → ((resolve_confirmation (fire s n) id answer).1 ≡ false)
      × (find_timer later (fire s n).timers ≡ some id)
unfolding resolve_confirmation fire fire_found settle resolve_found
lost s n later id answer i differ first second =
    rw (first, get-delete-same id s.pending_confirmations i.distinct)
      (refl, find_timer-clear_timer n later s.timers differ ∙ second)

-- Two confirmations of one manifest id are open, and the timer of the first one runs: from then on an
-- answer to the id is refused, though the second confirmation still waits.
pub second_is_lost :
    (s : State) (id : String) (first second answer : Bool)
    → IsOnce s
    → ((resolve_confirmation
          (fire (confirm_fn (confirm_fn s id first) id second) s.next)
          id
          answer).1
        ≡ false)
      × (find_timer (suc s.next) (fire (confirm_fn (confirm_fn s id first) id second) s.next).timers
          ≡ some id)
unfolding confirm_fn
second_is_lost s id first second answer i =
    let i' = confirm_fn-IsOnce s id first i in
    lost (confirm_fn (confirm_fn s id first) id second) s.next (suc s.next) id answer
      (confirm_fn-IsOnce (confirm_fn s id first) id second i') (omega arith)
      (still_waits (confirm_fn s id first) s.next id id second i' (new_waits s id first i))
      (new_waits (confirm_fn s id first) id second i')
