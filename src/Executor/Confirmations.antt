-- ===== src/Executor/Confirmations.antt =====
-- packages/executor/src/server.ts: the confirmations that wait for an answer. `confirmFn` opens one,
-- `resolveConfirmation` answers it, and its timer denies it after five minutes.
--
-- A confirmation is known by its number, which stands for the promise of its call; the map of the
-- server is keyed by the id of the manifest.
pub mod Once
pub mod Settled
pub mod Answers
mod Tests
use secure_openclaw_poc.Common.{
  List, ◌++◌, ◌==◌, Bool, Option, String, [], if◌then◌else◌, false, filter, none, not, some, suc,
  true, ℕ, ◌∷◌,
}
use secure_openclaw_poc.Common.JsMap
use secure_openclaw_poc.Common.JsMap.{JsMap}

pub data Decision : Type 0 where
  approved denied timeout : Decision

pub data StreamEvent : Type 0 where
  confirmation_requested : (manifest_id : String) → StreamEvent
  confirmation_resolved : (manifest_id : String) → Decision → StreamEvent

-- `timers` are those that are neither cleared nor fired, with the id that each one's closure holds;
-- `settled` are the calls of `resolve` on promises, in order; `rejected` are the promises whose executor
-- threw, with the id. An answer to one of these has no effect.
pub record State : Type 0 where
  pub pending_confirmations : JsMap ℕ
  pub timers : List (ℕ × String)
  pub settled : List (ℕ × Bool)
  pub rejected : List (ℕ × String)
  pub next : ℕ
  pub emitted : List StreamEvent

abbrev pub start : State
start = record {
  pending_confirmations = [];
  timers = [];
  settled = [];
  rejected = [];
  next = 0;
  emitted = [];
}

pub find_timer : ℕ → List (ℕ × String) → Option String
find_timer n [] = none
find_timer n (t ∷ ts) = let rest = find_timer n ts in if t.0 == n then some t.1 else rest

-- `clearTimeout`.
pub clear_timer : ℕ → List (ℕ × String) → List (ℕ × String)
clear_timer n ts = filter (λ t. not (t.0 == n)) ts

abbrev pub decision_of : Bool → Decision
decision_of b = if b then approved else denied

-- `is_readable` tells whether the parameters are JSON after their redaction; where they are not,
-- `JSON.parse` throws when the timer runs and the map holds the entry, and the promise is rejected.
unfoldable pub confirm_fn : State → (manifest_id : String) (is_readable : Bool) → State
confirm_fn s id is_readable = record {
  pending_confirmations = JsMap.set id s.next s.pending_confirmations;
  timers = s.timers ++ (s.next, id) ∷ [];
  settled = s.settled;
  rejected = if is_readable then s.rejected else s.rejected ++ (s.next, id) ∷ [];
  next = suc s.next;
  emitted = if is_readable then s.emitted ++ confirmation_requested id ∷ [] else s.emitted;
}

-- What an answer does to the confirmation `n` that was found.
pub settle : State → (n : ℕ) (manifest_id : String) (decision : Decision) (answer : Bool) → State
unfolding clear_timer
settle s n id decision answer = record s {
  pending_confirmations = JsMap.delete id s.pending_confirmations;
  timers = clear_timer n s.timers;
  settled = s.settled ++ (n, answer) ∷ [];
  emitted = s.emitted ++ confirmation_resolved id decision ∷ [];
}

pub resolve_found : State → (manifest_id : String) → Bool → Option ℕ → State × Bool
unfolding settle
resolve_found s id answer none = (s, false)
resolve_found s id answer (some n) = (settle s n id (decision_of answer) answer, true)

unfoldable pub resolve_confirmation : State → (manifest_id : String) (answer : Bool) → State × Bool
unfolding resolve_found
resolve_confirmation s id answer = resolve_found s id answer (JsMap.get id s.pending_confirmations)

pub fire_found : State → ℕ → Option String → State
unfolding settle
fire_found s n none = s
fire_found s n (some id) = settle s n id timeout false

-- The timer of the confirmation `n` runs, if it is still there.
unfoldable pub fire : State → ℕ → State
unfolding find_timer fire_found
fire s n = fire_found s n (find_timer n s.timers)

pub data Step : Type 0 where
  requested : (manifest_id : String) (is_readable : Bool) → Step
  answered : (manifest_id : String) → Bool → Step
  timed_out : ℕ → Step

unfoldable pub step : State → Step → State
step s (requested id is_readable) = confirm_fn s id is_readable
step s (answered id b) = (resolve_confirmation s id b).0
step s (timed_out n) = fire s n

unfoldable pub run : State → List Step → State
unfolding step
run s [] = s
run s (x ∷ xs) = run (step s x) xs
