-- ===== src/Executor/Confirmations/Settled.antt =====
-- What happens to a confirmation in the end.
use secure_openclaw_poc.Common.{List, String, [], ℕ, ◌∷◌, ◌==◌, Bool, filter}
use secure_openclaw_poc.Executor.Confirmations.{State, fire}
use secure_openclaw_poc.Executor.Confirmations.Once.{count}

-- All timers of the list run, one after the other.
unfoldable pub fire_all : State → List (ℕ × String) → State
fire_all s [] = s
fire_all s (t ∷ ts) = fire_all (fire s t.0) ts

-- The answers that have an effect: those to promises that were not rejected.
unfoldable pub effective : State → List (ℕ × Bool)
effective s = filter (λ e. count e.0 s.rejected == 0) s.settled
