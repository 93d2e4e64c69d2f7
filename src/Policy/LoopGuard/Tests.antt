-- ===== src/Policy/LoopGuard/Tests.antt =====
-- Runs of the guard, and its theorems at concrete inputs.
use secure_openclaw_poc.Common.{◌++◌, List, [], arith, refl, ℕ, ◌∷◌, ◌≡◌}
use secure_openclaw_poc.Common.Outcome.{returned}
use secure_openclaw_poc.Common.JsMap
use secure_openclaw_poc.Policy.LoopGuard.{
  LoopGuard, warn, block, default_config, new, check, duplicates, escalate,
}
use secure_openclaw_poc.Policy.LoopGuard.Window.{last_in_window}
use secure_openclaw_poc.Policy.LoopGuard.History.{Call, run, log_of, check_exact}

abbrev fresh : LoopGuard
fresh = record { config = default_config; history = [] }

abbrev call : ℕ → Call
call now = record { agent = "a"; tool = "bash"; hash = "h"; now = now }

abbrev four : List Call
four = call 1 ∷ call 2 ∷ call 3 ∷ call 4 ∷ []

third_warns : (check (run fresh (call 1 ∷ call 2 ∷ [])) "a" "bash" "h" 3).1.action ≡ warn
unfolding run check JsMap.get JsMap.set
third_warns = refl

fifth_blocks : (check (run fresh four) "a" "bash" "h" 5).1.action ≡ block
unfolding run check JsMap.get JsMap.set
fifth_blocks = refl

fresh-new : new default_config ≡ returned fresh
unfolding new
fresh-new = refl

check_exact_example :
    (check (run fresh four) "a" "bash" "h" 5).1
    ≡ escalate default_config "bash" (
        duplicates "h" (
          last_in_window default_config 5
            (log_of "a" four ++ record { hash = "h"; timestamp = 5 } ∷ [])))
unfolding check JsMap.set JsMap.get
check_exact_example =
    check_exact default_config fresh 0 4 four (call 5) fresh-new (omega arith) (omega arith)
      (omega arith)

-- A history of four calls with a threshold of five.
abbrev short_history : LoopGuard
short_history = record fresh { config = record default_config { max_history_size = 4 } }

short_history-new : new short_history.config ≡ returned short_history
unfolding new
short_history-new = refl
