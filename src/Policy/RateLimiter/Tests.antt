-- ===== src/Policy/RateLimiter/Tests.antt =====
-- Runs of the limiter, and its theorems at concrete inputs.
use secure_openclaw_poc.Common.{◌*◌, ◌+◌, [], arith, none, refl, some, true, ℕ, ◌↔◌, ◌∷◌, ◌≡◌, ◌≤◌}
use secure_openclaw_poc.Common.Outcome.{returned, thrown}
use secure_openclaw_poc.Common.JsMap
use secure_openclaw_poc.Common.JsMap.{JsMap}
use secure_openclaw_poc.Policy.RateLimiter.{
  RateLimiter, TatTable, Config, denied, allowed, check, flush, new, not_positive,
}
use secure_openclaw_poc.Policy.RateLimiter.Bounds.{Inv}
use secure_openclaw_poc.Policy.RateLimiter.History.{checks, resets, run, run-new-Inv}
use secure_openclaw_poc.Policy.RateLimiter.Gcra.{check_retry_exact, rate_bound, admitted}

-- A table that is the list of its rows.
abbrev listed : TatTable (JsMap ℕ)
listed = record {
  rows = λ t. t;
  upsert = JsMap.set;
  delete_row = JsMap.delete;
  delete_rows = λ t. [];
}

-- Two requests in ten milliseconds.
abbrev small : Config
small = record { rate = 2; period = 10; max_agents = some 2 }

abbrev limiter : RateLimiter (JsMap ℕ)
limiter = record {
  rate = 2;
  emission_interval = 10;
  period = 20;
  max_agents = 2;
  tats = [];
  db = none;
  dirty = [];
}

small-new : new listed small none 100 ≡ returned limiter
unfolding new
small-new = refl

zero_rate : new listed (record small { rate = 0 }) none 100 ≡ thrown not_positive
unfolding new
zero_rate = refl

abbrev twice : RateLimiter (JsMap ℕ)
twice = record limiter { tats = ("a", 220) ∷ [] }

third_is_denied : (check listed twice "a" 100).1 ≡ denied 10
unfolding check JsMap.get
third_is_denied = refl

flushed_rows :
    (flush listed (record twice { db = some []; dirty = "a" ∷ "b" ∷ [] }) true).db
    ≡ some (("a", 220) ∷ [])
unfolding flush JsMap.get JsMap.set
flushed_rows = refl

check_retry_exact_example :
    ((check listed twice "a" 100).0 ≡ twice)
    × (((check listed twice "a" 105).1 ≡ allowed) ↔ (100 * 2 + 10 ≤ 105 * 2))
check_retry_exact_example =
    check_retry_exact listed twice "a" 100 105 10 (omega arith) third_is_denied (omega arith)

rate_bound_example :
    admitted listed "a" limiter ((100, "a") ∷ (101, "b") ∷ (101, "a") ∷ (102, "a") ∷ []) * 10
      + 100 * 2
    ≤ 103 * 2 + 20
unfolding check JsMap.set JsMap.get
rate_bound_example =
    rate_bound listed "a" limiter 100 103 ((100, "a") ∷ (101, "b") ∷ (101, "a") ∷ (102, "a") ∷ [])
      (omega arith) (omega arith)

run-new-Inv_example :
    Inv
      (130 * (run listed limiter ((100, checks "a") ∷ (120, resets none) ∷ [])).rate)
      (run listed limiter ((100, checks "a") ∷ (120, resets none) ∷ []))
run-new-Inv_example =
    run-new-Inv listed small limiter 100 130 ((100, checks "a") ∷ (120, resets none) ∷ []) small-new
      (omega arith)

abbrev full : RateLimiter (JsMap ℕ)
full = record limiter { tats = ("a", 220) ∷ ("b", 230) ∷ [] }
