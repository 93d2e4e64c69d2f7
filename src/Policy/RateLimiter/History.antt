-- ===== src/Policy/RateLimiter/History.antt =====
-- Histories of one limiter: its calls in the order of the clock.
use secure_openclaw_poc.Common.{
  ℕ, String, List, ◌≤◌, Option, ◌∷◌, ◌≡◌, ◌*◌, none, arith, Bool, subst, sym, [], some, refl,
}
use secure_openclaw_poc.Common.Outcome.{returned}
use secure_openclaw_poc.Policy.RateLimiter.{
  RateLimiter, TatTable, Config, check, reset, flush, flush_dirty, new,
}
use secure_openclaw_poc.Policy.RateLimiter.Bounds.{
  Inv, Inv-later, check-Inv, reset-Inv, flush-Inv, new-Inv, rate-check,
}

mul_mono : (a b c : ℕ) → a ≤ b → a * c ≤ b * c
mul_mono a b c h = grind arith

module _ {T : Type 0} (D : TatTable T) where
  -- A call on the limiter other than `close`.
  pub data Call : Type 0 where
    checks : String → Call
    resets : Option String → Call
    flushes : Bool → Call

  pub step : RateLimiter T → ℕ × Call → RateLimiter T
  step l (now_ms, checks agent) = (check D l agent now_ms).0
  step l (now_ms, resets agent) = reset D l agent
  step l (now_ms, flushes commits) = flush D l commits

  pub run : RateLimiter T → List (ℕ × Call) → RateLimiter T
  run l [] = l
  run l (c ∷ cs) = run (step l c) cs

  -- The clock does not go back.
  abbrev pub Ascending : (from until : ℕ) → List (ℕ × Call) → Type 0
  Ascending from until [] = from ≤ until
  Ascending from until ((now_ms, c) ∷ cs) = (from ≤ now_ms) × Ascending now_ms until cs

  rate-step : (l : RateLimiter T) (c : ℕ × Call) → (step l c).rate ≡ l.rate
  unfolding step reset flush flush_dirty
  rate-step l (now_ms, checks agent) = rate-check D l agent now_ms
  rate-step l (now_ms, resets none) = refl
  rate-step l (now_ms, resets (some agent)) = refl
  rate-step l (now_ms, flushes commits) = ground arith

  step-Inv :
      (l : RateLimiter T) (now_ms : ℕ) (c : Call)
      → Inv (now_ms * l.rate) l
      → Inv (now_ms * l.rate) (step l (now_ms, c))
  unfolding step
  step-Inv l now_ms (checks agent) i = check-Inv D l agent now_ms i
  step-Inv l now_ms (resets agent) i = reset-Inv D (now_ms * l.rate) l agent i
  step-Inv l now_ms (flushes commits) i = flush-Inv D (now_ms * l.rate) l commits i

  run-Inv :
      (l : RateLimiter T) (from until : ℕ) (cs : List (ℕ × Call))
      → Ascending from until cs
      → Inv (from * l.rate) l
      → Inv (until * (run l cs).rate) (run l cs)
  unfolding run
  run-Inv l from until [] o i = Inv-later D l (mul_mono from until l.rate o) i
  run-Inv l from until ((now_ms, c) ∷ cs) o i = run-Inv (step l (now_ms, c)) now_ms until cs o.1 (
      subst (λ r. Inv (now_ms * r) (step l (now_ms, c))) (sym (rate-step l (now_ms, c)))
        (step-Inv l now_ms c (Inv-later D l (mul_mono from now_ms l.rate o.0) i)))

  -- After any history of checks, resets and flushes with an ascending clock, a limiter created
  -- without a table has distinct keys, at most the configured number of entries, and no stored
  -- instant more than a period ahead of the clock.
  pub run-new-Inv :
      (c : Config) (l : RateLimiter T) (from until : ℕ) (cs : List (ℕ × Call))
      → new D c none from ≡ returned l
      → Ascending from until cs
      → Inv (until * (run l cs).rate) (run l cs)
  run-new-Inv c l from until cs e o = run-Inv l from until cs o (new-Inv D c from l e)
