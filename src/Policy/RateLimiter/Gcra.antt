-- ===== src/Policy/RateLimiter/Gcra.antt =====
-- How many requests of one agent the limiter lets through, and when it lets the next one through.
use secure_openclaw_poc.Common.{
  ℕ, zero, suc, ◌+◌, ◌*◌, ◌≤◌, ◌<◌, not, min, max, String, ◌≡◌, refl, ◌↔◌, ◌⊎◌, inl, Bool, true,
  false, some, List, [], ◌∷◌, arith, str_eq, if◌then◌else◌, eq_iff, get_or, ◌&&◌, eq_refl, ltb, ◌-◌,
  none,
}
use secure_openclaw_poc.Common.JsMap
use secure_openclaw_poc.Common.JsMap.{JsMap, HasDistinctKeys, AllValues}
use secure_openclaw_poc.Policy.RateLimiter.{
  RateLimiter, TatTable, RateLimitResult, denied, allowed, evict_loop, evict_if_needed, record_tat,
  check, new_tat,
}

abbrev is_allowed : RateLimitResult → Bool
is_allowed allowed = true
is_allowed (denied retry_after) = false

mul_mono : (a b c : ℕ) → a ≤ b → a * c ≤ b * c
mul_mono a b c h = grind arith

module _ {T : Type 0} (D : TatTable T) where
  -- Nothing is dropped while the entries fit.
  pub evict_loop_fits :
      (fuel : ℕ) (l : RateLimiter T) → JsMap.size l.tats ≤ l.max_agents → evict_loop D fuel l ≡ l
  unfolding evict_loop
  evict_loop_fits zero l h = refl
  evict_loop_fits (suc fuel) l h = ground arith

  evict_if_needed_fits :
      (l : RateLimiter T) → JsMap.size l.tats ≤ l.max_agents → evict_if_needed D l ≡ l
  unfolding evict_if_needed
  evict_if_needed_fits l h = evict_loop_fits (JsMap.size l.tats) l h

  -- The instant from which the agent's next slot counts.
  abbrev level : RateLimiter T → String → (now : ℕ) → ℕ
  level l agent now = max now (get_or (JsMap.get agent l.tats) now)

  -- A denied check changes nothing and names the time to wait exactly: a later check of the agent
  -- is let through if and only if that time has passed.
  pub check_retry_exact :
      (l : RateLimiter T) (agent : String) (now_ms later_ms retry : ℕ)
      → l.emission_interval ≤ l.period
      → (check D l agent now_ms).1 ≡ denied retry
      → now_ms ≤ later_ms
      → ((check D l agent now_ms).0 ≡ l)
        × (((check D l agent later_ms).1 ≡ allowed) ↔ (now_ms * l.rate + retry ≤ later_ms * l.rate))
  unfolding check
  check_retry_exact l agent now_ms later_ms retry b h o =
      ground (arith, mul_mono now_ms later_ms l.rate o)

  -- The checks of a run, each with its instant in milliseconds.
  abbrev Checks : Type 0
  Checks = List (ℕ × String)

  pub run : RateLimiter T → List (ℕ × String) → RateLimiter T
  run l [] = l
  run l ((now_ms, agent) ∷ cs) = run (check D l agent now_ms).0 cs

  -- How many of the agent's checks are let through.
  pub admitted : String → RateLimiter T → List (ℕ × String) → ℕ
  admitted agent l [] = 0
  admitted agent l ((now_ms, caller) ∷ cs) =
      (if str_eq caller agent && is_allowed (check D l caller now_ms).1 then 1 else 0)
      + admitted agent (check D l caller now_ms).0 cs

  -- The clock of the run does not go back: its instants ascend from `from` to `until` at most.
  abbrev pub Ascends : (from until : ℕ) → List (ℕ × String) → Type 0
  Ascends from until [] = from ≤ until
  Ascends from until ((now_ms, caller) ∷ cs) = (from ≤ now_ms) × Ascends now_ms until cs

  -- The callers fit into the map throughout the run, so that no entry is evicted.
  abbrev pub Fits : RateLimiter T → List (ℕ × String) → Type 0
  Fits l [] = Unit
  Fits l ((now_ms, caller) ∷ cs) =
      (JsMap.size (JsMap.set caller 0 l.tats) ≤ l.max_agents) × Fits (check D l caller now_ms).0 cs

  Ascends-le : (from until : ℕ) (cs : List (ℕ × String)) → Ascends from until cs → from ≤ until
  Ascends-le from until [] h = h
  Ascends-le from until ((now_ms, caller) ∷ cs) h = omega (arith, Ascends-le now_ms until cs h.1)

  -- One check, when nothing is evicted: what it does to the entry of any agent.
  get-check :
      (l : RateLimiter T) (caller agent : String) (now_ms : ℕ)
      → JsMap.size (JsMap.set caller 0 l.tats) ≤ l.max_agents
      → JsMap.get agent (check D l caller now_ms).0.tats ≡ (
          if str_eq caller agent && is_allowed (check D l caller now_ms).1
          then some (level l agent (now_ms * l.rate) + l.emission_interval)
          else JsMap.get agent l.tats)
  unfolding check record_tat
  get-check l caller agent now_ms h =
      let tat = new_tat D l caller (now_ms * l.rate) in
      ground (
        arith,
        evict_if_needed_fits (record_tat D caller tat l),
        JsMap.size-set caller 0 l.tats,
        JsMap.size-set caller tat l.tats,
        JsMap.get-set caller agent tat l.tats,
        eq_iff caller agent,
      )

  -- A check leaves the configuration as it is.
  config-check :
      (l : RateLimiter T) (caller : String) (now_ms : ℕ)
      → JsMap.size (JsMap.set caller 0 l.tats) ≤ l.max_agents
      → let l' = (check D l caller now_ms).0 in
        (l'.rate ≡ l.rate) × (l'.period ≡ l.period) × (l'.emission_interval ≡ l.emission_interval)
  unfolding check record_tat
  config-check l caller now_ms h =
      let tat = new_tat D l caller (now_ms * l.rate) in
      ground (
        arith,
        evict_if_needed_fits (record_tat D caller tat l),
        JsMap.size-set caller 0 l.tats,
        JsMap.size-set caller tat l.tats,
      )

  -- What lets a check through.
  check-allowed :
      (l : RateLimiter T) (agent : String) (now_ms : ℕ)
      → is_allowed (check D l agent now_ms).1 ≡ true
      → level l agent (now_ms * l.rate) + l.emission_interval ≤ now_ms * l.rate + l.period
  unfolding check
  check-allowed l agent now_ms h = ground arith

  -- Either none of the agent's checks was let through, or those that were, from its level on, fit
  -- into the time up to the end and one period more.
  admitted-level :
      (agent : String) (l : RateLimiter T) (from until : ℕ) (cs : List (ℕ × String))
      → Ascends from until cs
      → Fits l cs
      → (admitted agent l cs ≡ 0)
        ⊎ (admitted agent l cs * l.emission_interval + level l agent (from * l.rate)
            ≤ until * l.rate + l.period)
  unfolding admitted
  admitted-level agent l from until [] o f = inl refl
  admitted-level agent l from until ((now_ms, caller) ∷ cs) o f =
      let l' = (check D l caller now_ms).0 in
      ground (
        arith,
        admitted-level agent l' now_ms until cs o.1 f.1,
        get-check l caller agent now_ms f.0,
        config-check l caller now_ms f.0,
        check-allowed l agent now_ms,
        eq_iff caller agent,
        mul_mono from now_ms l.rate o.0,
        mul_mono now_ms until l.rate (Ascends-le now_ms until cs o.1),
      )

  -- Between two instants, however the checks of all agents interleave, if the clock does not go
  -- back and no agent is evicted, the checks of one agent that are let through, times the emission
  -- interval, are at most the time between the instants and one period.
  pub rate_bound :
      (agent : String) (l : RateLimiter T) (from until : ℕ) (cs : List (ℕ × String))
      → Ascends from until cs
      → Fits l cs
      → admitted agent l cs * l.emission_interval + from * l.rate ≤ until * l.rate + l.period
  rate_bound agent l from until cs o f = ground (
    arith,
    admitted-level agent l from until cs o f,
    mul_mono from until l.rate (Ascends-le from until cs o),
  )

  abbrev pub together : (now_ms : ℕ) → String → (n : ℕ) → List (ℕ × String)
  together now_ms agent zero = []
  together now_ms agent (suc n) = (now_ms, agent) ∷ together now_ms agent n

  -- The agent's entry stays, so its next check needs no further room.
  room-check :
      (l : RateLimiter T) (agent : String) (now_ms : ℕ)
      → JsMap.size (JsMap.set agent 0 l.tats) ≤ l.max_agents
      → let l' = (check D l agent now_ms).0 in
        JsMap.size (JsMap.set agent 0 l'.tats) ≤ l'.max_agents
  unfolding check record_tat
  room-check l agent now_ms h =
      let tat = new_tat D l agent (now_ms * l.rate) in
      ground (
        arith,
        evict_if_needed_fits (record_tat D agent tat l),
        JsMap.size-set agent 0 l.tats,
        JsMap.size-set agent tat l.tats,
        JsMap.size-set agent 0 (JsMap.set agent tat l.tats),
        JsMap.has-set agent agent tat l.tats,
        eq_refl agent,
      )

  check_outcome :
      (l : RateLimiter T) (agent : String) (now_ms : ℕ)
      → is_allowed (check D l agent now_ms).1
        ≡ not (ltb l.period (new_tat D l agent (now_ms * l.rate) - now_ms * l.rate))
  unfolding check
  check_outcome l agent now_ms = ground arith

  burst_from :
      (agent : String) (l : RateLimiter T) (now_ms n k rate : ℕ)
      → 0 < l.emission_interval
      → l.period ≡ rate * l.emission_interval
      → (has_room : JsMap.size (JsMap.set agent 0 l.tats) ≤ l.max_agents)
      → get_or (JsMap.get agent l.tats) (now_ms * l.rate)
        ≡ now_ms * l.rate + k * l.emission_interval
      → k ≤ rate
      → admitted agent l (together now_ms agent n) ≡ min n (rate - k)
  unfolding admitted
  burst_from agent l now_ms zero k rate p e h t b = omega arith
  burst_from agent l now_ms (suc n) k rate p e h t b =
      let l' = (check D l agent now_ms).0 in
      ground (
        arith,
        burst_from agent l' now_ms n k rate,
        burst_from agent l' now_ms n (k + 1) rate,
        room-check l agent now_ms h,
        get-check l agent agent now_ms h,
        config-check l agent now_ms h,
        check_outcome l agent now_ms,
        eq_refl agent,
        mul_mono (k + 1) rate l.emission_interval,
      )

  -- Of `n` checks that a new agent makes at one instant, exactly the first `rate` are let through.
  pub burst_exact :
      (agent : String) (l : RateLimiter T) (now_ms n rate : ℕ)
      → 0 < l.emission_interval
      → l.period ≡ rate * l.emission_interval
      → JsMap.get agent l.tats ≡ none
      → JsMap.size (JsMap.set agent 0 l.tats) ≤ l.max_agents
      → admitted agent l (together now_ms agent n) ≡ min n rate
  burst_exact agent l now_ms n rate p e new h =
      omega (arith, burst_from agent l now_ms n 0 rate p e h (rw new (omega arith)) (omega arith))
