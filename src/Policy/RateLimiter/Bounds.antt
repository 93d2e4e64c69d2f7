-- ===== src/Policy/RateLimiter/Bounds.antt =====
-- The number of agents that the limiter remembers, and the instants that it stores.
use secure_openclaw_poc.Common.{
  ℕ, zero, suc, ◌+◌, ◌-◌, ◌*◌, ◌≤◌, ◌<◌, String, ◌≡◌, refl, inl, inr, Bool, Option, none, some, [],
  ◌∷◌, arith, ltb, eq_refl, Bool-cases, ◌∙◌,
}
use secure_openclaw_poc.Common.Outcome.{returned}
use secure_openclaw_poc.Common.JsMap
use secure_openclaw_poc.Common.JsMap.{JsMap, HasDistinctKeys, AllValues}
use secure_openclaw_poc.Common.JsSet.{JsSet}
use secure_openclaw_poc.Policy.RateLimiter.{
  flush_dirty, RateLimiter, TatTable, Config, allowed, evict_loop, evict_if_needed, drop_oldest,
  record_tat, check, reset, flush, new_tat, new,
}

-- What holds of the limiter from the instant `now` (in its unit) on.
pub record Inv {T : Type 0} (now : ℕ) (l : RateLimiter T) : Type 0 where
  pub distinct : HasDistinctKeys l.tats
  pub bounded : JsMap.size l.tats ≤ l.max_agents
  pub room : 0 < l.max_agents
  pub burst : l.emission_interval ≤ l.period
  pub near : AllValues (λ tat. tat ≤ now + l.period) l.tats

le-mul-rate : (period rate : ℕ) → 0 < rate → period ≤ period * rate
le-mul-rate period rate h = grind arith

module _ {T : Type 0} (D : TatTable T) where
  -- One round of the eviction loop on the entries `m` of `l`.
  size-drop_oldest :
      (m : JsMap ℕ) (l : RateLimiter T)
      → l.tats ≡ m
      → 0 < JsMap.size m
      → JsMap.size (drop_oldest D m l).tats + 1 ≡ JsMap.size m
  unfolding drop_oldest JsMap.delete
  size-drop_oldest [] l e h = absurd (omega arith)
  size-drop_oldest ((oldest, tat) ∷ rest) l e h = rw e (ground (arith, eq_refl oldest))

  max_agents-drop_oldest :
      (m : JsMap ℕ) (l : RateLimiter T) → (drop_oldest D m l).max_agents ≡ l.max_agents
  unfolding drop_oldest
  max_agents-drop_oldest [] l = refl
  max_agents-drop_oldest (e ∷ m) l = refl

  rate-drop_oldest : (m : JsMap ℕ) (l : RateLimiter T) → (drop_oldest D m l).rate ≡ l.rate
  unfolding drop_oldest
  rate-drop_oldest [] l = refl
  rate-drop_oldest (e ∷ m) l = refl

  -- As many rounds as there are entries bring the map down to the limit.
  size-evict_loop :
      (fuel : ℕ) (l : RateLimiter T)
      → JsMap.size l.tats ≤ fuel + l.max_agents
      → JsMap.size (evict_loop D fuel l).tats ≤ l.max_agents
  unfolding evict_loop
  size-evict_loop zero l h = omega arith
  size-evict_loop (suc fuel) l h = ground (
    arith,
    size-drop_oldest l.tats l refl,
    max_agents-drop_oldest l.tats l,
    size-evict_loop fuel (drop_oldest D l.tats l),
  )

  size-evict_if_needed : (l : RateLimiter T) → JsMap.size (evict_if_needed D l).tats ≤ l.max_agents
  unfolding evict_if_needed
  size-evict_if_needed l = size-evict_loop (JsMap.size l.tats) l (omega arith)

  -- What every round keeps, the whole loop keeps.
  evict_loop_keeps :
      (P : RateLimiter T → Type 0)
      → ((m : JsMap ℕ) (l : RateLimiter T) → P l → P (drop_oldest D m l))
      → (fuel : ℕ) (l : RateLimiter T) → P l
      → P (evict_loop D fuel l)
  unfolding evict_loop
  evict_loop_keeps P keep zero l h = h
  evict_loop_keeps P keep (suc fuel) l h =
      elim (Bool-cases (ltb l.max_agents (JsMap.size l.tats))) [
        | inl over ↦
            rw (over, evict_loop)
              (evict_loop_keeps P keep fuel (drop_oldest D l.tats l) (keep l.tats l h))
        | inr under ↦ rw (under, evict_loop) h
      ]

  -- The parts of the invariant that the loop does not establish but keeps.
  record Kept (now period agents interval : ℕ) (l : RateLimiter T) : Type 0 where
    distinct : HasDistinctKeys l.tats
    near : AllValues (λ tat. tat ≤ now + period) l.tats
    same_period : l.period ≡ period
    same_agents : l.max_agents ≡ agents
    same_interval : l.emission_interval ≡ interval

  drop_oldest-Kept :
      (now period agents interval : ℕ) (m : JsMap ℕ) (l : RateLimiter T)
      → Kept now period agents interval l
      → Kept now period agents interval (drop_oldest D m l)
  unfolding drop_oldest
  drop_oldest-Kept now period agents interval [] l k = k
  drop_oldest-Kept now period agents interval ((oldest, tat) ∷ m) l k = record {
    distinct = JsMap.delete-HasDistinctKeys oldest l.tats k.distinct;
    near = JsMap.AllValues-delete (λ t. t ≤ now + period) oldest l.tats k.near;
    same_period = k.same_period;
    same_agents = k.same_agents;
    same_interval = k.same_interval;
  }

  evict_if_needed-Inv :
      (now : ℕ) (l : RateLimiter T)
      → HasDistinctKeys l.tats
      → AllValues (λ tat. tat ≤ now + l.period) l.tats
      → 0 < l.max_agents
      → l.emission_interval ≤ l.period
      → Inv now (evict_if_needed D l)
  unfolding evict_if_needed
  evict_if_needed-Inv now l d n r b =
      let kept =
        evict_loop_keeps (Kept now l.period l.max_agents l.emission_interval)
          (drop_oldest-Kept now l.period l.max_agents l.emission_interval) (JsMap.size l.tats) l
          (record {
            distinct = d;
            near = n;
            same_period = refl;
            same_agents = refl;
            same_interval = refl;
          }) in
      record {
        distinct = kept.distinct;
        bounded = rw kept.same_agents (size-evict_loop (JsMap.size l.tats) l (omega arith));
        room = rw kept.same_agents r;
        burst = rw (kept.same_interval, kept.same_period) b;
        near = rw kept.same_period kept.near;
      }

  -- Time passes.
  pub Inv-later : {now later : ℕ} (l : RateLimiter T) → now ≤ later → Inv now l → Inv later l
  Inv-later {now} {later} l h i = record {
    distinct = i.distinct;
    bounded = i.bounded;
    room = i.room;
    burst = i.burst;
    near =
        JsMap.AllValues-mono (λ t. t ≤ now + l.period) (λ t. t ≤ later + l.period) l.tats
          (λ t p. omega arith) i.near;
  }

  pub check-Inv :
      (l : RateLimiter T) (agent : String) (now_ms : ℕ)
      → Inv (now_ms * l.rate) l
      → Inv (now_ms * l.rate) (check D l agent now_ms).0
  unfolding check record_tat
  check-Inv l agent now_ms i =
      let now = now_ms * l.rate in
      let tat = new_tat D l agent now in
      elim (Bool-cases (ltb l.period (tat - now))) [
        | inl over ↦ rw over i
        | inr fits ↦ rw fits (
            evict_if_needed-Inv now (record_tat D agent tat l)
              (JsMap.set-HasDistinctKeys agent tat l.tats i.distinct)
              (JsMap.AllValues-set (λ t. t ≤ now + l.period) agent tat l.tats (ground arith) i.near)
              i.room i.burst)
      ]

  -- A limiter without a table starts in the invariant.
  pub new-Inv :
      (c : Config) (now_ms : ℕ) (l : RateLimiter T)
      → new D c none now_ms ≡ returned l
      → Inv (now_ms * l.rate) l
  unfolding new
  new-Inv c now_ms l e = ground (arith, le-mul-rate c.period c.rate)

  pub reset-Inv :
      (now : ℕ) (l : RateLimiter T) (agent : Option String) → Inv now l → Inv now (reset D l agent)
  unfolding reset
  reset-Inv now l none i = record {
    distinct = tt;
    bounded = omega arith;
    room = i.room;
    burst = i.burst;
    near = tt;
  }
  reset-Inv now l (some agent) i = record {
    distinct = JsMap.delete-HasDistinctKeys agent l.tats i.distinct;
    bounded = omega (arith, JsMap.size-delete-le agent l.tats, i.bounded);
    room = i.room;
    burst = i.burst;
    near = JsMap.AllValues-delete (λ t. t ≤ now + l.period) agent l.tats i.near;
  }

  flush_dirty-Inv :
      (now : ℕ) (dirty : JsSet) (l : RateLimiter T) (commits : Bool)
      → Inv now l
      → Inv now (flush_dirty D dirty l commits)
  unfolding flush_dirty
  flush_dirty-Inv now [] l commits i = i
  flush_dirty-Inv now (agent ∷ dirty) l commits i = record {
    distinct = i.distinct;
    bounded = i.bounded;
    room = i.room;
    burst = i.burst;
    near = i.near;
  }

  pub flush-Inv :
      (now : ℕ) (l : RateLimiter T) (commits : Bool) → Inv now l → Inv now (flush D l commits)
  unfolding flush
  flush-Inv now l commits i = flush_dirty-Inv now l.dirty l commits i

  -- After any check that is let through, also from a table with too many rows, the limit holds.
  pub check-allowed-size :
      (l : RateLimiter T) (agent : String) (now_ms : ℕ)
      → (check D l agent now_ms).1 ≡ allowed
      → JsMap.size (check D l agent now_ms).0.tats ≤ l.max_agents
  unfolding check record_tat
  check-allowed-size l agent now_ms h =
      ground
        (arith, size-evict_if_needed (record_tat D agent (new_tat D l agent (now_ms * l.rate)) l))

  rate-evict_loop : (fuel : ℕ) (l : RateLimiter T) → (evict_loop D fuel l).rate ≡ l.rate
  rate-evict_loop fuel l =
      evict_loop_keeps (λ k. k.rate ≡ l.rate) (λ m k h. rate-drop_oldest m k ∙ h) fuel l refl

  pub rate-check :
      (l : RateLimiter T) (agent : String) (now_ms : ℕ) → (check D l agent now_ms).0.rate ≡ l.rate
  unfolding check record_tat
  rate-check l agent now_ms =
      let next = record_tat D agent (new_tat D l agent (now_ms * l.rate)) l in
      ground (arith, rate-evict_loop (JsMap.size next.tats) next)
