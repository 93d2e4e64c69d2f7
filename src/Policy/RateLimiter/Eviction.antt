-- ===== src/Policy/RateLimiter/Eviction.antt =====
-- Which entry makes room for a new agent.
use secure_openclaw_poc.Common.{
  ℕ, suc, ◌+◌, ◌*◌, String, ◌≡◌, refl, false, none, some, [], ◌∷◌, arith, str_eq, if◌then◌else◌,
  eq_refl, ◌++◌, length-append, ap, ◌∙◌,
}
use secure_openclaw_poc.Common.JsMap
use secure_openclaw_poc.Common.JsMap.{JsMap, HasDistinctKeys, AllValues}
use secure_openclaw_poc.Policy.RateLimiter.{
  RateLimiter, TatTable, allowed, evict_loop, evict_if_needed, drop_oldest, record_tat, check,
  new_tat, new,
}
use secure_openclaw_poc.Policy.RateLimiter.Gcra.{evict_loop_fits}

-- A new key goes behind all others.
set-new :
    (k : String) (v : ℕ) (m : JsMap ℕ) → JsMap.has k m ≡ false → JsMap.set k v m ≡ m ++ (k, v) ∷ []
unfolding JsMap.set JsMap.has
set-new k v [] h = refl
set-new k v ((j, w) ∷ m) h = ground (arith, set-new k v m)

get-append :
    (k j : String) (v : ℕ) (m : JsMap ℕ)
    → JsMap.has j m ≡ false
    → JsMap.get j (m ++ (k, v) ∷ []) ≡ (if str_eq k j then some v else none)
unfolding JsMap.get JsMap.has
get-append k j v [] h = refl
get-append k j v ((i, w) ∷ m) h = ground (arith, get-append k j v m)

module _ {T : Type 0} (D : TatTable T) where
  tats-drop_oldest :
      (m : JsMap ℕ) (l : RateLimiter T) (oldest : String) (tat : ℕ) (rest : JsMap ℕ)
      → m ≡ (oldest, tat) ∷ rest
      → l.tats ≡ m
      → (drop_oldest D m l).tats ≡ rest
  unfolding drop_oldest JsMap.delete
  tats-drop_oldest [] l oldest tat rest e h = cc
  tats-drop_oldest ((k, v) ∷ m) l oldest tat rest e h = rw h (ground (arith, eq_refl k))

  max_agents-drop_oldest :
      (m : JsMap ℕ) (l : RateLimiter T) → (drop_oldest D m l).max_agents ≡ l.max_agents
  unfolding drop_oldest
  max_agents-drop_oldest [] l = refl
  max_agents-drop_oldest (e ∷ m) l = refl

  evict_loop_full :
      (fuel : ℕ) (l : RateLimiter T) (oldest : String) (tat : ℕ) (rest : JsMap ℕ)
      → l.tats ≡ (oldest, tat) ∷ rest
      → JsMap.size rest ≡ l.max_agents
      → (evict_loop D (suc fuel) l).tats ≡ rest
  unfolding evict_loop
  evict_loop_full fuel l oldest tat rest e h =
      let l' = drop_oldest D l.tats l in
      let e' : l'.tats ≡ rest = tats-drop_oldest l.tats l oldest tat rest e refl in
      ground (
        arith,
        ap JsMap.size e,
        ap JsMap.size e',
        e',
        evict_loop_fits D fuel l',
        max_agents-drop_oldest l.tats l,
      )

  -- A map that is one entry too long loses its first entry, and no other.
  evict_if_needed_full :
      (l : RateLimiter T) (oldest : String) (tat : ℕ) (rest : JsMap ℕ)
      → l.tats ≡ (oldest, tat) ∷ rest
      → JsMap.size rest ≡ l.max_agents
      → (evict_if_needed D l).tats ≡ rest
  unfolding evict_if_needed
  evict_if_needed_full l oldest tat rest e h =
      rw (ap JsMap.size e) (evict_loop_full (JsMap.size rest) l oldest tat rest e h)

  -- A full map makes room for a new agent by dropping the agent that came first, however recently
  -- that agent was seen; all others keep their entries.
  pub check-drops_first :
      (l : RateLimiter T) (oldest agent : String) (tat now_ms : ℕ) (rest : JsMap ℕ)
      → l.tats ≡ (oldest, tat) ∷ rest
      → JsMap.size l.tats ≡ l.max_agents
      → JsMap.has agent l.tats ≡ false
      → (check D l agent now_ms).1 ≡ allowed
      → (check D l agent now_ms).0.tats
        ≡ rest ++ (agent, now_ms * l.rate + l.emission_interval) ∷ []
  unfolding check record_tat
  check-drops_first l oldest agent tat now_ms rest e full new a =
      let now = now_ms * l.rate in
      let next = new_tat D l agent now in
      let entry = (agent, next) ∷ [] in
      let absent = JsMap.has-false agent l.tats new in
      let appended : JsMap.set agent next l.tats ≡ (oldest, tat) ∷ (rest ++ entry) =
        set-new agent next l.tats new ∙ ap (λ m. m ++ entry) e in
      ground (
        arith,
        absent,
        evict_if_needed_full (record_tat D agent next l) oldest tat (rest ++ entry) appended,
        length-append rest entry,
        ap JsMap.size e,
      )
