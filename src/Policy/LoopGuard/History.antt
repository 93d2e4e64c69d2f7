-- ===== src/Policy/LoopGuard/History.antt =====
-- Histories of a guard: its checks in the order of the clock, for all agents.
use secure_openclaw_poc.Common.{
  ◌++◌, List, String, [], arith, if◌then◌else◌, get_or, refl, some, str_eq, suc, zero, ℕ, ◌∷◌, ◌≡◌,
  ◌≤◌, ◌<◌, Bool-cases, inl, inr, eq_iff, false, true, ap, ◌∙◌,
}
use secure_openclaw_poc.Common.Outcome.{returned}
use mathlib.Core.List.{append_assoc, append-nil}
use secure_openclaw_poc.Common.JsMap
use secure_openclaw_poc.Common.JsMap.{JsMap}
use secure_openclaw_poc.Policy.LoopGuard.{
  Config, HistoryEntry, LoopGuard, updated, duplicates, escalate, evict_loop, evict_if_needed,
  check, new,
}
use secure_openclaw_poc.Policy.LoopGuard.Window.{
  Ascending, last_in_window, updated-last_in_window, trim-fits,
}

pub record Call : Type 0 where
  pub agent : String
  pub tool : String
  pub hash : String
  pub now : ℕ

abbrev entry_of : Call → HistoryEntry
entry_of k = record { hash = k.hash; timestamp = k.now }

unfoldable pub run : LoopGuard → List Call → LoopGuard
run g [] = g
run g (k ∷ ks) = run (check g k.agent k.tool k.hash k.now).0 ks

-- The calls of one agent, oldest first.
pub log_of : String → List Call → List HistoryEntry
log_of agent [] = []
log_of agent (k ∷ ks) =
    (if str_eq k.agent agent then entry_of k ∷ log_of agent ks else log_of agent ks)

abbrev pub Timed : (from until : ℕ) → List Call → Type 0
Timed from until [] = from ≤ until
Timed from until (k ∷ ks) = (from ≤ k.now) × Timed k.now until ks

-- The agents fit into the map throughout, so that none is evicted.
abbrev pub Fits : LoopGuard → List Call → Type 0
Fits g [] = Unit
Fits g (k ∷ ks) =
    (JsMap.size (JsMap.set k.agent [] g.history) ≤ g.config.max_agents)
    × Fits (check g k.agent k.tool k.hash k.now).0 ks

evict_if_needed_fits :
    (n : ℕ) (m : JsMap (List HistoryEntry)) → JsMap.size m ≤ n → evict_if_needed n m ≡ m
unfolding evict_if_needed
evict_if_needed_fits n m h = evict_loop_fits (JsMap.size m)
  where
    evict_loop_fits : (fuel : ℕ) → evict_loop fuel n m ≡ m
    evict_loop_fits zero = refl
    evict_loop_fits (suc fuel) = ground arith

-- A check stores the updated entries for its agent, and touches no other agent.
get-check :
    (g : LoopGuard) (agent other tool hash : String) (now : ℕ)
    → JsMap.size (JsMap.set agent [] g.history) ≤ g.config.max_agents
    → JsMap.get other (check g agent tool hash now).0.history ≡ (
        if str_eq agent other
        then some (updated g.config (get_or (JsMap.get agent g.history) []) hash now)
        else JsMap.get other g.history)
unfolding check
get-check g agent other tool hash now h =
    let entries = updated g.config (get_or (JsMap.get agent g.history) []) hash now in
    rw
      (evict_if_needed_fits g.config.max_agents (JsMap.set agent entries g.history)
        (omega (arith, JsMap.size-set agent entries g.history, JsMap.size-set agent [] g.history)))
      (JsMap.get-set agent other entries g.history)

config-check :
    (g : LoopGuard) (agent tool hash : String) (now : ℕ)
    → (check g agent tool hash now).0.config ≡ g.config
unfolding check
config-check g agent tool hash now = refl

pub check-result :
    (g : LoopGuard) (agent tool hash : String) (now : ℕ)
    → (check g agent tool hash now).1
      ≡ escalate g.config tool
          (duplicates hash (updated g.config (get_or (JsMap.get agent g.history) []) hash now))
unfolding check
check-result g agent tool hash now = refl

-- What is stored for the agent is the end of its log, as a window up to `at` sees it.
record Tracks (g : LoopGuard) (agent : String) (log : List HistoryEntry) (at : ℕ) : Type 0 where
  stored : get_or (JsMap.get agent g.history) [] ≡ last_in_window g.config at log
  ascending : Ascending at log

Ascending-append :
    (before : ℕ) (log : List HistoryEntry) (e : HistoryEntry)
    → Ascending before log
    → before ≤ e.timestamp
    → Ascending e.timestamp (log ++ e ∷ [])
Ascending-append before [] e o h = omega arith
Ascending-append before (f ∷ []) e o h = (omega arith, omega arith)
Ascending-append before (f ∷ k ∷ log) e o h = (o.0, Ascending-append before (k ∷ log) e o.1 h)

Ascending-later :
    (before now : ℕ) (log : List HistoryEntry)
    → before ≤ now
    → Ascending before log
    → Ascending now log
Ascending-later before now [] h o = tt
Ascending-later before now (f ∷ []) h o = omega arith
Ascending-later before now (f ∷ k ∷ log) h o = (o.0, Ascending-later before now (k ∷ log) h o.1)

stored_same :
    (g : LoopGuard) (agent : String) (log : List HistoryEntry) (at : ℕ) (k : Call)
    → 0 < g.config.window_ms
    → JsMap.size (JsMap.set k.agent [] g.history) ≤ g.config.max_agents
    → at ≤ k.now
    → Tracks g agent log at
    → str_eq k.agent agent ≡ true
    → get_or (JsMap.get agent (check g k.agent k.tool k.hash k.now).0.history) []
      ≡ last_in_window g.config k.now (log ++ entry_of k ∷ [])
stored_same g agent log at k w room o t same =
    rw
      (
        get-check g k.agent agent k.tool k.hash k.now room,
        same,
        (eq_iff k.agent agent).0 same,
        t.stored,
      )
      (updated-last_in_window g.config log k.hash at k.now w t.ascending o)

stored_other :
    (g : LoopGuard) (agent : String) (log : List HistoryEntry) (at : ℕ) (k : Call)
    → JsMap.size (JsMap.set k.agent [] g.history) ≤ g.config.max_agents
    → Tracks g agent log at
    → str_eq k.agent agent ≡ false
    → get_or (JsMap.get agent (check g k.agent k.tool k.hash k.now).0.history) []
      ≡ last_in_window g.config at log
stored_other g agent log at k room t other =
    rw (get-check g k.agent agent k.tool k.hash k.now room, other) t.stored

-- One check extends the log of its agent, and keeps the others.
check-Tracks :
    (g : LoopGuard) (agent : String) (log : List HistoryEntry) (at : ℕ) (k : Call)
    → 0 < g.config.window_ms
    → JsMap.size (JsMap.set k.agent [] g.history) ≤ g.config.max_agents
    → at ≤ k.now
    → Tracks g agent log at
    → (later : ℕ) × (later ≤ k.now)
      × Tracks
          (check g k.agent k.tool k.hash k.now).0
          agent
          (if str_eq k.agent agent then log ++ entry_of k ∷ [] else log)
          later
unfolding check
check-Tracks g agent log at k w room o t = elim (Bool-cases (str_eq k.agent agent)) [
  | inl same ↦ rw same (
    k.now,
    omega arith,
    record {
      stored = stored_same g agent log at k w room o t same;
      ascending = Ascending-append at log (entry_of k) t.ascending o;
    },
  )
  | inr other ↦ rw other (
    at,
    o,
    record { stored = stored_other g agent log at k room t other; ascending = t.ascending },
  )
]

log-append :
    (agent : String) (log : List HistoryEntry) (k : Call) (ks : List Call)
    → (if str_eq k.agent agent then log ++ entry_of k ∷ [] else log) ++ log_of agent ks
      ≡ log ++ log_of agent (k ∷ ks)
unfolding log_of
log-append agent log k ks = elim (Bool-cases (str_eq k.agent agent)) [
  | inl same ↦ rw (same, append_assoc)
  | inr other ↦ rw other
]

run-Tracks :
    (g : LoopGuard) (agent : String) (log : List HistoryEntry) (at from until : ℕ) (ks : List Call)
    → 0 < g.config.window_ms
    → at ≤ from
    → Timed from until ks
    → Fits g ks
    → Tracks g agent log at
    → (later : ℕ) × (later ≤ until) × Tracks (run g ks) agent (log ++ log_of agent ks) later
unfolding run log_of
run-Tracks g agent log at from until [] w h o f t = rw (append-nil log) (at, omega arith, t)
run-Tracks g agent log at from until (k ∷ ks) w h o f t =
    let (later, early, t') = check-Tracks g agent log at k w f.0 (omega arith) t in
    rw (← log-append agent log k ks) (
      run-Tracks (check g k.agent k.tool k.hash k.now).0 agent _ later k.now until ks
        (rw (config-check g k.agent k.tool k.hash k.now) w) early o.1 f.1 t')

config-run : (g : LoopGuard) (ks : List Call) → (run g ks).config ≡ g.config
unfolding run
config-run g [] = refl
config-run g (k ∷ ks) =
    config-run (check g k.agent k.tool k.hash k.now).0 ks
    ∙ config-check g k.agent k.tool k.hash k.now

new-eq-returned :
    (c : Config) (g : LoopGuard)
    → new c ≡ returned g
    → (g.config ≡ c) × (g.history ≡ []) × (0 < c.window_ms)
unfolding new
new-eq-returned c g e = ground arith

-- After any history of checks of all agents with an ascending clock in which no agent is evicted,
-- the verdict of a check is that of the number of calls with its fingerprint among the last calls
-- of its agent within the window, as many as the history may hold, the call itself included.
pub check_exact :
    (c : Config) (g : LoopGuard) (from until : ℕ) (ks : List Call) (k : Call)
    → new c ≡ returned g
    → Timed from until ks
    → until ≤ k.now
    → Fits g ks
    → (check (run g ks) k.agent k.tool k.hash k.now).1
      ≡ escalate c k.tool
          (duplicates k.hash (last_in_window c k.now (log_of k.agent ks ++ entry_of k ∷ [])))
unfolding JsMap.get
check_exact c g from until ks k e o h f =
    let (same, empty, w) = new-eq-returned c g e in
    let (at, early, t) =
      run-Tracks g k.agent [] 0 from until ks (rw same w) (omega arith) o f (record {
        stored = rw (empty, trim-fits g.config.max_history_size [] (omega arith));
        ascending = tt;
      }) in
    let configured : (run g ks).config ≡ c = config-run g ks ∙ same in
    rw (check-result (run g ks) k.agent k.tool k.hash k.now, t.stored, configured)
      (ap (λ entries. escalate c k.tool (duplicates k.hash entries))
        (updated-last_in_window c (log_of k.agent ks) k.hash at k.now w t.ascending (omega arith)))
