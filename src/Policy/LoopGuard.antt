-- ===== src/Policy/LoopGuard.antt =====
-- packages/policy/src/loop-guard.ts: repeated tool calls of an agent within a sliding window.
--
-- `fingerprint` (SHA-256 of the canonical JSON of tool and parameters) is the node library's; here a
-- call comes with its fingerprint. Instants are milliseconds.
pub mod Window
pub mod History
pub mod Limits
mod Tests
use secure_openclaw_poc.Common.{
  true, false, ℕ, String, List, if◌then◌else◌, Option, leb, Bool, ltb, filter, length, get_or, suc,
  some, ◌||◌, ◌+◌, drop, ◌++◌, str_eq, [], ◌-◌, ◌∷◌, none, zero,
}
use secure_openclaw_poc.Common.Outcome.{Outcome, returned, thrown}
use secure_openclaw_poc.Common.JsMap
use secure_openclaw_poc.Common.JsMap.{JsMap}

pub record Config : Type 0 where
  pub max_history_size : ℕ
  pub warn_threshold : ℕ
  pub block_threshold : ℕ
  pub window_ms : ℕ
  pub max_agents : ℕ

abbrev pub default_config : Config
default_config = record {
  max_history_size = 30;
  warn_threshold = 3;
  block_threshold = 5;
  window_ms = 60000;
  max_agents = 1000;
}

pub data LoopAction : Type 0 where
  allow warn block : LoopAction

-- The message of a warning or a block: the tool, the count, the window and the threshold.
pub record Reason : Type 0 where
  pub tool : String
  pub count : ℕ
  pub window_ms : ℕ
  pub threshold : ℕ

pub record LoopCheckResult : Type 0 where
  pub action : LoopAction
  pub reason : Option Reason
  pub duplicate_count : ℕ

pub record HistoryEntry : Type 0 where
  pub hash : String
  pub timestamp : ℕ

pub record LoopGuard : Type 0 where
  pub config : Config
  pub history : JsMap (List HistoryEntry)

pub data Error : Type 0 where
  warn_not_below_block size_or_window_not_positive agents_not_positive : Error

-- The constructor, after the defaults are merged in.
pub new : Config → Outcome Error LoopGuard
new c =
    if leb c.block_threshold c.warn_threshold
    then thrown warn_not_below_block
    else if ltb c.max_history_size 1 || ltb c.window_ms 1
    then thrown size_or_window_not_positive
    else if ltb c.max_agents 1
    then thrown agents_not_positive
    else returned (record { config = c; history = [] })

-- `timestamp > now - windowMs`, for integers.
pub is_recent : (now window : ℕ) → HistoryEntry → Bool
is_recent now window e = ltb now (e.timestamp + window)

-- `entries.slice(entries.length - max)`, when there are more than `max`.
pub trim : (max_size : ℕ) → List HistoryEntry → List HistoryEntry
trim max_size entries =
    if ltb max_size (length entries) then drop (length entries - max_size) entries else entries

-- The entries that a check stores for the agent.
pub updated : Config → List HistoryEntry → (hash : String) → (now : ℕ) → List HistoryEntry
unfolding trim is_recent
updated c entries hash now =
    trim c.max_history_size
      (filter (is_recent now c.window_ms) entries ++ record { hash = hash; timestamp = now } ∷ [])

pub same_hash : String → HistoryEntry → Bool
same_hash hash e = str_eq e.hash hash

pub duplicates : String → List HistoryEntry → ℕ
unfolding same_hash
duplicates hash entries = length (filter (same_hash hash) entries)

pub escalate : Config → (tool : String) → (count : ℕ) → LoopCheckResult
escalate c tool count =
    let because = λ (threshold : ℕ).
      some
        (record { tool = tool; count = count; window_ms = c.window_ms; threshold = threshold }) in
    if leb c.block_threshold count
    then record { action = block; reason = because c.block_threshold; duplicate_count = count }
    else if leb c.warn_threshold count
    then record { action = warn; reason = because c.warn_threshold; duplicate_count = count }
    else record { action = allow; reason = none; duplicate_count = count }

-- `evictIfNeeded`; each round drops one agent, so as many rounds as agents are enough.
pub drop_oldest : JsMap (List HistoryEntry) → JsMap (List HistoryEntry)
drop_oldest [] = []
drop_oldest ((oldest, entries) ∷ rest) = JsMap.delete oldest ((oldest, entries) ∷ rest)

pub evict_loop : (fuel max_agents : ℕ) → JsMap (List HistoryEntry) → JsMap (List HistoryEntry)
evict_loop zero max_agents m = m
evict_loop (suc fuel) max_agents m = elim (ltb max_agents (JsMap.size m)) [
  | true ↦ evict_loop fuel max_agents (drop_oldest m)
  | false ↦ m
]

pub evict_if_needed : (max_agents : ℕ) → JsMap (List HistoryEntry) → JsMap (List HistoryEntry)
unfolding evict_loop drop_oldest
evict_if_needed max_agents m = evict_loop (JsMap.size m) max_agents m

unfoldable pub check :
    LoopGuard → (agent tool hash : String) → (now : ℕ) → LoopGuard × LoopCheckResult
unfolding updated duplicates escalate evict_if_needed
check g agent tool hash now =
    let entries = updated g.config (get_or (JsMap.get agent g.history) []) hash now in
    (
      record g {
        history = evict_if_needed g.config.max_agents (JsMap.set agent entries g.history);
      },
      escalate g.config tool (duplicates hash entries),
    )

pub reset : LoopGuard → Option String → LoopGuard
reset g (some agent) = record g { history = JsMap.delete agent g.history }
reset g none = record g { history = [] }
