-- ===== src/Policy/RateLimiter.antt =====
-- packages/policy/src/rate-limiter.ts: the generic cell rate limiter (GCRA).
--
-- The source divides `period / rate`. Here every instant and span is counted in units of `1 / rate`
-- milliseconds, so that the emission interval is a whole number of them, `period`, and an instant of
-- `now` milliseconds is `now * rate` of them. The SQLite table is a parameter: a type of tables and
-- the effect of the statements that the class prepares. A statement or a transaction that fails is
-- an argument of the call that meets it.
pub mod Bounds
pub mod History
pub mod Eviction
pub mod Gcra
mod Tests
use secure_openclaw_poc.Common.{
  ℕ, zero, suc, ◌+◌, ◌-◌, ◌*◌, max, String, Bool, true, false, ◌||◌, Option, none, some, List, [],
  ◌∷◌, ltb, ◌==◌, if◌then◌else◌, get_or,
}
use secure_openclaw_poc.Common.Outcome.{Outcome, returned, thrown}
use secure_openclaw_poc.Common.JsMap
use secure_openclaw_poc.Common.JsMap.{JsMap}
use secure_openclaw_poc.Common.JsSet
use secure_openclaw_poc.Common.JsSet.{JsSet}

-- The statements on the table `rate_limiter_state`.
pub record TatTable (T : Type 0) : Type 0 where
  pub rows : T → List (String × ℕ)
  pub upsert : String → ℕ → T → T
  pub delete_row : String → T → T
  pub delete_rows : T → T

pub record Config : Type 0 where
  pub rate : ℕ
  pub period : ℕ
  pub max_agents : Option ℕ

pub data Error : Type 0 where
  not_positive max_agents_not_positive : Error

pub data RateLimitResult : Type 0 where
  allowed : RateLimitResult
  denied : (retry_after : ℕ) → RateLimitResult

-- The fields of the class. `db` is the open table, if there is one; `rate` gives the unit of time.
pub record RateLimiter (T : Type 0) : Type 0 where
  pub rate : ℕ
  pub emission_interval : ℕ
  pub period : ℕ
  pub max_agents : ℕ
  pub tats : JsMap ℕ
  pub db : Option T
  pub dirty : JsSet

-- The rows that have not expired at `now`, entered in the order of the table.
pub load_rows : (now period : ℕ) → List (String × ℕ) → JsMap ℕ → JsMap ℕ
load_rows now period [] tats = tats
load_rows now period ((agent, tat) ∷ rows) tats =
    load_rows now period rows (if ltb now (tat + period) then JsMap.set agent tat tats else tats)

module _ {T : Type 0} (D : TatTable T) where
  open D use {rows, upsert, delete_row, delete_rows}

  pub load : ℕ → ℕ → Option T → JsMap ℕ
  load now period none = []
  load now period (some table) = load_rows now period (rows table) []

  -- The constructor.
  pub new : Config → Option T → (now : ℕ) → Outcome Error (RateLimiter T)
  unfolding load load_rows
  new c db now =
      if c.rate == 0 || c.period == 0
      then thrown not_positive
      else if get_or c.max_agents 1000 == 0
      then thrown max_agents_not_positive
      else returned (record {
        rate = c.rate;
        emission_interval = c.period;
        period = c.period * c.rate;
        max_agents = get_or c.max_agents 1000;
        tats = load (now * c.rate) (c.period * c.rate) db;
        db = db;
        dirty = [];
      })

  -- One round of the loop in `evictIfNeeded`.
  pub drop_oldest : JsMap ℕ → RateLimiter T → RateLimiter T
  drop_oldest [] l = l
  drop_oldest ((oldest, tat) ∷ rest) l = record l {
    tats = JsMap.delete oldest l.tats;
    dirty = JsSet.delete oldest l.dirty;
  }

  pub evict_loop : (fuel : ℕ) → RateLimiter T → RateLimiter T
  evict_loop zero l = l
  evict_loop (suc fuel) l = elim (ltb l.max_agents (JsMap.size l.tats)) [
    | true ↦ evict_loop fuel (drop_oldest l.tats l)
    | false ↦ l
  ]

  -- Each round drops one entry, so as many rounds as entries are enough.
  pub evict_if_needed : RateLimiter T → RateLimiter T
  unfolding evict_loop drop_oldest
  evict_if_needed l = evict_loop (JsMap.size l.tats) l

  pub mark_dirty : Option T → String → JsSet → JsSet
  mark_dirty none agent dirty = dirty
  mark_dirty (some table) agent dirty = JsSet.add agent dirty

  pub record_tat : String → ℕ → RateLimiter T → RateLimiter T
  record_tat agent tat l = record l {
    tats = JsMap.set agent tat l.tats;
    dirty = mark_dirty l.db agent l.dirty;
  }

  abbrev pub new_tat : RateLimiter T → String → (now : ℕ) → ℕ
  new_tat l agent now = max now (get_or (JsMap.get agent l.tats) now) + l.emission_interval

  unfoldable pub check : RateLimiter T → String → (now_ms : ℕ) → RateLimiter T × RateLimitResult
  unfolding evict_if_needed mark_dirty record_tat
  check l agent now_ms =
      let now = now_ms * l.rate in
      let tat = new_tat l agent now in
      if ltb l.period (tat - now)
      then (l, denied (tat - now - l.period))
      else (evict_if_needed (record_tat agent tat l), allowed)

  abbrev pub on_table : (T → T) → Option T → Option T
  on_table f none = none
  on_table f (some table) = some (f table)

  pub reset : RateLimiter T → Option String → RateLimiter T
  reset l (some agent) = record l {
    tats = JsMap.delete agent l.tats;
    dirty = JsSet.delete agent l.dirty;
    db = on_table (delete_row agent) l.db;
  }
  reset l none = record l { tats = []; dirty = []; db = on_table delete_rows l.db }

  -- The transaction of `flush`: an entry that was deleted meanwhile is skipped.
  pub flush_entry : JsMap ℕ → String → T → T
  flush_entry tats agent table = elim (JsMap.get agent tats) [
    | none ↦ table
    | some tat ↦ upsert agent tat table
  ]

  pub flush_entries : JsMap ℕ → JsSet → T → T
  flush_entries tats [] table = table
  flush_entries tats (agent ∷ dirty) table = flush_entries tats dirty (flush_entry tats agent table)

  -- `commits` tells whether the transaction succeeds; one that fails leaves the table as it was.
  pub flush_dirty : JsSet → RateLimiter T → (commits : Bool) → RateLimiter T
  unfolding flush_entries flush_entry
  flush_dirty [] l commits = l
  flush_dirty (agent ∷ dirty) l commits = record l {
    db =
        on_table (λ table. if commits then flush_entries l.tats (agent ∷ dirty) table else table)
          l.db;
    dirty = elim l.db [ none ↦ agent ∷ dirty | some table ↦ [] ];
  }

  pub flush : RateLimiter T → (commits : Bool) → RateLimiter T
  unfolding flush_dirty
  flush l commits = flush_dirty l.dirty l commits

  -- The instance after `close`, and the table that it leaves behind.
  pub close : RateLimiter T → (commits : Bool) → RateLimiter T × Option T
  close l commits = let flushed = flush l commits in (record flushed { db = none }, flushed.db)
