-- ===== src/Memory/Consolidator.antt =====
-- packages/memory/src/consolidator.ts, class Consolidator. `day_of` gives the day of a date, as
-- `new Date(date).toISOString().split("T")[0]` does, and none where that throws.
pub mod Once
pub mod Protected
use secure_openclaw_poc.Common.{
  Text, List, [], ◌∷◌, ◌++◌, Bool, true, false, Option, some, none, String, ℕ, codes, text_in,
  if◌then◌else◌, get_or,
}
use secure_openclaw_poc.Common.JsSet
use secure_openclaw_poc.Common.JsSet.{JsSet}
use secure_openclaw_poc.Common.Outcome.{Outcome, returned, thrown, ◌>>=◌}
use secure_openclaw_poc.Memory.Schema.{
  ObservationType, tool_call, learning, error, decision, context, Source, developer, session, daily,
  CreateSummary,
}
use secure_openclaw_poc.Memory.Store.{
  Env, MemoryStore, Observation, Summary, Error, Call, write_summary,
}
use secure_openclaw_poc.Memory.Queries.{
  get_observations_by_session, has_summary_for_period, get_summaries_by_period,
}

-- The lists that `generateSessionSummary` fills.
pub record Lists : Type 0 where
  pub investigated : List Text
  pub learned : List Text
  pub completed : List Text
  pub observation_ids : List String

abbrev pub sort_in : ObservationType → Text → Lists → Lists
sort_in context title l = record l { investigated = l.investigated ++ title ∷ [] }
sort_in learning title l = record l { learned = l.learned ++ title ∷ [] }
sort_in decision title l = record l { completed = l.completed ++ title ∷ [] }
sort_in error title l = record l {
  investigated = l.investigated ++ (codes "Error: " ++ title) ∷ [];
}
sort_in tool_call title l = record l { completed = l.completed ++ title ∷ [] }

-- One turn of the loop.
abbrev pub take_in : Observation → Lists → Lists
take_in o l =
    sort_in o.input.type o.input.title
      (record l { observation_ids = l.observation_ids ++ o.id ∷ [] })

unfoldable pub take_all : List Observation → Lists → Lists
take_all [] l = l
take_all (o ∷ os) l = take_all os (take_in o l)

abbrev no_lists : Lists
no_lists = record { investigated = []; learned = []; completed = []; observation_ids = [] }

abbrev pub first_of : {A : Type 0} → List A → Option A
first_of [] = none
first_of (x ∷ xs) = some x

abbrev pub last_of : {A : Type 0} → List A → Option A
last_of [] = none
last_of (x ∷ []) = some x
last_of (x ∷ y ∷ ys) = last_of (y ∷ ys)

abbrev source_or : Option Observation → Source → Source
source_or none s = s
source_or (some o) s = o.input.source

abbrev date_or : Option Observation → Text → Text
date_or none t = t
date_or (some o) t = o.created_at

-- `iso_now` is the present, where there is no observation.
unfoldable pub session_summary :
    (session_id project iso_now : Text) → List Observation → CreateSummary
unfolding take_all
session_summary session_id project iso_now os =
    let l = take_all os no_lists in
    record {
      project = project;
      source = source_or (first_of os) developer;
      scope = session;
      period_start = date_or (first_of os) iso_now;
      period_end = date_or (last_of os) iso_now;
      title = codes "Session " ++ session_id;
      investigated = l.investigated;
      learned = l.learned;
      completed = l.completed;
      next_steps = [];
      observation_ids = l.observation_ids;
    }

unfoldable pub generate_session_summary :
    MemoryStore → (session_id project iso_now : Text) → Outcome Error CreateSummary
unfolding session_summary
generate_session_summary s session_id project iso_now =
    get_observations_by_session s session_id >>= λ os.
    returned (session_summary session_id project iso_now os)

-- `for (const item of items) set.add(item)`, on a set of texts.
unfoldable pub add_items : List Text → List Text → List Text
add_items [] set = set
add_items (t ∷ ts) set = add_items ts (if text_in t set then set else set ++ t ∷ [])

unfoldable pub merged : (CreateSummary → List Text) → List Summary → List Text → List Text
unfolding add_items
merged field [] set = set
merged field (m ∷ ms) set = merged field ms (add_items (field m.input) set)

unfoldable pub add_ids : List String → JsSet → JsSet
add_ids [] set = set
add_ids (id ∷ ids) set = add_ids ids (JsSet.add id set)

unfoldable pub merged_ids : List Summary → JsSet → JsSet
unfolding add_ids
merged_ids [] set = set
merged_ids (m ∷ ms) set = merged_ids ms (add_ids m.input.observation_ids set)

pub data Failure : Type 0 where
  invalid_date : Failure
  of_store : Error → Failure

pub data ConsolidationResult : Type 0 where
  skipped : ConsolidationResult
  written : (summary_id : String) → ConsolidationResult

abbrev pub Consolidation : Type 0
Consolidation = Outcome Failure ConsolidationResult × MemoryStore

unfoldable pub day_summary :
    (project start end_ day : Text) → (first : Summary) (ms : List Summary) → CreateSummary
unfolding merged merged_ids
day_summary project start end_ day first ms = record {
  project = project;
  source = first.input.source;
  scope = daily;
  period_start = start;
  period_end = end_;
  title = codes "Daily summary: " ++ day;
  investigated = merged (λ i. i.investigated) (first ∷ ms) [];
  learned = merged (λ i. i.learned) (first ∷ ms) [];
  completed = merged (λ i. i.completed) (first ∷ ms) [];
  next_steps = merged (λ i. i.next_steps) (first ∷ ms) [];
  observation_ids = merged_ids (first ∷ ms) [];
}

abbrev pub as_result : Call String → Consolidation
as_result (thrown e, s) = (thrown (of_store e), s)
as_result (returned id, s) = (returned (written id), s)

module _ (env : Env) (day_of : Text → Option Text) where
  pub with_day :
      MemoryStore
      → (project start end_ : Text) → (id : String) (now : ℕ)
      → (first : Summary) (ms : List Summary) → Option Text
      → Consolidation
  unfolding day_summary
  with_day s project start end_ id now first ms none = (thrown invalid_date, s)
  with_day s project start end_ id now first ms (some day) =
      as_result (write_summary env s (day_summary project start end_ day first ms) id now)

  pub with_sessions :
      MemoryStore
      → (project start end_ : Text) → (id : String) (now : ℕ) → Outcome Error (List Summary)
      → Consolidation
  unfolding with_day
  with_sessions s project start end_ id now (thrown e) = (thrown (of_store e), s)
  with_sessions s project start end_ id now (returned []) = (returned skipped, s)
  with_sessions s project start end_ id now (returned (m ∷ ms)) =
      with_day s project start end_ id now m ms (day_of start)

  pub with_done :
      MemoryStore
      → (project start end_ : Text) → (id : String) (now : ℕ) → Outcome Error Bool
      → Consolidation
  unfolding with_sessions
  with_done s project start end_ id now (thrown e) = (thrown (of_store e), s)
  with_done s project start end_ id now (returned true) = (returned skipped, s)
  with_done s project start end_ id now (returned false) =
      with_sessions s project start end_ id now (get_summaries_by_period s session start end_)

  unfoldable pub consolidate_day :
      MemoryStore → (project start end_ : Text) → (id : String) (now : ℕ) → Consolidation
  unfolding with_done
  consolidate_day s project start end_ id now =
      with_done s project start end_ id now (has_summary_for_period s daily start end_)
