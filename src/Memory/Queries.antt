-- ===== src/Memory/Queries.antt =====
-- The queries of packages/memory/src/store.ts, class MemoryStore.
pub mod Results
use secure_openclaw_poc.Common.{
  Text, List, [], ◌∷◌, ◌++◌, Bool, true, false, Option, some, none, String, ℕ, ◌+◌, ◌*◌, leb, ltb,
  ◌&&◌, not, str_eq, text_eq, if◌then◌else◌, any, filter, take, drop, map,
}
use secure_openclaw_poc.Common.Outcome.{Outcome, returned, thrown}
use secure_openclaw_poc.Memory.Dates.{text_leb}
use secure_openclaw_poc.Memory.Schema.{
  ObservationType, tool_call, learning, error, decision, context, Source, developer, agent, Scope,
  session, daily, weekly, SearchQuery, fits_query,
}
use secure_openclaw_poc.Memory.Store.{
  Env, MemoryStore, Database, Observation, Summary, Error, closed, invalid_query, with_db,
  find_observation,
}

abbrev pub same_source : Source → Source → Bool
same_source developer developer = true
same_source agent agent = true
same_source _ _ = false

abbrev pub same_scope : Scope → Scope → Bool
same_scope session session = true
same_scope daily daily = true
same_scope weekly weekly = true
same_scope _ _ = false

abbrev pub same_type : ObservationType → ObservationType → Bool
same_type tool_call tool_call = true
same_type learning learning = true
same_type error error = true
same_type decision decision = true
same_type context context = true
same_type _ _ = false

-- `ORDER BY key ASC` and `DESC`: each row goes before the first that stands behind it.
module _ {A : Type 0} (key : A → Text) where
  unfoldable pub insert_asc : A → List A → List A
  insert_asc x [] = x ∷ []
  insert_asc x (y ∷ ys) = if text_leb (key x) (key y) then x ∷ y ∷ ys else y ∷ insert_asc x ys

  unfoldable pub order_asc : List A → List A
  unfolding insert_asc
  order_asc [] = []
  order_asc (x ∷ xs) = insert_asc x (order_asc xs)

  unfoldable pub insert_desc : A → List A → List A
  insert_desc x [] = x ∷ []
  insert_desc x (y ∷ ys) = if text_leb (key y) (key x) then x ∷ y ∷ ys else y ∷ insert_desc x ys

  unfoldable pub order_desc : List A → List A
  unfolding insert_desc
  order_desc [] = []
  order_desc (x ∷ xs) = insert_desc x (order_desc xs)

-- A condition that is added where the query has the value; an empty text is none.
abbrev pub if_text : (Text → Bool) → Option Text → Bool
if_text test none = true
if_text test (some []) = true
if_text test (some (c ∷ cs)) = test (c ∷ cs)

abbrev pub if_type : ObservationType → Option ObservationType → Bool
if_type t none = true
if_type t (some u) = same_type t u

abbrev pub if_source : Source → Option Source → Bool
if_source s none = true
if_source s (some t) = same_source s t

-- The conditions of `filterSearch`, and of `ftsSearch` but for the match.
unfoldable pub meets : SearchQuery → Observation → Bool
meets q o =
    if_text (text_eq o.input.project) q.project
    && (if_text (text_eq o.input.agent_id) q.agent_id
        && (if_type o.input.type q.type
            && (if_source o.input.source q.source
                && (if_text (λ d. text_leb d o.created_at) q.from_date
                    && if_text (λ d. text_leb o.created_at d) q.to_date))))

abbrev pub page : {A : Type 0} → SearchQuery → List A → List A
page q rows = take q.limit (drop q.offset rows)

unfoldable pub filter_search : Database → SearchQuery → List Observation
unfolding meets
filter_search d q = page q (order_desc (λ o. o.created_at) (filter (meets q) d.observations))

-- The rows of a join with a list of ids, in the order of the list.
unfoldable pub join_ids : List Observation → List String → List Observation
join_ids os [] = []
join_ids os (id ∷ ids) = filter (λ o. str_eq o.id id) os ++ join_ids os ids

module _ (env : Env) where
  open env use {fts_rank, nearest}

  unfoldable pub fts_search : Database → (text : Text) → SearchQuery → List Observation
  unfolding meets join_ids
  fts_search d text q = page q (filter (meets q) (join_ids d.observations (fts_rank text d.fts)))

  -- By the text of the query, if it has one.
  pub search_text : Database → SearchQuery → Option Text → List Observation
  unfolding fts_search filter_search
  search_text d q (some (c ∷ cs)) = fts_search d (c ∷ cs) q
  search_text d q (some []) = filter_search d q
  search_text d q none = filter_search d q

  unfoldable pub search : MemoryStore → SearchQuery → Outcome Error (List Observation)
  unfolding search_text
  search s q =
      with_db s.db (λ d.
        if not (fits_query q) then thrown invalid_query else returned (search_text d q q.query))

  unfoldable pub vector_rows : Database → Text → (limit : ℕ) → List Observation
  unfolding join_ids
  vector_rows d text limit = join_ids d.observations (nearest text d.vectors limit)

  unfoldable pub vector_search : MemoryStore → Text → (limit : ℕ) → Outcome Error (List Observation)
  unfolding vector_rows
  vector_search s text limit =
      with_db s.db (λ d. returned (if s.vec_enabled then vector_rows d text limit else []))

unfoldable pub get_by_id : MemoryStore → String → Outcome Error (Option Observation)
get_by_id s id = with_db s.db (λ d. returned (find_observation id d.observations))

unfoldable pub get_recent_by_agent :
    MemoryStore → (project agent_id : Text) (limit : ℕ) → Outcome Error (List Observation)
get_recent_by_agent s project agent_id limit = with_db s.db (λ d. returned (
    take limit (
      order_desc (λ o. o.created_at)
        (filter (λ o. text_eq o.input.project project && text_eq o.input.agent_id agent_id)
          d.observations))))

unfoldable pub get_observations_by_session :
    MemoryStore → (session_id : Text) → Outcome Error (List Observation)
get_observations_by_session s session_id = with_db s.db (λ d. returned (
    order_asc (λ o. o.created_at)
      (filter (λ o. text_eq o.input.session_id session_id) d.observations)))

-- The condition on the scope and the range of a summary.
unfoldable pub in_period : Scope → (start end_ : Text) → Summary → Bool
in_period scope start end_ m =
    same_scope m.input.scope scope
    && (text_leb start m.input.period_start && text_leb m.input.period_end end_)

unfoldable pub get_summaries_by_period :
    MemoryStore → Scope → (start end_ : Text) → Outcome Error (List Summary)
unfolding in_period
get_summaries_by_period s scope start end_ = with_db s.db (λ d.
    returned (order_asc (λ m. m.created_at) (filter (in_period scope start end_) d.summaries)))

unfoldable pub has_summary_for_period :
    MemoryStore → Scope → (start end_ : Text) → Outcome Error Bool
unfolding in_period
has_summary_for_period s scope start end_ =
    with_db s.db (λ d. returned (any (in_period scope start end_) d.summaries))

unfoldable pub get_recent_summaries :
    MemoryStore → (project : Text) (limit : ℕ) → Outcome Error (List Summary)
get_recent_summaries s project limit = with_db s.db (λ d. returned (
    take limit
      (order_desc (λ m. m.created_at) (filter (λ m. text_eq m.input.project project) d.summaries))))

unfoldable pub get_storage_bytes : MemoryStore → Outcome Error ℕ
get_storage_bytes s = with_db s.db (λ d. returned d.total_bytes)
