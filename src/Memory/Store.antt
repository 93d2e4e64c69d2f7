-- ===== src/Memory/Store.antt =====
-- packages/memory/src/store.ts, class MemoryStore: the tables of its database, and what each statement
-- does with them.
--
-- An instant is a number of seconds; `datetime` writes it as SQLite does. A statement that asks for no
-- order gives its rows in the order of insertion, and rows of one date keep that order. A constraint
-- that fails undoes the whole transaction. `sha256`, `stringify` (JSON.stringify of a list of texts),
-- `fts_rank` (the ids that FTS5 finds for a query, by rank) and `nearest` (the ids that sqlite-vec
-- finds for a text, by distance) come from outside.
pub mod History
pub mod Accounts
pub mod Keeping
pub mod Rows
pub mod Reading
pub mod Summaries
use secure_openclaw_poc.Common.{
  Text, List, [], ◌∷◌, ◌++◌, Bool, true, false, Option, some, none, String, ℕ, ◌+◌, ◌-◌, ◌*◌, leb,
  ltb, ◌==◌, ◌&&◌, ◌||◌, not, str_eq, text_eq, if◌then◌else◌, any, filter, take, drop, length, map,
}
use secure_openclaw_poc.Common.Outcome.{Outcome, returned, thrown}
use secure_openclaw_poc.Memory.Dates.{text_leb, text_ltb, byte_length}
use secure_openclaw_poc.Memory.Schema.{
  ObservationType, Source, Scope, ObservationInput, CreateObservation, CreateSummary, SearchQuery,
  Validation, valid, invalid, ValidationCode, validate_observation, fits_summary, fits_query,
}

pub record Observation : Type 0 where
  pub id : String
  pub input : CreateObservation
  pub content_hash : String
  pub created_at : Text

pub record FtsRow : Type 0 where
  pub content_id : String
  pub title : Text
  pub content : Text
  pub concepts : List Text

pub record Summary : Type 0 where
  pub id : String
  pub input : CreateSummary
  pub created_at : Text

pub record Database : Type 0 where
  pub observations : List Observation
  pub fts : List FtsRow
  pub vectors : List (String × Text)
  pub summaries : List Summary
  pub total_bytes : ℕ

-- `vec_enabled`: there is an embedder and sqlite-vec was loaded.
pub record MemoryStore : Type 0 where
  pub db : Option Database
  pub max_total_bytes : ℕ
  pub dedup_window_seconds : ℕ
  pub vec_enabled : Bool

pub data Error : Type 0 where
  closed constraint invalid_summary invalid_query embedding_failed : Error
  invalid_observation : ValidationCode → Error
  quota_exceeded : (wanted limit : ℕ) → Error

abbrev pub empty_database : Database
empty_database = record {
  observations = [];
  fts = [];
  vectors = [];
  summaries = [];
  total_bytes = 0;
}

unfoldable pub new : (max_total_bytes dedup_window_seconds : ℕ) → (vec_enabled : Bool) → MemoryStore
new max_total_bytes dedup_window_seconds vec_enabled = record {
  db = some empty_database;
  max_total_bytes = max_total_bytes;
  dedup_window_seconds = dedup_window_seconds;
  vec_enabled = vec_enabled;
}

unfoldable pub close : MemoryStore → MemoryStore
close s = record s { db = none }

-- `this.getDb()`, and what is done with the database.
abbrev pub with_db : {A : Type 0} → Option Database → (Database → Outcome Error A) → Outcome Error A
with_db none f = thrown closed
with_db (some d) f = f d

-- What comes from outside the class.
pub record Env : Type 0 where
  pub redact_all : Text → Text
  pub sha256 : Text → String
  pub stringify : List Text → Text
  pub datetime : ℕ → Text
  pub is_uuid : String → Bool
  pub fts_rank : Text → List FtsRow → List String
  pub nearest : Text → List (String × Text) → (limit : ℕ) → List String

-- The result of a call and the store that it leaves.
abbrev pub Call : Type 0 → Type 0
Call A = Outcome Error A × MemoryStore

abbrev pub has_id : String → List Observation → Bool
has_id id os = any (λ o. str_eq o.id id) os

abbrev pub has_summary_id : String → List Summary → Bool
has_summary_id id ss = any (λ s. str_eq s.id id) ss

-- The dedup statement, where `since` is the start of the window.
unfoldable pub dedup_check : (hash : String) (since : Text) → List Observation → Option String
dedup_check hash since [] = none
dedup_check hash since (o ∷ os) =
    let rest = dedup_check hash since os in
    if str_eq o.content_hash hash && text_ltb since o.created_at then some o.id else rest

abbrev pub fts_row : String → CreateObservation → FtsRow
fts_row id o = record {
  content_id = id;
  title = o.title;
  content = o.content;
  concepts = o.concepts;
}

-- The row of `observeWithEmbedding`, of which the text is kept in place of its embedding.
pub insert_vector : MemoryStore → Database → Option Observation → MemoryStore
insert_vector s d none = s
insert_vector s d (some o) = record s {
  db =
      some (record d { vectors = d.vectors ++ (o.id, o.input.title ++ 32 ∷ o.input.content) ∷ [] });
}

unfoldable pub find_observation : String → List Observation → Option Observation
find_observation id [] = none
find_observation id (o ∷ os) =
    let rest = find_observation id os in if str_eq o.id id then some o else rest

pub embed_in : MemoryStore → Option Database → String → MemoryStore
unfolding insert_vector
embed_in s none id = s
embed_in s (some d) id = insert_vector s d (find_observation id d.observations)

-- `works` tells whether the embedding is computed and its row inserted; if not, the observation is stored
-- all the same.
pub embed_result : (works : Bool) → Call String → Call String
unfolding embed_in
embed_result works (thrown e, s) = (thrown e, s)
embed_result works (returned id, s) =
    if not s.vec_enabled
    then (returned id, s)
    else if works
    then (returned id, embed_in s s.db id)
    else (thrown embedding_failed, s)

module _ (env : Env) where
  open env use {redact_all, sha256, stringify, datetime, is_uuid}

  -- `existing`, which is not looked for where the window is empty.
  unfoldable pub existing : MemoryStore → Database → (hash : String) (now : ℕ) → Option String
  existing s d hash now =
      if ltb 0 s.dedup_window_seconds
      then dedup_check hash (datetime (now - s.dedup_window_seconds)) d.observations
      else none

  abbrev pub new_observation : CreateObservation → (id : String) (now : ℕ) → Observation
  new_observation o id now = record {
    id = id;
    input = o;
    content_hash = sha256 o.content;
    created_at = datetime now;
  }

  -- The transaction of `observe`.
  unfoldable pub insert_observation :
      Database → CreateObservation → (id : String) (now : ℕ) → Database
  insert_observation d o id now = record d {
    observations = d.observations ++ new_observation o id now ∷ [];
    fts = d.fts ++ fts_row id o ∷ [];
    total_bytes = d.total_bytes + byte_length o.content;
  }

  -- From the check of the quota on; `id` is the random one.
  unfoldable pub observe_new :
      MemoryStore → Database → CreateObservation → (id : String) (now : ℕ) → Call String
  observe_new s d o id now =
      let wanted = d.total_bytes + byte_length o.content in
      if ltb s.max_total_bytes wanted
      then (thrown (quota_exceeded wanted s.max_total_bytes), s)
      else if has_id id d.observations
      then (thrown constraint, s)
      else (returned id, record s { db = some (insert_observation d o id now) })

  pub observe_found :
      MemoryStore
      → Database
      → CreateObservation
      → (id : String) (now : ℕ) → (found : Option String) → Call String
  observe_found s d o id now (some old) = (returned old, s)
  observe_found s d o id now none = observe_new s d o id now

  pub observe_validated :
      MemoryStore → Database → Validation → (id : String) (now : ℕ) → Call String
  unfolding observe_found
  observe_validated s d (invalid code) id now = (thrown (invalid_observation code), s)
  observe_validated s d (valid o) id now =
      observe_found s d o id now (existing s d (sha256 o.content) now)

  pub observe_in :
      MemoryStore → Option Database → ObservationInput → (id : String) (now : ℕ) → Call String
  unfolding observe_validated
  observe_in s none i id now = (thrown closed, s)
  observe_in s (some d) i id now = observe_validated s d (validate_observation redact_all i) id now

  unfoldable pub observe : MemoryStore → ObservationInput → (id : String) (now : ℕ) → Call String
  unfolding observe_in
  observe s i id now = observe_in s s.db i id now

  -- The bytes that a summary counts for.
  unfoldable pub summary_bytes : CreateSummary → ℕ
  summary_bytes i = byte_length (
      stringify i.investigated
      ++ (stringify i.learned ++ (stringify i.completed ++ (stringify i.next_steps ++ i.title))))

  -- The transaction of `writeSummary`.
  unfoldable pub insert_summary : Database → CreateSummary → (id : String) (now : ℕ) → Database
  insert_summary d i id now = record d {
    summaries = d.summaries ++ record { id = id; input = i; created_at = datetime now } ∷ [];
    total_bytes = d.total_bytes + summary_bytes i;
  }

  unfoldable pub write_summary_in :
      MemoryStore → Option Database → CreateSummary → (id : String) (now : ℕ) → Call String
  write_summary_in s none i id now = (thrown closed, s)
  write_summary_in s (some d) i id now =
      let wanted = d.total_bytes + summary_bytes i in
      if not (fits_summary is_uuid i)
      then (thrown invalid_summary, s)
      else if ltb s.max_total_bytes wanted
      then (thrown (quota_exceeded wanted s.max_total_bytes), s)
      else if has_summary_id id d.summaries
      then (thrown constraint, s)
      else (returned id, record s { db = some (insert_summary d i id now) })

  unfoldable pub write_summary : MemoryStore → CreateSummary → (id : String) (now : ℕ) → Call String
  unfolding write_summary_in
  write_summary s i id now = write_summary_in s s.db i id now

  -- The ids in `observation_ids` of any summary.
  abbrev pub is_summarized : List Summary → String → Bool
  is_summarized ss id = any (λ s. any (λ j. str_eq j id) s.input.observation_ids) ss

  -- What the statement of `pruneObservations` leaves.
  abbrev pub is_kept : List Summary → (since : Text) → Observation → Bool
  is_kept ss since o = not (text_ltb o.created_at since) || is_summarized ss o.id

  unfoldable pub prune : Database → (retention_days now : ℕ) → Database
  prune d retention_days now = record d {
    observations =
        filter (is_kept d.summaries (datetime (now - retention_days * 86400))) d.observations;
  }

  unfoldable pub prune_in : MemoryStore → Option Database → (retention_days now : ℕ) → Call ℕ
  prune_in s none retention_days now = (thrown closed, s)
  prune_in s (some d) retention_days now =
      let left = prune d retention_days now in
      (returned (length d.observations - length left.observations), record s { db = some left })

  unfoldable pub prune_observations : MemoryStore → (retention_days now : ℕ) → Call ℕ
  unfolding prune_in
  prune_observations s retention_days now = prune_in s s.db retention_days now

  unfoldable pub observe_with_embedding :
      MemoryStore → ObservationInput → (id : String) (now : ℕ) (works : Bool) → Call String
  unfolding embed_result
  observe_with_embedding s i id now works = embed_result works (observe s i id now)
