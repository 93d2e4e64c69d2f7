-- ===== src/Memory/Tests.antt =====
-- Runs of the memory store.

use secure_openclaw_poc.Memory.Consolidator.Protected.{session_summary-protects}
use secure_openclaw_poc.Memory.Consolidator.{
  consolidate_day, day_summary, merged, merged_ids, take_all, written, session_summary,
}
use secure_openclaw_poc.Memory.ContextBuilder.{build_session_context}
use secure_openclaw_poc.Memory.Store.Reading.{observe-get_by_id}
use secure_openclaw_poc.Memory.Queries.{
  get_by_id, order_desc, get_recent_summaries, get_summaries_by_period, has_summary_for_period,
  order_asc, get_observations_by_session,
}
use secure_openclaw_poc.Memory.Store.Accounts.{run-IsCounted}
use secure_openclaw_poc.Common.Outcome.{returned, thrown}
use secure_openclaw_poc.Memory.Store.Rows.{IsSound, run-IsSound}
use secure_openclaw_poc.Common.{
  ◌==◌, List, Option, String, Text, [], codes, if◌then◌else◌, includes, is_space, none, refl,
  skip_spaces, some, suc, text_eq, trim, true, zero, ℕ, ◌∷◌, ◌≡◌, ◌+◌, ◌≤◌, All, arith, length,
  text_in, false,
}
use secure_openclaw_poc.Memory.Dates.{byte_length, text_ltb, text_leb}
use secure_openclaw_poc.Memory.Store.History.{
  Operation, embedding, observing, pruning, observation_bytes, pruned_all, run, summaries_bytes,
}
use secure_openclaw_poc.Memory.Schema.{
  ObservationInput, ObservationType, content_only_sensitive, context, decision, developer, error,
  learning, validate_observation, with_defaults, SearchQuery, CreateSummary, daily, fits_summary,
  session,
}
use secure_openclaw_poc.Memory.Store.{
  Database, Env, FtsRow, MemoryStore, dedup_check, existing, invalid_observation, new, observe,
  observe_new, quota_exceeded, find_observation, fts_row, insert_observation,
  observe_with_embedding, prune, prune_observations, Observation, empty_database, new_observation,
  insert_summary, summary_bytes, write_summary, embedding_failed,
}

abbrev initial : Text → String
initial [] = "empty"
initial (c ∷ cs) = if c == 97 then "starts with a" else "starts otherwise"

abbrev titled : Text → List FtsRow → List String
titled t [] = []
titled t (f ∷ fs) =
    let rest = titled t fs in if includes f.title t then f.content_id ∷ rest else rest

abbrev first_ids : ℕ → List (String × Text) → List String
first_ids zero vs = []
first_ids (suc n) [] = []
first_ids (suc n) (v ∷ vs) = v.0 ∷ first_ids n vs

-- `pw` is redacted; a date is one code unit.
abbrev redacting : Text → Text
redacting t = if text_eq t (codes "pw") then codes "[REDACTED]" else t

abbrev env : Env
env = record {
  redact_all = redacting;
  sha256 = initial;
  stringify = λ ts. codes "[]";
  datetime = λ n. n ∷ [];
  is_uuid = λ id. true;
  fts_rank = titled;
  nearest = λ t vs n. first_ids n vs;
}

abbrev note : (project title content : String) → ObservationType → ObservationInput
note project title content type = record {
  project = codes project;
  session_id = codes "s1";
  agent_id = none;
  source = developer;
  type = type;
  title = codes title;
  content = codes content;
  concepts = none;
  files_involved = none;
}

abbrev apples : ObservationInput
apples = note "p" "apples" "a red one" decision

abbrev pears : ObservationInput
pears = note "q" "pears" "pears" learning

abbrev empty_store : MemoryStore
empty_store = new 1000 30 true

abbrev with_apples : MemoryStore
unfolding observe new
with_apples = (observe env empty_store apples "1" 100).1

first_is_stored : (observe env empty_store apples "1" 100).0 ≡ returned "1"
unfolding observe new existing dedup_check validate_observation observe_new byte_length trim
    is_space skip_spaces
first_is_stored = refl

secret_is_refused :
    (observe env empty_store (note "p" "t" "pw" context) "1" 100).0
    ≡ thrown (invalid_observation content_only_sensitive)
unfolding observe new validate_observation trim is_space skip_spaces
secret_is_refused = refl

quota_is_kept : (observe env (new 5 30 true) apples "1" 100).0 ≡ thrown (quota_exceeded 9 5)
unfolding observe new existing dedup_check validate_observation observe_new byte_length trim
    is_space skip_spaces
quota_is_kept = refl

emoji_takes_four_bytes : byte_length (97 ∷ 55357 ∷ 56832 ∷ []) ≡ 5
unfolding byte_length
emoji_takes_four_bytes = refl

-- The same content for two projects is stored once; a pruned observation keeps counting.
abbrev history : List Operation
history =
    embedding apples "1" 100 true
    ∷ observing (note "q" "other" "a red one" error) "2" 110
    ∷ embedding pears "3" 120 true
    ∷ pruning 1 200000
    ∷ []

abbrev left_over : Database
left_over = record {
  observations = [];
  fts = fts_row "1" (with_defaults apples) ∷ fts_row "3" (with_defaults pears) ∷ [];
  vectors = ("1", codes "apples a red one") ∷ ("3", codes "pears pears") ∷ [];
  summaries = [];
  total_bytes = 14;
}

history_leaves : (run env (new 1000 30 true) history).db ≡ some left_over
unfolding run observe observe_with_embedding new existing dedup_check validate_observation
    observe_new byte_length trim is_space skip_spaces prune_observations prune insert_observation
    find_observation text_ltb
history_leaves = refl

run-IsCounted_example :
    (14 ≡ observation_bytes [] + summaries_bytes env [] + pruned_all env (new 1000 30 true) history)
    × (14 ≤ 1000)
run-IsCounted_example = run-IsCounted env 1000 30 true history left_over history_leaves

abbrev observing_all : List Operation
observing_all =
    embedding apples "1" 100 true
    ∷ observing (note "q" "other" "a red one" error) "2" 110
    ∷ embedding pears "3" 120 true
    ∷ []

abbrev apples_row : Observation
apples_row = new_observation env (with_defaults apples) "1" 100

abbrev both_rows : Database
both_rows = record left_over {
  observations = apples_row ∷ new_observation env (with_defaults pears) "3" 120 ∷ [];
}

both_are_stored : (run env (new 1000 30 true) observing_all).db ≡ some both_rows
unfolding run observe observe_with_embedding new existing dedup_check validate_observation
    observe_new byte_length trim is_space skip_spaces insert_observation find_observation text_ltb
both_are_stored = refl

run-IsSound_example : IsSound env both_rows
run-IsSound_example = run-IsSound env 1000 30 true observing_all both_rows both_are_stored

abbrev one_row : Database
one_row = record {
  observations = apples_row ∷ [];
  fts = fts_row "1" (with_defaults apples) ∷ [];
  vectors = [];
  summaries = [];
  total_bytes = 9;
}

abbrev store_of : Database → MemoryStore
store_of d = record {
  db = some d;
  max_total_bytes = 1000;
  dedup_window_seconds = 30;
  vec_enabled = true;
}

apples_are_stored :
    observe env (store_of empty_database) apples "1" 100 ≡ (returned "1", store_of one_row)
unfolding observe existing dedup_check validate_observation observe_new byte_length trim is_space
    skip_spaces insert_observation
apples_are_stored = refl

-- An embedding that fails leaves the observation stored.
failed_embedding_stores :
    observe_with_embedding env (store_of empty_database) apples "1" 100 false
    ≡ (thrown embedding_failed, store_of one_row)
unfolding observe_with_embedding observe existing dedup_check validate_observation observe_new
    byte_length trim is_space skip_spaces insert_observation
failed_embedding_stores = refl

observe-get_by_id_example : get_by_id (store_of one_row) "1" ≡ returned (some apples_row)
observe-get_by_id_example =
    observe-get_by_id env (store_of empty_database) empty_database apples "1" 100 (store_of one_row)
      refl refl apples_are_stored

abbrev all_day : SearchQuery
all_day = record {
  query = none;
  project = some (codes "q");
  agent_id = none;
  type = none;
  source = none;
  from_date = none;
  to_date = some (150 ∷ []);
  limit = 5;
  offset = 0;
}

abbrev pears_row : Observation
pears_row = new_observation env (with_defaults pears) "3" 120

-- The vectors give an observation of another project.
abbrev for_q : SearchQuery
for_q = record all_day { query = some (codes "pears"); limit = 2 }

abbrev session_of_both : CreateSummary
session_of_both = record {
  project = codes "p";
  source = developer;
  scope = session;
  period_start = 100 ∷ [];
  period_end = 120 ∷ [];
  title = codes "Session s1";
  investigated = [];
  learned = codes "pears" ∷ [];
  completed = codes "apples" ∷ [];
  next_steps = [];
  observation_ids = "1" ∷ "3" ∷ [];
}

summary_of_both :
    session_summary (codes "s1") (codes "p") [] (apples_row ∷ pears_row ∷ []) ≡ session_of_both
unfolding session_summary take_all
summary_of_both = refl

abbrev summarized : Database
summarized = record both_rows {
  summaries = record { id = "s"; input = session_of_both; created_at = 130 ∷ [] } ∷ [];
  total_bytes = 32;
}

session_is_written :
    write_summary env
      (store_of both_rows)
      (session_summary (codes "s1") (codes "p") [] (apples_row ∷ pears_row ∷ []))
      "s"
      130
    ≡ (returned "s", store_of summarized)
unfolding write_summary session_summary take_all fits_summary summary_bytes byte_length
    insert_summary
session_is_written = refl

session_reads :
    get_observations_by_session (store_of both_rows) (codes "s1")
    ≡ returned (apples_row ∷ pears_row ∷ [])
unfolding get_observations_by_session order_asc text_leb
session_reads = refl

session_summary-protects_example :
    get_observations_by_session
      (run env (store_of summarized) (pruning 1 200000 ∷ pruning 0 500000 ∷ []))
      (codes "s1")
    ≡ returned (apples_row ∷ pears_row ∷ [])
session_summary-protects_example =
    session_summary-protects env (codes "s1") (store_of both_rows) (store_of summarized) (codes "p")
      [] (apples_row ∷ pears_row ∷ []) "s" "s" 130 ((1, 200000) ∷ (0, 500000) ∷ []) session_reads
      session_is_written

abbrev any_day : Text → Option Text
any_day t = some (codes "1970-01-01")

abbrev day_of_both : CreateSummary
day_of_both = record session_of_both {
  scope = daily;
  period_start = 90 ∷ [];
  period_end = 140 ∷ [];
  title = codes "Daily summary: 1970-01-01";
}

abbrev with_day_summary : Database
with_day_summary = record summarized {
  summaries =
      record { id = "s"; input = session_of_both; created_at = 130 ∷ [] }
      ∷ record { id = "d"; input = day_of_both; created_at = 150 ∷ [] }
      ∷ [];
  total_bytes = 65;
}

day_is_written :
    consolidate_day env any_day (store_of summarized) (codes "p") (90 ∷ []) (140 ∷ []) "d" 150
    ≡ (returned (written "d"), store_of with_day_summary)
unfolding consolidate_day has_summary_for_period get_summaries_by_period order_asc text_leb text_in
    write_summary day_summary fits_summary summary_bytes byte_length insert_summary merged
    merged_ids secure_openclaw_poc.Common.JsSet.add
day_is_written = refl

-- Texts of one code unit, all different.
abbrev numbered : ℕ → List Text
numbered zero = []
numbered (suc n) = (n ∷ []) ∷ numbered n

abbrev busy : Database
busy = record summarized {
  summaries =
      record {
        id = "a";
        input = record session_of_both { completed = numbered 15 };
        created_at = 130 ∷ [];
      }
      ∷ record {
        id = "b";
        input = record session_of_both {
          completed = (50 ∷ []) ∷ (51 ∷ []) ∷ (52 ∷ []) ∷ (53 ∷ []) ∷ (54 ∷ []) ∷ (55 ∷ []) ∷ [];
        };
        created_at = 130 ∷ [];
      }
      ∷ [];
}

context_names_the_session :
    build_session_context (store_of summarized) (codes "p")
    ≡ returned (codes "## Yesterday: Session s1")
unfolding build_session_context get_recent_summaries order_desc text_leb
context_names_the_session = refl
