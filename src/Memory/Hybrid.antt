-- ===== src/Memory/Hybrid.antt =====
-- packages/memory/src/store.ts, `hybridSearch`: the text and the vector results, fused by rank.
--
-- A score is a fraction, where the source adds and compares floating numbers: no two different scores
-- of at most two hundred ranks are so near that rounding could join or swap them.
pub mod Sources
use secure_openclaw_poc.Common.{
  Text, List, [], ◌∷◌, ◌++◌, Bool, Option, some, none, String, ℕ, suc, ◌+◌, ◌*◌, leb, not,
  if◌then◌else◌, take, map,
}
use secure_openclaw_poc.Common.JsMap
use secure_openclaw_poc.Common.JsMap.{JsMap}
use secure_openclaw_poc.Common.Outcome.{Outcome, returned, thrown}
use secure_openclaw_poc.Memory.Schema.{SearchQuery, fits_query}
use secure_openclaw_poc.Memory.Store.{
  Env, MemoryStore, Database, Observation, Error, invalid_query, with_db,
}
use secure_openclaw_poc.Memory.Queries.{fts_search, vector_rows}

pub record Scored : Type 0 where
  pub numerator : ℕ
  pub denominator : ℕ
  pub obs : Observation

-- `existing.score += 1 / n`, or a new entry with that score.
abbrev pub plus_share : (n : ℕ) → Observation → Option Scored → Scored
plus_share n o none = record { numerator = 1; denominator = n; obs = o }
plus_share n o (some e) = record e {
  numerator = e.numerator * n + e.denominator;
  denominator = e.denominator * n;
}

abbrev pub rrf_k : ℕ
rrf_k = 60

-- The two loops over results; `i` is the index of the first one that is left.
unfoldable pub add_ranks : (i : ℕ) → List Observation → JsMap Scored → JsMap Scored
add_ranks i [] scores = scores
add_ranks i (o ∷ os) scores =
    add_ranks (suc i) os
      (JsMap.set o.id (plus_share (rrf_k + i + 1) o (JsMap.get o.id scores)) scores)

abbrev pub score_leb : Scored → Scored → Bool
score_leb a b = leb (a.numerator * b.denominator) (b.numerator * a.denominator)

pub insert_scored : Scored → List Scored → List Scored
insert_scored x [] = x ∷ []
insert_scored x (y ∷ ys) = if score_leb y x then x ∷ y ∷ ys else y ∷ insert_scored x ys

-- `sort((a, b) => b.score - a.score)`.
unfoldable pub sort_scored : List Scored → List Scored
unfolding insert_scored
sort_scored [] = []
sort_scored (x ∷ xs) = insert_scored x (sort_scored xs)

abbrev pub entry_values : JsMap Scored → List Scored
entry_values m = map (λ e. e.1) m

-- Where both lists have results.
unfoldable pub fuse : (limit : ℕ) (fts vec : List Observation) → List Observation
unfolding add_ranks sort_scored
fuse limit fts vec =
    map (λ e. e.obs)
      (take limit (sort_scored (entry_values (add_ranks 0 vec (add_ranks 0 fts [])))))

unfoldable pub combine : (limit : ℕ) (fts vec : List Observation) → List Observation
unfolding fuse
combine limit [] vec = take limit vec
combine limit (o ∷ os) [] = take limit (o ∷ os)
combine limit (o ∷ os) (p ∷ ps) = fuse limit (o ∷ os) (p ∷ ps)

abbrev pub doubled : SearchQuery → SearchQuery
doubled q = record q { limit = q.limit * 2 }

module _ (env : Env) where
  pub hybrid_rows : MemoryStore → Database → SearchQuery → Option Text → List Observation
  unfolding combine
  hybrid_rows s d q none = combine q.limit [] []
  hybrid_rows s d q (some []) = combine q.limit [] []
  hybrid_rows s d q (some (c ∷ cs)) =
      combine q.limit (fts_search env d (c ∷ cs) (doubled q))
        (if s.vec_enabled then vector_rows env d (c ∷ cs) (q.limit * 2) else [])

  unfoldable pub hybrid_search : MemoryStore → SearchQuery → Outcome Error (List Observation)
  unfolding hybrid_rows
  hybrid_search s q = with_db s.db (λ d.
      if not (fits_query q) then thrown invalid_query else returned (hybrid_rows s d q q.query))
