-- ===== src/Memory/Store/Rows.antt =====
-- What the rows of a memory store are like.

-- A row is found by its text.
use secure_openclaw_poc.Common.{
  ◌*◌, ◌++◌, ◌-◌, All, All-append, All-map, Bool, List, String, [], arith, eq_iff, false, filter,
  if_elim, refl, some, str_eq, subst, true, ◌||◌, ℕ, ◌∷◌, ◌≡◌, codes, inl, inr, text_eq, trim, ◌⊎◌,
}
use secure_openclaw_poc.Memory.Store.History.{Operation, run}
use secure_openclaw_poc.Memory.Store.Keeping.{Holds, IsClean, Keeps, run-Keeps}
use secure_openclaw_poc.Memory.Store.{
  Database, Env, FtsRow, Observation, fts_row, has_id, insert_observation, insert_summary, is_kept,
  new, new_observation, prune,
}
use secure_openclaw_poc.Memory.Schema.{CreateObservation, fits_observation}

-- The full text index has a row with the texts of the observation.
abbrev pub IsIndexed : List FtsRow → Observation → Type 0
IsIndexed [] o = ⊥
IsIndexed (f ∷ fs) o =
    (f ≡ record {
      content_id = o.id;
      title = o.input.title;
      content = o.input.content;
      concepts = o.input.concepts;
    })
    ⊎ IsIndexed fs o

abbrev pub HasDistinctIds : List Observation → Type 0
HasDistinctIds [] = Unit
HasDistinctIds (o ∷ os) = (has_id o.id os ≡ false) × HasDistinctIds os

pub has_id-append :
    (id : String) (os : List Observation) (o : Observation)
    → has_id id (os ++ o ∷ []) ≡ (has_id id os || str_eq o.id id)
has_id-append id [] o = ground arith
has_id-append id (p ∷ os) o = ground (arith, has_id-append id os o)

append-HasDistinctIds :
    (os : List Observation) (o : Observation)
    → HasDistinctIds os
    → has_id o.id os ≡ false
    → HasDistinctIds (os ++ o ∷ [])
append-HasDistinctIds [] o h f = (refl, tt)
append-HasDistinctIds (p ∷ os) o h f = ground (
  arith,
  has_id-append p.id os o,
  append-HasDistinctIds os o h.1,
  eq_iff p.id o.id,
  eq_iff o.id p.id,
)

has_id-filter :
    (keep : Observation → Bool) (id : String) (os : List Observation)
    → has_id id os ≡ false
    → has_id id (filter keep os) ≡ false
has_id-filter keep id [] h = refl
has_id-filter keep id (o ∷ os) h = ground (arith, has_id-filter keep id os)

filter-HasDistinctIds :
    (keep : Observation → Bool) (os : List Observation)
    → HasDistinctIds os
    → HasDistinctIds (filter keep os)
filter-HasDistinctIds keep [] h = tt
filter-HasDistinctIds keep (o ∷ os) h =
    ground (arith, filter-HasDistinctIds keep os h.1, has_id-filter keep o.id os h.0)

IsIndexed-append :
    (fts : List FtsRow) (f : FtsRow) (o : Observation)
    → IsIndexed fts o
    → IsIndexed (fts ++ f ∷ []) o
IsIndexed-append [] f o h = absurd h
IsIndexed-append (g ∷ fts) f o (inl e) = inl e
IsIndexed-append (g ∷ fts) f o (inr h) = inr (IsIndexed-append fts f o h)

IsIndexed-last :
    (fts : List FtsRow) (o : Observation) → IsIndexed (fts ++ fts_row o.id o.input ∷ []) o
IsIndexed-last [] o = inl refl
IsIndexed-last (g ∷ fts) o = inr (IsIndexed-last fts o)

All-filter_keep :
    (P : Observation → Type 0) (keep : Observation → Bool) (os : List Observation)
    → All P os
    → All P (filter keep os)
All-filter_keep P keep [] h = tt
All-filter_keep P keep (o ∷ os) h =
    if_elim (All P) (keep o) (o ∷ filter keep os) (filter keep os)
      (λ kept. (h.0, All-filter_keep P keep os h.1)) (λ dropped. All-filter_keep P keep os h.1)

module _ (env : Env) where
  -- The input with its defaults, of which the title and the content were redacted.
  abbrev pub IsRedacted : CreateObservation → Type 0
  IsRedacted o =
      (raw : CreateObservation) × (fits_observation raw ≡ true)
      × (o ≡ record raw { title = env.redact_all raw.title; content = env.redact_all raw.content })
      × (text_eq (trim o.content) (codes "[REDACTED]") ≡ false)
      × (text_eq (trim o.content) (codes "[PII_REDACTED]") ≡ false)

  -- The row is redacted, its hash is that of its content, and the full text index has its texts.
  abbrev pub IsRow : List FtsRow → Observation → Type 0
  IsRow fts o = IsRedacted o.input × (o.content_hash ≡ env.sha256 o.input.content) × IsIndexed fts o

  IsClean-IsRedacted : (o : CreateObservation) → IsClean env.redact_all o → IsRedacted o
  IsClean-IsRedacted o (raw, fits, same, more) =
      (raw, fits, same, ground (arith, more), ground (arith, more))

  abbrev pub IsSound : Database → Type 0
  IsSound d = HasDistinctIds d.observations × All (IsRow d.fts) d.observations

  inserting-IsSound :
      (d : Database) (o : CreateObservation) (id : String) (now : ℕ)
      → IsClean env.redact_all o
      → has_id id d.observations ≡ false
      → IsSound d
      → IsSound (insert_observation env d o id now)
  unfolding insert_observation
  inserting-IsSound d o id now c fresh (distinct, rows) =
      let row = new_observation env o id now in
      let f = fts_row id o in
      (
        append-HasDistinctIds d.observations row distinct fresh,
        All-append (IsRow (d.fts ++ f ∷ [])) d.observations (row ∷ [])
            (All-map
              (λ (p : Observation) (r : IsRow d.fts p). (r.0, r.1, IsIndexed-append d.fts f p r.2))
              d.observations rows)
            ((IsClean-IsRedacted o c, refl, IsIndexed-last d.fts row), tt),
      )

  IsSound-Keeps : Keeps env IsSound
  unfolding insert_summary prune
  IsSound-Keeps = record {
    inserting = inserting-IsSound;
    embedding = λ d v h. h;
    summarizing = λ d i id now h. h;
    pruning = λ d days now h.
        let keep = is_kept env d.summaries (env.datetime (now - days * 86400)) in
        (
          filter-HasDistinctIds keep d.observations h.0,
          All-filter_keep (IsRow d.fts) keep d.observations h.1,
        );
  }

  -- After any calls on a new store, no two observations have one id. Each is an input within the bounds
  -- of the schema whose title and content were redacted, and its content is more than a mark of the
  -- redaction; it has the hash of its content, and the full text index has a row with its id, title,
  -- content and concepts.
  pub run-IsSound :
      (limit window : ℕ) (vec_enabled : Bool) (os : List Operation) (d : Database)
      → (run env (new limit window vec_enabled) os).db ≡ some d
      → IsSound d
  unfolding new
  run-IsSound limit window vec_enabled os d h =
      subst (Holds env IsSound) h
        (run-Keeps env IsSound IsSound-Keeps (new limit window vec_enabled) os (tt, tt))
