-- ===== src/Memory/Store/Keeping.antt =====
-- A property of the database that each statement keeps is kept by every history.
use secure_openclaw_poc.Memory.Dates.{byte_length}
use secure_openclaw_poc.Memory.Schema.{
  CreateObservation, CreateSummary, ObservationInput, content_only_sensitive, fits_observation,
  invalid, only_sensitive, sanitize, schema_invalid, valid, validate_observation, with_defaults,
  Validation, fits_summary,
}
use secure_openclaw_poc.Memory.Store.{
  Call, Database, Env, MemoryStore, has_id, insert_observation, insert_summary, observe_new, prune,
  Observation, close, embed_in, embed_result, existing, find_observation, has_summary_id,
  insert_vector, observe, observe_found, observe_in, observe_validated, observe_with_embedding,
  prune_in, prune_observations, summary_bytes, write_summary, write_summary_in, thrown, returned,
  embedding_failed,
}
use secure_openclaw_poc.Common.{
  ◌+◌, ◌++◌, Bool, Option, String, Text, [], if◌then◌else◌, false, if_elim, ltb, none, not, refl,
  some, subst, sym, true, ℕ, ◌∷◌, ◌≡◌, List,
}
use secure_openclaw_poc.Memory.Store.History.{
  Operation, apply, closing, observing, run, embedding, summarizing, pruning,
}

-- An observation that has passed the validation.
abbrev pub IsClean : (redact_all : Text → Text) → CreateObservation → Type 0
IsClean redact_all o =
    (i : CreateObservation) × (fits_observation i ≡ true)
    × (o ≡ sanitize redact_all i)
    × (only_sensitive o.content ≡ false)

pub validate_observation-IsClean :
    (redact_all : Text → Text) (i : ObservationInput) (o : CreateObservation)
    → validate_observation redact_all i ≡ valid o
    → (fits_observation (with_defaults i) ≡ true)
      × (o ≡ sanitize redact_all (with_defaults i))
      × (only_sensitive o.content ≡ false)
unfolding validate_observation
validate_observation-IsClean redact_all i o h =
    validated (fits_observation (with_defaults i)) (only_sensitive (redact_all i.content)) h refl
      refl
  where
    validated :
        (fits sensitive : Bool)
        → (if not fits
            then invalid schema_invalid
            else if sensitive
            then invalid content_only_sensitive
            else valid (sanitize redact_all (with_defaults i)))
          ≡ valid o
        → fits_observation (with_defaults i) ≡ fits
        → only_sensitive (redact_all i.content) ≡ sensitive
        → (fits_observation (with_defaults i) ≡ true)
          × (o ≡ sanitize redact_all (with_defaults i))
          × (only_sensitive o.content ≡ false)
    validated false sensitive h f g = cc
    validated true true h f g = cc
    validated true false h f g =
        let e : sanitize redact_all (with_defaults i) ≡ o = cc in
        (f, sym e, subst (λ (p : CreateObservation). only_sensitive p.content ≡ false) e g)

module _ (env : Env) where
  pub record Keeps (P : Database → Type 0) : Type 0 where
    pub inserting :
        (d : Database) (o : CreateObservation) (id : String) (now : ℕ)
        → IsClean env.redact_all o
        → has_id id d.observations ≡ false
        → P d
        → P (insert_observation env d o id now)
    pub embedding :
        (d : Database) (v : String × Text) → P d → P (record d { vectors = d.vectors ++ v ∷ [] })
    pub summarizing :
        (d : Database) (i : CreateSummary) (id : String) (now : ℕ)
        → P d
        → P (insert_summary env d i id now)
    pub pruning : (d : Database) (days now : ℕ) → P d → P (prune env d days now)

  abbrev pub Holds : (Database → Type 0) → Option Database → Type 0
  Holds P none = Unit
  Holds P (some d) = P d

module _ (env : Env) (P : Database → Type 0) (k : Keeps env P) where
  observe_new-Keeps :
      (s : MemoryStore) (d : Database) (o : CreateObservation) (id : String) (now : ℕ)
      → IsClean env.redact_all o
      → Holds env P s.db
      → P d
      → Holds env P (observe_new env s d o id now).1.db
  unfolding observe_new
  observe_new-Keeps s d o id now c hs hd =
      let wanted = d.total_bytes + byte_length o.content in
      if_elim (λ (r : Call String). Holds env P r.1.db) (ltb s.max_total_bytes wanted) _ _
        (λ over. hs)
        (λ within.
          if_elim (λ (r : Call String). Holds env P r.1.db) (has_id id d.observations) _ _
            (λ taken. hs) (λ fresh. k.inserting d o id now c fresh hd))

  observe_found-Keeps :
      (s : MemoryStore) (d : Database) (o : CreateObservation) (id : String) (now : ℕ)
      (found : Option String)
      → IsClean env.redact_all o
      → Holds env P s.db
      → P d
      → Holds env P (observe_found env s d o id now found).1.db
  unfolding observe_found
  observe_found-Keeps s d o id now none c hs hd = observe_new-Keeps s d o id now c hs hd
  observe_found-Keeps s d o id now (some old) c hs hd = hs

  observe_validated-Keeps :
      (s : MemoryStore) (d : Database) (v : Validation) (id : String) (now : ℕ)
      → ((o : CreateObservation) → v ≡ valid o → IsClean env.redact_all o)
      → Holds env P s.db
      → P d
      → Holds env P (observe_validated env s d v id now).1.db
  unfolding observe_validated
  observe_validated-Keeps s d (invalid code) id now c hs hd = hs
  observe_validated-Keeps s d (valid o) id now c hs hd =
      observe_found-Keeps s d o id now (existing env s d (env.sha256 o.content) now) (c o refl) hs
        hd

  observe_in-Keeps :
      (s : MemoryStore) (d : Option Database) (i : ObservationInput) (id : String) (now : ℕ)
      → Holds env P s.db
      → Holds env P d
      → Holds env P (observe_in env s d i id now).1.db
  unfolding observe_in
  observe_in-Keeps s none i id now hs hd = hs
  observe_in-Keeps s (some d) i id now hs hd =
      observe_validated-Keeps s d (validate_observation env.redact_all i) id now
        (λ o e.
          let (fits, same, more) = validate_observation-IsClean env.redact_all i o e in
          (with_defaults i, fits, same, more))
        hs hd

  insert_vector-Keeps :
      (s : MemoryStore) (d : Database) (o : Option Observation)
      → Holds env P s.db
      → P d
      → Holds env P (insert_vector s d o).db
  unfolding insert_vector
  insert_vector-Keeps s d none hs hd = hs
  insert_vector-Keeps s d (some o) hs hd =
      k.embedding d (o.id, o.input.title ++ 32 ∷ o.input.content) hd

  embed_in-Keeps :
      (s : MemoryStore) (d : Option Database) (id : String)
      → Holds env P s.db
      → Holds env P d
      → Holds env P (embed_in s d id).db
  unfolding embed_in
  embed_in-Keeps s none id hs hd = hs
  embed_in-Keeps s (some d) id hs hd =
      insert_vector-Keeps s d (find_observation id d.observations) hs hd

  embed_result-Keeps :
      (works : Bool) (c : Call String)
      → Holds env P c.1.db
      → Holds env P (embed_result works c).1.db
  unfolding embed_result
  embed_result-Keeps works (thrown e, s) h = h
  embed_result-Keeps works (returned id, s) h =
      if_elim (λ (r : Call String). Holds env P r.1.db) (not s.vec_enabled) _ _ (λ off. h)
        (λ on.
          if_elim (λ (r : Call String). Holds env P r.1.db) works (returned id, embed_in s s.db id)
            (thrown embedding_failed, s) (λ good. embed_in-Keeps s s.db id h h) (λ failed. h))

  write_summary_in-Keeps :
      (s : MemoryStore) (d : Option Database) (i : CreateSummary) (id : String) (now : ℕ)
      → Holds env P s.db
      → Holds env P d
      → Holds env P (write_summary_in env s d i id now).1.db
  unfolding write_summary_in
  write_summary_in-Keeps s none i id now hs hd = hs
  write_summary_in-Keeps s (some d) i id now hs hd =
      let wanted = d.total_bytes + summary_bytes env i in
      if_elim (λ (r : Call String). Holds env P r.1.db) (not (fits_summary env.is_uuid i)) _ _
        (λ refused. hs)
        (λ fits.
          if_elim (λ (r : Call String). Holds env P r.1.db) (ltb s.max_total_bytes wanted) _ _
            (λ over. hs)
            (λ within.
              if_elim (λ (r : Call String). Holds env P r.1.db) (has_summary_id id d.summaries) _ _
                (λ taken. hs) (λ fresh. k.summarizing d i id now hd)))

  prune_in-Keeps :
      (s : MemoryStore) (d : Option Database) (days now : ℕ)
      → Holds env P s.db
      → Holds env P d
      → Holds env P (prune_in env s d days now).1.db
  unfolding prune_in
  prune_in-Keeps s none days now hs hd = hs
  prune_in-Keeps s (some d) days now hs hd = k.pruning d days now hd

  pub apply-Keeps :
      (s : MemoryStore) (o : Operation) → Holds env P s.db → Holds env P (apply env s o).db
  unfolding apply observe observe_with_embedding write_summary prune_observations close
  apply-Keeps s (observing i id now) h = observe_in-Keeps s s.db i id now h h
  apply-Keeps s (embedding i id now works) h =
      embed_result-Keeps works (observe_in env s s.db i id now)
        (observe_in-Keeps s s.db i id now h h)
  apply-Keeps s (summarizing i id now) h = write_summary_in-Keeps s s.db i id now h h
  apply-Keeps s (pruning days now) h = prune_in-Keeps s s.db days now h h
  apply-Keeps s closing h = tt

  pub run-Keeps :
      (s : MemoryStore) (os : List Operation) → Holds env P s.db → Holds env P (run env s os).db
  unfolding run
  run-Keeps s [] h = h
  run-Keeps s (o ∷ os) h = run-Keeps (apply env s o) os (apply-Keeps s o h)
