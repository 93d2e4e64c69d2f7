-- ===== src/Memory/Store/Accounts.antt =====
-- What the counter of stored bytes stands for.
use secure_openclaw_poc.Common.{
  List, Option, some, none, String, ℕ, ◌+◌, ◌-◌, ◌≤◌, ◌≡◌, ◌++◌, [], ◌∷◌, Bool, filter, arith, refl,
  ◌*◌, if_elim, subst, not,
}
use secure_openclaw_poc.Memory.Schema.{
  ObservationInput, CreateSummary, CreateObservation, Validation, valid, invalid,
  validate_observation,
}
use secure_openclaw_poc.Memory.Store.{
  Env, MemoryStore, Database, Observation, Summary, observe, observe_with_embedding, write_summary,
  prune_observations, prune, close, new, observe_in, observe_validated, observe_found, observe_new,
  insert_observation, insert_summary, write_summary_in, prune_in, embed_in, embed_result,
  insert_vector, existing, find_observation, Call, is_kept, thrown, returned, embedding_failed,
}
use secure_openclaw_poc.Memory.Store.History.{
  Operation, observing, embedding, summarizing, pruning, closing, observation_bytes,
  summaries_bytes, apply, pruned, run, pruned_all, pruned_in,
}

observation_bytes-append :
    (xs ys : List Observation)
    → observation_bytes (xs ++ ys) ≡ observation_bytes xs + observation_bytes ys
unfolding observation_bytes
observation_bytes-append [] ys = omega arith
observation_bytes-append (x ∷ xs) ys = omega (arith, observation_bytes-append xs ys)

observation_bytes-filter :
    (p : Observation → Bool) (xs : List Observation)
    → observation_bytes (filter p xs) ≤ observation_bytes xs
unfolding observation_bytes
observation_bytes-filter p [] = omega arith
observation_bytes-filter p (x ∷ xs) = ground (arith, observation_bytes-filter p xs)

module _ (env : Env) where
  summaries_bytes-append :
      (xs ys : List Summary)
      → summaries_bytes env (xs ++ ys) ≡ summaries_bytes env xs + summaries_bytes env ys
  unfolding summaries_bytes
  summaries_bytes-append [] ys = omega arith
  summaries_bytes-append (x ∷ xs) ys = omega (arith, summaries_bytes-append xs ys)

  -- The counter is the bytes that are stored and those that were pruned before, within the quota.
  abbrev pub IsCounted : (limit before : ℕ) → Database → Type 0
  IsCounted limit before d =
      (d.total_bytes ≡ observation_bytes d.observations + summaries_bytes env d.summaries + before)
      × (d.total_bytes ≤ limit)

  abbrev pub Counted : (before : ℕ) → (limit : ℕ) → Option Database → Type 0
  Counted before limit none = Unit
  Counted before limit (some d) = IsCounted limit before d

  abbrev pub IsInOrder : (limit before : ℕ) → MemoryStore → Type 0
  IsInOrder limit before s = (s.max_total_bytes ≡ limit) × Counted before limit s.db

  observe_new-IsInOrder :
      (limit before : ℕ) (s : MemoryStore) (d : Database) (o : CreateObservation) (id : String)
      (now : ℕ)
      → s.max_total_bytes ≡ limit
      → Counted before limit s.db
      → IsCounted limit before d
      → IsInOrder limit before (observe_new env s d o id now).1
  unfolding observe_new insert_observation observation_bytes
  observe_new-IsInOrder limit before s d o id now l c h = ground (
    arith,
    observation_bytes-append d.observations (
        record {
          id = id;
          input = o;
          content_hash = env.sha256 o.content;
          created_at = env.datetime now;
        }
        ∷ []),
  )

  observe_in-IsInOrder :
      (limit before : ℕ) (s : MemoryStore) (o : Option Database) (i : ObservationInput)
      (id : String) (now : ℕ)
      → s.max_total_bytes ≡ limit
      → Counted before limit s.db
      → Counted before limit o
      → IsInOrder limit before (observe_in env s o i id now).1
  unfolding observe_in
  observe_in-IsInOrder limit before s none i id now l c h = (l, c)
  observe_in-IsInOrder limit before s (some d) i id now l c h =
      validated (validate_observation env.redact_all i)
    where
      found :
          (o : CreateObservation) (f : Option String)
          → IsInOrder limit before (observe_found env s d o id now f).1
      found o none = observe_new-IsInOrder limit before s d o id now l c h
      found o (some old) = (l, c)

      validated : (v : Validation) → IsInOrder limit before (observe_validated env s d v id now).1
      validated (invalid code) = (l, c)
      validated (valid o) = found o (existing env s d (env.sha256 o.content) now)

  insert_vector-IsInOrder :
      (limit before : ℕ) (s : MemoryStore) (d : Database) (o : Option Observation)
      → s.max_total_bytes ≡ limit
      → Counted before limit s.db
      → IsCounted limit before d
      → IsInOrder limit before (insert_vector s d o)
  unfolding insert_vector
  insert_vector-IsInOrder limit before s d none l c h = (l, c)
  insert_vector-IsInOrder limit before s d (some o) l c h = (l, h)

  embed_in-IsInOrder :
      (limit before : ℕ) (s : MemoryStore) (o : Option Database) (id : String)
      → s.max_total_bytes ≡ limit
      → Counted before limit s.db
      → Counted before limit o
      → IsInOrder limit before (embed_in s o id)
  unfolding embed_in
  embed_in-IsInOrder limit before s none id l c h = (l, c)
  embed_in-IsInOrder limit before s (some d) id l c h =
      insert_vector-IsInOrder limit before s d (find_observation id d.observations) l c h

  embed_result-IsInOrder :
      (limit before : ℕ) (works : Bool) (c : Call String)
      → IsInOrder limit before c.1
      → IsInOrder limit before (embed_result works c).1
  unfolding embed_result
  embed_result-IsInOrder limit before works (thrown e, s) h = h
  embed_result-IsInOrder limit before works (returned id, s) h =
      if_elim (λ (r : Call String). IsInOrder limit before r.1) (not s.vec_enabled) _ _ (λ off. h)
        (λ on.
          if_elim (λ (r : Call String). IsInOrder limit before r.1) works
            (returned id, embed_in s s.db id) (thrown embedding_failed, s)
            (λ good. embed_in-IsInOrder limit before s s.db id h.0 h.1 h.1) (λ failed. h))

  write_summary_in-IsInOrder :
      (limit before : ℕ) (s : MemoryStore) (o : Option Database) (i : CreateSummary) (id : String)
      (now : ℕ)
      → s.max_total_bytes ≡ limit
      → Counted before limit s.db
      → Counted before limit o
      → IsInOrder limit before (write_summary_in env s o i id now).1
  unfolding write_summary_in insert_summary summaries_bytes
  write_summary_in-IsInOrder limit before s none i id now l c h = (l, c)
  write_summary_in-IsInOrder limit before s (some d) i id now l c h = ground (
    arith,
    summaries_bytes-append d.summaries
        (record { id = id; input = i; created_at = env.datetime now } ∷ []),
  )

  prune_in-IsInOrder :
      (limit before : ℕ) (s : MemoryStore) (o : Option Database) (days now : ℕ)
      → s.max_total_bytes ≡ limit
      → Counted before limit s.db
      → Counted before limit o
      → IsInOrder limit (before + pruned_in env o days now) (prune_in env s o days now).1
  unfolding prune_in pruned_in prune
  prune_in-IsInOrder limit before s none days now l c h =
      let e : before + 0 ≡ before = omega arith in rw e (l, c)
  prune_in-IsInOrder limit before s (some d) days now l c h = ground (
    arith,
    observation_bytes-filter (is_kept env d.summaries (env.datetime (now - days * 86400)))
        d.observations,
  )

  apply-IsInOrder :
      (limit before : ℕ) (s : MemoryStore) (o : Operation)
      → IsInOrder limit before s
      → IsInOrder limit (before + pruned env s o) (apply env s o)
  unfolding apply pruned observe observe_with_embedding write_summary prune_observations close
  apply-IsInOrder limit before s (observing i id now) h =
      let e : before + 0 ≡ before = omega arith in
      rw e (observe_in-IsInOrder limit before s s.db i id now h.0 h.1 h.1)
  apply-IsInOrder limit before s (embedding i id now works) h =
      let e : before + 0 ≡ before = omega arith in
      rw e (
        embed_result-IsInOrder limit before works (observe_in env s s.db i id now)
          (observe_in-IsInOrder limit before s s.db i id now h.0 h.1 h.1))
  apply-IsInOrder limit before s (summarizing i id now) h =
      let e : before + 0 ≡ before = omega arith in
      rw e (write_summary_in-IsInOrder limit before s s.db i id now h.0 h.1 h.1)
  apply-IsInOrder limit before s (pruning days now) h =
      prune_in-IsInOrder limit before s s.db days now h.0 h.1 h.1
  apply-IsInOrder limit before s closing h = (h.0, tt)

  run_from-IsInOrder :
      (limit before : ℕ) (s : MemoryStore) (os : List Operation)
      → IsInOrder limit before s
      → IsInOrder limit (before + pruned_all env s os) (run env s os)
  unfolding run pruned_all
  run_from-IsInOrder limit before s [] h = let e : before + 0 ≡ before = omega arith in rw e h
  run_from-IsInOrder limit before s (o ∷ os) h =
      let first = pruned env s o in
      let later = pruned_all env (apply env s o) os in
      let e : before + (first + later) ≡ before + first + later = omega arith in
      rw e (
        run_from-IsInOrder limit (before + pruned env s o) (apply env s o) os
          (apply-IsInOrder limit before s o h))

  -- After any calls on a new store, if it was not closed, the counter of stored bytes is what the
  -- stored observations and summaries count for, and all that was ever pruned, and is within the
  -- quota.
  pub run-IsCounted :
      (limit window : ℕ) (vec_enabled : Bool) (os : List Operation) (d : Database)
      → (run env (new limit window vec_enabled) os).db ≡ some d
      → (d.total_bytes
          ≡ observation_bytes d.observations
            + summaries_bytes env d.summaries
            + pruned_all env (new limit window vec_enabled) os)
        × (d.total_bytes ≤ limit)
  unfolding new observation_bytes summaries_bytes
  run-IsCounted limit window vec_enabled os d h =
      let before = pruned_all env (new limit window vec_enabled) os in
      let e : 0 + before ≡ before = omega arith in
      subst (λ k. IsCounted limit k d) e
        (subst (Counted (0 + before) limit) h
          (run_from-IsInOrder limit 0 (new limit window vec_enabled) os (refl, omega arith)).1)
