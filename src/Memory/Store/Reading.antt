-- ===== src/Memory/Store/Reading.antt =====
-- What is read after an observation was stored.

use secure_openclaw_poc.Memory.Store.Keeping.{validate_observation-IsClean}
use secure_openclaw_poc.Memory.Queries.{get_by_id}
use secure_openclaw_poc.Common.{
  ◌++◌, ◌-◌, List, String, Text, [], arith, eq_iff, false, none, refl, some, str_eq, true, ℕ, ◌∷◌,
  ◌≡◌, ◌+◌, ◌<◌, Option, ap, subst, sym, ◌∙◌, ◌≤◌, ◌==◌, Bool-cases, inl, inr, codes, get_or,
}
use secure_openclaw_poc.Memory.Dates.{text_ltb}
use secure_openclaw_poc.Memory.Store.{
  Database, Env, MemoryStore, Observation, dedup_check, existing, find_observation, has_id,
  insert_observation, observe_new, returned, Call, Error, invalid_observation, new_observation,
  observe, observe_found, observe_in, observe_validated, thrown, Outcome,
}
use secure_openclaw_poc.Memory.Schema.{
  CreateObservation, ObservationInput, Validation, invalid, valid, validate_observation,
}

text_ltb_trans : (a b c : Text) → text_ltb a b ≡ true → text_ltb b c ≡ true → text_ltb a c ≡ true
unfolding text_ltb
text_ltb_trans a [] c h k = cc
text_ltb_trans a (y ∷ ys) [] h k = cc
text_ltb_trans [] (y ∷ ys) (z ∷ zs) h k = refl
text_ltb_trans (x ∷ xs) (y ∷ ys) (z ∷ zs) h k = ground (arith, text_ltb_trans xs ys zs)

-- A window that starts later finds no more.
dedup_check-later :
    (hash : String) (since later : Text) (os : List Observation)
    → ((t : Text) → text_ltb later t ≡ true → text_ltb since t ≡ true)
    → dedup_check hash since os ≡ none
    → dedup_check hash later os ≡ none
unfolding dedup_check
dedup_check-later hash since later [] m h = refl
dedup_check-later hash since later (o ∷ os) m h =
    ground (arith, m o.created_at, dedup_check-later hash since later os m)

dedup_check-append :
    (hash : String) (since : Text) (os : List Observation) (o : Observation)
    → dedup_check hash since os ≡ none
    → str_eq o.content_hash hash ≡ true
    → text_ltb since o.created_at ≡ true
    → dedup_check hash since (os ++ o ∷ []) ≡ some o.id
unfolding dedup_check
dedup_check-append hash since [] o h same recent = ground arith
dedup_check-append hash since (p ∷ os) o h same recent =
    ground (arith, dedup_check-append hash since os o)

dedup_check-has_id :
    (hash : String) (since : Text) (os : List Observation) (id : String)
    → dedup_check hash since os ≡ some id
    → has_id id os ≡ true
unfolding dedup_check
dedup_check-has_id hash since [] id h = cc
dedup_check-has_id hash since (o ∷ os) id h =
    ground (arith, dedup_check-has_id hash since os id, eq_iff o.id id)

find_observation-append :
    (id : String) (os : List Observation) (o : Observation)
    → has_id id os ≡ false
    → o.id ≡ id
    → find_observation id (os ++ o ∷ []) ≡ some o
unfolding find_observation
find_observation-append id [] o h e = ground (arith, eq_iff o.id id)
find_observation-append id (p ∷ os) o h e = ground (arith, find_observation-append id os o)

module _ (env : Env) where
  -- What an observation that is stored under its own id leaves.
  abbrev pub Stored :
      MemoryStore
      → Database
      → CreateObservation
      → (id : String) (now : ℕ) → (s' : MemoryStore) → Type 0
  Stored s d o id now s' =
      (existing env s d (env.sha256 o.content) now ≡ none)
      × (s' ≡ record s { db = some (insert_observation env d o id now) })

  observe_new-Stored :
      (s : MemoryStore) (d : Database) (o : CreateObservation) (id : String) (now : ℕ)
      (s' : MemoryStore)
      → observe_new env s d o id now ≡ (returned id, s')
      → s' ≡ record s { db = some (insert_observation env d o id now) }
  unfolding observe_new
  observe_new-Stored s d o id now s' h = ground (arith, h)

  existing-has_id :
      (s : MemoryStore) (d : Database) (hash : String) (now : ℕ) (id : String)
      → existing env s d hash now ≡ some id
      → has_id id d.observations ≡ true
  unfolding existing
  existing-has_id s d hash now id h = ground (
    arith,
    h,
    dedup_check-has_id hash (env.datetime (now - s.dedup_window_seconds)) d.observations id,
  )

  observe_found-Stored :
      (s : MemoryStore) (d : Database) (o : CreateObservation) (id : String) (now : ℕ)
      (s' : MemoryStore) (found : Option String)
      → existing env s d (env.sha256 o.content) now ≡ found
      → has_id id d.observations ≡ false
      → observe_found env s d o id now found ≡ (returned id, s')
      → Stored s d o id now s'
  unfolding observe_found
  observe_found-Stored s d o id now s' none e fresh h = (e, observe_new-Stored s d o id now s' h)
  observe_found-Stored s d o id now s' (some old) e fresh h =
      let same : ◌≡◌ {A = Outcome Error String} (returned old) (returned id) =
        ap (λ (r : Call String). r.0) h in
      let old_is : has_id old d.observations ≡ true =
        existing-has_id s d (env.sha256 o.content) now old e in
      let eq : old ≡ id = cc in cc

  observe_validated-Stored :
      (s : MemoryStore) (d : Database) (v : Validation) (id : String) (now : ℕ) (s' : MemoryStore)
      → has_id id d.observations ≡ false
      → observe_validated env s d v id now ≡ (returned id, s')
      → (o : CreateObservation) × (v ≡ valid o) × Stored s d o id now s'
  unfolding observe_validated
  observe_validated-Stored s d (invalid code) id now s' fresh h =
      let same : ◌≡◌ {A = Outcome Error String} (thrown (invalid_observation code)) (returned id) =
        ap (λ (r : Call String). r.0) h in
      cc
  observe_validated-Stored s d (valid o) id now s' fresh h =
      let (none_found, stored) =
        observe_found-Stored s d o id now s' (existing env s d (env.sha256 o.content) now) refl
          fresh h in
      (o, refl, (none_found, stored))

  observe-Stored :
      (s : MemoryStore) (d : Database) (i : ObservationInput) (id : String) (now : ℕ)
      (s' : MemoryStore)
      → s.db ≡ some d
      → has_id id d.observations ≡ false
      → observe env s i id now ≡ (returned id, s')
      → (o : CreateObservation) × (validate_observation env.redact_all i ≡ valid o)
        × Stored s d o id now s'
  unfolding observe observe_in
  observe-Stored s d i id now s' e fresh h =
      observe_validated-Stored s d (validate_observation env.redact_all i) id now s' fresh
        (subst (λ (o : Option Database). observe_in env s o i id now ≡ (returned id, s')) e h)

  -- What was stored under a new id is found under it: the fields of the input, with `claude-code` for a
  -- missing agent and no concepts or files for missing ones, the title and the content redacted, and with
  -- the hash of the redacted content and its date.
  pub observe-get_by_id :
      (s : MemoryStore) (d : Database) (i : ObservationInput) (id : String) (now : ℕ)
      (s' : MemoryStore)
      → s.db ≡ some d
      → has_id id d.observations ≡ false
      → observe env s i id now ≡ (returned id, s')
      → get_by_id s' id
        ≡ returned (
            some (record {
              id = id;
              input = record {
                project = i.project;
                session_id = i.session_id;
                agent_id = get_or i.agent_id (codes "claude-code");
                source = i.source;
                type = i.type;
                title = env.redact_all i.title;
                content = env.redact_all i.content;
                concepts = get_or i.concepts [];
                files_involved = get_or i.files_involved [];
              };
              content_hash = env.sha256 (env.redact_all i.content);
              created_at = env.datetime now;
            }))
  unfolding get_by_id insert_observation
  observe-get_by_id s d i id now s' e fresh h =
      let (o, v, (free, stored)) = observe-Stored s d i id now s' e fresh h in
      let (fits, same, more) = validate_observation-IsClean env.redact_all i o v in
      let found =
        find_observation-append id d.observations (new_observation env o id now) fresh refl in
      rw stored (rw found (ap (λ p. returned (some (new_observation env p id now))) same))

  dedup_starts :
      ((m n : ℕ) → m < n → text_ltb (env.datetime m) (env.datetime n) ≡ true)
      → (m n : ℕ) → m ≤ n
      → (t : Text) → text_ltb (env.datetime n) t ≡ true
      → text_ltb (env.datetime m) t ≡ true
  dedup_starts mono m n h t k = elim (Bool-cases (m == n)) [
    | inl same ↦
        let e : n ≡ m = ground (arith, same) in subst (λ q. text_ltb (env.datetime q) t ≡ true) e k
    | inr less ↦
        text_ltb_trans (env.datetime m) (env.datetime n) t (mono m n (ground (arith, less))) k
  ]

  existing-none :
      (s : MemoryStore) (d : Database) (hash : String) (now : ℕ)
      → existing env s d hash now ≡ none
      → 0 < s.dedup_window_seconds
      → dedup_check hash (env.datetime (now - s.dedup_window_seconds)) d.observations ≡ none
  unfolding existing
  existing-none s d hash now h p = ground (arith, h)

  existing-some :
      (s : MemoryStore) (d : Database) (hash : String) (now : ℕ) (id : String)
      → 0 < s.dedup_window_seconds
      → dedup_check hash (env.datetime (now - s.dedup_window_seconds)) d.observations ≡ some id
      → existing env s d hash now ≡ some id
  unfolding existing
  existing-some s d hash now id p h = ground (arith, h)

  -- An observation of the same redacted content, by whomever and for whatever project, that comes
  -- before the window has passed gets the id of the first one and changes nothing, if later instants
  -- have later dates.
  pub observe-again :
      ((m n : ℕ) → m < n → text_ltb (env.datetime m) (env.datetime n) ≡ true)
      → (s : MemoryStore) (d : Database) (i j : ObservationInput) (id other : String)
        (now later : ℕ) (s' : MemoryStore)
      → s.db ≡ some d
      → has_id id d.observations ≡ false
      → observe env s i id now ≡ (returned id, s')
      → 0 < now
      → now ≤ later
      → later < now + s.dedup_window_seconds
      → (o : CreateObservation) → validate_observation env.redact_all j ≡ valid o
      → o.content ≡ env.redact_all i.content
      → observe env s' j other later ≡ (returned id, s')
  unfolding observe observe_in observe_validated observe_found insert_observation
  observe-again mono s d i j id other now later s' e fresh h start from within o w same =
      let (p, v, (free, stored)) = observe-Stored s d i id now s' e fresh h in
      let (fits, same_p, more) = validate_observation-IsClean env.redact_all i p v in
      let same_content : p.content ≡ o.content = ap (λ q. q.content) same_p ∙ sym same in
      let row = new_observation env p id now in
      let window = s.dedup_window_seconds in
      let hash = env.sha256 o.content in
      let none_now : dedup_check hash (env.datetime (now - window)) d.observations ≡ none =
        subst (λ c. dedup_check (env.sha256 c) (env.datetime (now - window)) d.observations ≡ none)
          same_content (existing-none s d (env.sha256 p.content) now free (omega arith)) in
      let none_later : dedup_check hash (env.datetime (later - window)) d.observations ≡ none =
        dedup_check-later hash (env.datetime (now - window)) (env.datetime (later - window))
          d.observations (dedup_starts mono (now - window) (later - window) (omega arith))
          none_now in
      let hit =
        dedup_check-append hash (env.datetime (later - window)) d.observations row none_later
          ((eq_iff (env.sha256 p.content) hash).1 (ap env.sha256 same_content))
          (mono (later - window) now (omega arith)) in
      let found =
        existing-some (record s { db = some (insert_observation env d p id now) })
          (insert_observation env d p id now) hash later id (omega arith) hit in
      rw stored (rw w (rw found refl))
