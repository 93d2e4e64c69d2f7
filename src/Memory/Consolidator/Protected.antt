-- ===== src/Memory/Consolidator/Protected.antt =====
-- The observations of a session that was summarized stay.

use secure_openclaw_poc.Memory.Queries.Results.{All-any_self}
use secure_openclaw_poc.Memory.Dates.{text_ltb}
use secure_openclaw_poc.Memory.Store.History.{apply, pruning, run}
use secure_openclaw_poc.Memory.Store.Summaries.{any-append, write_summary-Written}
use secure_openclaw_poc.Common.{
  ◌++◌, All, Bool, Bool-cases, List, String, Text, [], any, ap, append-nil, append_assoc, arith,
  filter, inl, inr, refl, str_eq, sym, text_eq, true, ◌||◌, ◌∙◌, ◌∷◌, ◌≡◌, ◌*◌, ◌-◌, All-map,
  Option, false, map, none, not, some, subst, ℕ,
}
use secure_openclaw_poc.Memory.Queries.{insert_asc, order_asc, get_observations_by_session}
use secure_openclaw_poc.Memory.Schema.{
  ObservationType, context, decision, error, learning, tool_call,
}
use secure_openclaw_poc.Memory.Store.{
  Observation, Database, Env, Error, MemoryStore, Summary, insert_summary, is_kept, is_summarized,
  prune, prune_in, prune_observations, with_db, write_summary,
}
use secure_openclaw_poc.Memory.Consolidator.{
  Lists, sort_in, take_all, take_in, session_summary, returned, no_lists, Outcome,
}

abbrev pub of_session : Text → Observation → Bool
of_session session_id o = text_eq o.input.session_id session_id

abbrev pub by_date : Observation → Text
by_date o = o.created_at

any-insert_asc :
    (p : Observation → Bool) (x : Observation) (xs : List Observation)
    → any p (insert_asc by_date x xs) ≡ (p x || any p xs)
unfolding insert_asc
any-insert_asc p x [] = refl
any-insert_asc p x (y ∷ ys) = ground (arith, any-insert_asc p x ys)

any-order_asc :
    (p : Observation → Bool) (xs : List Observation) → any p (order_asc by_date xs) ≡ any p xs
unfolding order_asc
any-order_asc p [] = refl
any-order_asc p (x ∷ xs) =
    ground (arith, any-insert_asc p x (order_asc by_date xs), any-order_asc p xs)

ids_of : List Observation → List String
ids_of [] = []
ids_of (o ∷ os) = o.id ∷ ids_of os

any-ids_of :
    (id : String) (os : List Observation)
    → any (λ j. str_eq j id) (ids_of os) ≡ any (λ (o : Observation). str_eq o.id id) os
unfolding ids_of
any-ids_of id [] = refl
any-ids_of id (o ∷ os) = ground (arith, any-ids_of id os)

observation_ids-sort_in :
    (t : ObservationType) (title : Text) (l : Lists)
    → (sort_in t title l).observation_ids ≡ l.observation_ids
observation_ids-sort_in tool_call title l = refl
observation_ids-sort_in learning title l = refl
observation_ids-sort_in error title l = refl
observation_ids-sort_in decision title l = refl
observation_ids-sort_in context title l = refl

observation_ids-take_all :
    (os : List Observation) (l : Lists)
    → (take_all os l).observation_ids ≡ l.observation_ids ++ ids_of os
unfolding take_all ids_of
observation_ids-take_all [] l = sym (append-nil l.observation_ids)
observation_ids-take_all (o ∷ os) l =
    observation_ids-take_all os (take_in o l)
    ∙ ap (λ (ids : List String). ids ++ ids_of os)
        (observation_ids-sort_in o.input.type o.input.title
          (record l { observation_ids = l.observation_ids ++ o.id ∷ [] }))
    ∙ append_assoc l.observation_ids (o.id ∷ []) (ids_of os)

filter-filter :
    (wanted keep : Observation → Bool) (os : List Observation)
    → All (λ (o : Observation). keep o ≡ true) (filter wanted os)
    → filter wanted (filter keep os) ≡ filter wanted os
filter-filter wanted keep [] h = refl
filter-filter wanted keep (o ∷ os) h = elim (Bool-cases (wanted o)) [
  | inl w ↦
      let all : All (λ (p : Observation). keep p ≡ true) (o ∷ filter wanted os) = rw w at h in
      rw (all.0, w) (ap (λ ps. o ∷ ps) (filter-filter wanted keep os all.1))
  | inr w ↦
      let all : All (λ (p : Observation). keep p ≡ true) (filter wanted os) = rw w at h in
      elim (Bool-cases (keep o)) [
        | inl k ↦ rw (k, w) (filter-filter wanted keep os all)
        | inr k ↦ rw (k, w) (filter-filter wanted keep os all)
      ]
]

module _ (env : Env) (session_id : Text) where
  -- The rows of the session, each named by a summary.
  abbrev IsProtected : List Observation → Option Database → Type 0
  IsProtected rows none = ⊥
  IsProtected rows (some d) =
      (filter (of_session session_id) d.observations ≡ rows)
      × All (λ (o : Observation). is_summarized env d.summaries o.id ≡ true) rows

  prune_in-IsProtected :
      (rows : List Observation) (s : MemoryStore) (o : Option Database) (days now : ℕ)
      → IsProtected rows o
      → IsProtected rows (prune_in env s o days now).1.db
  unfolding prune_in prune
  prune_in-IsProtected rows s none days now h = absurd h
  prune_in-IsProtected rows s (some d) days now h =
      let since = env.datetime (now - days * 86400) in
      let keep = is_kept env d.summaries since in
      let all : All (λ (o : Observation). keep o ≡ true) rows =
        All-map
          (λ (o : Observation) (r : is_summarized env d.summaries o.id ≡ true).
            kept_if_summarized (text_ltb o.created_at since) (is_summarized env d.summaries o.id) r)
          rows h.1 in
      (
        filter-filter (of_session session_id) keep d.observations
              (subst (All (λ (o : Observation). keep o ≡ true)) (sym h.0) all)
            ∙ h.0,
        h.1,
      )
    where
      kept_if_summarized :
          (is_old summarized : Bool) → summarized ≡ true → (not is_old || summarized) ≡ true
      kept_if_summarized true summarized r = r
      kept_if_summarized false summarized r = refl

  prunes-IsProtected :
      (rows : List Observation) (s : MemoryStore) (ps : List (ℕ × ℕ))
      → IsProtected rows s.db
      → IsProtected rows (run env s (map (λ (p : ℕ × ℕ). pruning p.0 p.1) ps)).db
  unfolding run apply prune_observations
  prunes-IsProtected rows s [] h = h
  prunes-IsProtected rows s (p ∷ ps) h =
      prunes-IsProtected rows (prune_observations env s p.0 p.1).1 ps
        (prune_in-IsProtected rows s s.db p.0 p.1 h)

  rows_of :
      (s : MemoryStore) (d : Database) (os : List Observation)
      → s.db ≡ some d
      → get_observations_by_session s session_id ≡ returned os
      → order_asc by_date (filter (of_session session_id) d.observations) ≡ os
  unfolding get_observations_by_session
  rows_of s d os e h =
      let same : ◌≡◌ {A = Outcome Error (List Observation)}
          (returned (order_asc by_date (filter (of_session session_id) d.observations)))
          (returned os) =
        subst
          (λ (o : Option Database).
            with_db o (λ (c : Database).
              returned (order_asc by_date (filter (of_session session_id) c.observations)))
            ≡ returned os)
          e h in
      cc

  read_protected :
      (s : MemoryStore) (o : Option Database) (rows : List Observation)
      → s.db ≡ o
      → IsProtected rows o
      → get_observations_by_session s session_id ≡ returned (order_asc by_date rows)
  unfolding get_observations_by_session
  read_protected s none rows e h = absurd h
  read_protected s (some d) rows e h =
      rw e (ap (λ (xs : List Observation). returned (order_asc by_date xs)) h.0)

  named :
      (project iso_now : Text) (d : Database) (os : List Observation) (id : String) (date : Text)
      → order_asc by_date (filter (of_session session_id) d.observations) ≡ os
      → All
          (λ (o : Observation).
            is_summarized env
              (d.summaries
                ++ record {
                  id = id;
                  input = session_summary session_id project iso_now os;
                  created_at = date;
                }
                  ∷ [])
              o.id
            ≡ true)
          (filter (of_session session_id) d.observations)
  unfolding session_summary
  named project iso_now d os id date e =
      let rows = filter (of_session session_id) d.observations in
      let i = session_summary session_id project iso_now os in
      let row : Summary = record { id = id; input = i; created_at = date } in
      let ids : i.observation_ids ≡ ids_of os = observation_ids-take_all os no_lists in
      All-map
        (λ (o : Observation) (r : any (λ (p : Observation). str_eq p.id o.id) rows ≡ true).
          let same = λ (p : Observation). str_eq p.id o.id in
          let found : any (λ j. str_eq j o.id) i.observation_ids ≡ true =
            ap (any (λ j. str_eq j o.id)) ids
            ∙ any-ids_of o.id os
            ∙ ap (any same) (sym e)
            ∙ any-order_asc same rows
            ∙ r in
          any-append (λ (m : Summary). any (λ j. str_eq j o.id) m.input.observation_ids) d.summaries
            row
          ∙ ground (arith, found))
        rows (All-any_self rows)

  -- Once the summary of a session is written, the session reads the same after any prunings, however
  -- old its observations are by then.
  pub session_summary-protects :
      (s s' : MemoryStore) (project iso_now : Text) (os : List Observation) (id x : String)
      (now : ℕ) (prunes : List (ℕ × ℕ))
      → get_observations_by_session s session_id ≡ returned os
      → write_summary env s (session_summary session_id project iso_now os) id now
        ≡ (returned x, s')
      → get_observations_by_session
          (run env s' (map (λ (p : ℕ × ℕ). pruning p.0 p.1) prunes))
          session_id
        ≡ returned os
  unfolding insert_summary
  session_summary-protects s s' project iso_now os id x now prunes h w =
      let i = session_summary session_id project iso_now os in
      let (d, open_db, stored, same_id, fits) = write_summary-Written env s i id now x s' w in
      let rows = filter (of_session session_id) d.observations in
      let e = rows_of s d os open_db h in
      let start : IsProtected rows s'.db =
        subst (λ (t : MemoryStore). IsProtected rows t.db) (sym stored)
          (refl, named project iso_now d os id (env.datetime now) e) in
      let last = run env s' (map (λ (p : ℕ × ℕ). pruning p.0 p.1) prunes) in
      read_protected last last.db rows refl (prunes-IsProtected rows s' prunes start)
      ∙ ap (λ (xs : List Observation). returned xs) e
