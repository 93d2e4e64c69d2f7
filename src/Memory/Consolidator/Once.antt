-- ===== src/Memory/Consolidator/Once.antt =====
-- A day is consolidated once.

use secure_openclaw_poc.Memory.Store.Summaries.{write_summary-Written, any-append}
use secure_openclaw_poc.Memory.Dates.{text_leb_refl}
use secure_openclaw_poc.Memory.Queries.{get_summaries_by_period, has_summary_for_period, in_period}
use secure_openclaw_poc.Common.{
  List, Option, String, Text, ap, none, refl, some, ℕ, ◌≡◌, ◌++◌, ◌<◌, Bool, [], any, arith, false,
  length, true, ◌∙◌, ◌∷◌, ◌≤◌, Bool-cases, inl, inr, subst, sym,
}
use secure_openclaw_poc.Memory.Schema.{CreateSummary, daily, fits_summary, session}
use secure_openclaw_poc.Memory.Consolidator.{
  Consolidation, ConsolidationResult, Failure, as_result, day_summary, invalid_date, of_store,
  with_day, written, consolidate_day, merged, skipped, with_done, with_sessions, returned, Outcome,
  thrown,
}
use secure_openclaw_poc.Memory.Store.{
  Call, Env, MemoryStore, Summary, write_summary, Error, insert_summary, invalid_summary, Database,
  with_db, write_summary_in,
}

module _ (env : Env) (day_of : Text → Option Text) where
  as_result-written :
      (c : Call String) (x : String) (s' : MemoryStore)
      → as_result c ≡ (returned (written x), s')
      → c ≡ (returned x, s')
  as_result-written (thrown e, s) x s' h =
      let same : ◌≡◌ {A = Outcome Failure ConsolidationResult} (thrown (of_store e))
          (returned (written x)) =
        ap (λ (r : Consolidation). r.0) h in
      cc
  as_result-written (returned id, s) x s' h =
      let same : ◌≡◌ {A = Outcome Failure ConsolidationResult} (returned (written id))
          (returned (written x)) =
        ap (λ (r : Consolidation). r.0) h in
      let left : s ≡ s' = ap (λ (r : Consolidation). r.1) h in
      let id_same : id ≡ x = cc in rw id_same (rw left refl)

  -- The store is the old one with a summary of the day.
  abbrev pub IsConsolidated :
      MemoryStore
      → (start end_ : Text) → (id : String) (now : ℕ) → (x : String) (s' : MemoryStore) → Type 0
  IsConsolidated s start end_ id now x s' =
      (i : CreateSummary) × (i.scope ≡ daily)
      × (i.period_start ≡ start)
      × (i.period_end ≡ end_)
      × (write_summary env s i id now ≡ (returned x, s'))

  module _ (s : MemoryStore) (project start end_ : Text) (id : String) (now : ℕ) (x : String)
      (s' : MemoryStore) where
    with_day-written :
        (first : Summary) (ms : List Summary) (o : Option Text)
        → with_day env day_of s project start end_ id now first ms o ≡ (returned (written x), s')
        → IsConsolidated s start end_ id now x s'
    unfolding with_day day_summary
    with_day-written first ms none h =
        let same : ◌≡◌ {A = Outcome Failure ConsolidationResult} (thrown invalid_date)
            (returned (written x)) =
          ap (λ (r : Consolidation). r.0) h in
        cc
    with_day-written first ms (some day) h =
        let i = day_summary project start end_ day first ms in
        (i, refl, refl, refl, as_result-written (write_summary env s i id now) x s' h)

    with_sessions-written :
        (o : Outcome Error (List Summary))
        → with_sessions env day_of s project start end_ id now o ≡ (returned (written x), s')
        → IsConsolidated s start end_ id now x s'
    unfolding with_sessions
    with_sessions-written (thrown e) h =
        let same : ◌≡◌ {A = Outcome Failure ConsolidationResult} (thrown (of_store e))
            (returned (written x)) =
          ap (λ (r : Consolidation). r.0) h in
        cc
    with_sessions-written (returned []) h =
        let same : ◌≡◌ {A = Outcome Failure ConsolidationResult} (returned skipped)
            (returned (written x)) =
          ap (λ (r : Consolidation). r.0) h in
        cc
    with_sessions-written (returned (m ∷ ms)) h = with_day-written m ms (day_of start) h

    with_done-written :
        (o : Outcome Error Bool)
        → with_done env day_of s project start end_ id now o ≡ (returned (written x), s')
        → IsConsolidated s start end_ id now x s'
    unfolding with_done
    with_done-written (thrown e) h =
        let same : ◌≡◌ {A = Outcome Failure ConsolidationResult} (thrown (of_store e))
            (returned (written x)) =
          ap (λ (r : Consolidation). r.0) h in
        cc
    with_done-written (returned true) h =
        let same : ◌≡◌ {A = Outcome Failure ConsolidationResult} (returned skipped)
            (returned (written x)) =
          ap (λ (r : Consolidation). r.0) h in
        cc
    with_done-written (returned false) h =
        with_sessions-written (get_summaries_by_period s session start end_) h

  in_period-day :
      (i : CreateSummary) (start end_ : Text) (id : String) (date : Text)
      → i.scope ≡ daily
      → i.period_start ≡ start
      → i.period_end ≡ end_
      → in_period daily start end_ (record { id = id; input = i; created_at = date }) ≡ true
  unfolding in_period
  in_period-day i start end_ id date is_daily starts ends =
      rw is_daily (rw starts (rw ends (ground (arith, text_leb_refl start, text_leb_refl end_))))

  -- Once a range is consolidated, for whichever project, it is skipped from then on, for every
  -- project.
  pub consolidate_day-skips :
      (s : MemoryStore) (project other start end_ : Text) (id later_id : String) (now later : ℕ)
      (x : String) (s' : MemoryStore)
      → consolidate_day env day_of s project start end_ id now ≡ (returned (written x), s')
      → consolidate_day env day_of s' other start end_ later_id later ≡ (returned skipped, s')
  unfolding consolidate_day has_summary_for_period insert_summary with_done
  consolidate_day-skips s project other start end_ id later_id now later x s' h =
      let (i, is_daily, starts, ends, wrote) =
        with_done-written s project start end_ id now x s'
          (has_summary_for_period s daily start end_) h in
      let (d, open_db, stored, same_id, fits) = write_summary-Written env s i id now x s' wrote in
      let row : Summary = record { id = id; input = i; created_at = env.datetime now } in
      let there : any (in_period daily start end_) (d.summaries ++ row ∷ []) ≡ true =
        any-append (in_period daily start end_) d.summaries row
        ∙ ground (arith, in_period-day i start end_ id (env.datetime now) is_daily starts ends) in
      rw stored (rw there refl)

  completed_fits : (i : CreateSummary) → fits_summary env.is_uuid i ≡ true → length i.completed ≤ 20
  unfolding fits_summary
  completed_fits i h = ground (arith, h)

  refused_in :
      (s : MemoryStore) (start end_ : Text) (i : CreateSummary) (id : String) (now : ℕ)
      (o : Option Database)
      → with_db o (λ (d : Database). returned (any (in_period daily start end_) d.summaries))
        ≡ returned false
      → fits_summary env.is_uuid i ≡ false
      → write_summary_in env s o i id now ≡ (thrown invalid_summary, s)
  unfolding write_summary_in
  refused_in s start end_ i id now none h unfit = cc
  refused_in s start end_ i id now (some d) h unfit = rw unfit refl

  too_many_unfit :
      (i : CreateSummary) → 20 < length i.completed → fits_summary env.is_uuid i ≡ false
  too_many_unfit i many = elim (Bool-cases (fits_summary env.is_uuid i)) [
    | inl fits ↦ absurd (omega (arith, completed_fits i fits))
    | inr unfit ↦ unfit
  ]

  completed-day_summary :
      (project start end_ day : Text) (m : Summary) (ms : List Summary)
      → (day_summary project start end_ day m ms).completed
        ≡ merged (λ (i : CreateSummary). i.completed) (m ∷ ms) []
  unfolding day_summary
  completed-day_summary project start end_ day m ms = refl

  -- A day whose sessions name more than twenty different things that were completed is never
  -- consolidated: each attempt throws and writes nothing.
  pub consolidate_day-too_many :
      (s : MemoryStore) (project start end_ day : Text) (id : String) (now : ℕ) (m : Summary)
      (ms : List Summary)
      → has_summary_for_period s daily start end_ ≡ returned false
      → get_summaries_by_period s session start end_ ≡ returned (m ∷ ms)
      → day_of start ≡ some day
      → 20 < length (merged (λ (i : CreateSummary). i.completed) (m ∷ ms) [])
      → consolidate_day env day_of s project start end_ id now
        ≡ (thrown (of_store invalid_summary), s)
  unfolding consolidate_day with_done with_sessions with_day write_summary has_summary_for_period
  consolidate_day-too_many s project start end_ day id now m ms undone sessions a_day many =
      rw undone (
        rw sessions (
          rw a_day (
            let i = day_summary project start end_ day m ms in
            ap as_result (
              refused_in s start end_ i id now s.db undone (
                too_many_unfit i (
                  subst (λ (ts : List Text). 20 < length ts)
                    (sym (completed-day_summary project start end_ day m ms)) many))))))
