-- ===== src/Executor/Delegation/Counts.antt =====
-- How often a delegation is started.
use secure_openclaw_poc.Common.{
  ◌&&◌, ◌*◌, ◌+◌, ◌++◌, Bool, Bool-cases, List, Text, [], ap, arith, false, filter, if◌then◌else◌,
  if_elim, inl, inr, leb, map, refl, suc, sym, true, zero, ℕ, ◌∙◌, ◌∷◌, ◌≡◌,
}
use secure_openclaw_poc.Executor.Delegation.{
  Process, Row, Status, System, completed, failed, get_pending, insert_by_date, is_pending,
  order_by_date, pending, pending_delegations, process_of, running, sanitized,
}
use secure_openclaw_poc.Executor.Delegation.Polling.{polls, polls-times, times}

-- How many of the processes pass a test.
abbrev pub how_many : (Process → Bool) → List Process → ℕ
how_many P [] = 0
how_many P (p ∷ ps) = (if P p then 1 else 0) + how_many P ps

how_many-append :
    (P : Process → Bool) (ps qs : List Process)
    → how_many P (ps ++ qs) ≡ how_many P ps + how_many P qs
how_many-append P [] qs = omega arith
how_many-append P (p ∷ ps) qs = omega (arith, how_many-append P ps qs)

unfoldable pub waits : Row → Bool
waits r = elim r.status [ pending ↦ true | running ↦ false | completed ↦ false | failed ↦ false ]

module _ (redact : Text → Text) where
  -- How many rows wait whose process, with the redacted task, passes the test.
  abbrev pub how_many_wait : (Process → Bool) → List Row → ℕ
  how_many_wait P [] = 0
  how_many_wait P (r ∷ rs) =
      (if waits r && P (process_of (record r { task = redact r.task })) then 1 else 0)
      + how_many_wait P rs

  how_many-times :
      (P : Process → Bool) (n : ℕ) (ps : List Process) → how_many P (times n ps) ≡ n * how_many P ps
  how_many-times P zero ps = omega arith
  how_many-times P (suc n) ps =
      ground (arith, how_many-append P ps (times n ps), how_many-times P n ps)

  abbrev started_for : Row → Process
  started_for r = process_of (sanitized redact r)

  how_many-insert_by_date :
      (P : Process → Bool) (r : Row) (rs : List Row)
      → how_many P (map process_of (map (sanitized redact) (insert_by_date r rs)))
        ≡ (if P (started_for r) then 1 else 0)
          + how_many P (map process_of (map (sanitized redact) rs))
  unfolding insert_by_date
  how_many-insert_by_date P r [] = refl
  how_many-insert_by_date P r (s ∷ ss) =
      if_elim
        (λ (rows : List Row).
          how_many P (map process_of (map (sanitized redact) rows))
          ≡ (if P (started_for r) then 1 else 0)
            + how_many P (map process_of (map (sanitized redact) (s ∷ ss))))
        (leb r.created_at s.created_at) (r ∷ s ∷ ss) (s ∷ insert_by_date r ss) (λ first. refl)
        (λ later. omega (arith, how_many-insert_by_date P r ss))

  how_many-order_by_date :
      (P : Process → Bool) (rs : List Row)
      → how_many P (map process_of (map (sanitized redact) (order_by_date rs)))
        ≡ how_many P (map process_of (map (sanitized redact) rs))
  unfolding order_by_date
  how_many-order_by_date P [] = refl
  how_many-order_by_date P (r ∷ rs) =
      omega (arith, how_many-insert_by_date P r (order_by_date rs), how_many-order_by_date P rs)

  is_pending-waits : (r : Row) → is_pending r ≡ waits r
  unfolding waits
  is_pending-waits r = by_status r.status refl
    where
      by_status : (st : Status) → r.status ≡ st → is_pending r ≡ waits r
      by_status pending e = rw e refl
      by_status running e = rw e refl
      by_status completed e = rw e refl
      by_status failed e = rw e refl

  how_many-filter :
      (P : Process → Bool) (rows : List Row)
      → how_many P (map process_of (map (sanitized redact) (filter is_pending rows)))
        ≡ how_many_wait P rows
  how_many-filter P [] = refl
  how_many-filter P (r ∷ rs) =
      let same = is_pending-waits r in
      let rest = how_many-filter P rs in
      elim (Bool-cases (is_pending r)) [
        | inl pending_row ↦
            let waiting : waits r ≡ true = sym same ∙ pending_row in
            rw (pending_row, waiting) (ap (λ k. (if P (started_for r) then 1 else 0) + k) rest)
        | inr over ↦
            let idle : waits r ≡ false = sym same ∙ over in rw (over, idle) (omega (arith, rest))
      ]

  -- Where the executor answers each of a number of polls, and every process starts and is tracked, each
  -- of the polls starts the process of every row whose status is pending, also of those that a poll
  -- before has started and that still run: of the processes that pass any test, as many are added as
  -- there are polls times such rows.
  pub polls-started :
      (P : Process → Bool) (n : ℕ) (s : System)
      → how_many P (polls redact n s).started ≡ how_many P s.started + n * how_many_wait P s.rows
  unfolding pending_delegations get_pending
  polls-started P n s =
      let ps = map process_of (pending_delegations redact s.rows) in
      let waiting = filter is_pending s.rows in
      let all_of : how_many P ps ≡ how_many_wait P s.rows =
        how_many-order_by_date P waiting ∙ how_many-filter P s.rows in
      rw
        (
          polls-times redact n s,
          how_many-append P s.started (times n ps),
          how_many-times P n ps,
          all_of,
        )
        refl
