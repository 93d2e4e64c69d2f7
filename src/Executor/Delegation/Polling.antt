-- ===== src/Executor/Delegation/Polling.antt =====
-- What polls start, and what they start no more after a process has ended.

use secure_openclaw_poc.Common.{
  ◌++◌, All, Bool, List, Text, [], append-nil, append_assoc, if◌then◌else◌, false, if_elim, leb,
  map, none, refl, suc, sym, text_eq, true, zero, ℕ, ◌∙◌, ◌∷◌, ◌≡◌, Bool-cases, filter, inl, inr,
  some, All-append, ap, subst,
}
use secure_openclaw_poc.Executor.Delegation.{
  Process, Row, System, end_status, insert_by_date, is_pending, order_by_date, pending_delegations,
  poll, process_of, spawn_all, spawn_claude_code, updated, end_process, ended, get_pending, nth,
  sanitized, update_status, Spawn, World, goes_on, no_pid, not_saved, throws, tracked,
}

abbrev pub times : ℕ → List Process → List Process
times zero ps = []
times (suc n) ps = ps ++ times n ps

-- A row, or a process, of another delegation.
abbrev IsOther : Text → Row → Type 0
IsOther id r = text_eq r.id id ≡ false

abbrev pub StartsOther : Text → Process → Type 0
StartsOther id q = text_eq q.delegation_id id ≡ false

-- A poll that is answered, and whose processes all start and are tracked.
abbrev pub smooth : World
smooth = record { answers = true; spawns = λ r. tracked }

module _ (redact : Text → Text) where
  -- Polls, one after the other.
  abbrev pub polls_in : List World → System → System
  polls_in [] s = s
  polls_in (w ∷ ws) s = polls_in ws (poll redact w s)

  abbrev pub polls : ℕ → System → System
  polls zero s = s
  polls (suc n) s = polls n (poll redact smooth s)

  spawn_claude_code-rows :
      (s : System) (r : Row) (o : Spawn) → (spawn_claude_code s r o).rows ≡ s.rows
  unfolding spawn_claude_code
  spawn_claude_code-rows s r tracked = refl
  spawn_claude_code-rows s r no_pid = refl
  spawn_claude_code-rows s r not_saved = refl
  spawn_claude_code-rows s r throws = refl

  spawn_all-rows :
      (spawns : Row → Spawn) (s : System) (rs : List Row) → (spawn_all spawns s rs).rows ≡ s.rows
  unfolding spawn_all
  spawn_all-rows spawns s [] = refl
  spawn_all-rows spawns s (r ∷ rs) =
      let next = spawn_claude_code s r (spawns r) in
      let one = spawn_claude_code-rows s r (spawns r) in
      if_elim (λ (t : System). t.rows ≡ s.rows) (goes_on (spawns r)) (spawn_all spawns next rs) next
        (λ on. spawn_all-rows spawns next rs ∙ one) (λ over. one)

  spawn_all-started :
      (s : System) (rs : List Row)
      → (spawn_all (λ r. tracked) s rs).started ≡ s.started ++ map process_of rs
  unfolding spawn_all spawn_claude_code
  spawn_all-started s [] = sym (append-nil s.started)
  spawn_all-started s (r ∷ rs) =
      spawn_all-started (spawn_claude_code s r tracked) rs
      ∙ append_assoc s.started (process_of r ∷ []) (map process_of rs)

  poll-rows : (w : World) (s : System) → (poll redact w s).rows ≡ s.rows
  unfolding poll
  poll-rows w s =
      if_elim (λ (t : System). t.rows ≡ s.rows) w.answers
        (spawn_all w.spawns s (pending_delegations redact s.rows)) s
        (λ good. spawn_all-rows w.spawns s (pending_delegations redact s.rows)) (λ bad. refl)

  pub polls-times :
      (n : ℕ) (s : System)
      → (polls n s).started
        ≡ s.started ++ times n (map process_of (pending_delegations redact s.rows))
  unfolding poll
  polls-times zero s = sym (append-nil s.started)
  polls-times (suc n) s =
      let ps = map process_of (pending_delegations redact s.rows) in
      rw
        (
          polls-times n (poll redact smooth s),
          poll-rows smooth s,
          spawn_all-started s (pending_delegations redact s.rows),
        )
        (append_assoc s.started ps (times n ps))

  insert_by_date-All :
      (id : Text) (r : Row) (rs : List Row)
      → IsOther id r
      → All (IsOther id) rs
      → All (IsOther id) (insert_by_date r rs)
  unfolding insert_by_date
  insert_by_date-All id r [] i a = (i, tt)
  insert_by_date-All id r (s ∷ ss) i a =
      if_elim (All (IsOther id)) (leb r.created_at s.created_at) (r ∷ s ∷ ss)
        (s ∷ insert_by_date r ss) (λ first. (i, a))
        (λ later. (a.0, insert_by_date-All id r ss i a.1))

  order_by_date-All :
      (id : Text) (rs : List Row) → All (IsOther id) rs → All (IsOther id) (order_by_date rs)
  unfolding order_by_date
  order_by_date-All id [] a = tt
  order_by_date-All id (r ∷ rs) a =
      insert_by_date-All id r (order_by_date rs) a.0 (order_by_date-All id rs a.1)

  abbrev end_of : (id : Text) (ok : Bool) (now : ℕ) → Row → Row
  end_of id ok now r = if text_eq r.id id then updated (end_status ok) none now r else r

  ended_not_pending :
      (ok : Bool) (now : ℕ) (r : Row) → is_pending (updated (end_status ok) none now r) ≡ false
  ended_not_pending true now r = refl
  ended_not_pending false now r = refl

  settled-row :
      (id : Text) (ok : Bool) (now : ℕ) (r : Row)
      → is_pending (end_of id ok now r) ≡ true
      → IsOther id (end_of id ok now r)
  settled-row id ok now r h = elim (Bool-cases (text_eq r.id id)) [
    | inl same ↦
        let broken : is_pending (updated (end_status ok) none now r) ≡ true = rw same at h in
        let never = ended_not_pending ok now r in absurd (cc)
    | inr apart ↦ rw apart apart
  ]

  settled-All :
      (id : Text) (ok : Bool) (now : ℕ) (rows : List Row)
      → All (IsOther id) (filter is_pending (map (end_of id ok now) rows))
  settled-All id ok now [] = tt
  settled-All id ok now (r ∷ rs) =
      let rest = settled-All id ok now rs in
      if_elim (All (IsOther id)) (is_pending (end_of id ok now r)) _ _
        (λ waiting. (settled-row id ok now r waiting, rest)) (λ over. rest)

  sanitized-All :
      (id : Text) (rs : List Row)
      → All (IsOther id) rs
      → All (IsOther id) (map (sanitized redact) rs)
  sanitized-All id [] a = tt
  sanitized-All id (r ∷ rs) a = (a.0, sanitized-All id rs a.1)

  processes-All :
      (id : Text) (rs : List Row) → All (IsOther id) rs → All (StartsOther id) (map process_of rs)
  processes-All id [] a = tt
  processes-All id (r ∷ rs) a = (a.0, processes-All id rs a.1)

  -- All that is new in the list of started processes is of other delegations.
  abbrev pub AddsOthers : (id : Text) → List Process → List Process → Type 0
  AddsOthers id before after =
      (qs : List Process) × (after ≡ before ++ qs) × All (StartsOther id) qs

  AddsOthers-none : (id : Text) (ps : List Process) → AddsOthers id ps ps
  AddsOthers-none id ps = ([], sym (append-nil ps), tt)

  AddsOthers-then :
      (id : Text) (ps qs rs : List Process)
      → AddsOthers id ps qs
      → AddsOthers id qs rs
      → AddsOthers id ps rs
  AddsOthers-then id ps qs rs (more, e, a) (yet, f, b) = (
    more ++ yet,
    f ∙ (ap (λ (l : List Process). l ++ yet) e ∙ append_assoc ps more yet),
    All-append (StartsOther id) more yet a b,
  )

  spawn_claude_code-AddsOthers :
      (id : Text) (s : System) (r : Row) (o : Spawn)
      → IsOther id r
      → AddsOthers id s.started (spawn_claude_code s r o).started
  unfolding spawn_claude_code
  spawn_claude_code-AddsOthers id s r tracked i = (process_of r ∷ [], refl, (i, tt))
  spawn_claude_code-AddsOthers id s r no_pid i = AddsOthers-none id s.started
  spawn_claude_code-AddsOthers id s r not_saved i = (process_of r ∷ [], refl, (i, tt))
  spawn_claude_code-AddsOthers id s r throws i = AddsOthers-none id s.started

  spawn_all-AddsOthers :
      (id : Text) (spawns : Row → Spawn) (s : System) (rs : List Row)
      → All (IsOther id) rs
      → AddsOthers id s.started (spawn_all spawns s rs).started
  unfolding spawn_all
  spawn_all-AddsOthers id spawns s [] a = AddsOthers-none id s.started
  spawn_all-AddsOthers id spawns s (r ∷ rs) a =
      let next = spawn_claude_code s r (spawns r) in
      let one = spawn_claude_code-AddsOthers id s r (spawns r) a.0 in
      if_elim (λ (t : System). AddsOthers id s.started t.started) (goes_on (spawns r))
        (spawn_all spawns next rs) next
        (λ on.
          AddsOthers-then id s.started next.started (spawn_all spawns next rs).started one
            (spawn_all-AddsOthers id spawns next rs a.1))
        (λ over. one)

  polls_in-AddsOthers :
      (id : Text) (ws : List World) (s : System)
      → All (IsOther id) (pending_delegations redact s.rows)
      → AddsOthers id s.started (polls_in ws s).started
  unfolding poll
  polls_in-AddsOthers id [] s a = AddsOthers-none id s.started
  polls_in-AddsOthers id (w ∷ ws) s a =
      let t = poll redact w s in
      let one : AddsOthers id s.started t.started =
        if_elim (λ (t : System). AddsOthers id s.started t.started) w.answers
          (spawn_all w.spawns s (pending_delegations redact s.rows)) s
          (λ good. spawn_all-AddsOthers id w.spawns s (pending_delegations redact s.rows) a)
          (λ bad. AddsOthers-none id s.started) in
      AddsOthers-then id s.started t.started (polls_in ws t).started one (
        polls_in-AddsOthers id ws t (
          subst (λ (rows : List Row). All (IsOther id) (pending_delegations redact rows))
            (sym (poll-rows w s)) a))

  -- Once a process of a delegation has ended and its status was taken, later polls start other
  -- delegations only, whatever they meet; and the same ones each time, where the executor answers
  -- and every process starts and is tracked.
  pub end_process-settles :
      (s : System) (k : ℕ) (ok : Bool) (now : ℕ) (p : Process) (n : ℕ) (ws : List World)
      → nth k s.processes ≡ some p
      → ((ps : List Process) × ((polls n (end_process s k ok now)).started
            ≡ s.started ++ times n ps)
          × All (StartsOther p.delegation_id) ps)
        × AddsOthers p.delegation_id s.started (polls_in ws (end_process s k ok now)).started
  unfolding end_process pending_delegations get_pending update_status
  end_process-settles s k ok now p n ws h =
      let e = ended s k ok now (some p) in
      let waiting = filter is_pending (map (end_of p.delegation_id ok now) s.rows) in
      let others =
        sanitized-All p.delegation_id (order_by_date waiting)
          (order_by_date-All p.delegation_id waiting (settled-All p.delegation_id ok now s.rows)) in
      (
        (
          map process_of (pending_delegations redact e.rows),
          rw h (polls-times n e),
          processes-All p.delegation_id (pending_delegations redact e.rows) others,
        ),
        rw h (polls_in-AddsOthers p.delegation_id ws e others),
      )
