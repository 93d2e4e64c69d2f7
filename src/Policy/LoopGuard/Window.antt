-- ===== src/Policy/LoopGuard/Window.antt =====
-- What the guard keeps of an agent's calls: the last of those that fall into the window.
use secure_openclaw_poc.Common.{
  ℕ, Bool, List, ◌≤◌, ◌∷◌, filter, length, ◌≡◌, ◌++◌, All, min, arith, suc, [], true, length-drop,
  drop, ◌-◌, Bool-cases, refl, leb, inl, leb→le, ◌∙◌, ◌<◌, All-drop, String, ap, inr, length-append,
  length-filter-le, ltb, sym, tests,
}
use secure_openclaw_poc.Policy.LoopGuard.{Config, HistoryEntry, is_recent, trim, updated}

-- Oldest first.
abbrev pub Ascending : (until : ℕ) → List HistoryEntry → Type 0
Ascending until [] = Unit {0}
Ascending until (e ∷ []) = e.timestamp ≤ until
Ascending until (e ∷ f ∷ log) = (e.timestamp ≤ f.timestamp) × Ascending until (f ∷ log)

-- The calls of `log` that a window up to `now` contains, and of these the last ones, as many as the
-- history may hold.
abbrev pub last_in_window : Config → (now : ℕ) → List HistoryEntry → List HistoryEntry
last_in_window c now log = trim c.max_history_size (filter (is_recent now c.window_ms) log)

pub length-trim :
    (n : ℕ) (entries : List HistoryEntry) → length (trim n entries) ≡ min n (length entries)
unfolding trim
length-trim n entries = ground (arith, length-drop (length entries - n) entries)

pub trim-fits : (n : ℕ) (log : List HistoryEntry) → length log ≤ n → trim n log ≡ log
unfolding trim
trim-fits n log h = ground arith

drop-suc :
    (n k : ℕ) (e : HistoryEntry) (log : List HistoryEntry)
    → n ≡ suc k
    → drop n (e ∷ log) ≡ drop k log
drop-suc n k e log h = rw h

trim-cons :
    (n : ℕ) (e : HistoryEntry) (log : List HistoryEntry)
    → n ≤ length log
    → trim n (e ∷ log) ≡ trim n log
unfolding trim
trim-cons n e log h = ground (arith, drop-suc (suc (length log) - n) (length log - n) e log)

-- Trimming before a call is appended changes nothing.
trim-append :
    (n : ℕ) (log : List HistoryEntry) (e : HistoryEntry)
    → trim n (trim n log ++ e ∷ []) ≡ trim n (log ++ e ∷ [])
trim-append n [] e = rw (trim-fits n [] (omega arith))
trim-append n (f ∷ log) e = elim (Bool-cases (leb n (length log))) [
  | inl over ↦ rw (trim-cons n f log (leb→le _ _ over)) (
      trim-append n log e
      ∙ sym (trim-cons n f (log ++ e ∷ []) (omega (tests, length-append log (e ∷ []), over))))
  | inr fits ↦ rw (trim-fits n (f ∷ log) (ground arith))
]

All-trim :
    (P : HistoryEntry → Type 0) (n : ℕ) (entries : List HistoryEntry)
    → All P entries
    → All P (trim n entries)
unfolding trim
All-trim P n entries h = elim (Bool-cases (ltb n (length entries))) [
  | inl over ↦ rw (over, trim) (All-drop P (length entries - n) entries h)
  | inr fits ↦ rw (fits, trim) h
]

-- A test that, once passed, is passed by every later call.
abbrev Persists : (HistoryEntry → Bool) → Type 0
Persists p = (e f : HistoryEntry) → e.timestamp ≤ f.timestamp → p e ≡ true → p f ≡ true

filter-All :
    (p : HistoryEntry → Bool) (log : List HistoryEntry)
    → All (λ e. p e ≡ true) log
    → filter p log ≡ log
filter-All p [] h = refl
filter-All p (e ∷ log) h = rw (h.0, filter-All p log h.1)

All-later :
    (p : HistoryEntry → Bool)
    → Persists p
    → (until : ℕ) (e : HistoryEntry) (log : List HistoryEntry) → Ascending until (e ∷ log)
    → p e ≡ true
    → All (λ f. p f ≡ true) (e ∷ log)
All-later p persists until e [] o h = (h, tt)
All-later p persists until e (f ∷ log) o h =
    (h, All-later p persists until f log o.1 (persists e f o.0 h))

Ascending-tail :
    (until : ℕ) (e : HistoryEntry) (log : List HistoryEntry)
    → Ascending until (e ∷ log)
    → Ascending until log
Ascending-tail until e [] o = tt
Ascending-tail until e (f ∷ log) o = o.1

-- Such a test and trimming commute on calls in the order of time.
filter-trim :
    (p : HistoryEntry → Bool)
    → Persists p
    → (n until : ℕ) (log : List HistoryEntry) → Ascending until log
    → filter p (trim n log) ≡ trim n (filter p log)
filter-trim p persists n until [] o = rw (trim-fits n [] (omega arith))
filter-trim p persists n until (e ∷ log) o = elim (Bool-cases (p e)) [
  | inl passed ↦
      let every = All-later p persists until e log o passed in
      filter-All p (trim n (e ∷ log)) (All-trim (λ f. p f ≡ true) n (e ∷ log) every)
      ∙ ap (trim n) (sym (filter-All p (e ∷ log) every))
  | inr failed ↦ elim (Bool-cases (leb n (length log))) [
    | inl over ↦
        rw (failed, trim-cons n e log (leb→le _ _ over))
          (filter-trim p persists n until log (Ascending-tail until e log o))
    | inr fits ↦
        rw (trim-fits n (e ∷ log) (ground arith), failed)
          (sym (trim-fits n (filter p log) (ground (arith, length-filter-le p log))))
  ]
]

is_recent-Persists : (now window : ℕ) → Persists (is_recent now window)
unfolding is_recent
is_recent-Persists now window e f o h = ground arith

-- An earlier window loses nothing that a later one contains.
filter_twice :
    (before now window : ℕ) (log : List HistoryEntry)
    → before ≤ now
    → filter (is_recent now window) (filter (is_recent before window) log)
      ≡ filter (is_recent now window) log
unfolding is_recent
filter_twice before now window [] o = refl
filter_twice before now window (e ∷ log) o = ground (arith, filter_twice before now window log o)

filter-now :
    (now window : ℕ) (hash : String) (log : List HistoryEntry)
    → 0 < window
    → let e : HistoryEntry = record { hash = hash; timestamp = now } in
      filter (is_recent now window) (log ++ e ∷ []) ≡ filter (is_recent now window) log ++ e ∷ []
unfolding is_recent
filter-now now window hash [] h = ground arith
filter-now now window hash (e ∷ log) h = ground (arith, filter-now now window hash log h)

pub updated_lem :
    (c : Config) (entries : List HistoryEntry) (hash : String) (now : ℕ)
    → updated c entries hash now
      ≡ trim c.max_history_size (
          filter (is_recent now c.window_ms) entries
          ++ record { hash = hash; timestamp = now } ∷ [])
unfolding updated
updated_lem c entries hash now = refl

-- The update of a check, from the last calls of an earlier window, gives the last calls of its own.
pub updated-last_in_window :
    (c : Config) (log : List HistoryEntry) (hash : String) (before now : ℕ)
    → 0 < c.window_ms
    → Ascending before log
    → before ≤ now
    → updated c (last_in_window c before log) hash now
      ≡ last_in_window c now (log ++ record { hash = hash; timestamp = now } ∷ [])
updated-last_in_window c log hash before now w o h =
    let n = c.max_history_size in
    let earlier = is_recent before c.window_ms in
    let later = is_recent now c.window_ms in
    let kept : filter later (trim n (filter earlier log)) ≡ trim n (filter later log) =
      ap (filter later)
        (sym (filter-trim earlier (is_recent-Persists before c.window_ms) n before log o))
      ∙ filter_twice before now c.window_ms (trim n log) h
      ∙ filter-trim later (is_recent-Persists now c.window_ms) n before log o in
    rw
      (
        updated_lem c (trim n (filter earlier log)) hash now,
        kept,
        filter-now now c.window_ms hash log w,
      )
      (trim-append n (filter later log) _)
