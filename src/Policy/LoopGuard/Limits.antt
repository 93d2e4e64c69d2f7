-- ===== src/Policy/LoopGuard/Limits.antt =====
-- The limits of the guard: on the count, and on the agents that it remembers.
use secure_openclaw_poc.Common.{
  ◌++◌, ◌<◌, List, String, [], arith, drop, eq_refl, length, length-filter-le, suc, zero, ℕ, ◌∷◌,
  ◌≢◌, ◌≤◌, ◌+◌, ◌-◌, Bool-cases, filter, get_or, inl, inr, length-append, ltb, ◌≡◌,
}
use secure_openclaw_poc.Common.JsMap
use secure_openclaw_poc.Common.JsMap.{JsMap}
use secure_openclaw_poc.Policy.LoopGuard.{
  Config, HistoryEntry, LoopGuard, block, is_recent, trim, same_hash, updated, duplicates, escalate,
  evict_loop, evict_if_needed, drop_oldest, check,
}
use secure_openclaw_poc.Policy.LoopGuard.Window.{length-trim, updated_lem}
use secure_openclaw_poc.Policy.LoopGuard.History.{check-result}

duplicates-le :
    (hash : String) (entries : List HistoryEntry) → duplicates hash entries ≤ length entries
unfolding duplicates
duplicates-le hash entries = length-filter-le (same_hash hash) entries

duplicates-append :
    (hash : String) (entries : List HistoryEntry) (now : ℕ)
    → 0 < duplicates hash (entries ++ record { hash = hash; timestamp = now } ∷ [])
unfolding duplicates
duplicates-append hash [] now = ground (arith, eq_refl hash)
duplicates-append hash (e ∷ entries) now = ground (arith, duplicates-append hash entries now)

duplicates-drop :
    (n : ℕ) (hash : String) (entries : List HistoryEntry) (now : ℕ)
    → n ≤ length entries
    → 0 < duplicates hash (drop n (entries ++ record { hash = hash; timestamp = now } ∷ []))
duplicates-drop zero hash entries now h = duplicates-append hash entries now
duplicates-drop (suc n) hash [] now h = absurd (omega arith)
duplicates-drop (suc n) hash (e ∷ entries) now h = duplicates-drop n hash entries now (omega arith)

updated-length :
    (c : Config) (entries : List HistoryEntry) (hash : String) (now : ℕ)
    → length (updated c entries hash now) ≤ c.max_history_size
updated-length c entries hash now = rw (updated_lem c entries hash now) (
    omega (
      arith,
      length-trim c.max_history_size (
          filter (is_recent now c.window_ms) entries
          ++ record { hash = hash; timestamp = now } ∷ []),
    ))

duplicates-trim :
    (n : ℕ) (hash : String) (entries : List HistoryEntry) (now : ℕ)
    → 0 < n
    → 0 < duplicates hash (trim n (entries ++ record { hash = hash; timestamp = now } ∷ []))
unfolding trim
duplicates-trim n hash entries now h =
    let e : HistoryEntry = record { hash = hash; timestamp = now } in
    let all = entries ++ e ∷ [] in
    elim (Bool-cases (ltb n (length all))) [
      | inl over ↦
          rw (over, trim)
            (duplicates-drop (length all - n) hash entries now
              (omega (arith, length-append entries (e ∷ []))))
      | inr fits ↦ rw (fits, trim) (duplicates-append hash entries now)
    ]

escalate_count :
    (c : Config) (tool : String) (count : ℕ)
    → ((escalate c tool count).duplicate_count ≡ count)
      × ((escalate c tool count).action ≡ block → c.block_threshold ≤ count)
unfolding escalate
escalate_count c tool count = (ground arith, ground arith)

-- A check counts its own call, and never more calls than the history holds.
pub check_count_bounds :
    (g : LoopGuard) (agent tool hash : String) (now : ℕ)
    → 0 < g.config.max_history_size
    → (0 < (check g agent tool hash now).1.duplicate_count)
      × ((check g agent tool hash now).1.duplicate_count ≤ g.config.max_history_size)
check_count_bounds g agent tool hash now h =
    let before = get_or (JsMap.get agent g.history) [] in
    let entries = updated g.config before hash now in
    rw
      (
        check-result g agent tool hash now,
        (escalate_count g.config tool (duplicates hash entries)).0,
      )
      (
        rw (updated_lem g.config before hash now) (
            duplicates-trim g.config.max_history_size hash
              (filter (is_recent now g.config.window_ms) before) now h),
        omega (arith, duplicates-le hash entries, updated-length g.config before hash now),
      )

-- A configuration whose history is shorter than its block threshold, which the constructor accepts,
-- never blocks a call.
pub check_never_blocks :
    (g : LoopGuard) (agent tool hash : String) (now : ℕ)
    → g.config.max_history_size < g.config.block_threshold
    → (check g agent tool hash now).1.action ≢ block
check_never_blocks g agent tool hash now h e =
    let entries = updated g.config (get_or (JsMap.get agent g.history) []) hash now in
    omega (
      arith,
      (escalate_count g.config tool (duplicates hash entries)).1
          (rw (check-result g agent tool hash now) at e),
      duplicates-le hash entries,
      updated-length g.config (get_or (JsMap.get agent g.history) []) hash now,
    )

size-drop_oldest :
    (m : JsMap (List HistoryEntry))
    → 0 < JsMap.size m
    → JsMap.size (drop_oldest m) + 1 ≡ JsMap.size m
unfolding drop_oldest JsMap.delete
size-drop_oldest [] h = absurd (omega arith)
size-drop_oldest ((oldest, entries) ∷ rest) h = ground (arith, eq_refl oldest)

size-evict_loop :
    (fuel n : ℕ) (m : JsMap (List HistoryEntry))
    → JsMap.size m ≤ fuel + n
    → JsMap.size (evict_loop fuel n m) ≤ n
unfolding evict_loop
size-evict_loop zero n m h = omega arith
size-evict_loop (suc fuel) n m h =
    ground (arith, size-drop_oldest m, size-evict_loop fuel n (drop_oldest m))

size-evict_if_needed :
    (n : ℕ) (m : JsMap (List HistoryEntry)) → JsMap.size (evict_if_needed n m) ≤ n
unfolding evict_if_needed
size-evict_if_needed n m = size-evict_loop (JsMap.size m) n m (omega arith)

-- After any check the guard remembers at most the configured number of agents.
pub check-size :
    (g : LoopGuard) (agent tool hash : String) (now : ℕ)
    → JsMap.size (check g agent tool hash now).0.history ≤ g.config.max_agents
unfolding check
check-size g agent tool hash now = size-evict_if_needed g.config.max_agents _
