-- ===== src/Executor/Confirmations/Once.antt =====
-- Every confirmation is settled exactly once.
use secure_openclaw_poc.Common.{
  List, ◌+◌, ◌++◌, ◌<◌, ◌==◌, ==_iff, Bool, String, [], arith, if◌then◌else◌, ltb, refl, some, ℕ,
  ◌∷◌, ◌≡◌, ◌≢◌, Bool-cases, eq_iff, inl, inr, str_eq, sym, ◌∙◌, Option, false, none, text_differs,
  ◌≤◌,
}
use secure_openclaw_poc.Common.JsMap
use secure_openclaw_poc.Common.JsMap.{JsMap}
use secure_openclaw_poc.Executor.Confirmations.{
  State, start, find_timer, clear_timer, Decision, timeout, confirm_fn, settle, resolve_found,
  resolve_confirmation, fire_found, fire, Step, requested, answered, timed_out, step, run,
}

-- How many entries of the list are for the confirmation.
abbrev pub count {ℓ} : {A : Type ℓ} → ℕ → List (ℕ × A) → ℕ
count n [] = 0
count n (e ∷ es) = (if e.0 == n then 1 else 0) + count n es

count-append {ℓ} :
    {A : Type ℓ} (n : ℕ) (xs ys : List (ℕ × A)) → count n (xs ++ ys) ≡ count n xs + count n ys
count-append n [] ys = omega arith
count-append n (x ∷ xs) ys = omega (arith, count-append n xs ys)

pub count-clear_timer :
    (n m : ℕ) (ts : List (ℕ × String))
    → count m (clear_timer n ts) ≡ (if n == m then 0 else count m ts)
unfolding clear_timer
count-clear_timer n m [] = ground arith
count-clear_timer n m (t ∷ ts) =
    ground (arith, ==_iff n m, ==_iff t.0 n, ==_iff t.0 m, count-clear_timer n m ts)

pub find_timer-clear_timer :
    (n m : ℕ) (ts : List (ℕ × String)) → n ≢ m → find_timer m (clear_timer n ts) ≡ find_timer m ts
unfolding clear_timer find_timer
find_timer-clear_timer n m [] h = refl
find_timer-clear_timer n m (t ∷ ts) h =
    ground (arith, h, ==_iff t.0 n, ==_iff t.0 m, find_timer-clear_timer n m ts h)

pub find_timer-append :
    (n m : ℕ) (id : String) (ts : List (ℕ × String))
    → count n ts ≡ 0
    → find_timer m (ts ++ (n, id) ∷ []) ≡ (if n == m then some id else find_timer m ts)
unfolding find_timer
find_timer-append n m id [] h = refl
find_timer-append n m id (t ∷ ts) h =
    ground (arith, h, ==_iff t.0 n, ==_iff n m, ==_iff t.0 m, find_timer-append n m id ts)

pub find_timer-count :
    (n : ℕ) (ts : List (ℕ × String)) (id : String) → find_timer n ts ≡ some id → 0 < count n ts
unfolding find_timer
find_timer-count n [] id h = cc
find_timer-count n (t ∷ ts) id h = ground (arith, h, find_timer-count n ts id)

-- Each confirmation that was asked for either waits on its timer or is settled, once; its promise is
-- rejected at most once; and what the map holds waits on a timer for its id.
pub record IsOnce (s : State) : Type 0 where
  pub once : (n : ℕ) → count n s.timers + count n s.settled ≡ (if ltb n s.next then 1 else 0)
  pub refused_once : (n : ℕ) → count n s.rejected ≤ (if ltb n s.next then 1 else 0)
  pub timed :
      (id : String) (n : ℕ)
      → JsMap.get id s.pending_confirmations ≡ some n
      → find_timer n s.timers ≡ some id
  pub distinct : JsMap.HasDistinctKeys s.pending_confirmations

pub start-IsOnce : IsOnce start
unfolding JsMap.get
start-IsOnce = record {
  once = λ n. ground arith;
  refused_once = λ n. ground arith;
  timed = λ id n h. cc;
  distinct = tt;
}

-- The next number is not in use.
pub next_is_new :
    (s : State) → IsOnce s → (count s.next s.timers ≡ 0) × (count s.next s.settled ≡ 0)
next_is_new s i = ground (arith, i.once s.next)

timed_after_confirm_fn :
    (s : State) (id other : String) (n : ℕ)
    → IsOnce s
    → JsMap.get other (JsMap.set id s.next s.pending_confirmations) ≡ some n
    → find_timer n (s.timers ++ (s.next, id) ∷ []) ≡ some other
timed_after_confirm_fn s id other n i h =
    let new = (next_is_new s i).0 in
    let found = sym (JsMap.get-set id other s.next s.pending_confirmations) ∙ h in
    let after = find_timer-append s.next n id s.timers new in
    elim (Bool-cases (str_eq id other)) [
      | inl same ↦ ground (arith, after, found, same, ==_iff s.next n, (eq_iff id other).0 same)
      | inr differs ↦
          let before : JsMap.get other s.pending_confirmations ≡ some n =
            ground (arith, found, differs) in
          let waits = i.timed other n before in
          let used = find_timer-count n s.timers other waits in
          ground (arith, after, waits, used, new, ==_iff s.next n)
    ]

pub confirm_fn-IsOnce :
    (s : State) (id : String) (is_readable : Bool) → IsOnce s → IsOnce (confirm_fn s id is_readable)
unfolding confirm_fn
confirm_fn-IsOnce s id is_readable i = record {
  refused_once = λ n. ground (
    arith,
    i.refused_once n,
    i.refused_once s.next,
    ==_iff s.next n,
    count-append n s.rejected ((s.next, id) ∷ []),
  );
  once = λ n. ground (
    arith,
    i.once n,
    i.once s.next,
    ==_iff s.next n,
    count-append n s.timers ((s.next, id) ∷ []),
  );
  timed = λ other n h. timed_after_confirm_fn s id other n i h;
  distinct = JsMap.set-HasDistinctKeys id s.next s.pending_confirmations i.distinct;
}

timed_after_settle :
    (s : State) (n : ℕ) (id other : String) (m : ℕ)
    → find_timer n s.timers ≡ some id
    → IsOnce s
    → JsMap.get other (JsMap.delete id s.pending_confirmations) ≡ some m
    → find_timer m (clear_timer n s.timers) ≡ some other
timed_after_settle s n id other m found i h =
    let left = sym (JsMap.get-delete id other s.pending_confirmations i.distinct) ∙ h in
    elim (Bool-cases (str_eq id other)) [
      | inl same ↦ ground (arith, left, same)
      | inr differs ↦
          let before : JsMap.get other s.pending_confirmations ≡ some m =
            ground (arith, left, differs) in
          let waits = i.timed other m before in
          find_timer-clear_timer n m s.timers
            (λ e. text_differs id other differs (cc (found, waits, e)))
          ∙ waits
    ]

settle-IsOnce :
    (s : State) (n : ℕ) (id : String) (d : Decision) (answer : Bool)
    → find_timer n s.timers ≡ some id
    → IsOnce s
    → IsOnce (settle s n id d answer)
unfolding settle
settle-IsOnce s n id d answer found i = record {
  refused_once = i.refused_once;
  once = λ m. ground (
    arith,
    i.once m,
    i.once n,
    ==_iff n m,
    count-clear_timer n m s.timers,
    count-append m s.settled ((n, answer) ∷ []),
    find_timer-count n s.timers id found,
  );
  timed = λ other m h. timed_after_settle s n id other m found i h;
  distinct = JsMap.delete-HasDistinctKeys id s.pending_confirmations i.distinct;
}

resolve_found-IsOnce :
    (s : State) (id : String) (b : Bool) (o : Option ℕ)
    → JsMap.get id s.pending_confirmations ≡ o
    → IsOnce s
    → IsOnce (resolve_found s id b o).0
unfolding resolve_found
resolve_found-IsOnce s id b none h i = i
resolve_found-IsOnce s id b (some n) h i = settle-IsOnce s n id _ b (i.timed id n h) i

fire_found-IsOnce :
    (s : State) (n : ℕ) (o : Option String)
    → find_timer n s.timers ≡ o
    → IsOnce s
    → IsOnce (fire_found s n o)
unfolding fire_found
fire_found-IsOnce s n none h i = i
fire_found-IsOnce s n (some id) h i = settle-IsOnce s n id timeout false h i

pub step-IsOnce : (s : State) (x : Step) → IsOnce s → IsOnce (step s x)
unfolding step resolve_confirmation fire
step-IsOnce s (requested id is_readable) i = confirm_fn-IsOnce s id is_readable i
step-IsOnce s (answered id b) i =
    resolve_found-IsOnce s id b (JsMap.get id s.pending_confirmations) refl i
step-IsOnce s (timed_out n) i = fire_found-IsOnce s n (find_timer n s.timers) refl i

pub run-IsOnce : (s : State) (xs : List Step) → IsOnce s → IsOnce (run s xs)
unfolding run
run-IsOnce s [] i = i
run-IsOnce s (x ∷ xs) i = run-IsOnce (step s x) xs (step-IsOnce s x i)
