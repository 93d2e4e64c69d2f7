-- ===== src/Executor/SseFilter/Lines.antt =====
-- The filter of a stream does not depend on how the stream is cut into chunks.

use secure_openclaw_poc.Executor.Tools.Replace.Found.{put_before-some}
-- Lines and their breaks.
use secure_openclaw_poc.Common.{
  ◌&&◌, ◌++◌, ◌==◌, Bool-cases, List, Text, [], append_assoc, arith, inl, inr, refl, some, split_on,
  sym, ℕ, ◌∷◌, ◌≡◌, Option, ap, map, none, suc, zero, ◌⊎◌, ◌+◌, append-nil, if_elim, length,
  length-append, ltb, ◌≤◌, false,
}
use secure_openclaw_poc.Executor.SseFilter.{
  cut_event, filter_lines, join_lines, drain, filter_line, filter_stream, flush,
  max_sse_buffer_size, transform, put_before,
}

split_on_full : (c : ℕ) (t : Text) → (l : Text) × (ls : List Text) × (split_on c t ≡ l ∷ ls)
unfolding split_on
split_on_full c [] = ([], [], refl)
split_on_full c (d ∷ ds) = elim (Bool-cases (d == c)) [
  | inl same ↦ ([], split_on c ds, rw same refl)
  | inr apart ↦ let (l, ls, e) = split_on_full c ds in (d ∷ l, ls, rw (apart, e) refl)
]

-- A line break between two texts is one between their lines.
split_on_at : (c : ℕ) (a b : Text) → split_on c (a ++ c ∷ b) ≡ split_on c a ++ split_on c b
unfolding split_on
split_on_at c [] b = ground arith
split_on_at c (d ∷ ds) b =
    let (l, ls, e) = split_on_full c ds in
    elim (Bool-cases (d == c)) [
      | inl same ↦ rw (same, split_on_at c ds b) refl
      | inr apart ↦ rw (apart, split_on_at c ds b, e) refl
    ]

join_lines_append :
    (l : Text) (ls : List Text) (m : Text) (ms : List Text)
    → join_lines ((l ∷ ls) ++ (m ∷ ms)) ≡ join_lines (l ∷ ls) ++ 10 ∷ join_lines (m ∷ ms)
unfolding join_lines
join_lines_append l [] m ms = refl
join_lines_append l (k ∷ ks) m ms =
    rw (join_lines_append k ks m ms) (sym (append_assoc l (10 ∷ join_lines (k ∷ ks)) _))

map_append : (f : Text → Text) (xs ys : List Text) → map f (xs ++ ys) ≡ map f xs ++ map f ys
map_append f [] ys = refl
map_append f (x ∷ xs) ys = rw (map_append f xs ys) refl

pub cut_cases :
    (o : Option (Text × Text))
    → (o ≡ none) ⊎ ((event : Text) × (rest : Text) × (o ≡ some (event, rest)))
cut_cases none = inl refl
cut_cases (some (event, rest)) = inr (event, rest, refl)

cut_event-some :
    (buffer event rest : Text)
    → cut_event buffer ≡ some (event, rest)
    → buffer ≡ event ++ 10 ∷ 10 ∷ rest
unfolding cut_event
cut_event-some [] event rest h = cc
cut_event-some (c ∷ []) event rest h = cc
cut_event-some (c ∷ d ∷ ds) event rest h = elim (Bool-cases (c == 10 && d == 10)) [
  | inl here ↦
      let e : ◌≡◌ {A = Option (Text × Text)} (some ([], ds)) (some (event, rest)) = rw here at h in
      let nothing : event ≡ [] = ground (arith, e) in
      let after : rest ≡ ds = ground (arith, e) in
      let first : c ≡ 10 = ground arith in
      let second : d ≡ 10 = ground arith in rw (first, second, nothing, after) refl
  | inr later ↦
      let e : put_before c (cut_event (d ∷ ds)) ≡ some (event, rest) = rw later at h in
      let (before, found, same) = put_before-some c (cut_event (d ∷ ds)) event rest e in
      rw same (ap (λ (t : Text). c ∷ t) (cut_event-some (d ∷ ds) before rest found))
]

module _ (redact : Text → Text) where
  filter_lines_at :
      (a b : Text)
      → filter_lines redact (a ++ 10 ∷ b) ≡ filter_lines redact a ++ 10 ∷ filter_lines redact b
  unfolding filter_lines
  filter_lines_at a b =
      let (l, ls, e) = split_on_full 10 a in
      let (m, ms, f) = split_on_full 10 b in
      let first = filter_line redact l in
      let others = map (filter_line redact) ls in
      let next_first = filter_line redact m in
      let next_others = map (filter_line redact) ms in
      rw (split_on_at 10 a b, e, f, map_append (filter_line redact) ls (m ∷ ms))
        (join_lines_append first others next_first next_others)

  filter_lines_blank : filter_lines redact [] ≡ []
  unfolding filter_lines filter_line join_lines split_on
  filter_lines_blank = refl

  drain-none :
      (fuel : ℕ) (buffer : Text)
      → cut_event buffer ≡ none
      → drain redact (suc fuel) buffer ≡ ([], buffer)
  unfolding drain
  drain-none fuel buffer e = rw (e, drain) refl

  drain-some :
      (fuel : ℕ) (buffer event rest : Text)
      → cut_event buffer ≡ some (event, rest)
      → drain redact (suc fuel) buffer ≡ (
        filter_lines redact event ++ 10 ∷ 10 ∷ (drain redact fuel rest).0,
        (drain redact fuel rest).1,
      )
  unfolding drain
  drain-some fuel buffer event rest e = rw (e, drain) refl

  -- An event and what follows it.
  event-filter_lines :
      (event rest : Text)
      → filter_lines redact (event ++ 10 ∷ 10 ∷ rest)
        ≡ filter_lines redact event ++ 10 ∷ 10 ∷ filter_lines redact rest
  event-filter_lines event rest =
      rw (filter_lines_at event (10 ∷ rest), filter_lines_at [] rest, filter_lines_blank) refl

  -- What was given on and the lines of what is left are the lines of the whole, whatever follows.
  drain-filter_lines :
      (fuel : ℕ) (buffer more : Text)
      → filter_lines redact (buffer ++ more)
        ≡ (drain redact fuel buffer).0 ++ filter_lines redact ((drain redact fuel buffer).1 ++ more)
  unfolding drain
  drain-filter_lines zero buffer more = refl
  drain-filter_lines (suc fuel) buffer more = elim (cut_cases (cut_event buffer)) [
    | inl over ↦ rw (drain-none fuel buffer over) refl
    | inr (event, rest, e) ↦
        rw
          (
            drain-some fuel buffer event rest e,
            cut_event-some buffer event rest e,
            append_assoc event (10 ∷ 10 ∷ rest) more,
            event-filter_lines event (rest ++ more),
            drain-filter_lines fuel rest more,
            append_assoc (filter_lines redact event) (10 ∷ 10 ∷ (drain redact fuel rest).0)
                (filter_lines redact ((drain redact fuel rest).1 ++ more)),
          )
          refl
  ]

  drain-length : (fuel : ℕ) (buffer : Text) → length (drain redact fuel buffer).1 ≤ length buffer
  unfolding drain
  drain-length zero buffer = omega arith
  drain-length (suc fuel) buffer = elim (cut_cases (cut_event buffer)) [
    | inl over ↦ rw (drain-none fuel buffer over) (omega arith)
    | inr (event, rest, e) ↦
        let shorter = drain-length fuel rest in
        let whole : length buffer ≡ length event + suc (suc (length rest)) =
          rw (cut_event-some buffer event rest e) (length-append event (10 ∷ 10 ∷ rest)) in
        rw (drain-some fuel buffer event rest e) (omega arith)
  ]

  -- Enough fuel leaves no complete event in the buffer.
  drain-drained :
      (fuel : ℕ) (buffer : Text)
      → length buffer ≤ fuel
      → cut_event (drain redact fuel buffer).1 ≡ none
  unfolding drain cut_event
  drain-drained zero [] h = refl
  drain-drained zero (c ∷ cs) h = absurd (omega arith)
  drain-drained (suc fuel) buffer h = elim (cut_cases (cut_event buffer)) [
    | inl over ↦ rw (drain-none fuel buffer over) over
    | inr (event, rest, e) ↦
        let whole : length buffer ≡ length event + suc (suc (length rest)) =
          rw (cut_event-some buffer event rest e) (length-append event (10 ∷ 10 ∷ rest)) in
        rw (drain-some fuel buffer event rest e) (drain-drained fuel rest (omega arith))
  ]

  -- After each chunk, the buffer holds no complete event.
  pub transform-drained : (buffer chunk : Text) → cut_event (transform redact buffer chunk).1 ≡ none
  unfolding transform cut_event
  transform-drained buffer chunk =
      if_elim (λ (r : Text × Text). cut_event r.1 ≡ none)
        (ltb max_sse_buffer_size (length (buffer ++ chunk))) _ _ (λ long. refl)
        (λ short. drain-drained (length (buffer ++ chunk)) (buffer ++ chunk) (omega arith))

  transform-short :
      (buffer chunk : Text)
      → length (buffer ++ chunk) ≤ max_sse_buffer_size
      → transform redact buffer chunk ≡ drain redact (length (buffer ++ chunk)) (buffer ++ chunk)
  unfolding transform
  transform-short buffer chunk h =
      let short : ltb max_sse_buffer_size (length (buffer ++ chunk)) ≡ false = ground arith in
      rw short refl

  flush-filter_lines : (buffer : Text) → flush redact buffer ≡ filter_lines redact buffer
  unfolding flush
  flush-filter_lines [] = sym filter_lines_blank
  flush-filter_lines (c ∷ cs) = refl

  abbrev pub joined : List Text → Text
  joined [] = []
  joined (t ∷ ts) = t ++ joined ts

  -- However a stream is cut into chunks, what is given on is each of its lines filtered, if the stream
  -- is not longer than the buffer may be.
  pub filter_stream-joined :
      (buffer : Text) (chunks : List Text)
      → length (buffer ++ joined chunks) ≤ max_sse_buffer_size
      → filter_stream redact buffer chunks ≡ filter_lines redact (buffer ++ joined chunks)
  unfolding filter_stream
  filter_stream-joined buffer [] h = rw (append-nil buffer) (flush-filter_lines buffer)
  filter_stream-joined buffer (chunk ∷ chunks) h =
      let whole = buffer ++ chunk in
      let later = joined chunks in
      let sum = length-append whole later in
      let (out, left) = drain redact (length whole) whole in
      let fits : length (whole ++ later) ≤ max_sse_buffer_size =
        rw (append_assoc buffer chunk later) h in
      let rest = length-append left later in
      let shorter = drain-length (length whole) whole in
      rw
        (
          transform-short buffer chunk (omega arith),
          sym (append_assoc buffer chunk later),
          filter_stream-joined left chunks (omega arith),
        )
        (sym (drain-filter_lines (length whole) whole later))
