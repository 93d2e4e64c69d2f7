-- ===== src/Executor/SseFilter.antt =====
-- packages/executor/src/sse-credential-filter.ts. A chunk is the text that the decoder of the stream
-- gives for its bytes, and what is given on is the text that is encoded.
pub mod Lines
mod Tests
use secure_openclaw_poc.Common.{
  ◌&&◌, ◌*◌, ◌++◌, ◌==◌, List, Option, Text, [], after_prefix, codes, if◌then◌else◌, length, ltb,
  map, none, some, split_on, suc, zero, ℕ, ◌∷◌,
}
use secure_openclaw_poc.Executor.Tools.Replace.{put_before}

abbrev pub max_sse_buffer_size : ℕ
max_sse_buffer_size = 1024 * 1024

-- `indexOf("\n\n")`, as what stands before it and after it.
unfoldable pub cut_event : (buffer : Text) → Option (Text × Text)
cut_event [] = none
cut_event (c ∷ []) = none
cut_event (c ∷ d ∷ ds) =
    let later = put_before c (cut_event (d ∷ ds)) in
    if c == 10 && d == 10 then some ([], ds) else later

-- `join("\n")`.
unfoldable pub join_lines : List Text → Text
join_lines [] = []
join_lines (l ∷ []) = l
join_lines (l ∷ m ∷ ls) = l ++ 10 ∷ join_lines (m ∷ ls)

module _ (redact : Text → Text) where
  -- By what follows the prefix `data: `, and what follows `data:`.
  abbrev pub with_prefixes : (line : Text) → (spaced bare : Option Text) → Text
  with_prefixes line (some content) bare = codes "data: " ++ redact content
  with_prefixes line none (some content) = codes "data:" ++ redact content
  with_prefixes line none none = line

  unfoldable pub filter_line : Text → Text
  filter_line line =
      with_prefixes line (after_prefix (codes "data: ") line) (after_prefix (codes "data:") line)

  unfoldable pub filter_lines : Text → Text
  unfolding split_on filter_line join_lines
  filter_lines text = join_lines (map filter_line (split_on 10 text))

  -- The loop over the complete events: what is given on, and the buffer that is left. The fuel is the
  -- length of the buffer.
  unfoldable pub drain : (fuel : ℕ) → (buffer : Text) → Text × Text
  unfolding cut_event filter_lines
  drain zero buffer = ([], buffer)
  drain (suc fuel) buffer = elim (cut_event buffer) [
    | none ↦ ([], buffer)
    | some (event, rest) ↦
        let (out, left) = drain fuel rest in (filter_lines event ++ 10 ∷ 10 ∷ out, left)
  ]

  unfoldable pub transform : (buffer chunk : Text) → Text × Text
  unfolding drain
  transform buffer chunk =
      let whole = buffer ++ chunk in
      if ltb max_sse_buffer_size (length whole)
      then (filter_lines whole ++ 10 ∷ 10 ∷ [], [])
      else drain (length whole) whole

  unfoldable pub flush : (buffer : Text) → Text
  unfolding filter_lines
  flush [] = []
  flush (c ∷ cs) = filter_lines (c ∷ cs)

  -- What a stream of chunks becomes.
  unfoldable pub filter_stream : (buffer : Text) → List Text → Text
  unfolding transform flush
  filter_stream buffer [] = flush buffer
  filter_stream buffer (chunk ∷ chunks) =
      let (out, left) = transform buffer chunk in out ++ filter_stream left chunks
