-- ===== src/Executor/SseFilter/Tests.antt =====
-- Runs of the filter of streams.

-- A redaction that removes everything.
use secure_openclaw_poc.Common.{◌++◌, Text, [], arith, codes, none, refl, ◌∷◌, ◌≡◌}
use secure_openclaw_poc.Executor.SseFilter.Lines.{filter_stream-joined, transform-drained}
use secure_openclaw_poc.Executor.SseFilter.{cut_event, filter_lines, filter_stream, transform}

abbrev hide : Text → Text
hide t = codes "*"

-- A line that is cut in two is filtered as one.
cut_line_is_filtered :
    filter_stream hide [] (codes "data: se" ∷ (codes "cret" ++ 10 ∷ 10 ∷ codes "data:x") ∷ [])
    ≡ codes "data: *" ++ 10 ∷ 10 ∷ codes "data:*"
unfolding filter_stream
cut_line_is_filtered = refl

-- The rest of a line that was flushed has no prefix any more, and passes.
rest_of_a_line_passes : filter_stream hide [] (codes "secret" ∷ []) ≡ codes "secret"
unfolding filter_stream
rest_of_a_line_passes = refl

filter_stream-joined_example :
    filter_stream hide [] (codes "data: se" ∷ codes "cret" ∷ [])
    ≡ filter_lines hide (codes "data: secret")
filter_stream-joined_example =
    filter_stream-joined hide [] (codes "data: se" ∷ codes "cret" ∷ []) (omega arith)

transform-drained_example : cut_event (transform hide (codes "data: x") (10 ∷ 10 ∷ [])).1 ≡ none
transform-drained_example = transform-drained hide (codes "data: x") (10 ∷ 10 ∷ [])
