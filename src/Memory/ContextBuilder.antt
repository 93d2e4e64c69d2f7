-- ===== src/Memory/ContextBuilder.antt =====
-- packages/memory/src/context-builder.ts.
pub mod Bounds
use secure_openclaw_poc.Common.{
  Text, List, [], ◌∷◌, ◌++◌, ℕ, ◌-◌, ltb, length, take, codes, if◌then◌else◌, map,
}
use secure_openclaw_poc.Common.Outcome.{Outcome, returned, thrown, ◌>>=◌}
use secure_openclaw_poc.Memory.Store.{MemoryStore, Summary, Error}
use secure_openclaw_poc.Memory.Queries.{get_recent_summaries}

abbrev pub max_context_chars : ℕ
max_context_chars = 800

-- `lines.join("\n")`.
unfoldable pub join_lines : List Text → Text
join_lines [] = []
join_lines (l ∷ []) = l
join_lines (l ∷ m ∷ ms) = l ++ 10 ∷ join_lines (m ∷ ms)

abbrev pub step_lines : List Text → List Text
step_lines [] = []
step_lines (t ∷ ts) = codes "**Next steps:**" ∷ map (λ u. codes "- " ++ u) (t ∷ ts)

unfoldable pub context_lines : Summary → List Text
context_lines m = (codes "## Yesterday: " ++ m.input.title) ∷ step_lines m.input.next_steps

unfoldable pub cut_context : Text → Text
cut_context t =
    if ltb max_context_chars (length t) then take (max_context_chars - 3) t ++ codes "..." else t

pub context_of : List Summary → Text
unfolding context_lines cut_context join_lines
context_of [] = []
context_of (m ∷ ms) = cut_context (join_lines (context_lines m))

unfoldable pub build_session_context : MemoryStore → (project : Text) → Outcome Error Text
unfolding context_of
build_session_context s project =
    get_recent_summaries s project 1 >>= λ ms. returned (context_of ms)
