-- ===== src/Memory/ContextBuilder/Bounds.antt =====
-- How long the context of a session is.

use secure_openclaw_poc.Common.Outcome.{>>=-returned}
use secure_openclaw_poc.Common.{
  Bool-cases, List, Text, [], arith, codes, inl, inr, length, length-append, length-take, ltb,
  subst, take, ◌∷◌, ◌≡◌, ◌≤◌,
}
use secure_openclaw_poc.Memory.Queries.{get_recent_summaries}
use secure_openclaw_poc.Memory.ContextBuilder.{
  build_session_context, context_lines, context_of, cut_context, join_lines, max_context_chars,
  returned,
}
use secure_openclaw_poc.Memory.Store.{MemoryStore, Summary}

cut_context-length : (t : Text) → length (cut_context t) ≤ 800
unfolding cut_context
cut_context-length t = elim (Bool-cases (ltb max_context_chars (length t))) [
  | inl long ↦ rw long (omega (arith, length-append (take 797 t) (codes "..."), length-take 797 t))
  | inr short ↦ rw short (ground (arith, short))
]

context_of-length : (ms : List Summary) → length (context_of ms) ≤ 800
unfolding context_of
context_of-length [] = omega arith
context_of-length (m ∷ ms) = cut_context-length (join_lines (context_lines m))

-- The context is at most eight hundred code units long, whatever the summary holds.
pub build_session_context-length :
    (s : MemoryStore) (project t : Text)
    → build_session_context s project ≡ returned t
    → length t ≤ 800
unfolding build_session_context
build_session_context-length s project t h =
    let (ms, read, e) =
      >>=-returned (get_recent_summaries s project 1) (λ ms. returned (context_of ms)) h in
    let same : context_of ms ≡ t = cc in
    subst (λ (u : Text). length u ≤ 800) same (context_of-length ms)
