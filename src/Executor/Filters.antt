-- ===== src/Executor/Filters.antt =====
-- packages/executor/src/credential-filter.ts and pii-scrubber.ts. The replacements of
-- packages/types/src/credential-patterns.ts are functions given to the filters.
use secure_openclaw_poc.Common.{Bool, Option, String, Text, [], none, not, some, text_eq, ℕ, ◌∷◌}

pub record ToolResult : Type 0 where
  pub manifest_id : String
  pub success : Bool
  pub output : Option Text
  pub error : Option Text
  pub duration_ms : ℕ

-- `text ? f(text) : text`.
abbrev pub if_any : (Text → Text) → Option Text → Option Text
if_any f none = none
if_any f (some []) = some []
if_any f (some (c ∷ cs)) = some (f (c ∷ cs))

abbrev pub on_texts : (Text → Text) → ToolResult → ToolResult
on_texts f r = record r { output = if_any f r.output; error = if_any f r.error }

unfoldable pub filter_credentials : (redact_all : Text → Text) → ToolResult → ToolResult
filter_credentials redact_all r = on_texts redact_all r

unfoldable pub scrub_pii : (redact_pii : Text → Text) → ToolResult → ToolResult
scrub_pii redact_pii r = on_texts redact_pii r

unfoldable pub contains_pii : (redact_pii : Text → Text) → Text → Bool
contains_pii redact_pii text = not (text_eq (redact_pii text) text)
