-- ===== src/Policy/Classifier.antt =====
-- packages/policy/src/classifier.ts: the policy's decision on a tool call.
--
-- `regexp_test` is the engine of regular expressions: nothing where the pattern is not one.
pub mod Patterns
pub mod Approval
mod Tests
use secure_openclaw_poc.Common.{
  List, ◌&&◌, ◌++◌, ◌==◌, Bool, Option, String, Text, [], any, codes, if◌then◌else◌, false, get_or,
  is_one_of, is_word, length, ltb, none, not, some, str_eq, text_eq, true, ℕ, ◌∷◌,
}
use secure_openclaw_poc.Types.{
  ActionCategory, PolicyAction, ActionManifest, PolicyDecision, ClassificationOverride,
  ToolClassification, SentinelConfig, write, auto_approve, write_irreversible, read, confirm,
  dangerous,
}
use secure_openclaw_poc.Types.Json.{
  Json, Parameters, lookup, text_or_empty, is_full_array, to_string,
}
use secure_openclaw_poc.Policy.BashParser.{classify_bash_command}
use Patterns.{
  gws_read_patterns, gws_write_patterns, gws_delete_patterns, gmail_send_patterns,
  calendar_create_patterns, has_read_token, has_write_token, split_underscores,
  has_nested_quantifier,
}

abbrev pub last_segment : Text → List Text → Text
last_segment t [] = t
last_segment t (s ∷ ss) = last_segment s ss

unfoldable pub infer_category_from_name : Text → ActionCategory
infer_category_from_name tool_name =
    let segments = split_underscores tool_name [] in
    if any has_write_token segments
    then write
    else if has_read_token (last_segment [] segments)
    then read
    else write

abbrev pub find_classification : String → List ToolClassification → Option ToolClassification
find_classification tool [] = none
find_classification tool (c ∷ cs) =
    let rest = find_classification tool cs in if str_eq c.tool tool then some c else rest

-- A character that `.` does not match.
abbrev is_line_end : ℕ → Bool
is_line_end c = is_one_of c (10 ∷ 13 ∷ 8232 ∷ 8233 ∷ [])

-- `(.+)$`.
abbrev line_only : Text → Option Text
line_only [] = none
line_only (c ∷ cs) = if any is_line_end (c ∷ cs) then none else some (c ∷ cs)

-- `^(\w+)=(.+)$` for the separator `=`; `key` is what was read of the word.
abbrev pub match_condition : (separator : ℕ) (key : Text) → Text → Option (Text × Text)
match_condition separator key [] = none
match_condition separator key (c ∷ cs) =
    let rest = match_condition separator (key ++ c ∷ []) cs in
    if is_word c
    then rest
    else if (c == separator) && not (text_eq key [])
    then elim (line_only cs) [ none ↦ none | some value ↦ some (key, value) ]
    else none

abbrev pub category_to_decision : ActionCategory → (auto_approve_read_ops : Bool) → PolicyDecision
category_to_decision read true = record {
  action = auto_approve;
  category = read;
  reason = "Read operation auto-approved";
}
category_to_decision read false = record {
  action = confirm;
  category = read;
  reason = "Read operation requires confirmation";
}
category_to_decision write auto = record {
  action = confirm;
  category = write;
  reason = "Write operation requires confirmation";
}
category_to_decision write_irreversible auto = record {
  action = confirm;
  category = write_irreversible;
  reason = "Write-irreversible action requires confirmation — cannot be undone";
}
category_to_decision dangerous auto = record {
  action = confirm;
  category = dangerous;
  reason = "Dangerous operation requires confirmation";
}

unfoldable pub classify_gws_tool : Parameters → ActionCategory
classify_gws_tool parameters =
    let service = text_or_empty (lookup (codes "service") parameters) in
    let method = text_or_empty (lookup (codes "method") parameters) in
    if text_eq service (codes "gmail") && gmail_send_patterns method
    then write_irreversible
    else if text_eq service (codes "calendar")
        && (calendar_create_patterns method
            && is_full_array (lookup (codes "attendees") parameters))
    then write_irreversible
    else if gws_delete_patterns method
    then dangerous
    else if gws_read_patterns method
    then read
    else if gws_write_patterns method
    then write
    else write

module _ (regexp_test : (pattern text : Text) → Option Bool) where
  unfoldable pub match_override : (condition : Text) → Parameters → Bool
  match_override condition parameters = elim (match_condition 61 [] condition) [
    | some (key, value) ↦ text_eq (to_string (lookup key parameters)) value
    | none ↦ elim (match_condition 126 [] condition) [
      | none ↦ false
      | some (key, pattern) ↦
          if ltb 200 (length pattern)
          then true
          else if has_nested_quantifier pattern
          then true
          else get_or (regexp_test pattern (to_string (lookup key parameters))) true
    ]
  ]

  abbrev pub apply_overrides :
      ActionCategory → List ClassificationOverride → Parameters → ActionCategory
  apply_overrides category [] parameters = category
  apply_overrides category (o ∷ os) parameters =
      let rest = apply_overrides category os parameters in
      if match_override o.condition parameters then o.category else rest

  -- The category that the configuration gives the tool.
  abbrev pub classified : ToolClassification → Parameters → ActionCategory
  classified c parameters = elim c.overrides [
    | none ↦ c.default_category
    | some os ↦ apply_overrides c.default_category os parameters
  ]

  abbrev pub category_of : ActionManifest → SentinelConfig → ActionCategory
  category_of manifest config =
      if str_eq manifest.tool "bash"
      then classify_bash_command (text_or_empty (lookup (codes "command") manifest.parameters))
      else if str_eq manifest.tool "gws"
      then classify_gws_tool manifest.parameters
      else elim (find_classification manifest.tool config.classifications) [
        | some c ↦ classified c manifest.parameters
        | none ↦ infer_category_from_name (codes manifest.tool)
      ]

  unfoldable pub classify : ActionManifest → SentinelConfig → PolicyDecision
  classify manifest config =
      category_to_decision (category_of manifest config) config.auto_approve_read_ops
