-- ===== src/Policy/Classifier/Tests.antt =====
-- Decisions of the policy, and its theorems at concrete calls.
use secure_openclaw_poc.Policy.BashParser.Split.{split_chained_commands, split_pipeline}
use secure_openclaw_poc.Policy.BashParser.{classify_bash_command}
use secure_openclaw_poc.Policy.Classifier.Patterns.{
  has_nested_quantifier, has_write_token, word_between, has_read_token,
}
use secure_openclaw_poc.Common.{
  Bool, Option, String, Text, [], codes, none, refl, trim, true, ◌∷◌, ◌≡◌, is_word, skip_spaces,
  is_space, includes, text_in, split_spaces,
}
use secure_openclaw_poc.Types.{ActionManifest, SentinelConfig}
use secure_openclaw_poc.Types.Json.{Json, Parameters, to_string}
use secure_openclaw_poc.Policy.Classifier.{
  classify, infer_category_from_name, classify_gws_tool, match_override, read, write, dangerous,
  auto_approve,
}
use secure_openclaw_poc.Policy.BashParser.Signals.{
  has_redirect, has_pipe_to_shell, has_redirect_from, has_sensitive_path, has_subshell,
  has_backticks, has_dollar_paren, runs_interpreter,
}

abbrev no_engine : (pattern text : Text) → Option Bool
no_engine pattern text = none

abbrev call : String → Parameters → ActionManifest
call tool parameters = record {
  id = "m";
  timestamp = "2026";
  tool = tool;
  parameters = parameters;
  category = none;
  session_id = "s";
  agent_id = "a";
}

abbrev config : SentinelConfig
config = record { classifications = []; auto_approve_read_ops = true }

search_is_read : infer_category_from_name (codes "github__search-issues") ≡ read
unfolding infer_category_from_name has_write_token word_between has_read_token
search_is_read = refl

update_is_write : infer_category_from_name (codes "get_or_Update") ≡ write
unfolding infer_category_from_name has_write_token word_between
update_is_write = refl

trash_is_dangerous :
    classify_gws_tool (
      (codes "service", Json.text (codes "gmail"))
      ∷ (codes "method", Json.text (codes "users.messages.trash"))
      ∷ [])
    ≡ dangerous
unfolding classify_gws_tool word_between is_word
trash_is_dangerous = refl

equal_override :
    match_override no_engine (codes "mode=force") ((codes "mode", Json.text (codes "force")) ∷ [])
    ≡ true
unfolding match_override is_word to_string
equal_override = refl

-- A pattern with nested quantifiers counts as matching.
slow_override : match_override no_engine (codes "path~(a+)+$") [] ≡ true
unfolding match_override is_word has_nested_quantifier skip_spaces is_space includes
slow_override = refl

abbrev listing : ActionManifest
listing = call "bash" ((codes "command", Json.text (codes "ls -la")) ∷ [])

listing_is_approved : (classify no_engine listing config).action ≡ auto_approve
unfolding classify classify_bash_command trim skip_spaces is_space has_pipe_to_shell has_redirect
    has_redirect_from split_chained_commands split_pipeline has_sensitive_path includes has_subshell
    has_backticks has_dollar_paren runs_interpreter text_in split_spaces
listing_is_approved = refl
