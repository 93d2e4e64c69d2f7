-- ===== src/Policy/BashParser/Tests.antt =====
-- Commands and their categories, and the theorems at concrete commands.
use secure_openclaw_poc.Policy.BashParser.Split.{split_chained_commands, split_pipeline}
use secure_openclaw_poc.Policy.BashParser.Signals.{
  has_pipe_to_shell, has_redirect, has_redirect_from, has_sensitive_path, has_subshell,
  has_backticks, has_dollar_paren, runs_interpreter,
}
use secure_openclaw_poc.Common.{
  codes, refl, ◌≡◌, trim, skip_spaces, is_space, includes, text_in, split_spaces, ◌++◌, All, Text,
  [], false, ◌↔◌, ◌∷◌, ◌≤◌, ◌⊎◌,
}
use secure_openclaw_poc.Policy.BashParser.{
  classify_bash_command, write, dangerous, read, classify_single_command, category_order,
}
use secure_openclaw_poc.Policy.BashParser.Worst.{stages, classify_bash_command_exact}
use secure_openclaw_poc.Policy.BashParser.Reading.{IsQuiet, RunsRead, classify_bash_command-read}
use secure_openclaw_poc.Policy.BashParser.Signals.{has_redirect, has_pipe_to_shell}

chained : classify_bash_command (codes "ls -la && rm -rf x") ≡ write
unfolding classify_bash_command trim skip_spaces is_space has_pipe_to_shell has_redirect
    has_redirect_from split_chained_commands split_pipeline has_sensitive_path includes has_subshell
    has_backticks has_dollar_paren runs_interpreter text_in split_spaces
chained = refl

piped_into_shell : classify_bash_command (codes "cat x | bash") ≡ dangerous
unfolding classify_bash_command trim skip_spaces is_space has_pipe_to_shell
piped_into_shell = refl

quoted : classify_bash_command (codes "echo 'a; b' | wc") ≡ read
unfolding classify_bash_command trim skip_spaces is_space has_pipe_to_shell has_redirect
    has_redirect_from split_chained_commands split_pipeline has_sensitive_path includes has_subshell
    has_backticks has_dollar_paren runs_interpreter text_in split_spaces
quoted = refl

substitution : classify_bash_command (codes "echo $(rm -rf x | cat -)") ≡ read
unfolding classify_bash_command trim skip_spaces is_space has_pipe_to_shell has_redirect
    has_redirect_from split_chained_commands split_pipeline has_sensitive_path includes has_subshell
    has_backticks has_dollar_paren runs_interpreter text_in split_spaces
substitution = refl

background : classify_bash_command (codes "ls & rm -rf x") ≡ read
unfolding classify_bash_command trim skip_spaces is_space has_pipe_to_shell has_redirect
    has_redirect_from split_chained_commands split_pipeline has_sensitive_path includes has_subshell
    has_backticks has_dollar_paren runs_interpreter text_in split_spaces
background = refl

newline : classify_bash_command (codes "ls" ++ 10 ∷ codes "rm -rf x") ≡ read
unfolding classify_bash_command trim skip_spaces is_space has_pipe_to_shell has_redirect
    has_redirect_from split_chained_commands split_pipeline has_sensitive_path includes has_subshell
    has_backticks has_dollar_paren runs_interpreter text_in split_spaces
newline = refl

escaped : classify_bash_command (codes "echo \\( ; rm -rf x") ≡ read
unfolding classify_bash_command trim skip_spaces is_space has_pipe_to_shell has_redirect
    has_redirect_from split_chained_commands split_pipeline has_sensitive_path includes has_subshell
    has_backticks has_dollar_paren runs_interpreter text_in split_spaces
escaped = refl

abbrev listing : Text
listing = codes "git log | head -3"

listing_is_read : classify_bash_command listing ≡ read
unfolding classify_bash_command trim skip_spaces is_space has_pipe_to_shell has_redirect
    has_redirect_from split_chained_commands split_pipeline has_sensitive_path includes has_subshell
    has_backticks has_dollar_paren runs_interpreter text_in split_spaces
listing_is_read = refl

classify_bash_command_exact_example :
    ((classify_bash_command listing ≡ read) ↔ (
      (has_pipe_to_shell (trim listing) ≡ false)
      × ((has_redirect (trim listing) ≡ false)
          × All (λ s. classify_single_command s ≡ read) (stages listing))))
    × All
        (λ s.
          category_order (classify_single_command s)
          ≤ category_order (classify_bash_command listing))
        (stages listing)
classify_bash_command_exact_example = classify_bash_command_exact listing

classify_bash_command-read_example :
    (has_pipe_to_shell (trim listing) ≡ false)
    × ((has_redirect (trim listing) ≡ false)
        × All (λ s. (trim s ≡ []) ⊎ (IsQuiet (trim s) × RunsRead (trim s))) (stages listing))
classify_bash_command-read_example = classify_bash_command-read listing listing_is_read
