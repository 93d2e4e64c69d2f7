-- ===== src/Policy/BashParser.antt =====
-- packages/policy/src/bash-parser.ts: the category of a shell command, which is that of its worst stage.
pub mod Signals
pub mod Split
pub mod Worst
pub mod Reading
mod Tests
use secure_openclaw_poc.Common.{
  List, ◌&&◌, ◌++◌, Bool, Text, [], codes, if◌then◌else◌, includes, leb, ltb, split_spaces, text_eq,
  text_in, trim, ◌||◌, ℕ, ◌∷◌,
}
use secure_openclaw_poc.Types.{ActionCategory, write, write_irreversible, read, dangerous}
use Signals.{
  read_commands, read_multi_word, write_commands, write_multi_word, dangerous_commands,
  irreversible_commands, has_redirect, has_pipe_to_shell, has_sensitive_path, has_subshell,
  runs_interpreter,
}
use Split.{split_chained_commands, split_pipeline}

-- `words[0]`.
abbrev pub first_word : List Text → Text
first_word [] = []
first_word (w ∷ ws) = w

-- `words.slice(0, 2).join(" ")`.
abbrev pub two_words : List Text → Text
two_words [] = []
two_words (w ∷ []) = w
two_words (w ∷ v ∷ ws) = w ++ 32 ∷ v

-- What both branches for read commands do.
pub read_or_find : (first trimmed : Text) → ActionCategory
read_or_find first trimmed =
    if text_eq first (codes "find")
    then (if includes trimmed (codes "-exec") || includes trimmed (codes "-delete")
        then write
        else read)
    else read

pub classify_words : (words : List Text) (trimmed : Text) → ActionCategory
unfolding read_or_find
classify_words words trimmed =
    let first = first_word words in
    let two = two_words words in
    if text_in first irreversible_commands
    then write_irreversible
    else if text_in first dangerous_commands
    then dangerous
    else if text_in two write_multi_word
    then write
    else if text_in two read_multi_word
    then read_or_find first trimmed
    else if text_in first read_commands
    then read_or_find first trimmed
    else if text_in first write_commands
    then write
    else if has_redirect trimmed
    then write
    else write

pub is_dangerous : Text → Bool
is_dangerous t =
    has_pipe_to_shell t || (has_sensitive_path t || (has_subshell t || runs_interpreter t))

pub classify_single_command : Text → ActionCategory
unfolding classify_words is_dangerous
classify_single_command command =
    let trimmed = trim command in
    if text_eq trimmed []
    then read
    else if is_dangerous trimmed
    then dangerous
    else classify_words (split_spaces trimmed) trimmed

abbrev pub category_order : ActionCategory → ℕ
category_order read = 0
category_order write = 1
category_order write_irreversible = 2
category_order dangerous = 3

abbrev pub max_category : ActionCategory → ActionCategory → ActionCategory
max_category a b = if leb (category_order b) (category_order a) then a else b

pub worst_of_stages : (worst : ActionCategory) → List Text → ActionCategory
unfolding classify_single_command
worst_of_stages worst [] = worst
worst_of_stages worst (stage ∷ stages) =
    worst_of_stages (max_category worst (classify_single_command stage)) stages

pub worst_of_segments : (worst : ActionCategory) → List Text → ActionCategory
unfolding worst_of_stages
worst_of_segments worst [] = worst
worst_of_segments worst (segment ∷ segments) =
    worst_of_segments (worst_of_stages worst (split_pipeline segment)) segments

unfoldable pub classify_bash_command : Text → ActionCategory
unfolding worst_of_segments
classify_bash_command command =
    let trimmed = trim command in
    let worst = worst_of_segments read (split_chained_commands trimmed) in
    if text_eq trimmed []
    then read
    else if has_pipe_to_shell trimmed
    then dangerous
    else if has_redirect trimmed && ltb (category_order worst) (category_order write)
    then write
    else worst
