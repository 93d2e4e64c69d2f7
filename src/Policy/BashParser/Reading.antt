-- ===== src/Policy/BashParser/Reading.antt =====
-- What a stage that is read runs.
use secure_openclaw_poc.Common.{
  List, Text, [], arith, codes, false, includes, split_spaces, text_eq, text_in, trim, true, ◌||◌,
  ◌≡◌, ◌⊎◌, Bool, Bool-cases, if◌then◌else◌, inl, inr, All, All-map,
}
use secure_openclaw_poc.Types.{ActionCategory}
use secure_openclaw_poc.Policy.BashParser.{
  first_word, two_words, read_or_find, classify_words, is_dangerous, classify_single_command,
  classify_bash_command, read, write_irreversible, dangerous, write,
}
use secure_openclaw_poc.Policy.BashParser.Worst.{blank, stages, classify_bash_command_exact}
use secure_openclaw_poc.Policy.BashParser.Signals.{
  irreversible_commands, dangerous_commands, write_commands, write_multi_word, read_commands,
  read_multi_word, has_redirect, has_pipe_to_shell, has_subshell, has_sensitive_path,
  runs_interpreter,
}

-- The first words are in a list of read commands; `find` neither executes nor deletes.
abbrev pub RunsRead : Text → Type 0
RunsRead t =
    ((text_in (first_word (split_spaces t)) read_commands
        || text_in (two_words (split_spaces t)) read_multi_word)
      ≡ true)
    × (text_eq (first_word (split_spaces t)) (codes "find") ≡ true
        → (includes t (codes "-exec") || includes t (codes "-delete")) ≡ false)

abbrev pub IsQuiet : Text → Type 0
IsQuiet t =
    (has_pipe_to_shell t ≡ false)
    × ((has_sensitive_path t ≡ false) × ((has_subshell t ≡ false) × (runs_interpreter t ≡ false)))

is_dangerous-false : (t : Text) → is_dangerous t ≡ false → IsQuiet t
unfolding is_dangerous
is_dangerous-false t h = ground arith

-- The tests of `classify_words`, in their order, as any Booleans.
tests_for_read :
    (irreversible dangerous_word write_two read_two read_one write_one redirect find changes : Bool)
    → (if irreversible
        then write_irreversible
        else if dangerous_word
        then dangerous
        else if write_two
        then write
        else if read_two
        then (if find then (if changes then write else read) else read)
        else if read_one
        then (if find then (if changes then write else read) else read)
        else if write_one
        then write
        else if redirect
        then write
        else write)
      ≡ read
    → ((read_one || read_two) ≡ true) × (find ≡ true → changes ≡ false)
tests_for_read i d w r r' w' redirect f c h = ground arith

classify_words-read :
    (ws : List Text) (t : Text)
    → classify_words ws t ≡ read
    → ((text_in (first_word ws) read_commands || text_in (two_words ws) read_multi_word) ≡ true)
      × (text_eq (first_word ws) (codes "find") ≡ true
          → (includes t (codes "-exec") || includes t (codes "-delete")) ≡ false)
unfolding classify_words read_or_find
classify_words-read ws t h =
    tests_for_read (text_in (first_word ws) irreversible_commands)
      (text_in (first_word ws) dangerous_commands) (text_in (two_words ws) write_multi_word)
      (text_in (two_words ws) read_multi_word) (text_in (first_word ws) read_commands)
      (text_in (first_word ws) write_commands) (has_redirect t)
      (text_eq (first_word ws) (codes "find"))
      (includes t (codes "-exec") || includes t (codes "-delete")) h

not_blank :
    (is_blank danger : Bool) (c : ActionCategory)
    → (if is_blank then read else if danger then dangerous else c) ≡ read
    → is_blank ≡ false
    → danger ≡ false
    → c ≡ read
not_blank b d c h full quiet = ground arith

-- A single command is read only if it is blank, or runs a command of the lists without a sign of danger.
pub classify_single_command-read :
    (command : Text)
    → classify_single_command command ≡ read
    → (trim command ≡ []) ⊎ (IsQuiet (trim command) × RunsRead (trim command))
unfolding classify_single_command
classify_single_command-read command h =
    let t = trim command in
    elim (Bool-cases (text_eq t [])) [
      | inl is_blank ↦ inl (blank t is_blank)
      | inr full ↦ elim (Bool-cases (is_dangerous t)) [
        | inl danger ↦ cc (h, full, danger)
        | inr quiet ↦ inr (
          is_dangerous-false t quiet,
          classify_words-read (split_spaces t) t (not_blank _ _ _ h full quiet),
        )
      ]
    ]

-- A command that is read, and so runs without a question where reads are approved, sends nothing into
-- a shell, redirects nothing, and each of its stages is blank or runs a command of the lists of read
-- commands without a sign of danger, `find` without an action.
pub classify_bash_command-read :
    (command : Text)
    → classify_bash_command command ≡ read
    → (has_pipe_to_shell (trim command) ≡ false)
      × ((has_redirect (trim command) ≡ false)
          × All (λ s. (trim s ≡ []) ⊎ (IsQuiet (trim s) × RunsRead (trim s))) (stages command))
classify_bash_command-read command h =
    let (safe, (no_redirect, all)) = (classify_bash_command_exact command).0.0 h in
    (safe, (no_redirect, All-map classify_single_command-read (stages command) all))
