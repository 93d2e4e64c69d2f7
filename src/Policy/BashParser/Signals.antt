-- ===== src/Policy/BashParser/Signals.antt =====
-- packages/policy/src/bash-parser.ts: the word lists, and the tests that regular expressions make there.
-- A text is the list of its code units.
use secure_openclaw_poc.Common.{
  ◌&&◌, ◌==◌, Bool, List, Option, String, [], after_prefix, at_word_end, codes, if◌then◌else◌,
  false, includes, is_space, none, not, skip_spaces, some, ◌||◌, ◌∷◌, starts_with, Text,
}

abbrev words : List String → List Text
words [] = []
words (s ∷ ss) = codes s ∷ words ss

abbrev pub read_commands : List Text
read_commands = words (
    "ls" ∷ "cat" ∷ "head" ∷ "tail" ∷ "wc" ∷ "find" ∷ "grep" ∷ "which" ∷ "pwd" ∷ "echo" ∷ "date"
    ∷ "whoami" ∷ "tree" ∷ "file" ∷ "stat" ∷ [])

abbrev pub read_multi_word : List Text
read_multi_word = words (
    "node --version" ∷ "npm list" ∷ "pnpm list" ∷ "git status" ∷ "git log" ∷ "git diff"
    ∷ "git branch" ∷ [])

abbrev pub write_commands : List Text
write_commands =
    words ("cp" ∷ "mv" ∷ "rm" ∷ "mkdir" ∷ "rmdir" ∷ "touch" ∷ "chmod" ∷ "chown" ∷ "tee" ∷ [])

abbrev pub write_multi_word : List Text
write_multi_word = words (
    "sed -i" ∷ "git push" ∷ "git commit" ∷ "git checkout" ∷ "git reset" ∷ "npm install"
    ∷ "pip install" ∷ "pnpm add" ∷ "pnpm install" ∷ "yarn add" ∷ [])

abbrev pub dangerous_commands : List Text
dangerous_commands = words (
    "curl" ∷ "wget" ∷ "ssh" ∷ "scp" ∷ "rsync" ∷ "nc" ∷ "netcat" ∷ "sudo" ∷ "su" ∷ "printenv" ∷ "env"
    ∷ "eval" ∷ "exec" ∷ "nslookup" ∷ "dig" ∷ "host" ∷ [])

abbrev pub irreversible_commands : List Text
irreversible_commands = words ("mail" ∷ "mailx" ∷ "sendmail" ∷ "mutt" ∷ "postfix" ∷ [])

abbrev pub sensitive_paths : List Text
sensitive_paths =
    words ("~/.ssh/" ∷ "~/.env" ∷ "~/.aws/" ∷ "$HOME/.ssh/" ∷ "$HOME/.env" ∷ "$HOME/.aws/" ∷ [])

-- `>{1,2}(?!>)` at the front of the text: a run of one or two.
abbrev pub at_redirect : Text → Bool
at_redirect t = starts_with t (62 ∷ []) && not (starts_with t (62 ∷ 62 ∷ 62 ∷ []))

-- `(?:^|[^>])>{1,2}(?!>)`; `after_gt` says that the character before is a `>`.
unfoldable pub has_redirect_from : (after_gt : Bool) → Text → Bool
has_redirect_from after_gt [] = false
has_redirect_from after_gt (c ∷ cs) =
    (not after_gt && at_redirect (c ∷ cs)) || has_redirect_from (c == 62) cs

unfoldable pub has_redirect : Text → Bool
has_redirect t = has_redirect_from false t

-- A word of the list at the front, and its end.
abbrev pub at_word_of : List Text → Text → Bool
at_word_of [] t = false
at_word_of (w ∷ ws) t =
    elim (after_prefix w t) [ none ↦ false | some rest ↦ at_word_end rest ] || at_word_of ws t

abbrev pub shells : List Text
shells = words ("sh" ∷ "bash" ∷ "zsh" ∷ [])

-- `\|\s*(sh|bash|zsh)\b`.
unfoldable pub has_pipe_to_shell : Text → Bool
has_pipe_to_shell [] = false
has_pipe_to_shell (c ∷ cs) =
    ((c == 124) && at_word_of shells (skip_spaces cs)) || has_pipe_to_shell cs

abbrev includes_one_of : Text → List Text → Bool
includes_one_of t [] = false
includes_one_of t (p ∷ ps) = includes t p || includes_one_of t ps

unfoldable pub has_sensitive_path : Text → Bool
has_sensitive_path t = includes_one_of t sensitive_paths

-- A later backtick after the first one.
unfoldable pub has_backticks : Text → Bool
has_backticks [] = false
has_backticks (c ∷ cs) =
    let rest = has_backticks cs in if c == 96 then includes cs (96 ∷ []) else rest

-- A `)` after the first `$(`.
unfoldable pub has_dollar_paren : Text → Bool
has_dollar_paren [] = false
has_dollar_paren (c ∷ cs) =
    let rest = has_dollar_paren cs in
    elim (after_prefix (36 ∷ 40 ∷ []) (c ∷ cs)) [
      | none ↦ rest
      | some inside ↦ includes inside (41 ∷ [])
    ]

unfoldable pub has_subshell : Text → Bool
has_subshell t = has_backticks t || has_dollar_paren t

abbrev after_spaces : Text → Option Text
after_spaces [] = none
after_spaces (c ∷ cs) = if is_space c then some (skip_spaces cs) else none

-- `^name\s+flag\b`.
abbrev runs_inline : (name flag : Text) → Text → Bool
runs_inline name flag t = elim (after_prefix name t) [
  | none ↦ false
  | some rest ↦ elim (after_spaces rest) [
    | none ↦ false
    | some argument ↦ at_word_of (flag ∷ []) argument
  ]
]

abbrev one_runs_inline : List Text → (flag : Text) → Text → Bool
one_runs_inline [] flag t = false
one_runs_inline (n ∷ ns) flag t = runs_inline n flag t || one_runs_inline ns flag t

unfoldable pub runs_interpreter : Text → Bool
runs_interpreter t =
    one_runs_inline (words ("python" ∷ "python3" ∷ "sh" ∷ "bash" ∷ "zsh" ∷ "dash" ∷ "ksh" ∷ []))
      (codes "-c") t
    || one_runs_inline (words ("node" ∷ "ruby" ∷ "perl" ∷ "lua" ∷ [])) (codes "-e") t
