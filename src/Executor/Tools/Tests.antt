-- ===== src/Executor/Tools/Tests.antt =====
-- Runs of the file tools.

use secure_openclaw_poc.Common.{
  ◌++◌, Text, [], codes, if◌then◌else◌, false, includes, is_space, none, refl, skip_spaces, some,
  split_on, text_eq, trim, true, ◌∷◌, ◌≡◌, ◌⊎◌,
}
use secure_openclaw_poc.Executor.Tools.Replace.{expand, occurrences, replace_first}
use secure_openclaw_poc.Executor.Tools.Files.Edited.{edit_events, execute_edit_file-edited}
use secure_openclaw_poc.Executor.Tools.DenyList.{basename, is_denied_path}
use secure_openclaw_poc.Common.Outcome.{Outcome, returned, thrown}
use secure_openclaw_poc.Executor.Tools.PathGuard.Within.{IsWithin, is_path_allowed-IsWithin}
use secure_openclaw_poc.Executor.Tools.Files.Guarded.{
  IsGuarded, execute_file, execute_file-IsGuarded, writing,
}
use secure_openclaw_poc.Executor.Tools.PathGuard.{
  IoCode, Paths, allowed, effective_roots, enoent, is_path_allowed, outside_roots, denied,
}
use secure_openclaw_poc.Executor.Tools.Replace.Found.{HasNone, NoneBefore}
use secure_openclaw_poc.Executor.Tools.Files.{Disk, IoError, edited, execute_edit_file}

abbrev unchanged : Text → Text
unchanged t = t

-- Each path is its own real path, but for `/w/new`, which is not there.
abbrev real : Text → Outcome IoCode Text
real t = if text_eq t (codes "/w/new") then thrown enoent else returned t

abbrev paths : Paths
paths = record {
  resolve = unchanged;
  dirname = λ t. codes "/w";
  join = λ d b. d ++ 47 ∷ b;
  realpath = real;
  cwd = codes "/w";
  sentinel_allowed_roots = none;
  is_docker = false;
}

abbrev disk : Disk
disk = record {
  read_file = λ path. returned (codes "one two");
  decode = unchanged;
  mkdir = λ path. returned tt;
  open_file = λ path. returned tt;
  read_open = λ path. returned (codes "one two");
  truncate_open = λ path. returned tt;
  write_open = λ path content. returned tt;
  close_open = λ path. returned tt;
}

keys_are_denied :
    (is_denied_path unchanged (codes "a/b.pem") ≡ true)
    × (is_denied_path unchanged (codes ".env.local/") ≡ true)
    × (is_denied_path unchanged (codes "a\\.git\\config") ≡ true)
    × (is_denied_path unchanged (codes "src/index.ts") ≡ false)
unfolding is_denied_path includes
keys_are_denied = (refl, refl, refl, refl)

new_file_is_placed : is_path_allowed paths (codes "/w/new") none ≡ allowed (codes "/w/new")
unfolding is_path_allowed basename
new_file_is_placed = refl

sibling_is_refused :
    is_path_allowed paths (codes "/ww/a") none ≡ denied (codes "/ww/a") outside_roots
unfolding is_path_allowed
sibling_is_refused = refl

-- A variable of blanks stands for no root, and every path is allowed.
abbrev blank_paths : Paths
blank_paths = record paths { sentinel_allowed_roots = some (codes " , ") }

blank_roots_allow_all :
    is_path_allowed blank_paths (codes "/etc/passwd") none ≡ allowed (codes "/etc/passwd")
unfolding is_path_allowed effective_roots split_on trim skip_spaces is_space
blank_roots_allow_all = refl

is_path_allowed-IsWithin_example :
    (effective_roots paths (some (codes "/w" ∷ [])) ≡ [])
    ⊎ IsWithin paths (codes "/w/a") (effective_roots paths (some (codes "/w" ∷ []))) (codes "/w/a")
unfolding is_path_allowed
is_path_allowed-IsWithin_example =
    is_path_allowed-IsWithin paths (codes "/w/a") (some (codes "/w" ∷ [])) (codes "/w/a") refl

execute_file-IsGuarded_example :
    ((execute_file unchanged paths disk none (writing (codes "/w/a") (codes "x"))).0 ≡ [])
    ⊎ IsGuarded unchanged paths disk none
        (writing (codes "/w/a") (codes "x"))
        (execute_file unchanged paths disk none (writing (codes "/w/a") (codes "x"))).0
execute_file-IsGuarded_example =
    execute_file-IsGuarded unchanged paths disk none (writing (codes "/w/a") (codes "x"))

-- Two dollar signs in the new text write one.
dollars_are_joined :
    execute_edit_file unchanged paths disk none (codes "/w/a") (codes "two") (codes "$$2")
    ≡ (edit_events (codes "/w/a") (codes "one $2"), edited (codes "/w/a"))
unfolding execute_edit_file is_denied_path includes is_path_allowed occurrences replace_first
dollars_are_joined = refl

execute_edit_file-edited_example :
    (before : Text) × (after : Text) × (◌≡◌ {A = Outcome IoError Text}
      (returned (codes "one two"))
      (returned (before ++ (codes "two" ++ after))))
    × NoneBefore (codes "two") before (codes "two" ++ after)
    × HasNone (codes "two") after
    × (edit_events (codes "/w/a") (codes "one $2")
        ≡ edit_events
            (codes "/w/a")
            (before ++ (expand before (codes "two") after (codes "$$2") ++ after)))
execute_edit_file-edited_example =
    execute_edit_file-edited unchanged paths disk none (codes "/w/a") (codes "two") (codes "$$2")
      (edit_events (codes "/w/a") (codes "one $2")) dollars_are_joined
