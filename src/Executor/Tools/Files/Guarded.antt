-- ===== src/Executor/Tools/Files/Guarded.antt =====
-- Which calls the file tools make.

-- A call of a file tool.
use secure_openclaw_poc.Executor.Run.{◌>>=◌, ◌>>◌, give}
use secure_openclaw_poc.Common.{
  ◌&&◌, All, All-append, Bool, List, Option, Text, [], false, not, refl, starts_with, ℕ, ◌∷◌, ◌≡◌,
  Bool-cases, inl, inr, length, ◌⊎◌,
}
use secure_openclaw_poc.Executor.Tools.DenyList.{is_denied_path}
use secure_openclaw_poc.Executor.Run.{continue, give}
use secure_openclaw_poc.Executor.Tools.PathGuard.{Paths, allowed, is_path_allowed, PathGuardResult}
use secure_openclaw_poc.Common.Outcome.{Outcome, returned, thrown}
use secure_openclaw_poc.Executor.Tools.Replace.{
  Occurrences, not_found, occurrences, replace_first, several, single,
}
use secure_openclaw_poc.Executor.Tools.Files.{
  Disk, FileResult, FileRun, IoError, call, closes, edit_body, edit_content, edited,
  execute_edit_file, execute_read_file, execute_write_file, finally_close, makes_directory, opens,
  reads, reads_open, truncates, write_body, write_prefix, writes, Event, after_close, guarded,
  read_guarded, write_guarded, written, denied,
}

pub data FileCall : Type 0 where
  reading : (path : Text) (max_bytes : Option ℕ) → FileCall
  writing : (path content : Text) → FileCall
  editing : (path old_string new_string : Text) → FileCall

abbrev pub path_of : FileCall → Text
path_of (reading path max_bytes) = path
path_of (writing path content) = path
path_of (editing path old_string new_string) = path

-- A tool that writes, in the container, writes below the data directory.
abbrev pub is_outside : FileCall → (is_docker : Bool) → (resolved : Text) → Bool
is_outside (reading path max_bytes) is_docker resolved = false
is_outside (writing path content) is_docker resolved =
    is_docker && not (starts_with resolved write_prefix)
is_outside (editing path old_string new_string) is_docker resolved =
    is_docker && not (starts_with resolved write_prefix)

module _ (p : Paths) where
  -- Of the two paths, the tools read the resolved one, open the one that was given, and make the
  -- directory of the resolved one.
  abbrev pub Touches : (path resolved : Text) → Event → Type 0
  Touches path resolved (reads q) = q ≡ resolved
  Touches path resolved (makes_directory q) = q ≡ p.dirname resolved
  Touches path resolved (opens q) = q ≡ path
  Touches path resolved reads_open = Unit
  Touches path resolved truncates = Unit
  Touches path resolved (writes content) = Unit
  Touches path resolved closes = Unit

  continue-All :
      {A B : Type 0} (P : Event → Type 0) (before : List Event) (o : Outcome IoError A)
      (next : A → FileRun B)
      → All P before
      → ((a : A) → All P (next a).events)
      → All P (continue before o next).events
  continue-All P before (returned a) next h k = All-append P before (next a).events h (k a)
  continue-All P before (thrown e) next h k = h

  module _ (disk : Disk) (path resolved : Text) where
    edit_content-All :
        (old_string new_string content : Text) (found : Occurrences)
        → All
            (Touches path resolved)
            (edit_content disk path old_string new_string content found).events
    edit_content-All old_string new_string content not_found = tt
    edit_content-All old_string new_string content (several n) = tt
    edit_content-All old_string new_string content single =
        let updated = replace_first content old_string new_string in
        continue-All (Touches path resolved) (truncates ∷ []) (disk.truncate_open path)
          (λ cut. call (writes updated) (disk.write_open path updated) >> give (edited path))
          (tt, tt)
          (λ cut.
            continue-All (Touches path resolved) (writes updated ∷ [])
              (disk.write_open path updated) (λ wrote. give (edited path)) (tt, tt) (λ wrote. tt))

    edit_body-All :
        (old_string new_string : Text)
        → All (Touches path resolved) (edit_body disk path old_string new_string resolved).events
    edit_body-All old_string new_string =
        continue-All (Touches path resolved) (opens path ∷ []) (disk.open_file path)
          (λ opened. finally_close disk path (
            call reads_open (disk.read_open path) >>= λ (content : Text).
            edit_content disk path old_string new_string content (occurrences content old_string)))
          (refl, tt)
          (λ opened.
            All-append (Touches path resolved)
              (call reads_open (disk.read_open path) >>= λ (content : Text).
                edit_content disk path old_string new_string content
                  (occurrences content old_string)).events
              (closes ∷ [])
              (continue-All (Touches path resolved) (reads_open ∷ []) (disk.read_open path)
                (λ (content : Text).
                  edit_content disk path old_string new_string content
                    (occurrences content old_string))
                (tt, tt)
                (λ (content : Text).
                  edit_content-All old_string new_string content (occurrences content old_string)))
              (tt, tt))

  write_body-All :
      (disk : Disk) (path content resolved : Text)
      → All (Touches path resolved) (write_body p disk path content resolved).events
  write_body-All disk path content resolved =
      let write = call (writes content) (disk.write_open path content) in
      continue-All (Touches path resolved) (makes_directory (p.dirname resolved) ∷ [])
        (disk.mkdir (p.dirname resolved))
        (λ made.
          call (opens path) (disk.open_file path)
          >> (finally_close disk path write >> give (written (length content) path)))
        (refl, tt)
        (λ made.
          continue-All (Touches path resolved) (opens path ∷ []) (disk.open_file path)
            (λ opened. finally_close disk path write >> give (written (length content) path))
            (refl, tt)
            (λ opened.
              continue-All (Touches path resolved) (writes content ∷ closes ∷ [])
                (after_close (disk.write_open path content) (disk.close_open path))
                (λ closed. give (written (length content) path)) (tt, (tt, tt)) (λ closed. tt)))

module _ (lower : Text → Text) (p : Paths) (disk : Disk) (roots : Option (List Text)) where
  unfoldable pub execute_file : FileCall → List Event × FileResult
  execute_file (reading path max_bytes) = execute_read_file lower p disk roots path max_bytes
  execute_file (writing path content) = execute_write_file lower p disk roots path content
  execute_file (editing path old_string new_string) =
      execute_edit_file lower p disk roots path old_string new_string

  -- The path is not on the deny list, the guard of paths allows it, and its place is inside the data
  -- directory where that is asked for.
  abbrev pub IsGuarded : FileCall → List Event → Type 0
  IsGuarded c events =
      (resolved : Text) × (is_denied_path lower (path_of c) ≡ false)
      × (is_path_allowed p (path_of c) roots ≡ allowed resolved)
      × (is_outside c p.is_docker resolved ≡ false)
      × All (Touches p (path_of c) resolved) events

  write_guarded-IsGuarded :
      (path : Text) (body : (resolved : Text) → FileRun FileResult)
      → ((resolved : Text) → All (Touches p path resolved) (body resolved).events)
      → (v : PathGuardResult) → is_path_allowed p path roots ≡ v
      → ((write_guarded lower p disk roots body v).0 ≡ [])
        ⊎ ((resolved : Text) × (is_path_allowed p path roots ≡ allowed resolved)
            × ((p.is_docker && not (starts_with resolved write_prefix)) ≡ false)
            × All (Touches p path resolved) (write_guarded lower p disk roots body v).0)
  unfolding write_guarded
  write_guarded-IsGuarded path body t (denied resolved reason) e = inl refl
  write_guarded-IsGuarded path body t (allowed resolved) e =
      elim (Bool-cases (p.is_docker && not (starts_with resolved write_prefix))) [
        | inl out ↦ inl (rw out refl)
        | inr inside ↦ inr (resolved, e, inside, rw inside (t resolved))
      ]

  guarded-IsGuarded :
      (path : Text) (body : (resolved : Text) → FileRun FileResult)
      → ((resolved : Text) → All (Touches p path resolved) (body resolved).events)
      → ((guarded lower p disk roots path body).0 ≡ [])
        ⊎ ((resolved : Text) × (is_denied_path lower path ≡ false)
            × (is_path_allowed p path roots ≡ allowed resolved)
            × ((p.is_docker && not (starts_with resolved write_prefix)) ≡ false)
            × All (Touches p path resolved) (guarded lower p disk roots path body).0)
  unfolding guarded
  guarded-IsGuarded path body t = elim (Bool-cases (is_denied_path lower path)) [
    | inl listed ↦ inl (rw listed refl)
    | inr free ↦ elim (write_guarded-IsGuarded path body t (is_path_allowed p path roots) refl) [
      | inl none_made ↦ inl (rw free none_made)
      | inr (resolved, e, inside, all) ↦ inr (resolved, free, e, inside, rw free all)
    ]
  ]

  read_guarded-IsGuarded :
      (path : Text) (max_bytes : Option ℕ) (v : PathGuardResult)
      → is_path_allowed p path roots ≡ v
      → ((read_guarded lower p disk roots max_bytes v).0 ≡ [])
        ⊎ ((resolved : Text) × (is_path_allowed p path roots ≡ allowed resolved)
            × All (Touches p path resolved) (read_guarded lower p disk roots max_bytes v).0)
  unfolding read_guarded
  read_guarded-IsGuarded path max_bytes (denied resolved reason) e = inl refl
  read_guarded-IsGuarded path max_bytes (allowed resolved) e = inr (resolved, e, (refl, tt))

  read_file-IsGuarded :
      (path : Text) (max_bytes : Option ℕ)
      → ((execute_read_file lower p disk roots path max_bytes).0 ≡ [])
        ⊎ IsGuarded (reading path max_bytes) (execute_read_file lower p disk roots path max_bytes).0
  unfolding execute_read_file
  read_file-IsGuarded path max_bytes = elim (Bool-cases (is_denied_path lower path)) [
    | inl listed ↦ inl (rw listed refl)
    | inr free ↦ elim (read_guarded-IsGuarded path max_bytes (is_path_allowed p path roots) refl) [
      | inl none_made ↦ inl (rw free none_made)
      | inr (resolved, e, all) ↦ inr (resolved, free, e, refl, rw free all)
    ]
  ]

  -- A file tool that calls the file system at all has a path that is not on the deny list, which the
  -- guard of paths allows, and whose place is inside the data directory if the tool writes in the
  -- container; and it touches no other path than these two and the directory.
  pub execute_file-IsGuarded :
      (c : FileCall) → ((execute_file c).0 ≡ []) ⊎ IsGuarded c (execute_file c).0
  unfolding execute_file execute_write_file execute_edit_file
  execute_file-IsGuarded (reading path max_bytes) = read_file-IsGuarded path max_bytes
  execute_file-IsGuarded (writing path content) =
      guarded-IsGuarded path (write_body p disk path content) (write_body-All p disk path content)
  execute_file-IsGuarded (editing path old_string new_string) =
      guarded-IsGuarded path (edit_body disk path old_string new_string)
        (λ resolved. edit_body-All p disk path resolved old_string new_string)
