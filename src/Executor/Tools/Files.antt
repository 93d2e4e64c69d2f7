-- ===== src/Executor/Tools/Files.antt =====
-- packages/executor/src/tools/read-file.ts, write-file.ts and edit-file.ts.
--
-- A run is the list of the calls of the file system, in order, with its result. What each call gives
-- comes from outside, as `Disk`; the files that it opens are opened without following a link.
pub mod Guarded
pub mod Edited
use secure_openclaw_poc.Common.{
  ◌&&◌, ◌++◌, List, Option, Text, [], codes, if◌then◌else◌, get_or, length, not, starts_with, take,
  ℕ, ◌∷◌,
}
use secure_openclaw_poc.Executor.Tools.DenyList.{is_denied_path}
use secure_openclaw_poc.Common.Outcome.{Outcome, returned, thrown}
use secure_openclaw_poc.Executor.Tools.Replace.{
  Occurrences, not_found, occurrences, replace_first, several, single,
}
use secure_openclaw_poc.Executor.Tools.PathGuard.{
  IoCode, PathGuardResult, Paths, Reason, allowed, eloop, emlink, enoent, is_path_allowed, other,
  denied,
}
use secure_openclaw_poc.Executor.Run.{Run, give, ◌>>=◌, ◌>>◌}

pub record IoError : Type 0 where
  pub code : IoCode
  pub message : Text

pub record Disk : Type 0 where
  pub read_file : (path : Text) → Outcome IoError (List ℕ)
  pub decode : List ℕ → Text
  pub mkdir : (path : Text) → Outcome IoError (Unit {0})
  pub open_file : (path : Text) → Outcome IoError (Unit {0})
  pub read_open : (path : Text) → Outcome IoError Text
  pub truncate_open : (path : Text) → Outcome IoError (Unit {0})
  pub write_open : (path content : Text) → Outcome IoError (Unit {0})
  pub close_open : (path : Text) → Outcome IoError (Unit {0})

pub data Event : Type 0 where
  reads : (path : Text) → Event
  makes_directory : (path : Text) → Event
  opens : (path : Text) → Event
  reads_open : Event
  truncates : Event
  writes : (content : Text) → Event
  closes : Event

pub data ToolError : Type 0 where
  path_restricted outside_data_directory through_symlink old_string_not_found : ToolError
  path_refused : Reason → ToolError
  found_several : ℕ → ToolError
  io : (message : Text) → ToolError

pub data FileResult : Type 0 where
  content_read : Text → FileResult
  written : (length : ℕ) (path : Text) → FileResult
  edited : (path : Text) → FileResult
  failed : ToolError → FileResult

abbrev pub FileRun : Type 0 → Type 0
FileRun A = Run Event IoError A

abbrev pub call : {A : Type 0} → Event → Outcome IoError A → FileRun A
call e o = record { events = e ∷ []; outcome = o }

abbrev pub after_close :
    {A : Type 0} → Outcome IoError A → Outcome IoError (Unit {0}) → Outcome IoError A
after_close o (returned done) = o
after_close o (thrown e) = thrown e

-- `try { body } finally { await fd.close(); }`.
abbrev pub finally_close : {A : Type 0} → Disk → (path : Text) → FileRun A → FileRun A
finally_close disk path body = record {
  events = body.events ++ closes ∷ [];
  outcome = after_close body.outcome (disk.close_open path);
}

-- What the `catch` of a tool that writes makes of an error.
abbrev pub error_of : IoError → IoCode → ToolError
error_of e eloop = through_symlink
error_of e emlink = through_symlink
error_of e enoent = io e.message
error_of e (other code) = io e.message

abbrev pub result_of : Outcome IoError FileResult → FileResult
result_of (returned r) = r
result_of (thrown e) = failed (error_of e e.code)

abbrev pub caught : FileRun FileResult → List Event × FileResult
caught m = (m.events, result_of m.outcome)

abbrev pub refuse : ToolError → List Event × FileResult
refuse e = ([], failed e)

abbrev pub write_prefix : Text
write_prefix = codes "/app/data/"

module _ (disk : Disk) where
  abbrev pub read_result : (max_bytes : Option ℕ) → Outcome IoError (List ℕ) → FileResult
  read_result max_bytes (thrown e) = failed (io e.message)
  read_result max_bytes (returned buffer) =
      content_read (disk.decode (take (get_or max_bytes (length buffer)) buffer))

  abbrev pub edit_content :
      (path old_string new_string content : Text) → Occurrences → FileRun FileResult
  edit_content path old_string new_string content not_found = give (failed old_string_not_found)
  edit_content path old_string new_string content (several n) = give (failed (found_several n))
  edit_content path old_string new_string content single =
      let updated = replace_first content old_string new_string in
      call truncates (disk.truncate_open path)
      >> (call (writes updated) (disk.write_open path updated) >> give (edited path))

  abbrev pub edit_body : (path old_string new_string resolved : Text) → FileRun FileResult
  edit_body path old_string new_string resolved =
      call (opens path) (disk.open_file path)
      >> finally_close disk path (
          call reads_open (disk.read_open path) >>= λ content.
          edit_content path old_string new_string content (occurrences content old_string))

module _ (p : Paths) (disk : Disk) where
  abbrev pub write_body : (path content resolved : Text) → FileRun FileResult
  write_body path content resolved =
      call (makes_directory (p.dirname resolved)) (disk.mkdir (p.dirname resolved))
      >> (call (opens path) (disk.open_file path)
          >> (finally_close disk path (call (writes content) (disk.write_open path content))
              >> give (written (length content) path)))

module _ (lower : Text → Text) (p : Paths) (disk : Disk) (allowed_roots : Option (List Text)) where
  pub read_guarded : (max_bytes : Option ℕ) → PathGuardResult → List Event × FileResult
  read_guarded max_bytes (denied resolved reason) = refuse (path_refused reason)
  read_guarded max_bytes (allowed resolved) =
      (reads resolved ∷ [], read_result disk max_bytes (disk.read_file resolved))

  unfoldable pub execute_read_file : (path : Text) (max_bytes : Option ℕ) → List Event × FileResult
  unfolding read_guarded
  execute_read_file path max_bytes =
      if is_denied_path lower path
      then refuse path_restricted
      else read_guarded max_bytes (is_path_allowed p path allowed_roots)

  -- What a tool that writes does with the verdict on its path.
  pub write_guarded :
      ((resolved : Text) → FileRun FileResult) → PathGuardResult → List Event × FileResult
  write_guarded body (denied resolved reason) = refuse (path_refused reason)
  write_guarded body (allowed resolved) =
      if p.is_docker && not (starts_with resolved write_prefix)
      then refuse outside_data_directory
      else caught (body resolved)

  unfoldable pub guarded :
      (path : Text) → ((resolved : Text) → FileRun FileResult) → List Event × FileResult
  unfolding write_guarded
  guarded path body =
      if is_denied_path lower path
      then refuse path_restricted
      else write_guarded body (is_path_allowed p path allowed_roots)

  unfoldable pub execute_write_file : (path content : Text) → List Event × FileResult
  unfolding guarded
  execute_write_file path content = guarded path (write_body p disk path content)

  unfoldable pub execute_edit_file : (path old_string new_string : Text) → List Event × FileResult
  unfolding guarded
  execute_edit_file path old_string new_string =
      guarded path (edit_body disk path old_string new_string)
