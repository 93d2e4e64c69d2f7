-- ===== src/Executor/Tools/Files/Edited.antt =====
-- What an edit writes.

use secure_openclaw_poc.Executor.Tools.DenyList.{is_denied_path}
use secure_openclaw_poc.Executor.Tools.PathGuard.{PathGuardResult, Paths, allowed, is_path_allowed}
use secure_openclaw_poc.Executor.Tools.Replace.Found.{
  HasNone, occurrences-single, split_first-append, NoneBefore, split_first-NoneBefore,
}
use secure_openclaw_poc.Executor.Run.{◌>>=◌, ◌>>◌}
use secure_openclaw_poc.Common.{
  List, Text, [], ap, ◌∷◌, ◌≡◌, inl, inr, sym, ◌&&◌, ◌++◌, Bool-cases, Option, not, refl,
  starts_with, ◌∙◌,
}
use secure_openclaw_poc.Common.Outcome.{returned, Outcome-cases}
use secure_openclaw_poc.Executor.Tools.Replace.{
  Occurrences, not_found, occurrences, replace_first, several, single, expand, replace_at,
}
use secure_openclaw_poc.Executor.Tools.Files.{
  Disk, FileResult, ToolError, call, caught, closes, edit_content, edited, failed, finally_close,
  opens, reads_open, truncates, writes, Event, error_of, found_several, old_string_not_found,
  edit_body, execute_edit_file, guarded, outside_data_directory, path_refused, path_restricted,
  write_guarded, write_prefix, denied,
}

abbrev pub edit_events : (path updated : Text) → List Event
edit_events path updated = opens path ∷ reads_open ∷ truncates ∷ writes updated ∷ closes ∷ []

module _ (disk : Disk) (path old_string new_string : Text) where
  failed_differs :
      (es events : List Event) (e : ToolError)
      → ◌≡◌ {A = List Event × FileResult} (es, failed e) (events, edited path)
      → ⊥
  failed_differs es events e h =
      let same : failed e ≡ edited path = ap (λ (r : List Event × FileResult). r.1) h in cc

  -- An edit that succeeds found the text once, and every call succeeded.
  abbrev IsEdited : (content : Text) → (events : List Event) → Type 0
  IsEdited content events =
      (occurrences content old_string ≡ single)
      × (events ≡ edit_events path (replace_first content old_string new_string))

  edit_content-edited :
      (content : Text) (found : Occurrences) (events : List Event)
      → occurrences content old_string ≡ found
      → caught (
          call (opens path) (returned tt)
          >> finally_close disk path (
              call reads_open (returned content) >>= λ (text : Text).
              edit_content disk path old_string new_string text found))
        ≡ (events, edited path)
      → IsEdited content events
  edit_content-edited content not_found events e h = elim (Outcome-cases (disk.close_open path)) [
    | inl (done, c) ↦ absurd (failed_differs _ events old_string_not_found (rw c at h))
    | inr (x, c) ↦ absurd (failed_differs _ events (error_of x x.code) (rw c at h))
  ]
  edit_content-edited content (several n) events e h = elim (Outcome-cases (disk.close_open path)) [
    | inl (done, c) ↦ absurd (failed_differs _ events (found_several n) (rw c at h))
    | inr (x, c) ↦ absurd (failed_differs _ events (error_of x x.code) (rw c at h))
  ]
  edit_content-edited content single events e h =
      let updated = replace_first content old_string new_string in
      elim (Outcome-cases (disk.close_open path)) [
        | inr (x, c) ↦ absurd (failed_differs _ events (error_of x x.code) (rw c at h))
        | inl (done, c) ↦ elim (Outcome-cases (disk.truncate_open path)) [
          | inr (x, t) ↦ absurd (failed_differs _ events (error_of x x.code) (rw (c, t) at h))
          | inl (cut, t) ↦ elim (Outcome-cases (disk.write_open path updated)) [
            | inr (x, w) ↦ absurd (failed_differs _ events (error_of x x.code) (rw (c, t, w) at h))
            | inl (wrote, w) ↦
                let k : ◌≡◌ {A = List Event × FileResult} (edit_events path updated, edited path)
                    (events, edited path) =
                  rw (c, t, w) at h in
                (e, sym (ap (λ (r : List Event × FileResult). r.0) k))
          ]
        ]
      ]

  edit_body-edited :
      (resolved : Text) (events : List Event)
      → caught (edit_body disk path old_string new_string resolved) ≡ (events, edited path)
      → (content : Text) × (disk.read_open path ≡ returned content) × IsEdited content events
  edit_body-edited resolved events h = elim (Outcome-cases (disk.open_file path)) [
    | inr (x, o) ↦ absurd (failed_differs _ events (error_of x x.code) (rw o at h))
    | inl (opened, o) ↦ elim (Outcome-cases (disk.read_open path)) [
      | inl (content, r) ↦ (
        content,
        r,
        edit_content-edited content (occurrences content old_string) events refl (rw (o, r) at h),
      )
      | inr (x, r) ↦ elim (Outcome-cases (disk.close_open path)) [
        | inl (done, c) ↦ absurd (failed_differs _ events (error_of x x.code) (rw (o, r, c) at h))
        | inr (y, c) ↦ absurd (failed_differs _ events (error_of y y.code) (rw (o, r, c) at h))
      ]
    ]
  ]

module _ (lower : Text → Text) (p : Paths) (disk : Disk) (roots : Option (List Text)) where
  guarded-edited :
      (path old_string new_string : Text) (events : List Event) (v : PathGuardResult)
      → write_guarded lower p disk roots (edit_body disk path old_string new_string) v
        ≡ (events, edited path)
      → (content : Text) × (disk.read_open path ≡ returned content)
        × IsEdited disk path old_string new_string content events
  unfolding write_guarded
  guarded-edited path old_string new_string events (denied resolved reason) h =
      absurd (failed_differs disk path old_string new_string [] events (path_refused reason) h)
  guarded-edited path old_string new_string events (allowed resolved) h =
      elim (Bool-cases (p.is_docker && not (starts_with resolved write_prefix))) [
        | inl out ↦ absurd (
            failed_differs disk path old_string new_string [] events outside_data_directory
              (rw out at h))
        | inr inside ↦
            edit_body-edited disk path old_string new_string resolved events (rw inside at h)
      ]

  -- An edit that succeeds found the old text in the file, if it is not empty, at one place: the file
  -- reads it at no place before this one, and after it there is none. It writes
  -- what stands before it, what the new text stands for as a pattern of `replace`, and what stands
  -- after it; the file is opened, read, emptied, written and closed, in this order.
  pub execute_edit_file-edited :
      (path old_string new_string : Text) (events : List Event)
      → execute_edit_file lower p disk roots path old_string new_string ≡ (events, edited path)
      → (before : Text) × (after : Text) × (disk.read_open path
          ≡ returned (before ++ (old_string ++ after)))
        × NoneBefore old_string before (old_string ++ after)
        × HasNone old_string after
        × (events
            ≡ edit_events path (before ++ (expand before old_string after new_string ++ after)))
  unfolding execute_edit_file guarded replace_first
  execute_edit_file-edited path old_string new_string events h =
      elim (Bool-cases (is_denied_path lower path)) [
        | inl listed ↦ absurd (
            failed_differs disk path old_string new_string [] events path_restricted
              (rw listed at h))
        | inr open_path ↦
            let (content, read, (once, done)) =
              guarded-edited path old_string new_string events (is_path_allowed p path roots)
                (rw open_path at h) in
            let (before, after, cut, left) = occurrences-single content old_string once in
            let whole = split_first-append old_string content before after cut in
            (
              before,
              after,
              read ∙ ap (λ (t : Text). returned t) whole,
              split_first-NoneBefore old_string content before after cut,
              left,
              done
                  ∙ ap
                      (λ (c : Option (Text × Text)).
                        edit_events path (replace_at content old_string new_string c))
                      cut,
            )
      ]
