-- ===== src/Executor/Tools/PathGuard.antt =====
-- packages/executor/src/tools/path-guard.ts. The file system and node:path's `resolve`, `dirname` and
-- `join` come from outside, and so do the working directory and two variables of the environment.
pub mod Within
use secure_openclaw_poc.Common.{
  Text, List, [], ◌∷◌, ◌++◌, Bool, true, false, Option, some, none, ◌==◌, ◌||◌, not, text_eq,
  starts_with, trim, filter, map, if◌then◌else◌, split_on,
}
use secure_openclaw_poc.Common.Outcome.{Outcome, returned, thrown}
use secure_openclaw_poc.Executor.Tools.DenyList.{basename}

-- The codes of an error of the file system that the tools tell apart.
pub data IoCode : Type 0 where
  enoent eloop emlink : IoCode
  other : Text → IoCode

pub data Reason : Type 0 where
  outside_roots : Reason
  unresolvable : IoCode → Reason

pub data PathGuardResult : Type 0 where
  allowed : (resolved : Text) → PathGuardResult
  denied : (resolved : Text) → Reason → PathGuardResult

pub record Paths : Type 0 where
  pub resolve : Text → Text
  pub dirname : Text → Text
  pub join : Text → Text → Text
  pub realpath : Text → Outcome IoCode Text
  pub cwd : Text
  pub sentinel_allowed_roots : Option Text
  pub is_docker : Bool

abbrev pub not_empty : Text → Bool
not_empty [] = false
not_empty (c ∷ cs) = true

abbrev pub default_roots : Paths → Option Text → List Text
default_roots p (some (c ∷ cs)) = filter not_empty (map trim (split_on 44 (c ∷ cs)))
default_roots p _ = if not p.is_docker then p.cwd ∷ [] else []

-- The roots that are asked for: the argument, the variable, or the working directory.
unfoldable pub effective_roots : Paths → (allowed_roots : Option (List Text)) → List Text
effective_roots p (some (r ∷ rs)) = r ∷ rs
effective_roots p (some []) = default_roots p p.sentinel_allowed_roots
effective_roots p none = default_roots p p.sentinel_allowed_roots

-- The place of a path whose real path is not there: in the real path of its directory, if that has one.
abbrev pub new_file : Paths → (abs_path : Text) → Outcome IoCode Text → Text
new_file p abs_path (returned parent) = p.join parent (basename abs_path)
new_file p abs_path (thrown code) = abs_path

-- `resolved`, or the code for which the path is denied.
unfoldable pub locate_by : Paths → (abs_path : Text) → Outcome IoCode Text → Outcome IoCode Text
locate_by p abs_path (returned real) = returned real
locate_by p abs_path (thrown enoent) =
    returned (new_file p abs_path (p.realpath (p.dirname abs_path)))
locate_by p abs_path (thrown eloop) = thrown eloop
locate_by p abs_path (thrown emlink) = thrown emlink
locate_by p abs_path (thrown (other code)) = thrown (other code)

-- `resolvedRoot`, where the root is not skipped.
unfoldable pub root_by : (abs_root : Text) → Outcome IoCode Text → Option Text
root_by abs_root (returned real) = some real
root_by abs_root (thrown enoent) = some abs_root
root_by abs_root (thrown _) = none

abbrev pub is_within : (resolved : Text) → Option Text → Bool
is_within resolved none = false
is_within resolved (some root) = text_eq resolved root || starts_with resolved (root ++ 47 ∷ [])

unfoldable pub check_roots : Paths → (resolved : Text) → List Text → PathGuardResult
unfolding root_by
check_roots p resolved [] = denied resolved outside_roots
check_roots p resolved (r ∷ rs) =
    let rest = check_roots p resolved rs in
    if is_within resolved (root_by (p.resolve r) (p.realpath (p.resolve r)))
    then allowed resolved
    else rest

unfoldable pub check_located :
    Paths → (abs_path : Text) (roots : List Text) → Outcome IoCode Text → PathGuardResult
unfolding check_roots
check_located p abs_path roots (thrown code) = denied abs_path (unresolvable code)
check_located p abs_path roots (returned resolved) = check_roots p resolved roots

unfoldable pub check_path : Paths → (file_path : Text) (roots : List Text) → PathGuardResult
unfolding check_located locate_by
check_path p file_path [] = allowed (p.resolve file_path)
check_path p file_path (r ∷ rs) =
    let abs_path = p.resolve file_path in
    check_located p abs_path (r ∷ rs) (locate_by p abs_path (p.realpath abs_path))

unfoldable pub is_path_allowed :
    Paths → (file_path : Text) (allowed_roots : Option (List Text)) → PathGuardResult
unfolding check_path effective_roots
is_path_allowed p file_path allowed_roots = check_path p file_path (effective_roots p allowed_roots)
