-- ===== src/Executor/Tools/Replace.antt =====
-- JavaScript's `split` and `replace` with a text, as packages/executor/src/tools/edit-file.ts uses them.

-- The places at which `split(old)` cuts, for an `old` that is not empty; `skip` units are left of the
-- last one that was found.
pub mod Found
use secure_openclaw_poc.Common.{
  ◌++◌, ◌-◌, ◌==◌, Option, Text, [], drop, if◌then◌else◌, length, map, none, not, some, starts_with,
  suc, zero, ℕ, ◌∷◌,
}

unfoldable pub count_from : (old : Text) → Text → (skip : ℕ) → ℕ
count_from old [] skip = 0
count_from old (c ∷ cs) (suc skip) = count_from old cs skip
count_from old (c ∷ cs) zero =
    let found = suc (count_from old cs (length old - 1)) in
    let later = count_from old cs 0 in if starts_with (c ∷ cs) old then found else later

pub data Occurrences : Type 0 where
  not_found single : Occurrences
  several : ℕ → Occurrences

abbrev pub by_number : ℕ → Occurrences
by_number zero = not_found
by_number (suc zero) = single
by_number (suc (suc n)) = several (suc (suc n))

-- `content.split(old).length - 1`, by the tests that follow. An empty `old` cuts between all units, and
-- an empty content into nothing, which counts as -1 and passes both tests.
unfoldable pub occurrences : (content old : Text) → Occurrences
unfolding count_from
occurrences [] [] = single
occurrences (c ∷ cs) [] = by_number (length cs)
occurrences content (o ∷ os) = by_number (count_from (o ∷ os) content 0)

abbrev pub put_before : ℕ → Option (Text × Text) → Option (Text × Text)
put_before c none = none
put_before c (some (before, after)) = some (c ∷ before, after)

-- What stands before and after the first occurrence.
unfoldable pub split_first : (old content : Text) → Option (Text × Text)
split_first [] [] = some ([], [])
split_first (o ∷ os) [] = none
split_first old (c ∷ cs) =
    let later = put_before c (split_first old cs) in
    if starts_with (c ∷ cs) old then some ([], drop (length old) (c ∷ cs)) else later

-- What the replacement text stands for: `$$`, `$&`, "$`" and `$'` are expanded, as `replace` does.
unfoldable pub expand : (before matched after : Text) → (replacement : Text) → Text
expand before matched after [] = []
expand before matched after (c ∷ []) = c ∷ []
expand before matched after (c ∷ d ∷ ds) =
    let pair = expand before matched after ds in
    let plain = c ∷ expand before matched after (d ∷ ds) in
    if not (c == 36)
    then plain
    else if d == 36
    then 36 ∷ pair
    else if d == 38
    then matched ++ pair
    else if d == 96
    then before ++ pair
    else if d == 39
    then after ++ pair
    else plain

abbrev pub replace_at : (content old replacement : Text) → Option (Text × Text) → Text
replace_at content old replacement none = content
replace_at content old replacement (some (before, after)) =
    before ++ (expand before old after replacement ++ after)

-- `content.replace(old, replacement)`.
unfoldable pub replace_first : (content old replacement : Text) → Text
unfolding split_first expand
replace_first content old replacement = replace_at content old replacement (split_first old content)
