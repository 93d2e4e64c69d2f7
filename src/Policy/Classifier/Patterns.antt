-- ===== src/Policy/Classifier/Patterns.antt =====
-- packages/policy/src/classifier.ts and packages/types/src/gws-patterns.ts: the regular expressions.
use secure_openclaw_poc.Common.{
  List, ◌&&◌, ◌+◌, ◌++◌, ◌==◌, Bool, Option, String, Text, [], after_prefix, at_word_end, codes,
  if◌then◌else◌, false, includes, is_one_of, is_word, leb, map, none, not, skip_spaces, some, true,
  ◌||◌, ℕ, ◌∷◌,
}

abbrev words : List String → List Text
words [] = []
words (s ∷ ss) = codes s ∷ words ss

abbrev word_at : List Text → (is_end : Text → Bool) → Text → Bool
word_at [] is_end t = false
word_at (w ∷ ws) is_end t =
    elim (after_prefix w t) [ none ↦ false | some rest ↦ is_end rest ] || word_at ws is_end t

-- A word of the list that stands between two borders; `border` says that one is before the text.
unfoldable pub word_between :
    List Text → (is_border : ℕ → Bool) (is_end : Text → Bool) (border : Bool) → Text → Bool
word_between ws is_border is_end border [] = false
word_between ws is_border is_end border (c ∷ cs) =
    (border && word_at ws is_end (c ∷ cs)) || word_between ws is_border is_end (is_border c) cs

-- `\b(...)\b`.
abbrev pub has_word : List Text → Text → Bool
has_word ws t = word_between ws (λ c. not (is_word c)) at_word_end true t

abbrev pub gws_read_patterns : Text → Bool
gws_read_patterns = has_word (words ("list" ∷ "get" ∷ "search" ∷ "watch" ∷ []))

abbrev pub gws_write_patterns : Text → Bool
gws_write_patterns =
    has_word (words ("create" ∷ "insert" ∷ "update" ∷ "patch" ∷ "modify" ∷ "copy" ∷ []))

abbrev pub gws_delete_patterns : Text → Bool
gws_delete_patterns = has_word (words ("delete" ∷ "trash" ∷ "remove" ∷ []))

abbrev pub gmail_send_patterns : Text → Bool
gmail_send_patterns = has_word (words ("send" ∷ "drafts.send" ∷ []))

abbrev pub calendar_create_patterns : Text → Bool
calendar_create_patterns = has_word (words ("insert" ∷ "create" ∷ []))

-- The flag `i`, for words of ASCII letters.
abbrev lower : ℕ → ℕ
lower c = if leb 65 c && leb c 90 then c + 32 else c

-- `[-_]`.
abbrev is_separator : ℕ → Bool
is_separator c = (c == 45) || (c == 95)

abbrev ends_token : Text → Bool
ends_token [] = true
ends_token (c ∷ cs) = is_separator c

-- `(?:^|[-_]|__)(...)(?:[-_]|__|$)`.
abbrev has_token : List Text → Text → Bool
has_token ws t = word_between ws is_separator ends_token true (map lower t)

unfoldable pub has_read_token : Text → Bool
has_read_token = has_token (
    words (
      "search" ∷ "read" ∷ "list" ∷ "get" ∷ "view" ∷ "fetch" ∷ "find" ∷ "describe" ∷ "show" ∷ "query"
      ∷ "lookup" ∷ []))

unfoldable pub has_write_token : Text → Bool
has_write_token = has_token (
    words (
      "write" ∷ "create" ∷ "delete" ∷ "remove" ∷ "update" ∷ "send" ∷ "post" ∷ "put" ∷ "patch"
      ∷ "drop" ∷ "destroy" ∷ "execute" ∷ "run" ∷ "invoke" ∷ []))

-- `split("__")`.
abbrev pub split_underscores : Text → (current : Text) → List Text
split_underscores [] current = current ∷ []
split_underscores (c ∷ []) current = (current ++ c ∷ []) ∷ []
split_underscores (c ∷ d ∷ cs) current =
    let after_both = split_underscores cs [] in
    let after_one = split_underscores (d ∷ cs) (current ++ c ∷ []) in
    if (c == 95) && (d == 95) then current ∷ after_both else after_one

-- The rest after `\+|\*|\{[^}]*\}`.
abbrev after_brace : Text → Option Text
after_brace [] = none
after_brace (c ∷ cs) = let rest = after_brace cs in if c == 125 then some cs else rest

abbrev after_quantifier : Text → Option Text
after_quantifier [] = none
after_quantifier (c ∷ cs) =
    if (c == 43) || (c == 42) then some cs else if c == 123 then after_brace cs else none

abbrev is_some {ℓ} : {A : Type ℓ} → Option A → Bool
is_some none = false
is_some (some a) = true

-- `(\+|\*|\{[^}]*\})\s*(\+|\*|\{[^}]*\})`.
abbrev has_adjacent_quantifiers : Text → Bool
has_adjacent_quantifiers [] = false
has_adjacent_quantifiers (c ∷ cs) =
    elim (after_quantifier (c ∷ cs)) [
      | none ↦ false
      | some rest ↦ is_some (after_quantifier (skip_spaces rest))
    ]
    || has_adjacent_quantifiers cs

-- `[^)]*[+*][^)]*\)[+*{]`; `seen` says that a quantifier was passed.
abbrev closes_quantified : (seen : Bool) → Text → Bool
closes_quantified seen [] = false
closes_quantified seen (c ∷ []) = false
closes_quantified seen (c ∷ d ∷ cs) =
    let rest = closes_quantified (seen || is_one_of c (43 ∷ 42 ∷ [])) (d ∷ cs) in
    if c == 41 then seen && is_one_of d (43 ∷ 42 ∷ 123 ∷ []) else rest

-- `\([^)]*[+*][^)]*\)[+*{]`.
abbrev has_quantified_group : Text → Bool
has_quantified_group [] = false
has_quantified_group (c ∷ cs) = ((c == 40) && closes_quantified false cs) || has_quantified_group cs

-- The three tests against patterns that take long.
unfoldable pub has_nested_quantifier : Text → Bool
has_nested_quantifier t =
    has_adjacent_quantifiers t || (includes t (codes ".*.*") || has_quantified_group t)
