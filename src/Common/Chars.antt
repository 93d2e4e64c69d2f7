-- ===== src/Common/Chars.antt =====
-- Texts as lists of code units, and JavaScript's operations on them.
use Prim.Native.Nat.{ℕ}
use Prim.Native.Char.{code}
use Prim.Native.String.{String, [] as empty, ◌∷◌ as ◌∷ᶜ◌}
use mathlib.Core.Path.{◌≡◌, refl}
use native.Mathlib.Omega.{arith}
use mathlib.Core.Bool.{Bool, true, false, ◌||◌, ◌&&◌, not}
use mathlib.Core.Option.{Option, none, some}
use mathlib.Core.List.{List, [], ◌∷◌, reverse}
use secure_openclaw_poc.Common.Tests.{if◌then◌else◌, ◌==◌, leb}

-- A text by its UTF-16 code units.
abbrev pub Text : Type 0
Text = List ℕ

abbrev pub codes : String → List ℕ
codes empty = []
codes (c ∷ᶜ s) = code c ∷ codes s

abbrev pub text_eq : List ℕ → List ℕ → Bool
text_eq [] [] = true
text_eq [] (y ∷ ys) = false
text_eq (x ∷ xs) [] = false
text_eq (x ∷ xs) (y ∷ ys) = (x == y) && text_eq xs ys

pub text_eq_same : (a b : List ℕ) → text_eq a b ≡ true → a ≡ b
text_eq_same [] [] h = refl
text_eq_same [] (y ∷ ys) h = cc
text_eq_same (x ∷ xs) [] h = cc
text_eq_same (x ∷ xs) (y ∷ ys) h = ground (arith, text_eq_same xs ys)

abbrev pub is_one_of : ℕ → List ℕ → Bool
is_one_of c [] = false
is_one_of c (d ∷ ds) = (c == d) || is_one_of c ds

unfoldable pub text_in : List ℕ → List (List ℕ) → Bool
text_in t [] = false
text_in t (u ∷ us) = text_eq t u || text_in t us

-- The text after a prefix.
abbrev pub after_prefix : (prefix text : List ℕ) → Option (List ℕ)
after_prefix [] t = some t
after_prefix (p ∷ ps) [] = none
after_prefix (p ∷ ps) (c ∷ cs) = let rest = after_prefix ps cs in if c == p then rest else none

abbrev is_some {ℓ} : {A : Type ℓ} → Option A → Bool
is_some none = false
is_some (some a) = true

abbrev pub starts_with : (text prefix : List ℕ) → Bool
starts_with t p = is_some (after_prefix p t)

unfoldable pub includes : (text part : List ℕ) → Bool
includes [] p = starts_with [] p
includes (c ∷ cs) p = starts_with (c ∷ cs) p || includes cs p

-- `\s` of regular expressions, which is what `trim` removes.
unfoldable pub is_space : ℕ → Bool
is_space c =
    (leb 9 c && leb c 13)
    || (is_one_of c (32 ∷ 160 ∷ 5760 ∷ 8232 ∷ 8233 ∷ 8239 ∷ 8287 ∷ 12288 ∷ 65279 ∷ [])
        || (leb 8192 c && leb c 8202))

-- `\w`.
unfoldable pub is_word : ℕ → Bool
is_word c =
    (leb 48 c && leb c 57) || ((leb 65 c && leb c 90) || ((c == 95) || (leb 97 c && leb c 122)))

-- `\b` after a character of a word.
abbrev pub at_word_end : List ℕ → Bool
at_word_end [] = true
at_word_end (c ∷ cs) = not (is_word c)

unfoldable pub skip_spaces : List ℕ → List ℕ
skip_spaces [] = []
skip_spaces (c ∷ cs) = let rest = skip_spaces cs in if is_space c then rest else c ∷ cs

unfoldable pub trim : List ℕ → List ℕ
trim t = reverse (skip_spaces (reverse (skip_spaces t)))

abbrev push_front : ℕ → List (List ℕ) → List (List ℕ)
push_front c [] = (c ∷ []) ∷ []
push_front c (w ∷ ws) = (c ∷ w) ∷ ws

abbrev starts_with_space : List ℕ → Bool
starts_with_space [] = false
starts_with_space (c ∷ cs) = is_space c

-- `split(/\s+/)`.
unfoldable pub split_spaces : List ℕ → List (List ℕ)
split_spaces [] = [] ∷ []
split_spaces (c ∷ cs) =
    let rest = split_spaces cs in
    if is_space c then (if starts_with_space cs then rest else [] ∷ rest) else push_front c rest

-- `text.split(c)`, for one character.
unfoldable pub split_on : ℕ → List ℕ → List (List ℕ)
split_on c [] = [] ∷ []
split_on c (d ∷ ds) = let rest = split_on c ds in if d == c then [] ∷ rest else push_front d rest
