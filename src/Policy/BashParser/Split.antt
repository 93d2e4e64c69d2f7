-- ===== src/Policy/BashParser/Split.antt =====
-- packages/policy/src/bash-parser.ts: the two loops that split a command, one character at a time.
use secure_openclaw_poc.Common.{
  List, ◌&&◌, ◌++◌, ◌-◌, ◌==◌, Bool, Option, Text, [], if◌then◌else◌, false, ltb, none, not, some,
  suc, text_eq, trim, true, ◌||◌, ℕ, ◌∷◌, refl, skip_spaces, ◌≡◌,
}

-- `skip` is the `i++` inside the loop; `previous` is `command[i - 1]`.
pub record Splitter : Type 0 where
  pub parts : List Text
  pub current : Text
  pub in_single : Bool
  pub in_double : Bool
  pub depth : ℕ
  pub skip : Bool
  pub previous : Option ℕ

abbrev pub start : Splitter
start = record {
  parts = [];
  current = [];
  in_single = false;
  in_double = false;
  depth = 0;
  skip = false;
  previous = none;
}

abbrev pub is_char : ℕ → Option ℕ → Bool
is_char c none = false
is_char c (some d) = d == c

abbrev pub first : Text → Option ℕ
first [] = none
first (c ∷ cs) = some c

-- `current += ch`.
abbrev pub keep : Splitter → ℕ → Splitter
keep s ch = record s { current = s.current ++ ch ∷ []; skip = false; previous = some ch }

-- `parts.push(current); current = ""`.
abbrev pub cut : Splitter → ℕ → (skip : Bool) → Splitter
cut s ch skip = record s {
  parts = s.parts ++ s.current ∷ [];
  current = [];
  skip = skip;
  previous = some ch;
}

-- What follows the loops.
abbrev pub finish : Splitter → List Text
finish s = if text_eq (trim s.current) [] then s.parts else s.parts ++ s.current ∷ []

-- One turn of the loop of `splitChainedCommands`.
pub chained_step : Splitter → (ch : ℕ) (next : Option ℕ) → Splitter
chained_step s ch next =
    let free = not s.in_single && not s.in_double in
    let outside = s.depth == 0 in
    if s.skip
    then record s { skip = false; previous = some ch }
    else if (ch == 39) && (not s.in_double && outside)
    then record (keep s ch) { in_single = not s.in_single }
    else if (ch == 34) && (not s.in_single && outside)
    then record (keep s ch) { in_double = not s.in_double }
    else if not free
    then keep s ch
    else if (ch == 40) || ((ch == 36) && is_char 40 next)
    then record (keep s ch) { depth = suc s.depth }
    else if (ch == 41) && ltb 0 s.depth
    then record (keep s ch) { depth = s.depth - 1 }
    else if outside && (ch == 59)
    then cut s ch false
    else if outside && ((ch == 38) && is_char 38 next)
    then cut s ch true
    else if outside && ((ch == 124) && is_char 124 next)
    then cut s ch true
    else keep s ch

pub chained_loop : Splitter → Text → Splitter
unfolding chained_step
chained_loop s [] = s
chained_loop s (ch ∷ rest) = chained_loop (chained_step s ch (first rest)) rest

unfoldable pub split_chained_commands : Text → List Text
unfolding chained_loop
split_chained_commands command = finish (chained_loop start command)

pub split_chained_commands-nil : split_chained_commands [] ≡ []
unfolding split_chained_commands chained_loop trim skip_spaces
split_chained_commands-nil = refl

-- One turn of the loop of `splitPipeline`.
pub pipeline_step : Splitter → (ch : ℕ) (next : Option ℕ) → Splitter
pipeline_step s ch next =
    let free = not s.in_single && not s.in_double in
    if (ch == 39) && not s.in_double
    then record (keep s ch) { in_single = not s.in_single }
    else if (ch == 34) && not s.in_single
    then record (keep s ch) { in_double = not s.in_double }
    else if free && ((ch == 124) && not (is_char 124 next))
    then (if is_char 124 s.previous then keep s ch else cut s ch false)
    else keep s ch

pub pipeline_loop : Splitter → Text → Splitter
unfolding pipeline_step
pipeline_loop s [] = s
pipeline_loop s (ch ∷ rest) = pipeline_loop (pipeline_step s ch (first rest)) rest

unfoldable pub split_pipeline : Text → List Text
unfolding pipeline_loop
split_pipeline command = finish (pipeline_loop start command)
