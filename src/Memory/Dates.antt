-- ===== src/Memory/Dates.antt =====
-- How SQLite compares texts, and the UTF-8 length of a text.
use secure_openclaw_poc.Common.{
  Text, [], ◌∷◌, Bool, true, false, ℕ, ◌+◌, ◌≡◌, refl, ltb, ◌==◌, leb, ◌&&◌, if◌then◌else◌, arith,
}

-- The order of the code units; of the dates that are compared it is that of their bytes.
unfoldable pub text_leb : Text → Text → Bool
text_leb [] t = true
text_leb (c ∷ cs) [] = false
text_leb (c ∷ cs) (d ∷ ds) =
    let rest = text_leb cs ds in if ltb c d then true else if c == d then rest else false

unfoldable pub text_ltb : Text → Text → Bool
text_ltb t [] = false
text_ltb [] (d ∷ ds) = true
text_ltb (c ∷ cs) (d ∷ ds) =
    let rest = text_ltb cs ds in if ltb c d then true else if c == d then rest else false

pub text_leb_refl : (t : Text) → text_leb t t ≡ true
unfolding text_leb
text_leb_refl [] = refl
text_leb_refl (c ∷ cs) = ground (arith, text_leb_refl cs)

-- The bytes of one code unit that is no half of a pair.
abbrev unit_bytes : ℕ → ℕ
unit_bytes c = if ltb c 128 then 1 else if ltb c 2048 then 2 else 3

abbrev is_high : ℕ → Bool
is_high c = leb 55296 c && leb c 56319

abbrev is_low : ℕ → Bool
is_low c = leb 56320 c && leb c 57343

-- `Buffer.byteLength(text, "utf-8")`; half a pair that stands alone becomes U+FFFD, of three bytes.
unfoldable pub byte_length : Text → ℕ
byte_length [] = 0
byte_length (c ∷ []) = unit_bytes c
byte_length (c ∷ d ∷ ds) =
    let pair = byte_length ds in
    let single = byte_length (d ∷ ds) in
    if is_high c && is_low d then 4 + pair else unit_bytes c + single
