-- ===== src/Executor/Truncation/Whole.antt =====
-- A truncated output ends with a whole character.

-- A character that Unicode has.
use secure_openclaw_poc.Common.{
  ◌+◌, ◌++◌, ◌<◌, All, Bool-cases, List, [], ap, arith, false, inl, inr, length, ltb, refl, subst,
  suc, take, true, zero, ℕ, ◌∙◌, ◌∷◌, ◌≡◌, ◌-◌, leb, length-append, le→leb, ltb→lt, ◌≤◌,
}
use secure_openclaw_poc.Executor.Truncation.{
  byte_at, cut_back, is_continuation, utf8_char, encode, truncate_output, truncation_notice,
}

abbrev pub IsChar : ℕ → Type 0
IsChar c = c < 1114112

abbrev IsLead : List ℕ → Type 0
IsLead [] = ⊥
IsLead (b ∷ bs) = (is_continuation b ≡ false) × All (λ (d : ℕ). is_continuation d ≡ true) bs

utf8_char-IsLead : (c : ℕ) → IsChar c → IsLead (utf8_char c)
unfolding utf8_char
utf8_char-IsLead c h = elim (Bool-cases (ltb c 128)) [
  | inl one ↦ rw one (ground arith, tt)
  | inr more ↦ elim (Bool-cases (ltb c 2048)) [
    | inl two ↦ rw (more, two) (ground arith, (ground arith, tt))
    | inr over ↦ elim (Bool-cases (ltb c 65536)) [
      | inl three ↦ rw (more, over, three) (ground arith, (ground arith, (ground arith, tt)))
      | inr four ↦
          rw (more, over, four) (ground arith, (ground arith, (ground arith, (ground arith, tt))))
    ]
  ]
]

byte_at-append : (p buf : List ℕ) (e : ℕ) → byte_at (p ++ buf) (length p + e) ≡ byte_at buf e
unfolding byte_at
byte_at-append [] buf e = let z : 0 + e ≡ e = omega arith in rw z refl
byte_at-append (b ∷ p) buf e =
    let z : suc (length p) + e ≡ suc (length p + e) = omega arith in rw z (byte_at-append p buf e)

cut_back_here :
    (buf : List ℕ) (n : ℕ) → is_continuation (byte_at buf n) ≡ false → cut_back buf n ≡ n
unfolding cut_back
cut_back_here buf zero h = refl
cut_back_here buf (suc n) h = rw h refl

cut_back_past :
    (p buf : List ℕ) (e : ℕ)
    → is_continuation (byte_at buf 0) ≡ false
    → cut_back (p ++ buf) (length p + e) ≡ length p + cut_back buf e
unfolding cut_back
cut_back_past p buf zero h =
    cut_back_here (p ++ buf) (length p + 0) (ap is_continuation (byte_at-append p buf 0) ∙ h)
cut_back_past p buf (suc e) h =
    let z : length p + suc e ≡ suc (length p + e) = omega arith in
    let same : byte_at (p ++ buf) (suc (length p + e)) ≡ byte_at buf (suc e) =
      subst (λ k. byte_at (p ++ buf) k ≡ byte_at buf (suc e)) z (byte_at-append p buf (suc e)) in
    rw z (rw same (ground (arith, cut_back_past p buf e h)))

byte_at-inside :
    (p buf : List ℕ) (e : ℕ)
    → e < length p
    → All (λ (d : ℕ). is_continuation d ≡ true) p
    → is_continuation (byte_at (p ++ buf) e) ≡ true
unfolding byte_at
byte_at-inside [] buf e h a = absurd (omega arith)
byte_at-inside (b ∷ p) buf zero h a = a.0
byte_at-inside (b ∷ p) buf (suc e) h a = byte_at-inside p buf e (omega arith) a.1

cut_back_inside :
    (b : ℕ) (p buf : List ℕ) (e : ℕ)
    → e < suc (length p)
    → All (λ (d : ℕ). is_continuation d ≡ true) p
    → cut_back (b ∷ (p ++ buf)) e ≡ 0
unfolding cut_back byte_at
cut_back_inside b p buf zero h a = refl
cut_back_inside b p buf (suc e) h a =
    rw (byte_at-inside p buf e (omega arith) a) (cut_back_inside b p buf e (omega arith) a)

take-append : (p q : List ℕ) (n : ℕ) → take (length p + n) (p ++ q) ≡ p ++ take n q
take-append [] q n = let z : 0 + n ≡ n = omega arith in rw z refl
take-append (b ∷ p) q n =
    let z : suc (length p) + n ≡ suc (length p + n) = omega arith in
    rw z (ap (λ (t : List ℕ). b ∷ t) (take-append p q n))

lead_inside : (p buf : List ℕ) (e : ℕ) → IsLead p → e < length p → cut_back (p ++ buf) e ≡ 0
lead_inside [] buf e l h = absurd l
lead_inside (b ∷ p) buf e l h = cut_back_inside b p buf e h l.1

lead_first : (p buf : List ℕ) → IsLead p → is_continuation (byte_at (p ++ buf) 0) ≡ false
unfolding byte_at
lead_first [] buf l = absurd l
lead_first (b ∷ p) buf l = l.0

encode_first :
    (cs : List ℕ)
    → All IsChar cs
    → 0 < length (encode cs)
    → is_continuation (byte_at (encode cs) 0) ≡ false
unfolding encode
encode_first [] a h = absurd (omega arith)
encode_first (c ∷ cs) a h = lead_first (utf8_char c) (encode cs) (utf8_char-IsLead c a.0)

-- `kept` is the characters before one that reaches past the limit, in bytes.
abbrev pub IsCut : (cs : List ℕ) (limit : ℕ) (kept : List ℕ) → Type 0
IsCut cs limit kept =
    (front : List ℕ) × (c : ℕ) × (back : List ℕ) × (cs ≡ front ++ c ∷ back)
    × (kept ≡ encode front)
    × (length (encode front) ≤ limit)
    × (limit < length (encode front) + length (utf8_char c))

cut_back-IsCut :
    (cs : List ℕ) (limit : ℕ)
    → All IsChar cs
    → limit < length (encode cs)
    → IsCut cs limit (take (cut_back (encode cs) limit) (encode cs))
unfolding encode
cut_back-IsCut [] limit a h = absurd (omega arith)
cut_back-IsCut (c ∷ cs) limit a h =
    let p = utf8_char c in
    let lead = utf8_char-IsLead c a.0 in
    elim (Bool-cases (ltb limit (length p))) [
      | inl inside ↦ (
        [],
        c,
        cs,
        refl,
        rw (lead_inside p (encode cs) limit lead (ltb→lt limit (length p) inside)) refl,
        omega arith,
        omega (arith, ltb→lt limit (length p) inside),
      )
      | inr past ↦
          let e = limit - length p in
          let z : limit ≡ length p + e = ground (arith, past) in
          let whole : length (p ++ encode cs) ≡ length p + length (encode cs) =
            length-append p (encode cs) in
          let (front, d, back, split, kept, below, above) =
            cut_back-IsCut cs e a.1 (omega (arith, h, whole, z)) in
          let first = encode_first cs a.1 (omega (arith, h, whole, z)) in
          let cut : cut_back (p ++ encode cs) limit ≡ length p + cut_back (encode cs) e =
            ap (cut_back (p ++ encode cs)) z ∙ cut_back_past p (encode cs) e first in
          let n : length (p ++ encode front) ≡ length p + length (encode front) =
            length-append p (encode front) in
          (
            c ∷ front,
            d,
            back,
            ap (λ (t : List ℕ). c ∷ t) split,
            ap (λ (k : ℕ). take k (p ++ encode cs)) cut
                ∙ take-append p (encode cs) (cut_back (encode cs) e)
                ∙ ap (λ (t : List ℕ). p ++ t) kept,
            omega (arith, n, below, z),
            omega (arith, n, above, z),
          )
    ]

-- An output whose bytes are within the limit is left as it is.
truncate_output-short :
    (output : List ℕ) (limit : ℕ)
    → length (encode output) ≤ limit
    → truncate_output output limit ≡ encode output
unfolding truncate_output
truncate_output-short output limit h = rw (le→leb (length (encode output)) limit h) refl

-- An output longer than the limit is cut before the first character that reaches past the limit,
-- and the notice follows: no character is split, and no more is cut than has to be.
pub truncate_output-IsCut :
    (output : List ℕ) (limit : ℕ)
    → All IsChar output
    → limit < length (encode output)
    → (kept : List ℕ) × (truncate_output output limit ≡ kept ++ encode truncation_notice)
      × IsCut output limit kept
unfolding truncate_output
truncate_output-IsCut output limit a h =
    let buf = encode output in
    let long : leb (length buf) limit ≡ false = ground arith in
    (take (cut_back buf limit) buf, rw long refl, cut_back-IsCut output limit a h)
