-- ===== src/Executor/SsrfGuard/Ranges.antt =====
-- The blocked ranges of IPv4, by the parts of an address.
use secure_openclaw_poc.Common.{
  List, ◌&&◌, ◌*◌, ◌+◌, ◌/◌, ◌==◌, Bool, arith, leb, ◌||◌, ℕ, ◌≡◌, ◌≤◌, Option, Text, [], some, ◌∷◌,
  ◌%◌, ◌^◌, ap, false, ltb, ◌∙◌, after_prefix, codes, none,
}
use secure_openclaw_poc.Executor.SsrfGuard.{
  in_cidr, is_blocked, split_at, parse_parts, parse_ipv4, is_private_plain, is_private_ip, to_lower,
}

abbrev pub address : (a b c d : ℕ) → ℕ
address a b c d = (a * 16777216 + b * 65536) + (c * 256 + d)

-- 127.0.0.0/8, 10.0.0.0/8, 172.16.0.0/12, 192.168.0.0/16, 169.254.0.0/16 and 0.0.0.0/8.
abbrev pub is_reserved : (a b : ℕ) → Bool
is_reserved a b =
    (a == 127)
    || ((a == 10)
        || (((a == 172) && (leb 16 b && leb b 31))
            || (((a == 192) && (b == 168)) || (((a == 169) && (b == 254)) || (a == 0)))))

high8 : (a b c d : ℕ) → b ≤ 255 → c ≤ 255 → d ≤ 255 → address a b c d / 16777216 ≡ a
high8 a b c d hb hc hd = omega arith

high16 : (a b c d : ℕ) → c ≤ 255 → d ≤ 255 → address a b c d / 65536 ≡ a * 256 + b
high16 a b c d hc hd = omega arith

high12 : (a b c d : ℕ) → b ≤ 255 → c ≤ 255 → d ≤ 255 → address a b c d / 1048576 ≡ a * 16 + b / 16
high12 a b c d hb hc hd = omega arith

test12 : (a b : ℕ) → b ≤ 255 → (a * 16 + b / 16 == 2753) ≡ ((a == 172) && (leb 16 b && leb b 31))
test12 a b h = ground arith

test16 : (a b k l : ℕ) → b ≤ 255 → l ≤ 255 → (a * 256 + b == k * 256 + l) ≡ ((a == k) && (b == l))
test16 a b k l h h' = ground arith

is_blocked_exact :
    (a b c d : ℕ) → b ≤ 255 → c ≤ 255 → d ≤ 255 → is_blocked (address a b c d) ≡ is_reserved a b
unfolding in_cidr
is_blocked_exact a b c d hb hc hd =
    rw
      (
        high8 a b c d hb hc hd,
        high12 a b c d hb hc hd,
        high16 a b c d hc hd,
        test12 a b hb,
        test16 a b 192 168 hb (omega arith),
        test16 a b 169 254 hb (omega arith),
      )
      (ground arith)

module _ (number parse_hex : Text → Option ℕ) where
  abbrev shift : ℕ → ℕ → ℕ
  shift result n = (result * 256 + n) % 2 ^ 32

  parse_parts-cons :
      (result : ℕ) (p : Text) (ps : List Text) (n : ℕ)
      → number p ≡ some n
      → n ≤ 255
      → parse_parts number parse_hex result (p ∷ ps)
        ≡ parse_parts number parse_hex (shift result n) ps
  unfolding parse_parts
  parse_parts-cons result p ps n h le =
      let small : ltb 255 n ≡ false = ground (arith, le) in rw (parse_parts, h, small)

  shifted_parts :
      (a b c d : ℕ)
      → a ≤ 255
      → b ≤ 255
      → c ≤ 255
      → d ≤ 255
      → shift (shift (shift (shift 0 a) b) c) d % 2 ^ 32 ≡ address a b c d
  shifted_parts a b c d ha hb hc hd = omega arith

  parse_parts_exact :
      (p q r s : Text) (a b c d : ℕ)
      → number p ≡ some a
      → number q ≡ some b
      → number r ≡ some c
      → number s ≡ some d
      → a ≤ 255
      → b ≤ 255
      → c ≤ 255
      → d ≤ 255
      → parse_parts number parse_hex 0 (p ∷ q ∷ r ∷ s ∷ []) ≡ some (address a b c d)
  unfolding parse_parts
  parse_parts_exact p q r s a b c d na nb nc nd ha hb hc hd =
      parse_parts-cons 0 p (q ∷ r ∷ s ∷ []) a na ha
      ∙ parse_parts-cons (shift 0 a) q (r ∷ s ∷ []) b nb hb
      ∙ parse_parts-cons (shift (shift 0 a) b) r (s ∷ []) c nc hc
      ∙ parse_parts-cons (shift (shift (shift 0 a) b) c) s [] d nd hd
      ∙ ap some (shifted_parts a b c d ha hb hc hd)

  -- A text of four parts that are numbers below 256, and that is no mapped address of IPv6, is private
  -- exactly if its first two numbers are those of one of the reserved ranges.
  pub is_private_ip_exact :
      (ip p q r s : Text) (a b c d : ℕ)
      → after_prefix (codes "::ffff:") (to_lower ip) ≡ none
      → split_at 46 [] ip ≡ p ∷ q ∷ r ∷ s ∷ []
      → number p ≡ some a
      → number q ≡ some b
      → number r ≡ some c
      → number s ≡ some d
      → a ≤ 255
      → b ≤ 255
      → c ≤ 255
      → d ≤ 255
      → is_private_ip number parse_hex ip ≡ is_reserved a b
  unfolding is_private_ip is_private_plain parse_ipv4
  is_private_ip_exact ip p q r s a b c d unmapped parts na nb nc nd ha hb hc hd =
      rw
        (
          is_private_ip,
          unmapped,
          is_private_plain,
          parse_ipv4,
          parts,
          parse_parts_exact p q r s a b c d na nb nc nd ha hb hc hd,
        )
        (is_blocked_exact a b c d hb hc hd)
