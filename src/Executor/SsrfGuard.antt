-- ===== src/Executor/SsrfGuard.antt =====
-- packages/executor/src/ssrf-guard.ts: which addresses a request may go to.
--
-- JavaScript's `Number` and `parseInt(_, 16)` are functions to the natural numbers that give nothing
-- where the source's tests fail. The bit operations on 32 bits are written as arithmetic: a mask of
-- `prefix` high bits keeps the quotient by 2 ^ (32 - prefix).
pub mod Ranges
pub mod Passing
mod Tests
use secure_openclaw_poc.Common.{
  List, ◌%◌, ◌&&◌, ◌*◌, ◌+◌, ◌++◌, ◌-◌, ◌/◌, ◌==◌, Bool, Option, Text, [], ◌^◌, after_prefix, any,
  codes, drop, if◌then◌else◌, false, get_or, includes, leb, length, ltb, map, none, not, reverse,
  some, starts_with, take, text_eq, true, ◌||◌, ℕ, ◌∷◌,
}
use secure_openclaw_poc.Common.Outcome.{Outcome, returned, thrown, ◌>>=◌}

pub record SsrfResult : Type 0 where
  pub resolved_ips : List Text
  pub hostname : Text

pub data SsrfError : Type 0 where
  invalid_url no_hostname resolution_failed : SsrfError
  private_ip : Text → SsrfError

-- `text.split(c)`; `current` is the part that was begun.
pub split_at : ℕ → (current : Text) → Text → List Text
split_at c current [] = current ∷ []
split_at c current (d ∷ ds) =
    let cut = split_at c [] ds in
    let kept = split_at c (current ++ d ∷ []) ds in if d == c then current ∷ cut else kept

pub in_cidr : (ip base prefix : ℕ) → Bool
in_cidr ip base prefix =
    if prefix == 0 then true else ip / 2 ^ (32 - prefix) == base / 2 ^ (32 - prefix)

abbrev pub ipv4_blocked : List (ℕ × ℕ)
ipv4_blocked =
    (2130706432, 8)
    ∷ (167772160, 8)
    ∷ (2886729728, 12)
    ∷ (3232235520, 16)
    ∷ (2851995648, 16)
    ∷ (0, 8)
    ∷ []

abbrev pub is_blocked : (ipv4 : ℕ) → Bool
is_blocked ipv4 = any (λ b. in_cidr ipv4 b.0 b.1) ipv4_blocked

abbrev lower : ℕ → ℕ
lower c = if leb 65 c && leb c 90 then c + 32 else c

-- `toLowerCase`, for texts of ASCII characters.
abbrev pub to_lower : Text → Text
to_lower t = map lower t

abbrev is_digit : ℕ → Bool
is_digit c = leb 48 c && leb c 57

abbrev is_hex : ℕ → Bool
is_hex c = is_digit c || (leb 97 c && leb c 102)

abbrev every : (ℕ → Bool) → Text → Bool
every p t = not (any (λ c. not (p c)) t)

-- `^\d+\.\d+\.\d+\.\d+$`.
abbrev is_dotted : Text → Bool
is_dotted t = elim (split_at 46 [] t) [
  | a ∷ b ∷ c ∷ d ∷ [] ↦
      not (text_eq a [])
      && every is_digit a
      && (not (text_eq b [])
          && every is_digit b
          && (not (text_eq c []) && every is_digit c && (not (text_eq d []) && every is_digit d)))
  | _ ↦ false
]

abbrev is_group : Text → Bool
is_group t = every is_hex t && (ltb 0 (length t) && leb (length t) 4)

-- `^([0-9a-f]{1,4}):([0-9a-f]{1,4})$`.
abbrev hex_groups : Text → Option (Text × Text)
hex_groups t = elim (split_at 58 [] t) [
  | hi ∷ lo ∷ [] ↦ if is_group hi && is_group lo then some (hi, lo) else none
  | _ ↦ none
]

-- The address that stands in the two last groups of a mapped one.
abbrev pub mapped_ipv4 : (hi lo : ℕ) → ℕ
mapped_ipv4 hi lo =
    (hi / 256 % 256 * 16777216 + hi % 256 * 65536) + (lo / 256 % 256 * 256 + lo % 256)

-- The answers of the two resolutions, in the order of the source; a rejected one is nothing.
abbrev pub answers : Option (List Text) → Option (List Text) → List Text
answers v4 v6 = get_or v4 [] ++ get_or v6 []

-- `bare`: the hostname without its brackets.
abbrev pub strip : Text → Text
strip hostname =
    if starts_with hostname (91 ∷ []) && starts_with (reverse hostname) (93 ∷ [])
    then take (length hostname - 2) (drop 1 hostname)
    else hostname

abbrev is_some : Option ℕ → Bool
is_some none = false
is_some (some n) = true

module _ (number : Text → Option ℕ) (parse_hex : Text → Option ℕ) where
  pub parse_parts : (result : ℕ) → List Text → Option ℕ
  parse_parts result [] = some (result % 2 ^ 32)
  parse_parts result (part ∷ parts) = elim (number part) [
    | none ↦ none
    | some n ↦ if ltb 255 n then none else parse_parts ((result * 256 + n) % 2 ^ 32) parts
  ]

  pub parse_ipv4 : Text → Option ℕ
  unfolding parse_parts split_at
  parse_ipv4 ip =
      let parts = split_at 46 [] ip in if not (length parts == 4) then none else parse_parts 0 parts

  pub is_private_ipv6 : Text → Bool
  is_private_ipv6 normalized =
      text_eq normalized (codes "::1")
      || ((starts_with normalized (codes "fc") || starts_with normalized (codes "fd"))
          || elim (parse_hex (take 4 normalized)) [
            | none ↦ false
            | some prefix ↦ leb 65152 prefix && leb prefix 65215
          ])

  -- The tests that follow those for mapped addresses.
  pub is_private_plain : Text → Bool
  unfolding parse_ipv4 is_private_ipv6 in_cidr
  is_private_plain ip = elim (parse_ipv4 ip) [
    | some ipv4 ↦ is_blocked ipv4
    | none ↦ is_private_ipv6 (to_lower ip)
  ]

  unfoldable pub is_private_ip : Text → Bool
  unfolding is_private_plain
  is_private_ip ip = elim (after_prefix (codes "::ffff:") (to_lower ip)) [
    | none ↦ is_private_plain ip
    | some rest ↦ if is_dotted rest then is_private_plain rest else elim (hex_groups rest) [
      | none ↦ is_private_plain ip
      | some (hi, lo) ↦ is_blocked (mapped_ipv4 (get_or (parse_hex hi) 0) (get_or (parse_hex lo) 0))
    ]
  ]

  pub check_all : (bare : Text) (all ips : List Text) → Outcome SsrfError SsrfResult
  unfolding is_private_ip
  check_all bare all [] = returned (record { resolved_ips = all; hostname = bare })
  check_all bare all (ip ∷ ips) =
      let rest = check_all bare all ips in if is_private_ip ip then thrown (private_ip ip) else rest

  pub check_resolved : (bare : Text) (all_ips : List Text) → Outcome SsrfError SsrfResult
  unfolding check_all
  check_resolved bare [] = thrown resolution_failed
  check_resolved bare (ip ∷ ips) = check_all bare (ip ∷ ips) (ip ∷ ips)

  pub check_address : (bare : Text) → Outcome SsrfError SsrfResult
  unfolding is_private_ip
  check_address bare =
      if is_private_ip bare
      then thrown (private_ip bare)
      else returned (record { resolved_ips = bare ∷ []; hostname = bare })

  -- `is_address` says that no resolution is needed.
  pub check_kind :
      (resolve4 resolve6 : Text → Option (List Text))
      → (bare : Text) → (is_address : Bool) → Outcome SsrfError SsrfResult
  unfolding check_resolved check_address
  check_kind resolve4 resolve6 bare true = check_address bare
  check_kind resolve4 resolve6 bare false =
      check_resolved bare (answers (resolve4 bare) (resolve6 bare))

  pub check_host :
      (resolve4 resolve6 : Text → Option (List Text)) → (bare : Text) → Outcome SsrfError SsrfResult
  unfolding check_kind parse_ipv4
  check_host resolve4 resolve6 bare =
      check_kind resolve4 resolve6 bare (is_some (parse_ipv4 bare) || includes bare (58 ∷ []))

  -- `host` is what the URL parser gives: nothing for a text that is no URL.
  unfoldable pub check_ssrf :
      (resolve4 resolve6 : Text → Option (List Text))
      → (host : Option Text) → Outcome SsrfError SsrfResult
  unfolding check_host
  check_ssrf resolve4 resolve6 none = thrown invalid_url
  check_ssrf resolve4 resolve6 (some []) = thrown no_hostname
  check_ssrf resolve4 resolve6 (some (c ∷ cs)) = check_host resolve4 resolve6 (strip (c ∷ cs))
