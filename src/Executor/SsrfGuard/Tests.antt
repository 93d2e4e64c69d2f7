-- ===== src/Executor/SsrfGuard/Tests.antt =====
-- Hosts and addresses, and the theorems at concrete ones.
use secure_openclaw_poc.Common.{
  List, ◌&&◌, ◌*◌, ◌+◌, ◌-◌, Option, Text, [], arith, codes, if◌then◌else◌, false, leb, none, refl,
  some, true, ℕ, ◌∷◌, ◌≡◌,
}
use secure_openclaw_poc.Executor.SsrfGuard.{SsrfResult, is_private_ip, split_at}
use secure_openclaw_poc.Executor.SsrfGuard.Ranges.{is_reserved, is_private_ip_exact}

-- Decimal numbers of digits only.
abbrev decimal : (read : ℕ) → Text → Option ℕ
decimal read [] = some read
decimal read (c ∷ cs) =
    let rest = decimal (read * 10 + (c - 48)) cs in if leb 48 c && leb c 57 then rest else none

abbrev number : Text → Option ℕ
number t = decimal 0 t

abbrev no_hex : Text → Option ℕ
no_hex t = none

abbrev public_answer : Text → Option (List Text)
public_answer t = some (codes "93.184.216.34" ∷ [])

abbrev no_answer : Text → Option (List Text)
no_answer t = none

abbrev example : SsrfResult
example = record { resolved_ips = codes "93.184.216.34" ∷ []; hostname = codes "example.org" }

metadata_is_private : is_private_ip number no_hex (codes "169.254.169.254") ≡ true
unfolding is_private_ip
metadata_is_private = refl

mapped_is_private : is_private_ip number no_hex (codes "::FFFF:127.0.0.1") ≡ true
unfolding is_private_ip
mapped_is_private = refl

-- The unspecified address, which reaches the own host, is not in the list.
unspecified_is_public : is_private_ip number no_hex (codes "::") ≡ false
unfolding is_private_ip
unspecified_is_public = refl

is_private_ip_exact_example : is_private_ip number no_hex (codes "172.31.0.9") ≡ is_reserved 172 31
unfolding split_at
is_private_ip_exact_example =
    is_private_ip_exact number no_hex (codes "172.31.0.9") (codes "172") (codes "31") (codes "0")
      (codes "9") 172 31 0 9 refl refl refl refl refl refl (omega arith) (omega arith) (omega arith)
      (omega arith)
