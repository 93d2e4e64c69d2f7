-- ===== src/Executor/SsrfGuard/Passing.antt =====
-- What a host that passes has shown.
use secure_openclaw_poc.Common.{◌<◌, All, Option, Text, false, length, ℕ, ◌≡◌}
use secure_openclaw_poc.Common.Outcome.{Outcome}
use secure_openclaw_poc.Executor.SsrfGuard.{SsrfResult, is_private_ip}

module _ (number parse_hex : Text → Option ℕ) where
  abbrev IsPublic : Text → Type 0
  IsPublic ip = is_private_ip number parse_hex ip ≡ false

  -- The result lists addresses, all of them public.
  abbrev pub HasPublicIps : SsrfResult → Type 0
  HasPublicIps r = (0 < length r.resolved_ips) × All IsPublic r.resolved_ips
