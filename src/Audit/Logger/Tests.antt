-- ===== src/Audit/Logger/Tests.antt =====
-- An audit log over a list of rows whose ids differ, its runs, and the theorems at concrete inputs.
use secure_openclaw_poc.Audit.Redact.{redact_credentials, truncate}
use secure_openclaw_poc.Common.{
  List, String, [], ◌∷◌, ◌≡◌, ◌≢◌, refl, ◌++◌, ◌==◌, Bool-cases, Option, any, arith, if◌then◌else◌,
  inl, inr, length, none, some, str_eq, true, false, map, sym, text_differs, Text,
}
use secure_openclaw_poc.Types.{AuditEntry, read, auto_approve, success}
use secure_openclaw_poc.Common.Outcome.{returned}
use secure_openclaw_poc.Audit.Logger.{
  Hashed, AuditRow, AuditLogger, Env, VerifyOptions, valid, broken_at, hashed, log, verify_rows,
  verify_chain,
}
use secure_openclaw_poc.Audit.Logger.Chain.{Appends, Matches, log_all, log_all-verify_chain}
use secure_openclaw_poc.Audit.Logger.Evidence.{content, verify_rows-contents}
use secure_openclaw_poc.Audit.Logger.Unredacted.{log-verify_chain_broken}

-- The ids are the primary key.
abbrev insert_row : AuditRow → List AuditRow → Option (List AuditRow)
insert_row r t = if any (λ q. str_eq q.id r.id) t then none else some (t ++ r ∷ [])

-- The redaction hides texts of three code units.
abbrev env : Env (List AuditRow)
env = record {
  rows = λ t. t;
  insert = insert_row;
  sha256 = λ h.
      if length h.parameters_summary == 3 then "h3" else if str_eq h.id "1" then "h1" else "h2";
  sign = λ hash key. some "s";
  verify = λ hash signature key. some (str_eq signature "s");
  redact_all = λ t. if length t == 3 then 42 ∷ [] else t;
}

abbrev empty : AuditLogger (List AuditRow)
empty = record { db = some []; signing_key = 7 ∷ [] }

abbrev options : VerifyOptions
options = record { public_key = some "k"; strict_signatures = true }

abbrev entry : String → Text → AuditEntry
entry id summary = record {
  id = id;
  timestamp = "2026";
  manifest_id = "m";
  session_id = "s";
  agent_id = "a";
  tool = "bash";
  category = read;
  decision = auto_approve;
  parameters_summary = summary;
  result = success;
  duration_ms = some 5;
  source = none;
}

abbrev two : List AuditEntry
two = entry "1" [] ∷ entry "2" (65 ∷ []) ∷ []

abbrev row : AuditEntry → (prev_hash entry_hash : String) → AuditRow
row e p h = record { entry = e; prev_hash = p; entry_hash = h; signature = some "s" }

abbrev after_two : AuditLogger (List AuditRow)
after_two = record {
  db = some (row (entry "1" []) "" "h1" ∷ row (entry "2" (65 ∷ [])) "h1" "h2" ∷ []);
  signing_key = 7 ∷ [];
}

two_logged : log_all env empty two ≡ returned after_two
unfolding log_all log redact_credentials truncate
two_logged = refl

env-Appends : Appends env
env-Appends r t t' h = elim (Bool-cases (any (λ q. str_eq q.id r.id) t)) [
  | inl used ↦ ground (arith, used, h)
  | inr new ↦ ground (arith, new, h)
]

env-Matches : Matches env options (7 ∷ [])
env-Matches hash k has_key = ("s", refl, refl, refl)

log_all-verify_chain_example : verify_chain env after_two options ≡ returned valid
unfolding redact_credentials truncate verify_chain
log_all-verify_chain_example =
    log_all-verify_chain env options empty after_two two env-Appends env-Matches (refl, (refl, tt))
      refl two_logged

abbrev two_rows : List AuditRow
two_rows = row (entry "1" []) "" "h1" ∷ row (entry "2" (65 ∷ [])) "h1" "h2" ∷ []

abbrev lenient : VerifyOptions
lenient = record { public_key = none; strict_signatures = false }

h1≢h2 : ◌≢◌ {A = String} "h1" "h2"
h1≢h2 = text_differs "h1" "h2" refl

h3≢h2 : ◌≢◌ {A = String} "h3" "h2"
h3≢h2 = text_differs "h3" "h2" refl

no_hash_is_empty : (h : Hashed) → Env.sha256 env h ≢ ""
no_hash_is_empty h e =
    let h1 = text_differs "h1" "" refl in
    let h2 = text_differs "h2" "" refl in
    let h3 = text_differs "h3" "" refl in ground (arith, e, h1, h2, h3)

verify_rows-contents_example : map (content env) two_rows ≡ map (content env) two_rows
unfolding hashed verify_rows
verify_rows-contents_example =
    verify_rows-contents env options lenient two_rows two_rows
      (
        (λ s. refl, ((λ s. elim (h1≢h2 s) [ ]), tt)),
        (((λ s. elim (h1≢h2 (sym s)) [ ]), (λ s. refl, tt)), tt),
      )
      no_hash_is_empty refl refl refl

-- The third summary holds what the redaction hides.
abbrev secret : AuditEntry
secret = entry "3" (1 ∷ 2 ∷ 3 ∷ [])

abbrev after_secret : AuditLogger (List AuditRow)
after_secret = record {
  db = some (two_rows ++ row (entry "3" (42 ∷ [])) "h2" "h3" ∷ []);
  signing_key = 7 ∷ [];
}

secret_logged : log env after_two secret ≡ returned after_secret
unfolding log redact_credentials truncate
secret_logged = refl

-- One more entry follows the broken row.
abbrev after_more : AuditLogger (List AuditRow)
after_more = record after_secret {
  db =
      some (
        two_rows ++ row (entry "3" (42 ∷ [])) "h2" "h3" ∷ row (entry "4" (65 ∷ [])) "h3" "h2" ∷ []);
}

more_logged : log_all env after_secret (entry "4" (65 ∷ []) ∷ []) ≡ returned after_more
unfolding log_all log redact_credentials truncate
more_logged = refl

log-verify_chain_broken_example : verify_chain env after_more options ≡ returned (broken_at "3")
unfolding verify_chain redact_credentials truncate
log-verify_chain_broken_example =
    log-verify_chain_broken env options after_two after_secret after_more secret
      (entry "4" (65 ∷ []) ∷ []) env-Appends refl (λ prev same. h3≢h2 (sym same)) secret_logged
      more_logged
