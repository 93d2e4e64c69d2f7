-- ===== src/Audit/Logger.antt =====
-- packages/audit/src/logger.ts: the hash chain of the audit log.
--
-- What the class takes from elsewhere is a record of functions: the table of SQLite, SHA-256 of the
-- JSON text of the hashed fields, and the Ed25519 signature. A function that may throw gives an
-- `Option`.
pub mod Chain
pub mod Evidence
pub mod Unredacted
pub mod Tests
use secure_openclaw_poc.Common.{
  ◌*◌, Bool, List, Option, String, [], if◌then◌else◌, false, get_or, none, not, some, str_eq, true,
  ◌∷◌, map, ℕ, Text,
}
use secure_openclaw_poc.Common.Outcome.{Outcome, returned, thrown, ◌>>=◌}
use secure_openclaw_poc.Types.{ActionCategory, PolicyAction, AuditResult, AuditEntry, Source}
use secure_openclaw_poc.Audit.Redact.{redact_credentials}

-- The fields that `computeEntryHash` serialises, in its order.
pub record Hashed : Type 0 where
  pub prev_hash : String
  pub id : String
  pub timestamp : String
  pub manifest_id : String
  pub session_id : String
  pub agent_id : String
  pub tool : String
  pub category : ActionCategory
  pub decision : PolicyAction
  pub parameters_summary : Text
  pub result : AuditResult

-- A row of `audit_log`: the entry, as it is stored, and the columns of the chain.
pub record AuditRow : Type 0 where
  pub entry : AuditEntry
  pub open entry use *
  pub prev_hash : String
  pub entry_hash : String
  pub signature : Option String

-- `rows` is the selection in the order of the row ids; `insert` fails on a constraint.
pub record Env (T : Type 0) : Type 0 where
  pub rows : T → List AuditRow
  pub insert : AuditRow → T → Option T
  pub sha256 : Hashed → String
  pub sign : (hash : String) → (key : List ℕ) → Option String
  pub verify : (hash signature public_key : String) → Option Bool
  pub redact_all : Text → Text

pub record AuditLogger (T : Type 0) : Type 0 where
  pub db : Option T
  pub signing_key : List ℕ

pub data Error : Type 0 where
  closed insert_failed : Error

pub record VerifyOptions : Type 0 where
  pub public_key : Option String
  pub strict_signatures : Bool

pub data ChainVerification : Type 0 where
  valid : ChainVerification
  broken_at : String → ChainVerification

pub hashed : AuditEntry → (prev_hash : String) → Hashed
hashed e prev_hash = record {
  prev_hash = prev_hash;
  id = e.id;
  timestamp = e.timestamp;
  manifest_id = e.manifest_id;
  session_id = e.session_id;
  agent_id = e.agent_id;
  tool = e.tool;
  category = e.category;
  decision = e.decision;
  parameters_summary = e.parameters_summary;
  result = e.result;
}

-- `lastRow?.entry_hash ?? ""`.
pub last_hash : String → List AuditRow → String
last_hash h [] = h
last_hash h (r ∷ rs) = last_hash r.entry_hash rs

module _ {T : Type 0} (env : Env T) where
  open env use {rows, insert, sha256, sign, verify, redact_all}

  pub compute_entry_hash : AuditEntry → (prev_hash : String) → String
  unfolding hashed
  compute_entry_hash e prev_hash = sha256 (hashed e prev_hash)

  -- The hash is of the entry as it came; the summary that is stored is the redacted one.
  pub new_row : AuditEntry → (key : List ℕ) → (prev_hash : String) → AuditRow
  unfolding compute_entry_hash
  new_row e key prev_hash =
      let entry_hash = compute_entry_hash e prev_hash in
      record {
        entry = record e {
          parameters_summary = redact_credentials redact_all e.parameters_summary;
        };
        prev_hash = prev_hash;
        entry_hash = entry_hash;
        signature = sign entry_hash key;
      }

  pub get_db : AuditLogger T → Outcome Error T
  get_db l = elim l.db [ none ↦ thrown closed | some t ↦ returned t ]

  pub committed : Option T → Outcome Error T
  committed none = thrown insert_failed
  committed (some t) = returned t

  pub log : AuditLogger T → AuditEntry → Outcome Error (AuditLogger T)
  unfolding get_db new_row committed last_hash
  log l e = do
    t ← get_db l
    t' ← committed (insert (new_row e l.signing_key (last_hash "" (rows t))) t)
    returned (record l { db = some t' })

  -- The check of one row's signature, when there is a public key.
  pub signature_ok : VerifyOptions → AuditRow → Bool
  signature_ok o r = elim o.public_key [
    | none ↦ true
    | some key ↦ elim r.signature [
      | none ↦ not o.strict_signatures
      | some s ↦
          if str_eq s "" then not o.strict_signatures else get_or (verify r.entry_hash s key) false
    ]
  ]

  pub verify_rows :
      VerifyOptions → (expected_prev_hash : String) → List AuditRow → ChainVerification
  unfolding signature_ok compute_entry_hash
  verify_rows o expected [] = valid
  verify_rows o expected (r ∷ rs) =
      let rest = verify_rows o r.entry_hash rs in
      if not (str_eq r.prev_hash expected)
      then broken_at r.id
      else if not (str_eq r.entry_hash (compute_entry_hash r.entry r.prev_hash))
      then broken_at r.id
      else if not (signature_ok o r)
      then broken_at r.id
      else rest

  pub verify_chain : AuditLogger T → VerifyOptions → Outcome Error ChainVerification
  unfolding verify_rows get_db
  verify_chain l o = do t ← get_db l; returned (verify_rows o "" (rows t))

  -- `close` zeroes the key.
  pub close : AuditLogger T → AuditLogger T
  close l = record { db = none; signing_key = map (λ byte. 0) l.signing_key }
