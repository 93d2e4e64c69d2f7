-- ===== src/Types.antt =====
-- packages/types/src: the records that the packages exchange. Texts that are only compared are native
-- texts; a text whose length or characters matter is the list of its UTF-16 code units.
pub mod Json
pub mod CredentialPatterns
use secure_openclaw_poc.Common.{List, Option, String, ℕ, Text, Bool}

pub data ActionCategory : Type 0 where
  read write write_irreversible dangerous : ActionCategory

pub data PolicyAction : Type 0 where
  auto_approve confirm block allow : PolicyAction

pub data AuditResult : Type 0 where
  success failure pending denied_by_user blocked_by_policy : AuditResult
  blocked_by_rate_limit blocked_by_loop_guard loop_guard_warning : AuditResult

pub data Source : Type 0 where
  sentinel openclaw claude_code : Source

pub record AuditEntry : Type 0 where
  pub id : String
  pub timestamp : String
  pub manifest_id : String
  pub session_id : String
  pub agent_id : String
  pub tool : String
  pub category : ActionCategory
  pub decision : PolicyAction
  pub parameters_summary : Text
  pub result : AuditResult
  pub duration_ms : Option ℕ
  pub source : Option Source

pub record ActionManifest : Type 0 where
  pub id : String
  pub timestamp : String
  pub tool : String
  pub parameters : Json.Parameters
  pub category : Option ActionCategory
  pub session_id : String
  pub agent_id : String

pub record PolicyDecision : Type 0 where
  pub action : PolicyAction
  pub category : ActionCategory
  pub reason : String

pub record ClassificationOverride : Type 0 where
  pub condition : Text
  pub category : ActionCategory
  pub reason : String

pub record ToolClassification : Type 0 where
  pub tool : String
  pub default_category : ActionCategory
  pub overrides : Option (List ClassificationOverride)

-- Of `SentinelConfig`, what the policy reads.
pub record SentinelConfig : Type 0 where
  pub classifications : List ToolClassification
  pub auto_approve_read_ops : Bool
