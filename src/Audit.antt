-- ===== src/Audit.antt =====
-- packages/audit: the audit log.
pub mod Redact
pub mod Logger
