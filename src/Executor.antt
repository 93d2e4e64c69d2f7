-- ===== src/Executor.antt =====
-- packages/executor: the service that runs the tools.
pub mod Run
pub mod Moderation
pub mod Filters
pub mod Registry
pub mod Router
pub mod Confirmations
pub mod SsrfGuard
pub mod Auth
pub mod Tools
pub mod Truncation
pub mod Egress
pub mod SseFilter
pub mod Delegation
pub mod Endpoints
