-- ===== src/Executor/Tools.antt =====
-- packages/executor/src/tools: the tools on files, and the tests that their paths pass.
pub mod DenyList
pub mod PathGuard
pub mod Replace
pub mod Files
mod Tests
