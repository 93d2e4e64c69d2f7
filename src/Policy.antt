-- ===== src/Policy.antt =====
-- packages/policy: the policy engine.
pub mod RateLimiter
pub mod LoopGuard
pub mod BashParser
pub mod Classifier
