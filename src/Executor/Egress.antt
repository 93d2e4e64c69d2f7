-- ===== src/Executor/Egress.antt =====
-- packages/executor/src/egress-proxy.ts, with packages/types/src/egress.ts and
-- packages/crypto/src/use-credential.ts.
pub mod Placeholders
pub mod Telegram
pub mod Proxy
pub mod Handler
mod Tests
