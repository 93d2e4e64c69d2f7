-- ===== src/Lib.antt =====
-- Sentinel: an executor that runs the tools of an agent only after its own checks.
--
-- The program is a set of TypeScript packages. An agent sends an action manifest to the executor
-- (packages/executor). There `handleExecute` validates it, asks the rate limiter and the loop guard
-- (packages/policy), lets the classifier decide whether the call is approved, needs a confirmation of
-- the user, or is blocked, moderates the parameters, runs the tool, filters what the tool gave, and
-- writes what happened to the audit log (packages/audit), whose rows form a hash chain.
--
-- What models what:
--   Types, Types/Json           packages/types/src: manifests, decisions, audit entries, configuration
--   Policy/RateLimiter          packages/policy/src/rate-limiter.ts, class RateLimiter
--   Policy/LoopGuard            packages/policy/src/loop-guard.ts, class LoopGuard
--   Policy/BashParser           packages/policy/src/bash-parser.ts: Signals has the word lists and the
--                               regular expressions, Split the two loops that split a command
--   Policy/Classifier           packages/policy/src/classifier.ts; Patterns has the regular expressions
--                               and those of packages/types/src/gws-patterns.ts
--   Audit/Redact, Audit/Logger  packages/audit/src/redact.ts and logger.ts, class AuditLogger
--   Executor/Moderation         packages/executor/src/moderation/scanner.ts
--   Executor/Filters            packages/executor/src/credential-filter.ts and pii-scrubber.ts
--   Executor/Registry           packages/executor/src/tools/registry.ts, class ToolRegistry
--   Executor/Run, Router        packages/executor/src/router.ts, handleExecute
--   Executor/Confirmations      packages/executor/src/server.ts: confirmFn, its timer and
--                               resolveConfirmation, with the events of confirmation-stream.ts
--   Executor/Auth               packages/executor/src/auth-middleware.ts and confirm-token.ts, and the
--                               middleware of server.ts that calls them
--   Executor/SsrfGuard          packages/executor/src/ssrf-guard.ts
--   Executor/Tools              packages/executor/src/tools: DenyList has deny-list.ts, PathGuard
--                               path-guard.ts, Files read-file.ts, write-file.ts and edit-file.ts, and
--                               Replace the split and the replacement of edit-file.ts
--   Executor/Truncation         packages/executor/src/output-truncation.ts
--   Executor/Egress             packages/executor/src/egress-proxy.ts: Placeholders has the substitution,
--                               Telegram the interception of updates, Proxy the parts and Handler the
--                               handler of requests
--   Crypto/UseCredential        packages/crypto/src/use-credential.ts
--   Crypto/Vault                packages/crypto/src/vault.ts, class CredentialVault
--   Executor/Delegation         packages/executor/src/delegate-handler.ts, with what server.ts gives of it,
--                               and packages/cli/src/delegation-poller.ts
--   Executor/SseFilter          packages/executor/src/sse-credential-filter.ts
--   Types/CredentialPatterns    packages/types/src/credential-patterns.ts
--   Executor/Endpoints          packages/executor/src/classify-endpoint.ts, confirm-endpoint.ts and
--                               filter-endpoint.ts, over the guards and the policy of the router
--   Common                      JavaScript's maps, sets, texts and exceptions, and shared lemmas
--   Memory/Schema               packages/memory/src/schema.ts and validator.ts
--   Memory/Store                packages/memory/src/store.ts, class MemoryStore; Queries has what reads,
--                               Hybrid hybridSearch, Dates the comparison of dates and byteLength
--   Memory/Consolidator         packages/memory/src/consolidator.ts
--   Memory/ContextBuilder       packages/memory/src/context-builder.ts
--
-- A class is a record of its fields and its methods are functions of it. What may throw gives an
-- `Outcome`. A call of `handleExecute` gives the list of what it did (entries written, questions asked,
-- tools run) with its outcome, and so does a call of the egress proxy. A text whose characters matter is
-- the list of its UTF-16 code units; the regular expressions of the source are written out on it, but for
-- those of the moderation and the redaction, which are given to an engine by their source text. Functions
-- with names in snake_case model the function of the same name in camelCase.
--
-- Bounds and fuel. The loops that evict entries from a map run on as much fuel as the map has entries,
-- since each round drops one. The filter of streams runs on as much fuel as its buffer has code units,
-- since each event takes two of them at least. The search for credentials has as many levels as the
-- source allows. All other loops are structural recursion. Instants of the rate limiter are counted in
-- units of 1/rate milliseconds, in which its emission interval is a whole number; no arithmetic of the
-- source comes near 2^53 for instants of this age.
--
-- Not modelled: SQLite, SHA-256, Ed25519, the engine of regular expressions, the clock and random
-- ids are parameters, and so are the URL parser, the name resolution, the file system and fetch. The
-- redaction is a parameter of what uses it; the engine of regular expressions and the decodings are
-- parameters of the redaction. The routes of the HTTP server, the proxies for models and for
-- connections, the agent loop, the command line and the native addon have no
-- model: they are mostly input and output.
pub mod Common
pub mod Types
pub mod Policy
pub mod Audit
pub mod Crypto
pub mod Executor
pub mod Memory
