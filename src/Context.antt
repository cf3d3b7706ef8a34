-- ===== src/Context.antt =====
-- packages/core/src/context-prune.ts: duplicate and stale tool outputs in the messages of a request.
pub mod ArgsKey
pub mod Sweep
pub mod Prune
pub mod Cap
mod Tests
