-- ===== src/Precall.antt =====
-- packages/core/src/tool-precall.ts: what happens to the arguments of a tool call before it runs.
pub mod Skeleton
pub mod Split
pub mod Rules
pub mod Bash
pub mod Paths
pub mod Tests
