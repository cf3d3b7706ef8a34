-- ===== src/Install.antt =====
-- packages/core/src/install: what the installer does to the hosts' configuration files.
pub mod Merge
pub mod Hooks
pub mod Apply
pub mod Contents
pub mod Paths
pub mod Targets
pub mod Run
pub mod Refresh
pub mod ParseTools
pub mod Keys
pub mod Written
pub mod Again
pub mod HooksAgain
pub mod Repeat
mod Tests
