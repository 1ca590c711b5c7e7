-- ===== src/Policy.antt =====
-- Rules on commands: the shell's tokens and the execution policy.
pub mod Shell
pub mod Tokens
pub mod Sources
pub mod Parse
pub mod Commands
pub mod Store
pub mod Grants
pub mod Prefixes
pub mod Matching
pub mod Allowing
pub mod Saving
pub mod Scripts
pub mod Trust
pub mod Trusted
pub mod Exact
pub mod Trims
pub mod Places
pub mod Turns
pub mod Bound
pub mod Lowered
pub mod Quoting
mod Tests
