-- ===== src/Patch.antt =====
-- src/runtime/filesystem/apply-patch.mjs: the patch format, its lines sought in a file, and the
-- change of the files of an environment.
pub mod Types
pub mod Parse
pub mod Fuel
pub mod Seek
pub mod Update
pub mod Found
pub mod Search
pub mod Chunks
pub mod Edits
pub mod Writable
pub mod Files
pub mod Sequence
pub mod Staging
pub mod Refinement
pub mod Rounds
pub mod Separate
pub mod Targets
pub mod Operations
pub mod Flushing
pub mod Whole
pub mod Cuts
pub mod Ancestor
mod Tests
