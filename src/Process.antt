-- ===== src/Process.antt =====
-- src/runtime/process-manager.mjs and src/runtime/output-budget.mjs: running commands.
pub mod Output
pub mod Types
pub mod Manager
pub mod Sessions
pub mod Ids
pub mod Live
pub mod Sound
pub mod Steps
pub mod Delivery
mod Tests
