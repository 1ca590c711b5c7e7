-- ===== src/Inputs.antt =====
-- src/controller/verification-input-manager.mjs: codes that a person types into a waiting command.
pub mod Manager
pub mod Once
pub mod Runs
mod Tests
