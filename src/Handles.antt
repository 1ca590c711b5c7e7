-- ===== src/Handles.antt =====
-- Handles of workspaces that a client holds.
pub mod Manager
pub mod Revoking
pub mod Restart
mod Tests
