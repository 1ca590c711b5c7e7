-- ===== src/Transfers.antt =====
-- Files on their way between a client, the controller and the workers.
pub mod Files
pub mod Accounting
pub mod Calls
pub mod Readers
pub mod Reading
pub mod Tasks
pub mod Copying
pub mod Calling
pub mod Copies
pub mod Completing
pub mod Outcome
pub mod Manager
pub mod Limit
mod Tests
