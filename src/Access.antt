-- ===== src/Access.antt =====
-- src/controller/web-full-access.mjs: the grants of full access that a web page unlocks.
pub mod Unlock
pub mod Claims
pub mod Grants
pub mod Budget
mod Tests
