-- ===== src/Plans.antt =====
-- src/controller/plan-manager.mjs: plans, kept as text files and read in pages.
pub mod Slice
pub mod Pages
pub mod Whole
mod Tests
