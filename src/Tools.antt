-- ===== src/Tools.antt =====
-- src/tools/tool-registry.mjs: the registry of the tools that a client may call.
pub mod Registry
pub mod Names
pub mod Resolve
mod Tests
