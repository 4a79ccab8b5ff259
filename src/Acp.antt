-- ===== src/Acp.antt =====
-- agent-adapter/acp.mjs: the ACP client of one agent process.
pub mod ToolText
pub mod Options
pub mod Rpc
pub mod Sessions
pub mod Updates
pub mod Dispatch
pub mod Migrate
pub mod Launch
