-- ===== src/Server.antt =====
-- agent-adapter/server.mjs, the HTTP server in front of the agent backends.
pub mod Keys
pub mod History
pub mod Queue
pub mod Turn
pub mod Chats
pub mod Completion
pub mod Disk
pub mod Http
pub mod Start
