-- ===== src/Examples.antt =====
-- Concrete runs, and the theorems applied to them.
pub mod Server
pub mod Agents
pub mod Backends
pub mod Turns
pub mod Http
pub mod Clients
pub mod Web
pub mod Chats
pub mod Whole
