-- ===== src/Server.antt =====
-- The chat server (src/server).
pub mod Socket
pub mod Room
pub mod Manager
pub mod Thread
mod Tests
