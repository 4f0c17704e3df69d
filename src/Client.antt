-- ===== src/Client.antt =====
-- The chat client behind its terminal: what it keeps, its socket, and the application between them.
pub mod Command
pub mod State
pub mod Network
pub mod Application
mod Tests
