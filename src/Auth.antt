-- ===== src/Auth.antt =====
-- The authentication service and its client (lib/auth).
pub mod Client
pub mod Repository
pub mod FileRepository
pub mod Manager
pub mod Server
pub mod Listener
mod Tests
