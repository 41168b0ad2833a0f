-- ===== src/Session.antt =====
-- Sessions and their tokens (pkg/session).
mod Tests
pub mod Types
pub mod Store
pub mod Manager
pub mod Calls
pub mod Index
pub mod Closing
