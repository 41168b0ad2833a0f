-- ===== src/Identity.antt =====
-- Users, roles, their hierarchy and privileges (pkg/identity, pkg/metadata).
pub mod Types
pub mod Search
pub mod Repository
pub mod Service
pub mod Roles
pub mod Login
pub mod Authorize
pub mod Hierarchy
pub mod Integrity
mod Tests
