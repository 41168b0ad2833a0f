-- ===== src/Statement.antt =====
-- Statements and their history (pkg/query/statement_manager.go, pkg/metadata/statement_history.go).
mod Tests
pub mod Types
pub mod Redact
pub mod Manager
pub mod Listing
pub mod History
pub mod Calls
pub mod Cancellation
pub mod Invariant
pub mod Merging
pub mod Recording
