-- ===== src/Warehouse.antt =====
-- Virtual warehouses: lifecycle and admission of statements (pkg/warehouse).
mod Tests
pub mod Types
pub mod Size
pub mod Admission
pub mod Manager
pub mod Execution
pub mod Invariant
pub mod Calls
