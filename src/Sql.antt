-- ===== src/Sql.antt =====
-- Classification of SQL texts by their first words (pkg/query/classifier.go).
pub mod Comments
pub mod Kinds
pub mod Transactions
mod Tests
