-- ===== src/Metadata.antt =====
-- Databases, schemas and tables in the catalog (pkg/metadata/repository.go).
pub mod Types
pub mod Namespaces
pub mod Objects
pub mod Tables
pub mod Stages
pub mod Streams
pub mod Offsets
pub mod Tasks
pub mod States
pub mod Likeness
pub mod Similarity
pub mod Dropping
pub mod Columns
pub mod Creation
mod Tests
