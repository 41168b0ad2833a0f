-- ===== src/Metadata/Types.antt =====
-- The data of pkg/metadata/repository.go. A table of the catalog is the list of its rows.
use snowflake_emulator.Base.{ℕ, Text, Option, Bool, List}
use snowflake_emulator.Identity.Types.{ObjectPrivilegeRecord}

-- A query that finds no row, a row that breaks a constraint, an argument that is refused; what else
-- the database reports is `database_failed`.
pub data Error : Type 0 where
  not_found already_exists empty_name no_columns invalid_state database_failed : Error

pub record Database : Type 0 where
  pub id : Text
  pub name : Text
  pub account_id : Text
  pub comment : Text
  pub created_at : ℕ
  pub owner : Text

pub record Schema : Type 0 where
  pub id : Text
  pub database_id : Text
  pub name : Text
  pub comment : Text
  pub created_at : ℕ
  pub owner : Text

pub record Table : Type 0 where
  pub id : Text
  pub schema_id : Text
  pub name : Text
  pub table_type : Text
  pub comment : Text
  pub created_at : ℕ
  pub owner : Text
  pub clustering_key : Text
  pub column_definitions : Text

pub record ColumnDef : Type 0 where
  pub name : Text
  pub type_name : Text
  pub nullable : Bool
  pub default : Option Text
  pub primary_key : Bool

pub record Stage : Type 0 where
  pub id : Text
  pub schema_id : Text
  pub name : Text
  pub stage_type : Text
  pub url : Text
  pub comment : Text
  pub created_at : ℕ
  pub owner : Text

pub record FileFormat : Type 0 where
  pub id : Text
  pub schema_id : Text
  pub name : Text
  pub format_type : Text
  pub options : Text
  pub comment : Text
  pub created_at : ℕ
  pub owner : Text

-- A table of DuckDB, which stands in one of its schemas.
pub record PhysicalTable : Type 0 where
  pub namespace : Text
  pub name : Text
  pub columns : Text

pub record Store : Type 0 where
  pub databases : List Database
  pub schemas : List Schema
  pub tables : List Table
  pub stages : List Stage
  pub file_formats : List FileFormat
  pub object_privileges : List ObjectPrivilegeRecord
  pub namespaces : List Text
  pub physical_tables : List PhysicalTable

-- The clock, and whether the database executes the i-th call that an operation makes.
pub record Call : Type 0 where
  pub now : ℕ
  pub up : ℕ → Bool
