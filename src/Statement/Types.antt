-- ===== src/Statement/Types.antt =====
-- The data of pkg/query/statement_manager.go, with what it uses of pkg/query/result.go and of
-- server/apierror/error.go.
use snowflake_emulator.Base.{ℕ, Text, Option, Bool, true, false, List}
use snowflake_emulator.Base.Dict.{Dict}
use snowflake_emulator.Base.Int.{ℤ}

pub data StatementStatus : Type 0 where
  pending queued running success failed canceled : StatementStatus

abbrev pub is_canceled : StatementStatus → Bool
is_canceled canceled = true
is_canceled _ = false

abbrev pub is_queued : StatementStatus → Bool
is_queued queued = true
is_queued _ = false

abbrev pub is_running : StatementStatus → Bool
is_running running = true
is_running _ = false

-- Success, Failed or Canceled.
abbrev pub is_completed : StatementStatus → Bool
is_completed success = true
is_completed failed = true
is_completed canceled = true
is_completed _ = false

-- A value of `interface{}` in a row.
pub data Cell : Type 0 where
  null : Cell
  number : ℤ → Cell
  boolean : Bool → Cell
  text : Text → Cell

pub record QueryResult : Type 0 where
  pub columns : List Text
  pub rows : List (List Cell)
  pub total_rows : ℕ

-- The fields `SQLState` and `Data` are not read by the manager.
pub record SnowflakeError : Type 0 where
  pub code : Text
  pub message : Text

-- Instants are nanoseconds. `cancel_func` names the context that the function cancels.
pub record Statement : Type 0 where
  pub username : Text
  pub warehouse_size : Text
  pub user_id : Text
  pub handle : Text
  pub status : StatementStatus
  pub sql_text : Text
  pub database : Text
  pub schema : Text
  pub warehouse : Text
  pub created_on : ℕ
  pub queued_on : Option ℕ
  pub started_on : Option ℕ
  pub completed_on : Option ℕ
  pub result : Option QueryResult
  pub rows_affected : Option ℤ
  pub error : Option SnowflakeError
  pub cancel_func : Option ℕ

-- `StatementSummary`, and `metadata.StatementRecord`, which has the same fields.
pub record StatementSummary : Type 0 where
  pub username : Text
  pub warehouse_size : Text
  pub user_id : Text
  pub handle : Text
  pub status : StatementStatus
  pub sql_text : Text
  pub database : Text
  pub schema : Text
  pub warehouse : Text
  pub created_on : ℕ
  pub queued_on : Option ℕ
  pub started_on : Option ℕ
  pub completed_on : Option ℕ
  pub row_count : ℕ
  pub error_code : Text
  pub error_message : Text

-- The interface HistoryStore over a store of type S. A method that fails leaves what the store
-- itself decides, and `false` or `none` is its error.
pub record HistoryStore (S : Type 0) : Type 0 where
  pub record_statement : StatementSummary → S → S × Bool
  pub list_statement_history : ℕ → S → Option (List StatementSummary)
  pub prune_statement_history : ℕ → S → S

-- `canceled_contexts` lists the contexts canceled so far, the last one first.
pub record StatementManager (S : Type 0) : Type 0 where
  pub statements : Dict Statement
  pub ttl : ℕ
  pub history : Option S
  pub history_retention : ℕ
  pub history_durable : Bool
  pub canceled_contexts : List ℕ
