-- ===== src/Statement/Manager.antt =====
-- The operations of StatementManager (pkg/query/statement_manager.go). `now` is the clock, `uuid`
-- the next UUID; each critical section is one function, followed by `record_summary`.
use snowflake_emulator.Base.{
  ℕ, ◌+◌, ◌-◌, Text, str, take, Option, none, some, Bool, true, false, not, List, [], ◌∷◌, ◌++◌,
  ltb, length, if◌then◌else◌,
}
use snowflake_emulator.Base.Dict.{empty, get, put, remove, retain}
use snowflake_emulator.Base.Int.{ℤ, is_pos, to_ℕ}
use snowflake_emulator.Statement.Types.{
  StatementStatus, pending, queued, running, success, failed, canceled, is_canceled, is_queued,
  is_running, is_completed, QueryResult, SnowflakeError, Statement, StatementSummary, HistoryStore,
  StatementManager,
}
use snowflake_emulator.Statement.Redact.{redact_sensitive_sql}

pub data Error : Type 0 where
  statement_not_found : Text → Error
  statement_not_running : Text → StatementStatus → Error

-- 7 days in nanoseconds.
abbrev pub default_history_retention : ℕ
default_history_retention = 604_800_000_000_000

-- "01" and the first 32 bytes of the UUID.
unfoldable pub generate_statement_handle : Text → Text
generate_statement_handle uuid = str "01" ++ take 32 uuid

unfoldable pub summarize : Statement → StatementSummary
summarize s = record {
  username = s.username;
  warehouse_size = s.warehouse_size;
  user_id = s.user_id;
  handle = s.handle;
  status = s.status;
  sql_text = s.sql_text;
  database = s.database;
  schema = s.schema;
  warehouse = s.warehouse;
  created_on = s.created_on;
  queued_on = s.queued_on;
  started_on = s.started_on;
  completed_on = s.completed_on;
  row_count = elim s.result [ none ↦ 0 | some r ↦ length r.rows ];
  error_code = elim s.error [ none ↦ [] | some e ↦ e.code ];
  error_message = elim s.error [ none ↦ [] | some e ↦ e.message ];
}

unfoldable pub new_statement : Text → Text → Text → Text → Text → Text → ℕ → Statement
unfolding redact_sensitive_sql
new_statement handle sql_text database schema warehouse user_id now = record {
  username = [];
  warehouse_size = [];
  user_id = user_id;
  handle = handle;
  status = pending;
  sql_text = redact_sensitive_sql sql_text;
  database = database;
  schema = schema;
  warehouse = warehouse;
  created_on = now;
  queued_on = none;
  started_on = none;
  completed_on = none;
  result = none;
  rows_affected = none;
  error = none;
  cancel_func = none;
}

-- `if b && t == nil { t = &now }`
abbrev stamp_once : Bool → ℕ → Option ℕ → Option ℕ
stamp_once b now (some t) = some t
stamp_once b now none = if b then some now else none

abbrev stamp : Bool → ℕ → Option ℕ → Option ℕ
stamp b now t = if b then some now else t

-- UpdateStatus on a statement that is not canceled.
unfoldable pub with_status : StatementStatus → ℕ → Statement → Statement
with_status status now s = record s {
  status = status;
  queued_on = stamp_once (is_queued status) now s.queued_on;
  started_on = stamp_once (is_running status) now s.started_on;
  completed_on = stamp (is_completed status) now s.completed_on;
}

unfoldable pub with_result : QueryResult → ℕ → Statement → Statement
with_result r now s = record s { status = success; completed_on = some now; result = some r }

unfoldable pub with_exec_result : ℤ → ℕ → Statement → Statement
with_exec_result n now s = record s {
  status = success;
  completed_on = some now;
  rows_affected = some n;
}

unfoldable pub with_error : SnowflakeError → ℕ → Statement → Statement
with_error e now s = record s { status = failed; completed_on = some now; error = some e }

unfoldable pub with_cancellation : ℕ → Statement → Statement
with_cancellation now s = record s { status = canceled; completed_on = some now }

-- What CancelStatement accepts.
abbrev pub is_cancelable : StatementStatus → Bool
is_cancelable pending = true
is_cancelable queued = true
is_cancelable running = true
is_cancelable _ = false

-- stmt.cancelFunc(), if there is one
abbrev pub call_cancel : Option ℕ → List ℕ → List ℕ
call_cancel none cs = cs
call_cancel (some c) cs = c ∷ cs

-- A statement is dropped when it completed more than the TTL ago.
unfoldable pub is_fresh : ℕ → ℕ → Text → Statement → Bool
is_fresh now ttl handle s = elim s.completed_on [ none ↦ true | some t ↦ not (ltb (t + ttl) now) ]

module _ {S : Type 0} where
  unfoldable pub new_statement_manager : ℕ → StatementManager S
  unfolding empty
  new_statement_manager ttl = record {
    statements = empty;
    ttl = ttl;
    history = none;
    history_retention = 0;
    history_durable = false;
    canceled_contexts = [];
  }

  -- A retention of zero or less means the default.
  unfoldable pub set_history_store : Option S → ℤ → Bool → StatementManager S → StatementManager S
  set_history_store store retention durable m = record m {
    history = store;
    history_retention = (if is_pos retention then to_ℕ retention else default_history_retention);
    history_durable = durable;
  }

  unfoldable pub create_statement_for_user :
      ℕ
      → Text
      → Text
      → Text
      → Text
      → Text
      → Text
      → StatementManager S
      → StatementManager S × Statement
  unfolding generate_statement_handle new_statement
  create_statement_for_user now uuid sql_text database schema warehouse user_id m =
      let s =
        new_statement (generate_statement_handle uuid) sql_text database schema warehouse user_id
          now in
      (record m { statements = put m.statements s.handle s }, s)

  -- A snapshot: later changes of the manager do not reach it.
  unfoldable pub get_statement : Text → StatementManager S → Option Statement
  get_statement handle m = get m.statements handle

  unfoldable pub set_cancel_func : Text → ℕ → StatementManager S → StatementManager S × Bool
  set_cancel_func handle context m = elim (get m.statements handle) [
    | none ↦ (m, false)
    | some s ↦ (
      record m { statements = put m.statements handle (record s { cancel_func = some context }) },
      true,
    )
  ]

  unfoldable pub set_execution_metadata :
      Text → Text → Text → StatementManager S → StatementManager S
  set_execution_metadata handle username size m = elim (get m.statements handle) [
    | none ↦ m
    | some s ↦ record m {
      statements =
          put m.statements handle (record s { username = username; warehouse_size = size });
    }
  ]

  unfoldable pub delete_statement : Text → StatementManager S → StatementManager S
  delete_statement handle m = record m { statements = remove m.statements handle }

  unfoldable pub cleanup : ℕ → StatementManager S → StatementManager S
  unfolding is_fresh
  cleanup now m = record m { statements = retain (is_fresh now m.ttl) m.statements }

  unfoldable pub retention_period : StatementManager S → ℕ
  retention_period m = elim m.history [ none ↦ m.ttl | some store ↦ m.history_retention ]

  unfoldable pub history_is_persistent : StatementManager S → Bool
  history_is_persistent m = elim m.history [ none ↦ false | some store ↦ m.history_durable ]

module _ {S : Type 0} (h : HistoryStore S) where
  -- `record`: a failure to record is only logged.
  unfoldable pub record_summary : StatementSummary → StatementManager S → StatementManager S
  record_summary summary m = elim m.history [
    | none ↦ m
    | some store ↦ record m { history = some (h.record_statement summary store).0 }
  ]

  -- The new statement, and its summary in the history.
  unfoldable pub commit : Text → Statement → StatementManager S → StatementManager S
  unfolding record_summary summarize
  commit handle s m =
      record_summary (summarize s) (record m { statements = put m.statements handle s })

  -- UpdateStatus, SetResult, SetExecResult and SetError have one shape: nothing happens to a
  -- statement that is missing or canceled.
  unfoldable pub complete :
      (Statement → Statement) → Text → StatementManager S → StatementManager S × Bool
  unfolding commit
  complete change handle m = elim (get m.statements handle) [
    | none ↦ (m, false)
    | some s ↦ if is_canceled s.status then (m, false) else (commit handle (change s) m, true)
  ]

  unfoldable pub update_status :
      ℕ → Text → StatementStatus → StatementManager S → StatementManager S × Bool
  unfolding complete with_status
  update_status now handle status m = complete (with_status status now) handle m

  unfoldable pub set_result :
      ℕ → Text → QueryResult → StatementManager S → StatementManager S × Bool
  unfolding complete with_result
  set_result now handle r m = complete (with_result r now) handle m

  unfoldable pub set_exec_result : ℕ → Text → ℤ → StatementManager S → StatementManager S × Bool
  unfolding complete with_exec_result
  set_exec_result now handle n m = complete (with_exec_result n now) handle m

  unfoldable pub set_error :
      ℕ → Text → SnowflakeError → StatementManager S → StatementManager S × Bool
  unfolding complete with_error
  set_error now handle e m = complete (with_error e now) handle m

  unfoldable pub cancel_statement :
      ℕ → Text → StatementManager S → StatementManager S × Option Error
  unfolding commit with_cancellation
  cancel_statement now handle m = elim (get m.statements handle) [
    | none ↦ (m, some (statement_not_found handle))
    | some s ↦
        if is_cancelable s.status
        then (
          commit handle (with_cancellation now s)
              (record m { canceled_contexts = call_cancel s.cancel_func m.canceled_contexts }),
          none,
        )
        else (m, some (statement_not_running handle s.status))
  ]

  unfoldable pub prune_history : ℕ → StatementManager S → StatementManager S
  prune_history now m = elim m.history [
    | none ↦ m
    | some store ↦ record m {
      history = some (h.prune_statement_history (now - m.history_retention) store);
    }
  ]
