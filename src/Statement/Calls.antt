-- ===== src/Statement/Calls.antt =====
-- Any sequence of calls of the statement manager.
use snowflake_emulator.Base.{ℕ, Text, List, [], ◌∷◌}
use snowflake_emulator.Base.Int.{ℤ}
use snowflake_emulator.Statement.Types.{
  StatementStatus, QueryResult, SnowflakeError, HistoryStore, StatementManager,
}
use snowflake_emulator.Statement.Manager.{
  create_statement_for_user, update_status, set_result, set_exec_result, set_error, set_cancel_func,
  set_execution_metadata, cancel_statement, delete_statement, cleanup, prune_history,
}

-- Each with the instant at which it takes the lock, where it reads the clock.
pub data ManagerCall : Type 0 where
  creates : ℕ → Text → Text → Text → Text → Text → Text → ManagerCall
  updates : ℕ → Text → StatementStatus → ManagerCall
  returns : ℕ → Text → QueryResult → ManagerCall
  executes : ℕ → Text → ℤ → ManagerCall
  fails : ℕ → Text → SnowflakeError → ManagerCall
  cancels : ℕ → Text → ManagerCall
  registers : Text → ℕ → ManagerCall
  describes : Text → Text → Text → ManagerCall
  deletes : Text → ManagerCall
  cleans : ℕ → ManagerCall
  prunes : ℕ → ManagerCall

module _ {S : Type 0} (h : HistoryStore S) where
  unfoldable pub step : ManagerCall → StatementManager S → StatementManager S
  step (creates now uuid sql database schema warehouse user) m =
      (create_statement_for_user now uuid sql database schema warehouse user m).0
  step (updates now handle status) m = (update_status h now handle status m).0
  step (returns now handle r) m = (set_result h now handle r m).0
  step (executes now handle n) m = (set_exec_result h now handle n m).0
  step (fails now handle e) m = (set_error h now handle e m).0
  step (cancels now handle) m = (cancel_statement h now handle m).0
  step (registers handle context) m = (set_cancel_func handle context m).0
  step (describes handle username size) m = set_execution_metadata handle username size m
  step (deletes handle) m = delete_statement handle m
  step (cleans now) m = cleanup now m
  step (prunes now) m = prune_history h now m

  unfoldable pub run : List ManagerCall → StatementManager S → StatementManager S
  run [] m = m
  run (c ∷ cs) m = run cs (step c m)
