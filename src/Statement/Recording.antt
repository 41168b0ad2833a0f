-- ===== src/Statement/Recording.antt =====
-- Statements in memory and their rows in the history.
use snowflake_emulator.Base.{ℕ, ◌≡◌, refl, subst, Text, text_eq, some, true, false, [], ◌==◌}
use snowflake_emulator.Base.Dict.{get, get-put_self}
use snowflake_emulator.Base.Int.{ℤ}
use snowflake_emulator.Statement.Types.{
  StatementStatus, is_canceled, QueryResult, SnowflakeError, Statement, StatementSummary,
  StatementManager,
}
use snowflake_emulator.Statement.Manager.{
  summarize, with_status, with_result, with_exec_result, with_error, record_summary, commit,
  complete, update_status, set_result, set_exec_result, set_error,
}
use snowflake_emulator.Statement.History.{HistoryTable, record_statement, history_store}

-- The row of the statement says what memory says.
abbrev pub IsRecorded : Text → Statement → StatementManager HistoryTable → Type 0
IsRecorded handle s m =
    (get m.statements handle ≡ some s)
    × ((t : HistoryTable) × (m.history ≡ some t) × (get t.rows handle ≡ some (summarize s)))

recorded_row :
    (r : StatementSummary) (t : HistoryTable)
    → (r.handle == []) ≡ false
    → t.is_open ≡ true
    → get (record_statement r t).0.rows r.handle ≡ some r
unfolding record_statement
recorded_row r t named up = rw (named, up) (get-put_self t.rows r.handle r)

commit-IsRecorded :
    (s : Statement) (t : HistoryTable) (m : StatementManager HistoryTable)
    → (s.handle == []) ≡ false
    → m.history ≡ some t
    → t.is_open ≡ true
    → IsRecorded s.handle s (commit history_store s.handle s m)
unfolding commit record_summary summarize
commit-IsRecorded s t m named kept up = rw kept (
  get-put_self m.statements s.handle s,
  ((record_statement (summarize s) t).0, refl, recorded_row (summarize s) t named up),
)

complete_live :
    (change : Statement → Statement) (handle : Text) (s : Statement)
    (m : StatementManager HistoryTable)
    → get m.statements handle ≡ some s
    → is_canceled s.status ≡ false
    → (complete history_store change handle m).0 ≡ commit history_store handle (change s) m
unfolding complete
complete_live change handle s m there live = rw (there, complete) (rw live refl)

complete-IsRecorded :
    (change : Statement → Statement) (s : Statement) (t : HistoryTable)
    (m : StatementManager HistoryTable)
    → (change s).handle ≡ s.handle
    → get m.statements s.handle ≡ some s
    → is_canceled s.status ≡ false
    → (s.handle == []) ≡ false
    → m.history ≡ some t
    → t.is_open ≡ true
    → IsRecorded s.handle (change s) (complete history_store change s.handle m).0
complete-IsRecorded change s t m same there live named kept up =
    rw (complete_live change s.handle s m there live) (
      subst (λ k. (k == []) ≡ false → IsRecorded k (change s) (commit history_store k (change s) m))
        same (λ n. commit-IsRecorded (change s) t m n kept up) named)

-- A statement that is not canceled, and a history that can be written: whatever ends or moves the
-- statement, memory then holds the changed statement, and the row of its handle in the history is
-- the summary of just that statement.
pub changes-IsRecorded :
    (now : ℕ) (status : StatementStatus) (r : QueryResult) (n : ℤ) (e : SnowflakeError)
    (s : Statement) (t : HistoryTable) (m : StatementManager HistoryTable)
    → get m.statements s.handle ≡ some s
    → is_canceled s.status ≡ false
    → (s.handle == []) ≡ false
    → m.history ≡ some t
    → t.is_open ≡ true
    → IsRecorded s.handle
        (with_status status now s)
        (update_status history_store now s.handle status m).0
      × IsRecorded s.handle (with_result r now s) (set_result history_store now s.handle r m).0
      × IsRecorded s.handle
          (with_exec_result n now s)
          (set_exec_result history_store now s.handle n m).0
      × IsRecorded s.handle (with_error e now s) (set_error history_store now s.handle e m).0
unfolding update_status set_result set_exec_result set_error with_status with_result
    with_exec_result with_error
changes-IsRecorded now status r n e s t m there live named kept up = (
  complete-IsRecorded (with_status status now) s t m refl there live named kept up,
  complete-IsRecorded (with_result r now) s t m refl there live named kept up,
  complete-IsRecorded (with_exec_result n now) s t m refl there live named kept up,
  complete-IsRecorded (with_error e now) s t m refl there live named kept up,
)
