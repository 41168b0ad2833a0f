-- ===== src/Statement/History.antt =====
-- The history in the database (pkg/metadata/statement_history.go), as a HistoryStore. A row stands
-- under its handle; `is_open` says whether the database executes statements.
use snowflake_emulator.Base.{
  keep, ◌||◌, ℕ, zero, suc, text_eq, Option, none, some, Bool, true, false, not, List, [], ltb,
  take, ◌==◌, if◌then◌else◌,
}
use snowflake_emulator.Base.Dict.{Dict, put, values, retain}
use snowflake_emulator.Base.Sort.{sort_by}
use snowflake_emulator.Statement.Types.{StatementSummary, HistoryStore}
use snowflake_emulator.Statement.Listing.{newer}

pub record HistoryTable : Type 0 where
  pub rows : Dict StatementSummary
  pub is_open : Bool

-- UPDATE ... WHERE query_id = ?, then INSERT if no row was there.
unfoldable pub record_statement : StatementSummary → HistoryTable → HistoryTable × Bool
record_statement r t =
    if r.handle == [] || not t.is_open
    then (t, false)
    else (record t { rows = put t.rows r.handle r }, true)

-- ORDER BY started_at DESC, and LIMIT unless the limit is zero; `started_at` holds `CreatedOn`.
abbrev limited : ℕ → List StatementSummary → List StatementSummary
limited zero rs = rs
limited (suc n) rs = take (suc n) rs

-- WHERE query_id <> ''; rows older than the column may lack a query id.
abbrev has_handle : StatementSummary → Bool
has_handle r = not (r.handle == [])

unfoldable pub list_statement_history : ℕ → HistoryTable → Option (List StatementSummary)
unfolding values sort_by keep
list_statement_history limit t =
    if t.is_open
    then some (limited limit (sort_by newer (keep has_handle (values t.rows))))
    else none

abbrev finished_before : ℕ → Option ℕ → Bool
finished_before cutoff none = false
finished_before cutoff (some at) = ltb at cutoff

unfoldable pub prune_statement_history : ℕ → HistoryTable → HistoryTable
unfolding retain
prune_statement_history cutoff t =
    if t.is_open
    then record t { rows = retain (λ k r. not (finished_before cutoff r.completed_on)) t.rows }
    else t

abbrev pub history_store : HistoryStore HistoryTable
history_store = record {
  record_statement = record_statement;
  list_statement_history = list_statement_history;
  prune_statement_history = prune_statement_history;
}
