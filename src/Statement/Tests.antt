-- ===== src/Statement/Tests.antt =====
-- The theorems about statements at concrete inputs.
use snowflake_emulator.Base.{
  text_eq, take, if◌then◌else◌, ◌==◌, keep, text_beq, ◌≡◌, refl, All, str, some, true, List, [],
  ◌∷◌,
}
use snowflake_emulator.Base.Dict.{empty, get, put, get-put_self}
use mathlib.Core.List.{Mem}
use snowflake_emulator.Base.Sort.{IsSortedBy}
use snowflake_emulator.Base.Int.{to_ℕ, is_pos, pos}
use snowflake_emulator.Statement.Types.{
  null, QueryResult, SnowflakeError, running, Statement, StatementManager,
}
use snowflake_emulator.Statement.Manager.{
  with_status, with_result, with_exec_result, with_error, update_status, set_result,
  set_exec_result, set_error, new_statement, new_statement_manager, with_cancellation, summarize,
}
use snowflake_emulator.Statement.Listing.{
  newer, list_statements_for_user, list_statements_with_context,
}
use snowflake_emulator.Statement.History.{HistoryTable, history_store}
use snowflake_emulator.Statement.Recording.{IsRecorded, changes-IsRecorded}
use snowflake_emulator.Statement.Calls.{ManagerCall, creates, updates, executes, cancels, run}
use snowflake_emulator.Statement.Cancellation.{Frozen, canceled_final}
use snowflake_emulator.Statement.Invariant.{Inv, statements-Inv}
use snowflake_emulator.Statement.Merging.{
  IsCurrent, list_for_user_private, list_for_user-eq-take, mem-list_for_user, list-IsCurrent,
}

abbrev some_statement : Statement
some_statement = new_statement (str "01a") (str "SELECT 1") [] [] [] (str "u1") 3

abbrev canceled_statement : Statement
canceled_statement = with_cancellation 5 some_statement

abbrev manager_of : Statement → StatementManager HistoryTable
manager_of s = record {
  statements = put empty (str "01a") s;
  ttl = 100;
  history = some (record { rows = empty; is_open = true });
  history_retention = 1000;
  history_durable = true;
  canceled_contexts = [];
}

abbrev late_results : List ManagerCall
late_results = updates 6 (str "01a") running ∷ executes 7 (str "01a") (pos 2) ∷ []

canceled_final_example :
    Frozen canceled_statement
      (get (run history_store late_results (manager_of canceled_statement)).statements (str "01a"))
unfolding with_cancellation
canceled_final_example =
    canceled_final history_store (str "01a") canceled_statement late_results
      (manager_of canceled_statement) (get-put_self empty (str "01a") canceled_statement) refl
      (tt, (tt, tt))

abbrev one_canceled : List ManagerCall
one_canceled =
    creates 1 (str "abc") (str "SELECT 1") [] [] [] (str "u1")
    ∷ updates 2 (str "01abc") running
    ∷ cancels 3 (str "01abc")
    ∷ []

statements-Inv_example : Inv (run history_store one_canceled (new_statement_manager 100))
statements-Inv_example = statements-Inv history_store 100 one_canceled

list_for_user_private_example :
    let listed =
      list_statements_for_user history_store (str "u1") (pos 10) (manager_of some_statement) in
    All (λ s. s.user_id ≡ str "u1") listed × IsSortedBy newer listed
list_for_user_private_example =
    list_for_user_private history_store (manager_of some_statement) (str "u1") (pos 10)

list_for_user-eq-take_example :
    let mine =
      keep
        (λ s. s.user_id == str "u1")
        (list_statements_with_context history_store (pos 0) (manager_of some_statement)) in
    list_statements_for_user history_store (str "u1") (pos 1) (manager_of some_statement)
    ≡ (if is_pos (pos 1) then take (to_ℕ (pos 1)) mine else mine)
list_for_user-eq-take_example =
    list_for_user-eq-take history_store (manager_of some_statement) (str "u1") (pos 1)

mem-list_for_user_example : Mem (summarize some_statement) (
    list_statements_for_user history_store some_statement.user_id
      (pos 0)
      (manager_of some_statement))
mem-list_for_user_example =
    mem-list_for_user history_store (manager_of some_statement) (str "01a") some_statement
      (get-put_self empty (str "01a") some_statement)

list-IsCurrent_example :
    All
      (IsCurrent history_store (manager_of some_statement))
      (list_statements_with_context history_store (pos 5) (manager_of some_statement))
list-IsCurrent_example = list-IsCurrent history_store (manager_of some_statement) (pos 5)

abbrev one_row : QueryResult
one_row = record { columns = str "N" ∷ []; rows = (null ∷ []) ∷ []; total_rows = 1 }

abbrev timed_out : SnowflakeError
timed_out = record { code = str "604"; message = str "timeout" }

changes-IsRecorded_example :
    let m = manager_of some_statement in
    IsRecorded
      (str "01a")
      (with_status running 9 some_statement)
      (update_status history_store 9 (str "01a") running m).0
    × IsRecorded
        (str "01a")
        (with_result one_row 9 some_statement)
        (set_result history_store 9 (str "01a") one_row m).0
    × IsRecorded
        (str "01a")
        (with_exec_result (pos 2) 9 some_statement)
        (set_exec_result history_store 9 (str "01a") (pos 2) m).0
    × IsRecorded
        (str "01a")
        (with_error timed_out 9 some_statement)
        (set_error history_store 9 (str "01a") timed_out m).0
unfolding new_statement text_beq
changes-IsRecorded_example =
    changes-IsRecorded 9 running one_row (pos 2) timed_out some_statement
      (record { rows = empty; is_open = true }) (manager_of some_statement)
      (get-put_self empty (str "01a") some_statement) refl refl refl refl
