-- ===== src/Session/Tests.antt =====
-- The theorems about sessions at concrete inputs.
use snowflake_emulator.Base.{
  refl, arith, ◌≡◌, ◌++◌, text_beq, ℕ, Text, str, some, none, true, List, [], ◌∷◌,
}
use snowflake_emulator.Base.Result.{err}
use snowflake_emulator.Session.Types.{Manager, Call, CreateInput, invalid_token, new_manager}
use snowflake_emulator.Base.Dict.{empty, get-put_self}
use snowflake_emulator.Session.Manager.Renewal.{IsMoved, renewed, renew_token-IsMoved}
use snowflake_emulator.Session.Calls.{ManagerCall, creates, renews, validates, run}
use snowflake_emulator.Session.Index.{Inv}
use snowflake_emulator.Session.Manager.{
  add_session, new_session, renew_token, on_store, close_session, inspect_session,
}
use snowflake_emulator.Session.Manager.Revocation.{logout_final}
use snowflake_emulator.Session.Closing.{IsClosed, sessions-Inv}

abbrev call_at : ℕ → Text → Call
call_at now token = record {
  now = now;
  token = some token;
  master_token = some (str "master");
  exec_ok = true;
}

abbrev ann : CreateInput
ann = record {
  user_id = str "u1";
  username = str "ANN";
  active_role_id = [];
  active_role = [];
  database = str "DB";
  schema = str "PUBLIC";
  warehouse = [];
}

abbrev login : List (Call × ManagerCall)
login = (call_at 1 (str "old"), creates ann) ∷ []

abbrev later : List (Call × ManagerCall)
later =
    (call_at 3 (str "new"), renews (str "master"))
    ∷ (call_at 4 (str "other"), validates (str "old"))
    ∷ []

sessions-Inv_example : Inv (run (login ++ later) (new_manager 100 none))
sessions-Inv_example = sessions-Inv 100 none (login ++ later)

logout_final_example :
    let m =
      run later (close_session (call_at 2 []) (str "old") (run login (new_manager 100 none))).0 in
    IsClosed (str "old") m × (inspect_session 5 (str "old") m ≡ (m, err invalid_token))
unfolding text_beq
logout_final_example =
    logout_final 100 none login later (call_at 2 []) (str "old") 5
      (ground arith, (ground arith, tt))

abbrev logged_in : Manager
logged_in =
    add_session
      (new_session (call_at 1 (str "old")) (str "old") (str "master") ann 100_000_000_000 0)
      (new_manager 100_000_000_000 none)

renew_token-IsMoved_example :
    IsMoved 50
      (str "old")
      (renewed 3 100_000_000_000
        (str "new")
        (new_session (call_at 1 (str "old")) (str "old") (str "master") ann 100_000_000_000 0))
      (renew_token (call_at 3 (str "new")) (str "master") logged_in)
unfolding add_session new_session new_manager text_beq on_store
renew_token-IsMoved_example =
    renew_token-IsMoved (call_at 3 (str "new")) (str "master") (str "new") 0 logged_in 50 refl
      (get-put_self empty (str "master") 0) refl refl refl refl refl (ground arith)
