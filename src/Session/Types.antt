-- ===== src/Session/Types.antt =====
-- The data of pkg/session/manager.go and pkg/session/store.go. A `*Session` is shared by the two
-- indexes of the manager: it is a number into `heap`.
use snowflake_emulator.Base.{ℕ, Bool, Text, Option, List, []}
use snowflake_emulator.Base.Dict.{Dict, empty}

-- Instants and durations are nanoseconds. `sql_variables` names the synchronized map, which copies
-- share; `parameters` is never written after creation.
pub record Session : Type 0 where
  pub id : ℕ
  pub token : Text
  pub master_token : Text
  pub username : Text
  pub user_id : Text
  pub active_role_id : Text
  pub active_role : Text
  pub database : Text
  pub current_schema : Text
  pub warehouse : Text
  pub created_at : ℕ
  pub last_accessed_at : ℕ
  pub expires_at : ℕ
  pub validity_in_seconds : ℕ
  pub master_validity_in_seconds : ℕ
  pub parameters : List (Text × Text)
  pub sql_variables : ℕ

pub record CreateInput : Type 0 where
  pub user_id : Text
  pub username : Text
  pub active_role_id : Text
  pub active_role : Text
  pub database : Text
  pub schema : Text
  pub warehouse : Text

pub data Error : Type 0 where
  empty_username empty_database empty_schema empty_token empty_master_token : Error
  token_generation master_token_generation persist_failed : Error
  session_not_found invalid_token session_expired expired_or_closed : Error
  invalid_master_token master_token_expired : Error

abbrev pub Heap : Type 0
Heap = ℕ → Session

-- `store` is the table _sessions, keyed by token, or `none` without persistence.
pub record Manager : Type 0 where
  pub heap : Heap
  pub next : ℕ
  pub sessions : Dict ℕ
  pub master_tokens : Dict ℕ
  pub session_timeout : ℕ
  pub store : Option (Dict Session)

-- What a call takes from outside: the clock, which stands still within one critical section, the
-- random tokens, or `none` where the random source fails, and whether the database executes.
pub record Call : Type 0 where
  pub now : ℕ
  pub token : Option Text
  pub master_token : Option Text
  pub exec_ok : Bool

abbrev pub blank_session : Session
blank_session = record {
  id = 0;
  token = [];
  master_token = [];
  username = [];
  user_id = [];
  active_role_id = [];
  active_role = [];
  database = [];
  current_schema = [];
  warehouse = [];
  created_at = 0;
  last_accessed_at = 0;
  expires_at = 0;
  validity_in_seconds = 0;
  master_validity_in_seconds = 0;
  parameters = [];
  sql_variables = 0;
}

unfoldable pub new_manager : ℕ → Option (Dict Session) → Manager
unfolding empty
new_manager session_timeout store = record {
  heap = λ p. blank_session;
  next = 0;
  sessions = empty;
  master_tokens = empty;
  session_timeout = session_timeout;
  store = store;
}
