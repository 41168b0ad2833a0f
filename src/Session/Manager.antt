-- ===== src/Session/Manager.antt =====
-- The operations of Manager (pkg/session/manager.go) and its restart (pkg/session/store.go).
pub mod Stable
pub mod Revocation
pub mod Renewal
use snowflake_emulator.Base.{
  ℕ, suc, ◌+◌, ◌*◌, ◌/◌, Text, text_eq, nat_eq, Option, none, some, Bool, true, false, not, List,
  [], ◌∷◌, ltb, leb, ◌==◌, length, keep, if◌then◌else◌,
}
use snowflake_emulator.Base.Dict.{Dict, get, put, remove, retain, values}
use snowflake_emulator.Base.Result.{Result, ok, err}
use snowflake_emulator.Session.Types.{
  Session, CreateInput, Error, empty_username, empty_database, empty_schema, empty_token,
  empty_master_token, token_generation, master_token_generation, persist_failed, session_not_found,
  invalid_token, session_expired, expired_or_closed, invalid_master_token, master_token_expired,
  Heap, Manager, Call, new_manager,
}
use snowflake_emulator.Session.Store.{save, delete, touch, replace_token, list_all}

abbrev pub write : Heap → ℕ → Session → Heap
write h p s = λ q. if q == p then s else h q

abbrev pub second : ℕ
second = 1_000_000_000

-- A statement of the store, which succeeds where there is no store; `true` is success.
unfoldable pub on_store : (Dict Session → Dict Session × Bool) → Manager → Manager × Bool
on_store body m = elim m.store [
  | none ↦ (m, true)
  | some t ↦ (record m { store = some (body t).0 }, (body t).1)
]

unfoldable pub new_session : Call → Text → Text → CreateInput → ℕ → ℕ → Session
new_session c token master_token input timeout variables = record {
  id = c.now;
  token = token;
  master_token = master_token;
  username = input.username;
  user_id = input.user_id;
  active_role_id = input.active_role_id;
  active_role = input.active_role;
  database = input.database;
  current_schema = input.schema;
  warehouse = input.warehouse;
  created_at = c.now;
  last_accessed_at = c.now;
  expires_at = c.now + timeout;
  validity_in_seconds = timeout / second;
  master_validity_in_seconds = timeout / second * 4;
  parameters = [];
  sql_variables = variables;
}

-- The new session in both indexes.
unfoldable pub add_session : Session → Manager → Manager
add_session s m = record m {
  heap = write m.heap m.next s;
  next = suc m.next;
  sessions = put m.sessions s.token m.next;
  master_tokens = put m.master_tokens s.master_token m.next;
}

-- Both index entries go again if the session could not be stored.
settle_created : Session → Manager × Bool → Manager × Result Error Session
settle_created s (m, true) = (m, ok s)
settle_created s (m, false) = (
  record m {
    sessions = remove m.sessions s.token;
    master_tokens = remove m.master_tokens s.master_token;
  },
  err persist_failed,
)

create_with_tokens :
    Call → CreateInput → Option Text → Option Text → Manager → Manager × Result Error Session
unfolding add_session settle_created new_session on_store save
create_with_tokens c input none master m = (m, err token_generation)
create_with_tokens c input (some token) none m = (m, err master_token_generation)
create_with_tokens c input (some token) (some master) m =
    let s = new_session c token master input m.session_timeout m.next in
    settle_created s (on_store (save c.exec_ok s) (add_session s m))

unfoldable pub create_authenticated_session :
    Call → CreateInput → Manager → Manager × Result Error Session
unfolding create_with_tokens
create_authenticated_session c input m =
    if input.username == []
    then (m, err empty_username)
    else if input.database == []
    then (m, err empty_database)
    else if input.schema == []
    then (m, err empty_schema)
    else create_with_tokens c input c.token c.master_token m

-- SetWarehouseContext, SetActiveRole and UpdateSessionContext change the session, save it, and put
-- the old fields back if that fails.
save_changed : Call → ℕ → Session → Manager → Manager × Bool → Manager × Option Error
save_changed c p s m (saved, true) = (record saved { heap = write m.heap p s }, none)
save_changed c p s m (unsaved, false) = (unsaved, some persist_failed)

unfoldable pub change_session :
    Error → (Session → Session) → Call → Text → Manager → Manager × Option Error
unfolding save_changed on_store save
change_session missing change c token m = elim (get m.sessions token) [
  | none ↦ (m, some missing)
  | some p ↦
      save_changed c p (change (m.heap p)) m (on_store (save c.exec_ok (change (m.heap p))) m)
]

abbrev with_warehouse : Text → Session → Session
with_warehouse warehouse s = record s { warehouse = warehouse }

unfoldable pub set_warehouse_context : Call → Text → Text → Manager → Manager × Option Error
unfolding change_session
set_warehouse_context c token warehouse m =
    change_session session_not_found (with_warehouse warehouse) c token m

abbrev with_role : Text → Text → Session → Session
with_role role_id role s = record s { active_role_id = role_id; active_role = role }

unfoldable pub set_active_role : Call → Text → Text → Text → Manager → Manager × Option Error
unfolding change_session
set_active_role c token role_id role m =
    change_session session_not_found (with_role role_id role) c token m

-- `if v != "" { field = v }`
abbrev or_old : Text → Text → Text
or_old old new = if new == [] then old else new

abbrev with_context : ℕ → Text → Text → Session → Session
with_context now database schema s = record s {
  database = or_old s.database database;
  current_schema = or_old s.current_schema schema;
  last_accessed_at = now;
}

unfoldable pub update_session_context : Call → Text → Text → Text → Manager → Manager × Option Error
unfolding change_session
update_session_context c token database schema m =
    change_session invalid_token (with_context c.now database schema) c token m

inspect_at : ℕ → Text → Option ℕ → Manager → Manager × Result Error Session
inspect_at now token none m = (m, err invalid_token)
inspect_at now token (some p) m =
    if ltb (m.heap p).expires_at now
    then (record m { sessions = remove m.sessions token }, err session_expired)
    else (m, ok (m.heap p))

unfoldable pub inspect_session : ℕ → Text → Manager → Manager × Result Error Session
unfolding inspect_at
inspect_session now token m =
    if token == [] then (m, err empty_token) else inspect_at now token (get m.sessions token) m

-- The last critical section of ValidateSession, which looks the token up once more.
finish_at : ℕ → Option ℕ → Manager → Manager × Result Error Session
finish_at now none m = (m, err expired_or_closed)
finish_at now (some p) m =
    if ltb (m.heap p).expires_at now
    then (m, err expired_or_closed)
    else if ltb (m.heap p).last_accessed_at now
    then (let s = record (m.heap p) { last_accessed_at = now } in
        (record m { heap = write m.heap p s }, ok s))
    else (m, ok (m.heap p))

finish_touched : ℕ → Text → Manager × Bool → Manager × Result Error Session
unfolding finish_at
finish_touched now token (m, false) = (m, err persist_failed)
finish_touched now token (m, true) = finish_at now (get m.sessions token) m

validate_inspected : Call → Text → Manager × Result Error Session → Manager × Result Error Session
unfolding finish_touched on_store touch
validate_inspected c token (m, err e) = (m, err e)
validate_inspected c token (m, ok s) =
    finish_touched c.now token (on_store (touch c.exec_ok token c.now) m)

-- ValidateSession, with no other call between its critical sections.
unfoldable pub validate_session : Call → Text → Manager → Manager × Result Error Session
unfolding validate_inspected inspect_session
validate_session c token m = validate_inspected c token (inspect_session c.now token m)

forget : Text → Option ℕ → Manager → Manager
forget token none m = m
forget token (some p) m = record m {
  sessions = remove m.sessions token;
  master_tokens = remove m.master_tokens (m.heap p).master_token;
}

-- The loop of CloseSession over the master tokens.
revoke : Text → Manager → Manager
revoke token m = record m {
  master_tokens = retain (λ master p. not ((m.heap p).token == token)) m.master_tokens;
}

report_deleted : Manager × Bool → Manager × Option Error
report_deleted (m, true) = (m, none)
report_deleted (m, false) = (m, some persist_failed)

unfoldable pub close_session : Call → Text → Manager → Manager × Option Error
unfolding forget revoke report_deleted on_store delete
close_session c token m =
    report_deleted
      (on_store (delete c.exec_ok token) (revoke token (forget token (get m.sessions token) m)))

unfoldable pub cleanup_expired_sessions : ℕ → Manager → Manager × ℕ
cleanup_expired_sessions now m = (
  record m { sessions = retain (λ token p. not (ltb (m.heap p).expires_at now)) m.sessions },
  length (keep (λ p. ltb (m.heap p).expires_at now) (values m.sessions)),
)

-- The same session object is found under its new token from now on.
install_replacement : ℕ → Text → Session → Manager × Bool → Manager × Result Error Session
install_replacement p old s (m, false) = (m, err persist_failed)
install_replacement p old s (m, true) =
    (record m { heap = write m.heap p s; sessions = put (remove m.sessions old) s.token p }, ok s)

renew_with : Call → ℕ → Option Text → Manager → Manager × Result Error Session
unfolding install_replacement on_store replace_token
renew_with c p none m = (m, err token_generation)
renew_with c p (some token) m =
    let s = record (m.heap p) {
      token = token;
      last_accessed_at = c.now;
      expires_at = c.now + m.session_timeout;
    } in
    install_replacement p (m.heap p).token s
      (on_store (replace_token c.exec_ok (m.heap p).token s) m)

abbrev pub master_expiry : Session → ℕ
master_expiry s = s.created_at + s.master_validity_in_seconds * second

renew_at : Call → Text → Option ℕ → Manager → Manager × Result Error Session
unfolding renew_with
renew_at c master none m = (m, err invalid_master_token)
renew_at c master (some p) m =
    if ltb (master_expiry (m.heap p)) c.now
    then (
      record m {
        master_tokens = remove m.master_tokens master;
        sessions = remove m.sessions (m.heap p).token;
      },
      err master_token_expired,
    )
    else renew_with c p c.token m

unfoldable pub renew_token : Call → Text → Manager → Manager × Result Error Session
unfolding renew_at
renew_token c master m =
    if master == []
    then (m, err empty_master_token)
    else renew_at c master (get m.master_tokens master) m

record_access : ℕ → ℕ → Manager × Bool → Manager × Option Error
record_access p now (m, false) = (m, some persist_failed)
record_access p now (m, true) =
    (record m { heap = write m.heap p (record (m.heap p) { last_accessed_at = now }) }, none)

access_at : Call → Text → Option ℕ → Manager → Manager × Option Error
unfolding record_access on_store touch
access_at c token none m = (m, some session_not_found)
access_at c token (some p) m =
    if ltb (m.heap p).expires_at c.now
    then (record m { sessions = remove m.sessions token }, some session_expired)
    else record_access p c.now (on_store (touch c.exec_ok token c.now) m)

unfoldable pub update_last_accessed : Call → Text → Manager → Manager × Option Error
unfolding access_at
update_last_accessed c token m =
    if token == [] then (m, some empty_token) else access_at c token (get m.sessions token) m

abbrev or_default : ℕ → ℕ → ℕ
or_default stored fallback = if stored == 0 then fallback else stored

abbrev index_master : Text → ℕ → Dict ℕ → Dict ℕ
index_master master p d = if master == [] then d else put d master p

-- The body of the loop of NewPersistentManager; the SQL variables start anew.
unfoldable pub restore : ℕ → Session → Manager → Manager
restore now v m =
    let s = record v {
      validity_in_seconds = or_default v.validity_in_seconds (m.session_timeout / second);
      master_validity_in_seconds =
          or_default v.master_validity_in_seconds (m.session_timeout / second * 4);
      sql_variables = m.next;
    } in
    if ltb v.expires_at now then m else record m {
      heap = write m.heap m.next s;
      next = suc m.next;
      sessions = put m.sessions v.token m.next;
      master_tokens = index_master v.master_token m.next m.master_tokens;
    }

unfoldable pub restore_all : ℕ → List Session → Manager → Manager
unfolding restore
restore_all now [] m = m
restore_all now (v ∷ vs) m = restore_all now vs (restore now v m)

unfoldable pub new_persistent_manager : Call → ℕ → Dict Session → Result Error Manager
unfolding new_manager restore_all list_all
new_persistent_manager c timeout t = elim (list_all c.exec_ok t) [
  | none ↦ err persist_failed
  | some vs ↦ ok (restore_all c.now vs (new_manager timeout (some t)))
]
