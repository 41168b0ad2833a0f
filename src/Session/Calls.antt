-- ===== src/Session/Calls.antt =====
-- Any sequence of calls of the session manager.
use snowflake_emulator.Base.{Text, List, [], ◌∷◌}
use snowflake_emulator.Session.Types.{CreateInput, Manager, Call}
use snowflake_emulator.Session.Manager.{
  create_authenticated_session, set_warehouse_context, set_active_role, update_session_context,
  inspect_session, validate_session, close_session, cleanup_expired_sessions, renew_token,
  update_last_accessed,
}

pub data ManagerCall : Type 0 where
  creates : CreateInput → ManagerCall
  uses_warehouse : Text → Text → ManagerCall
  uses_role : Text → Text → Text → ManagerCall
  uses_context : Text → Text → Text → ManagerCall
  inspects : Text → ManagerCall
  validates : Text → ManagerCall
  closes : Text → ManagerCall
  cleans : ManagerCall
  renews : Text → ManagerCall
  accesses : Text → ManagerCall

unfoldable pub step : Call × ManagerCall → Manager → Manager
step (c, creates input) m = (create_authenticated_session c input m).0
step (c, uses_warehouse token warehouse) m = (set_warehouse_context c token warehouse m).0
step (c, uses_role token role_id role) m = (set_active_role c token role_id role m).0
step (c, uses_context token database schema) m =
    (update_session_context c token database schema m).0
step (c, inspects token) m = (inspect_session c.now token m).0
step (c, validates token) m = (validate_session c token m).0
step (c, closes token) m = (close_session c token m).0
step (c, cleans) m = (cleanup_expired_sessions c.now m).0
step (c, renews master) m = (renew_token c master m).0
step (c, accesses token) m = (update_last_accessed c token m).0

unfoldable pub run : List (Call × ManagerCall) → Manager → Manager
run [] m = m
run (c ∷ cs) m = run cs (step c m)
