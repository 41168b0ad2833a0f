-- ===== src/Warehouse/Calls.antt =====
-- Any sequence of calls of the warehouse manager. What runs between two locks of one call is given
-- as separate calls: `acquires` and `cancels` are the two critical sections of Acquire.
use snowflake_emulator.Base.{ℕ, Text, List, [], ◌∷◌, Bool, ◌≡◌}
use snowflake_emulator.Base.Dict.{Dict}
use snowflake_emulator.Base.Result.{ok}
use snowflake_emulator.Warehouse.Execution.Loading.{new_persistent_manager-Inv}
use snowflake_emulator.Warehouse.Types.{
  WarehouseRecord, Settings, Manager, Call, Lease, new_manager,
}
use snowflake_emulator.Warehouse.Manager.{
  create_warehouse_with_settings, resume_warehouse, suspend_warehouse, alter_warehouse,
  drop_warehouse,
}
use snowflake_emulator.Warehouse.Manager.Sound.{
  create_warehouse_with_settings-Inv, resume_warehouse-Inv, suspend_warehouse-Inv,
  alter_warehouse-Inv, drop_warehouse-Inv,
}
use snowflake_emulator.Warehouse.Execution.{
  acquire, cancel, release_lease, check_auto_suspend, new_persistent_manager,
}
use snowflake_emulator.Warehouse.Execution.Sound.{
  acquire-Inv, cancel-Inv, release_lease-Inv, check_auto_suspend-Inv,
}
use snowflake_emulator.Warehouse.Invariant.{Inv, new_manager-Inv}

pub data ManagerCall : Type 0 where
  creates : Text → Text → Settings → ManagerCall
  resumes suspends drops acquires : Text → ManagerCall
  alters : Text → Settings → ManagerCall
  cancels : ℕ → Text → ManagerCall
  releases : Lease → ManagerCall
  checks : ManagerCall

unfoldable pub step : Call × ManagerCall → Manager → Manager
step (c, creates name comment s) m = (create_warehouse_with_settings c name comment s m).0
step (c, resumes name) m = (resume_warehouse c name m).0
step (c, suspends name) m = (suspend_warehouse c name m).0
step (c, drops name) m = (drop_warehouse c name m).0
step (c, acquires name) m = (acquire c name m).0
step (c, alters name s) m = (alter_warehouse c name s m).0
step (c, cancels w name) m = cancel c w name m
step (c, releases l) m = (release_lease c l m).1
step (c, checks) m = (check_auto_suspend c m).0

unfoldable pub run : List (Call × ManagerCall) → Manager → Manager
run [] m = m
run (c ∷ cs) m = run cs (step c m)

pub step-Inv : (c : Call × ManagerCall) (m : Manager) → Inv m → Inv (step c m)
unfolding step
step-Inv (c, creates name comment s) m v = create_warehouse_with_settings-Inv c name comment s m v
step-Inv (c, resumes name) m v = resume_warehouse-Inv c name m v
step-Inv (c, suspends name) m v = suspend_warehouse-Inv c name m v
step-Inv (c, drops name) m v = drop_warehouse-Inv c name m v
step-Inv (c, acquires name) m v = acquire-Inv c name m v
step-Inv (c, alters name s) m v = alter_warehouse-Inv c name s m v
step-Inv (c, cancels w name) m v = cancel-Inv c w name m v
step-Inv (c, releases l) m v = release_lease-Inv c l m v
step-Inv (c, checks) m v = check_auto_suspend-Inv c m v

run-Inv : (cs : List (Call × ManagerCall)) (m : Manager) → Inv m → Inv (run cs m)
unfolding run
run-Inv [] m v = v
run-Inv (c ∷ cs) m v = run-Inv cs (step c m) (step-Inv c m v)

-- The managers that the constructors give: one without a database, or one with the records of a
-- database, all of which could be loaded.
pub data IsStart : Manager → Type 0 where
  fresh : IsStart new_manager
  loaded :
      (c : Call) (readable : Bool) (table : Dict WarehouseRecord) (m : Manager)
      → new_persistent_manager c readable table ≡ ok m
      → IsStart m

start-Inv : (m : Manager) → IsStart m → Inv m
start-Inv _ fresh = new_manager-Inv
start-Inv _ (loaded c readable table m e) = new_persistent_manager-Inv c readable table m e

-- From a manager without a database or from one that loaded its records, after any calls, with any
-- failures of the database, every warehouse stands under its name, is not resuming, counts its
-- queue exactly, runs nothing while suspended and something while suspending, and keeps a statement
-- waiting only while it is active and all its slots are taken.
pub warehouses-Inv :
    (start : Manager) (cs : List (Call × ManagerCall)) → IsStart start → Inv (run cs start)
warehouses-Inv start cs starts = run-Inv cs start (start-Inv start starts)
