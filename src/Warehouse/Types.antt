-- ===== src/Warehouse/Types.antt =====
-- The data of pkg/warehouse/manager.go and of pkg/metadata/warehouse_repository.go.
-- A waiter is a pointer in Go: here it is a number into the heap `waiters`. Its channel `ready` has
-- room for one value and is written once, so it is the value sent, if any.
use snowflake_emulator.Base.{ℕ, Text, Option, none, Bool, true, false, List, []}
use snowflake_emulator.Base.Dict.{Dict, empty}
use snowflake_emulator.Base.Int.{ℤ}

pub data State : Type 0 where
  suspended resuming active suspending : State

abbrev pub is_suspended : State → Bool
is_suspended suspended = true
is_suspended _ = false

abbrev pub is_active : State → Bool
is_active active = true
is_active _ = false

abbrev pub is_suspending : State → Bool
is_suspending suspending = true
is_suspending _ = false

pub data Error : Type 0 where
  empty_name negative_auto_suspend records_unreadable : Error
  already_exists not_found in_use resume_disabled suspended_while_queued persist_failed :
      Text → Error
  invalid_size : Text → Error
  cannot_resume not_accepting : Text → State → Error

-- Instants are nanoseconds.
pub record Warehouse : Type 0 where
  pub id : Text
  pub name : Text
  pub state : State
  pub size : Text
  pub comment : Text
  pub owner : Text
  pub created_at : ℕ
  pub auto_resume : Bool
  pub auto_suspend : ℤ
  pub running : ℕ
  pub queued : ℕ
  pub last_resumed_at : Option ℕ
  pub last_suspended_at : Option ℕ
  pub last_activity_at : Option ℕ

pub record Settings : Type 0 where
  pub size : Text
  pub auto_resume : Bool
  pub auto_suspend : ℤ

-- `ready` holds `some none` once the waiter is admitted and `some (some e)` once it is rejected.
pub record Waiter : Type 0 where
  pub size : Text
  pub ready : Option (Option Error)
  pub admitted : Bool

pub record RuntimeWarehouse : Type 0 where
  pub value : Warehouse
  pub queue : List ℕ

-- A row of the table _metadata_warehouses.
pub record WarehouseRecord : Type 0 where
  pub id : Text
  pub name : Text
  pub state : State
  pub size : Text
  pub comment : Text
  pub created_at : ℕ
  pub owner : Text
  pub auto_resume : Bool
  pub auto_suspend : ℤ
  pub last_resumed_at : Option ℕ
  pub last_suspended_at : Option ℕ
  pub last_activity_at : Option ℕ

abbrev pub Heap : Type 0
Heap = ℕ → Waiter

-- `repo` is the table of the repository, or `none` for a manager that does not persist.
pub record Manager : Type 0 where
  pub warehouses : Dict RuntimeWarehouse
  pub waiters : Heap
  pub next_waiter : ℕ
  pub repo : Option (Dict WarehouseRecord)

-- What a call takes from outside: the clock, the next UUID, and whether the database executes a
-- statement about the row of that name.
pub record Call : Type 0 where
  pub now : ℕ
  pub uuid : Text
  pub exec_ok : Text → Bool

pub record Lease : Type 0 where
  pub size : Text
  pub name : Text
  pub released : Bool

-- How the first critical section of Acquire ends, when it does not fail.
pub data Admission : Type 0 where
  granted : Lease → Admission
  waits : ℕ → Text → Admission

abbrev pub new_waiter : Waiter
new_waiter = record { size = []; ready = none; admitted = false }

unfoldable pub new_manager : Manager
unfolding empty
new_manager = record { warehouses = empty; waiters = λ w. new_waiter; next_waiter = 0; repo = none }
