-- ===== src/Warehouse/Tests.antt =====
-- The theorems about warehouses at concrete inputs.
use snowflake_emulator.Base.{
  false, refl, nat_eq, ◌==◌, some, contains, if◌then◌else◌, text_beq, ◌≡◌, ℕ, str, none, true, List,
  [], ◌∷◌,
}
use snowflake_emulator.Base.Dict.{empty, get, put, get-put_self}
use snowflake_emulator.Warehouse.Manager.{suspend_warehouse, to_record, persist, store}
use snowflake_emulator.Warehouse.Manager.Suspension.{suspend_warehouse-rejects}
use snowflake_emulator.Base.Int.{pos}
use snowflake_emulator.Warehouse.Types.{
  WarehouseRecord, Error, suspending, suspended, suspended_while_queued, Manager, active,
  RuntimeWarehouse, Heap, Call, new_waiter, new_manager,
}
use snowflake_emulator.Warehouse.Size.{capacity, normalize_name}
use snowflake_emulator.Warehouse.Admission.{admit}
use snowflake_emulator.Warehouse.Admission.Batch.{batch, admit-eq-batch}
use snowflake_emulator.Warehouse.Execution.{acquire, new_persistent_manager}
use snowflake_emulator.Base.Dict.{Dict}
use snowflake_emulator.Base.Result.{Result, ok, err}
use snowflake_emulator.Warehouse.Execution.Grants.{Outcome, acquire-Outcome}
use snowflake_emulator.Warehouse.Invariant.{Inv, new_manager-Inv}
use snowflake_emulator.Warehouse.Calls.{
  ManagerCall, creates, acquires, resumes, loaded, suspends, step, step-Inv, run, warehouses-Inv,
}

abbrev two_waiting : RuntimeWarehouse
two_waiting = record {
  value = record {
    id = str "1";
    name = str "WH";
    state = active;
    size = str "X-SMALL";
    comment = [];
    owner = [];
    created_at = 0;
    auto_resume = true;
    auto_suspend = pos 600;
    running = 0;
    queued = 2;
    last_resumed_at = none;
    last_suspended_at = none;
    last_activity_at = none;
  };
  queue = 4 ∷ 7 ∷ [];
}

abbrev idle_waiters : Heap
idle_waiters w = new_waiter

admit-eq-batch_example :
    admit two_waiting idle_waiters ≡ batch 1 two_waiting.value (4 ∷ 7 ∷ []) idle_waiters
unfolding capacity text_beq
admit-eq-batch_example = admit-eq-batch two_waiting idle_waiters

abbrev call_at : ℕ → Call
call_at now = record { now = now; uuid = str "u"; exec_ok = λ name. true }

abbrev create_wh : Call × ManagerCall
create_wh = (
  call_at 1,
  creates (str " wh ") [] (record { size = str "small"; auto_resume = true; auto_suspend = pos 5 }),
)

acquire-Outcome_example :
    Outcome
      (normalize_name (str "wh"))
      (step create_wh new_manager)
      (acquire (call_at 2) (str "wh") (step create_wh new_manager))
acquire-Outcome_example =
    acquire-Outcome (call_at 2) (str "wh") (step create_wh new_manager)
      (step-Inv create_wh new_manager new_manager-Inv)

abbrev loaded_manager : Result Error Manager → Manager
loaded_manager (ok m) = m
loaded_manager (err e) = new_manager

abbrev three_acquired : List (Call × ManagerCall)
three_acquired =
    create_wh
    ∷ (call_at 2, acquires (str "WH"))
    ∷ (call_at 3, acquires (str "WH"))
    ∷ (call_at 4, acquires (str "WH"))
    ∷ (call_at 5, suspends (str "WH"))
    ∷ []

-- The records that a manager leaves, read by the next one.
abbrev one_record : Dict WarehouseRecord
one_record = put empty (str "WH") (to_record two_waiting.value)

-- The database does not answer to the calls after the start.
abbrev down_at : ℕ → Call
down_at now = record (call_at now) { exec_ok = λ name. false }

warehouses-Inv_example :
    let start = loaded_manager (new_persistent_manager (call_at 1) true one_record) in
    Inv (run ((down_at 6, resumes (str "WH")) ∷ three_acquired) start)
unfolding new_persistent_manager put persist store
warehouses-Inv_example =
    let start = loaded_manager (new_persistent_manager (call_at 1) true one_record) in
    warehouses-Inv start ((down_at 6, resumes (str "WH")) ∷ three_acquired)
      (loaded (call_at 1) true one_record start refl)

abbrev waiting_manager : Manager
waiting_manager = record new_manager { warehouses = put empty (str "WH") two_waiting }

suspend_warehouse-rejects_example :
    let m' = (suspend_warehouse (call_at 9) (str "wh") waiting_manager).0 in
    ((m'.waiters 7).ready ≡ (
      if contains two_waiting.queue 7
      then some (some (suspended_while_queued two_waiting.value.name))
      else (waiting_manager.waiters 7).ready))
    × ((after : RuntimeWarehouse) × (get m'.warehouses (normalize_name (str "wh")) ≡ some after)
        × (after.queue ≡ [])
        × (after.value.queued ≡ 0)
        × (after.value.running ≡ two_waiting.value.running)
        × (after.value.state ≡ (if two_waiting.value.running == 0 then suspended else suspending)))
unfolding normalize_name
suspend_warehouse-rejects_example =
    suspend_warehouse-rejects (call_at 9) (str "wh") waiting_manager two_waiting 7
      (get-put_self empty (str "WH") two_waiting) refl
