-- ===== src/Warehouse/Manager/Suspension.antt =====
-- What SuspendWarehouse does to the statements that wait.
use snowflake_emulator.Base.{
  ap, ℕ, ◌≡◌, refl, ◌∙◌, Text, some, false, List, [], ◌∷◌, ◌==◌, nat_eq, if◌then◌else◌, contains,
  arith,
}
use snowflake_emulator.Base.Dict.{get, get-put_self}
use snowflake_emulator.Warehouse.Types.{
  suspended, suspending, is_suspended, Error, suspended_while_queued, Warehouse, RuntimeWarehouse,
  Heap, Manager, Call,
}
use snowflake_emulator.Warehouse.Size.{normalize_name}
use snowflake_emulator.Warehouse.Admission.{write, suspend, reject_all}
use snowflake_emulator.Warehouse.Manager.{
  find, find_in, store, persist, store_and_persist, suspended_item, suspend_item, suspend_warehouse,
}
use snowflake_emulator.Warehouse.Invariant.{persist-warehouses}

-- The waiters of the queue are sent the error, and the others stay as they are.
reject_all-ready :
    (e : Error) (q : List ℕ) (h : Heap) (w : ℕ)
    → (reject_all e q h w).ready ≡ (if contains q w then some (some e) else (h w).ready)
unfolding reject_all contains
reject_all-ready e [] h w = refl
reject_all-ready e (u ∷ q) h w =
    ground (arith, reject_all-ready e q (write h u (record (h u) { ready = some (some e) })) w)

persist-heap : (c : Call) (v : Warehouse) (m : Manager) → (persist c v m).0.waiters ≡ m.waiters
unfolding persist
persist-heap c v m = ground arith

suspended_item-state :
    (now : ℕ) (v : Warehouse)
    → ((suspended_item now v).queue ≡ [])
      × ((suspended_item now v).value.queued ≡ 0)
      × ((suspended_item now v).value.running ≡ v.running)
      × ((suspended_item now v).value.state ≡ (if v.running == 0 then suspended else suspending))
unfolding suspended_item suspend
suspended_item-state now v = ground arith

-- Suspending a warehouse that is not suspended, whatever the database does, rejects exactly the
-- statements that wait for it: each of their waiters is sent the error, no other waiter is sent
-- anything, and the queue is empty. The warehouse stops at once if it runs nothing, and otherwise
-- goes on with what it runs as a suspending one.
pub suspend_warehouse-rejects :
    (c : Call) (name : Text) (m : Manager) (item : RuntimeWarehouse) (w : ℕ)
    → get m.warehouses (normalize_name name) ≡ some item
    → is_suspended item.value.state ≡ false
    → let m' = (suspend_warehouse c name m).0 in
      ((m'.waiters w).ready ≡ (
        if contains item.queue w
        then some (some (suspended_while_queued item.value.name))
        else (m.waiters w).ready))
      × ((after : RuntimeWarehouse) × (get m'.warehouses (normalize_name name) ≡ some after)
          × (after.queue ≡ [])
          × (after.value.queued ≡ 0)
          × (after.value.running ≡ item.value.running)
          × (after.value.state ≡ (if item.value.running == 0 then suspended else suspending)))
unfolding suspend_warehouse find find_in suspend_item store_and_persist store
suspend_warehouse-rejects c name m item w there live =
    let (emptied, none_queued, same_running, new_state) = suspended_item-state c.now item.value in
    rw there (
      rw live (
        ap (λ (h : Heap). (h w).ready) (persist-heap c stopped changed)
            ∙ reject_all-ready rejection item.queue m.waiters w,
        (
          suspended_item c.now item.value,
          ap (λ d. get d key) (persist-warehouses c stopped changed)
              ∙ get-put_self m.warehouses key _,
          emptied,
          none_queued,
          same_running,
          new_state,
        ),
      ))
  where
    key : Text
    key = normalize_name name

    stopped : Warehouse
    stopped = (suspended_item c.now item.value).value

    rejection : Error
    rejection = suspended_while_queued item.value.name

    changed : Manager
    changed =
        store key (suspended_item c.now item.value, reject_all rejection item.queue m.waiters) m
