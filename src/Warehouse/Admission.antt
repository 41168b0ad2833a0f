-- ===== src/Warehouse/Admission.antt =====
-- The lifecycle and the admission queue of one warehouse (pkg/warehouse/manager.go): what the
-- Manager does to a runtime warehouse and to the waiters while it holds its lock.
pub mod Batch
use snowflake_emulator.Base.{
  ℕ, ◌+◌, ◌-◌, Text, none, some, Bool, true, ◌&&◌, List, [], ◌∷◌, ltb, ◌==◌, nat_eq, if◌then◌else◌,
}
use snowflake_emulator.Warehouse.Types.{
  suspended, active, is_active, is_suspending, Error, Warehouse, Waiter, RuntimeWarehouse, Heap,
}
use snowflake_emulator.Warehouse.Size.{capacity}

abbrev pub write : Heap → ℕ → Waiter → Heap
write h w v = λ u. if u == w then v else h u

-- The state Resuming between the two writes is never seen outside the lock.
unfoldable pub resume : ℕ → Warehouse → Warehouse
resume now v = record v { state = active; last_resumed_at = some now; last_activity_at = some now }

unfoldable pub suspend : ℕ → Warehouse → Warehouse
suspend now v = record v { state = suspended; last_suspended_at = some now }

abbrev pub has_room : Warehouse → Bool
has_room v = is_active v.state && ltb v.running (capacity v.size)

abbrev pub admitted_waiter : Text → Waiter
admitted_waiter size = record { size = size; ready = some none; admitted = true }

-- The loop of `admit`: each round takes the head of the queue.
unfoldable pub admit_loop : Warehouse → List ℕ → Heap → RuntimeWarehouse × Heap
admit_loop v [] h = (record { value = v; queue = [] }, h)
admit_loop v (w ∷ q) h =
    let rest =
      admit_loop (record v { queued = v.queued - 1; running = v.running + 1 }) q
        (write h w (admitted_waiter v.size)) in
    if has_room v then rest else (record { value = v; queue = w ∷ q }, h)

unfoldable pub admit : RuntimeWarehouse → Heap → RuntimeWarehouse × Heap
admit item h = admit_loop item.value item.queue h

-- `running` is not 0 where this is called.
unfoldable pub release_locked : ℕ → RuntimeWarehouse → Heap → RuntimeWarehouse × Heap
unfolding suspend
release_locked now item h =
    let v = record (item.value) { running = item.value.running - 1; last_activity_at = some now } in
    let item' : RuntimeWarehouse = record { value = v; queue = item.queue } in
    if is_suspending v.state && v.running == 0
    then (record { value = suspend now v; queue = item.queue }, h)
    else admit item' h

-- The loop of SuspendWarehouse over the queue.
unfoldable pub reject_all : Error → List ℕ → Heap → Heap
reject_all e [] h = h
reject_all e (w ∷ q) h = reject_all e q (write h w (record (h w) { ready = some (some e) }))
