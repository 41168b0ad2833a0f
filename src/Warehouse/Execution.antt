-- ===== src/Warehouse/Execution.antt =====
-- Acquire, Lease.Release, CheckAutoSuspend and the start of the manager (pkg/warehouse/manager.go).
-- Acquire gives up its lock while a statement waits: what runs before is `acquire`, and what runs
-- after is `receive` or `cancel`, whichever case of the `select` is taken.
pub mod Loading
pub mod Sound
pub mod Grants
use snowflake_emulator.Base.{
  ℕ, suc, ◌+◌, ◌-◌, ◌*◌, Text, Option, none, some, Bool, true, false, not, ◌&&◌, List, [], ◌∷◌,
  ◌++◌, ltb, leb, ◌==◌, nat_eq, text_eq, contains, if◌then◌else◌,
}
use snowflake_emulator.Base.Dict.{Dict, get, keys, values}
use snowflake_emulator.Base.Result.{Result, ok, err}
use snowflake_emulator.Base.Int.{is_pos, to_ℕ}
use snowflake_emulator.Warehouse.Types.{
  suspended, is_suspended, is_active, Error, resume_disabled, not_accepting, records_unreadable,
  Warehouse, Waiter, RuntimeWarehouse, WarehouseRecord, Manager, Call, Lease, Admission, granted,
  waits, new_waiter, new_manager,
}
use snowflake_emulator.Warehouse.Size.{capacity}
use snowflake_emulator.Warehouse.Admission.{write, resume, suspend, release_locked}
use snowflake_emulator.Warehouse.Manager.{from_record, persist, find, store, store_and_persist}

abbrev is_empty : List ℕ → Bool
is_empty [] = true
is_empty (w ∷ q) = false

enqueue : Text → RuntimeWarehouse → Manager → Manager × Result Error Admission
unfolding store
enqueue key item m =
    let w = m.next_waiter in
    let item' : RuntimeWarehouse = record {
      value = record (item.value) { queued = item.value.queued + 1 };
      queue = item.queue ++ w ∷ [];
    } in
    (
      record (store key (item', write m.waiters w new_waiter) m) { next_waiter = suc w },
      ok (waits w item.value.name),
    )

-- The part of Acquire behind the resumption.
admit_or_enqueue : Text → RuntimeWarehouse → Manager → Manager × Result Error Admission
unfolding enqueue store
admit_or_enqueue key item m =
    if not (is_active item.value.state)
    then (m, err (not_accepting item.value.name item.value.state))
    else if is_empty item.queue && ltb item.value.running (capacity item.value.size)
    then (
      store key
          (
            record item { value = record (item.value) { running = item.value.running + 1 } },
            m.waiters,
          )
          m,
      ok (granted (record { size = item.value.size; name = item.value.name; released = false })),
    )
    else enqueue key item m

after_resume : Text → RuntimeWarehouse → Manager × Option Error → Manager × Result Error Admission
unfolding admit_or_enqueue
after_resume key item (m, some e) = (m, err e)
after_resume key item (m, none) = admit_or_enqueue key item m

acquire_item : Call → Text → RuntimeWarehouse → Manager → Manager × Result Error Admission
unfolding admit_or_enqueue after_resume resume store_and_persist
acquire_item c key item m =
    let item' : RuntimeWarehouse = record item { value = resume c.now item.value } in
    if is_suspended item.value.state
    then (if item.value.auto_resume
        then after_resume key item' (store_and_persist c key (item', m.waiters) m)
        else (m, err (resume_disabled item.value.name)))
    else admit_or_enqueue key item m

abbrev acquire_found :
    Call → Result Error (Text × RuntimeWarehouse) → Manager → Manager × Result Error Admission
acquire_found c (err e) m = (m, err e)
acquire_found c (ok (key, item)) m = acquire_item c key item m

unfoldable pub acquire : Call → Text → Manager → Manager × Result Error Admission
unfolding find acquire_item
acquire c name m = acquire_found c (find name m) m

lease_of : Text → Waiter → Option Error → Result Error Lease
lease_of name w none = ok (record { size = w.size; name = name; released = false })
lease_of name w (some e) = err e

-- `case err := <-w.ready`: `none` while the channel is empty.
receive_from : Text → Waiter → Option (Option Error) → Option (Result Error Lease)
unfolding lease_of
receive_from name w none = none
receive_from name w (some e) = some (lease_of name w e)

unfoldable pub receive : ℕ → Text → Manager → Option (Result Error Lease)
unfolding receive_from
receive w name m = receive_from name (m.waiters w) (m.waiters w).ready

-- append(queue[:i], queue[i+1:]...) at the first i that holds w.
unfoldable pub remove_waiter : ℕ → List ℕ → List ℕ
remove_waiter w [] = []
remove_waiter w (u ∷ q) = let rest = remove_waiter w q in if u == w then q else u ∷ rest

-- releaseLocked, then a persist whose error is only logged.
release_and_log : Call → Text → RuntimeWarehouse → Manager → Manager
unfolding release_locked store_and_persist
release_and_log c key item m = (store_and_persist c key (release_locked c.now item m.waiters) m).0

cancel_item : Call → ℕ → Text → RuntimeWarehouse → Manager → Manager
unfolding store release_and_log contains remove_waiter
cancel_item c w key item m =
    if contains item.queue w
    then store key
        (
          record {
            value = record (item.value) { queued = item.value.queued - 1 };
            queue = remove_waiter w item.queue;
          },
          m.waiters,
        )
        m
    else if (m.waiters w).admitted && ltb 0 item.value.running
    then release_and_log c key item m
    else m

abbrev at_name :
    Option RuntimeWarehouse → (RuntimeWarehouse → Manager → Manager) → Manager → Manager
at_name none body m = m
at_name (some item) body m = body item m

-- `case <-ctx.Done()`: Acquire returns the error of the context. `name` is normalized.
unfoldable pub cancel : Call → ℕ → Text → Manager → Manager
unfolding cancel_item
cancel c w name m = at_name (get m.warehouses name) (cancel_item c w name) m

release_item : Call → Text → RuntimeWarehouse → Manager → Manager
unfolding release_and_log
release_item c key item m = if item.value.running == 0 then m else release_and_log c key item m

unfoldable pub release : Call → Text → Manager → Manager
unfolding release_item
release c name m = at_name (get m.warehouses name) (release_item c name) m

-- Lease.Release: `once` runs the release for the first call only.
unfoldable pub release_lease : Call → Lease → Manager → Lease × Manager
unfolding release
release_lease c l m =
    if l.released then (l, m) else (record l { released = true }, release c l.name m)

abbrev nanoseconds : ℕ → ℕ
nanoseconds seconds = seconds * 1_000_000_000

abbrev idle_since : ℕ → Warehouse → Option ℕ → Bool
idle_since now v none = false
idle_since now v (some last) = leb (last + nanoseconds (to_ℕ v.auto_suspend)) now

unfoldable pub is_idle : ℕ → Warehouse → Bool
is_idle now v =
    is_active v.state
    && (is_pos v.auto_suspend
        && (v.running == 0 && (v.queued == 0 && idle_since now v v.last_activity_at)))

suspend_idle : Call → Text → Option RuntimeWarehouse → Manager → Manager × Option Error
unfolding is_idle suspend store_and_persist
suspend_idle c key none m = (m, none)
suspend_idle c key (some item) m =
    if is_idle c.now item.value
    then store_and_persist c key (record item { value = suspend c.now item.value }, m.waiters) m
    else (m, none)

-- The loop of CheckAutoSuspend: it stops at the first error of `persist`.
check_keys : Call → List Text → Manager → Manager × Option Error
check_keys c [] m = (m, none)
check_keys c (k ∷ ks) m =
    let step = suspend_idle c k (get m.warehouses k) m in
    elim step.1 [ none ↦ check_keys c ks step.0 | some e ↦ (step.0, some e) ]

unfoldable pub check_auto_suspend : Call → Manager → Manager × Option Error
unfolding check_keys suspend_idle
check_auto_suspend c m = check_keys c (keys m.warehouses) m

unfoldable pub restored : WarehouseRecord → Warehouse
unfolding from_record
restored r = record (from_record r) { state = suspended }

-- The loop of NewPersistentManager over the records.
unfoldable pub restore_all : Call → List WarehouseRecord → Manager → Result Error Manager
restore_all c [] m = ok m
restore_all c (r ∷ rs) m =
    let v = restored r in
    let step = persist c v (store v.name (record { value = v; queue = [] }, m.waiters) m) in
    elim step.1 [ none ↦ restore_all c rs step.0 | some e ↦ err e ]

-- `readable` says whether ListWarehouseRecords succeeds.
unfoldable pub new_persistent_manager : Call → Bool → Dict WarehouseRecord → Result Error Manager
unfolding restore_all restored new_manager values
new_persistent_manager c readable table =
    if readable
    then restore_all c (values table) (record new_manager { repo = some table })
    else err records_unreadable
