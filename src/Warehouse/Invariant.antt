-- ===== src/Warehouse/Invariant.antt =====
-- What holds of every warehouse whenever the lock of the manager is free.
use Prim.Native.Nat.{min}
use snowflake_emulator.Base.{
  refl, if_intro, ℕ, ◌-◌, ◌≤◌, ◌<◌, ◌≡◌, ◌≢◌, inl, inr, Text, true, ◌==◌, nat_eq, length,
  length-drop, arith, Bool-cases, ◌&&◌, text_eq,
}
use snowflake_emulator.Base.Dict.{ForAll, ForAll-empty, ForAll-put}
use snowflake_emulator.Warehouse.Manager.{persist, store, store_and_persist}
use snowflake_emulator.Warehouse.Types.{
  suspended, resuming, suspending, is_active, is_suspending, Warehouse, RuntimeWarehouse, Heap,
  Manager, Call, new_manager,
}
use snowflake_emulator.Warehouse.Size.{capacity}
use snowflake_emulator.Warehouse.Admission.{admit, release_locked}
use snowflake_emulator.Warehouse.Admission.Batch.{slots, batch, admit-eq-batch}

pub record IsSound (item : RuntimeWarehouse) : Type 0 where
  -- The counter is the length of the queue.
  pub counted : item.value.queued ≡ length item.queue
  pub settled : item.value.state ≢ resuming
  pub stopped : item.value.state ≡ suspended → item.value.running ≡ 0
  pub draining : item.value.state ≡ suspending → 0 < item.value.running
  -- A statement waits only while every slot of an active warehouse is taken.
  pub busy :
      0 < length item.queue
      → (is_active item.value.state ≡ true) × (capacity item.value.size ≤ item.value.running)

-- What `admit` needs: the queue belongs to an active warehouse, which may have free slots.
pub record IsReady (item : RuntimeWarehouse) : Type 0 where
  pub counted : item.value.queued ≡ length item.queue
  pub settled : item.value.state ≢ resuming
  pub stopped : item.value.state ≡ suspended → item.value.running ≡ 0
  pub draining : item.value.state ≡ suspending → 0 < item.value.running
  pub waits_active : 0 < length item.queue → is_active item.value.state ≡ true

batch-IsSound :
    (item : RuntimeWarehouse) (h : Heap)
    → IsReady item
    → IsSound (batch (min (slots item.value) (length item.queue)) item.value item.queue h).0
batch-IsSound item h r =
    let k = min (slots item.value) (length item.queue) in
    record {
      counted = omega (arith, r.counted, length-drop k item.queue);
      settled = r.settled;
      stopped = ground arith;
      draining = ground arith;
      busy = ground (arith, length-drop k item.queue);
    }

pub admit-IsSound : (item : RuntimeWarehouse) (h : Heap) → IsReady item → IsSound (admit item h).0
admit-IsSound item h r = rw (admit-eq-batch item h) (batch-IsSound item h r)

pub admit-name :
    (item : RuntimeWarehouse) (h : Heap) → (admit item h).0.value.name ≡ item.value.name
admit-name item h = rw (admit-eq-batch item h)

-- The state of `release_locked` before it admits, or suspends.
pub release_locked-IsSound :
    (now : ℕ) (item : RuntimeWarehouse) (h : Heap)
    → IsSound item
    → 0 < item.value.running
    → IsSound (release_locked now item h).0
unfolding release_locked
release_locked-IsSound now item h s held =
    elim (Bool-cases (is_suspending item.value.state && item.value.running - 1 == 0)) [
      | inl over ↦ rw over (ground (arith, s.busy))
      | inr more ↦ rw more (
          admit-IsSound _ h (record {
            counted = s.counted;
            settled = s.settled;
            stopped = λ e. omega (arith, s.stopped e);
            draining = ground arith;
            waits_active = λ w. (s.busy w).0;
          }))
    ]

pub release_locked-name :
    (now : ℕ) (item : RuntimeWarehouse) (h : Heap)
    → (release_locked now item h).0.value.name ≡ item.value.name
unfolding release_locked
release_locked-name now item h =
    if_intro (λ (r : RuntimeWarehouse × Heap). r.0.value.name ≡ item.value.name)
      (is_suspending item.value.state && item.value.running - 1 == 0) (λ _. refl)
      (λ _. admit-name _ h)

-- A warehouse under its key.
pub record IsSoundAt (key : Text) (item : RuntimeWarehouse) : Type 0 where
  pub sound : IsSound item
  pub named : item.value.name ≡ key

pub record Inv (m : Manager) : Type 0 where
  pub at : ForAll IsSoundAt m.warehouses

pub new_manager-Inv : Inv new_manager
unfolding new_manager
new_manager-Inv = record { at = ForAll-empty IsSoundAt }

pub store-Inv :
    (key : Text) (item : RuntimeWarehouse) (h : Heap) (m : Manager)
    → Inv m
    → IsSoundAt key item
    → Inv (store key (item, h) m)
unfolding store
store-Inv key item h m v s = record { at = ForAll-put IsSoundAt m.warehouses key item v.at s }

pub persist-warehouses :
    (c : Call) (w : Warehouse) (m : Manager) → (persist c w m).0.warehouses ≡ m.warehouses
unfolding persist
persist-warehouses c w m = ground arith

pub persist-Inv : (c : Call) (w : Warehouse) (m : Manager) → Inv m → Inv (persist c w m).0
persist-Inv c w m v = record { at = rw (persist-warehouses c w m) v.at }

pub store_and_persist-Inv :
    (c : Call) (key : Text) (item : RuntimeWarehouse) (h : Heap) (m : Manager)
    → Inv m
    → IsSoundAt key item
    → Inv (store_and_persist c key (item, h) m).0
unfolding store_and_persist
store_and_persist-Inv c key item h m v s = persist-Inv c item.value _ (store-Inv key item h m v s)
