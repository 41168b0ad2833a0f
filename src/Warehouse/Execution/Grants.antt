-- ===== src/Warehouse/Execution/Grants.antt =====
-- How Acquire ends.
use snowflake_emulator.Base.{
  ap, ℕ, ◌+◌, ◌≤◌, ◌<◌, ◌≡◌, inl, inr, refl, ◌∙◌, Text, Option, none, some, true, false, List, [],
  ◌∷◌, ◌++◌, nat_eq, ◌&&◌, ltb, arith, Bool-cases, if_intro,
}
use snowflake_emulator.Base.Dict.{get, get-put_self}
use snowflake_emulator.Base.Result.{Result, ok, err}
use snowflake_emulator.Warehouse.Types.{
  is_active, is_suspended, Error, Warehouse, RuntimeWarehouse, Manager, Call, Lease, Admission,
  granted, waits, new_waiter,
}
use snowflake_emulator.Warehouse.Size.{capacity, normalize_name}
use snowflake_emulator.Warehouse.Admission.{resume}
use snowflake_emulator.Warehouse.Invariant.{IsSoundAt, Inv}
use snowflake_emulator.Warehouse.Manager.{persist, find_in, find, store, store_and_persist}
use snowflake_emulator.Warehouse.Manager.Sound.{resume-IsSoundAt}
use snowflake_emulator.Warehouse.Execution.{
  persist, is_empty, enqueue, admit_or_enqueue, after_resume, acquire_item, acquire_found, acquire,
}
use snowflake_emulator.Warehouse.Execution.Sound.{length_of_not_empty}

-- The statement runs: its warehouse is active, and within its slots with the new statement counted.
pub record IsGranted (key : Text) (m : Manager) (l : Lease) (item : RuntimeWarehouse) : Type 0 where
  pub found : get m.warehouses key ≡ some item
  pub on : is_active item.value.state ≡ true
  pub counted : 0 < item.value.running
  pub within : item.value.running ≤ capacity item.value.size
  pub lease : l ≡ record { size = item.value.size; name = key; released = false }

-- The statement waits at the end of the queue, since no slot of its active warehouse is free.
pub record IsWaiting (key : Text) (m : Manager) (w : ℕ) (item : RuntimeWarehouse) (q : List ℕ)
    : Type 0 where
  pub found : get m.warehouses key ≡ some item
  pub on : is_active item.value.state ≡ true
  pub last : item.queue ≡ q ++ w ∷ []
  pub full : capacity item.value.size ≤ item.value.running
  pub unsent : m.waiters w ≡ new_waiter

abbrev pub Outcome : Text → Manager → Manager × Result Error Admission → Type 0
Outcome key m (m', ok (granted l)) =
    ((item : RuntimeWarehouse) × IsGranted key m' l item) × (m'.waiters ≡ m.waiters)
Outcome key m (m', ok (waits w name)) =
    ((item : RuntimeWarehouse) × (q : List ℕ) × IsWaiting key m' w item q)
    × (name ≡ key)
    × (w ≡ m.next_waiter)
Outcome key m (m', err e) = (m'.waiters ≡ m.waiters) × (m'.next_waiter ≡ m.next_waiter)

granted-Outcome :
    (key : Text) (item : RuntimeWarehouse) (m : Manager)
    → IsSoundAt key item
    → is_active item.value.state ≡ true
    → (is_empty item.queue && ltb item.value.running (capacity item.value.size)) ≡ true
    → Outcome key m (
      store key
          (
            record item { value = record (item.value) { running = item.value.running + 1 } },
            m.waiters,
          )
          m,
      ok (granted (record { size = item.value.size; name = item.value.name; released = false })),
    )
unfolding store
granted-Outcome key item m s on free = (
  (
    record item { value = record (item.value) { running = item.value.running + 1 } },
    record {
      found = get-put_self m.warehouses key _;
      on = on;
      counted = omega arith;
      within = ground arith;
      lease = ap (λ n. record { size = item.value.size; name = n; released = false }) s.named;
    },
  ),
  refl,
)

waits-Outcome :
    (key : Text) (item : RuntimeWarehouse) (m : Manager)
    → IsSoundAt key item
    → is_active item.value.state ≡ true
    → (is_empty item.queue && ltb item.value.running (capacity item.value.size)) ≡ false
    → Outcome key m (enqueue key item m)
unfolding enqueue
waits-Outcome key item m s on full = (
  (
    record {
      value = record (item.value) { queued = item.value.queued + 1 };
      queue = item.queue ++ m.next_waiter ∷ [];
    },
    item.queue,
    record {
      found = get-put_self m.warehouses key _;
      on = on;
      last = refl;
      full = ground (arith, length_of_not_empty item.queue, s.sound.busy);
      unsent = ground arith;
    },
  ),
  s.named,
  refl,
)

admit_or_enqueue-Outcome :
    (key : Text) (item : RuntimeWarehouse) (m : Manager)
    → IsSoundAt key item
    → Outcome key m (admit_or_enqueue key item m)
unfolding admit_or_enqueue
admit_or_enqueue-Outcome key item m s = elim (Bool-cases (is_active item.value.state)) [
  | inr other ↦ rw other (refl, refl)
  | inl on ↦ rw on (
      if_intro (Outcome key m)
        (is_empty item.queue && ltb item.value.running (capacity item.value.size))
        (λ free. granted-Outcome key item m s on free) (λ full. waits-Outcome key item m s on full))
]

moved-Outcome :
    (key : Text) (m m1 : Manager) (r : Manager × Result Error Admission)
    → m1.waiters ≡ m.waiters
    → m1.next_waiter ≡ m.next_waiter
    → Outcome key m1 r
    → Outcome key m r
moved-Outcome key m m1 (m', ok (granted l)) ws nw (g, same) = (g, same ∙ ws)
moved-Outcome key m m1 (m', ok (waits w name)) ws nw ((item, q, i), n, last) = (
  (item, q, record { found = i.found; on = i.on; last = i.last; full = i.full; unsent = i.unsent }),
  n,
  last ∙ nw,
)
moved-Outcome key m m1 (m', err e) ws nw (a, b) = (a ∙ ws, b ∙ nw)

after_resume-Outcome :
    (key : Text) (item : RuntimeWarehouse) (m : Manager) (r : Manager × Option Error)
    → r.0.waiters ≡ m.waiters
    → r.0.next_waiter ≡ m.next_waiter
    → IsSoundAt key item
    → Outcome key m (after_resume key item r)
unfolding after_resume
after_resume-Outcome key item m (m1, some e) ws nw s = (ws, nw)
after_resume-Outcome key item m (m1, none) ws nw s =
    moved-Outcome key m m1 _ ws nw (admit_or_enqueue-Outcome key item m1 s)

persist-waiters :
    (c : Call) (v : Warehouse) (m : Manager)
    → ((persist c v m).0.waiters ≡ m.waiters) × ((persist c v m).0.next_waiter ≡ m.next_waiter)
unfolding persist
persist-waiters c v m = ground arith

acquire_item-Outcome :
    (c : Call) (key : Text) (item : RuntimeWarehouse) (m : Manager)
    → IsSoundAt key item
    → Outcome key m (acquire_item c key item m)
unfolding acquire_item store_and_persist store
acquire_item-Outcome c key item m s =
    if_intro (Outcome key m) (is_suspended item.value.state)
      (λ stopped.
        if_intro (Outcome key m) item.value.auto_resume
          (λ _.
            let kept = persist-waiters c (resume c.now item.value) _ in
            after_resume-Outcome key _ m _ kept.0 kept.1
              (resume-IsSoundAt c.now key item s stopped))
          (λ _. (refl, refl)))
      (λ _. admit_or_enqueue-Outcome key item m s)

-- Acquire, in a manager whose warehouses are sound, ends in one of three ways. It grants a lease for
-- the warehouse of that name, which is active and within its slots with the new statement counted,
-- and sends to no waiter. Or the statement is a new waiter at the end of the queue of that warehouse,
-- which is active with all its slots taken. Or it fails, and makes no waiter and sends to none.
pub acquire-Outcome :
    (c : Call) (name : Text) (m : Manager)
    → Inv m
    → Outcome (normalize_name name) m (acquire c name m)
unfolding acquire find
acquire-Outcome c name m v = go (get m.warehouses key) (v.at key)
  where
    key : Text
    key = normalize_name name

    go :
        (o : Option RuntimeWarehouse)
        → ((item : RuntimeWarehouse) → o ≡ some item → IsSoundAt key item)
        → Outcome key m (acquire_found c (find_in key o) m)
    go none all = (refl, refl)
    go (some item) all = acquire_item-Outcome c key item m (all item refl)
