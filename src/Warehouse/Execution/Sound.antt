-- ===== src/Warehouse/Execution/Sound.antt =====
-- Acquire, cancellation, release and automatic suspension, and the invariant.
use snowflake_emulator.Base.{
  Option-cases, ◌∙◌, ℕ, ◌+◌, ◌-◌, ◌<◌, ◌≡◌, ◌⊎◌, inl, inr, refl, Text, Option, none, some, true,
  false, List, [], ◌∷◌, ◌++◌, ◌==◌, nat_eq, ◌&&◌, ltb, length, length-append, arith, Bool-cases,
  if_intro, contains,
}
use snowflake_emulator.Base.Dict.{get}
use snowflake_emulator.Base.Result.{ok, err}
use snowflake_emulator.Warehouse.Types.{
  not_found, is_active, is_suspended, Error, RuntimeWarehouse, Manager, Call, Lease,
}
use snowflake_emulator.Warehouse.Size.{capacity, normalize_name}
use snowflake_emulator.Warehouse.Admission.{suspend}
use snowflake_emulator.Warehouse.Invariant.{
  release_locked-name, IsSoundAt, Inv, release_locked-IsSound, store-Inv, store_and_persist-Inv,
}
use snowflake_emulator.Warehouse.Manager.{find, find_in}
use snowflake_emulator.Warehouse.Manager.Sound.{KeepsInv, resume-IsSoundAt}
use snowflake_emulator.Warehouse.Execution.{
  is_empty, enqueue, admit_or_enqueue, after_resume, acquire_item, acquire, remove_waiter,
  release_and_log, cancel_item, at_name, cancel, release_item, release, release_lease, is_idle,
  suspend_idle, check_keys, check_auto_suspend,
}

pub length_of_not_empty : (q : List ℕ) → is_empty q ≡ false → 0 < length q
length_of_not_empty [] e = cc
length_of_not_empty (w ∷ q) e = omega arith

pub length_of_empty : (q : List ℕ) → is_empty q ≡ true → length q ≡ 0
length_of_empty [] e = refl
length_of_empty (w ∷ q) e = cc

granted-IsSoundAt :
    (key : Text) (item : RuntimeWarehouse)
    → IsSoundAt key item
    → is_active item.value.state ≡ true
    → (is_empty item.queue && ltb item.value.running (capacity item.value.size)) ≡ true
    → IsSoundAt key
        (record item { value = record (item.value) { running = item.value.running + 1 } })
granted-IsSoundAt key item s on free = record {
  sound = ground (arith, length_of_empty item.queue, s.sound.busy);
  named = s.named;
}

enqueued-IsSoundAt :
    (key : Text) (w : ℕ) (item : RuntimeWarehouse)
    → IsSoundAt key item
    → is_active item.value.state ≡ true
    → (is_empty item.queue && ltb item.value.running (capacity item.value.size)) ≡ false
    → IsSoundAt key (record {
      value = record (item.value) { queued = item.value.queued + 1 };
      queue = item.queue ++ w ∷ [];
    })
enqueued-IsSoundAt key w item s on full = record {
  sound = record {
    counted = omega (arith, s.sound.counted, length-append item.queue (w ∷ []));
    settled = s.sound.settled;
    stopped = s.sound.stopped;
    draining = s.sound.draining;
    busy = ground (arith, length_of_not_empty item.queue, s.sound.busy);
  };
  named = s.named;
}

-- A statement takes a slot, or waits because an earlier one waits or no slot is free.
admit_or_enqueue-Inv :
    (key : Text) (item : RuntimeWarehouse) (m : Manager)
    → Inv m
    → IsSoundAt key item
    → Inv (admit_or_enqueue key item m).0
unfolding admit_or_enqueue enqueue
admit_or_enqueue-Inv key item m v s = elim (Bool-cases (is_active item.value.state)) [
  | inr other ↦ rw other v
  | inl on ↦ rw on (
      if_intro KeepsInv (is_empty item.queue && ltb item.value.running (capacity item.value.size))
        (λ free. store-Inv key _ _ m v (granted-IsSoundAt key item s on free))
        (λ full. record {
          at =
              (store-Inv key _ m.waiters m v
                (enqueued-IsSoundAt key m.next_waiter item s on full)).at;
        }))
]

after_resume-Inv :
    (key : Text) (item : RuntimeWarehouse) (r : Manager × Option Error)
    → Inv r.0
    → IsSoundAt key item
    → Inv (after_resume key item r).0
unfolding after_resume
after_resume-Inv key item (m, some e) v s = v
after_resume-Inv key item (m, none) v s = admit_or_enqueue-Inv key item m v s

acquire_item-Inv :
    (c : Call) (key : Text) (item : RuntimeWarehouse) (m : Manager)
    → Inv m
    → IsSoundAt key item
    → Inv (acquire_item c key item m).0
unfolding acquire_item
acquire_item-Inv c key item m v s =
    if_intro KeepsInv (is_suspended item.value.state)
      (λ stopped.
        if_intro KeepsInv item.value.auto_resume
          (λ _.
            let r = resume-IsSoundAt c.now key item s stopped in
            after_resume-Inv key _ _ (store_and_persist-Inv c key _ _ m v r) r)
          (λ _. v))
      (λ _. admit_or_enqueue-Inv key item m v s)

pub find_cases :
    (name : Text) (m : Manager)
    → Inv m
    → ((e : Error) × (find name m ≡ err e))
      ⊎ ((key : Text) × (item : RuntimeWarehouse) × (find name m ≡ ok (key, item))
          × IsSoundAt key item)
unfolding find
find_cases name m v = go (get m.warehouses key) (v.at key)
  where
    key : Text
    key = normalize_name name

    go :
        (o : Option RuntimeWarehouse)
        → ((item : RuntimeWarehouse) → o ≡ some item → IsSoundAt key item)
        → ((e : Error) × (find_in key o ≡ err e))
          ⊎ ((k : Text) × (item : RuntimeWarehouse) × (find_in key o ≡ ok (k, item))
              × IsSoundAt k item)
    go none all = inl (not_found key, refl)
    go (some item) all = inr (key, item, refl, all item refl)

pub acquire-Inv : (c : Call) (name : Text) (m : Manager) → Inv m → Inv (acquire c name m).0
unfolding acquire
acquire-Inv c name m v = elim (find_cases name m v) [
  | inl (e, q) ↦ rw q v
  | inr (key, item, q, s) ↦ rw q (acquire_item-Inv c key item m v s)
]

-- Removing a waiter that is in the queue makes it shorter by one.
length-remove_waiter :
    (w : ℕ) (q : List ℕ) → contains q w ≡ true → length (remove_waiter w q) + 1 ≡ length q
unfolding remove_waiter contains
length-remove_waiter w [] h = cc
length-remove_waiter w (u ∷ q) h = ground (arith, length-remove_waiter w q)

release_and_log-Inv :
    (c : Call) (key : Text) (item : RuntimeWarehouse) (m : Manager)
    → Inv m
    → IsSoundAt key item
    → 0 < item.value.running
    → Inv (release_and_log c key item m)
unfolding release_and_log
release_and_log-Inv c key item m v s held = store_and_persist-Inv c key _ _ m v (record {
  sound = release_locked-IsSound c.now item m.waiters s.sound held;
  named = release_locked-name c.now item m.waiters ∙ s.named;
})

removed-IsSoundAt :
    (key : Text) (w : ℕ) (item : RuntimeWarehouse)
    → IsSoundAt key item
    → contains item.queue w ≡ true
    → IsSoundAt key (record {
      value = record (item.value) { queued = item.value.queued - 1 };
      queue = remove_waiter w item.queue;
    })
removed-IsSoundAt key w item s waits = record {
  sound = ground (arith, length-remove_waiter w item.queue waits, s.sound.busy);
  named = s.named;
}

cancel_item-Inv :
    (c : Call) (w : ℕ) (key : Text) (item : RuntimeWarehouse) (m : Manager)
    → Inv m
    → IsSoundAt key item
    → Inv (cancel_item c w key item m)
unfolding cancel_item
cancel_item-Inv c w key item m v s =
    if_intro Inv (contains item.queue w)
      (λ waits. store-Inv key _ _ m v (removed-IsSoundAt key w item s waits))
      (λ _.
        if_intro Inv ((m.waiters w).admitted && ltb 0 item.value.running)
          (λ held. release_and_log-Inv c key item m v s (ground arith)) (λ _. v))

at_name-Inv :
    (name : Text) (body : RuntimeWarehouse → Manager → Manager) (m : Manager)
    → Inv m
    → ((item : RuntimeWarehouse) → IsSoundAt name item → Inv (body item m))
    → Inv (at_name (get m.warehouses name) body m)
at_name-Inv name body m v keeps = go (get m.warehouses name) (v.at name)
  where
    go :
        (o : Option RuntimeWarehouse)
        → ((item : RuntimeWarehouse) → o ≡ some item → IsSoundAt name item)
        → Inv (at_name o body m)
    go none all = v
    go (some item) all = keeps item (all item refl)

pub cancel-Inv : (c : Call) (w : ℕ) (name : Text) (m : Manager) → Inv m → Inv (cancel c w name m)
unfolding cancel
cancel-Inv c w name m v =
    at_name-Inv name (cancel_item c w name) m v λ item s. cancel_item-Inv c w name item m v s

release_item-Inv :
    (c : Call) (key : Text) (item : RuntimeWarehouse) (m : Manager)
    → Inv m
    → IsSoundAt key item
    → Inv (release_item c key item m)
unfolding release_item
release_item-Inv c key item m v s =
    if_intro Inv (item.value.running == 0) (λ _. v)
      (λ held. release_and_log-Inv c key item m v s (ground arith))

pub release-Inv : (c : Call) (name : Text) (m : Manager) → Inv m → Inv (release c name m)
unfolding release
release-Inv c name m v =
    at_name-Inv name (release_item c name) m v λ item s. release_item-Inv c name item m v s

pub release_lease-Inv : (c : Call) (l : Lease) (m : Manager) → Inv m → Inv (release_lease c l m).1
unfolding release_lease
release_lease-Inv c l m v =
    if_intro (λ (r : Lease × Manager). Inv r.1) l.released (λ _. v) (λ _. release-Inv c l.name m v)

idle-IsSoundAt :
    (now : ℕ) (key : Text) (item : RuntimeWarehouse)
    → IsSoundAt key item
    → is_idle now item.value ≡ true
    → IsSoundAt key (record item { value = suspend now item.value })
unfolding is_idle suspend
idle-IsSoundAt now key item s idle = record {
  sound = ground (arith, s.sound.busy);
  named = s.named;
}

suspend_idle-Inv :
    (c : Call) (key : Text) (o : Option RuntimeWarehouse) (m : Manager)
    → Inv m
    → ((item : RuntimeWarehouse) → o ≡ some item → IsSoundAt key item)
    → Inv (suspend_idle c key o m).0
unfolding suspend_idle
suspend_idle-Inv c key none m v all = v
suspend_idle-Inv c key (some item) m v all =
    if_intro KeepsInv (is_idle c.now item.value)
      (λ idle.
        store_and_persist-Inv c key _ _ m v (idle-IsSoundAt c.now key item (all item refl) idle))
      (λ _. v)

check_keys-Inv : (c : Call) (ks : List Text) (m : Manager) → Inv m → Inv (check_keys c ks m).0
unfolding check_keys
check_keys-Inv c [] m v = v
check_keys-Inv c (k ∷ ks) m v =
    let first = suspend_idle-Inv c k (get m.warehouses k) m v (v.at k) in
    elim (Option-cases (suspend_idle c k (get m.warehouses k) m).1) [
      | inl fine ↦ rw (fine, check_keys) (check_keys-Inv c ks _ first)
      | inr (e, failed) ↦ rw (failed, check_keys) first
    ]

pub check_auto_suspend-Inv : (c : Call) (m : Manager) → Inv m → Inv (check_auto_suspend c m).0
unfolding check_auto_suspend
check_auto_suspend-Inv c m v = check_keys-Inv c _ m v
