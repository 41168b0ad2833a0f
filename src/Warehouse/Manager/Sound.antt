-- ===== src/Warehouse/Manager/Sound.antt =====
-- The operations that administer warehouses, and the invariant.
use snowflake_emulator.Base.{
  text_eq, if_intro, ℕ, ◌≡◌, inl, inr, refl, Text, Option, none, some, true, [], not, ◌==◌, nat_eq,
  ltb, ◌||◌, arith, Bool-cases,
}
use snowflake_emulator.Base.Dict.{get, ForAll-remove}
use snowflake_emulator.Base.Int.{is_neg}
use snowflake_emulator.Warehouse.Types.{
  is_active, is_suspended, Error, Warehouse, Settings, RuntimeWarehouse, Heap, Manager, Call,
}
use snowflake_emulator.Warehouse.Size.{valid_size}
use snowflake_emulator.Warehouse.Admission.{resume, admit}
use snowflake_emulator.Warehouse.Invariant.{
  IsSoundAt, Inv, admit-IsSound, store-Inv, admit-name, persist-Inv, store_and_persist-Inv,
}
use snowflake_emulator.Warehouse.Manager.{
  persist, is_present, find, create_normalized, add_created, created_warehouse, normalize_settings,
  create_warehouse_with_settings, on_found, resume_item, resume_warehouse, suspended_item,
  suspend_item, suspend_warehouse, configure, alter_item, alter_warehouse, delete_record,
  drop_deleted, drop_item, drop_warehouse, find_in,
}
use snowflake_emulator.Warehouse.Size.{normalize_name}

abbrev pub KeepsInv {ℓ} : {A : Type ℓ} → Manager × A → Type 0
KeepsInv r = Inv r.0

on_found-Inv :
    (name : Text) (m : Manager) (body : Text → RuntimeWarehouse → Manager → Manager × Option Error)
    → Inv m
    → ((key : Text) (item : RuntimeWarehouse) → IsSoundAt key item → Inv (body key item m).0)
    → Inv (on_found (find name m) body m).0
unfolding find
on_found-Inv name m body v keeps =
    go (get m.warehouses (normalize_name name)) (v.at (normalize_name name))
  where
    go :
        (o : Option RuntimeWarehouse)
        → ((item : RuntimeWarehouse) → o ≡ some item → IsSoundAt (normalize_name name) item)
        → Inv (on_found (find_in (normalize_name name) o) body m).0
    go none all = v
    go (some item) all = keeps (normalize_name name) item (all item refl)

-- A new warehouse is suspended, with nothing to run.
created-IsSoundAt :
    (c : Call) (name comment : Text) (s : Settings)
    → IsSoundAt name (record { value = created_warehouse c name comment s; queue = [] })
unfolding created_warehouse
created-IsSoundAt c name comment s = record { sound = ground arith; named = refl }

add_created-Inv :
    (key : Text) (w : Warehouse) (r : Manager × Option Error)
    → Inv r.0
    → IsSoundAt key (record { value = w; queue = [] })
    → Inv (add_created key w r).0
unfolding add_created
add_created-Inv key w (m, some e) v s = v
add_created-Inv key w (m, none) v s = store-Inv key _ _ m v s

create_normalized-Inv :
    (c : Call) (name comment : Text) (s : Settings) (m : Manager)
    → Inv m
    → Inv (create_normalized c name comment s m).0
unfolding create_normalized
create_normalized-Inv c name comment s m v =
    if_intro KeepsInv (name == []) (λ _. v)
      λ _.
        if_intro KeepsInv (is_present (get m.warehouses name)) (λ _. v)
          λ _.
            if_intro KeepsInv (not (valid_size s.size)) (λ _. v)
              λ _.
                if_intro KeepsInv (is_neg s.auto_suspend) (λ _. v)
                  λ _.
                    add_created-Inv name (created_warehouse c name comment s)
                      (persist c (created_warehouse c name comment s) m)
                      (persist-Inv c (created_warehouse c name comment s) m v)
                      (created-IsSoundAt c name comment s)

pub resume-IsSoundAt :
    (now : ℕ) (key : Text) (item : RuntimeWarehouse)
    → IsSoundAt key item
    → is_suspended item.value.state ≡ true
    → IsSoundAt key (record item { value = resume now item.value })
unfolding resume
resume-IsSoundAt now key item s e = record { sound = ground (arith, s.sound.busy); named = s.named }

resume_item-Inv :
    (c : Call) (key : Text) (item : RuntimeWarehouse) (m : Manager)
    → Inv m
    → IsSoundAt key item
    → Inv (resume_item c key item m).0
unfolding resume_item
resume_item-Inv c key item m v s =
    if_intro KeepsInv (is_active item.value.state) (λ _. v)
      λ _. elim (Bool-cases (is_suspended item.value.state)) [
        | inl stopped ↦
            rw stopped
              (store_and_persist-Inv c key _ _ m v (resume-IsSoundAt c.now key item s stopped))
        | inr other ↦ rw other v
      ]

suspended_item-IsSoundAt :
    (now : ℕ) (key : Text) (item : RuntimeWarehouse)
    → IsSoundAt key item
    → IsSoundAt key (suspended_item now item.value)
unfolding suspended_item
suspended_item-IsSoundAt now key item s = record {
  sound = ground (arith, s.sound.draining);
  named = ground (arith, s.named);
}

admit_configured-IsSoundAt :
    (s : Settings) (key : Text) (item : RuntimeWarehouse) (h : Heap)
    → IsSoundAt key item
    → IsSoundAt key (admit (configure s item) h).0
admit_configured-IsSoundAt s key item h i = record {
  sound = admit-IsSound (configure s item) h (record {
    counted = i.sound.counted;
    settled = i.sound.settled;
    stopped = i.sound.stopped;
    draining = i.sound.draining;
    waits_active = λ w. (i.sound.busy w).0;
  });
  named = rw (admit-name (configure s item) h) i.named;
}

suspend_item-Inv :
    (c : Call) (key : Text) (item : RuntimeWarehouse) (m : Manager)
    → Inv m
    → IsSoundAt key item
    → Inv (suspend_item c key item m).0
unfolding suspend_item
suspend_item-Inv c key item m v s =
    if_intro KeepsInv (is_suspended item.value.state) (λ _. v)
      λ _. store_and_persist-Inv c key _ _ m v (suspended_item-IsSoundAt c.now key item s)

alter_item-Inv :
    (c : Call) (s : Settings) (key : Text) (item : RuntimeWarehouse) (m : Manager)
    → Inv m
    → IsSoundAt key item
    → Inv (alter_item c s key item m).0
unfolding alter_item
alter_item-Inv c s key item m v i =
    if_intro KeepsInv (not (valid_size s.size)) (λ _. v)
      λ _.
        if_intro KeepsInv (is_neg s.auto_suspend) (λ _. v)
          λ _.
            store_and_persist-Inv c key _ _ m v (admit_configured-IsSoundAt s key item m.waiters i)

delete_record-warehouses :
    (c : Call) (name : Text) (m : Manager)
    → (delete_record c name m m.repo).0.warehouses ≡ m.warehouses
unfolding delete_record
delete_record-warehouses c name m = ground arith

drop_deleted-Inv :
    (name : Text) (r : Manager × Option Error) → Inv r.0 → Inv (drop_deleted name r).0
unfolding drop_deleted
drop_deleted-Inv name (m, some e) v = v
drop_deleted-Inv name (m, none) v = record { at = ForAll-remove IsSoundAt m.warehouses name v.at }

drop_item-Inv :
    (c : Call) (key : Text) (item : RuntimeWarehouse) (m : Manager)
    → Inv m
    → Inv (drop_item c key item m).0
unfolding drop_item
drop_item-Inv c key item m v =
    if_intro KeepsInv (ltb 0 item.value.running || ltb 0 item.value.queued) (λ _. v)
      λ _.
        drop_deleted-Inv item.value.name (delete_record c item.value.name m m.repo)
          (record { at = rw (delete_record-warehouses c item.value.name m) v.at })

pub create_warehouse_with_settings-Inv :
    (c : Call) (name comment : Text) (s : Settings) (m : Manager)
    → Inv m
    → Inv (create_warehouse_with_settings c name comment s m).0
unfolding create_warehouse_with_settings
create_warehouse_with_settings-Inv c name comment s m v = create_normalized-Inv c _ comment _ m v

pub resume_warehouse-Inv :
    (c : Call) (name : Text) (m : Manager) → Inv m → Inv (resume_warehouse c name m).0
unfolding resume_warehouse
resume_warehouse-Inv c name m v =
    on_found-Inv name m (resume_item c) v λ key item s. resume_item-Inv c key item m v s

pub suspend_warehouse-Inv :
    (c : Call) (name : Text) (m : Manager) → Inv m → Inv (suspend_warehouse c name m).0
unfolding suspend_warehouse
suspend_warehouse-Inv c name m v =
    on_found-Inv name m (suspend_item c) v λ key item s. suspend_item-Inv c key item m v s

pub alter_warehouse-Inv :
    (c : Call) (name : Text) (s : Settings) (m : Manager)
    → Inv m
    → Inv (alter_warehouse c name s m).0
unfolding alter_warehouse
alter_warehouse-Inv c name s m v =
    on_found-Inv name m (alter_item c (normalize_settings s)) v
      λ key item i. alter_item-Inv c _ key item m v i

pub drop_warehouse-Inv :
    (c : Call) (name : Text) (m : Manager) → Inv m → Inv (drop_warehouse c name m).0
unfolding drop_warehouse
drop_warehouse-Inv c name m v =
    on_found-Inv name m (drop_item c) v λ key item _. drop_item-Inv c key item m v
