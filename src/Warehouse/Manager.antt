-- ===== src/Warehouse/Manager.antt =====
-- The operations of Manager (pkg/warehouse/manager.go). Each critical section is one function from
-- the manager before to the manager after; a `*runtimeWarehouse` that is changed in place is put back
-- under the key by which it was found.
pub mod Sound
pub mod Suspension
use snowflake_emulator.Base.{
  ℕ, Text, Option, none, some, Bool, true, false, not, ◌||◌, [], ltb, ◌==◌, nat_eq, text_eq,
  if◌then◌else◌,
}
use snowflake_emulator.Base.Dict.{Dict, get, put, remove}
use snowflake_emulator.Base.Result.{Result, ok, err, ◌>>=◌}
use snowflake_emulator.Base.Int.{pos, is_neg}
use snowflake_emulator.Warehouse.Types.{
  suspended, suspending, is_suspended, is_active, Error, empty_name, negative_auto_suspend,
  already_exists, not_found, in_use, suspended_while_queued, persist_failed, invalid_size,
  cannot_resume, Warehouse, Settings, RuntimeWarehouse, WarehouseRecord, Heap, Manager, Call,
}
use snowflake_emulator.Warehouse.Size.{normalize_name, normalize_size, valid_size}
use snowflake_emulator.Warehouse.Admission.{resume, suspend, admit, reject_all}

-- The record that `persist` builds.
unfoldable pub to_record : Warehouse → WarehouseRecord
to_record v = record {
  id = v.id;
  name = v.name;
  state = v.state;
  size = v.size;
  comment = v.comment;
  created_at = v.created_at;
  owner = v.owner;
  auto_resume = v.auto_resume;
  auto_suspend = v.auto_suspend;
  last_resumed_at = v.last_resumed_at;
  last_suspended_at = v.last_suspended_at;
  last_activity_at = v.last_activity_at;
}

unfoldable pub from_record : WarehouseRecord → Warehouse
from_record r = record {
  id = r.id;
  name = r.name;
  state = r.state;
  size = r.size;
  comment = r.comment;
  owner = r.owner;
  created_at = r.created_at;
  auto_resume = r.auto_resume;
  auto_suspend = r.auto_suspend;
  running = 0;
  queued = 0;
  last_resumed_at = r.last_resumed_at;
  last_suspended_at = r.last_suspended_at;
  last_activity_at = r.last_activity_at;
}

-- INSERT ... ON CONFLICT (name) DO UPDATE: an old row keeps its id and its creation time.
unfoldable pub merge_row : Option WarehouseRecord → WarehouseRecord → WarehouseRecord
merge_row none new = new
merge_row (some old) new = record new { id = old.id; created_at = old.created_at }

unfoldable pub upsert_warehouse : Dict WarehouseRecord → WarehouseRecord → Dict WarehouseRecord
unfolding merge_row
upsert_warehouse table r = put table r.name (merge_row (get table r.name) r)

persist_in : Call → Warehouse → Manager → Option (Dict WarehouseRecord) → Manager × Option Error
unfolding upsert_warehouse to_record
persist_in c v m none = (m, none)
persist_in c v m (some table) =
    if c.exec_ok v.name
    then (record m { repo = some (upsert_warehouse table (to_record v)) }, none)
    else (m, some (persist_failed v.name))

unfoldable pub persist : Call → Warehouse → Manager → Manager × Option Error
unfolding persist_in
persist c v m = persist_in c v m m.repo

unfoldable pub find_in : Text → Option RuntimeWarehouse → Result Error (Text × RuntimeWarehouse)
find_in key none = err (not_found key)
find_in key (some item) = ok (key, item)

-- `lookup`: the item, with the key under which it stands.
unfoldable pub find : Text → Manager → Result Error (Text × RuntimeWarehouse)
unfolding find_in
find name m = let key = normalize_name name in find_in key (get m.warehouses key)

-- The write through the pointer `item`, and what it did to the waiters.
unfoldable pub store : Text → RuntimeWarehouse × Heap → Manager → Manager
store key (item, h) m = record m { warehouses = put m.warehouses key item; waiters = h }

-- The changed item, then `return m.persist(ctx, &item.value)`.
unfoldable pub store_and_persist :
    Call → Text → RuntimeWarehouse × Heap → Manager → Manager × Option Error
unfolding store persist
store_and_persist c key (item, h) m = persist c item.value (store key (item, h) m)

add_created : Text → Warehouse → Manager × Option Error → Manager × Result Error Warehouse
unfolding store
add_created key v (m, some e) = (m, err e)
add_created key v (m, none) = (store key (record { value = v; queue = [] }, m.waiters) m, ok v)

created_warehouse : Call → Text → Text → Settings → Warehouse
created_warehouse c name comment s = record {
  id = c.uuid;
  name = name;
  state = suspended;
  size = s.size;
  comment = comment;
  owner = [];
  created_at = c.now;
  auto_resume = s.auto_resume;
  auto_suspend = s.auto_suspend;
  running = 0;
  queued = 0;
  last_resumed_at = none;
  last_suspended_at = none;
  last_activity_at = none;
}

abbrev is_present : Option RuntimeWarehouse → Bool
is_present none = false
is_present (some item) = true

abbrev normalize_settings : Settings → Settings
normalize_settings s = record s { size = normalize_size s.size }

create_normalized : Call → Text → Text → Settings → Manager → Manager × Result Error Warehouse
unfolding created_warehouse add_created persist
create_normalized c name comment s m =
    if name == []
    then (m, err empty_name)
    else if is_present (get m.warehouses name)
    then (m, err (already_exists name))
    else if not (valid_size s.size)
    then (m, err (invalid_size s.size))
    else if is_neg s.auto_suspend
    then (m, err negative_auto_suspend)
    else add_created name (created_warehouse c name comment s)
        (persist c (created_warehouse c name comment s) m)

unfoldable pub create_warehouse_with_settings :
    Call → Text → Text → Settings → Manager → Manager × Result Error Warehouse
unfolding create_normalized
create_warehouse_with_settings c name comment s m =
    create_normalized c (normalize_name name) comment (normalize_settings s) m

unfoldable pub create_warehouse :
    Call → Text → Text → Text → Manager → Manager × Result Error Warehouse
unfolding create_warehouse_with_settings
create_warehouse c name size comment m =
    create_warehouse_with_settings c name comment
      (record { size = size; auto_resume = true; auto_suspend = pos 600 }) m

unfoldable pub get_warehouse : Text → Manager → Result Error Warehouse
unfolding find
get_warehouse name m = find name m >>= λ found. ok found.1.value

resume_item : Call → Text → RuntimeWarehouse → Manager → Manager × Option Error
unfolding resume store_and_persist
resume_item c key item m =
    if is_active item.value.state
    then (m, none)
    else if not (is_suspended item.value.state)
    then (m, some (cannot_resume item.value.name item.value.state))
    else store_and_persist c key (record item { value = resume c.now item.value }, m.waiters) m

-- What an operation does after `lookup` has found the item or failed.
abbrev on_found :
    Result Error (Text × RuntimeWarehouse)
    → (Text → RuntimeWarehouse → Manager → Manager × Option Error)
    → Manager
    → Manager × Option Error
on_found (err e) body m = (m, some e)
on_found (ok (key, item)) body m = body key item m

unfoldable pub resume_warehouse : Call → Text → Manager → Manager × Option Error
unfolding find resume_item
resume_warehouse c name m = on_found (find name m) (resume_item c) m

suspended_item : ℕ → Warehouse → RuntimeWarehouse
unfolding suspend
suspended_item now v =
    let v' = record v { state = suspending; queued = 0 } in
    record { value = (if v.running == 0 then suspend now v' else v'); queue = [] }

suspend_item : Call → Text → RuntimeWarehouse → Manager → Manager × Option Error
unfolding suspended_item reject_all store_and_persist
suspend_item c key item m =
    if is_suspended item.value.state
    then (m, none)
    else store_and_persist c key
        (
          suspended_item c.now item.value,
          reject_all (suspended_while_queued item.value.name) item.queue m.waiters,
        )
        m

unfoldable pub suspend_warehouse : Call → Text → Manager → Manager × Option Error
unfolding find suspend_item
suspend_warehouse c name m = on_found (find name m) (suspend_item c) m

abbrev configure : Settings → RuntimeWarehouse → RuntimeWarehouse
configure s item = record item {
  value = record (item.value) {
    size = s.size;
    auto_resume = s.auto_resume;
    auto_suspend = s.auto_suspend;
  };
}

alter_item : Call → Settings → Text → RuntimeWarehouse → Manager → Manager × Option Error
unfolding admit store_and_persist
alter_item c s key item m =
    if not (valid_size s.size)
    then (m, some (invalid_size s.size))
    else if is_neg s.auto_suspend
    then (m, some negative_auto_suspend)
    else store_and_persist c key (admit (configure s item) m.waiters) m

unfoldable pub alter_warehouse : Call → Text → Settings → Manager → Manager × Option Error
unfolding find alter_item
alter_warehouse c name s m = on_found (find name m) (alter_item c (normalize_settings s)) m

abbrev has_row : Option WarehouseRecord → Bool
has_row none = false
has_row (some r) = true

-- DeleteWarehouseRecord: no row affected is an error. The privilege rows are another table.
delete_record : Call → Text → Manager → Option (Dict WarehouseRecord) → Manager × Option Error
delete_record c name m none = (m, none)
delete_record c name m (some table) =
    if not (c.exec_ok name)
    then (m, some (persist_failed name))
    else if has_row (get table name)
    then (record m { repo = some (remove table name) }, none)
    else (m, some (not_found name))

drop_deleted : Text → Manager × Option Error → Manager × Option Error
drop_deleted name (m, some e) = (m, some e)
drop_deleted name (m, none) = (record m { warehouses = remove m.warehouses name }, none)

drop_item : Call → Text → RuntimeWarehouse → Manager → Manager × Option Error
unfolding delete_record drop_deleted
drop_item c key item m =
    if ltb 0 item.value.running || ltb 0 item.value.queued
    then (m, some (in_use item.value.name))
    else drop_deleted item.value.name (delete_record c item.value.name m m.repo)

unfoldable pub drop_warehouse : Call → Text → Manager → Manager × Option Error
unfolding find drop_item
drop_warehouse c name m = on_found (find name m) (drop_item c) m
