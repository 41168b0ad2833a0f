-- ===== src/Warehouse/Execution/Loading.antt =====
-- What NewPersistentManager makes of the records of the database.
use snowflake_emulator.Base.{
  subst, ◌≡◌, refl, inl, inr, List, [], ◌∷◌, Bool, Option-cases, arith, some, Bool-cases,
}
use snowflake_emulator.Base.Dict.{Dict, values, ForAll-empty}
use snowflake_emulator.Base.Result.{ok}
use snowflake_emulator.Warehouse.Types.{WarehouseRecord, Manager, Call, new_manager}
use snowflake_emulator.Warehouse.Manager.{from_record, persist, store}
use snowflake_emulator.Warehouse.Execution.{restored, restore_all, new_persistent_manager}
use snowflake_emulator.Warehouse.Invariant.{Inv, IsSoundAt, store-Inv, persist-Inv}

restored-IsSoundAt :
    (r : WarehouseRecord) → IsSoundAt (restored r).name (record { value = restored r; queue = [] })
unfolding restored from_record
restored-IsSoundAt r = record {
  sound = record {
    counted = refl;
    settled = λ e. cc;
    stopped = λ e. refl;
    draining = λ e. cc;
    busy = λ w. absurd (omega (arith, w));
  };
  named = refl;
}

restore_all-Inv :
    (c : Call) (rs : List WarehouseRecord) (m loaded : Manager)
    → Inv m
    → restore_all c rs m ≡ ok loaded
    → Inv loaded
unfolding restore_all
restore_all-Inv c [] m loaded v e = subst Inv (cc) v
restore_all-Inv c (r ∷ rs) m loaded v e =
    let w = restored r in
    let stored = store w.name (record { value = w; queue = [] }, m.waiters) m in
    let kept = persist-Inv c w stored (store-Inv w.name _ m.waiters m v (restored-IsSoundAt r)) in
    elim (Option-cases (persist c w stored).1) [
      | inl done ↦
          restore_all-Inv c rs (persist c w stored).0 loaded kept (rw (restore_all, done) at e)
      | inr (problem, failed) ↦ absurd (cc (rw (restore_all, failed) at e))
    ]

pub new_persistent_manager-Inv :
    (c : Call) (readable : Bool) (table : Dict WarehouseRecord) (m : Manager)
    → new_persistent_manager c readable table ≡ ok m
    → Inv m
unfolding new_persistent_manager new_manager
new_persistent_manager-Inv c readable table m e = elim (Bool-cases readable) [
  | inl opened ↦
      restore_all-Inv c (values table) (record new_manager { repo = some table }) m
        (record { at = ForAll-empty IsSoundAt }) (rw opened at e)
  | inr unread ↦ absurd (cc (rw unread at e))
]
