-- ===== src/Identity/Authorize/Inherited.antt =====
-- Authorization against the relation of inherited roles.
use snowflake_emulator.Base.{
  ◌≡◌, ◌⊎◌, ◌↔◌, sym, inl, inr, refl, subst, Text, text_eq, text_beq_iff, equal_fold, Bool, true,
  false, ◌&&◌, List, [], ◌∷◌, ◌==◌, contains, arith, if◌then◌else◌,
}
use snowflake_emulator.Base.Members.{Has, any, any-Has, Has-any, Has-sort_by, sort_by-Has}
use snowflake_emulator.Base.Sort.{sort_by}
use snowflake_emulator.Base.Result.{Result, ok, err}
use snowflake_emulator.Identity.Types.{
  Error, privilege_denied, RoleRecord, RoleGrantRecord, WarehousePrivilegeRecord,
  ObjectPrivilegeRecord, Catalog, Call, role_account_admin,
}
use snowflake_emulator.Identity.Search.{visit_all}
use snowflake_emulator.Identity.Search.Reach.{Inherits}
use snowflake_emulator.Identity.Search.Exact.{visit_all_iff}
use snowflake_emulator.Identity.Repository.{list_role_grant_records}
use snowflake_emulator.Identity.Repository.Privileges.{
  list_warehouse_privilege_records, list_object_privilege_records, warehouse_privilege_leb,
  object_privilege_leb,
}
use snowflake_emulator.Identity.Service.{role_by_id}
use snowflake_emulator.Identity.Authorize.{authorize_warehouse, authorize_object}

and_left : (a b : Bool) → (a && b) ≡ true → (a ≡ true) × (b ≡ true)
and_left a b h = ground arith

-- A row of a privilege table whose role is inherited, and which passes a test.
abbrev pub Permits :
    {R : Type 0} → List RoleGrantRecord → Text → (R → Text) → (R → Bool) → List R → Type 0
Permits {R} grants active role_of matches rows =
    (g : R) × Has g rows × Inherits grants active (role_of g) × (matches g ≡ true)

-- Some row of an inherited role passes the test exactly when the loop over the rows finds one.
any-iff-Permits :
    {R : Type 0} (grants : List RoleGrantRecord) (active : Text) (role_of : R → Text)
    (matches : R → Bool) (le : R → R → Bool) (rows : List R)
    → (any
          (λ g. contains (visit_all grants (active ∷ []) []) (role_of g) && matches g)
          (sort_by le rows)
        ≡ true)
      ↔ Permits grants active role_of matches rows
any-iff-Permits grants active role_of matches le rows = (
  λ h.
      let (g, m, e) = any-Has _ (sort_by le rows) h in
      let (there, passes) = and_left _ (matches g) e in
      let (s, start, i) = (visit_all_iff grants (active ∷ []) (role_of g)).0 there in
      (g, sort_by-Has le g rows m, from_start s start (role_of g) i, passes),
  λ (g, m, i, passes).
      Has-any _ g (sort_by le rows) (Has-sort_by le g rows m) (
        rw ((visit_all_iff grants (active ∷ []) (role_of g)).1 (active, inl refl, i), passes) refl),
)
  where
    from_start :
        (s : Text)
        → Has s (active ∷ [])
        → (x : Text) → Inherits grants s x
        → Inherits grants active x
    from_start s (inl same) x i = subst (λ z. Inherits grants z x) (sym same) i
    from_start s (inr none) x i = absurd none

abbrev decided : Bool → Bool → Result Error (Unit {0})
decided admin found = if admin then ok tt else if found then ok tt else err privilege_denied

decided_iff :
    {P Q : Type 0} (admin found : Bool)
    → ((admin ≡ true) ↔ P)
    → ((found ≡ true) ↔ Q)
    → (decided admin found ≡ ok tt) ↔ (P ⊎ Q)
decided_iff true found p q = (λ h. inl (p.0 refl), λ h. refl)
decided_iff false true p q = (λ h. inr (q.0 refl), λ h. refl)
decided_iff false false p q = (λ h. cc, λ h. elim h [ inl x ↦ cc (p.1 x) | inr y ↦ cc (q.1 y) ])

-- AuthorizeWarehouse, for an active role that exists and a database that answers, succeeds exactly
-- when the role is ACCOUNTADMIN or some role that it inherits through role grants has the privilege
-- on the warehouse, in any case of the letters.
pub authorize_warehouse_iff :
    (c : Call) (role : RoleRecord) (active warehouse privilege : Text) (t : Catalog)
    → role_by_id (c.up 0) active t ≡ ok role
    → c.up 1 ≡ true
    → c.up 2 ≡ true
    → (authorize_warehouse c active warehouse privilege t ≡ ok tt) ↔ (
        (role.name ≡ role_account_admin)
        ⊎ Permits t.role_grants active
            (λ (g : WarehousePrivilegeRecord). g.role_id)
            (λ (g : WarehousePrivilegeRecord).
              equal_fold g.warehouse_name warehouse && equal_fold g.privilege privilege)
            t.warehouse_privileges)
unfolding authorize_warehouse list_role_grant_records list_warehouse_privilege_records
authorize_warehouse_iff c role active warehouse privilege t known up1 up2 =
    rw (known, up1, up2)
      (decided_iff (role.name == role_account_admin) _ (text_beq_iff role.name role_account_admin) (
        any-iff-Permits t.role_grants active (λ (g : WarehousePrivilegeRecord). g.role_id)
          (λ (g : WarehousePrivilegeRecord).
            equal_fold g.warehouse_name warehouse && equal_fold g.privilege privilege)
          warehouse_privilege_leb t.warehouse_privileges))

-- AuthorizeObject succeeds under the same conditions exactly when the role is ACCOUNTADMIN or some
-- role that it inherits has the privilege on the object of that type and name.
pub authorize_object_iff :
    (c : Call) (role : RoleRecord) (active object_type object_name privilege : Text) (t : Catalog)
    → role_by_id (c.up 0) active t ≡ ok role
    → c.up 1 ≡ true
    → c.up 2 ≡ true
    → (authorize_object c active object_type object_name privilege t ≡ ok tt) ↔ (
        (role.name ≡ role_account_admin)
        ⊎ Permits t.role_grants active
            (λ (g : ObjectPrivilegeRecord). g.role_id)
            (λ (g : ObjectPrivilegeRecord).
              equal_fold g.object_type object_type
              && (equal_fold g.object_name object_name && equal_fold g.privilege privilege))
            t.object_privileges)
unfolding authorize_object list_role_grant_records list_object_privilege_records
authorize_object_iff c role active object_type object_name privilege t known up1 up2 =
    rw (known, up1, up2)
      (decided_iff (role.name == role_account_admin) _ (text_beq_iff role.name role_account_admin) (
        any-iff-Permits t.role_grants active (λ (g : ObjectPrivilegeRecord). g.role_id)
          (λ (g : ObjectPrivilegeRecord).
            equal_fold g.object_type object_type
            && (equal_fold g.object_name object_name && equal_fold g.privilege privilege))
          object_privilege_leb t.object_privileges))
