-- ===== src/Identity/Repository/Privileges.antt =====
-- Privileges on warehouses and objects (pkg/metadata/warehouse_privilege_repository.go and
-- object_privilege_repository.go).
use snowflake_emulator.Base.{
  ℕ, Text, text_eq, text_leb, to_upper, Bool, not, ◌&&◌, List, [], ◌∷◌, ◌++◌, ◌==◌, if◌then◌else◌,
  keep, contains,
}
use snowflake_emulator.Base.Members.{any}
use snowflake_emulator.Base.Result.{Result, ok, err}
use snowflake_emulator.Base.Sort.{sort_by}
use snowflake_emulator.Identity.Types.{
  Error, identity_not_found, WarehousePrivilegeRecord, ObjectPrivilegeRecord, Catalog,
}
use snowflake_emulator.Identity.Repository.{when_up, has_role}

abbrev is_warehouse_grant : Text → Text → Text → WarehousePrivilegeRecord → Bool
is_warehouse_grant role warehouse privilege g =
    g.role_id == role && (g.warehouse_name == warehouse && g.privilege == privilege)

unfoldable pub add_warehouse_privilege :
    ℕ → Text → Text → Text → List WarehousePrivilegeRecord → List WarehousePrivilegeRecord
unfolding any
add_warehouse_privilege now role warehouse privilege gs =
    if any (is_warehouse_grant role warehouse privilege) gs
    then gs
    else gs
      ++ record {
        role_id = role;
        warehouse_name = warehouse;
        privilege = privilege;
        created_at = now;
      }
        ∷ []

unfoldable pub grant_warehouse_privilege_record :
    Bool → ℕ → Text → Text → Text → Catalog → Result Error Catalog
unfolding any contains to_upper add_warehouse_privilege
grant_warehouse_privilege_record up now role warehouse privilege t = when_up up (
    if has_role role t && contains t.warehouses (to_upper warehouse)
    then ok (record t {
      warehouse_privileges =
          add_warehouse_privilege now role (to_upper warehouse) (to_upper privilege)
            t.warehouse_privileges;
    })
    else err identity_not_found)

unfoldable pub revoke_warehouse_privilege_record :
    Bool → Text → Text → Text → Catalog → Result Error Catalog
unfolding keep to_upper
revoke_warehouse_privilege_record up role warehouse privilege t = when_up up (
    ok (record t {
      warehouse_privileges =
          keep (λ g. not (is_warehouse_grant role (to_upper warehouse) (to_upper privilege) g))
            t.warehouse_privileges;
    }))

-- ORDER BY warehouse_name, privilege, role_id
abbrev pub warehouse_privilege_leb : WarehousePrivilegeRecord → WarehousePrivilegeRecord → Bool
warehouse_privilege_leb a b =
    if a.warehouse_name == b.warehouse_name
    then (if a.privilege == b.privilege
        then text_leb a.role_id b.role_id
        else text_leb a.privilege b.privilege)
    else text_leb a.warehouse_name b.warehouse_name

unfoldable pub list_warehouse_privilege_records :
    Bool → Catalog → Result Error (List WarehousePrivilegeRecord)
unfolding sort_by text_leb
list_warehouse_privilege_records up t =
    when_up up (ok (sort_by warehouse_privilege_leb t.warehouse_privileges))

abbrev is_object_grant : Text → Text → Text → Text → ObjectPrivilegeRecord → Bool
is_object_grant role type name privilege g =
    g.role_id == role
    && (g.object_type == type && (g.object_name == name && g.privilege == privilege))

unfoldable pub add_object_privilege :
    ℕ → Text → Text → Text → Text → List ObjectPrivilegeRecord → List ObjectPrivilegeRecord
unfolding any
add_object_privilege now role type name privilege gs =
    if any (is_object_grant role type name privilege) gs
    then gs
    else gs
      ++ record {
        role_id = role;
        object_type = type;
        object_name = name;
        privilege = privilege;
        created_at = now;
      }
        ∷ []

unfoldable pub grant_object_privilege_record :
    Bool → ℕ → Text → Text → Text → Text → Catalog → Result Error Catalog
unfolding to_upper add_object_privilege
grant_object_privilege_record up now role type name privilege t = when_up up (
    ok (record t {
      object_privileges =
          add_object_privilege now role (to_upper type) (to_upper name) (to_upper privilege)
            t.object_privileges;
    }))

unfoldable pub revoke_object_privilege_record :
    Bool → Text → Text → Text → Text → Catalog → Result Error Catalog
unfolding keep to_upper
revoke_object_privilege_record up role type name privilege t = when_up up (
    ok (record t {
      object_privileges =
          keep
            (λ g. not (is_object_grant role (to_upper type) (to_upper name) (to_upper privilege) g))
            t.object_privileges;
    }))

-- ORDER BY object_type, object_name, privilege, role_id
abbrev pub object_privilege_leb : ObjectPrivilegeRecord → ObjectPrivilegeRecord → Bool
object_privilege_leb a b =
    if not (a.object_type == b.object_type)
    then text_leb a.object_type b.object_type
    else if not (a.object_name == b.object_name)
    then text_leb a.object_name b.object_name
    else if a.privilege == b.privilege
    then text_leb a.role_id b.role_id
    else text_leb a.privilege b.privilege

unfoldable pub list_object_privilege_records :
    Bool → Catalog → Result Error (List ObjectPrivilegeRecord)
unfolding sort_by text_leb
list_object_privilege_records up t =
    when_up up (ok (sort_by object_privilege_leb t.object_privileges))
