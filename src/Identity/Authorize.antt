-- ===== src/Identity/Authorize.antt =====
-- Privileges of roles, and authorization (pkg/identity/service.go).
pub mod Inherited
use snowflake_emulator.Base.{
  Text, str, text_eq, trim_space, to_upper, equal_fold, Bool, true, false, not, ◌&&◌, ◌||◌, List,
  [], ◌∷◌, ◌==◌, if◌then◌else◌, keep, contains,
}
use snowflake_emulator.Base.Members.{any}
use snowflake_emulator.Base.Result.{Result, ok, err, ◌>>=◌}
use snowflake_emulator.Identity.Types.{
  Error, privilege_denied, unsupported_privilege, invalid_object_privilege, RoleRecord, Catalog,
  WarehousePrivilegeRecord, ObjectPrivilegeRecord, Call, role_account_admin,
}
use snowflake_emulator.Identity.Search.{visit_all}
use snowflake_emulator.Identity.Repository
use snowflake_emulator.Identity.Repository.Privileges
use snowflake_emulator.Identity.Service.{role_by_id}

unfoldable pub warehouse_grants_to_role :
    Call → Text → Catalog → Result Error (List WarehousePrivilegeRecord)
unfolding Repository.get_role_record_by_name Privileges.list_warehouse_privilege_records keep
warehouse_grants_to_role c role_name t = do
  role ← Repository.get_role_record_by_name (c.up 0) role_name t
  grants ← Privileges.list_warehouse_privilege_records (c.up 1) t
  ok (keep (λ (g : WarehousePrivilegeRecord). g.role_id == role.id) grants)

unfoldable pub grant_warehouse_privilege :
    Call → Text → Text → Text → Catalog → Result Error Catalog
unfolding Repository.get_role_record_by_name Privileges.grant_warehouse_privilege_record to_upper
grant_warehouse_privilege c privilege warehouse role_name t =
    if not (to_upper privilege == str "USAGE") && not (to_upper privilege == str "OPERATE")
    then err unsupported_privilege
    else Repository.get_role_record_by_name (c.up 0) role_name t >>= λ role.
        Privileges.grant_warehouse_privilege_record (c.up 1) c.now role.id warehouse
          (to_upper privilege) t

unfoldable pub revoke_warehouse_privilege :
    Call → Text → Text → Text → Catalog → Result Error Catalog
unfolding Repository.get_role_record_by_name Privileges.revoke_warehouse_privilege_record to_upper
revoke_warehouse_privilege c privilege warehouse role_name t = do
  role ← Repository.get_role_record_by_name (c.up 0) role_name t
  Privileges.revoke_warehouse_privilege_record (c.up 1) role.id warehouse (to_upper privilege) t

abbrev pub allows_warehouse : List Text → Text → Text → WarehousePrivilegeRecord → Bool
allows_warehouse effective warehouse privilege g =
    contains effective g.role_id
    && (equal_fold g.warehouse_name warehouse && equal_fold g.privilege privilege)

-- `ok tt` is a nil error.
unfoldable pub authorize_warehouse : Call → Text → Text → Text → Catalog → Result Error (Unit {0})
unfolding role_by_id Repository.list_role_grant_records visit_all contains equal_fold any
    Privileges.list_warehouse_privilege_records
authorize_warehouse c active_role_id warehouse privilege t =
    role_by_id (c.up 0) active_role_id t >>= λ active.
    if active.name == role_account_admin
    then ok tt
    else Repository.list_role_grant_records (c.up 1) t >>= λ grants.
        Privileges.list_warehouse_privilege_records (c.up 2) t >>= λ privileges.
        if any (allows_warehouse (visit_all grants (active_role_id ∷ []) []) warehouse privilege)
          privileges
        then ok tt
        else err privilege_denied

unfoldable pub validate_object_privilege : Text → Text → Result Error (Unit {0})
unfolding trim_space to_upper
validate_object_privilege privilege object_type =
    let p = to_upper (trim_space privilege) in
    let o = to_upper (trim_space object_type) in
    if (p == str "USAGE" && (o == str "DATABASE" || o == str "SCHEMA"))
      || ((p == str "CREATE TABLE" && o == str "SCHEMA")
          || ((p == str "SELECT" || (p == str "INSERT" || (p == str "UPDATE" || p == str "DELETE")))
              && o == str "TABLE"))
    then ok tt
    else err invalid_object_privilege

unfoldable pub grant_object_privilege :
    Call → Text → Text → Text → Text → Catalog → Result Error Catalog
unfolding validate_object_privilege Repository.get_role_record_by_name
    Privileges.grant_object_privilege_record
grant_object_privilege c privilege object_type object_name role_name t =
    validate_object_privilege privilege object_type >>= λ valid.
    Repository.get_role_record_by_name (c.up 0) role_name t >>= λ role.
    Privileges.grant_object_privilege_record (c.up 1) c.now role.id object_type object_name
      privilege t

unfoldable pub revoke_object_privilege :
    Call → Text → Text → Text → Text → Catalog → Result Error Catalog
unfolding validate_object_privilege Repository.get_role_record_by_name
    Privileges.revoke_object_privilege_record
revoke_object_privilege c privilege object_type object_name role_name t =
    validate_object_privilege privilege object_type >>= λ valid.
    Repository.get_role_record_by_name (c.up 0) role_name t >>= λ role.
    Privileges.revoke_object_privilege_record (c.up 1) role.id object_type object_name privilege t

unfoldable pub object_grants_to_role :
    Call → Text → Catalog → Result Error (List ObjectPrivilegeRecord)
unfolding Repository.get_role_record_by_name Privileges.list_object_privilege_records keep
object_grants_to_role c role_name t = do
  role ← Repository.get_role_record_by_name (c.up 0) role_name t
  grants ← Privileges.list_object_privilege_records (c.up 1) t
  ok (keep (λ (g : ObjectPrivilegeRecord). g.role_id == role.id) grants)

abbrev pub allows_object : List Text → Text → Text → Text → ObjectPrivilegeRecord → Bool
allows_object effective object_type object_name privilege g =
    contains effective g.role_id
    && (equal_fold g.object_type object_type
        && (equal_fold g.object_name object_name && equal_fold g.privilege privilege))

unfoldable pub authorize_object :
    Call → Text → Text → Text → Text → Catalog → Result Error (Unit {0})
unfolding role_by_id Repository.list_role_grant_records visit_all contains equal_fold any
    Privileges.list_object_privilege_records
authorize_object c active_role_id object_type object_name privilege t =
    role_by_id (c.up 0) active_role_id t >>= λ active.
    if active.name == role_account_admin
    then ok tt
    else Repository.list_role_grant_records (c.up 1) t >>= λ grants.
        Privileges.list_object_privilege_records (c.up 2) t >>= λ privileges.
        if any
          (allows_object (visit_all grants (active_role_id ∷ []) []) object_type object_name
            privilege)
          privileges
        then ok tt
        else err privilege_denied
