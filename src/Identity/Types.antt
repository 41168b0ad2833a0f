-- ===== src/Identity/Types.antt =====
-- The data of pkg/identity/service.go, pkg/metadata/identity_repository.go,
-- warehouse_privilege_repository.go and object_privilege_repository.go. A table is the list of its
-- rows; a NULL in a text column is the empty text, as COALESCE reads it.
use snowflake_emulator.Base.{ℕ, Text, str, Option, Bool, List}

-- Errors of the database, of constraints among them, are `database_failed`.
pub data Error : Type 0 where
  identity_not_found identity_in_use identity_cycle : Error
  invalid_credentials user_disabled role_in_use system_role role_cycle : Error
  role_not_granted privilege_denied : Error
  database_failed hash_failed missing_fields empty_role_name : Error
  unsupported_privilege invalid_object_privilege : Error

pub record UserRecord : Type 0 where
  pub id : Text
  pub name : Text
  pub password_hash : Text
  pub default_role_id : Text
  pub disabled : Bool
  pub must_change_password : Bool
  pub comment : Text
  pub created_at : ℕ

pub record RoleRecord : Type 0 where
  pub id : Text
  pub name : Text
  pub comment : Text
  pub is_system : Bool
  pub created_at : ℕ

pub record RoleGrantRecord : Type 0 where
  pub child_role_id : Text
  pub parent_role_id : Text
  pub created_at : ℕ

-- A row of _metadata_user_role_grants.
pub record UserGrant : Type 0 where
  pub user_id : Text
  pub role_id : Text

pub record WarehousePrivilegeRecord : Type 0 where
  pub role_id : Text
  pub warehouse_name : Text
  pub privilege : Text
  pub created_at : ℕ

pub record ObjectPrivilegeRecord : Type 0 where
  pub role_id : Text
  pub object_type : Text
  pub object_name : Text
  pub privilege : Text
  pub created_at : ℕ

-- The tables of the repository that identities use; `warehouses` holds the names of the rows of
-- _metadata_warehouses, which another component writes.
pub record Catalog : Type 0 where
  pub roles : List RoleRecord
  pub users : List UserRecord
  pub user_grants : List UserGrant
  pub role_grants : List RoleGrantRecord
  pub warehouse_privileges : List WarehousePrivilegeRecord
  pub object_privileges : List ObjectPrivilegeRecord
  pub warehouses : List Text

pub record Principal : Type 0 where
  pub user_id : Text
  pub username : Text
  pub default_role_id : Text
  pub default_role : Text

pub record User : Type 0 where
  pub id : Text
  pub name : Text
  pub default_role_id : Text
  pub disabled : Bool
  pub must_change_password : Bool
  pub comment : Text

-- `none` leaves a field as it is.
pub record UserChanges : Type 0 where
  pub password : Option Text
  pub default_role : Option Text
  pub disabled : Option Bool
  pub comment : Option Text

pub record RoleAssignment : Type 0 where
  pub role_name : Text
  pub granted_to : Text
  pub grantee : Text

-- What a call takes from outside: the clock, the next UUID, what bcrypt makes of a password with the
-- salt of this call, and whether the database executes the i-th repository call of the operation.
pub record Call : Type 0 where
  pub now : ℕ
  pub uuid : Text
  pub hash : Text → Option Text
  pub up : ℕ → Bool

abbrev pub role_account_admin : Text
role_account_admin = str "ACCOUNTADMIN"

abbrev pub role_security_admin : Text
role_security_admin = str "SECURITYADMIN"

abbrev pub role_user_admin : Text
role_user_admin = str "USERADMIN"

abbrev pub role_sys_admin : Text
role_sys_admin = str "SYSADMIN"

abbrev pub role_public : Text
role_public = str "PUBLIC"

abbrev pub demo_admin_user : Text
demo_admin_user = str "ADMIN"

abbrev pub demo_admin_password : Text
demo_admin_password = str "admin"
