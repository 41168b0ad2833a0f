-- ===== src/Identity/Tests.antt =====
-- The theorems about identities at concrete inputs.
use snowflake_emulator.Base.{
  inr, subst, inl, ◌≡◌, ◌⊎◌, ◌↔◌, refl, text_beq, Text, str, Bool, true, false, ◌&&◌, ◌==◌, text_eq,
  Option, some, List, [], ◌∷◌, map, contains, equal_fold,
}
use snowflake_emulator.Base.Members.{Has, any}
use snowflake_emulator.Base.Result.{Result, ok, err}
use snowflake_emulator.Identity.Types.{
  Error, identity_cycle, UserRecord, RoleRecord, WarehousePrivilegeRecord, ObjectPrivilegeRecord,
  Catalog, Call, role_account_admin, role_public,
}
use snowflake_emulator.Identity.Search.{visit_all}
use snowflake_emulator.Identity.Search.Reach.{Inherits}
use snowflake_emulator.Identity.Search.Exact.{visit_all_iff}
use snowflake_emulator.Identity.Repository.{
  normalize_identity_name, get_user_record_by_name, grant_role_to_role_record,
}
use snowflake_emulator.Identity.Service.{
  bootstrap, role_by_id, authenticate, set_password, normalize_name,
}
use snowflake_emulator.Identity.Roles.{effective_roles, resolve_active_role}
use snowflake_emulator.Identity.Roles.Effective.{IsEffective, effective_roles_iff}
use snowflake_emulator.Identity.Roles.Active.{HaveNormalNames, resolve_active_role_sound}
use snowflake_emulator.Identity.Login.{principal, authenticate-set_password}
use snowflake_emulator.Identity.Authorize.{authorize_warehouse, authorize_object}
use snowflake_emulator.Identity.Authorize.Inherited.{
  Permits, authorize_warehouse_iff, authorize_object_iff,
}
use snowflake_emulator.Identity.Hierarchy.Refusal.{grant_role_to_role_record-cycle}
use snowflake_emulator.Identity.Integrity.{IsSound}
use snowflake_emulator.Identity.Integrity.Users.{Keeps}
use snowflake_emulator.Identity.Integrity.Calls.{
  Change, creates_user, creates_role, grants_to_role, deletes_role, apply_all,
}
use snowflake_emulator.Identity.Integrity.History.{apply_all-IsSound}
use snowflake_emulator.Identity.Integrity.Start.{bootstrap-IsSound}

abbrev role : Text → Text → Bool → RoleRecord
role id name system = record {
  id = id;
  name = name;
  comment = [];
  is_system = system;
  created_at = 0;
}

abbrev reader : RoleRecord
reader = role (str "r2") (str "READER") false

abbrev ann : UserRecord
ann = record {
  id = str "u1";
  name = str "ANN";
  password_hash = str "old";
  default_role_id = str "r1";
  disabled = false;
  must_change_password = false;
  comment = [];
  created_at = 0;
}

abbrev blank : Catalog
blank = record {
  roles = [];
  users = [];
  user_grants = [];
  role_grants = [];
  warehouse_privileges = [];
  object_privileges = [];
  warehouses = [];
}

-- ANN is an ANALYST, and an ANALYST is a READER.
abbrev office : Catalog
office = record {
  roles =
      role (str "r0") role_account_admin true
      ∷ role (str "r1") (str "ANALYST") false
      ∷ reader
      ∷ role (str "r3") role_public true
      ∷ [];
  users = ann ∷ [];
  user_grants = record { user_id = str "u1"; role_id = str "r1" } ∷ [];
  role_grants = record { child_role_id = str "r2"; parent_role_id = str "r1"; created_at = 1 } ∷ [];
  warehouse_privileges =
      record {
        role_id = str "r2";
        warehouse_name = str "WH";
        privilege = str "USAGE";
        created_at = 1;
      }
      ∷ [];
  object_privileges =
      record {
        role_id = str "r2";
        object_type = str "TABLE";
        object_name = str "DB.S.T";
        privilege = str "SELECT";
        created_at = 1;
      }
      ∷ [];
  warehouses = str "WH" ∷ [];
}

-- A hash that shows its password.
abbrev plain : Text → Option Text
plain password = some (35 ∷ password)

abbrev matches : Text → Text → Bool
matches hash password = hash == 35 ∷ password

abbrev with_id : Text → Call
with_id id = record { now = 5; uuid = id; hash = plain; up = λ i. true }

blank-IsSound : IsSound blank
blank-IsSound = record {
  acyclic = λ x y (g, m, _, _) _. m;
  ends = λ g m. absurd m;
  granted = λ g m. absurd m;
  defaults = λ u m. absurd m;
  unique_users = λ u v m. absurd m;
  unique_roles = λ r q m. absurd m;
}

abbrev changes : List (Call × Change)
changes =
    (with_id (str "r1"), creates_role (str "analyst") [])
    ∷ (with_id (str "r2"), creates_role (str "reader") [])
    ∷ (with_id (str "u1"), creates_user (str "ann") (str "pw") (str "analyst") false [])
    ∷ (with_id (str "x"), grants_to_role (str "reader") (str "analyst"))
    ∷ (with_id (str "x"), grants_to_role (str "analyst") (str "reader"))
    ∷ (with_id (str "x"), deletes_role (str "reader"))
    ∷ []

-- The cycle and the deletion are refused.
changes_left :
    (apply_all changes blank).role_grants
    ≡ record { child_role_id = str "r2"; parent_role_id = str "r1"; created_at = 5 } ∷ []
unfolding apply_all text_beq
changes_left = refl

apply_all-IsSound_example : IsSound (apply_all changes blank)
apply_all-IsSound_example = apply_all-IsSound changes blank blank-IsSound

abbrev role_names : Result Error Catalog → List Text
role_names (ok t) = map (λ (r : RoleRecord). r.name) t.roles
role_names (err e) = []

bootstrap_roles :
    role_names (bootstrap (λ name. name) (with_id (str "u")) blank)
    ≡ str "ACCOUNTADMIN"
      ∷ str "SECURITYADMIN"
      ∷ str "USERADMIN"
      ∷ str "SYSADMIN"
      ∷ str "PUBLIC"
      ∷ []
unfolding bootstrap text_beq
bootstrap_roles = refl

bootstrap-IsSound_example : Keeps (bootstrap (λ name. name) (with_id (str "u")) blank)
bootstrap-IsSound_example =
    bootstrap-IsSound (λ name. name) (with_id (str "u")) blank blank-IsSound refl

visit_all_iff_example :
    (contains (visit_all office.role_grants (str "r1" ∷ []) []) (str "r2") ≡ true)
    ↔ ((s : Text) × Has s (str "r1" ∷ []) × Inherits office.role_grants s (str "r2"))
visit_all_iff_example = visit_all_iff office.role_grants (str "r1" ∷ []) (str "r2")

effective_roles_iff_example :
    (rs : List RoleRecord) × (effective_roles (λ i. true) (str "ann") office ≡ ok rs)
    × (Has reader rs ↔ (Has reader office.roles × IsEffective office (str "u1") (str "r2")))
unfolding get_user_record_by_name text_beq
effective_roles_iff_example =
    effective_roles_iff (λ i. true) (str "ann") ann reader office refl refl refl refl

authorize_warehouse_iff_example :
    (authorize_warehouse (with_id []) (str "r1") (str "wh") (str "usage") office ≡ ok tt) ↔ (
      (str "ANALYST" ≡ role_account_admin)
      ⊎ Permits office.role_grants
          (str "r1")
          (λ (g : WarehousePrivilegeRecord). g.role_id)
          (λ (g : WarehousePrivilegeRecord).
            equal_fold g.warehouse_name (str "wh") && equal_fold g.privilege (str "usage"))
          office.warehouse_privileges)
unfolding role_by_id text_beq
authorize_warehouse_iff_example =
    authorize_warehouse_iff (with_id []) (role (str "r1") (str "ANALYST") false) (str "r1")
      (str "wh") (str "usage") office refl refl refl

authorize_object_iff_example :
    (authorize_object (with_id []) (str "r1") (str "table") (str "db.s.t") (str "select") office
      ≡ ok tt)
    ↔ ((str "ANALYST" ≡ role_account_admin)
        ⊎ Permits office.role_grants
            (str "r1")
            (λ (g : ObjectPrivilegeRecord). g.role_id)
            (λ (g : ObjectPrivilegeRecord).
              equal_fold g.object_type (str "table")
              && (equal_fold g.object_name (str "db.s.t") && equal_fold g.privilege (str "select")))
            office.object_privileges)
unfolding role_by_id text_beq
authorize_object_iff_example =
    authorize_object_iff (with_id []) (role (str "r1") (str "ANALYST") false) (str "r1")
      (str "table") (str "db.s.t") (str "select") office refl refl refl

authenticate-set_password_example :
    (t' : Catalog) × (set_password (with_id []) (str "ann") (str "new") office ≡ ok t')
    × (authenticate matches (with_id []) (str "ann") (str "new") t'
        ≡ ok (principal ann (role (str "r1") (str "ANALYST") false)))
unfolding get_user_record_by_name role_by_id text_beq
authenticate-set_password_example =
    authenticate-set_password matches (with_id []) (with_id []) (str "ann") (str "new")
      (35 ∷ str "new") ann (role (str "r1") (str "ANALYST") false) office refl refl refl refl refl
      refl refl refl

normal_names : HaveNormalNames (apply_all changes blank).users
unfolding apply_all normalize_identity_name text_beq
normal_names u (inl e) = subst (λ (v : UserRecord). normalize_identity_name v.name ≡ v.name) e refl
normal_names u (inr nowhere) = absurd nowhere

abbrev created_reader : RoleRecord
created_reader = record reader { created_at = 5 }

resolve_active_role_sound_example :
    let t = apply_all changes blank in
    (user : UserRecord) × Has user t.users
    × (user.id ≡ str "u1")
    × (user.disabled ≡ false)
    × Has created_reader t.roles
    × IsEffective t user.id created_reader.id
    × ((normalize_name (str "reader") ≡ []) ⊎ (created_reader.name ≡ normalize_name (str "reader")))
unfolding apply_all resolve_active_role text_beq
resolve_active_role_sound_example =
    resolve_active_role_sound (with_id []) (str "u1") (str "reader") created_reader
      (apply_all changes blank) (apply_all-IsSound changes blank blank-IsSound) normal_names refl

grant_role_to_role_record-cycle_example :
    (grant_role_to_role_record true 2 (str "r1") (str "r2") office ≡ err identity_cycle)
    ↔ Inherits office.role_grants (str "r1") (str "r2")
unfolding text_beq any
grant_role_to_role_record-cycle_example =
    grant_role_to_role_record-cycle 2 (str "r1") (str "r2") office refl refl
