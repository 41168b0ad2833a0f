-- ===== src/Identity/Repository.antt =====
-- Users, roles and role grants in the catalog (pkg/metadata/identity_repository.go). `up` says
-- whether the database executes the call; a transaction that fails leaves the tables as they are.
pub mod Privileges
pub mod Bootstrap
use snowflake_emulator.Base.{
  ℕ, Text, text_eq, text_leb, trim_space, to_upper, Option, none, some, Bool, true, false, not,
  ◌&&◌, ◌||◌, List, [], ◌∷◌, ◌++◌, map, ◌==◌, if◌then◌else◌, keep, contains,
}
use snowflake_emulator.Base.Members.{any, find_first}
use snowflake_emulator.Base.Result.{Result, ok, err}
use snowflake_emulator.Base.Sort.{sort_by}
use snowflake_emulator.Identity.Types.{
  Error, identity_not_found, identity_in_use, identity_cycle, database_failed, missing_fields,
  empty_role_name, UserRecord, RoleRecord, RoleGrantRecord, UserGrant, WarehousePrivilegeRecord,
  ObjectPrivilegeRecord, Catalog,
}
use snowflake_emulator.Identity.Search.{visit_all}

unfoldable pub normalize_identity_name : Text → Text
unfolding trim_space to_upper
normalize_identity_name name = to_upper (trim_space name)

abbrev pub or_error {ℓ} : {A : Type ℓ} → Error → Option A → Result Error A
or_error e none = err e
or_error e (some a) = ok a

-- A query, or a transaction.
abbrev pub when_up {ℓ} : {A : Type ℓ} → Bool → Result Error A → Result Error A
when_up up r = if up then r else err database_failed

-- identityExists
abbrev pub has_role : Text → Catalog → Bool
has_role id t = any (λ (r : RoleRecord). r.id == id) t.roles

abbrev pub has_user : Text → Catalog → Bool
has_user id t = any (λ (u : UserRecord). u.id == id) t.users

unfoldable pub get_role_record_by_name : Bool → Text → Catalog → Result Error RoleRecord
unfolding find_first normalize_identity_name
get_role_record_by_name up name t = when_up up (
    or_error identity_not_found
      (find_first (λ (r : RoleRecord). r.name == normalize_identity_name name) t.roles))

-- The insertion of a row whose id and name must be new, and then the row.
unfoldable pub create_role_record :
    Bool → Bool → ℕ → Text → Text → Text → Bool → Catalog → Catalog × Result Error RoleRecord
unfolding get_role_record_by_name any
create_role_record up up_again now id name comment system t =
    let row : RoleRecord = record {
      id = id;
      name = normalize_identity_name name;
      comment = comment;
      is_system = system;
      created_at = now;
    } in
    let t' : Catalog = record t { roles = t.roles ++ row ∷ [] } in
    if row.name == []
    then (t, err empty_role_name)
    else if not up || any (λ (r : RoleRecord). r.id == row.id || r.name == row.name) t.roles
    then (t, err database_failed)
    else (t', get_role_record_by_name up_again row.name t')

unfoldable pub list_role_records : Bool → Catalog → Result Error (List RoleRecord)
unfolding sort_by text_leb
list_role_records up t =
    when_up up (ok (sort_by (λ (a : RoleRecord) (b : RoleRecord). text_leb a.name b.name) t.roles))

abbrev pub or_new : Text → Text → Text
or_new id fresh = if id == [] then fresh else id

-- INSERT INTO _metadata_users, which sets no password change and takes the next instant.
unfoldable pub insert_user : ℕ → UserRecord → Catalog → Result Error Catalog
unfolding any
insert_user now u t =
    if any (λ (r : UserRecord). r.id == u.id || r.name == u.name) t.users
    then err database_failed
    else ok (record t { users = t.users ++ record u { created_at = now } ∷ [] })

-- INSERT INTO _metadata_user_role_grants, which refuses a pair that is there.
unfoldable pub insert_user_grant : Text → Text → Catalog → Result Error Catalog
unfolding any
insert_user_grant user_id role_id t =
    if any (λ (g : UserGrant). g.user_id == user_id && g.role_id == role_id) t.user_grants
    then err database_failed
    else ok (record t {
      user_grants = t.user_grants ++ record { user_id = user_id; role_id = role_id } ∷ [];
    })

abbrev pub then_insert_grant : Text → Text → Result Error Catalog → Result Error Catalog
then_insert_grant user_id role_id (ok t) = insert_user_grant user_id role_id t
then_insert_grant user_id role_id (err e) = err e

unfoldable pub create_user_with_role_record :
    Bool → ℕ → Text → UserRecord → Catalog → Result Error Catalog
unfolding insert_user insert_user_grant any normalize_identity_name
create_user_with_role_record up now fresh user t =
    let u : UserRecord = record user {
      name = normalize_identity_name user.name;
      id = or_new user.id fresh;
    } in
    if u.name == [] || (u.password_hash == [] || u.default_role_id == [])
    then err missing_fields
    else when_up up (
        if has_role u.default_role_id t
        then then_insert_grant u.id u.default_role_id (insert_user now u t)
        else err identity_not_found)

unfoldable pub get_user_record_by_name : Bool → Text → Catalog → Result Error UserRecord
unfolding find_first normalize_identity_name
get_user_record_by_name up name t = when_up up (
    or_error identity_not_found
      (find_first (λ (u : UserRecord). u.name == normalize_identity_name name) t.users))

-- The row that a committed insertion left.
read_created : Bool → Text → Catalog → Result Error Catalog → Catalog × Result Error UserRecord
unfolding get_user_record_by_name
read_created up name t (err e) = (t, err e)
read_created up name t (ok t') = (t', get_user_record_by_name up name t')

-- Without a default role the column is NULL, and no grant is made.
unfoldable pub create_user_record :
    Bool → Bool → ℕ → Text → UserRecord → Catalog → Catalog × Result Error UserRecord
unfolding insert_user any normalize_identity_name read_created
create_user_record up up_again now fresh user t =
    let u : UserRecord = record user {
      name = normalize_identity_name user.name;
      id = or_new user.id fresh;
    } in
    if u.name == [] || u.password_hash == []
    then (t, err missing_fields)
    else read_created up_again u.name t (
        when_up up (
          if not (u.default_role_id == []) && not (has_role u.default_role_id t)
          then err identity_not_found
          else insert_user now u t))

unfoldable pub list_user_records : Bool → Catalog → Result Error (List UserRecord)
unfolding sort_by text_leb
list_user_records up t =
    when_up up (ok (sort_by (λ (a : UserRecord) (b : UserRecord). text_leb a.name b.name) t.users))

-- UPDATE _metadata_users SET ... WHERE id = ?
abbrev pub update_user : UserRecord → UserRecord → UserRecord
update_user new u =
    if u.id == new.id
    then record u {
      password_hash = new.password_hash;
      default_role_id = new.default_role_id;
      disabled = new.disabled;
      must_change_password = new.must_change_password;
      comment = new.comment;
    }
    else u

-- No row affected is an error.
abbrev update_users : UserRecord → Catalog → Result Error Catalog
update_users new t =
    if has_user new.id t
    then ok (record t { users = map (update_user new) t.users })
    else err identity_not_found

unfoldable pub update_user_record : Bool → UserRecord → Catalog → Result Error Catalog
unfolding any
update_user_record up user t = when_up up (
    if not (user.default_role_id == []) && not (has_role user.default_role_id t)
    then err identity_not_found
    else update_users user t)

-- INSERT ... ON CONFLICT DO NOTHING
unfoldable pub add_user_grant : Text → Text → List UserGrant → List UserGrant
unfolding any
add_user_grant user_id role_id gs =
    if any (λ (g : UserGrant). g.user_id == user_id && g.role_id == role_id) gs
    then gs
    else gs ++ record { user_id = user_id; role_id = role_id } ∷ []

unfoldable pub update_user_configuration_record : Bool → UserRecord → Catalog → Result Error Catalog
unfolding any add_user_grant
update_user_configuration_record up user t = when_up up (
    if has_role user.default_role_id t
    then update_users user
        (record t { user_grants = add_user_grant user.id user.default_role_id t.user_grants })
    else err identity_not_found)

abbrev pub with_default : Text → Text → UserRecord → UserRecord
with_default user_id role_id u =
    if u.id == user_id then record u { default_role_id = role_id } else u

unfoldable pub set_default_user_role_record : Bool → Text → Text → Catalog → Result Error Catalog
unfolding any add_user_grant
set_default_user_role_record up user_id role_id t = when_up up (
    if not (has_role role_id t)
    then err identity_not_found
    else if has_user user_id t
    then ok (record t {
      user_grants = add_user_grant user_id role_id t.user_grants;
      users = map (with_default user_id role_id) t.users;
    })
    else err identity_not_found)

unfoldable pub delete_user_record : Bool → Text → Catalog → Result Error Catalog
unfolding any keep
delete_user_record up id t = when_up up (
    if has_user id t
    then ok (record t {
      user_grants = keep (λ (g : UserGrant). not (g.user_id == id)) t.user_grants;
      users = keep (λ (u : UserRecord). not (u.id == id)) t.users;
    })
    else err identity_not_found)

unfoldable pub grant_role_to_user_record : Bool → Text → Text → Catalog → Result Error Catalog
unfolding any add_user_grant
grant_role_to_user_record up user_id role_id t = when_up up (
    if has_user user_id t && has_role role_id t
    then ok (record t { user_grants = add_user_grant user_id role_id t.user_grants })
    else err identity_not_found)

unfoldable pub revoke_from : Text → Catalog → Option UserRecord → Result Error Catalog
unfolding keep
revoke_from role_id t none = err identity_not_found
revoke_from role_id t (some u) =
    if u.default_role_id == role_id
    then err identity_in_use
    else ok (record t {
      user_grants =
          keep (λ (g : UserGrant). not (g.user_id == u.id && g.role_id == role_id)) t.user_grants;
    })

unfoldable pub revoke_role_from_user_record : Bool → Text → Text → Catalog → Result Error Catalog
unfolding find_first revoke_from
revoke_role_from_user_record up user_id role_id t =
    when_up up (revoke_from role_id t (find_first (λ (u : UserRecord). u.id == user_id) t.users))

unfoldable pub list_direct_user_role_ids : Bool → Text → Catalog → Result Error (List Text)
unfolding keep sort_by text_leb
list_direct_user_role_ids up user_id t = when_up up (
    ok (
      sort_by text_leb (
        map (λ (g : UserGrant). g.role_id)
          (keep (λ (g : UserGrant). g.user_id == user_id) t.user_grants))))

abbrev pub flip : RoleGrantRecord → RoleGrantRecord
flip g = record g { child_role_id = g.parent_role_id; parent_role_id = g.child_role_id }

abbrev pub parents : List RoleGrantRecord → Text → List Text
parents gs id =
    map (λ (g : RoleGrantRecord). g.parent_role_id)
      (keep (λ (g : RoleGrantRecord). g.child_role_id == id) gs)

-- WITH RECURSIVE ancestors: the parents of the role, and then theirs, each once.
unfoldable pub ancestors : List RoleGrantRecord → Text → List Text
unfolding keep visit_all
ancestors gs id = visit_all (map flip gs) (parents gs id) []

unfoldable pub add_role_grant : ℕ → Text → Text → List RoleGrantRecord → List RoleGrantRecord
unfolding any
add_role_grant now child parent gs =
    if any (λ (g : RoleGrantRecord). g.child_role_id == child && g.parent_role_id == parent) gs
    then gs
    else gs ++ record { child_role_id = child; parent_role_id = parent; created_at = now } ∷ []

unfoldable pub grant_role_to_role_record : Bool → ℕ → Text → Text → Catalog → Result Error Catalog
unfolding any ancestors add_role_grant contains
grant_role_to_role_record up now child parent t = when_up up (
    if child == parent
    then err identity_cycle
    else if not (has_role child t && has_role parent t)
    then err identity_not_found
    else if contains (ancestors t.role_grants parent) child
    then err identity_cycle
    else ok (record t { role_grants = add_role_grant now child parent t.role_grants }))

unfoldable pub revoke_role_from_role_record : Bool → Text → Text → Catalog → Result Error Catalog
unfolding keep
revoke_role_from_role_record up child parent t = when_up up (
    ok (record t {
      role_grants =
          keep
            (λ (g : RoleGrantRecord). not (g.child_role_id == child && g.parent_role_id == parent))
            t.role_grants;
    }))

unfoldable pub list_role_grant_records : Bool → Catalog → Result Error (List RoleGrantRecord)
list_role_grant_records up t = when_up up (ok t.role_grants)

-- Whether a user or a grant refers to the role.
unfoldable pub is_referenced : Text → Catalog → Bool
unfolding any
is_referenced id t =
    any (λ (u : UserRecord). u.default_role_id == id) t.users
    || (any (λ (g : UserGrant). g.role_id == id) t.user_grants
        || any (λ (g : RoleGrantRecord). g.child_role_id == id || g.parent_role_id == id)
            t.role_grants)

unfoldable pub delete_role_record : Bool → Text → Catalog → Result Error Catalog
unfolding any keep is_referenced
delete_role_record up id t = when_up up (
    if is_referenced id t
    then err identity_in_use
    else if has_role id t
    then ok (record t {
      warehouse_privileges =
          keep (λ (p : WarehousePrivilegeRecord). not (p.role_id == id)) t.warehouse_privileges;
      object_privileges =
          keep (λ (p : ObjectPrivilegeRecord). not (p.role_id == id)) t.object_privileges;
      roles = keep (λ (r : RoleRecord). not (r.id == id)) t.roles;
    })
    else err identity_not_found)
