-- ===== src/Identity/Service.antt =====
-- Users, roles and their grants (pkg/identity/service.go). `c.up i` is the i-th call of the
-- repository in an operation; `bcrypt` is golang.org/x/crypto/bcrypt: `c.hash` generates, `compare`
-- says whether a hash belongs to a password.
use snowflake_emulator.Base.{
  Text, str, text_eq, trim_space, to_upper, Option, none, some, Bool, true, false, not, ◌||◌, List,
  [], ◌∷◌, map, ◌==◌, if◌then◌else◌,
}
use snowflake_emulator.Base.Members.{find_first}
use snowflake_emulator.Base.Result.{Result, ok, err, ◌>>=◌}
use snowflake_emulator.Identity.Types.{
  Error, identity_not_found, identity_in_use, identity_cycle, invalid_credentials, user_disabled,
  role_in_use, system_role, role_cycle, hash_failed, UserRecord, RoleRecord, Catalog, Principal,
  User, UserChanges, Call, role_account_admin, role_security_admin, role_user_admin, role_sys_admin,
  role_public, demo_admin_user, demo_admin_password,
}
use snowflake_emulator.Identity.Repository
use snowflake_emulator.Identity.Repository.{or_error}
use snowflake_emulator.Identity.Repository.Bootstrap.{bootstrap_identity}

unfoldable pub normalize_name : Text → Text
unfolding trim_space to_upper
normalize_name name = to_upper (trim_space name)

abbrev pub new_role : Text → Text → Text → RoleRecord
new_role id name comment = record {
  id = id;
  name = name;
  comment = comment;
  is_system = true;
  created_at = 0;
}

abbrev pub system_roles : (Text → Text) → List RoleRecord
system_roles uuid =
    new_role (uuid role_account_admin) role_account_admin (str "System account administrator")
    ∷ new_role (uuid role_security_admin) role_security_admin (str "System security administrator")
    ∷ new_role (uuid role_user_admin) role_user_admin (str "System user administrator")
    ∷ new_role (uuid role_sys_admin) role_sys_admin (str "System object administrator")
    ∷ new_role (uuid role_public) role_public (str "Implicit role for every user")
    ∷ []

-- Child and parent.
abbrev pub system_hierarchy : List (Text × Text)
system_hierarchy =
    (role_security_admin, role_account_admin)
    ∷ (role_user_admin, role_security_admin)
    ∷ (role_sys_admin, role_account_admin)
    ∷ (role_public, role_sys_admin)
    ∷ []

abbrev pub demo_admin : Text → Text → UserRecord
demo_admin id hash = record {
  id = id;
  name = demo_admin_user;
  password_hash = hash;
  default_role_id = [];
  disabled = false;
  must_change_password = false;
  comment = str "Local demonstration administrator";
  created_at = 0;
}

-- `uuid` gives the fresh ids, each under the name of what it is for.
unfoldable pub bootstrap : (Text → Text) → Call → Catalog → Result Error Catalog
unfolding bootstrap_identity
bootstrap uuid c t = do
  hash ← or_error hash_failed (c.hash demo_admin_password)
  bootstrap_identity (c.up 0) c.now (system_roles uuid) system_hierarchy
      (demo_admin (uuid demo_admin_user) hash) t

unfoldable pub role_by_id : Bool → Text → Catalog → Result Error RoleRecord
unfolding Repository.list_role_records find_first
role_by_id up id t = do
  roles ← Repository.list_role_records up t
  or_error identity_not_found (find_first (λ (r : RoleRecord). r.id == id) roles)

abbrev hide_missing {ℓ} : {A : Type ℓ} → Result Error A → Result Error A
hide_missing (err identity_not_found) = err invalid_credentials
hide_missing r = r

unfoldable pub authenticate :
    (Text → Text → Bool) → Call → Text → Text → Catalog → Result Error Principal
unfolding Repository.get_user_record_by_name role_by_id
authenticate compare c username password t = do
  user ← hide_missing (Repository.get_user_record_by_name (c.up 0) username t)
  if user.disabled
      then err user_disabled
      else if not (compare user.password_hash password)
      then err invalid_credentials
      else role_by_id (c.up 1) user.default_role_id t >>= λ role. ok (record {
        user_id = user.id;
        username = user.name;
        default_role_id = role.id;
        default_role = role.name;
      })

unfoldable pub public_user : UserRecord → User
public_user u = record {
  id = u.id;
  name = u.name;
  default_role_id = u.default_role_id;
  disabled = u.disabled;
  must_change_password = u.must_change_password;
  comment = u.comment;
}

-- The row that a committed creation left.
unfoldable pub read_user :
    Bool → Text → Catalog → Result Error Catalog → Catalog × Result Error User
unfolding Repository.get_user_record_by_name public_user
read_user up name t (err e) = (t, err e)
read_user up name t (ok t') =
    (t', Repository.get_user_record_by_name up name t' >>= λ u. ok (public_user u))

unfoldable pub create_user_configured :
    Call → Text → Text → Text → Bool → Text → Catalog → Catalog × Result Error User
unfolding Repository.get_role_record_by_name Repository.create_user_with_role_record read_user
    normalize_name
create_user_configured c name password default_role disabled comment t =
    read_user (c.up 2) (normalize_name name) t (
      Repository.get_role_record_by_name (c.up 0) default_role t >>= λ role.
      or_error hash_failed (c.hash password) >>= λ hash.
      Repository.create_user_with_role_record (c.up 1) c.now c.uuid
        (record {
          id = c.uuid;
          name = normalize_name name;
          password_hash = hash;
          default_role_id = role.id;
          disabled = disabled;
          must_change_password = false;
          comment = comment;
          created_at = 0;
        })
        t)

unfoldable pub create_user :
    Call → Text → Text → Text → Text → Catalog → Catalog × Result Error User
unfolding create_user_configured
create_user c name password default_role comment t =
    create_user_configured c name password default_role false comment t

-- The id of the role with a new name, or the old id.
unfoldable pub new_default : Bool → Option Text → Text → Catalog → Result Error Text
unfolding Repository.get_role_record_by_name
new_default up none old t = ok old
new_default up (some name) old t =
    Repository.get_role_record_by_name up name t >>= λ role. ok role.id

unfoldable pub new_hash : Call → Option Text → Text → Result Error Text
new_hash c none old = ok old
new_hash c (some password) old = or_error hash_failed (c.hash password)

abbrev pub or_old {ℓ} : {A : Type ℓ} → Option A → A → A
or_old none old = old
or_old (some new) old = new

unfoldable pub alter_user : Call → Text → UserChanges → Catalog → Result Error Catalog
unfolding Repository.get_user_record_by_name Repository.update_user_configuration_record new_default
    new_hash
alter_user c username changes t = do
  user ← Repository.get_user_record_by_name (c.up 0) username t
  role_id ← new_default (c.up 1) changes.default_role user.default_role_id t
  hash ← new_hash c changes.password user.password_hash
  Repository.update_user_configuration_record (c.up 2)
      (record user {
        default_role_id = role_id;
        password_hash = hash;
        disabled = or_old changes.disabled user.disabled;
        comment = or_old changes.comment user.comment;
      })
      t

unfoldable pub list_users : Call → Catalog → Result Error (List User)
unfolding Repository.list_user_records public_user
list_users c t = Repository.list_user_records (c.up 0) t >>= λ us. ok (map public_user us)

unfoldable pub list_roles : Call → Catalog → Result Error (List RoleRecord)
unfolding Repository.list_role_records
list_roles c t = Repository.list_role_records (c.up 0) t

unfoldable pub set_password : Call → Text → Text → Catalog → Result Error Catalog
unfolding Repository.get_user_record_by_name Repository.update_user_record
set_password c username password t = do
  user ← Repository.get_user_record_by_name (c.up 0) username t
  hash ← or_error hash_failed (c.hash password)
  Repository.update_user_record (c.up 1) (record user { password_hash = hash }) t

unfoldable pub set_user_disabled : Call → Text → Bool → Catalog → Result Error Catalog
unfolding Repository.get_user_record_by_name Repository.update_user_record
set_user_disabled c username disabled t = do
  user ← Repository.get_user_record_by_name (c.up 0) username t
  Repository.update_user_record (c.up 1) (record user { disabled = disabled }) t

unfoldable pub set_user_comment : Call → Text → Text → Catalog → Result Error Catalog
unfolding Repository.get_user_record_by_name Repository.update_user_record
set_user_comment c username comment t = do
  user ← Repository.get_user_record_by_name (c.up 0) username t
  Repository.update_user_record (c.up 1) (record user { comment = comment }) t

unfoldable pub set_default_role : Call → Text → Text → Catalog → Result Error Catalog
unfolding Repository.get_user_record_by_name Repository.get_role_record_by_name
    Repository.set_default_user_role_record
set_default_role c username role_name t = do
  user ← Repository.get_user_record_by_name (c.up 0) username t
  role ← Repository.get_role_record_by_name (c.up 1) role_name t
  Repository.set_default_user_role_record (c.up 2) user.id role.id t

unfoldable pub delete_user : Call → Text → Catalog → Result Error Catalog
unfolding Repository.get_user_record_by_name Repository.delete_user_record
delete_user c username t = do
  user ← Repository.get_user_record_by_name (c.up 0) username t
  Repository.delete_user_record (c.up 1) user.id t

unfoldable pub create_role : Call → Text → Text → Catalog → Catalog × Result Error RoleRecord
unfolding Repository.create_role_record normalize_name
create_role c name comment t =
    Repository.create_role_record (c.up 0) (c.up 1) c.now c.uuid (normalize_name name) comment false
      t

unfoldable pub grant_role_to_user : Call → Text → Text → Catalog → Result Error Catalog
unfolding Repository.get_user_record_by_name Repository.get_role_record_by_name
    Repository.grant_role_to_user_record normalize_name
grant_role_to_user c role_name username t =
    if normalize_name role_name == role_public
    then err system_role
    else Repository.get_user_record_by_name (c.up 0) username t >>= λ user.
        Repository.get_role_record_by_name (c.up 1) role_name t >>= λ role.
        Repository.grant_role_to_user_record (c.up 2) user.id role.id t

abbrev pub as_role_in_use {ℓ} : {A : Type ℓ} → Result Error A → Result Error A
as_role_in_use (err identity_in_use) = err role_in_use
as_role_in_use r = r

abbrev pub as_role_cycle {ℓ} : {A : Type ℓ} → Result Error A → Result Error A
as_role_cycle (err identity_cycle) = err role_cycle
as_role_cycle r = r

unfoldable pub revoke_role_from_user : Call → Text → Text → Catalog → Result Error Catalog
unfolding Repository.get_user_record_by_name Repository.get_role_record_by_name
    Repository.revoke_role_from_user_record normalize_name
revoke_role_from_user c role_name username t =
    if normalize_name role_name == role_public
    then err system_role
    else Repository.get_user_record_by_name (c.up 0) username t >>= λ user.
        Repository.get_role_record_by_name (c.up 1) role_name t >>= λ role.
        as_role_in_use (Repository.revoke_role_from_user_record (c.up 2) user.id role.id t)

unfoldable pub grant_role_to_role : Call → Text → Text → Catalog → Result Error Catalog
unfolding Repository.get_role_record_by_name Repository.grant_role_to_role_record
grant_role_to_role c child_name parent_name t = do
  child ← Repository.get_role_record_by_name (c.up 0) child_name t
  parent ← Repository.get_role_record_by_name (c.up 1) parent_name t
  if child.id == parent.id
      then err role_cycle
      else if child.is_system || parent.is_system
      then err system_role
      else as_role_cycle (Repository.grant_role_to_role_record (c.up 2) c.now child.id parent.id t)

unfoldable pub revoke_role_from_role : Call → Text → Text → Catalog → Result Error Catalog
unfolding Repository.get_role_record_by_name Repository.revoke_role_from_role_record
revoke_role_from_role c child_name parent_name t = do
  child ← Repository.get_role_record_by_name (c.up 0) child_name t
  parent ← Repository.get_role_record_by_name (c.up 1) parent_name t
  if child.is_system || parent.is_system
      then err system_role
      else Repository.revoke_role_from_role_record (c.up 2) child.id parent.id t

unfoldable pub delete_role : Call → Text → Catalog → Result Error Catalog
unfolding Repository.get_role_record_by_name Repository.delete_role_record
delete_role c name t = do
  role ← Repository.get_role_record_by_name (c.up 0) name t
  if role.is_system
      then err system_role
      else as_role_in_use (Repository.delete_role_record (c.up 1) role.id t)
