-- ===== src/Identity/Integrity/History.antt =====
-- Soundness after any calls.
use snowflake_emulator.Base.{
  Text, str, text_eq, to_upper, false, not, ◌&&◌, List, [], ◌∷◌, ◌==◌, if_intro, contains,
}
use snowflake_emulator.Base.Result.{Result, ok, err}
use snowflake_emulator.Identity.Types.{Error, RoleRecord, Catalog, Call}
use snowflake_emulator.Identity.Repository.{get_role_record_by_name, has_role}
use snowflake_emulator.Identity.Repository.Privileges
use snowflake_emulator.Identity.Service
use snowflake_emulator.Identity.Authorize
use snowflake_emulator.Identity.Authorize.{validate_object_privilege}
use snowflake_emulator.Identity.Integrity.{IsSound}
use snowflake_emulator.Identity.Integrity.Users.{Keeps}
use snowflake_emulator.Identity.Integrity.Roles.{with_privileges-IsSound}
use snowflake_emulator.Identity.Integrity.Creation.{create_role_record-IsSound}
use snowflake_emulator.Identity.Integrity.Operations
use snowflake_emulator.Identity.Integrity.Operations.{then-Keeps}
use snowflake_emulator.Identity.Integrity.Calls.{
  Change, creates_user, alters_user, sets_password, sets_comment, sets_default_role, sets_disabled,
  deletes_user, creates_role, grants_to_user, revokes_from_user, grants_to_role, revokes_from_role,
  deletes_role, grants_on_warehouse, revokes_on_warehouse, grants_on_object, revokes_on_object,
  committed, apply, apply_all,
}

module _ (c : Call) (t : Catalog) (s : IsSound t) where
  abbrev role_named : Text → Result Error RoleRecord
  role_named name = get_role_record_by_name (c.up 0) name t

  grant_warehouse_privilege-Keeps :
      (privilege warehouse role : Text)
      → Keeps (Authorize.grant_warehouse_privilege c privilege warehouse role t)
  unfolding Authorize.grant_warehouse_privilege Privileges.grant_warehouse_privilege_record
  grant_warehouse_privilege-Keeps privilege warehouse role =
      if_intro Keeps
        (not (to_upper privilege == str "USAGE") && not (to_upper privilege == str "OPERATE"))
        (λ _. tt)
        (λ _. then-Keeps (role_named role) _ (λ r _.
          if_intro Keeps (c.up 1)
            (λ _.
              if_intro Keeps (has_role r.id t && contains t.warehouses (to_upper warehouse))
                (λ _. with_privileges-IsSound t _ t.object_privileges s) (λ _. tt))
            (λ _. tt)))

  revoke_warehouse_privilege-Keeps :
      (privilege warehouse role : Text)
      → Keeps (Authorize.revoke_warehouse_privilege c privilege warehouse role t)
  unfolding Authorize.revoke_warehouse_privilege Privileges.revoke_warehouse_privilege_record
  revoke_warehouse_privilege-Keeps privilege warehouse role = then-Keeps (role_named role) _ (λ r _.
      if_intro Keeps (c.up 1) (λ _. with_privileges-IsSound t _ t.object_privileges s) (λ _. tt))

  grant_object_privilege-Keeps :
      (privilege type name role : Text)
      → Keeps (Authorize.grant_object_privilege c privilege type name role t)
  unfolding Authorize.grant_object_privilege Privileges.grant_object_privilege_record
  grant_object_privilege-Keeps privilege type name role =
      then-Keeps (validate_object_privilege privilege type) _ (λ _ _.
        then-Keeps (role_named role) _ (λ r _.
          if_intro Keeps (c.up 1) (λ _. with_privileges-IsSound t t.warehouse_privileges _ s)
            (λ _. tt)))

  revoke_object_privilege-Keeps :
      (privilege type name role : Text)
      → Keeps (Authorize.revoke_object_privilege c privilege type name role t)
  unfolding Authorize.revoke_object_privilege Privileges.revoke_object_privilege_record
  revoke_object_privilege-Keeps privilege type name role =
      then-Keeps (validate_object_privilege privilege type) _ (λ _ _.
        then-Keeps (role_named role) _ (λ r _.
          if_intro Keeps (c.up 1) (λ _. with_privileges-IsSound t t.warehouse_privileges _ s)
            (λ _. tt)))

  committed-IsSound : (r : Result Error Catalog) → Keeps r → IsSound (committed t r)
  committed-IsSound (ok t') k = k
  committed-IsSound (err e) k = s

  apply-IsSound : (change : Change) → IsSound (apply c change t)
  unfolding apply Service.create_role
  apply-IsSound (creates_user name password role disabled comment) =
      Operations.create_user_configured-IsSound c t name password role disabled comment s
  apply-IsSound (alters_user name changes) =
      committed-IsSound _ (Operations.alter_user-Keeps c name t changes s)
  apply-IsSound (sets_password name password) =
      committed-IsSound _ (Operations.set_password-Keeps c name t password s)
  apply-IsSound (sets_comment name comment) =
      committed-IsSound _ (Operations.set_user_comment-Keeps c name t comment s)
  apply-IsSound (sets_default_role name role) =
      committed-IsSound _ (Operations.set_default_role-Keeps c name t role s)
  apply-IsSound (sets_disabled name disabled) =
      committed-IsSound _ (Operations.set_user_disabled-Keeps c name t disabled s)
  apply-IsSound (deletes_user name) = committed-IsSound _ (Operations.delete_user-Keeps c name t s)
  apply-IsSound (creates_role name comment) =
      create_role_record-IsSound (c.up 0) (c.up 1) c.now c.uuid (Service.normalize_name name)
        comment false t s
  apply-IsSound (grants_to_user role name) =
      committed-IsSound _ (Operations.grant_role_to_user-Keeps c name t role s)
  apply-IsSound (revokes_from_user role name) =
      committed-IsSound _ (Operations.revoke_role_from_user-Keeps c name t role s)
  apply-IsSound (grants_to_role child parent) =
      committed-IsSound _ (Operations.grant_role_to_role-Keeps c t child parent s)
  apply-IsSound (revokes_from_role child parent) =
      committed-IsSound _ (Operations.revoke_role_from_role-Keeps c t child parent s)
  apply-IsSound (deletes_role name) = committed-IsSound _ (Operations.delete_role-Keeps c t name s)
  apply-IsSound (grants_on_warehouse privilege warehouse role) =
      committed-IsSound _ (grant_warehouse_privilege-Keeps privilege warehouse role)
  apply-IsSound (revokes_on_warehouse privilege warehouse role) =
      committed-IsSound _ (revoke_warehouse_privilege-Keeps privilege warehouse role)
  apply-IsSound (grants_on_object privilege type name role) =
      committed-IsSound _ (grant_object_privilege-Keeps privilege type name role)
  apply-IsSound (revokes_on_object privilege type name role) =
      committed-IsSound _ (revoke_object_privilege-Keeps privilege type name role)

-- From a sound catalog, any calls of the service but `Bootstrap`, whichever of them fail, lead to a
-- sound one: no role inherits a role above it, every grant is between rows that exist, every
-- user has been granted its default role if it has one, and no two users, and no two roles, have
-- the same id or the same name.
pub apply_all-IsSound :
    (changes : List (Call × Change)) (t : Catalog) → IsSound t → IsSound (apply_all changes t)
unfolding apply_all
apply_all-IsSound [] t s = s
apply_all-IsSound ((c, change) ∷ rest) t s =
    apply_all-IsSound rest (apply c change t) (apply-IsSound c t s change)
