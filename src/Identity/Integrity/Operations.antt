-- ===== src/Identity/Integrity/Operations.antt =====
-- What each call of the service keeps.
use snowflake_emulator.Base.{
  arith, ◌≡◌, inl, inr, refl, Text, text_eq, Bool, false, ◌||◌, ◌==◌, Bool-cases, Option-cases,
  if_intro,
}
use snowflake_emulator.Base.Members.{Has, find_first, find_first-Has}
use snowflake_emulator.Base.Result.{Result, ok, err, ◌>>=◌}
use snowflake_emulator.Identity.Types.{
  Error, identity_in_use, identity_cycle, hash_failed, UserRecord, RoleRecord, Catalog, UserChanges,
  Call, role_public,
}
use snowflake_emulator.Identity.Repository.{
  or_error, normalize_identity_name, get_user_record_by_name, get_role_record_by_name,
}
use snowflake_emulator.Identity.Service
use snowflake_emulator.Identity.Service.{
  as_role_in_use, as_role_cycle, read_user, new_default, new_hash, or_old,
}
use snowflake_emulator.Identity.Integrity.{IsSound}
use snowflake_emulator.Identity.Integrity.Users.{
  Keeps, update_user_record-Keeps, update_user_configuration_record-Keeps,
  set_default_user_role_record-Keeps, grant_role_to_user_record-Keeps,
}
use snowflake_emulator.Identity.Integrity.Deletion.{
  delete_user_record-Keeps, revoke_role_from_user_record-Keeps,
}
use snowflake_emulator.Identity.Integrity.Creation.{create_user_with_role_record-Keeps}
use snowflake_emulator.Identity.Integrity.Roles.{
  grant_role_to_role_record-Keeps, revoke_role_from_role_record-Keeps, delete_role_record-Keeps,
}

-- A transaction after a step that gives what it is about.
pub then-Keeps :
    {A : Type 0} (r : Result Error A) (f : A → Result Error Catalog)
    → ((a : A) → r ≡ ok a → Keeps (f a))
    → Keeps (r >>= f)
then-Keeps (ok a) f each = each a refl
then-Keeps (err e) f each = tt

pub get_user-Has :
    (up : Bool) (name : Text) (t : Catalog) (u : UserRecord)
    → get_user_record_by_name up name t ≡ ok u
    → Has u t.users
unfolding get_user_record_by_name
get_user-Has up name t u e = elim (Bool-cases up) [
  | inr down ↦ absurd (cc (rw down at e))
  | inl runs ↦
      elim (Option-cases
        (find_first (λ (v : UserRecord). v.name == normalize_identity_name name) t.users)) [
          | inl missing ↦ absurd (cc (rw (runs, missing) at e))
          | inr (v, found) ↦
              (find_first-Has (λ (v : UserRecord). v.name == normalize_identity_name name) t.users u
                (ground (arith, rw (runs, found) at e))).0
        ]
]

as_role_in_use-Keeps : (r : Result Error Catalog) → Keeps r → Keeps (as_role_in_use r)
as_role_in_use-Keeps (ok t) k = k
as_role_in_use-Keeps (err identity_in_use) k = tt
as_role_in_use-Keeps (err _) k = tt

as_role_cycle-Keeps : (r : Result Error Catalog) → Keeps r → Keeps (as_role_cycle r)
as_role_cycle-Keeps (ok t) k = k
as_role_cycle-Keeps (err identity_cycle) k = tt
as_role_cycle-Keeps (err _) k = tt

read_user-IsSound :
    (up : Bool) (name : Text) (t : Catalog) (r : Result Error Catalog)
    → IsSound t
    → Keeps r
    → IsSound (read_user up name t r).0
unfolding read_user
read_user-IsSound up name t (ok t') s k = k
read_user-IsSound up name t (err e) s k = s

-- An update of a user that has its default role.
module _ (c : Call) (username : Text) (t : Catalog) where
  abbrev found : Result Error UserRecord
  found = get_user_record_by_name (c.up 0) username t

  abbrev role_named : Text → Result Error RoleRecord
  role_named name = get_role_record_by_name (c.up 1) name t

  pub set_password-Keeps :
      (password : Text) → IsSound t → Keeps (Service.set_password c username password t)
  unfolding Service.set_password
  set_password-Keeps password s = then-Keeps found _ (λ u e.
      then-Keeps (or_error hash_failed (c.hash password)) _ (λ hash _.
        update_user_record-Keeps (c.up 1) (record u { password_hash = hash }) t s
          (s.defaults u (get_user-Has (c.up 0) username t u e))))

  pub set_user_disabled-Keeps :
      (disabled : Bool) → IsSound t → Keeps (Service.set_user_disabled c username disabled t)
  unfolding Service.set_user_disabled
  set_user_disabled-Keeps disabled s = then-Keeps found _ (λ u e.
      update_user_record-Keeps (c.up 1) (record u { disabled = disabled }) t s
        (s.defaults u (get_user-Has (c.up 0) username t u e)))

  pub set_user_comment-Keeps :
      (comment : Text) → IsSound t → Keeps (Service.set_user_comment c username comment t)
  unfolding Service.set_user_comment
  set_user_comment-Keeps comment s = then-Keeps found _ (λ u e.
      update_user_record-Keeps (c.up 1) (record u { comment = comment }) t s
        (s.defaults u (get_user-Has (c.up 0) username t u e)))

  pub alter_user-Keeps :
      (changes : UserChanges) → IsSound t → Keeps (Service.alter_user c username changes t)
  unfolding Service.alter_user
  alter_user-Keeps changes s = then-Keeps found _ (λ u _.
      then-Keeps (new_default (c.up 1) changes.default_role u.default_role_id t) _ (λ role_id _.
        then-Keeps (new_hash c changes.password u.password_hash) _ (λ hash _.
          update_user_configuration_record-Keeps (c.up 2)
            (record u {
              default_role_id = role_id;
              password_hash = hash;
              disabled = or_old changes.disabled u.disabled;
              comment = or_old changes.comment u.comment;
            })
            t s)))

  pub set_default_role-Keeps :
      (role_name : Text) → IsSound t → Keeps (Service.set_default_role c username role_name t)
  unfolding Service.set_default_role
  set_default_role-Keeps role_name s = then-Keeps found _ (λ u _.
      then-Keeps (role_named role_name) _
        (λ role _. set_default_user_role_record-Keeps (c.up 2) u.id role.id t s))

  pub delete_user-Keeps : IsSound t → Keeps (Service.delete_user c username t)
  unfolding Service.delete_user
  delete_user-Keeps s = then-Keeps found _ (λ u _. delete_user_record-Keeps (c.up 1) u.id t s)

  pub grant_role_to_user-Keeps :
      (role_name : Text) → IsSound t → Keeps (Service.grant_role_to_user c role_name username t)
  unfolding Service.grant_role_to_user
  grant_role_to_user-Keeps role_name s =
      if_intro Keeps (Service.normalize_name role_name == role_public) (λ _. tt)
        (λ _. then-Keeps found _ (λ u _.
          then-Keeps (role_named role_name) _
            (λ role _. grant_role_to_user_record-Keeps (c.up 2) u.id role.id t s)))

  pub revoke_role_from_user-Keeps :
      (role_name : Text) → IsSound t → Keeps (Service.revoke_role_from_user c role_name username t)
  unfolding Service.revoke_role_from_user
  revoke_role_from_user-Keeps role_name s =
      if_intro Keeps (Service.normalize_name role_name == role_public) (λ _. tt)
        (λ _. then-Keeps found _ (λ u _. then-Keeps (role_named role_name) _ (λ role _.
          as_role_in_use-Keeps _ (revoke_role_from_user_record-Keeps (c.up 2) u.id role.id t s))))

module _ (c : Call) (t : Catalog) where
  abbrev first_role : Text → Result Error RoleRecord
  first_role name = get_role_record_by_name (c.up 0) name t

  abbrev second_role : Text → Result Error RoleRecord
  second_role name = get_role_record_by_name (c.up 1) name t

  pub grant_role_to_role-Keeps :
      (child_name parent_name : Text)
      → IsSound t
      → Keeps (Service.grant_role_to_role c child_name parent_name t)
  unfolding Service.grant_role_to_role
  grant_role_to_role-Keeps child_name parent_name s =
      then-Keeps (first_role child_name) _ (λ child _.
        then-Keeps (second_role parent_name) _ (λ parent _.
          if_intro Keeps (child.id == parent.id) (λ _. tt)
            (λ _.
              if_intro Keeps (child.is_system || parent.is_system) (λ _. tt)
                (λ _.
                  as_role_cycle-Keeps _
                    (grant_role_to_role_record-Keeps (c.up 2) c.now child.id parent.id t s)))))

  pub revoke_role_from_role-Keeps :
      (child_name parent_name : Text)
      → IsSound t
      → Keeps (Service.revoke_role_from_role c child_name parent_name t)
  unfolding Service.revoke_role_from_role
  revoke_role_from_role-Keeps child_name parent_name s =
      then-Keeps (first_role child_name) _ (λ child _.
        then-Keeps (second_role parent_name) _ (λ parent _.
          if_intro Keeps (child.is_system || parent.is_system) (λ _. tt)
            (λ _. revoke_role_from_role_record-Keeps (c.up 2) child.id parent.id t s)))

  pub delete_role-Keeps : (name : Text) → IsSound t → Keeps (Service.delete_role c name t)
  unfolding Service.delete_role
  delete_role-Keeps name s = then-Keeps (first_role name) _ (λ role _.
      if_intro Keeps role.is_system (λ _. tt)
        (λ _. as_role_in_use-Keeps _ (delete_role_record-Keeps (c.up 1) role.id t s)))

  pub create_user_configured-IsSound :
      (name password role : Text) (disabled : Bool) (comment : Text)
      → IsSound t
      → IsSound (Service.create_user_configured c name password role disabled comment t).0
  unfolding Service.create_user_configured
  create_user_configured-IsSound name password role disabled comment s =
      read_user-IsSound (c.up 2) (Service.normalize_name name) t _ s (
        then-Keeps (first_role role) _ (λ r _.
          then-Keeps (or_error hash_failed (c.hash password)) _ (λ hash _.
            create_user_with_role_record-Keeps (c.up 1) c.now c.uuid
              (record {
                id = c.uuid;
                name = Service.normalize_name name;
                password_hash = hash;
                default_role_id = r.id;
                disabled = disabled;
                must_change_password = false;
                comment = comment;
                created_at = 0;
              })
              t s)))
