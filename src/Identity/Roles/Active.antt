-- ===== src/Identity/Roles/Active.antt =====
-- The role that a session starts with, or changes to.
use snowflake_emulator.Base.{
  ℕ, ◌+◌, ◌≡◌, ◌⊎◌, ◌∙◌, sym, inl, inr, refl, subst, Text, text_eq, text_beq_iff, Bool, true, false,
  List, [], ◌==◌, arith, Bool-cases, Option, none, some,
}
use snowflake_emulator.Base.Members.{Has, find_first, find_first-Has, sort_by-Has}
use snowflake_emulator.Base.Result.{Result, ok, err, then-ok}
use snowflake_emulator.Identity.Types.{
  Error, identity_not_found, role_not_granted, UserRecord, RoleRecord, Catalog, Call,
}
use snowflake_emulator.Identity.Repository.{
  normalize_identity_name, when_up, get_user_record_by_name, get_role_record_by_name, or_error,
  list_user_records, list_role_records, list_role_grant_records, list_direct_user_role_ids,
}
use snowflake_emulator.Identity.Service.{normalize_name}
use snowflake_emulator.Identity.Integrity.{IsSound}
use snowflake_emulator.Identity.Roles.{
  requested_name, pick_role, resolve_for, effective_roles, resolve_active_role,
}
use snowflake_emulator.Identity.Roles.Effective.{IsEffective, effective_roles_iff}

-- The role is one of those of the row that is found by the name of the user.
abbrev IsRoleByName : Catalog → UserRecord → RoleRecord → Type 0
IsRoleByName t user role =
    (v : UserRecord) × (get_user_record_by_name true user.name t ≡ ok v)
    × Has role t.roles
    × IsEffective t v.id role.id

-- The users have names as CreateUser stores them, which a second normalization does not change.
abbrev pub HaveNormalNames : List UserRecord → Type 0
HaveNormalNames users = (u : UserRecord) → Has u users → normalize_identity_name u.name ≡ u.name

or_error-ok : {A : Type 0} (e : Error) (o : Option A) (a : A) → or_error e o ≡ ok a → o ≡ some a
or_error-ok e none a h = cc
or_error-ok e (some b) a h = ground (arith, h)

pick_role-ok :
    (up : Bool) (name : Text) (t : Catalog) (o : Option RoleRecord) (role : RoleRecord)
    → pick_role up name t o ≡ ok role
    → o ≡ some role
unfolding pick_role
pick_role-ok up name t (some r) role h = ground (arith, h)
pick_role-ok up name t none role h =
    let (_, _, e) =
      then-ok (get_role_record_by_name up name t) (λ r. err role_not_granted) role h in
    cc

pub ok-same : {A : Type 0} (r : Result Error A) (a b : A) → r ≡ ok a → r ≡ ok b → a ≡ b
ok-same r a b h k = ground (arith, sym h ∙ k)

up_of : {A : Type 0} (up : Bool) (r : Result Error A) (a : A) → when_up up r ≡ ok a → up ≡ true
up_of true r a h = refl
up_of false r a h = cc

effective_roles_sound :
    (up : ℕ → Bool) (name : Text) (t : Catalog) (rs : List RoleRecord) (role : RoleRecord)
    → effective_roles up name t ≡ ok rs
    → Has role rs
    → (v : UserRecord) × (get_user_record_by_name true name t ≡ ok v)
      × Has role t.roles
      × IsEffective t v.id role.id
unfolding effective_roles
effective_roles_sound up name t rs role h m =
    let (v, ev, h1) = then-ok (get_user_record_by_name (up 0) name t) _ rs h in
    let (direct, e1, h2) = then-ok (list_direct_user_role_ids (up 1) v.id t) _ rs h1 in
    let (grants, e2, h3) = then-ok (list_role_grant_records (up 2) t) _ rs h2 in
    let (roles, e3, _) = then-ok (list_role_records (up 3) t) _ rs h3 in
    let (all, e, both) =
      effective_roles_iff up name v role t ev (up_of (up 1) _ direct e1) (up_of (up 2) _ grants e2)
        (up_of (up 3) _ roles e3) in
    let (n, i) = both.0 (subst (Has role) (ok-same (effective_roles up name t) rs all h e) m) in
    (v, subst (λ b. get_user_record_by_name b name t ≡ ok v) (up_of (up 0) _ v ev) ev, n, i)

requested_name-cases :
    (up : Bool) (default name found : Text) (t : Catalog)
    → requested_name up default name t ≡ ok found
    → (name ≡ []) ⊎ (found ≡ name)
unfolding requested_name
requested_name-cases up default name found t h = elim (Bool-cases (name == [])) [
  | inl empty ↦ inl ((text_beq_iff name []).0 empty)
  | inr given ↦ inr (ok-same (ok name) found name (rw given at h) refl)
]

resolve_for_sound :
    (up : ℕ → Bool) (name : Text) (t : Catalog) (user : UserRecord) (role : RoleRecord)
    → resolve_for up name t user ≡ ok role
    → (user.disabled ≡ false) × IsRoleByName t user role × ((name ≡ []) ⊎ (role.name ≡ name))
unfolding resolve_for
resolve_for_sound up name t user role h = elim (Bool-cases user.disabled) [
  | inl disabled ↦ absurd (cc (rw disabled at h))
  | inr enabled ↦
      let (found, en, h1) =
        then-ok (requested_name (up 0) user.default_role_id name t) _ role (rw enabled at h) in
      let (all, ea, h2) = then-ok (effective_roles (λ i. up (1 + i)) user.name t) _ role h1 in
      let (m, e) =
        find_first-Has (λ (r : RoleRecord). r.name == found) all role
          (pick_role-ok (up 5) found t _ role h2) in
      (
        enabled,
        effective_roles_sound (λ i. up (1 + i)) user.name t all role ea m,
        (elim (requested_name-cases (up 0) user.default_role_id name found t en) [
          | inl empty ↦ inl empty
          | inr same ↦ inr ((text_beq_iff role.name found).0 e ∙ same)
        ]),
      )
]

listed :
    (up : Bool) (t : Catalog) (us : List UserRecord) (u : UserRecord)
    → list_user_records up t ≡ ok us
    → Has u us
    → Has u t.users
unfolding list_user_records
listed true t us u k m = sort_by-Has _ u t.users (subst (Has u) (ok-same _ us _ k refl) m)
listed false t us u k m = absurd (cc k)

-- The row found by the name of a user is the user's own, where names are normal and unique.
by_name-own :
    (t : Catalog) (user v : UserRecord)
    → IsSound t
    → HaveNormalNames t.users
    → Has user t.users
    → get_user_record_by_name true user.name t ≡ ok v
    → v ≡ user
unfolding get_user_record_by_name
by_name-own t user v sound normal m e =
    let (found, same) =
      find_first-Has (λ (u : UserRecord). u.name == normalize_identity_name user.name) t.users v
        (or_error-ok identity_not_found _ v e) in
    sound.unique_users v user found m
      (inr ((text_beq_iff v.name (normalize_identity_name user.name)).0 same ∙ normal user m))

-- In a sound catalog with normal names, ResolveActiveRole succeeds only for a user of this id that
-- is not disabled, and only with a role of the catalog that is PUBLIC, was granted to this user or
-- is inherited from such a grant; the name is the requested one, unless none was requested.
pub resolve_active_role_sound :
    (c : Call) (user_id requested : Text) (role : RoleRecord) (t : Catalog)
    → IsSound t
    → HaveNormalNames t.users
    → resolve_active_role c user_id requested t ≡ ok role
    → (user : UserRecord) × Has user t.users
      × (user.id ≡ user_id)
      × (user.disabled ≡ false)
      × Has role t.roles
      × IsEffective t user.id role.id
      × ((normalize_name requested ≡ []) ⊎ (role.name ≡ normalize_name requested))
unfolding resolve_active_role
resolve_active_role_sound c user_id requested role t sound normal h =
    let (users, eu, h1) = then-ok (list_user_records (c.up 0) t) _ role h in
    let (user, ef, h2) =
      then-ok (or_error identity_not_found (find_first (λ (u : UserRecord). u.id == user_id) users))
        _ role h1 in
    let (m, e) =
      find_first-Has (λ (u : UserRecord). u.id == user_id) users user
        (or_error-ok identity_not_found _ user ef) in
    let (enabled, (v, ev, is_there, is_effective), is_named) =
      resolve_for_sound (λ i. c.up (1 + i)) (normalize_name requested) t user role h2 in
    let here = listed (c.up 0) t users user eu m in
    (
      user,
      here,
      (text_beq_iff user.id user_id).0 e,
      enabled,
      is_there,
      subst (λ (u : UserRecord). IsEffective t u.id role.id)
          (by_name-own t user v sound normal here ev) is_effective,
      is_named,
    )
