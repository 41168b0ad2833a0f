-- ===== src/Identity/Roles.antt =====
-- Effective roles, and who has which role (pkg/identity/service.go).
pub mod Effective
pub mod Active
use snowflake_emulator.Base.{
  ℕ, ◌+◌, Text, str, text_eq, text_leb, Option, none, some, Bool, true, false, ◌&&◌, ◌||◌, List, [],
  ◌∷◌, ◌++◌, map, ◌==◌, if◌then◌else◌, keep, contains,
}
use snowflake_emulator.Base.Members.{find_first, any}
use snowflake_emulator.Base.Result.{Result, ok, err, ◌>>=◌}
use snowflake_emulator.Base.Sort.{sort_by}
use snowflake_emulator.Identity.Types.{
  Error, identity_not_found, user_disabled, role_not_granted, UserRecord, RoleRecord,
  RoleGrantRecord, Catalog, RoleAssignment, Call, role_public,
}
use snowflake_emulator.Identity.Search.{visit_all}
use snowflake_emulator.Identity.Repository
use snowflake_emulator.Identity.Repository.{or_error}
use snowflake_emulator.Identity.Service.{normalize_name, role_by_id}

-- The ids that a user's direct roles inherit, and PUBLIC.
abbrev pub is_wanted : List Text → RoleRecord → Bool
is_wanted wanted r = contains wanted r.id

abbrev pub with_public : List RoleRecord → List Text → List Text
with_public roles wanted =
    map (λ (r : RoleRecord). r.id) (keep (λ (r : RoleRecord). r.name == role_public) roles)
    ++ wanted

unfoldable pub effective_roles : (ℕ → Bool) → Text → Catalog → Result Error (List RoleRecord)
unfolding Repository.get_user_record_by_name Repository.list_direct_user_role_ids
    Repository.list_role_grant_records Repository.list_role_records visit_all keep contains
effective_roles up username t = do
  user ← Repository.get_user_record_by_name (up 0) username t
  direct ← Repository.list_direct_user_role_ids (up 1) user.id t
  grants ← Repository.list_role_grant_records (up 2) t
  roles ← Repository.list_role_records (up 3) t
  ok (keep (is_wanted (with_public roles (visit_all grants direct []))) roles)

-- The default role where no role is requested.
requested_name : Bool → Text → Text → Catalog → Result Error Text
unfolding role_by_id
requested_name up default_role_id name t =
    if name == [] then (role_by_id up default_role_id t >>= λ role. ok role.name) else ok name

pick_role : Bool → Text → Catalog → Option RoleRecord → Result Error RoleRecord
unfolding Repository.get_role_record_by_name
pick_role up name t (some role) = ok role
pick_role up name t none =
    Repository.get_role_record_by_name up name t >>= λ role. err role_not_granted

resolve_for : (ℕ → Bool) → Text → Catalog → UserRecord → Result Error RoleRecord
unfolding requested_name pick_role effective_roles find_first
resolve_for up name t user =
    if user.disabled
    then err user_disabled
    else requested_name (up 0) user.default_role_id name t >>= λ role_name.
        effective_roles (λ i. up (1 + i)) user.name t >>= λ effective.
        pick_role (up 5) role_name t
          (find_first (λ (r : RoleRecord). r.name == role_name) effective)

unfoldable pub resolve_active_role : Call → Text → Text → Catalog → Result Error RoleRecord
unfolding Repository.list_user_records find_first normalize_name resolve_for
resolve_active_role c user_id requested t = do
  users ← Repository.list_user_records (c.up 0) t
  user ← or_error identity_not_found (find_first (λ (u : UserRecord). u.id == user_id) users)
  resolve_for (λ i. c.up (1 + i)) (normalize_name requested) t user

abbrev to_user : Text → Text → RoleAssignment
to_user role user = record { role_name = role; granted_to = str "USER"; grantee = user }

unfoldable pub direct_grants_to_user : Call → Text → Catalog → Result Error (List RoleAssignment)
unfolding Repository.get_user_record_by_name Repository.list_direct_user_role_ids
    Repository.list_role_records keep contains
direct_grants_to_user c username t = do
  user ← Repository.get_user_record_by_name (c.up 0) username t
  ids ← Repository.list_direct_user_role_ids (c.up 1) user.id t
  roles ← Repository.list_role_records (c.up 2) t
  ok (
      map (λ (r : RoleRecord). to_user r.name user.name)
        (keep (λ (r : RoleRecord). contains ids r.id || r.name == role_public) roles))

-- byID[id], which is empty for an id without a role.
abbrev name_of : List RoleRecord → Text → Text
name_of roles id = elim (find_first (λ (r : RoleRecord). r.id == id) roles) [
  | none ↦ []
  | some r ↦ r.name
]

abbrev colon : Text → Text → Text
colon a b = a ++ 58 ∷ b

-- A grant that is selected gives the ids of a role and of its grantee.
role_assignments :
    (ℕ → Bool)
    → (RoleGrantRecord → Bool)
    → (RoleGrantRecord → Text × Text)
    → Catalog
    → Result Error (List RoleAssignment)
unfolding Repository.list_role_records Repository.list_role_grant_records find_first keep sort_by
    text_leb
role_assignments up selected ids t = do
  roles ← Repository.list_role_records (up 0) t
  grants ← Repository.list_role_grant_records (up 1) t
  ok (
      sort_by
        (λ (a : RoleAssignment) (b : RoleAssignment).
          text_leb (colon a.role_name a.grantee) (colon b.role_name b.grantee))
        (map
          (λ (g : RoleGrantRecord). record {
            role_name = name_of roles (ids g).0;
            granted_to = str "ROLE";
            grantee = name_of roles (ids g).1;
          })
          (keep selected grants)))

unfoldable pub direct_grants_to_role : Call → Text → Catalog → Result Error (List RoleAssignment)
unfolding Repository.get_role_record_by_name role_assignments
direct_grants_to_role c role_name t = do
  role ← Repository.get_role_record_by_name (c.up 0) role_name t
  role_assignments (λ i. c.up (1 + i)) (λ (g : RoleGrantRecord). g.parent_role_id == role.id)
      (λ (g : RoleGrantRecord). (g.child_role_id, g.parent_role_id)) t

-- The loop over the users; the i-th user is the (i+1)-th call.
user_assignments :
    (ℕ → Bool) → ℕ → RoleRecord → List UserRecord → Catalog → Result Error (List RoleAssignment)
unfolding Repository.list_direct_user_role_ids keep
user_assignments up i role [] t = ok []
user_assignments up i role (u ∷ us) t = do
  rest ← user_assignments up (i + 1) role us t
  if role.name == role_public
      then ok (to_user role.name u.name ∷ rest)
      else Repository.list_direct_user_role_ids (up i) u.id t >>= λ ids.
          ok (map (λ id. to_user role.name u.name) (keep (λ id. id == role.id) ids) ++ rest)

unfoldable pub direct_grants_of_role : Call → Text → Catalog → Result Error (List RoleAssignment)
unfolding Repository.get_role_record_by_name role_assignments Repository.list_user_records
    user_assignments sort_by text_leb
direct_grants_of_role c role_name t = do
  role ← Repository.get_role_record_by_name (c.up 0) role_name t
  to_roles ←
      role_assignments (λ i. c.up (1 + i)) (λ (g : RoleGrantRecord). g.child_role_id == role.id)
        (λ (g : RoleGrantRecord). (role.id, g.parent_role_id)) t
  users ← Repository.list_user_records (c.up 3) t
  to_users ← user_assignments c.up 4 role users t
  ok (
      sort_by
        (λ (a : RoleAssignment) (b : RoleAssignment).
          text_leb (colon a.granted_to a.grantee) (colon b.granted_to b.grantee))
        (to_roles ++ to_users))
