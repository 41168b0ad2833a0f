-- ===== src/Identity/Roles/Effective.antt =====
-- Effective roles against the relation of inherited roles.
use snowflake_emulator.Base.{
  ◌≡◌, ◌⊎◌, ◌↔◌, inl, inr, refl, subst, Text, text_eq, text_leb, text_beq_iff, Bool, true, List, [],
  ◌==◌, contains, ℕ, map, keep,
}
use snowflake_emulator.Base.Members.{
  Has, Has-sort_by, sort_by-Has, Has-map, map-Has, Has-keep, keep-Has, contains-Has, Has-contains,
  Has-append_left, Has-append_right, Has-append_cases,
}
use snowflake_emulator.Base.Sort.{sort_by}
use snowflake_emulator.Base.Result.{ok}
use snowflake_emulator.Identity.Types.{UserRecord, UserGrant, RoleRecord, Catalog, role_public}
use snowflake_emulator.Identity.Search.{visit_all}
use snowflake_emulator.Identity.Search.Reach.{Inherits}
use snowflake_emulator.Identity.Search.Exact.{visit_all_iff}
use snowflake_emulator.Identity.Repository.{
  get_user_record_by_name, list_direct_user_role_ids, list_role_grant_records, list_role_records,
}
use snowflake_emulator.Identity.Roles.{is_wanted, with_public, effective_roles}

-- The user has the role: it is PUBLIC, or inherited from a role that was granted to the user.
abbrev pub IsEffective : Catalog → Text → Text → Type 0
IsEffective t user_id id =
    ((p : RoleRecord) × Has p t.roles × (p.name ≡ role_public) × (p.id ≡ id))
    ⊎ ((s : Text) × Has (record { user_id = user_id; role_id = s }) t.user_grants
        × Inherits t.role_grants s id)

direct_ids : Text → Catalog → List Text
direct_ids user_id t = sort_by text_leb (
    map (λ (g : UserGrant). g.role_id)
      (keep (λ (g : UserGrant). g.user_id == user_id) t.user_grants))

direct-Has :
    (user_id s : Text) (t : Catalog)
    → Has s (direct_ids user_id t)
    → Has (record { user_id = user_id; role_id = s }) t.user_grants
unfolding direct_ids
direct-Has user_id s t m =
    let (g, n, e) = map-Has (λ (g : UserGrant). g.role_id) s _ (sort_by-Has text_leb s _ m) in
    let (k, q) = keep-Has (λ (g : UserGrant). g.user_id == user_id) g t.user_grants n in
    subst (λ (h : UserGrant). Has h t.user_grants) (same g ((text_beq_iff g.user_id user_id).0 q) e)
      k
  where
    same :
        (g : UserGrant)
        → g.user_id ≡ user_id
        → g.role_id ≡ s
        → g ≡ record { user_id = user_id; role_id = s }
    same g a b = rw (a, b) refl

Has-direct :
    (user_id s : Text) (t : Catalog)
    → Has (record { user_id = user_id; role_id = s }) t.user_grants
    → Has s (direct_ids user_id t)
unfolding direct_ids
Has-direct user_id s t m = Has-sort_by text_leb s _ (
    Has-map (λ (g : UserGrant). g.role_id) (record { user_id = user_id; role_id = s }) _
      (Has-keep (λ (g : UserGrant). g.user_id == user_id) _ t.user_grants m
        ((text_beq_iff user_id user_id).1 refl)))

public-Has :
    (roles : List RoleRecord) (id : Text)
    → Has id
        (map (λ (r : RoleRecord). r.id) (keep (λ (r : RoleRecord). r.name == role_public) roles))
    → (p : RoleRecord) × Has p roles × (p.name ≡ role_public) × (p.id ≡ id)
public-Has roles id m =
    let (p, n, e) = map-Has (λ (r : RoleRecord). r.id) id _ m in
    let (k, q) = keep-Has (λ (r : RoleRecord). r.name == role_public) p roles n in
    (p, k, (text_beq_iff p.name role_public).0 q, e)

Has-public :
    (roles : List RoleRecord) (id : Text) (p : RoleRecord)
    → Has p roles
    → p.name ≡ role_public
    → p.id ≡ id
    → Has id
        (map (λ (r : RoleRecord). r.id) (keep (λ (r : RoleRecord). r.name == role_public) roles))
Has-public roles id p m named same =
    subst
      (λ z.
        Has z
          (map (λ (r : RoleRecord). r.id) (keep (λ (r : RoleRecord). r.name == role_public) roles)))
      same
      (Has-map (λ (r : RoleRecord). r.id) p _
        (Has-keep (λ (r : RoleRecord). r.name == role_public) p roles m
          ((text_beq_iff p.name role_public).1 named)))

sorted_roles : Catalog → List RoleRecord
sorted_roles t = sort_by (λ (a : RoleRecord) (b : RoleRecord). text_leb a.name b.name) t.roles

wanted_iff :
    (t : Catalog) (user_id id : Text)
    → (contains
          (with_public (sorted_roles t) (visit_all t.role_grants (direct_ids user_id t) []))
          id
        ≡ true)
      ↔ IsEffective t user_id id
unfolding sorted_roles
wanted_iff t user_id id = (
  λ h. elim (Has-append_cases id _ _ (contains-Has _ id h)) [
    | inl m ↦
        let (p, n, named, same) = public-Has (sorted_roles t) id m in
        inl (p, sort_by-Has _ p t.roles n, named, same)
    | inr m ↦
        let (s, d, i) =
          (visit_all_iff t.role_grants (direct_ids user_id t) id).0 (Has-contains _ id m) in
        inr (s, direct-Has user_id s t d, i)
  ],
  λ h. Has-contains _ id (elim h [
    | inl (p, n, named, same) ↦
        Has-append_left id _ _
          (Has-public (sorted_roles t) id p (Has-sort_by _ p t.roles n) named same)
    | inr (s, d, i) ↦ Has-append_right id _ _ (
        contains-Has _ id (
          (visit_all_iff t.role_grants (direct_ids user_id t) id).1
            (s, Has-direct user_id s t d, i)))
  ]),
)

-- EffectiveRoles of a user who exists, with a database that answers, lists exactly the roles of the
-- catalog that are PUBLIC, were granted to the user, or are inherited from such a grant.
pub effective_roles_iff :
    (up : ℕ → Bool) (username : Text) (user : UserRecord) (r : RoleRecord) (t : Catalog)
    → get_user_record_by_name (up 0) username t ≡ ok user
    → up 1 ≡ true
    → up 2 ≡ true
    → up 3 ≡ true
    → (rs : List RoleRecord) × (effective_roles up username t ≡ ok rs)
      × (Has r rs ↔ (Has r t.roles × IsEffective t user.id r.id))
unfolding effective_roles list_direct_user_role_ids list_role_grant_records list_role_records
    sorted_roles direct_ids
effective_roles_iff up username user r t known up1 up2 up3 =
    let wanted = with_public (sorted_roles t) (visit_all t.role_grants (direct_ids user.id t) []) in
    (
      keep (is_wanted wanted) (sorted_roles t),
      rw (known, up1, up2, up3) refl,
      (
        λ m.
            let (n, e) = keep-Has (is_wanted wanted) r (sorted_roles t) m in
            (sort_by-Has _ r t.roles n, (wanted_iff t user.id r.id).0 e),
        λ (n, i).
            Has-keep (is_wanted wanted) r (sorted_roles t) (Has-sort_by _ r t.roles n)
              ((wanted_iff t user.id r.id).1 i),
      ),
    )
