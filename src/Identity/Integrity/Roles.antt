-- ===== src/Identity/Integrity/Roles.antt =====
-- Grants between roles and deletion of roles; privileges.
use snowflake_emulator.Base.{
  ℕ, ◌≡◌, inl, inr, subst, Text, text_eq, Bool, false, not, ◌&&◌, ◌||◌, List, ◌==◌, Bool-cases,
  if_intro, keep, contains,
}
use snowflake_emulator.Base.Members.{Has, any, Has-any, Has-append_cases}
use snowflake_emulator.Identity.Types.{
  RoleRecord, UserRecord, RoleGrantRecord, UserGrant, Catalog, WarehousePrivilegeRecord,
  ObjectPrivilegeRecord,
}
use snowflake_emulator.Identity.Repository.{
  has_role, ancestors, add_role_grant, grant_role_to_role_record, revoke_role_from_role_record,
  is_referenced, delete_role_record,
}
use snowflake_emulator.Identity.Hierarchy.{IsAcyclic, IsAcyclic-part, add_role_grant-IsAcyclic}
use snowflake_emulator.Identity.Integrity.{IsRole, IsSound}
use snowflake_emulator.Identity.Integrity.Rows.{or_false, and_true, has_role-IsRole, kept, still}
use snowflake_emulator.Identity.Integrity.Users.{Keeps}

-- Both ends of a grant are roles.
abbrev HasEnds : List RoleRecord → RoleGrantRecord → Type 0
HasEnds roles g = IsRole g.child_role_id roles × IsRole g.parent_role_id roles

add_role_grant-ends :
    (now : ℕ) (child parent : Text) (gs : List RoleGrantRecord) (roles : List RoleRecord)
    → ((g : RoleGrantRecord) → Has g gs → HasEnds roles g)
    → IsRole child roles
    → IsRole parent roles
    → (g : RoleGrantRecord) → Has g (add_role_grant now child parent gs)
    → HasEnds roles g
unfolding add_role_grant
add_role_grant-ends now child parent gs roles ends c p g m =
    elim (Bool-cases
      (any (λ (h : RoleGrantRecord). h.child_role_id == child && h.parent_role_id == parent) gs)) [
        | inl there ↦ ends g (rw there at m)
        | inr absent ↦ elim (Has-append_cases g gs _ (rw absent at m)) [
          | inl old ↦ ends g old
          | inr (inl e) ↦ subst (HasEnds roles) e (c, p)
          | inr (inr nowhere) ↦ absurd nowhere
        ]
      ]

-- Other grants between roles in a sound catalog.
regranted-IsSound :
    (t : Catalog) (gs : List RoleGrantRecord)
    → IsSound t
    → IsAcyclic gs
    → ((g : RoleGrantRecord) → Has g gs → HasEnds t.roles g)
    → IsSound (record t { role_grants = gs })
regranted-IsSound t gs s free ends = record {
  acyclic = free;
  ends = ends;
  granted = s.granted;
  defaults = s.defaults;
  unique_users = s.unique_users;
  unique_roles = s.unique_roles;
}

pub grant_role_to_role_record-Keeps :
    (up : Bool) (now : ℕ) (child parent : Text) (t : Catalog)
    → IsSound t
    → Keeps (grant_role_to_role_record up now child parent t)
unfolding grant_role_to_role_record
grant_role_to_role_record-Keeps up now child parent t s =
    if_intro Keeps up
      (λ _.
        if_intro Keeps (child == parent) (λ _. tt)
          (λ differ. elim (Bool-cases (has_role child t && has_role parent t)) [
            | inr missing ↦ rw missing tt
            | inl both ↦ rw both (
                if_intro Keeps (contains (ancestors t.role_grants parent) child) (λ _. tt)
                  (λ safe.
                    let (c, p) = and_true (has_role child t) (has_role parent t) both in
                    regranted-IsSound t _ s
                      (add_role_grant-IsAcyclic now child parent t.role_grants differ safe
                        s.acyclic)
                      (add_role_grant-ends now child parent t.role_grants t.roles s.ends
                        (has_role-IsRole child t c) (has_role-IsRole parent t p))))
          ]))
      (λ _. tt)

pub revoke_role_from_role_record-Keeps :
    (up : Bool) (child parent : Text) (t : Catalog)
    → IsSound t
    → Keeps (revoke_role_from_role_record up child parent t)
unfolding revoke_role_from_role_record
revoke_role_from_role_record-Keeps up child parent t s =
    if_intro Keeps up
      (λ _.
        regranted-IsSound t _ s (IsAcyclic-part _ t.role_grants (λ g m. old g m) s.acyclic)
          (λ g m. s.ends g (old g m)))
      (λ _. tt)
  where
    old :
        (g : RoleGrantRecord)
        → Has g (
            keep
              (λ (h : RoleGrantRecord).
                not (h.child_role_id == child && h.parent_role_id == parent))
              t.role_grants)
        → Has g t.role_grants
    old g m =
        (kept (λ (h : RoleGrantRecord). h.child_role_id == child && h.parent_role_id == parent) g
          t.role_grants m).0

-- A test that no row passes.
pub passes_none :
    {A : Type 0} (p : A → Bool) (a : A) (xs : List A) → any p xs ≡ false → Has a xs → p a ≡ false
passes_none p a xs free m = elim (Bool-cases (p a)) [
  | inl e ↦ absurd (cc (free, Has-any p a xs m e))
  | inr e ↦ e
]

module _ (id : Text) (t : Catalog) where
  abbrev other_roles : List RoleRecord
  other_roles = keep (λ (r : RoleRecord). not (r.id == id)) t.roles

  other-IsRole : (key : Text) → IsRole key t.roles → (key == id) ≡ false → IsRole key other_roles
  other-IsRole key (r, m, e) differ =
      (r, still (λ (q : RoleRecord). q.id == id) r t.roles m (rw e differ), e)

  -- A role without references is at no end of a grant.
  free_of :
      is_referenced id t ≡ false
      → ((g : UserGrant) → Has g t.user_grants → (g.role_id == id) ≡ false)
        × ((g : RoleGrantRecord)
            → Has g t.role_grants
            → ((g.child_role_id == id) ≡ false) × ((g.parent_role_id == id) ≡ false))
  unfolding is_referenced
  free_of free =
      let (_, rest) =
        or_false (any (λ (u : UserRecord). u.default_role_id == id) t.users)
          (any (λ (g : UserGrant). g.role_id == id) t.user_grants
            || any (λ (g : RoleGrantRecord). g.child_role_id == id || g.parent_role_id == id)
                t.role_grants)
          free in
      let (to_user, to_role) =
        or_false (any (λ (g : UserGrant). g.role_id == id) t.user_grants)
          (any (λ (g : RoleGrantRecord). g.child_role_id == id || g.parent_role_id == id)
            t.role_grants)
          rest in
      (
        λ g m. passes_none (λ (h : UserGrant). h.role_id == id) g t.user_grants to_user m,
        λ g m. or_false (g.child_role_id == id) (g.parent_role_id == id) (
            passes_none (λ (h : RoleGrantRecord). h.child_role_id == id || h.parent_role_id == id) g
              t.role_grants to_role m),
      )

  without_role-IsSound :
      (ws : List WarehousePrivilegeRecord) (os : List ObjectPrivilegeRecord)
      → IsSound t
      → is_referenced id t ≡ false
      → IsSound
          (record t { warehouse_privileges = ws; object_privileges = os; roles = other_roles })
  without_role-IsSound ws os s free =
      let (no_user, no_role) = free_of free in
      record {
        acyclic = s.acyclic;
        ends = λ g m.
            let (c, p) = s.ends g m in
            let (dc, dp) = no_role g m in
            (other-IsRole g.child_role_id c dc, other-IsRole g.parent_role_id p dp);
        granted = λ g m. let (u, r) = s.granted g m in (u, other-IsRole g.role_id r (no_user g m));
        defaults = s.defaults;
        unique_users = s.unique_users;
        unique_roles = λ q r m n e.
            s.unique_roles q r (kept (λ (o : RoleRecord). o.id == id) q t.roles m).0
              (kept (λ (o : RoleRecord). o.id == id) r t.roles n).0 e;
      }

pub delete_role_record-Keeps :
    (up : Bool) (id : Text) (t : Catalog) → IsSound t → Keeps (delete_role_record up id t)
unfolding delete_role_record
delete_role_record-Keeps up id t s =
    if_intro Keeps up
      (λ _. elim (Bool-cases (is_referenced id t)) [
        | inl used ↦ rw used tt
        | inr free ↦
            rw free
              (if_intro Keeps (has_role id t) (λ _. without_role-IsSound id t _ _ s free) (λ _. tt))
      ])
      (λ _. tt)

-- Privileges are beside the users and the roles.
pub with_privileges-IsSound :
    (t : Catalog) (ws : List WarehousePrivilegeRecord) (os : List ObjectPrivilegeRecord)
    → IsSound t
    → IsSound (record t { warehouse_privileges = ws; object_privileges = os })
with_privileges-IsSound t ws os s = record {
  acyclic = s.acyclic;
  ends = s.ends;
  granted = s.granted;
  defaults = s.defaults;
  unique_users = s.unique_users;
  unique_roles = s.unique_roles;
}
