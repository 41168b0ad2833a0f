-- ===== src/Identity/Hierarchy/Refusal.antt =====
-- When a grant between roles is refused as a cycle.
use snowflake_emulator.Base.{
  ℕ, ◌≡◌, ◌↔◌, sym, refl, subst, Text, text_eq, text_beq_iff, true, List, ◌==◌, contains,
  Bool-cases, inl, inr, map,
}
use snowflake_emulator.Base.Members.{Has, map-Has, keep-Has}
use snowflake_emulator.Base.Result.{err}
use snowflake_emulator.Identity.Types.{identity_cycle, RoleGrantRecord, Catalog}
use snowflake_emulator.Identity.Search.Reach.{Inherits, itself, further}
use snowflake_emulator.Identity.Search.Exact.{visit_all_iff}
use snowflake_emulator.Identity.Repository.{
  has_role, flip, parents, ancestors, grant_role_to_role_record,
}
use snowflake_emulator.Identity.Hierarchy.{Inherits-flip, Inherits-part, not_above}

flip_twice :
    (gs : List RoleGrantRecord) (g : RoleGrantRecord) → Has g (map flip (map flip gs)) → Has g gs
flip_twice gs g m =
    let (h, n, e) = map-Has flip g (map flip gs) m in
    let (k, o, f) = map-Has flip h gs n in
    subst (λ (x : RoleGrantRecord). Has x gs)
      (subst (λ (x : RoleGrantRecord). flip x ≡ g) (sym f) e) o

-- An ancestor of a role inherits it.
above :
    (gs : List RoleGrantRecord) (child parent : Text)
    → contains (ancestors gs parent) child ≡ true
    → Inherits gs child parent
unfolding ancestors
above gs child parent h =
    let (s, m, i) = (visit_all_iff (map flip gs) (parents gs parent) child).0 h in
    let (g, n, e) = map-Has (λ (x : RoleGrantRecord). x.parent_role_id) s _ m in
    let (o, f) = keep-Has (λ (x : RoleGrantRecord). x.child_role_id == parent) g gs n in
    further (Inherits-part (flip_twice gs) (Inherits-flip i))
      (g, o, e, (text_beq_iff g.child_role_id parent).0 f)

-- A grant of a role that exists to another that exists is refused as a cycle exactly when the role
-- granted already inherits the grantee, or is the grantee itself.
pub grant_role_to_role_record-cycle :
    (now : ℕ) (child parent : Text) (t : Catalog)
    → has_role child t ≡ true
    → has_role parent t ≡ true
    → (grant_role_to_role_record true now child parent t ≡ err identity_cycle)
      ↔ Inherits t.role_grants child parent
unfolding grant_role_to_role_record
grant_role_to_role_record-cycle now child parent t has_child has_parent =
    elim (Bool-cases (child == parent)) [
      | inl same ↦ (
        λ _. subst (Inherits t.role_grants child) ((text_beq_iff child parent).0 same) itself,
        λ _. rw same refl,
      )
      | inr differ ↦ elim (Bool-cases (contains (ancestors t.role_grants parent) child)) [
        | inl found ↦ (
          λ _. above t.role_grants child parent found,
          λ _. rw (differ, has_child, has_parent, found) refl,
        )
        | inr none_found ↦ (
          λ h. absurd (cc (rw (differ, has_child, has_parent, none_found) at h)),
          λ i. absurd (not_above t.role_grants child parent differ none_found i),
        )
      ]
    ]
