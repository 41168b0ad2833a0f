-- ===== src/Identity/Integrity/Start.antt =====
-- The first bootstrap.
use snowflake_emulator.Base.{
  text_beq, ℕ, ◌≡◌, ◌∙◌, ◌<◌, ap, sym, inl, inr, refl, subst, Text, text_eq, text_beq_iff, Bool,
  false, List, [], ◌∷◌, ◌++◌, ◌==◌, arith, Option-cases, if◌then◌else◌, if_intro, Option, none,
  some,
}
use snowflake_emulator.Base.Members.{
  Has, Has-any, Has-append_right, Has-append_cases, find_first, find_first-Has, find_first-any,
}
use snowflake_emulator.Base.Result.{ok}
use snowflake_emulator.Identity.Types.{
  database_failed, hash_failed, UserRecord, RoleRecord, RoleGrantRecord, UserGrant, Catalog, Call,
  role_account_admin, role_security_admin, role_user_admin, role_sys_admin, demo_admin_password,
  demo_admin_user,
}
use snowflake_emulator.Identity.Hierarchy.{IsAcyclic}
use snowflake_emulator.Identity.Repository.{or_error}
use snowflake_emulator.Identity.Repository.Bootstrap.{
  upsert_roles, named, insert_edges, insert_admin, if_no_user, bootstrap_identity,
}
use snowflake_emulator.Identity.Service.{bootstrap, system_roles, system_hierarchy, demo_admin}
use snowflake_emulator.Identity.Integrity.{IsRole, IsSound}
use snowflake_emulator.Identity.Integrity.Users.{Keeps, HasDefault}
use snowflake_emulator.Identity.Integrity.Operations.{then-Keeps}
use snowflake_emulator.Identity.Integrity.System.{
  rank-IsAcyclic, AreUnique, Extends, Gives, upsert_roles-Extends, Joins, insert_edges-all,
}

-- The system roles, from PUBLIC up.
abbrev level : Text → ℕ
level name =
    if name == role_account_admin
    then 4
    else if name == role_security_admin
    then 3
    else if name == role_user_admin
    then 2
    else if name == role_sys_admin
    then 1
    else 0

hierarchy-level : (c p : Text) → Has (c, p) system_hierarchy → level c < level p
unfolding text_beq
hierarchy-level c p (inl e) = subst (λ (x : Text × Text). level x.0 < level x.1) e (omega arith)
hierarchy-level c p (inr (inl e)) =
    subst (λ (x : Text × Text). level x.0 < level x.1) e (omega arith)
hierarchy-level c p (inr (inr (inl e))) =
    subst (λ (x : Text × Text). level x.0 < level x.1) e (omega arith)
hierarchy-level c p (inr (inr (inr (inl e)))) =
    subst (λ (x : Text × Text). level x.0 < level x.1) e (omega arith)
hierarchy-level c p (inr (inr (inr (inr nowhere)))) = absurd nowhere

-- No role is as low as PUBLIC.
abbrev level_of : Option RoleRecord → ℕ
level_of none = 0
level_of (some r) = level r.name

module _ (roles : List RoleRecord) where
  abbrev role_rank : Text → ℕ
  role_rank id = level_of (find_first (λ (r : RoleRecord). r.id == id) roles)

  role_rank-level : (r : RoleRecord) → AreUnique roles → Has r roles → role_rank r.id ≡ level r.name
  role_rank-level r unique m =
      elim (Option-cases (find_first (λ (q : RoleRecord). q.id == r.id) roles)) [
        | inl missing ↦ absurd (
            cc (
              find_first-any (λ (q : RoleRecord). q.id == r.id) roles missing,
              Has-any (λ (q : RoleRecord). q.id == r.id) r roles m
                  ((text_beq_iff r.id r.id).1 refl),
            ))
        | inr (q, found) ↦
            let (n, e) = find_first-Has (λ (q : RoleRecord). q.id == r.id) roles q found in
            rw found (
              ap (λ (o : RoleRecord). level o.name)
                (unique q r n m (inl ((text_beq_iff q.id r.id).0 e))))
      ]

  named-Has :
      (name : Text) (r : RoleRecord) → named roles name ≡ some r → Has r roles × (r.name ≡ name)
  named-Has name r e =
      let (m, q) = find_first-Has (λ (o : RoleRecord). o.name == name) roles r e in
      (m, (text_beq_iff r.name name).0 q)

  ordered :
      (c p : Text) (r q : RoleRecord)
      → Has (c, p) system_hierarchy
      → r.name ≡ c
      → q.name ≡ p
      → role_rank r.id ≡ level r.name
      → role_rank q.id ≡ level q.name
      → role_rank r.id < role_rank q.id
  ordered c p r q m nr nq a b = omega (arith, hierarchy-level c p m, a, b, ap level nr, ap level nq)

  module _ (now : ℕ) (unique : AreUnique roles) where
    abbrev edges : List RoleGrantRecord
    edges = insert_edges now roles system_hierarchy []

    edges-IsAcyclic : IsAcyclic edges
    edges-IsAcyclic = rank-IsAcyclic edges role_rank (
        insert_edges-all now roles
          (λ (g : RoleGrantRecord). role_rank g.child_role_id < role_rank g.parent_role_id)
          system_hierarchy [] down (λ g m. absurd m))
      where
        down :
            (c p : Text)
            → Has (c, p) system_hierarchy
            → (g : RoleGrantRecord) → Joins now roles c p g
            → role_rank g.child_role_id < role_rank g.parent_role_id
        down c p m g (r, q, er, eq, a, b) =
            let (mr, nr) = named-Has c r er in
            let (mq, nq) = named-Has p q eq in
            subst (λ z. role_rank z < role_rank g.parent_role_id) a
              (subst (λ z. role_rank r.id < role_rank z) b
                (ordered c p r q m nr nq (role_rank-level r unique mr)
                  (role_rank-level q unique mq)))

    edges-ends :
        (g : RoleGrantRecord)
        → Has g edges
        → IsRole g.child_role_id roles × IsRole g.parent_role_id roles
    edges-ends =
        insert_edges-all now roles
          (λ (g : RoleGrantRecord). IsRole g.child_role_id roles × IsRole g.parent_role_id roles)
          system_hierarchy []
          (λ c p m g (r, q, er, eq, a, b).
            ((r, (named-Has c r er).0, a), (q, (named-Has p q eq).0, b)))
          (λ g m. absurd m)

-- Known roles with the edges of the hierarchy, and then the first user.
module _ (t : Catalog) (s : IsSound t) where
  seeded-IsSound :
      (now : ℕ) (known : List RoleRecord)
      → Extends t.roles known
      → t.role_grants ≡ []
      → IsSound (record t {
        roles = known;
        role_grants = insert_edges now known system_hierarchy t.role_grants;
      })
  seeded-IsSound now known (unique, held) empty = rw empty (record {
    acyclic = edges-IsAcyclic known now unique;
    ends = edges-ends known now unique;
    granted = λ g m. let (u, r) = s.granted g m in (u, held g.role_id r);
    defaults = s.defaults;
    unique_users = s.unique_users;
    unique_roles = unique;
  })

  insert_admin-Keeps :
      (now : ℕ) (admin : UserRecord) → t.users ≡ [] → Keeps (insert_admin now admin t)
  unfolding insert_admin
  insert_admin-Keeps now admin no_users =
      then-Keeps (or_error database_failed (named t.roles role_account_admin)) _
        (λ role e. with_admin role (found_role role e))
    where
      found_role :
          (role : RoleRecord)
          → or_error database_failed (named t.roles role_account_admin) ≡ ok role
          → Has role t.roles
      found_role role e = elim (Option-cases (named t.roles role_account_admin)) [
        | inl missing ↦ absurd (cc (rw missing at e))
        | inr (r, er) ↦
            (named-Has t.roles role_account_admin role (ground (arith, er, rw er at e))).0
      ]

      with_admin :
          (role : RoleRecord)
          → Has role t.roles
          → IsSound (record t {
            users =
                record admin {
                  default_role_id = role.id;
                  disabled = false;
                  must_change_password = false;
                  created_at = now;
                }
                ∷ [];
            user_grants = t.user_grants ++ record { user_id = admin.id; role_id = role.id } ∷ [];
          })
      with_admin role m = record {
        acyclic = s.acyclic;
        ends = s.ends;
        granted = λ g n. elim (Has-append_cases g t.user_grants _ n) [
          | inl old ↦
              let ((u, mu, _), _) = s.granted g old in absurd (subst (λ us. Has u us) no_users mu)
          | inr (inl e) ↦
              subst
                (λ (h : UserGrant).
                  ((u : UserRecord) × Has u (
                      record admin {
                        default_role_id = role.id;
                        disabled = false;
                        must_change_password = false;
                        created_at = now;
                      }
                      ∷ [])
                    × (u.id ≡ h.user_id))
                  × IsRole h.role_id t.roles)
                e ((_, inl refl, refl), (role, m, refl))
          | inr (inr nowhere) ↦ absurd nowhere
        ];
        defaults = λ u n. elim n [
          | inl e ↦
              subst
                (λ (v : UserRecord).
                  HasDefault
                    (t.user_grants ++ record { user_id = admin.id; role_id = role.id } ∷ []) v.id
                    v.default_role_id)
                e (inr (Has-append_right _ t.user_grants _ (inl refl)))
          | inr nowhere ↦ absurd nowhere
        ];
        unique_users = λ u v n k _. only u v n k;
        unique_roles = s.unique_roles;
      }
        where
          only : {a : UserRecord} (u v : UserRecord) → Has u (a ∷ []) → Has v (a ∷ []) → u ≡ v
          only u v (inl e) (inl f) = sym e ∙ f
          only u v (inr nowhere) _ = absurd nowhere
          only u v _ (inr nowhere) = absurd nowhere

  if_no_user-Keeps :
      (now : ℕ) (admin : UserRecord) (us : List UserRecord)
      → t.users ≡ us
      → Keeps (if_no_user now admin t us)
  unfolding if_no_user
  if_no_user-Keeps now admin [] e = insert_admin-Keeps now admin e
  if_no_user-Keeps now admin (u ∷ us) e = s

bootstrap_identity-Keeps :
    (up : Bool) (now : ℕ) (news : List RoleRecord) (admin : UserRecord) (t : Catalog)
    → IsSound t
    → t.role_grants ≡ []
    → Keeps (bootstrap_identity up now news system_hierarchy admin t)
unfolding bootstrap_identity
bootstrap_identity-Keeps up now news admin t s empty =
    if_intro Keeps up
      (λ _. then-Keeps (upsert_roles now news t.roles) _ (λ known e.
        if_no_user-Keeps _
          (seeded-IsSound t s now known
            (subst (Gives (Extends t.roles)) e
              (upsert_roles-Extends now news t.roles s.unique_roles))
            empty)
          now admin t.users refl))
      (λ _. tt)

-- The first `Bootstrap`, on a sound catalog without grants between roles, leaves a sound catalog
-- if it succeeds.
pub bootstrap-IsSound :
    (uuid : Text → Text) (c : Call) (t : Catalog)
    → IsSound t
    → t.role_grants ≡ []
    → Keeps (bootstrap uuid c t)
unfolding bootstrap
bootstrap-IsSound uuid c t s empty =
    then-Keeps (or_error hash_failed (c.hash demo_admin_password)) _ (λ hash _.
      bootstrap_identity-Keeps (c.up 0) c.now (system_roles uuid)
        (demo_admin (uuid demo_admin_user) hash) t s empty)
