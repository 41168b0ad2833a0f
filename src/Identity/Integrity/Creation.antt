-- ===== src/Identity/Integrity/Creation.antt =====
-- Creation of users and of roles.
use snowflake_emulator.Base.{
  ℕ, ◌≡◌, inl, inr, refl, subst, Text, text_eq, Bool, false, not, ◌&&◌, ◌||◌, [], ◌∷◌, ◌++◌, ◌==◌,
  Bool-cases, if_intro,
}
use snowflake_emulator.Base.Members.{any, Has-append_left, Has-append_right, Has-append_cases}
use snowflake_emulator.Identity.Types.{RoleRecord, UserRecord, UserGrant, Catalog}
use snowflake_emulator.Identity.Repository.{
  normalize_identity_name, has_role, insert_user, insert_user_grant, or_new,
  create_user_with_role_record, create_role_record, then_insert_grant,
}
use snowflake_emulator.Identity.Integrity.{IsRole, IsUser, IsSound}
use snowflake_emulator.Identity.Integrity.Unique.{append_unique}
use snowflake_emulator.Identity.Integrity.Rows.{or_false, has_role-IsRole}
use snowflake_emulator.Identity.Integrity.Users.{Keeps, HasDefault}

module _ (u : UserRecord) (t : Catalog) where
  abbrev new_grant : UserGrant
  new_grant = record { user_id = u.id; role_id = u.default_role_id }

  abbrev with_user : Catalog
  with_user = record t { users = t.users ++ u ∷ []; user_grants = t.user_grants ++ new_grant ∷ [] }

  with_user-IsSound :
      IsSound t
      → any (λ (r : UserRecord). r.id == u.id || r.name == u.name) t.users ≡ false
      → IsRole u.default_role_id t.roles
      → IsSound with_user
  with_user-IsSound s fresh role = record {
    acyclic = s.acyclic;
    ends = s.ends;
    granted = λ g m. elim (Has-append_cases g t.user_grants (new_grant ∷ []) m) [
      | inl old ↦
          let ((v, mv, e), r) = s.granted g old in
          ((v, Has-append_left v t.users (u ∷ []) mv, e), r)
      | inr (inl e) ↦
          subst (λ (h : UserGrant). IsUser h.user_id with_user.users × IsRole h.role_id t.roles) e
            ((u, Has-append_right u t.users (u ∷ []) (inl refl), refl), role)
      | inr (inr nowhere) ↦ absurd nowhere
    ];
    defaults = λ v m. elim (Has-append_cases v t.users (u ∷ []) m) [
      | inl old ↦ elim (s.defaults v old) [
        | inl empty ↦ inl empty
        | inr given ↦ inr (Has-append_left _ t.user_grants (new_grant ∷ []) given)
      ]
      | inr (inl e) ↦
          subst (λ (w : UserRecord). HasDefault with_user.user_grants w.id w.default_role_id) e
            (inr (Has-append_right new_grant t.user_grants (new_grant ∷ []) (inl refl)))
      | inr (inr nowhere) ↦ absurd nowhere
    ];
    unique_users =
        append_unique (λ (v : UserRecord). v.id) (λ (v : UserRecord). v.name) t.users u
          s.unique_users fresh;
    unique_roles = s.unique_roles;
  }

inserted-Keeps :
    (now : ℕ) (u : UserRecord) (t : Catalog)
    → IsSound t
    → IsRole u.default_role_id t.roles
    → Keeps (then_insert_grant u.id u.default_role_id (insert_user now u t))
unfolding insert_user insert_user_grant
inserted-Keeps now u t s role =
    elim (Bool-cases (any (λ (r : UserRecord). r.id == u.id || r.name == u.name) t.users)) [
      | inl clash ↦ rw clash tt
      | inr fresh ↦ rw fresh (
          if_intro Keeps
            (any (λ (g : UserGrant). g.user_id == u.id && g.role_id == u.default_role_id)
              t.user_grants)
            (λ _. tt) (λ _. with_user-IsSound (record u { created_at = now }) t s fresh role))
    ]

pub create_user_with_role_record-Keeps :
    (up : Bool) (now : ℕ) (fresh : Text) (user : UserRecord) (t : Catalog)
    → IsSound t
    → Keeps (create_user_with_role_record up now fresh user t)
unfolding create_user_with_role_record
create_user_with_role_record-Keeps up now fresh user t s =
    if_intro Keeps
      (normalize_identity_name user.name == []
        || (user.password_hash == [] || user.default_role_id == []))
      (λ _. tt)
      (λ _.
        if_intro Keeps up
          (λ _.
            if_intro Keeps (has_role user.default_role_id t)
              (λ role.
                inserted-Keeps now
                  (record user {
                    name = normalize_identity_name user.name;
                    id = or_new user.id fresh;
                  })
                  t s (has_role-IsRole user.default_role_id t role))
              (λ _. tt))
          (λ _. tt))

with_role-IsSound :
    (r : RoleRecord) (t : Catalog)
    → IsSound t
    → any (λ (q : RoleRecord). q.id == r.id || q.name == r.name) t.roles ≡ false
    → IsSound (record t { roles = t.roles ++ r ∷ [] })
with_role-IsSound r t s fresh = record {
  acyclic = s.acyclic;
  ends = λ g m.
      let (c, p) = s.ends g m in (still_role g.child_role_id c, still_role g.parent_role_id p);
  granted = λ g m. let (u, q) = s.granted g m in (u, still_role g.role_id q);
  defaults = s.defaults;
  unique_users = s.unique_users;
  unique_roles =
      append_unique (λ (q : RoleRecord). q.id) (λ (q : RoleRecord). q.name) t.roles r s.unique_roles
        fresh;
}
  where
    still_role : (id : Text) → IsRole id t.roles → IsRole id (t.roles ++ r ∷ [])
    still_role id (q, m, e) = (q, Has-append_left q t.roles (r ∷ []) m, e)

pub create_role_record-IsSound :
    (up up_again : Bool) (now : ℕ) (id name comment : Text) (system : Bool) (t : Catalog)
    → IsSound t
    → IsSound (create_role_record up up_again now id name comment system t).0
unfolding create_role_record
create_role_record-IsSound up up_again now id name comment system t s =
    elim (Bool-cases (normalize_identity_name name == [])) [
      | inl empty ↦ rw empty s
      | inr named ↦
          elim (Bool-cases (
            not up
            || any (λ (r : RoleRecord). r.id == id || r.name == normalize_identity_name name)
                t.roles)) [
                  | inl refused ↦ rw (named, refused) s
                  | inr fresh ↦
                      rw (named, fresh) (with_role-IsSound _ t s (or_false (not up) _ fresh).1)
                ]
    ]
