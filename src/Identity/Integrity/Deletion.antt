-- ===== src/Identity/Integrity/Deletion.antt =====
-- Addition and deletion of users, and withdrawal of their grants.
use snowflake_emulator.Base.{
  ◌≡◌, sym, inl, inr, refl, subst, Text, text_eq, text_beq_iff, Bool, false, not, ◌&&◌, ◌==◌,
  Bool-cases, Option-cases, if_intro, keep,
}
use snowflake_emulator.Base.Members.{Has, find_first, find_first-Has}
use snowflake_emulator.Identity.Types.{UserRecord, UserGrant, Catalog}
use snowflake_emulator.Identity.Repository.{
  has_user, delete_user_record, revoke_from, revoke_role_from_user_record,
}
use snowflake_emulator.Identity.Integrity.{IsSound}
use snowflake_emulator.Identity.Integrity.Rows.{kept, still}
use snowflake_emulator.Identity.Integrity.Users.{Keeps}

-- Two texts differ if the test says so.
differs : (a b : Text) → (a == b) ≡ false → ¬ (a ≡ b)
differs a b no_test e = cc (no_test, (text_beq_iff a b).1 e)

same_text : (a b : Text) → ¬ (a ≡ b) → (a == b) ≡ false
same_text a b apart = elim (Bool-cases (a == b)) [
  | inl e ↦ absurd (apart ((text_beq_iff a b).0 e))
  | inr e ↦ e
]

module _ (id : Text) (t : Catalog) where
  abbrev without_user : Catalog
  without_user = record t {
    user_grants = keep (λ (g : UserGrant). not (g.user_id == id)) t.user_grants;
    users = keep (λ (u : UserRecord). not (u.id == id)) t.users;
  }

  without_user-IsSound : IsSound t → IsSound without_user
  without_user-IsSound s = record {
    acyclic = s.acyclic;
    ends = s.ends;
    granted = λ g m.
        let (n, e) = kept (λ (h : UserGrant). h.user_id == id) g t.user_grants m in
        let ((u, mu, eu), role) = s.granted g n in
        ((u, still (λ (v : UserRecord). v.id == id) u t.users mu (rw eu e), eu), role);
    defaults = λ u m.
        let (n, e) = kept (λ (v : UserRecord). v.id == id) u t.users m in
        elim (s.defaults u n) [
          | inl empty ↦ inl empty
          | inr given ↦ inr (still (λ (h : UserGrant). h.user_id == id) _ t.user_grants given e)
        ];
    unique_users = λ u v m n e.
        s.unique_users u v (kept (λ (w : UserRecord). w.id == id) u t.users m).0
          (kept (λ (w : UserRecord). w.id == id) v t.users n).0 e;
    unique_roles = s.unique_roles;
  }

pub delete_user_record-Keeps :
    (up : Bool) (id : Text) (t : Catalog) → IsSound t → Keeps (delete_user_record up id t)
unfolding delete_user_record
delete_user_record-Keeps up id t s =
    if_intro Keeps up
      (λ _. if_intro Keeps (has_user id t) (λ _. without_user-IsSound id t s) (λ _. tt)) (λ _. tt)

module _ (u : UserRecord) (role_id : Text) (t : Catalog) where
  abbrev is_withdrawn : UserGrant → Bool
  is_withdrawn g = g.user_id == u.id && g.role_id == role_id

  -- The grant of a default role is not the one withdrawn.
  withdrawn_default :
      IsSound t
      → Has u t.users
      → (u.default_role_id == role_id) ≡ false
      → (v : UserRecord) → Has v t.users
      → is_withdrawn (record { user_id = v.id; role_id = v.default_role_id }) ≡ false
  withdrawn_default s mu differ v mv = elim (Bool-cases (v.id == u.id)) [
    | inl e ↦
        rw
          (
            e,
            subst (λ (w : UserRecord). (w.default_role_id == role_id) ≡ false)
                (s.unique_users u v mu mv (inl (sym ((text_beq_iff v.id u.id).0 e)))) differ,
          )
          refl
    | inr e ↦ rw e refl
  ]

  revoked-IsSound :
      IsSound t
      → Has u t.users
      → (u.default_role_id == role_id) ≡ false
      → IsSound (record t { user_grants = keep (λ g. not (is_withdrawn g)) t.user_grants })
  revoked-IsSound s mu differ = record {
    acyclic = s.acyclic;
    ends = s.ends;
    granted = λ g m. s.granted g (kept is_withdrawn g t.user_grants m).0;
    defaults = λ v m. elim (s.defaults v m) [
      | inl empty ↦ inl empty
      | inr given ↦
          inr (still is_withdrawn _ t.user_grants given (withdrawn_default s mu differ v m))
    ];
    unique_users = s.unique_users;
    unique_roles = s.unique_roles;
  }

pub revoke_role_from_user_record-Keeps :
    (up : Bool) (user_id role_id : Text) (t : Catalog)
    → IsSound t
    → Keeps (revoke_role_from_user_record up user_id role_id t)
unfolding revoke_role_from_user_record revoke_from
revoke_role_from_user_record-Keeps up user_id role_id t s =
    if_intro Keeps up
      (λ _. elim (Option-cases (find_first (λ (u : UserRecord). u.id == user_id) t.users)) [
        | inl none_found ↦ rw none_found tt
        | inr (u, found) ↦ rw found (
            if_intro Keeps (u.default_role_id == role_id) (λ _. tt)
              (λ differ.
                revoked-IsSound u role_id t s
                  (find_first-Has (λ (v : UserRecord). v.id == user_id) t.users u found).0 differ))
      ])
      (λ _. tt)
