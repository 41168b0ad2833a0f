-- ===== src/Identity/Integrity/Users.antt =====
-- Changes of users and of their grants.
use snowflake_emulator.Base.{
  ◌≡◌, ◌⊎◌, ◌∙◌, sym, inl, inr, subst, Text, text_eq, text_beq_iff, Bool, not, ◌&&◌, List, [], ◌==◌,
  arith, Bool-cases, if_intro, map,
}
use snowflake_emulator.Base.Members.{Has, Has-map, map-Has}
use snowflake_emulator.Base.Result.{Result, ok, err}
use snowflake_emulator.Identity.Types.{Error, UserRecord, UserGrant, Catalog}
use snowflake_emulator.Identity.Repository.{
  has_role, has_user, update_user, update_user_record, add_user_grant,
  update_user_configuration_record, with_default, set_default_user_role_record,
  grant_role_to_user_record,
}
use snowflake_emulator.Identity.Integrity.{IsRole, IsUser, IsSound}
use snowflake_emulator.Identity.Integrity.Unique.{map_unique}
use snowflake_emulator.Identity.Integrity.Rows.{
  and_true, has_role-IsRole, has_user-IsUser, add_user_grant-cases, Has-add_user_grant_old,
  Has-add_user_grant,
}

-- What a transaction leaves, if it commits.
abbrev pub Keeps : Result Error Catalog → Type 0
Keeps (ok t) = IsSound t
Keeps (err e) = Unit

abbrev pub HasDefault : List UserGrant → Text → Text → Type 0
HasDefault gs user_id role_id =
    (role_id ≡ []) ⊎ Has (record { user_id = user_id; role_id = role_id }) gs

-- A change of users that keeps ids and names.
updated-IsSound :
    (t : Catalog) (f : UserRecord → UserRecord) (gs : List UserGrant)
    → IsSound t
    → ((u : UserRecord) → ((f u).id ≡ u.id) × ((f u).name ≡ u.name))
    → ((g : UserGrant) → Has g gs → IsUser g.user_id t.users × IsRole g.role_id t.roles)
    → ((u : UserRecord) → Has u t.users → HasDefault gs (f u).id (f u).default_role_id)
    → IsSound (record t { user_grants = gs; users = map f t.users })
updated-IsSound t f gs s same granted defaults = record {
  acyclic = s.acyclic;
  ends = s.ends;
  granted = λ g m.
      let ((u, n, e), role) = granted g m in ((f u, Has-map f u t.users n, (same u).0 ∙ e), role);
  defaults = λ v m.
      let (u, n, e) = map-Has f v t.users m in
      subst (λ (w : UserRecord). HasDefault gs w.id w.default_role_id) e (defaults u n);
  unique_users =
      map_unique (λ (u : UserRecord). u.id) (λ (u : UserRecord). u.name) f t.users same
        s.unique_users;
  unique_roles = s.unique_roles;
}

update_user-same :
    (new u : UserRecord) → ((update_user new u).id ≡ u.id) × ((update_user new u).name ≡ u.name)
update_user-same new u = ground arith

update_user-default :
    (gs : List UserGrant) (new u : UserRecord)
    → HasDefault gs new.id new.default_role_id
    → HasDefault gs u.id u.default_role_id
    → HasDefault gs (update_user new u).id (update_user new u).default_role_id
update_user-default gs new u fresh old =
    if_intro (λ (v : UserRecord). HasDefault gs v.id v.default_role_id) (u.id == new.id)
      (λ e.
        subst (λ i. HasDefault gs i new.default_role_id) (sym ((text_beq_iff u.id new.id).0 e))
          fresh)
      (λ _. old)

pub update_user_record-Keeps :
    (up : Bool) (new : UserRecord) (t : Catalog)
    → IsSound t
    → HasDefault t.user_grants new.id new.default_role_id
    → Keeps (update_user_record up new t)
unfolding update_user_record
update_user_record-Keeps up new t s fresh =
    if_intro Keeps up
      (λ _.
        if_intro Keeps (not (new.default_role_id == []) && not (has_role new.default_role_id t))
          (λ _. tt)
          λ _.
            if_intro Keeps (has_user new.id t)
              (λ _.
                updated-IsSound t (update_user new) t.user_grants s (update_user-same new) s.granted
                  (λ u m. update_user-default t.user_grants new u fresh (s.defaults u m)))
              (λ _. tt))
      (λ _. tt)

-- A grant for a user and a role that exist.
pub added_granted :
    (t : Catalog) (user_id role_id : Text)
    → IsSound t
    → IsUser user_id t.users
    → IsRole role_id t.roles
    → (g : UserGrant) → Has g (add_user_grant user_id role_id t.user_grants)
    → IsUser g.user_id t.users × IsRole g.role_id t.roles
added_granted t user_id role_id s user role g m =
    elim (add_user_grant-cases user_id role_id t.user_grants g m) [
      | inl old ↦ s.granted g old
      | inr new ↦
          subst (λ (h : UserGrant). IsUser h.user_id t.users × IsRole h.role_id t.roles) new
            (user, role)
    ]

pub old_default :
    (user_id role_id : Text) (gs : List UserGrant) (id default : Text)
    → HasDefault gs id default
    → HasDefault (add_user_grant user_id role_id gs) id default
old_default user_id role_id gs id default (inl e) = inl e
old_default user_id role_id gs id default (inr m) =
    inr (Has-add_user_grant_old user_id role_id gs _ m)

pub update_user_configuration_record-Keeps :
    (up : Bool) (new : UserRecord) (t : Catalog)
    → IsSound t
    → Keeps (update_user_configuration_record up new t)
unfolding update_user_configuration_record
update_user_configuration_record-Keeps up new t s =
    if_intro Keeps up
      (λ _.
        if_intro Keeps (has_role new.default_role_id t)
          (λ role.
            if_intro Keeps (has_user new.id t)
              (λ user.
                updated-IsSound t (update_user new)
                  (add_user_grant new.id new.default_role_id t.user_grants) s (update_user-same new)
                  (added_granted t new.id new.default_role_id s (has_user-IsUser new.id t user)
                    (has_role-IsRole new.default_role_id t role))
                  (λ u m.
                    update_user-default _ new u
                      (inr (Has-add_user_grant new.id new.default_role_id _))
                      (old_default new.id new.default_role_id t.user_grants u.id u.default_role_id
                        (s.defaults u m))))
              (λ _. tt))
          (λ _. tt))
      (λ _. tt)

with_default-same :
    (user_id role_id : Text) (u : UserRecord)
    → ((with_default user_id role_id u).id ≡ u.id)
      × ((with_default user_id role_id u).name ≡ u.name)
with_default-same user_id role_id u = ground arith

with_default-default :
    (gs : List UserGrant) (user_id role_id : Text) (u : UserRecord)
    → Has (record { user_id = user_id; role_id = role_id }) gs
    → HasDefault gs u.id u.default_role_id
    → HasDefault gs
        (with_default user_id role_id u).id
        (with_default user_id role_id u).default_role_id
with_default-default gs user_id role_id u fresh old =
    if_intro (λ (v : UserRecord). HasDefault gs v.id v.default_role_id) (u.id == user_id)
      (λ e.
        subst (λ i. HasDefault gs i role_id) (sym ((text_beq_iff u.id user_id).0 e)) (inr fresh))
      (λ _. old)

pub set_default_user_role_record-Keeps :
    (up : Bool) (user_id role_id : Text) (t : Catalog)
    → IsSound t
    → Keeps (set_default_user_role_record up user_id role_id t)
unfolding set_default_user_role_record
set_default_user_role_record-Keeps up user_id role_id t s =
    if_intro Keeps up
      (λ _. elim (Bool-cases (has_role role_id t)) [
        | inr absent ↦ rw absent tt
        | inl role ↦ rw role (
            if_intro Keeps (has_user user_id t)
              (λ user.
                updated-IsSound t (with_default user_id role_id)
                  (add_user_grant user_id role_id t.user_grants) s
                  (with_default-same user_id role_id)
                  (added_granted t user_id role_id s (has_user-IsUser user_id t user)
                    (has_role-IsRole role_id t role))
                  (λ u m.
                    with_default-default _ user_id role_id u (Has-add_user_grant user_id role_id _)
                      (old_default user_id role_id t.user_grants u.id u.default_role_id
                        (s.defaults u m))))
              (λ _. tt))
      ])
      (λ _. tt)

pub grant_role_to_user_record-Keeps :
    (up : Bool) (user_id role_id : Text) (t : Catalog)
    → IsSound t
    → Keeps (grant_role_to_user_record up user_id role_id t)
unfolding grant_role_to_user_record
grant_role_to_user_record-Keeps up user_id role_id t s =
    if_intro Keeps up
      (λ _.
        if_intro Keeps (has_user user_id t && has_role role_id t)
          (λ both.
            let (user, role) = and_true (has_user user_id t) (has_role role_id t) both in
            record {
              acyclic = s.acyclic;
              ends = s.ends;
              granted =
                  added_granted t user_id role_id s (has_user-IsUser user_id t user)
                    (has_role-IsRole role_id t role);
              defaults = λ u m.
                  old_default user_id role_id t.user_grants u.id u.default_role_id (s.defaults u m);
              unique_users = s.unique_users;
              unique_roles = s.unique_roles;
            })
          (λ _. tt))
      (λ _. tt)
