-- ===== src/Identity/Login.antt =====
-- Passwords that were set, and authentication.
use snowflake_emulator.Base.{
  ◌≡◌, ◌∙◌, ap, inl, inr, refl, Text, text_eq, text_beq_iff, text_leb, Bool, true, false, not, ◌&&◌,
  List, [], ◌∷◌, map, ◌==◌, arith, Bool-cases, Option-cases, some,
}
use snowflake_emulator.Base.Members.{Has-any, find_first, find_first-Has, sort_by-Has}
use snowflake_emulator.Base.Sort.{sort_by}
use snowflake_emulator.Base.Result.{ok}
use snowflake_emulator.Identity.Types.{UserRecord, RoleRecord, Catalog, Principal, Call}
use snowflake_emulator.Identity.Repository.{
  normalize_identity_name, get_user_record_by_name, list_role_records, has_role, update_user,
  update_user_record,
}
use snowflake_emulator.Identity.Integrity.Operations.{get_user-Has}
use snowflake_emulator.Identity.Roles.Active.{ok-same}
use snowflake_emulator.Identity.Service.{role_by_id, set_password, authenticate}

find_first-map :
    {A : Type 0} (p : A → Bool) (f : A → A) (xs : List A) (a : A)
    → ((x : A) → p (f x) ≡ p x)
    → find_first p xs ≡ some a
    → find_first p (map f xs) ≡ some (f a)
unfolding find_first
find_first-map p f [] a same h = cc
find_first-map p f (x ∷ xs) a same h = elim (Bool-cases (p x)) [
  | inl passes ↦ rw (same x, passes) (ground (arith, passes, h))
  | inr fails ↦ rw (same x, fails) (find_first-map p f xs a same (rw fails at h))
]

abbrev pub principal : UserRecord → RoleRecord → Principal
principal u role = record {
  user_id = u.id;
  username = u.name;
  default_role_id = role.id;
  default_role = role.name;
}

abbrev with_hash : Text → UserRecord → Catalog → Catalog
with_hash hash u t = record t {
  users = map (update_user (record u { password_hash = hash })) t.users;
}

role_by_id-has :
    (id : Text) (role : RoleRecord) (t : Catalog)
    → role_by_id true id t ≡ ok role
    → has_role id t ≡ true
unfolding role_by_id list_role_records
role_by_id-has id role t h =
    elim (Option-cases (
      find_first (λ (r : RoleRecord). r.id == id)
        (sort_by (λ (a : RoleRecord) (b : RoleRecord). text_leb a.name b.name) t.roles))) [
          | inl missing ↦ absurd (cc (rw missing at h))
          | inr (r, found) ↦
              let (m, e) = find_first-Has (λ (q : RoleRecord). q.id == id) _ r found in
              Has-any (λ (q : RoleRecord). q.id == id) r t.roles (sort_by-Has _ r t.roles m) e
        ]

with_hash-role :
    (hash id : Text) (u : UserRecord) (role : RoleRecord) (t : Catalog)
    → role_by_id true id t ≡ ok role
    → role_by_id true id (with_hash hash u t) ≡ ok role
unfolding role_by_id list_role_records
with_hash-role hash id u role t h = h

update_user-name : (new u : UserRecord) → (update_user new u).name ≡ u.name
update_user-name new u = ground arith

update_user_self :
    (hash : Text) (u : UserRecord)
    → update_user (record u { password_hash = hash }) u ≡ record u { password_hash = hash }
update_user_self hash u = rw ((text_beq_iff u.id u.id).1 refl) refl

and_no : (b : Bool) → (b && false) ≡ false
and_no b = ground arith

-- The user's row after the change.
with_hash-user :
    (up : Bool) (hash name : Text) (u : UserRecord) (t : Catalog)
    → get_user_record_by_name up name t ≡ ok u
    → get_user_record_by_name true name (with_hash hash u t)
      ≡ ok (record u { password_hash = hash })
unfolding get_user_record_by_name
with_hash-user false hash name u t h = absurd (cc h)
with_hash-user true hash name u t h =
    elim (Option-cases
      (find_first (λ (v : UserRecord). v.name == normalize_identity_name name) t.users)) [
        | inl missing ↦ absurd (cc (rw missing at h))
        | inr (v, found) ↦
            rw
              (find_first-map (λ (v : UserRecord). v.name == normalize_identity_name name)
                (update_user (record u { password_hash = hash })) t.users v
                (λ x.
                  ap (λ n. n == normalize_identity_name name)
                    (update_user-name (record u { password_hash = hash }) x))
                found)
              (ap ok (
                ap (update_user (record u { password_hash = hash }))
                  (ok-same _ v u (rw found refl) h)
                ∙ update_user_self hash u))
      ]

-- A password that was set is accepted: for a user who is not disabled and whose default role exists,
-- with a database that answers and a bcrypt that gave a hash it recognizes, SetPassword succeeds, and
-- then Authenticate with the same name and password gives the user with that role.
pub authenticate-set_password :
    (compare : Text → Text → Bool) (c later : Call) (name password hash : Text) (u : UserRecord)
    (role : RoleRecord) (t : Catalog)
    → c.hash password ≡ some hash
    → compare hash password ≡ true
    → c.up 1 ≡ true
    → later.up 0 ≡ true
    → later.up 1 ≡ true
    → get_user_record_by_name (c.up 0) name t ≡ ok u
    → u.disabled ≡ false
    → role_by_id true u.default_role_id t ≡ ok role
    → (t' : Catalog) × (set_password c name password t ≡ ok t')
      × (authenticate compare later name password t' ≡ ok (principal u role))
unfolding set_password authenticate update_user_record
authenticate-set_password compare c later name password hash u role t eh ec up1 up2 up3 eu enabled
      er =
    (
      with_hash hash u t,
      rw
          (
            eu,
            eh,
            up1,
            role_by_id-has u.default_role_id role t er,
            Has-any (λ (v : UserRecord). v.id == u.id) u t.users (get_user-Has (c.up 0) name t u eu)
                ((text_beq_iff u.id u.id).1 refl),
          )
          (rw (and_no (not (u.default_role_id == []))) refl),
      rw
          (
            up2,
            up3,
            with_hash-user (c.up 0) hash name u t eu,
            enabled,
            ec,
            with_hash-role hash u.default_role_id u role t er,
          )
          refl,
    )
