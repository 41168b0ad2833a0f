-- ===== src/Identity/Integrity/Rows.antt =====
-- Lemmas on the rows of tables.
use snowflake_emulator.Base.{
  ◌≡◌, ◌⊎◌, inl, inr, refl, subst, Text, text_eq, text_beq_iff, Bool, true, false, not, ◌&&◌, ◌||◌,
  List, ◌==◌, arith, Bool-cases, if_intro, keep,
}
use snowflake_emulator.Base.Members.{
  Has, any, any-Has, Has-keep, keep-Has, Has-append_left, Has-append_right, Has-append_cases,
}
use snowflake_emulator.Identity.Types.{RoleRecord, UserRecord, UserGrant, Catalog}
use snowflake_emulator.Identity.Repository.{add_user_grant, has_role, has_user}
use snowflake_emulator.Identity.Integrity.{IsRole, IsUser}

pub or_true : (a b : Bool) → (a || b) ≡ true → (a ≡ true) ⊎ (b ≡ true)
or_true a b h = ground arith

pub and_true : (a b : Bool) → (a && b) ≡ true → (a ≡ true) × (b ≡ true)
and_true a b h = ground arith

pub or_false : (a b : Bool) → (a || b) ≡ false → (a ≡ false) × (b ≡ false)
or_false a b h = ground arith

pub false_of_not : (a : Bool) → not a ≡ true → a ≡ false
false_of_not a h = ground arith

pub has_role-IsRole : (id : Text) (t : Catalog) → has_role id t ≡ true → IsRole id t.roles
has_role-IsRole id t h =
    let (r, m, e) = any-Has (λ (r : RoleRecord). r.id == id) t.roles h in
    (r, m, (text_beq_iff r.id id).0 e)

pub has_user-IsUser : (id : Text) (t : Catalog) → has_user id t ≡ true → IsUser id t.users
has_user-IsUser id t h =
    let (u, m, e) = any-Has (λ (u : UserRecord). u.id == id) t.users h in
    (u, m, (text_beq_iff u.id id).0 e)

-- A grant in the table after an addition is the new one or an old one, and both are there.
pub add_user_grant-cases :
    (user_id role_id : Text) (gs : List UserGrant) (g : UserGrant)
    → Has g (add_user_grant user_id role_id gs)
    → Has g gs ⊎ (record { user_id = user_id; role_id = role_id } ≡ g)
unfolding add_user_grant
add_user_grant-cases user_id role_id gs g m =
    elim (Bool-cases (any (λ (h : UserGrant). h.user_id == user_id && h.role_id == role_id) gs)) [
      | inl there ↦ inl (rw there at m)
      | inr absent ↦ elim (Has-append_cases g gs _ (rw absent at m)) [
        | inl old ↦ inl old
        | inr (inl same) ↦ inr same
        | inr (inr nowhere) ↦ absurd nowhere
      ]
    ]

pub Has-add_user_grant_old :
    (user_id role_id : Text) (gs : List UserGrant) (g : UserGrant)
    → Has g gs
    → Has g (add_user_grant user_id role_id gs)
unfolding add_user_grant
Has-add_user_grant_old user_id role_id gs g m =
    if_intro (Has g) (any (λ (h : UserGrant). h.user_id == user_id && h.role_id == role_id) gs)
      (λ _. m) (λ _. Has-append_left g gs _ m)

pub Has-add_user_grant :
    (user_id role_id : Text) (gs : List UserGrant)
    → Has (record { user_id = user_id; role_id = role_id }) (add_user_grant user_id role_id gs)
unfolding add_user_grant
Has-add_user_grant user_id role_id gs =
    if_intro (Has (record { user_id = user_id; role_id = role_id }))
      (any (λ (h : UserGrant). h.user_id == user_id && h.role_id == role_id) gs)
      (λ there.
        let (g, m, e) =
          any-Has (λ (h : UserGrant). h.user_id == user_id && h.role_id == role_id) gs there in
        let (a, b) = and_true (g.user_id == user_id) (g.role_id == role_id) e in
        subst (λ (h : UserGrant). Has h gs)
          (same g ((text_beq_iff g.user_id user_id).0 a) ((text_beq_iff g.role_id role_id).0 b)) m)
      (λ _. Has-append_right _ gs _ (inl refl))
  where
    same :
        (g : UserGrant)
        → g.user_id ≡ user_id
        → g.role_id ≡ role_id
        → g ≡ record { user_id = user_id; role_id = role_id }
    same g a b = rw (a, b) refl

-- Removal of the rows that pass a test.
pub kept :
    {A : Type 0} (p : A → Bool) (a : A) (xs : List A)
    → Has a (keep (λ x. not (p x)) xs)
    → Has a xs × (p a ≡ false)
kept p a xs m = let (n, e) = keep-Has (λ x. not (p x)) a xs m in (n, false_of_not (p a) e)

pub still :
    {A : Type 0} (p : A → Bool) (a : A) (xs : List A)
    → Has a xs
    → p a ≡ false
    → Has a (keep (λ x. not (p x)) xs)
still p a xs m e = Has-keep (λ x. not (p x)) a xs m (rw e refl)
