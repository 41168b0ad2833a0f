-- ===== src/Identity/Integrity/System.antt =====
-- The catalog that the first bootstrap leaves.
use snowflake_emulator.Base.{
  ℕ, ◌≡◌, ◌⊎◌, ◌∙◌, ◌<◌, ◌≤◌, ap, inl, inr, refl, subst, Text, text_eq, Bool, true, false, ◌&&◌,
  ◌||◌, List, [], ◌∷◌, ◌==◌, arith, Bool-cases, Option-cases, if_intro, map, some,
}
use snowflake_emulator.Base.Members.{Has, any, Has-map, Has-append_left, Has-append_cases}
use snowflake_emulator.Base.Result.{Result, ok, err, ◌>>=◌}
use snowflake_emulator.Identity.Types.{Error, RoleRecord, RoleGrantRecord}
use snowflake_emulator.Identity.Search.Reach.{Inherits, itself, further}
use snowflake_emulator.Identity.Hierarchy.{IsAcyclic}
use snowflake_emulator.Identity.Repository.{add_role_grant}
use snowflake_emulator.Identity.Repository.Bootstrap.{
  made_system, upsert_role, upsert_roles, named, join_edge, insert_edges,
}
use snowflake_emulator.Identity.Integrity.{IsRole}
use snowflake_emulator.Identity.Integrity.Unique.{append_unique, map_unique}
use snowflake_emulator.Identity.Integrity.Rows.{or_false}

-- Grants that go down in rank have no cycle.
module _ (gs : List RoleGrantRecord) (rank : Text → ℕ) where
  Inherits-rank :
      ((g : RoleGrantRecord) → Has g gs → rank g.child_role_id < rank g.parent_role_id)
      → {a b : Text} → Inherits gs a b
      → rank b ≤ rank a
  Inherits-rank down itself = omega arith
  Inherits-rank down (further {a = p} {b = q} i (g, m, e, f)) = omega (
    arith,
    Inherits-rank down i,
    subst (λ z. rank g.child_role_id < rank z) e (down g m),
    ap rank f,
  )

  pub rank-IsAcyclic :
      ((g : RoleGrantRecord) → Has g gs → rank g.child_role_id < rank g.parent_role_id)
      → IsAcyclic gs
  rank-IsAcyclic down x y (g, m, e, f) i =
      omega (arith, Inherits-rank down i, down g m, ap rank e, ap rank f)

add_role_grant-cases :
    (now : ℕ) (child parent : Text) (gs : List RoleGrantRecord) (g : RoleGrantRecord)
    → Has g (add_role_grant now child parent gs)
    → Has g gs ⊎ ((child ≡ g.child_role_id) × (parent ≡ g.parent_role_id))
unfolding add_role_grant
add_role_grant-cases now child parent gs g m =
    elim (Bool-cases
      (any (λ (h : RoleGrantRecord). h.child_role_id == child && h.parent_role_id == parent) gs)) [
        | inl there ↦ inl (rw there at m)
        | inr absent ↦ elim (Has-append_cases g gs _ (rw absent at m)) [
          | inl old ↦ inl old
          | inr (inl e) ↦ inr (
            ap (λ (h : RoleGrantRecord). h.child_role_id) e,
            ap (λ (h : RoleGrantRecord). h.parent_role_id) e,
          )
          | inr (inr nowhere) ↦ absurd nowhere
        ]
      ]

-- No two roles with one id or one name.
abbrev pub AreUnique : List RoleRecord → Type 0
AreUnique roles =
    (q r : RoleRecord) → Has q roles → Has r roles → (q.id ≡ r.id) ⊎ (q.name ≡ r.name) → q ≡ r

-- Roles are added, and none goes.
abbrev pub Extends : List RoleRecord → List RoleRecord → Type 0
Extends roles more = AreUnique more × ((id : Text) → IsRole id roles → IsRole id more)

made_system-same :
    (new r : RoleRecord) → ((made_system new r).id ≡ r.id) × ((made_system new r).name ≡ r.name)
made_system-same new r = ground arith

made_system-Extends :
    (new : RoleRecord) (roles : List RoleRecord)
    → AreUnique roles
    → Extends roles (map (made_system new) roles)
made_system-Extends new roles unique = (
  map_unique (λ (r : RoleRecord). r.id) (λ (r : RoleRecord). r.name) (made_system new) roles
      (made_system-same new) unique,
  λ id (r, m, e).
      (made_system new r, Has-map (made_system new) r roles m, (made_system-same new r).0 ∙ e),
)

-- Whatever a computation gives, if it gives something.
abbrev pub Gives {ℓ} : {A : Type ℓ} → (A → Type 0) → Result Error A → Type 0
Gives P (ok a) = P a
Gives P (err e) = Unit

any_either :
    {A : Type 0} (p q : A → Bool) (xs : List A)
    → any p xs ≡ false
    → any q xs ≡ false
    → any (λ x. p x || q x) xs ≡ false
unfolding any
any_either p q [] h k = refl
any_either p q (x ∷ xs) h k =
    let (a, b) = or_false (p x) (any p xs) h in
    let (c, d) = or_false (q x) (any q xs) k in rw (a, c) (any_either p q xs b d)

upsert_role-Extends :
    (now : ℕ) (new : RoleRecord) (roles : List RoleRecord)
    → AreUnique roles
    → Gives (Extends roles) (upsert_role now new roles)
unfolding upsert_role
upsert_role-Extends now new roles unique =
    elim (Bool-cases (any (λ (r : RoleRecord). r.name == new.name) roles)) [
      | inl known ↦ rw known (made_system-Extends new roles unique)
      | inr unnamed ↦ rw unnamed (
          if_intro (Gives (Extends roles)) (any (λ (r : RoleRecord). r.id == new.id) roles)
            (λ _. tt)
            (λ fresh. (
              append_unique (λ (r : RoleRecord). r.id) (λ (r : RoleRecord). r.name) roles
                  (record new { is_system = true; created_at = now }) unique
                  (any_either (λ (r : RoleRecord). r.id == new.id)
                    (λ (r : RoleRecord). r.name == new.name) roles fresh unnamed),
              λ id (r, m, e). (r, Has-append_left r roles _ m, e),
            )))
    ]

-- More roles than there were in between.
weakened :
    (roles more : List RoleRecord)
    → ((id : Text) → IsRole id roles → IsRole id more)
    → (r : Result Error (List RoleRecord)) → Gives (Extends more) r
    → Gives (Extends roles) r
weakened roles more held (err e) _ = tt
weakened roles more held (ok all) (unique, later) = (unique, λ id m. later id (held id m))

pub upsert_roles-Extends :
    (now : ℕ) (news roles : List RoleRecord)
    → AreUnique roles
    → Gives (Extends roles) (upsert_roles now news roles)
unfolding upsert_roles
upsert_roles-Extends now [] roles unique = (unique, λ id r. r)
upsert_roles-Extends now (new ∷ news) roles unique =
    next (λ more. upsert_roles-Extends now news more) (upsert_role now new roles)
      (upsert_role-Extends now new roles unique)
  where
    next :
        ((more : List RoleRecord)
          → AreUnique more
          → Gives (Extends more) (upsert_roles now news more))
        → (r : Result Error (List RoleRecord)) → Gives (Extends roles) r
        → Gives (Extends roles) (r >>= upsert_roles now news)
    next each (err e) _ = tt
    next each (ok more) (u, held) =
        weakened roles more held (upsert_roles now news more) (each more u)

module _ (now : ℕ) (roles : List RoleRecord) where
  -- A grant from the role of one name to the role of the other.
  abbrev pub Joins : Text → Text → RoleGrantRecord → Type 0
  Joins child parent g =
      (r : RoleRecord) × (q : RoleRecord) × (named roles child ≡ some r)
      × (named roles parent ≡ some q)
      × (r.id ≡ g.child_role_id)
      × (q.id ≡ g.parent_role_id)

  join_edge-cases :
      (child parent : Text) (gs : List RoleGrantRecord) (g : RoleGrantRecord)
      → Has g (join_edge now (named roles child) (named roles parent) gs)
      → Has g gs ⊎ Joins child parent g
  join_edge-cases child parent gs g m = elim (Option-cases (named roles child)) [
    | inl missing ↦ inl (rw missing at m)
    | inr (r, er) ↦ elim (Option-cases (named roles parent)) [
      | inl missing ↦ inl (rw (er, missing) at m)
      | inr (q, eq) ↦ elim (add_role_grant-cases now r.id q.id gs g (rw (er, eq) at m)) [
        | inl old ↦ inl old
        | inr (a, b) ↦ inr (r, q, er, eq, a, b)
      ]
    ]
  ]

  -- What holds of the grants there are and of those that the bootstrap adds.
  pub insert_edges-all :
      (P : RoleGrantRecord → Type 0) (es : List (Text × Text)) (gs : List RoleGrantRecord)
      → ((c p : Text) → Has (c, p) es → (g : RoleGrantRecord) → Joins c p g → P g)
      → ((g : RoleGrantRecord) → Has g gs → P g)
      → (g : RoleGrantRecord) → Has g (insert_edges now roles es gs)
      → P g
  unfolding insert_edges
  insert_edges-all P [] gs new old g m = old g m
  insert_edges-all P ((c, p) ∷ es) gs new old g m =
      insert_edges-all P es _ (λ a b n. new a b (inr n))
        (λ h n. elim (join_edge-cases c p gs h n) [
          | inl before ↦ old h before
          | inr joins ↦ new c p (inl refl) h joins
        ])
        g m
