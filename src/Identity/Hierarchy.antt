-- ===== src/Identity/Hierarchy.antt =====
-- Grants between roles and cycles.
pub mod Refusal
use snowflake_emulator.Base.{
  ℕ, ◌≡◌, ◌⊎◌, ◌∙◌, sym, inl, inr, refl, subst, Text, text_eq, text_beq_iff, Bool, true, false, not,
  ◌&&◌, List, [], ◌∷◌, ◌++◌, ◌==◌, contains, arith, Bool-cases, if◌then◌else◌, if_intro, map, keep,
}
use snowflake_emulator.Base.Members.{
  Has, any, Has-map, Has-keep, keep-Has, Has-append_left, Has-append_right, Has-append_cases,
}
use snowflake_emulator.Identity.Types.{RoleGrantRecord}
use snowflake_emulator.Identity.Search.Reach.{Edge, Inherits, itself, further}
use snowflake_emulator.Identity.Search.Found.{through}
use snowflake_emulator.Identity.Search.Exact.{visit_all_iff}
use snowflake_emulator.Identity.Repository.{flip, parents, ancestors, add_role_grant}

-- No role inherits, through grants, a role that it was granted to.
abbrev pub IsAcyclic : List RoleGrantRecord → Type 0
IsAcyclic gs = (x y : Text) → Edge gs x y → ¬ Inherits gs y x

Inherits-trans :
    {gs : List RoleGrantRecord} {a b c : Text} → Inherits gs a b → Inherits gs b c → Inherits gs a c
Inherits-trans i itself = i
Inherits-trans i (further j e) = further (Inherits-trans i j) e

-- Fewer grants, fewer chains.
Inherits-part :
    {gs hs : List RoleGrantRecord} {a b : Text}
    → ((g : RoleGrantRecord) → Has g gs → Has g hs)
    → Inherits gs a b
    → Inherits hs a b
Inherits-part part itself = itself
Inherits-part part (further i (g, m, p, c)) = further (Inherits-part part i) (g, part g m, p, c)

pub IsAcyclic-part :
    (gs hs : List RoleGrantRecord)
    → ((g : RoleGrantRecord) → Has g gs → Has g hs)
    → IsAcyclic hs
    → IsAcyclic gs
IsAcyclic-part gs hs part free x y (g, m, p, c) i =
    free x y (g, part g m, p, c) (Inherits-part part i)

Inherits-flip :
    {gs : List RoleGrantRecord} {c a : Text} → Inherits gs c a → Inherits (map flip gs) a c
Inherits-flip itself = itself
Inherits-flip {gs} (further i (g, m, p, q)) =
    through (flip g, Has-map flip g gs m, q, p) (Inherits-flip i)

-- A role that is not among the ancestors of another does not inherit it.
not_above :
    (gs : List RoleGrantRecord) (child parent : Text)
    → (child == parent) ≡ false
    → contains (ancestors gs parent) child ≡ false
    → ¬ Inherits gs child parent
unfolding ancestors
not_above gs child parent differ none itself = cc (differ, (text_beq_iff child child).1 refl)
not_above gs child parent differ none (further {a} i (g, m, p, q)) = cc (
  none,
  (visit_all_iff (map flip gs) (parents gs parent) child).1 (a, parent_of, Inherits-flip i),
)
  where
    parent_of : Has a (parents gs parent)
    parent_of =
        subst (λ z. Has z (parents gs parent)) p
          (Has-map (λ (h : RoleGrantRecord). h.parent_role_id) g _
            (Has-keep (λ (h : RoleGrantRecord). h.child_role_id == parent) g gs m
              ((text_beq_iff g.child_role_id parent).1 q)))

module _ (gs : List RoleGrantRecord) (e : RoleGrantRecord) where
  Edge-cases :
      (x y : Text)
      → Edge (gs ++ e ∷ []) x y
      → Edge gs x y ⊎ ((e.parent_role_id ≡ x) × (e.child_role_id ≡ y))
  Edge-cases x y (g, m, p, q) = elim (Has-append_cases g gs (e ∷ []) m) [
    | inl old ↦ inl (g, old, p, q)
    | inr (inl same) ↦ inr (
        subst (λ (h : RoleGrantRecord). (h.parent_role_id ≡ x) × (h.child_role_id ≡ y)) (sym same)
          (p, q))
    | inr (inr nowhere) ↦ absurd nowhere
  ]

  -- A chain with the new grant goes from above it to below it.
  Inherits-cases :
      {a b : Text}
      → Inherits (gs ++ e ∷ []) a b
      → Inherits gs a b ⊎ (Inherits gs a e.parent_role_id × Inherits gs e.child_role_id b)
  Inherits-cases itself = inl itself
  Inherits-cases {a} (further {a = p} {b = q} i edge) = elim (Inherits-cases i) [
    | inl old ↦ elim (Edge-cases p q edge) [
      | inl f ↦ inl (further old f)
      | inr (up, down) ↦
          inr (subst (Inherits gs a) (sym up) old, subst (Inherits gs e.child_role_id) down itself)
    ]
    | inr (above, below) ↦ elim (Edge-cases p q edge) [
      | inl f ↦ inr (above, further below f)
      | inr (up, down) ↦ inr (above, subst (Inherits gs e.child_role_id) down itself)
    ]
  ]

  append-IsAcyclic :
      IsAcyclic gs → ¬ Inherits gs e.child_role_id e.parent_role_id → IsAcyclic (gs ++ e ∷ [])
  append-IsAcyclic free safe x y edge i = elim (Edge-cases x y edge) [
    | inl old ↦ elim (Inherits-cases i) [
      | inl j ↦ free x y old j
      | inr (above, below) ↦ safe (Inherits-trans (further below old) above)
    ]
    | inr (up, down) ↦ elim (Inherits-cases i) [
      | inl j ↦
          safe (
            subst (Inherits gs e.child_role_id) (sym up)
              (subst (λ z. Inherits gs z x) (sym down) j))
      | inr (above, below) ↦ safe (subst (λ z. Inherits gs z e.parent_role_id) (sym down) above)
    ]
  ]

pub add_role_grant-IsAcyclic :
    (now : ℕ) (child parent : Text) (gs : List RoleGrantRecord)
    → (child == parent) ≡ false
    → contains (ancestors gs parent) child ≡ false
    → IsAcyclic gs
    → IsAcyclic (add_role_grant now child parent gs)
unfolding add_role_grant
add_role_grant-IsAcyclic now child parent gs differ none free =
    if_intro IsAcyclic
      (any (λ (g : RoleGrantRecord). g.child_role_id == child && g.parent_role_id == parent) gs)
      (λ _. free) (λ _. append-IsAcyclic gs _ free (not_above gs child parent differ none))
