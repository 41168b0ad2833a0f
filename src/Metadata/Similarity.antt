-- ===== src/Metadata/Similarity.antt =====
-- Which privileges the deletion with an object reaches when the name may have an underscore, which
-- LIKE reads as any character.
use snowflake_emulator.Base.{
  ℕ, ◌≡◌, ◌⊎◌, ◌↔◌, ap, sym, inl, inr, refl, subst, Text, str, text_eq, nat_eq, text_beq_iff,
  to_upper, Bool, true, false, ◌&&◌, ◌||◌, List, [], ◌∷◌, ◌++◌, ◌==◌, arith, Bool-cases,
}
use snowflake_emulator.Base.Members.{Has-keep-not, Has}
use snowflake_emulator.Identity.Types.{ObjectPrivilegeRecord}
use snowflake_emulator.Metadata.Namespaces.{
  like, anywhere, is_empty_text, is_on_object, delete_object_privileges,
}
use snowflake_emulator.Metadata.Likeness.{and_true, or_true, same_number, anywhere_end}

-- A text without %.
abbrev pub IsClean : Text → Type 0
IsClean [] = Unit
IsClean (c ∷ cs) = ((c == 37) ≡ false) × IsClean cs

-- The same text, where an underscore of the first stands for any character.
abbrev pub Similar : Text → Text → Type 0
Similar [] [] = Unit
Similar [] (c ∷ cs) = ⊥
Similar (x ∷ p) [] = ⊥
Similar (x ∷ p) (c ∷ cs) = ((x ≡ 95) ⊎ (c ≡ x)) × Similar p cs

-- A text similar to the first, and then a dot.
abbrev pub IsBelow : Text → Text → Type 0
IsBelow p s = (front rest : Text) × (s ≡ front ++ 46 ∷ rest) × Similar p front

IsBelow-cons : (x c : ℕ) (p s : Text) → (x ≡ 95) ⊎ (c ≡ x) → IsBelow p s → IsBelow (x ∷ p) (c ∷ s)
IsBelow-cons x c p s fits (front, rest, e, similar) =
    (c ∷ front, rest, ap (λ zs. c ∷ zs) e, (fits, similar))

like-IsBelow : (p s : Text) → IsClean p → like (p ++ str ".%") s ≡ true → IsBelow p s
unfolding like
like-IsBelow [] [] clean h = absurd (cc h)
like-IsBelow [] (c ∷ cs) clean h =
    let (e, _) = and_true (c == 46) (anywhere is_empty_text cs) h in
    ([], cs, ap (λ z. z ∷ cs) (same_number c 46 e), tt)
like-IsBelow (x ∷ p) [] (percent, clean) h = elim (Bool-cases (x == 95)) [
  | inl any_one ↦ absurd (cc (rw (percent, any_one) at h))
  | inr itself ↦ absurd (cc (rw (percent, itself) at h))
]
like-IsBelow (x ∷ p) (c ∷ cs) (percent, clean) h = elim (Bool-cases (x == 95)) [
  | inl any_one ↦
      IsBelow-cons x c p cs (inl (same_number x 95 any_one))
        (like-IsBelow p cs clean (rw (percent, any_one) at h))
  | inr itself ↦
      let (e, f) = and_true (c == x) (like (p ++ str ".%") cs) (rw (percent, itself) at h) in
      IsBelow-cons x c p cs (inr (same_number c x e)) (like-IsBelow p cs clean f)
]

like-Similar :
    (p front rest : Text)
    → IsClean p
    → Similar p front
    → like (p ++ str ".%") (front ++ 46 ∷ rest) ≡ true
unfolding like
like-Similar [] [] rest clean similar = anywhere_end rest
like-Similar [] (c ∷ front) rest clean similar = absurd similar
like-Similar (x ∷ p) [] rest clean similar = absurd similar
like-Similar (x ∷ p) (c ∷ front) rest (percent, clean) (fits, similar) =
    let later = like-Similar p front rest clean similar in
    elim (Bool-cases (x == 95)) [
      | inl any_one ↦ rw (percent, any_one, later) refl
      | inr itself ↦ rw (percent, itself, later) (is_same fits itself)
    ]
  where
    is_same : (x ≡ 95) ⊎ (c ≡ x) → (x == 95) ≡ false → ((c == x) && true) ≡ true
    is_same fits itself = ground arith

-- On the object, or below one whose name the name of the object is similar to.
abbrev pub IsCovered : Text → Text → ObjectPrivilegeRecord → Type 0
IsCovered type name g =
    ((g.object_type ≡ to_upper type) × (g.object_name ≡ to_upper name))
    ⊎ IsBelow (to_upper name) g.object_name

is_on_object_iff :
    (type name : Text) (g : ObjectPrivilegeRecord)
    → IsClean (to_upper name)
    → (is_on_object type name g ≡ true) ↔ IsCovered type name g
is_on_object_iff type name g clean = (sound, complete)
  where
    or_left : (a b : Bool) → a ≡ true → (a || b) ≡ true
    or_left a b h = ground arith

    or_right : (a b : Bool) → b ≡ true → (a || b) ≡ true
    or_right a b h = ground arith

    both : (a b : Bool) → a ≡ true → b ≡ true → (a && b) ≡ true
    both a b h k = ground arith

    sound : is_on_object type name g ≡ true → IsCovered type name g
    sound h =
        elim (or_true (g.object_type == to_upper type && g.object_name == to_upper name)
          (like (to_upper name ++ str ".%") g.object_name) h) [
            | inl same ↦
                let (a, b) =
                  and_true (g.object_type == to_upper type) (g.object_name == to_upper name) same in
                inl (
                  (text_beq_iff g.object_type (to_upper type)).0 a,
                  (text_beq_iff g.object_name (to_upper name)).0 b,
                )
            | inr below ↦ inr (like-IsBelow (to_upper name) g.object_name clean below)
          ]

    complete : IsCovered type name g → is_on_object type name g ≡ true
    complete (inl (a, b)) = or_left _ (like (to_upper name ++ str ".%") g.object_name) (
        both _ _ ((text_beq_iff g.object_type (to_upper type)).1 a)
          ((text_beq_iff g.object_name (to_upper name)).1 b))
    complete (inr (front, rest, e, similar)) =
        or_right (g.object_type == to_upper type && g.object_name == to_upper name) _ (
          subst (λ n. like (to_upper name ++ str ".%") n ≡ true) (sym e)
            (like-Similar (to_upper name) front rest clean similar))

-- What is left is what was there and is not covered.
pub delete_object_privileges-IsCovered :
    (type name : Text) (gs : List ObjectPrivilegeRecord) (g : ObjectPrivilegeRecord)
    → IsClean (to_upper name)
    → Has g (delete_object_privileges type name gs) ↔ (Has g gs × ¬ IsCovered type name g)
unfolding delete_object_privileges
delete_object_privileges-IsCovered type name gs g clean =
    let (sound, complete) = is_on_object_iff type name g clean in
    Has-keep-not (is_on_object type name) gs g (IsCovered type name g) sound complete
