-- ===== src/Metadata/Likeness.antt =====
-- Which privileges go with an object.
use snowflake_emulator.Base.{
  ℕ, ◌≡◌, ◌⊎◌, ◌↔◌, ◌∙◌, ap, sym, inl, inr, refl, subst, Text, str, text_eq, nat_eq, text_beq_iff,
  to_upper, Bool, true, false, not, ◌&&◌, ◌||◌, List, [], ◌∷◌, ◌++◌, ◌==◌, arith, Bool-cases,
}
use snowflake_emulator.Base.Members.{Has, Has-keep, keep-Has}
use snowflake_emulator.Identity.Types.{ObjectPrivilegeRecord}
use snowflake_emulator.Metadata.Namespaces.{
  like, anywhere, is_empty_text, is_on_object, delete_object_privileges,
}

-- A text without % and without _.
abbrev pub IsPlain : Text → Type 0
IsPlain [] = Unit
IsPlain (c ∷ cs) = ((c == 37) ≡ false) × ((c == 95) ≡ false) × IsPlain cs

pub anywhere_end : (s : Text) → anywhere is_empty_text s ≡ true
unfolding anywhere
anywhere_end [] = refl
anywhere_end (c ∷ cs) = anywhere_end cs

pub and_true : (a b : Bool) → (a && b) ≡ true → (a ≡ true) × (b ≡ true)
and_true a b h = ground arith

pub or_true : (a b : Bool) → (a || b) ≡ true → (a ≡ true) ⊎ (b ≡ true)
or_true a b h = ground arith

pub same_number : (a b : ℕ) → (a == b) ≡ true → a ≡ b
same_number a b h = ground arith

pub number_same : (a : ℕ) → (a == a) ≡ true
number_same a = ground arith

-- A plain text with .% after it matches what starts with the text and a dot.
like_sound :
    (p s : Text) → IsPlain p → like (p ++ str ".%") s ≡ true → (rest : Text) × (s ≡ p ++ 46 ∷ rest)
unfolding like
like_sound [] [] plain h = absurd (cc h)
like_sound [] (c ∷ cs) plain h =
    let (e, _) = and_true (c == 46) (anywhere is_empty_text cs) h in
    (cs, ap (λ z. z ∷ cs) (same_number c 46 e))
like_sound (x ∷ p) [] (percent, line, plain) h = absurd (cc (rw (percent, line) at h))
like_sound (x ∷ p) (c ∷ cs) (percent, line, plain) h =
    let (e, f) = and_true (c == x) (like (p ++ str ".%") cs) (rw (percent, line) at h) in
    let (rest, same) = like_sound p cs plain f in
    (rest, ap (λ z. z ∷ cs) (same_number c x e) ∙ ap (λ zs. x ∷ zs) same)

like_complete : (p rest : Text) → IsPlain p → like (p ++ str ".%") (p ++ 46 ∷ rest) ≡ true
unfolding like
like_complete [] rest plain = anywhere_end rest
like_complete (x ∷ p) rest (percent, line, plain) =
    rw (percent, line, number_same x) (like_complete p rest plain)

abbrev pub IsWithin : Text → Text → ObjectPrivilegeRecord → Type 0
IsWithin type name g =
    ((g.object_type ≡ to_upper type) × (g.object_name ≡ to_upper name))
    ⊎ ((rest : Text) × (g.object_name ≡ to_upper name ++ 46 ∷ rest))

is_on_object_sound :
    (type name : Text) (g : ObjectPrivilegeRecord)
    → IsPlain (to_upper name)
    → is_on_object type name g ≡ true
    → IsWithin type name g
is_on_object_sound type name g plain h =
    elim (or_true (g.object_type == to_upper type && g.object_name == to_upper name)
      (like (to_upper name ++ str ".%") g.object_name) h) [
        | inl same ↦
            let (a, b) =
              and_true (g.object_type == to_upper type) (g.object_name == to_upper name) same in
            inl (
              (text_beq_iff g.object_type (to_upper type)).0 a,
              (text_beq_iff g.object_name (to_upper name)).0 b,
            )
        | inr below ↦ inr (like_sound (to_upper name) g.object_name plain below)
      ]

is_on_object_complete :
    (type name : Text) (g : ObjectPrivilegeRecord)
    → IsPlain (to_upper name)
    → IsWithin type name g
    → is_on_object type name g ≡ true
is_on_object_complete type name g plain (inl (a, b)) =
    rw
      (
        (text_beq_iff g.object_type (to_upper type)).1 a,
        (text_beq_iff g.object_name (to_upper name)).1 b,
      )
      refl
is_on_object_complete type name g plain (inr (rest, e)) =
    or_right (g.object_type == to_upper type && g.object_name == to_upper name) _ (
      subst (λ n. like (to_upper name ++ str ".%") n ≡ true) (sym e)
        (like_complete (to_upper name) rest plain))
  where
    or_right : (a b : Bool) → b ≡ true → (a || b) ≡ true
    or_right a b h = ground arith

-- The deletion of privileges with an object, whose name has no % and no _, removes exactly the
-- privileges on the object and on objects within it.
pub delete_object_privileges_iff :
    (type name : Text) (gs : List ObjectPrivilegeRecord) (g : ObjectPrivilegeRecord)
    → IsPlain (to_upper name)
    → Has g (delete_object_privileges type name gs) ↔ (Has g gs × ¬ IsWithin type name g)
unfolding delete_object_privileges
delete_object_privileges_iff type name gs g plain = (
  λ m.
      let (n, e) = keep-Has (λ o. not (is_on_object type name o)) g gs m in
      (n, λ within. cc (e, is_on_object_complete type name g plain within)),
  λ (n, outside).
      Has-keep (λ o. not (is_on_object type name o)) g gs n
        (elim (Bool-cases (is_on_object type name g)) [
          | inl on ↦ absurd (outside (is_on_object_sound type name g plain on))
          | inr off ↦ rw off refl
        ]),
)
