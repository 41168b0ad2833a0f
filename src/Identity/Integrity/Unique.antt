-- ===== src/Identity/Integrity/Unique.antt =====
-- Rows of which no two have the same id or the same name.
use snowflake_emulator.Base.{
  ◌≡◌, ◌⊎◌, ◌∙◌, ap, sym, inl, inr, refl, subst, Text, text_eq, text_beq_iff, Bool, true, false,
  ◌||◌, List, [], ◌∷◌, ◌++◌, ◌==◌, Bool-cases, map,
}
use snowflake_emulator.Base.Members.{Has, any, Has-any, Has-append_cases, map-Has}

module _ {A : Type 0} (id name : A → Text) where
  abbrev pub AreUnique : List A → Type 0
  AreUnique xs = (a b : A) → Has a xs → Has b xs → (id a ≡ id b) ⊎ (name a ≡ name b) → a ≡ b

  -- A change that keeps ids and names keeps them unique.
  pub map_unique :
      (f : A → A) (xs : List A)
      → ((a : A) → (id (f a) ≡ id a) × (name (f a) ≡ name a))
      → AreUnique xs
      → AreUnique (map f xs)
  map_unique f xs same unique v w m n e =
      let (a, ma, ea) = map-Has f v xs m in
      let (b, mb, eb) = map-Has f w xs n in
      sym ea ∙ ap f (unique a b ma mb (joined a b ea eb e)) ∙ eb
    where
      joined :
          (a b : A)
          → f a ≡ v
          → f b ≡ w
          → (id v ≡ id w) ⊎ (name v ≡ name w)
          → (id a ≡ id b) ⊎ (name a ≡ name b)
      joined a b ea eb (inl g) = inl (sym (same a).0 ∙ ap id ea ∙ g ∙ sym (ap id eb) ∙ (same b).0)
      joined a b ea eb (inr g) =
          inr (sym (same a).1 ∙ ap name ea ∙ g ∙ sym (ap name eb) ∙ (same b).1)

-- A row whose id and whose name are new keeps them unique.
module _ {A : Type 0} (id name : A → Text) (rows : List A) (new : A) where
  abbrev Agrees : A → A → Type 0
  Agrees a b = (id a ≡ id b) ⊎ (name a ≡ name b)

  abbrev clashes : A → Bool
  clashes a = id a == id new || name a == name new

  no_clash : (a : A) → any clashes rows ≡ false → Has a rows → ¬ Agrees a new
  no_clash a fresh m agrees = cc (fresh, Has-any clashes a rows m (clash agrees))
    where
      clash : Agrees a new → clashes a ≡ true
      clash (inl e) = rw ((text_beq_iff (id a) (id new)).1 e) refl
      clash (inr e) = elim (Bool-cases (id a == id new)) [
        | inl f ↦ rw f refl
        | inr f ↦ rw (f, (text_beq_iff (name a) (name new)).1 e) refl
      ]

  pub append_unique :
      ((a b : A) → Has a rows → Has b rows → Agrees a b → a ≡ b)
      → any clashes rows ≡ false
      → (a b : A) → Has a (rows ++ new ∷ [])
      → Has b (rows ++ new ∷ [])
      → Agrees a b
      → a ≡ b
  append_unique unique fresh a b m n agrees =
      joined (Has-append_cases a rows (new ∷ []) m) (Has-append_cases b rows (new ∷ []) n)
    where
      turned : Agrees a b → Agrees b a
      turned (inl e) = inl (sym e)
      turned (inr e) = inr (sym e)

      joined : Has a rows ⊎ Has a (new ∷ []) → Has b rows ⊎ Has b (new ∷ []) → a ≡ b
      joined (inl old) (inl older) = unique a b old older agrees
      joined (inl old) (inr (inl e)) =
          absurd (no_clash a fresh old (subst (Agrees a) (sym e) agrees))
      joined (inr (inl e)) (inl old) =
          absurd (no_clash b fresh old (subst (Agrees b) (sym e) (turned agrees)))
      joined (inr (inl e)) (inr (inl f)) = sym e ∙ f
      joined (inr (inr nowhere)) _ = absurd nowhere
      joined _ (inr (inr nowhere)) = absurd nowhere
