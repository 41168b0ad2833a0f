-- ===== src/Base/Sort.antt =====
-- Sorting by a Boolean order, with what Go's sort.Slice promises: a sorted permutation.
use mathlib.Core.List.{List, [], ◌∷◌, Perm}
use mathlib.Core.List.Perm
use Prim.Native.Nat.{ℕ, zero, suc}
use mathlib.Core.Path.{◌≡◌}
use mathlib.Core.Logic.{inl, inr}
use mathlib.Core.Bool.{Bool, true, false}
use snowflake_emulator.Base.Tests.{if_intro, if◌then◌else◌, Bool-cases}
use snowflake_emulator.Base.Lists.{All, All-map, All-take, All-keep, take, keep}

module _ {ℓ} {A : Type ℓ} (le : A → A → Bool) where
  unfoldable pub insert_by : A → List A → List A
  insert_by x [] = x ∷ []
  insert_by x (y ∷ ys) = let rest = insert_by x ys in if le x y then x ∷ y ∷ ys else y ∷ rest

  unfoldable pub sort_by : List A → List A
  unfolding insert_by
  sort_by [] = []
  sort_by (x ∷ xs) = insert_by x (sort_by xs)

  -- Every element stands before all that follow it.
  abbrev pub IsSortedBy : List A → Type ℓ
  IsSortedBy [] = Unit
  IsSortedBy (x ∷ xs) = All (λ y. le x y ≡ true) xs × IsSortedBy xs

  insert_by-perm : (x : A) (ys : List A) → Perm (insert_by x ys) (x ∷ ys)
  unfolding insert_by
  insert_by-perm x [] = Perm.refl (x ∷ [])
  insert_by-perm x (y ∷ ys) = elim (Bool-cases (le x y)) [
    | inl before ↦ rw before (Perm.refl (x ∷ y ∷ ys))
    | inr after ↦ rw after (Perm.trans (Perm.cons y (insert_by-perm x ys)) (Perm.swap x y ys))
  ]

  pub sort_by-perm : (xs : List A) → Perm (sort_by xs) xs
  unfolding sort_by
  sort_by-perm [] = Perm.refl []
  sort_by-perm (x ∷ xs) = Perm.trans (insert_by-perm x (sort_by xs)) (Perm.cons x (sort_by-perm xs))

  All-insert_by {κ} :
      (P : A → Type κ) (x : A) (ys : List A) → P x → All P ys → All P (insert_by x ys)
  unfolding insert_by
  All-insert_by P x [] p h = (p, h)
  All-insert_by P x (y ∷ ys) p h = elim (Bool-cases (le x y)) [
    | inl before ↦ rw before (p, h)
    | inr after ↦ rw after (h.0, All-insert_by P x ys p h.1)
  ]

  pub All-sort_by {κ} : (P : A → Type κ) (xs : List A) → All P xs → All P (sort_by xs)
  unfolding sort_by
  All-sort_by P [] h = h
  All-sort_by P (x ∷ xs) h = All-insert_by P x (sort_by xs) h.0 (All-sort_by P xs h.1)

  module _ (total : (x y : A) → le x y ≡ false → le y x ≡ true)
      (trans : (x y z : A) → le x y ≡ true → le y z ≡ true → le x z ≡ true) where
    insert_by-IsSortedBy : (x : A) (ys : List A) → IsSortedBy ys → IsSortedBy (insert_by x ys)
    unfolding insert_by
    insert_by-IsSortedBy x [] s = (tt, tt)
    insert_by-IsSortedBy x (y ∷ ys) s = elim (Bool-cases (le x y)) [
      | inl before ↦ rw before ((before, All-map (λ z. trans x y z before) ys s.0), s)
      | inr after ↦ rw after (
        All-insert_by (λ z. le y z ≡ true) x ys (total x y after) s.0,
        insert_by-IsSortedBy x ys s.1,
      )
    ]

    pub sort_by-IsSortedBy : (xs : List A) → IsSortedBy (sort_by xs)
    unfolding sort_by
    sort_by-IsSortedBy [] = tt
    sort_by-IsSortedBy (x ∷ xs) = insert_by-IsSortedBy x (sort_by xs) (sort_by-IsSortedBy xs)

module _ {ℓ} {A : Type ℓ} (le : A → A → Bool) where
  pub IsSortedBy-take : (n : ℕ) (xs : List A) → IsSortedBy le xs → IsSortedBy le (take n xs)
  IsSortedBy-take zero xs s = tt
  IsSortedBy-take (suc n) [] s = tt
  IsSortedBy-take (suc n) (x ∷ xs) s = (All-take _ n xs s.0, IsSortedBy-take n xs s.1)

  pub IsSortedBy-keep : (p : A → Bool) (xs : List A) → IsSortedBy le xs → IsSortedBy le (keep p xs)
  unfolding keep
  IsSortedBy-keep p [] s = tt
  IsSortedBy-keep p (x ∷ xs) s =
      if_intro (IsSortedBy le) (p x) (λ _. (All-keep _ p xs s.0, IsSortedBy-keep p xs s.1))
        (λ _. IsSortedBy-keep p xs s.1)
