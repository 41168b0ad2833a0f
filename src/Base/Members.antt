-- ===== src/Base/Members.antt =====
-- Membership as a relation, and searches through a list by a Boolean test.
use mathlib.Core.Path.{◌≡◌, refl, subst}
use mathlib.Core.Logic.{◌↔◌, ◌⊎◌, inl, inr}
use mathlib.Core.Bool.{not, Bool, true, false, ◌||◌}
use mathlib.Core.Option.{Option, none, some}
use mathlib.Core.List.{List, [], ◌∷◌, ◌++◌, map}
use native.Mathlib.Omega.{arith}
use snowflake_emulator.Base.Tests.{Comparable, Bool-cases, ◌==◌, if◌then◌else◌, if_intro}
use snowflake_emulator.Base.Lists.{contains, keep}
use snowflake_emulator.Base.Sort.{insert_by, sort_by}

abbrev pub Has : {A : Type 0} → A → List A → Type 0
Has a [] = ⊥
Has a (x ∷ xs) = (x ≡ a) ⊎ Has a xs

module _ {A : Type 0} where
  -- Whether some element passes a test.
  unfoldable pub any : (A → Bool) → List A → Bool
  any p [] = false
  any p (x ∷ xs) = p x || any p xs

  unfoldable pub find_first : (A → Bool) → List A → Option A
  find_first p [] = none
  find_first p (x ∷ xs) = let rest = find_first p xs in if p x then some x else rest

  pub any-Has : (p : A → Bool) (xs : List A) → any p xs ≡ true → (a : A) × Has a xs × (p a ≡ true)
  unfolding any
  any-Has p [] h = cc
  any-Has p (x ∷ xs) h = elim (Bool-cases (p x)) [
    | inl passes ↦ (x, inl refl, passes)
    | inr fails ↦ let (a, m, e) = any-Has p xs (rw fails at h) in (a, inr m, e)
  ]

  pub Has-any : (p : A → Bool) (a : A) (xs : List A) → Has a xs → p a ≡ true → any p xs ≡ true
  unfolding any
  Has-any p a [] m e = absurd m
  Has-any p a (x ∷ xs) (inl here) e = rw (here, e) refl
  Has-any p a (x ∷ xs) (inr later) e = elim (Bool-cases (p x)) [
    | inl passes ↦ rw passes refl
    | inr fails ↦ rw fails (Has-any p a xs later e)
  ]

  pub find_first-Has :
      (p : A → Bool) (xs : List A) (a : A) → find_first p xs ≡ some a → Has a xs × (p a ≡ true)
  unfolding find_first
  find_first-Has p [] a h = cc
  find_first-Has p (x ∷ xs) a h = elim (Bool-cases (p x)) [
    | inl passes ↦ ground (arith, passes, h)
    | inr fails ↦ let (m, e) = find_first-Has p xs a (rw fails at h) in (inr m, e)
  ]

  pub find_first-any : (p : A → Bool) (xs : List A) → find_first p xs ≡ none → any p xs ≡ false
  unfolding find_first any
  find_first-any p [] h = refl
  find_first-any p (x ∷ xs) h = elim (Bool-cases (p x)) [
    | inl passes ↦ cc (rw passes at h)
    | inr fails ↦ rw fails (find_first-any p xs (rw fails at h))
  ]

  pub Has-append_left : (a : A) (xs ys : List A) → Has a xs → Has a (xs ++ ys)
  Has-append_left a [] ys m = absurd m
  Has-append_left a (x ∷ xs) ys (inl e) = inl e
  Has-append_left a (x ∷ xs) ys (inr m) = inr (Has-append_left a xs ys m)

  pub Has-append_right : (a : A) (xs ys : List A) → Has a ys → Has a (xs ++ ys)
  Has-append_right a [] ys m = m
  Has-append_right a (x ∷ xs) ys m = inr (Has-append_right a xs ys m)

  pub Has-append_cases : (a : A) (xs ys : List A) → Has a (xs ++ ys) → Has a xs ⊎ Has a ys
  Has-append_cases a [] ys m = inr m
  Has-append_cases a (x ∷ xs) ys (inl e) = inl (inl e)
  Has-append_cases a (x ∷ xs) ys (inr m) = ground (arith, Has-append_cases a xs ys m)

  pub Has-keep : (p : A → Bool) (a : A) (xs : List A) → Has a xs → p a ≡ true → Has a (keep p xs)
  unfolding keep
  Has-keep p a [] m e = absurd m
  Has-keep p a (x ∷ xs) (inl here) e = rw (here, e) (inl refl)
  Has-keep p a (x ∷ xs) (inr m) e =
      if_intro (Has a) (p x) (λ _. inr (Has-keep p a xs m e)) (λ _. Has-keep p a xs m e)

  pub keep-Has : (p : A → Bool) (a : A) (xs : List A) → Has a (keep p xs) → Has a xs × (p a ≡ true)
  unfolding keep
  keep-Has p a [] m = absurd m
  keep-Has p a (x ∷ xs) m = elim (Bool-cases (p x)) [
    | inl passes ↦ elim (rw passes at m) [
      | inl e ↦ (inl e, subst (λ y. p y ≡ true) e passes)
      | inr later ↦ let (n, q) = keep-Has p a xs later in (inr n, q)
    ]
    | inr fails ↦ let (n, q) = keep-Has p a xs (rw fails at m) in (inr n, q)
  ]

  -- Dropping what passes a test, where the test decides a property.
  pub Has-keep-not {κ} :
      (p : A → Bool) (xs : List A) (a : A) (P : Type κ)
      → (p a ≡ true → P)
      → (P → p a ≡ true)
      → Has a (keep (λ x. not (p x)) xs) ↔ (Has a xs × ¬ P)
  Has-keep-not p xs a P sound complete = (
    λ m. let (n, e) = keep-Has (λ x. not (p x)) a xs m in (n, λ holds. cc (e, complete holds)),
    λ (n, fails).
        Has-keep (λ x. not (p x)) a xs n
          (elim (Bool-cases (p a)) [
            | inl passes ↦ absurd (fails (sound passes))
            | inr drops ↦ rw drops refl
          ]),
  )

  pub Has-insert_by :
      (le : A → A → Bool) (a x : A) (xs : List A) → Has a (x ∷ xs) → Has a (insert_by le x xs)
  unfolding insert_by
  Has-insert_by le a x [] m = m
  Has-insert_by le a x (y ∷ ys) m =
      if_intro (Has a) (le x y) (λ _. m)
        (λ _. elim m [
          | inl e ↦ inr (Has-insert_by le a x ys (inl e))
          | inr (inl e) ↦ inl e
          | inr (inr n) ↦ inr (Has-insert_by le a x ys (inr n))
        ])

  pub insert_by-Has :
      (le : A → A → Bool) (a x : A) (xs : List A) → Has a (insert_by le x xs) → Has a (x ∷ xs)
  unfolding insert_by
  insert_by-Has le a x [] m = m
  insert_by-Has le a x (y ∷ ys) m = elim (Bool-cases (le x y)) [
    | inl before ↦ rw before at m
    | inr after ↦ elim (rw after at m) [
      | inl e ↦ inr (inl e)
      | inr n ↦ elim (insert_by-Has le a x ys n) [ inl e ↦ inl e | inr k ↦ inr (inr k) ]
    ]
  ]

  pub Has-sort_by : (le : A → A → Bool) (a : A) (xs : List A) → Has a xs → Has a (sort_by le xs)
  unfolding sort_by
  Has-sort_by le a [] m = m
  Has-sort_by le a (x ∷ xs) (inl e) = Has-insert_by le a x _ (inl e)
  Has-sort_by le a (x ∷ xs) (inr m) = Has-insert_by le a x _ (inr (Has-sort_by le a xs m))

  pub sort_by-Has : (le : A → A → Bool) (a : A) (xs : List A) → Has a (sort_by le xs) → Has a xs
  unfolding sort_by
  sort_by-Has le a [] m = m
  sort_by-Has le a (x ∷ xs) m = elim (insert_by-Has le a x _ m) [
    | inl e ↦ inl e
    | inr n ↦ inr (sort_by-Has le a xs n)
  ]

pub Has-map : {A B : Type 0} (f : A → B) (a : A) (xs : List A) → Has a xs → Has (f a) (map f xs)
Has-map f a [] m = absurd m
Has-map f a (x ∷ xs) (inl e) = inl (rw e refl)
Has-map f a (x ∷ xs) (inr m) = inr (Has-map f a xs m)

pub map-Has :
    {A B : Type 0} (f : A → B) (b : B) (xs : List A)
    → Has b (map f xs)
    → (a : A) × Has a xs × (f a ≡ b)
map-Has f b [] m = absurd m
map-Has f b (x ∷ xs) (inl e) = (x, inl refl, e)
map-Has f b (x ∷ xs) (inr m) = let (a, n, e) = map-Has f b xs m in (a, inr n, e)

module _ {A : Type 0} ⦃e : Comparable A⦄ where
  pub contains-Has : (xs : List A) (a : A) → contains xs a ≡ true → Has a xs
  unfolding contains
  contains-Has [] a h = cc
  contains-Has (x ∷ xs) a h = elim (Bool-cases (x == a)) [
    | inl same ↦ inl ((e.same_iff x a).0 same)
    | inr other ↦ inr (contains-Has xs a (rw other at h))
  ]

  pub Has-contains : (xs : List A) (a : A) → Has a xs → contains xs a ≡ true
  unfolding contains
  Has-contains [] a m = absurd m
  Has-contains (x ∷ xs) a (inl here) = rw ((e.same_iff x a).1 here) refl
  Has-contains (x ∷ xs) a (inr m) = elim (Bool-cases (x == a)) [
    | inl same ↦ rw same refl
    | inr other ↦ rw other (Has-contains xs a m)
  ]
