-- ===== src/Identity/Search/Exact.antt =====
-- The search finds exactly the inherited roles.
use snowflake_emulator.Base.{
  refl, ◌≡◌, ◌⊎◌, ◌↔◌, inl, inr, subst, Text, text_eq, true, List, [], ◌∷◌, contains,
}
use snowflake_emulator.Base.Members.{Has, contains-Has, Has-contains}
use snowflake_emulator.Identity.Types.{RoleGrantRecord}
use snowflake_emulator.Identity.Search.{visit, visit_all}
use snowflake_emulator.Identity.Search.Reach.{Edge, Inherits, itself, further}
use snowflake_emulator.Identity.Search.Found.{decide_Has, Within, visit-Visited}

module _ (grants : List RoleGrantRecord) where
  abbrev AllClosed : List Text → Type 0
  AllClosed w = (x y : Text) → Has x w → Edge grants x y → Has y w

  visit-AllClosed : (p : Text) (w : List Text) → AllClosed w → AllClosed (visit grants p w)
  visit-AllClosed p w closed x y m e =
      let v = visit-Visited grants p w in
      elim (decide_Has w x) [
        | inl old ↦ v.grows y (closed x y old e)
        | inr new ↦ v.closed x y m new e
      ]

  closed_under :
      (w : List Text) (s x : Text) → AllClosed w → Has s w → Inherits grants s x → Has x w
  closed_under w s x closed m itself = m
  closed_under w s x closed m (further {a} i e) = closed a x (closed_under w s a closed m i) e

  visit_all_sound :
      (ids w : List Text) (x : Text)
      → Has x (visit_all grants ids w)
      → Has x w ⊎ ((s : Text) × Has s ids × Inherits grants s x)
  unfolding visit_all
  visit_all_sound [] w x m = inl m
  visit_all_sound (id ∷ ids) w x m = elim (visit_all_sound ids (visit grants id w) x m) [
    | inl before ↦ elim ((visit-Visited grants id w).sound x before) [
      | inl old ↦ inl old
      | inr i ↦ inr (id, inl refl, i)
    ]
    | inr (s, n, i) ↦ inr (s, inr n, i)
  ]

  visit_all-grows : (ids w : List Text) → Within w (visit_all grants ids w)
  unfolding visit_all
  visit_all-grows [] w x m = m
  visit_all-grows (id ∷ ids) w x m =
      visit_all-grows ids (visit grants id w) x ((visit-Visited grants id w).grows x m)

  visit_all-complete :
      (ids w : List Text) (s x : Text)
      → AllClosed w
      → Has s ids
      → Inherits grants s x
      → Has x (visit_all grants ids w)
  unfolding visit_all
  visit_all-complete [] w s x closed m i = absurd m
  visit_all-complete (id ∷ ids) w s x closed (inl here) i =
      let v = visit-Visited grants id w in
      visit_all-grows ids (visit grants id w) x (
        closed_under (visit grants id w) s x (visit-AllClosed id w closed)
          (subst (λ z. Has z (visit grants id w)) here v.found) i)
  visit_all-complete (id ∷ ids) w s x closed (inr later) i =
      visit_all-complete ids (visit grants id w) s x (visit-AllClosed id w closed) later i

  -- From any role ids, through any grants, cyclic ones included, the recursion ends with exactly the
  -- ids that one of them inherits through some chain of grants.
  pub visit_all_iff :
      (ids : List Text) (x : Text)
      → (contains (visit_all grants ids []) x ≡ true)
        ↔ ((s : Text) × Has s ids × Inherits grants s x)
  visit_all_iff ids x = (
    λ h. elim (visit_all_sound ids [] x (contains-Has _ x h)) [ inl m ↦ absurd m | inr r ↦ r ],
    λ (s, m, i). Has-contains _ x (visit_all-complete ids [] s x (λ a b n. absurd n) m i),
  )
