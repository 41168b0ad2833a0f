-- ===== src/Identity/Search/Found.antt =====
-- What `visit` adds to the set.
use snowflake_emulator.Base.{
  ap, ℕ, zero, suc, ◌+◌, ◌≤◌, ◌<◌, ◌≡◌, ◌⊎◌, refl, sym, ◌∙◌, subst, inl, inr, Text, text_eq, false,
  List, [], ◌∷◌, ◌==◌, if◌then◌else◌, length, contains, Bool-cases, arith, text_beq_iff,
}
use snowflake_emulator.Base.Members.{Has, contains-Has, Has-contains}
use snowflake_emulator.Identity.Types.{RoleGrantRecord}
use snowflake_emulator.Identity.Search.{each_child, visit_within, visit}
use snowflake_emulator.Identity.Search.Reach.{Edge, Inherits, itself, further}

-- One set within another.
abbrev pub Within : List Text → List Text → Type 0
Within a b = (x : Text) → Has x a → Has x b

-- Every role of `new` that is not in `old` has its children in `new`.
abbrev ClosedSince : List RoleGrantRecord → List Text → List Text → Type 0
ClosedSince grants old new = (x y : Text) → Has x new → ¬ Has x old → Edge grants x y → Has y new

-- How many grants have a child outside the set.
abbrev outside : List RoleGrantRecord → List Text → ℕ
outside [] w = 0
outside (g ∷ gs) w = (if contains w g.child_role_id then 0 else 1) + outside gs w

pub decide_Has : (w : List Text) (x : Text) → Has x w ⊎ (¬ Has x w)
decide_Has w x = elim (Bool-cases (contains w x)) [
  | inl there ↦ inl (contains-Has w x there)
  | inr absent ↦ inr λ m. cc (Has-contains w x m, absent)
]

not_contained : (w : List Text) (x : Text) → ¬ Has x w → contains w x ≡ false
not_contained w x m = elim (Bool-cases (contains w x)) [
  | inl there ↦ absurd (m (contains-Has w x there))
  | inr absent ↦ absent
]

outside-le :
    (grants : List RoleGrantRecord) (w v : List Text)
    → Within w v
    → outside grants v ≤ outside grants w
outside-le [] w v sub = omega arith
outside-le (g ∷ gs) w v sub = elim (Bool-cases (contains w g.child_role_id)) [
  | inl there ↦
      rw (there, Has-contains v _ (sub _ (contains-Has w _ there)))
        (omega (arith, outside-le gs w v sub))
  | inr absent ↦ rw absent (ground (arith, outside-le gs w v sub))
]

outside-lt :
    (grants : List RoleGrantRecord) (g : RoleGrantRecord) (w : List Text)
    → Has g grants
    → ¬ Has g.child_role_id w
    → outside grants (g.child_role_id ∷ w) < outside grants w
outside-lt [] g w m out = absurd m
outside-lt (h ∷ gs) g w (inl e) out =
    subst (λ (k : RoleGrantRecord). outside (k ∷ gs) (g.child_role_id ∷ w) < outside (k ∷ gs) w)
      (sym e)
      (rw
        (
          not_contained w g.child_role_id out,
          Has-contains (g.child_role_id ∷ w) g.child_role_id (inl refl),
        )
        (omega (arith, outside-le gs w (g.child_role_id ∷ w) (λ x m. inr m))))
outside-lt (h ∷ gs) g w (inr m) out = elim (Bool-cases (contains w h.child_role_id)) [
  | inl there ↦
      rw (there, Has-contains (g.child_role_id ∷ w) h.child_role_id (inr (contains-Has w _ there)))
        (omega (arith, outside-lt gs g w m out))
  | inr absent ↦ rw absent (ground (arith, outside-lt gs g w m out))
]

outside-length : (grants : List RoleGrantRecord) (w : List Text) → outside grants w ≤ length grants
outside-length [] w = omega arith
outside-length (g ∷ gs) w = ground (arith, outside-length gs w)

pub through :
    {grants : List RoleGrantRecord} {p c x : Text}
    → Edge grants p c
    → Inherits grants c x
    → Inherits grants p x
through e itself = further itself e
through e (further i f) = further (through e i) f

module _ (grants : List RoleGrantRecord) where
  -- What one call for `p` makes of a set.
  pub record Visited (p : Text) (old new : List Text) : Type 0 where
    pub grows : Within old new
    pub found : Has p new
    pub closed : ClosedSince grants old new
    pub sound : (x : Text) → Has x new → Has x old ⊎ Inherits grants p x

  -- What the loop over some of the grants makes of it.
  record Looped (gs : List RoleGrantRecord) (p : Text) (old new : List Text) : Type 0 where
    pub grows : Within old new
    pub children : (g : RoleGrantRecord) → Has g gs → g.parent_role_id ≡ p → Has g.child_role_id new
    pub closed : ClosedSince grants old new
    pub sound : (x : Text) → Has x new → Has x old ⊎ Inherits grants p x

  unchanged-Visited : (p : Text) (w : List Text) → Has p w → Visited p w w
  unchanged-Visited p w m = record {
    grows = λ x h. h;
    found = m;
    closed = λ x y h out. absurd (out h);
    sound = λ x h. inl h;
  }

  ClosedSince-trans :
      (a b c : List Text)
      → Within b c
      → ClosedSince grants a b
      → ClosedSince grants b c
      → ClosedSince grants a c
  ClosedSince-trans a b c sub first second x y m out e = elim (decide_Has b x) [
    | inl before ↦ sub y (first x y before out e)
    | inr later ↦ second x y m later e
  ]

  after_child :
      (g : RoleGrantRecord) (gs : List RoleGrantRecord) (p : Text) (a b c : List Text)
      → Has g grants
      → g.parent_role_id ≡ p
      → Visited g.child_role_id a b
      → Looped gs p b c
      → Looped (g ∷ gs) p a c
  after_child g gs p a b c m e v l = record {
    grows = λ x h. l.grows x (v.grows x h);
    children = λ h. elim [
      | inl same ↦
          λ _. subst (λ (k : RoleGrantRecord). Has k.child_role_id c) same (l.grows _ v.found)
      | inr later ↦ λ q. l.children h later q
    ];
    closed = ClosedSince-trans a b c l.grows v.closed l.closed;
    sound = λ x h. elim (l.sound x h) [
      | inr i ↦ inr i
      | inl before ↦ elim (v.sound x before) [
        | inl old ↦ inl old
        | inr i ↦ inr (through (g, m, e, refl) i)
      ]
    ];
  }

  other_parent :
      (g : RoleGrantRecord) (gs : List RoleGrantRecord) (p : Text) (a c : List Text)
      → (g.parent_role_id == p) ≡ false
      → Looped gs p a c
      → Looped (g ∷ gs) p a c
  other_parent g gs p a c other l = record {
    grows = l.grows;
    children = λ h. elim [
      | inl same ↦ λ q. absurd (differs (ap (λ (k : RoleGrantRecord). k.parent_role_id) same ∙ q))
      | inr later ↦ λ q. l.children h later q
    ];
    closed = l.closed;
    sound = l.sound;
  }
    where
      differs : ¬ (g.parent_role_id ≡ p)
      differs q = cc (other, (text_beq_iff g.parent_role_id p).1 q)

  each_child-Looped :
      (fuel : ℕ) (next : Text → List Text → List Text) (gs : List RoleGrantRecord) (p : Text)
      (w : List Text)
      → ((c : Text) (v : List Text)
          → Has c v ⊎ (outside grants (c ∷ v) < fuel)
          → Visited c v (next c v))
      → ((g : RoleGrantRecord) → Has g gs → Has g grants)
      → outside grants w ≤ fuel
      → Looped gs p w (each_child next gs p w)
  unfolding each_child
  each_child-Looped fuel next [] p w good part few = record {
    grows = λ x h. h;
    children = λ g m. absurd m;
    closed = λ x y h out. absurd (out h);
    sound = λ x h. inl h;
  }
  each_child-Looped fuel next (g ∷ gs) p w good part few =
      elim (Bool-cases (g.parent_role_id == p)) [
        | inl same ↦
            let v = good g.child_role_id w (enough (decide_Has w g.child_role_id)) in
            rw same (
              after_child g gs p w (next g.child_role_id w) _ (part g (inl refl))
                ((text_beq_iff g.parent_role_id p).0 same) v
                (each_child-Looped fuel next gs p (next g.child_role_id w) good
                  (λ h m. part h (inr m))
                  (omega (arith, outside-le grants w (next g.child_role_id w) v.grows))))
        | inr other ↦ rw other (
            other_parent g gs p w _ other
              (each_child-Looped fuel next gs p w good (λ h m. part h (inr m)) few))
      ]
    where
      enough :
          Has g.child_role_id w ⊎ (¬ Has g.child_role_id w)
          → Has g.child_role_id w ⊎ (outside grants (g.child_role_id ∷ w) < fuel)
      enough (inl m) = inl m
      enough (inr out) = inr (omega (arith, outside-lt grants g w (part g (inl refl)) out))

  fresh-Visited : (p : Text) (w v : List Text) → Looped grants p (p ∷ w) v → Visited p w v
  fresh-Visited p w v l = record {
    grows = λ x h. l.grows x (inr h);
    found = l.grows p (inl refl);
    closed = λ x y h out (g, m, e, f). elim (decide_Has (p ∷ w) x) [
      | inl (inl same) ↦ subst (λ z. Has z v) f (l.children g m (e ∙ sym same))
      | inl (inr old) ↦ absurd (out old)
      | inr far ↦ l.closed x y h far (g, m, e, f)
    ];
    sound = λ x h. elim (l.sound x h) [
      | inl (inl same) ↦ inr (subst (Inherits grants p) same itself)
      | inl (inr old) ↦ inl old
      | inr i ↦ inr i
    ];
  }

  visit_within-Visited :
      (fuel : ℕ) (p : Text) (w : List Text)
      → Has p w ⊎ (outside grants (p ∷ w) < fuel)
      → Visited p w (visit_within fuel grants p w)
  unfolding visit_within
  visit_within-Visited zero p w (inl m) = unchanged-Visited p w m
  visit_within-Visited zero p w (inr few) = absurd (omega arith)
  visit_within-Visited (suc fuel) p w enough = elim (Bool-cases (contains w p)) [
    | inl there ↦ rw there (unchanged-Visited p w (contains-Has w p there))
    | inr absent ↦ rw absent (
        fresh-Visited p w _ (
          each_child-Looped fuel (visit_within fuel grants) grants p (p ∷ w)
            (visit_within-Visited fuel) (λ g m. m) (few absent enough)))
  ]
    where
      few :
          contains w p ≡ false
          → Has p w ⊎ (outside grants (p ∷ w) < suc fuel)
          → outside grants (p ∷ w) ≤ fuel
      few absent (inl m) = cc (Has-contains w p m, absent)
      few absent (inr n) = omega arith

  pub visit-Visited : (p : Text) (w : List Text) → Visited p w (visit grants p w)
  unfolding visit
  visit-Visited p w =
      visit_within-Visited (suc (length grants)) p w
        (inr (omega (arith, outside-length grants (p ∷ w))))
