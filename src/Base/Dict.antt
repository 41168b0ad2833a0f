-- ===== src/Base/Dict.antt =====
-- Go's `map[string]V` behind its laws. The representation is an association list; where the program
-- ranges over a map, whose order Go leaves open, the model takes the order of this list.
use mathlib.Core.Path.{◌≡◌, refl, subst}
use mathlib.Core.Bool.{Bool, true, false}
use mathlib.Core.Option.{Option, none, some}
use mathlib.Core.Logic.{inl, inr}
use mathlib.Core.List.{List, [], ◌∷◌, map, Mem, mem-cons_self, mem-cons_of_mem}
use native.Mathlib.Omega.{arith}
use snowflake_emulator.Base.Tests.{◌==◌, if◌then◌else◌, Bool-cases}
use snowflake_emulator.Base.Strings.{text_beq_refl, Text, text_eq, text_beq_iff}

pub record Dict {ℓ} (V : Type ℓ) : Type ℓ where
  entries : List (Text × V)

module _ {ℓ} {V : Type ℓ} where
  seek : Text → List (Text × V) → Option V
  seek key [] = none
  seek key ((here, value) ∷ more) = if here == key then some value else seek key more

  omit : Text → List (Text × V) → List (Text × V)
  omit key [] = []
  omit key ((here, value) ∷ more) =
      let others = omit key more in if here == key then others else (here, value) ∷ others

  seek-omit :
      (gone key : Text) (l : List (Text × V))
      → seek key (omit gone l) ≡ (if gone == key then none else seek key l)
  unfolding seek omit
  seek-omit gone key [] = ground arith
  seek-omit gone key ((here, value) ∷ more) = ground (
    arith,
    seek-omit gone key more,
    text_beq_iff gone key,
    text_beq_iff here gone,
    text_beq_iff here key,
  )

  keep_entries : (Text → V → Bool) → List (Text × V) → List (Text × V)
  unfolding omit
  keep_entries p [] = []
  keep_entries p ((j, v) ∷ l) =
      let rest = keep_entries p l in if p j v then (j, v) ∷ rest else omit j rest

  abbrev pub if_kept : (Text → V → Bool) → Text → Option V → Option V
  if_kept p k none = none
  if_kept p k (some v) = if p k v then some v else none

  seek-keep_entries :
      (p : Text → V → Bool) (k : Text) (l : List (Text × V))
      → seek k (keep_entries p l) ≡ if_kept p k (seek k l)
  unfolding seek keep_entries
  seek-keep_entries p k [] = refl
  seek-keep_entries p k ((j, v) ∷ l) = elim (Bool-cases (j == k)) [
    | inl same ↦ ground (
      arith,
      (text_beq_iff j k).0 same,
      seek-keep_entries p k l,
      seek-omit j k (keep_entries p l),
    )
    | inr other ↦ ground (arith, other, seek-keep_entries p k l, seek-omit j k (keep_entries p l))
  ]

  unfoldable pub empty : Dict V
  empty = record { entries = [] }

  -- m[k], with `none` for a missing key
  unfoldable pub get : Dict V → Text → Option V
  unfolding seek
  get d k = seek k d.entries

  -- m[k] = v
  unfoldable pub put : Dict V → Text → V → Dict V
  unfolding omit
  put d k v = record { entries = (k, v) ∷ omit k d.entries }

  -- delete(m, k)
  unfoldable pub remove : Dict V → Text → Dict V
  unfolding omit
  remove d k = record { entries = omit k d.entries }

  -- for k, v := range m { if !p(k, v) { delete(m, k) } }
  unfoldable pub retain : (Text → V → Bool) → Dict V → Dict V
  unfolding keep_entries
  retain p d = record { entries = keep_entries p d.entries }

  unfoldable pub keys : Dict V → List Text
  keys d = map (λ e. e.0) d.entries

  unfoldable pub values : Dict V → List V
  values d = map (λ e. e.1) d.entries

  pub get-remove :
      (d : Dict V) (k j : Text) → get (remove d k) j ≡ (if k == j then none else get d j)
  unfolding get remove
  get-remove d k j = seek-omit k j d.entries

  pub get-put :
      (d : Dict V) (k j : Text) (v : V) → get (put d k v) j ≡ (if k == j then some v else get d j)
  unfolding get put
  get-put d k j v = simp seek-omit (ground arith)

  pub get-retain :
      (p : Text → V → Bool) (d : Dict V) (k : Text) → get (retain p d) k ≡ if_kept p k (get d k)
  unfolding get retain
  get-retain p d k = seek-keep_entries p k d.entries

pub get-put_self {ℓ} : {V : Type ℓ} (d : Dict V) (k : Text) (v : V) → get (put d k v) k ≡ some v
get-put_self d k v = simp (get-put, text_beq_refl)

pub get-empty {ℓ} : {V : Type ℓ} (k : Text) → get (empty {V = V}) k ≡ none
unfolding get empty
get-empty k = refl

-- Every entry satisfies P.
abbrev pub ForAll {ℓ κ} : {V : Type ℓ} → (Text → V → Type κ) → Dict V → Type (ℓ ⊔ κ)
ForAll {V} P d = (k : Text) (v : V) → get d k ≡ some v → P k v

module _ {ℓ} {V : Type ℓ} where
  removed_entry : (b : Bool) (w : V) (o : Option V) → (if b then none else o) ≡ some w → o ≡ some w
  removed_entry true w o e = cc
  removed_entry false w o e = e

  kept_entry :
      (p : Text → V → Bool) (j : Text) (w : V) (o : Option V) → if_kept p j o ≡ some w → o ≡ some w
  kept_entry p j w none e = e
  kept_entry p j w (some v) e = ground arith

module _ {ℓ κ} {V : Type ℓ} (P : Text → V → Type κ) where
  pub ForAll-empty : ForAll P empty
  ForAll-empty k v e = cc (get-empty {V = V} k)

  put_entry :
      (b : Bool) (k j : Text) (v w : V) (o : Option V)
      → (b ≡ true → k ≡ j)
      → P k v
      → (o ≡ some w → P j w)
      → (if b then some v else o) ≡ some w
      → P j w
  put_entry true k j v w o same p old e =
      subst (λ u. P j u) (some_eq e) (subst (λ i. P i v) (same refl) p)
    where
      some_eq : some v ≡ some w → v ≡ w
      some_eq q = cc
  put_entry false k j v w o same p old e = old e

  pub ForAll-put : (d : Dict V) (k : Text) (v : V) → ForAll P d → P k v → ForAll P (put d k v)
  ForAll-put d k v all p j w e =
      put_entry (k == j) k j v w (get d j) (text_beq_iff k j).0 p (all j w) (rw get-put at e)

  pub ForAll-remove : (d : Dict V) (k : Text) → ForAll P d → ForAll P (remove d k)
  ForAll-remove d k all j w e = all j w (removed_entry (k == j) w (get d j) (rw get-remove at e))

  pub ForAll-retain : (p : Text → V → Bool) (d : Dict V) → ForAll P d → ForAll P (retain p d)
  ForAll-retain p d all j w e = all j w (kept_entry p j w (get d j) (rw get-retain at e))

module _ {ℓ} {V : Type ℓ} where
  seek-mem : (k : Text) (v : V) (l : List (Text × V)) → seek k l ≡ some v → Mem v (map (λ e. e.1) l)
  unfolding seek
  seek-mem k v [] e = cc
  seek-mem k v ((j, w) ∷ l) e = elim (Bool-cases (j == k)) [
    | inl same ↦ subst (λ u. Mem u (w ∷ map (λ e. e.1) l)) (found (rw same at e)) mem-cons_self
    | inr other ↦ mem-cons_of_mem w (seek-mem k v l (rw other at e))
  ]
    where
      found : some w ≡ some v → w ≡ v
      found q = cc

  -- Ranging over the map meets every entry.
  pub mem-values : (d : Dict V) (k : Text) (v : V) → get d k ≡ some v → Mem v (values d)
  unfolding get values
  mem-values d k v e = seek-mem k v d.entries e

pub ruleset dict_laws = (get-empty, get-remove, get-put, get-retain)
