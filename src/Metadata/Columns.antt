-- ===== src/Metadata/Columns.antt =====
-- What the stored text of column definitions says, read without the code that writes it: columns
-- between semicolons, the fields of a column between colons.
use mathlib.Core.List.{append_assoc}
use snowflake_emulator.Base.{
  subst, sym, ℕ, ◌≡◌, ◌∙◌, ap, refl, Text, str, nat_eq, Option, none, some, Bool, true, false, List,
  [], ◌∷◌, ◌++◌, map, ◌==◌, if◌then◌else◌, All, arith,
}
use snowflake_emulator.Metadata.Types.{ColumnDef}
use snowflake_emulator.Metadata.Objects.{join, serialize_column_defs}

abbrev before : ℕ → List Text → List Text
before x [] = (x ∷ []) ∷ []
before x (w ∷ ws) = (x ∷ w) ∷ ws

-- A text cut at every occurrence of a character.
unfoldable pub split : ℕ → Text → List Text
split c [] = [] ∷ []
split c (x ∷ xs) = let rest = split c xs in if x == c then [] ∷ rest else before x rest

unfoldable pub read_columns : Text → List (List Text)
unfolding split
read_columns text = map (split 58) (split 59 text)

abbrev flag : Bool → Text
flag b = if b then str "true" else str "false"

abbrev default_text : Option Text → Text
default_text none = []
default_text (some value) = value

-- Name, type, whether it takes NULL, whether it is a key, and the default, empty if there is none.
abbrev pub described : ColumnDef → List Text
described c =
    c.name ∷ c.type_name ∷ flag c.nullable ∷ flag c.primary_key ∷ default_text c.default ∷ []

abbrev pub Avoids : ℕ → Text → Type 0
Avoids c text = All (λ x. (x == c) ≡ false) text

-- No field of the column has a colon or a semicolon.
abbrev pub IsReadable : ColumnDef → Type 0
IsReadable c =
    (Avoids 58 c.name × Avoids 59 c.name)
    × (Avoids 58 c.type_name × Avoids 59 c.type_name)
    × (Avoids 58 (default_text c.default) × Avoids 59 (default_text c.default))

split-append : (c : ℕ) (w rest : Text) → Avoids c w → split c (w ++ c ∷ rest) ≡ w ∷ split c rest
unfolding split
split-append c [] rest a = rw (same c) refl
  where
    same : (n : ℕ) → (n == n) ≡ true
    same n = ground arith
split-append c (x ∷ w) rest (other, a) = rw (other, split-append c w rest a) refl

split-plain : (c : ℕ) (w : Text) → Avoids c w → split c w ≡ w ∷ []
unfolding split
split-plain c [] a = refl
split-plain c (x ∷ w) (other, a) = rw (other, split-plain c w a) refl

split-join :
    (c : ℕ) (w : Text) (ws : List Text)
    → All (Avoids c) (w ∷ ws)
    → split c (join (c ∷ []) (w ∷ ws)) ≡ w ∷ ws
unfolding join
split-join c w [] (a, rest) = split-plain c w a
split-join c w (v ∷ ws) (a, rest) =
    let later = join (c ∷ []) (v ∷ ws) in
    subst (λ text. split c text ≡ w ∷ v ∷ ws) (sym (append_assoc w (c ∷ []) later))
      (split-append c w later a ∙ ap (λ zs. w ∷ zs) (split-join c v ws rest))

flag-Avoids : (b : Bool) → Avoids 58 (flag b) × Avoids 59 (flag b)
flag-Avoids true = ((refl, (refl, (refl, (refl, tt)))), (refl, (refl, (refl, (refl, tt)))))
flag-Avoids false =
    ((refl, (refl, (refl, (refl, (refl, tt))))), (refl, (refl, (refl, (refl, (refl, tt))))))

Avoids-append : (c : ℕ) (v w : Text) → Avoids c v → Avoids c w → Avoids c (v ++ w)
Avoids-append c [] w a b = b
Avoids-append c (x ∷ v) w (other, a) b = (other, Avoids-append c v w a b)

join-Avoids :
    (c separator : ℕ) (ws : List Text)
    → (separator == c) ≡ false
    → All (Avoids c) ws
    → Avoids c (join (separator ∷ []) ws)
unfolding join
join-Avoids c separator [] other a = tt
join-Avoids c separator (w ∷ []) other (a, rest) = a
join-Avoids c separator (w ∷ v ∷ ws) other (a, rest) =
    let later = join (separator ∷ []) (v ∷ ws) in
    subst (Avoids c) (sym (append_assoc w (separator ∷ []) later))
      (Avoids-append c w (separator ∷ later) a (other, join-Avoids c separator (v ∷ ws) other rest))

abbrev written : ColumnDef → Text
written c = join (str ":") (described c)

described-Avoids :
    (c : ColumnDef) → IsReadable c → All (Avoids 58) (described c) × All (Avoids 59) (described c)
described-Avoids c ((n, n'), (y, y'), (d, d')) =
    let (l, l') = flag-Avoids c.nullable in
    let (k, k') = flag-Avoids c.primary_key in
    ((n, (y, (l, (k, (d, tt))))), (n', (y', (l', (k', (d', tt))))))

cons-same : {x y : List Text} {xs ys : List (List Text)} → x ≡ y → xs ≡ ys → x ∷ xs ≡ y ∷ ys
cons-same {x} {y} {xs} {ys} e f = rw (e, f) refl

written-All :
    (cs : List ColumnDef)
    → All IsReadable cs
    → All (Avoids 59) (map written cs) × (map (split 58) (map written cs) ≡ map described cs)
written-All [] a = (tt, refl)
written-All (c ∷ cs) (a, rest) =
    let (fields, whole) = described-Avoids c a in
    let (plain, same) = written-All cs rest in
    (
      (join-Avoids 59 58 (described c) refl whole, plain),
      cons-same (split-join 58 c.name _ fields) same,
    )

-- The text that is written for columns gives them back.
pub read_columns-serialize_column_defs :
    (c : ColumnDef) (cs : List ColumnDef)
    → All IsReadable (c ∷ cs)
    → read_columns (serialize_column_defs (c ∷ cs)) ≡ map described (c ∷ cs)
unfolding read_columns serialize_column_defs
read_columns-serialize_column_defs c cs a =
    let (plain, same) = written-All (c ∷ cs) a in
    ap (map (split 58)) (split-join 59 (written c) (map written cs) plain) ∙ same
