-- ===== src/Warehouse/Size.antt =====
-- Names and sizes of warehouses (pkg/warehouse/manager.go).
use snowflake_emulator.Base.{
  ℕ, suc, ◌^◌, Text, str, trim_space, to_upper, text_eq, ◌==◌, Bool, List, [], ◌∷◌, contains,
  if◌then◌else◌,
}

unfoldable pub normalize_name : Text → Text
unfolding trim_space to_upper
normalize_name v = to_upper (trim_space v)

abbrev default_size : Text → Text
default_size [] = str "X-SMALL"
default_size (c ∷ s) = c ∷ s

unfoldable pub normalize_size : Text → Text
unfolding trim_space to_upper
normalize_size v = default_size (to_upper (trim_space v))

abbrev pub sizes : List Text
sizes =
    str "X-SMALL"
    ∷ str "SMALL"
    ∷ str "MEDIUM"
    ∷ str "LARGE"
    ∷ str "X-LARGE"
    ∷ str "2X-LARGE"
    ∷ str "3X-LARGE"
    ∷ str "4X-LARGE"
    ∷ str "5X-LARGE"
    ∷ str "6X-LARGE"
    ∷ []

unfoldable pub valid_size : Text → Bool
unfolding contains
valid_size v = contains sizes v

-- The loop of `capacity` from index i on; 1 << i is 2 ^ i.
unfoldable pub capacity_from : ℕ → List Text → Text → ℕ
capacity_from i [] v = 1
capacity_from i (s ∷ ss) v = if v == s then 2 ^ i else capacity_from (suc i) ss v

unfoldable pub capacity : Text → ℕ
unfolding capacity_from
capacity v = capacity_from 0 sizes v
