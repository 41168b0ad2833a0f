-- ===== src/Base/Int.antt =====
-- Go's signed `int` as a mathematical integer; `negsuc n` is -(n + 1).
use Prim.Native.Nat.{◌≤◌, ℕ, zero, suc}
use mathlib.Core.Path.{◌≡◌}
use native.Mathlib.Omega.{arith}
use Prim.Native.Nat.{◌≤◌}
use snowflake_emulator.Base.Tests.{ltb, ltb→lt}
use mathlib.Core.Bool.{Bool, true, false}

pub data ℤ : Type 0 where
  pos : ℕ → ℤ
  negsuc : ℕ → ℤ

abbrev pub is_neg : ℤ → Bool
is_neg (pos n) = false
is_neg (negsuc n) = true

abbrev pub is_pos : ℤ → Bool
is_pos (pos zero) = false
is_pos (pos (suc n)) = true
is_pos (negsuc n) = false

-- The value of a non-negative integer.
abbrev pub to_ℕ : ℤ → ℕ
to_ℕ (pos n) = n
to_ℕ (negsuc n) = 0

-- `i < j`
abbrev pub ltb_int : ℤ → ℤ → Bool
ltb_int (pos m) (pos n) = ltb m n
ltb_int (pos m) (negsuc n) = false
ltb_int (negsuc m) (pos n) = true
ltb_int (negsuc m) (negsuc n) = ltb n m

infix 50 ◌≤ℤ◌
abbrev pub ◌≤ℤ◌ : ℤ → ℤ → Type 0
pos m ≤ℤ pos n = m ≤ n
pos m ≤ℤ negsuc n = ⊥
negsuc m ≤ℤ pos n = Unit
negsuc m ≤ℤ negsuc n = n ≤ m

-- What is below something smaller is below the greater.
pub ≤ℤ-ltb_int : (i j k : ℤ) → i ≤ℤ j → ltb_int j k ≡ true → i ≤ℤ k
≤ℤ-ltb_int (pos i) (pos j) (pos k) below less = omega (arith, below, ltb→lt j k less)
≤ℤ-ltb_int (pos i) (pos j) (negsuc k) below less = cc
≤ℤ-ltb_int (pos i) (negsuc j) k below less = absurd below
≤ℤ-ltb_int (negsuc i) j (pos k) below less = tt
≤ℤ-ltb_int (negsuc i) (pos j) (negsuc k) below less = cc
≤ℤ-ltb_int (negsuc i) (negsuc j) (negsuc k) below less = omega (arith, below, ltb→lt k j less)
