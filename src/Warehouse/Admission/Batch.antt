-- ===== src/Warehouse/Admission/Batch.antt =====
-- The loop of `admit` against a description without a loop.
use Prim.Native.Nat.{min}
use snowflake_emulator.Base.{
  ℕ, suc, ◌+◌, ◌-◌, ◌≡◌, inl, inr, sym, ◌∙◌, Text, true, false, List, [], ◌∷◌, if◌then◌else◌,
  length, take, drop, arith, Bool-cases,
}
use snowflake_emulator.Warehouse.Types.{Warehouse, RuntimeWarehouse, Heap, is_active}
use snowflake_emulator.Warehouse.Size.{capacity}
use snowflake_emulator.Warehouse.Admission.{write, has_room, admitted_waiter, admit_loop, admit}

-- How many more statements the warehouse may run.
abbrev pub slots : Warehouse → ℕ
slots v = if is_active v.state then capacity v.size - v.running else 0

abbrev pub admit_all : Text → List ℕ → Heap → Heap
admit_all size [] h = h
admit_all size (w ∷ q) h = admit_all size q (write h w (admitted_waiter size))

-- The first k waiters start at once, in the order of the queue.
abbrev pub batch : ℕ → Warehouse → List ℕ → Heap → RuntimeWarehouse × Heap
batch k v q h = (
  record { value = record v { queued = v.queued - k; running = v.running + k }; queue = drop k q },
  admit_all v.size (take k q) h,
)

abbrev advanced : Warehouse → Warehouse
advanced v = record v { queued = v.queued - 1; running = v.running + 1 }

batch-zero :
    (v : Warehouse) (q : List ℕ) (h : Heap) → batch 0 v q h ≡ (record { value = v; queue = q }, h)
batch-zero v q h = ground arith

batch-suc :
    (k : ℕ) (v : Warehouse) (w : ℕ) (q : List ℕ) (h : Heap)
    → batch (suc k) v (w ∷ q) h ≡ batch k (advanced v) q (write h w (admitted_waiter v.size))
batch-suc k v w q h = ground arith

slots-full : (v : Warehouse) → has_room v ≡ false → slots v ≡ 0
slots-full v full = ground arith

slots-advanced : (v : Warehouse) → has_room v ≡ true → slots v ≡ suc (slots (advanced v))
slots-advanced v room = ground arith

min-slots :
    (v : Warehouse) (n : ℕ)
    → has_room v ≡ true
    → min (slots v) (suc n) ≡ suc (min (slots (advanced v)) n)
min-slots v n room = omega (arith, slots-advanced v room)

admit_loop-eq-batch :
    (v : Warehouse) (q : List ℕ) (h : Heap)
    → admit_loop v q h ≡ batch (min (slots v) (length q)) v q h
unfolding admit_loop
admit_loop-eq-batch v [] h = sym (rw (min-zero (slots v)) (batch-zero v [] h))
  where
    min-zero : (n : ℕ) → min n 0 ≡ 0
    min-zero n = omega arith
admit_loop-eq-batch v (w ∷ q) h = elim (Bool-cases (has_room v)) [
  | inl room ↦ rw room (
      admit_loop-eq-batch (advanced v) q (write h w (admitted_waiter v.size))
      ∙ sym (rw (min-slots v (length q) room) (batch-suc _ v w q h)))
  | inr full ↦ rw full (sym (rw (none_fits full) (batch-zero v (w ∷ q) h)))
]
  where
    none_fits : has_room v ≡ false → min (slots v) (suc (length q)) ≡ 0
    none_fits full = omega (arith, slots-full v full)

-- Admission starts the longest waiting statements, in the order in which they came, and exactly as
-- many as there are free slots, or all of them if there are more slots: each of their waiters is
-- sent its admission with the size of the warehouse, the others and the rest of the queue stay as
-- they are, and the counters move by that number. A warehouse that is not active admits nobody.
pub admit-eq-batch :
    (item : RuntimeWarehouse) (h : Heap)
    → admit item h ≡ batch (min (slots item.value) (length item.queue)) item.value item.queue h
unfolding admit
admit-eq-batch item h = admit_loop-eq-batch item.value item.queue h
