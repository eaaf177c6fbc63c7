-- ===== src/Wire/SizeClass/Inverse.antt =====
-- The two conversions between chunk sizes and size classes are inverse to each other.
use sub0log.Common.{
  ℕ, zero, suc, ◌+◌, ◌^◌, Bool, ltb, leb, ◌&&◌, true, false, ◌≤◌, ◌<◌, ◌≡◌, refl, arith, none, some,
  ◌==◌, ◌↔◌,
}
use sub0log.Common.Tables.{all_below, all_below-at}
use sub0log.Wire.SizeClass.{
  max_chunk_size_class, chunk_bytes_for_size_class, find_class, size_class_for_chunk_bytes,
}

-- A class that the loop returns has the size, and was among those that were left.
find_class_sound :
    (rounds c b k : ℕ)
    → find_class rounds c b ≡ some k
    → (chunk_bytes_for_size_class k ≡ b) × (c ≤ k) × (k < c + rounds)
unfolding find_class
find_class_sound zero c b k e = ground arith
find_class_sound (suc rounds) c b k e = ground (arith, find_class_sound rounds (c + 1) b k)

-- Every class is found again from its own size.
found_again : ℕ → Bool
found_again i = elim (size_class_for_chunk_bytes (chunk_bytes_for_size_class (i + 1))) [
  | none ↦ false
  | some c ↦ c == i + 1
]

found_again_table : all_below max_chunk_size_class found_again ≡ true
unfolding all_below found_again size_class_for_chunk_bytes chunk_bytes_for_size_class
found_again_table = refl

class_of_size :
    (k : ℕ)
    → 1 ≤ k
    → k ≤ max_chunk_size_class
    → size_class_for_chunk_bytes (chunk_bytes_for_size_class k) ≡ some k
unfolding found_again
class_of_size zero lo hi = absurd (omega arith)
class_of_size (suc i) lo hi =
    let step : i + 1 ≡ suc i = omega arith in
    let here : found_again i ≡ true =
      all_below-at 17 found_again i found_again_table (omega arith) in
    ground (arith, step, here)

-- A byte count has a size class exactly when it is the size of one of the 17 classes, and the
-- class is then the one of that size.
pub size_class_iff :
    (b k : ℕ)
    → (size_class_for_chunk_bytes b ≡ some k)
      ↔ ((1 ≤ k) × (k ≤ max_chunk_size_class) × (chunk_bytes_for_size_class k ≡ b))
unfolding size_class_for_chunk_bytes
size_class_iff b k = (
  λ e. omega (arith, find_class_sound max_chunk_size_class 1 b k e),
  λ (lo, hi, e). rw (← e) (class_of_size k lo hi),
)

in_range : ℕ → Bool
in_range i =
    leb 128 (chunk_bytes_for_size_class (i + 1))
    && ltb (chunk_bytes_for_size_class (i + 1)) (2 ^ 32)

in_range_table : all_below max_chunk_size_class in_range ≡ true
unfolding all_below in_range chunk_bytes_for_size_class
in_range_table = refl

-- Every class has at least the unit's size, in 32 bits.
pub class_bytes-range :
    (k : ℕ)
    → 1 ≤ k
    → k ≤ max_chunk_size_class
    → (128 ≤ chunk_bytes_for_size_class k) × (chunk_bytes_for_size_class k < 2 ^ 32)
unfolding in_range
class_bytes-range zero lo hi = absurd (omega arith)
class_bytes-range (suc i) lo hi =
    let step : i + 1 ≡ suc i = omega arith in
    let here : in_range i ≡ true = all_below-at 17 in_range i in_range_table (omega arith) in
    ground (arith, step, here)
