-- ===== src/Wire/SizeClass.antt =====
-- include/sub0log/wire.hpp: the chunk size classes.
pub mod Inverse
use sub0log.Common.{
  ℕ, zero, suc, ◌+◌, ◌-◌, ◌*◌, ◌%◌, ◌^◌, ◌≤◌, ◌<◌, ◌≡◌, refl, arith, Option, none, some, ◌==◌,
  if◌then◌else◌, ◌⊎◌, inl, inr, ◌↔◌, sym, Bool-cases, ==_iff, ◌≢◌,
}

abbrev pub chunk_size_unit : ℕ
chunk_size_unit = 128

abbrev pub max_chunk_size_class : ℕ
max_chunk_size_class = 17

-- `cChunkSizeUnit << (sizeClass - 1u)` in 32 bits; the class is at least 1.
unfoldable pub chunk_bytes_for_size_class : ℕ → ℕ
chunk_bytes_for_size_class c = chunk_size_unit * 2 ^ (c - 1) % 2 ^ 32

-- The loop over the classes from `c` on, with the number of rounds that are left.
find_class : ℕ → ℕ → ℕ → Option ℕ
find_class zero c b = none
find_class (suc rounds) c b =
    let rest = find_class rounds (c + 1) b in
    if chunk_bytes_for_size_class c == b then some c else rest

unfoldable pub size_class_for_chunk_bytes : ℕ → Option ℕ
unfolding find_class
size_class_for_chunk_bytes b = find_class max_chunk_size_class 1 b
