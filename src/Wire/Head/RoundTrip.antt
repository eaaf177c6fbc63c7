-- ===== src/Wire/Head/RoundTrip.antt =====
-- Head words of include/sub0log/wire.hpp: packing and unpacking, and what counts as committed.
use sub0log.Common.{ℕ, ◌^◌, ◌<◌, ◌≡◌, arith, true, false}
use sub0log.Wire.Head.{RecordHead, IsValid, pack, unpack, is_committed, pack_sum, unpack_fields}

-- A head whose fields fit their types is read back from its word, and the word counts as committed.
pub unpack-pack :
    (h : RecordHead) → IsValid h → (unpack (pack h) ≡ h) × (is_committed (pack h) ≡ true)
unfolding is_committed
unpack-pack h v = ground (arith, pack_sum h v, unpack_fields (pack h))

-- A committed 64-bit word is the packing of what it unpacks to, and that head's fields fit.
pub pack-unpack :
    (w : ℕ) → w < 2 ^ 64 → is_committed w ≡ true → IsValid (unpack w) × (pack (unpack w) ≡ w)
unfolding is_committed
pack-unpack w h c = (fits, ground (arith, pack_sum (unpack w) fits, unpack_fields w))
  where
    fits : IsValid (unpack w)
    fits = ground (arith, unpack_fields w)

-- A word whose upper 16 bits are still unwritten is not committed: neither the zero word nor one
-- that holds only the fields below the tag.
pub untagged_not_committed : (w : ℕ) → w < 2 ^ 48 → is_committed w ≡ false
unfolding is_committed
untagged_not_committed w h = ground arith

pub pack-lt : (h : RecordHead) → IsValid h → pack h < 2 ^ 64
pack-lt h v = omega (arith, pack_sum h v)
