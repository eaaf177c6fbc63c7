-- ===== src/Wire/Crc.antt =====
-- include/sub0log/wire.hpp: CRC-32 by nibbles, and the checksum of a chunk header.
pub mod Linear
pub mod Nibble
pub mod Chain
use sub0log.Common.{
  ℕ, zero, suc, ◌+◌, ◌-◌, ◌*◌, ◌/◌, ◌%◌, ◌^◌, ◌==◌, if◌then◌else◌, bit_and, bit_xor, List, [], ◌∷◌,
  ◌++◌,
}
use sub0log.Common.Bytes.{Bytes, le_bytes}
use mathlib.Core.List.{foldl}

abbrev pub polynomial : ℕ
polynomial = 0xEDB88320

-- One round of the table's inner loop.
unfoldable pub shift_bit : ℕ → ℕ
shift_bit crc = if bit_and crc 1 == 0 then crc / 2 else bit_xor (crc / 2) polynomial

abbrev pub shift_bits : ℕ → ℕ → ℕ
shift_bits zero crc = crc
shift_bits (suc n) crc = shift_bits n (shift_bit crc)

-- `cCrc32NibbleTable`: entries `n`, `n + 1`, …, with the number of entries that are left.
unfoldable pub nibble_entries : ℕ → ℕ → List ℕ
unfolding shift_bit
nibble_entries zero n = []
nibble_entries (suc left) n = shift_bits 4 n ∷ nibble_entries left (n + 1)

unfoldable pub nibble_table : List ℕ
unfolding nibble_entries
nibble_table = nibble_entries 16 0

-- `cCrc32NibbleTable[i]`; the index is masked to 4 bits, so it is in range.
unfoldable pub table_at : List ℕ → ℕ → ℕ
table_at [] i = 0
table_at (x ∷ xs) zero = x
table_at (x ∷ xs) (suc i) = table_at xs i

-- `(crc >> 4u) ^ cCrc32NibbleTable[crc & 0xFu]`
unfoldable pub shift_nibble : ℕ → ℕ
unfolding nibble_table table_at
shift_nibble crc = bit_xor (crc / 2 ^ 4) (table_at nibble_table (bit_and crc 0xF))

unfoldable pub crc_byte : ℕ → ℕ → ℕ
unfolding shift_nibble
crc_byte crc b = shift_nibble (shift_nibble (bit_xor crc b))

-- `~crc` on 32 bits.
abbrev pub complement : ℕ → ℕ
complement x = 2 ^ 32 - 1 - x

unfoldable pub crc32 : ℕ → Bytes → ℕ
unfolding crc_byte
crc32 crc bs = complement (foldl crc_byte (complement crc) bs)

-- `computeChunkHeaderChecksum`: the three words, then the class byte; 0 is remapped to 1.
unfoldable pub header_checksum : ℕ → ℕ → ℕ → ℕ → ℕ
unfolding crc32
header_checksum generation owner_thread claim_mono_ns size_class =
    let buf = le_bytes 8 generation ++ (le_bytes 8 owner_thread ++ le_bytes 8 claim_mono_ns) in
    let crc = crc32 (crc32 0 buf) (size_class ∷ []) in if crc == 0 then 1 else crc
