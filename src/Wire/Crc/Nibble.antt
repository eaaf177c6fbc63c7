-- ===== src/Wire/Crc/Nibble.antt =====
-- The table-driven CRC-32 of include/sub0log/wire.hpp against the bit-by-bit one.
use sub0log.Common.{
  ℕ, ◌+◌, ◌*◌, ◌/◌, ◌%◌, ◌<◌, ◌≡◌, refl, ap, ap₂, sym, ◌∙◌, arith, ◌==◌, bit_xor, Bool, true,
  ==_iff, [], ◌∷◌,
}
use sub0log.Common.Bits.{and_mask, xor_digit}
use sub0log.Common.Bytes.{Bytes}
use sub0log.Common.Tables.{all_below, all_below-at}
use sub0log.Common.Xor.{xor-zero}
use sub0log.Wire.Crc.{
  shift_bit, shift_bits, nibble_table, table_at, shift_nibble, crc_byte, complement, crc32,
}
use sub0log.Wire.Crc.Linear.{shift_bits-xor, shift_bit-even}
use mathlib.Core.List.{foldl}

-- Each table entry is the remainder of its index.
entry_is : ℕ → Bool
entry_is i = table_at nibble_table i == shift_bits 4 i

entry_table : all_below 16 entry_is ≡ true
unfolding all_below entry_is table_at nibble_table shift_bit
entry_table = refl

table_at-nibble_table : (i : ℕ) → i < 16 → table_at nibble_table i ≡ shift_bits 4 i
unfolding entry_is
table_at-nibble_table i h =
    (==_iff (table_at nibble_table i) (shift_bits 4 i)).0 (all_below-at 16 entry_is i entry_table h)

-- A number is the exclusive or of its upper digits and its lowest four.
xor_split : (h l : ℕ) → l < 16 → bit_xor (h * 16) l ≡ h * 16 + l
xor_split h l lt = ground (
  arith,
  xor_digit (h * 16) l,
  xor_digit (h * 8) (l / 2),
  xor_digit (h * 4) (l / 4),
  xor_digit (h * 2) (l / 8),
  xor-zero h,
)

four_even : (h : ℕ) → shift_bits 4 (h * 16) ≡ h
four_even h =
    let e1 : shift_bit (h * 16) ≡ h * 8 = shift_bit-even (h * 16) (omega arith) ∙ omega arith in
    let e2 : shift_bit (h * 8) ≡ h * 4 = shift_bit-even (h * 8) (omega arith) ∙ omega arith in
    let e3 : shift_bit (h * 4) ≡ h * 2 = shift_bit-even (h * 4) (omega arith) ∙ omega arith in
    let e4 : shift_bit (h * 2) ≡ h = shift_bit-even (h * 2) (omega arith) ∙ omega arith in
    ap (shift_bits 3) e1 ∙ ap (shift_bits 2) e2 ∙ ap (shift_bits 1) e3 ∙ e4

-- One table step is four bit steps.
pub shift_nibble-eq : (x : ℕ) → shift_nibble x ≡ shift_bits 4 x
unfolding shift_nibble
shift_nibble-eq x =
    let split : x ≡ bit_xor (x / 16 * 16) (x % 16) =
      omega (arith, xor_split (x / 16) (x % 16) (omega arith)) in
    ap₂ bit_xor refl (ap (table_at nibble_table) (and_mask 4 x))
    ∙ ap (bit_xor (x / 16)) (table_at-nibble_table (x % 16) (omega arith))
    ∙ sym (
        ap (shift_bits 4) split
        ∙ shift_bits-xor 4 (x / 16 * 16) (x % 16)
        ∙ ap (λ t. bit_xor t (shift_bits 4 (x % 16))) (four_even (x / 16)))

-- The textbook definition: each byte is added, then eight bits are shifted out.
abbrev pub bitwise_byte : ℕ → ℕ → ℕ
bitwise_byte crc b = shift_bits 8 (bit_xor crc b)

abbrev pub bitwise_crc32 : ℕ → Bytes → ℕ
bitwise_crc32 crc bs = complement (foldl bitwise_byte (complement crc) bs)

pub crc_byte-eq : (crc b : ℕ) → crc_byte crc b ≡ bitwise_byte crc b
unfolding crc_byte
crc_byte-eq crc b =
    shift_nibble-eq (shift_nibble (bit_xor crc b))
    ∙ ap (shift_bits 4) (shift_nibble-eq (bit_xor crc b))

pub foldl-crc_byte : (bs : Bytes) (crc : ℕ) → foldl crc_byte crc bs ≡ foldl bitwise_byte crc bs
foldl-crc_byte [] crc = refl
foldl-crc_byte (b ∷ bs) crc =
    foldl-crc_byte bs (crc_byte crc b) ∙ ap (λ t. foldl bitwise_byte t bs) (crc_byte-eq crc b)

-- The table-driven CRC-32 computes the bit-by-bit CRC-32, from every start value and on every input.
pub crc32-bitwise : (crc : ℕ) (bs : Bytes) → crc32 crc bs ≡ bitwise_crc32 crc bs
unfolding crc32
crc32-bitwise crc bs = ap complement (foldl-crc_byte bs (complement crc))
