-- ===== src/Wire/Crc/Linear.antt =====
-- The bitwise CRC step of include/sub0log/wire.hpp is linear, and loses no information.
use sub0log.Common.{
  ℕ, zero, suc, ◌/◌, ◌%◌, ◌^◌, ◌<◌, ◌≡◌, refl, ap, sym, ◌∙◌, arith, bit_xor, ◌⊎◌, inl, inr,
}
use sub0log.Common.Bits.{and_mask}
use sub0log.Common.Xor.{
  xor-half, xor-parity, xor_comm, xor_assoc, xor_self, xor-zero, zero-xor, xor-lt,
}
use sub0log.Wire.Crc.{polynomial, shift_bit, shift_bits}

parity_cases : (a : ℕ) → (a % 2 ≡ 0) ⊎ (a % 2 ≡ 1)
parity_cases a = go (a % 2) (omega arith)
  where
    go : (r : ℕ) → r < 2 → (r ≡ 0) ⊎ (r ≡ 1)
    go zero h = inl refl
    go (suc zero) h = inr refl
    go (suc (suc r)) h = absurd (omega arith)

pub shift_bit-even : (a : ℕ) → a % 2 ≡ 0 → shift_bit a ≡ a / 2
unfolding shift_bit
shift_bit-even a e = ground (arith, and_mask 1 a)

pub shift_bit-odd : (a : ℕ) → a % 2 ≡ 1 → shift_bit a ≡ bit_xor (a / 2) polynomial
unfolding shift_bit
shift_bit-odd a e = ground (arith, and_mask 1 a)

-- The polynomial is added twice, and cancels.
cancel_twice : (a b p : ℕ) → bit_xor (bit_xor a p) (bit_xor b p) ≡ bit_xor a b
cancel_twice a b p =
    xor_assoc a p (bit_xor b p)
    ∙ ap (bit_xor a) (
        ap (bit_xor p) (xor_comm b p)
        ∙ sym (xor_assoc p p b)
        ∙ ap (λ t. bit_xor t b) (xor_self p)
        ∙ zero-xor b)

slide : (a b p : ℕ) → bit_xor (bit_xor a b) p ≡ bit_xor (bit_xor a p) b
slide a b p = xor_assoc a b p ∙ ap (bit_xor a) (xor_comm b p) ∙ sym (xor_assoc a p b)

pub shift_bit-xor : (a b : ℕ) → shift_bit (bit_xor a b) ≡ bit_xor (shift_bit a) (shift_bit b)
shift_bit-xor a b = elim (parity_cases a) [
  | inl ea ↦ elim (parity_cases b) [
    | inl eb ↦
        rw
          (
            shift_bit-even a ea,
            shift_bit-even b eb,
            shift_bit-even (bit_xor a b) (omega (arith, xor-parity a b)),
          )
          (xor-half a b)
    | inr eb ↦
        rw
          (
            shift_bit-even a ea,
            shift_bit-odd b eb,
            shift_bit-odd (bit_xor a b) (omega (arith, xor-parity a b)),
          )
          (ap (λ t. bit_xor t polynomial) (xor-half a b) ∙ xor_assoc (a / 2) (b / 2) polynomial)
  ]
  | inr ea ↦ elim (parity_cases b) [
    | inl eb ↦
        rw
          (
            shift_bit-odd a ea,
            shift_bit-even b eb,
            shift_bit-odd (bit_xor a b) (omega (arith, xor-parity a b)),
          )
          (ap (λ t. bit_xor t polynomial) (xor-half a b) ∙ slide (a / 2) (b / 2) polynomial)
    | inr eb ↦
        rw
          (
            shift_bit-odd a ea,
            shift_bit-odd b eb,
            shift_bit-even (bit_xor a b) (omega (arith, xor-parity a b)),
          )
          (xor-half a b ∙ sym (cancel_twice (a / 2) (b / 2) polynomial))
  ]
]

pub shift_bits-xor :
    (n a b : ℕ) → shift_bits n (bit_xor a b) ≡ bit_xor (shift_bits n a) (shift_bits n b)
shift_bits-xor zero a b = refl
shift_bits-xor (suc n) a b =
    ap (shift_bits n) (shift_bit-xor a b) ∙ shift_bits-xor n (shift_bit a) (shift_bit b)

pub shift_bit-lt : (a : ℕ) → a < 2 ^ 32 → shift_bit a < 2 ^ 32
shift_bit-lt a h = elim (parity_cases a) [
  | inl e ↦ rw (shift_bit-even a e) (omega arith)
  | inr e ↦ rw (shift_bit-odd a e) (xor-lt 32 (a / 2) polynomial (omega arith) (omega arith))
]

pub shift_bits-lt : (n a : ℕ) → a < 2 ^ 32 → shift_bits n a < 2 ^ 32
shift_bits-lt zero a h = h
shift_bits-lt (suc n) a h = shift_bits-lt n (shift_bit a) (shift_bit-lt a h)

-- Equal numbers are those whose exclusive or is zero.
pub eq_of_xor : (a b : ℕ) → bit_xor a b ≡ 0 → a ≡ b
eq_of_xor a b e =
    sym (xor-zero a)
    ∙ ap (bit_xor a) (sym (xor_self b))
    ∙ sym (xor_assoc a b b)
    ∙ ap (λ t. bit_xor t b) e
    ∙ zero-xor b

-- Only zero is shifted to zero: the polynomial has the top bit, a halved word does not.
shift_bit-zero : (a : ℕ) → a < 2 ^ 32 → shift_bit a ≡ 0 → a ≡ 0
shift_bit-zero a h e = elim (parity_cases a) [
  | inl p ↦ omega (arith, shift_bit-even a p)
  | inr p ↦ omega (arith, eq_of_xor (a / 2) polynomial (sym (shift_bit-odd a p) ∙ e))
]

pub shift_bit-injective : (a b : ℕ) → a < 2 ^ 32 → b < 2 ^ 32 → shift_bit a ≡ shift_bit b → a ≡ b
shift_bit-injective a b ha hb e = eq_of_xor a b (
    shift_bit-zero (bit_xor a b) (xor-lt 32 a b ha hb)
      (shift_bit-xor a b ∙ ap (bit_xor (shift_bit a)) (sym e) ∙ xor_self (shift_bit a)))

pub shift_bits-injective :
    (n a b : ℕ) → a < 2 ^ 32 → b < 2 ^ 32 → shift_bits n a ≡ shift_bits n b → a ≡ b
shift_bits-injective zero a b ha hb e = e
shift_bits-injective (suc n) a b ha hb e =
    shift_bit-injective a b ha hb
      (shift_bits-injective n (shift_bit a) (shift_bit b) (shift_bit-lt a ha) (shift_bit-lt b hb) e)
