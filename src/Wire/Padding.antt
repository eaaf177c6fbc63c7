-- ===== src/Wire/Padding.antt =====
-- Record alignment: what `paddedPayload` of include/sub0log/wire.hpp computes.
use sub0log.Common.{ℕ, ◌+◌, ◌-◌, ◌*◌, ◌/◌, ◌%◌, ◌^◌, ◌≤◌, ◌<◌, ◌≡◌, arith, bit_and}
use sub0log.Common.Bits.{and_digit, and_mask}
use sub0log.Wire.{padded_payload}

and_eights : (x m : ℕ) → bit_and x (m * 8) ≡ bit_and (x / 8) m * 8
and_eights x m =
    ground (arith, and_digit x (m * 8), and_digit (x / 2) (m * 4), and_digit (x / 4) (m * 2))

-- A payload length is rounded up to the next multiple of eight.
pub padded_payload_eq : (n : ℕ) → n + 7 < 2 ^ 32 → padded_payload n ≡ (n + 7) / 8 * 8
unfolding padded_payload
padded_payload_eq n h =
    let small : (n + 7) % 2 ^ 32 ≡ n + 7 = omega arith in
    rw small (omega (arith, and_eights (n + 7) (2 ^ 29 - 1), and_mask 29 ((n + 7) / 8)))

-- Record storage of a payload that fits the 16 bits of a head word: a multiple of eight, at least
-- the payload, and fewer than eight bytes more.
pub padded_payload_bounds :
    (n : ℕ)
    → n < 2 ^ 16
    → (padded_payload n % 8 ≡ 0) × (n ≤ padded_payload n) × (padded_payload n < n + 8)
padded_payload_bounds n h = omega (arith, padded_payload_eq n (omega arith))
