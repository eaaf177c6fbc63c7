-- ===== src/Definitions/Shorten.antt =====
-- `writeSiteDefinitionCore` of include/sub0log/detail/emit.hpp: the lengths for an empty chunk.
use sub0log.Common.{
  ℕ, ◌+◌, ◌-◌, ◌/◌, ◌%◌, ◌^◌, ◌≤◌, ◌<◌, ◌≡◌, arith, min, true, ◌||◌, ltb, if◌then◌else◌, ◌⊎◌,
}
use sub0log.Wire.{padded_payload}
use sub0log.Wire.Padding.{padded_payload_eq}
use sub0log.Definitions.{definition_payload_bytes, shorten}

cap_at : ℕ → ℕ → ℕ
cap_at cap len = if ltb cap len then cap else len

cap_at_le : (cap len : ℕ) → (cap_at cap len ≤ cap) × (cap_at cap len ≤ len)
unfolding cap_at
cap_at_le cap len = ground arith

-- Two strings that share what an empty chunk has left.
shared :
    (remaining arg_count format file : ℕ)
    → remaining % 8 ≡ 0
    → arg_count < 2 ^ 8
    → 36 + arg_count + format + file ≤ min remaining 0xFFFF
    → (definition_payload_bytes arg_count format file ≤ 0xFFFF)
      × (8 + padded_payload (definition_payload_bytes arg_count format file) ≤ remaining)
unfolding definition_payload_bytes
shared remaining arg_count format file even small h =
    let n = definition_payload_bytes arg_count format file in
    let size : n ≡ 28 + arg_count + format + file = omega arith in
    omega (arith, size, padded_payload_eq n (omega (arith, size)))

available_room :
    (remaining arg_count : ℕ)
    → 36 + arg_count ≤ remaining
    → arg_count < 2 ^ 8
    → (if ltb (24 + arg_count + 4 + 8) (min remaining 0xFFFF)
        then min remaining 0xFFFF - (24 + arg_count + 4 + 8)
        else 0)
      ≡ min remaining 0xFFFF - (36 + arg_count)
available_room remaining arg_count h k = ground arith

flag_tells : (a b c d : ℕ) → ((ltb a b || ltb c d) ≡ true) ⊎ ((cap_at a b ≡ b) × (cap_at c d ≡ d))
unfolding cap_at
flag_tells a b c d = ground arith

-- The strings only ever get shorter, and the flag is set unless both are whole.
pub shorten_le :
    (remaining arg_count format_len file_len : ℕ)
    → let (format, file, cut) = shorten remaining arg_count format_len file_len in
      (format ≤ format_len)
      × (file ≤ file_len)
      × ((cut ≡ true) ⊎ ((format ≡ format_len) × (file ≡ file_len)))
unfolding shorten cap_at
shorten_le remaining arg_count format_len file_len =
    let capacity = min remaining 0xFFFF in
    let available =
      if ltb (24 + arg_count + 4 + 8) capacity then capacity - (24 + arg_count + 4 + 8) else 0 in
    let format_cap = available / 2 in
    let (_, a) = cap_at_le format_cap format_len in
    let (_, b) = cap_at_le (available - format_cap) file_len in
    (a, b, flag_tells format_cap format_len (available - format_cap) file_len)

-- In an empty chunk with room for the fixed part, a multiple of eight in size, the shortened
-- definition of fewer than 256 arguments can always be reserved: its payload fits the head word's
-- 16 bits, and its record the chunk. The strings only ever get shorter, and the flag is set unless
-- both are whole.
pub shorten_lem :
    (remaining arg_count format_len file_len : ℕ)
    → remaining % 8 ≡ 0
    → 36 + arg_count ≤ remaining
    → arg_count < 2 ^ 8
    → let (format, file, cut) = shorten remaining arg_count format_len file_len in
      (definition_payload_bytes arg_count format file ≤ 0xFFFF)
      × (8 + padded_payload (definition_payload_bytes arg_count format file) ≤ remaining)
      × (format ≤ format_len)
      × (file ≤ file_len)
      × ((cut ≡ true) ⊎ ((format ≡ format_len) × (file ≡ file_len)))
unfolding shorten cap_at
shorten_lem remaining arg_count format_len file_len even room small =
    let free = min remaining 0xFFFF - (36 + arg_count) in
    let a = cap_at_le (free / 2) format_len in
    let b = cap_at_le (free - free / 2) file_len in
    let (short, fits) =
      shared remaining arg_count (cap_at (free / 2) format_len) (cap_at (free - free / 2) file_len)
        even small (omega (arith, a, b)) in
    rw (available_room remaining arg_count room small)
      (short, fits, a.1, b.1, flag_tells (free / 2) format_len (free - free / 2) file_len)
