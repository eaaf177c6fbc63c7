-- ===== src/Args/Plain.antt =====
-- What an argument pack encodes to when its destination is large enough.
use sub0log.Common.{
  ℕ, zero, suc, ◌+◌, ◌-◌, ◌*◌, ◌%◌, ◌^◌, ◌≤◌, ◌<◌, ◌≡◌, refl, sym, ap, ◌∙◌, arith, min, Bool, false,
  ◌||◌, Option, none, some, List, [], ◌∷◌, ◌++◌, length, length-append, length-take, take, ltb,
  if◌then◌else◌,
}
use sub0log.Common.Bytes.{Bytes, le_bytes, length-le_bytes}
use sub0log.Wire.{TypeCode, size_of_code, inline_bytes_cap}
use sub0log.Args.Encode.{
  Arg, fixed, viewed, c_string, scan, bounded_length, memory_of, capped, upper_bound_one,
  upper_bound_size, encode_bytes_one, encode_fixed_one, encode_one, encode_from, encode_args,
}

-- The bytes of a view that the first record keeps.
abbrev pub kept : Arg → Bytes
kept (fixed code bits) = []
kept (viewed bs) = take inline_bytes_cap bs
kept (c_string p) = take (bounded_length p) (memory_of p)

-- An argument on the wire.
abbrev pub plain : Arg → Bytes
plain (fixed code bits) = le_bytes (size_of_code code) bits
plain (viewed bs) = le_bytes 2 (length (kept (viewed bs))) ++ kept (viewed bs)
plain (c_string p) = le_bytes 2 (length (kept (c_string p))) ++ kept (c_string p)

abbrev pub plains : List Arg → Bytes
plains [] = []
plains (a ∷ more) = plain a ++ plains more

-- A view that is longer than the first record keeps.
abbrev pub cut : Arg → Bool
cut (fixed code bits) = false
cut (viewed bs) = ltb inline_bytes_cap (length bs)
cut (c_string p) = false

abbrev pub any_cut : List Arg → Bool
any_cut [] = false
any_cut (a ∷ more) = cut a || any_cut more

scan_bounds :
    (cap : ℕ) (memory : Bytes) → (scan cap memory ≤ cap) × (scan cap memory ≤ length memory)
scan_bounds zero memory = omega arith
scan_bounds (suc cap) [] = omega arith
scan_bounds (suc cap) (b ∷ memory) = ground (arith, scan_bounds cap memory)

pub bounded_length_le :
    (p : Option Bytes) → (bounded_length p ≤ 512) × (bounded_length p ≤ length (memory_of p))
bounded_length_le none = omega arith
bounded_length_le (some memory) = scan_bounds 512 memory

capped-min : (n : ℕ) → capped n ≡ min 512 n
capped-min n = ground arith

length-counted : (bs : Bytes) → length (le_bytes 2 (length bs) ++ bs) ≡ 2 + length bs
length-counted bs = length-append (le_bytes 2 (length bs)) bs

-- An argument takes the room that sizing gives it.
pub length-plain : (a : Arg) → length (plain a) ≡ upper_bound_one a
unfolding upper_bound_one
length-plain (fixed code bits) = length-le_bytes (size_of_code code) bits
length-plain (viewed bs) =
    omega (arith, length-counted (take 512 bs), length-take 512 bs, capped-min (length bs))
length-plain (c_string p) = omega (
  arith,
  length-counted (take (bounded_length p) (memory_of p)),
  length-take (bounded_length p) (memory_of p),
  bounded_length_le p,
)

size_of_code_le : (c : TypeCode) → size_of_code c ≤ 8
size_of_code_le c = ground arith

pub upper_bound_one_le : (a : Arg) → upper_bound_one a ≤ 514
unfolding upper_bound_one
upper_bound_one_le (fixed code bits) = omega (arith, size_of_code_le code)
upper_bound_one_le (viewed bs) = omega (arith, capped-min (length bs))
upper_bound_one_le (c_string p) = omega (arith, bounded_length_le p)

-- The room of a pack, without the wrap-around.
abbrev pub room : List Arg → ℕ
room [] = 0
room (a ∷ more) = upper_bound_one a + room more

length-plains : (args : List Arg) → length (plains args) ≡ room args
length-plains [] = refl
length-plains (a ∷ more) =
    omega (arith, length-append (plain a) (plains more), length-plain a, length-plains more)

pub room_le : (args : List Arg) → room args ≤ 514 * length args
room_le [] = omega arith
room_le (a ∷ more) = omega (arith, upper_bound_one_le a, room_le more)

pub upper_bound_size-room :
    (args : List Arg) → length args < 2 ^ 22 → upper_bound_size args ≡ room args
unfolding upper_bound_size
upper_bound_size-room [] h = refl
upper_bound_size-room (a ∷ more) h =
    omega (arith, upper_bound_size-room more (omega arith), room_le more, upper_bound_one_le a)

or_false : (b : Bool) → (b || false) ≡ b
or_false b = ground arith

-- A view for which the destination has room.
encode_bytes_one-fits :
    (left : ℕ) (source : Bytes) (len : ℕ) (truncated : Bool)
    → min 512 len + 2 ≤ left
    → encode_bytes_one left source len truncated
      ≡ (le_bytes 2 (min 512 len) ++ take (min 512 len) source, truncated || ltb 512 len)
unfolding encode_bytes_one
encode_bytes_one-fits left source len truncated h =
    let enough : ltb left 2 ≡ false = ground arith in
    let copied : (let cap = if ltb (left - 2) 512 then left - 2 else 512 in
          if ltb len cap then len else cap)
        ≡ min 512 len =
      ground arith in
    let longer : ltb (min 512 len) len ≡ ltb 512 len = ground arith in
    rw (enough, copied, longer) refl

take-min : (n : ℕ) (bs : Bytes) → take (min n (length bs)) bs ≡ take n bs
take-min zero bs = let e : min 0 (length bs) ≡ 0 = omega arith in rw e
take-min (suc n) [] = let e : min (suc n) 0 ≡ 0 = omega arith in rw e
take-min (suc n) (b ∷ bs) =
    let e : min (suc n) (suc (length bs)) ≡ suc (min n (length bs)) = omega arith in
    rw e (ap (λ t. b ∷ t) (take-min n bs))

-- One argument at an offset that leaves room for it.
encode_one-fits :
    (capacity offset : ℕ) (truncated : Bool) (a : Arg)
    → offset + upper_bound_one a ≤ capacity
    → encode_one capacity offset truncated a ≡ (plain a, truncated || cut a)
unfolding encode_one encode_fixed_one upper_bound_one
encode_one-fits capacity offset truncated (fixed code bits) h =
    ap (λ t. (plain (fixed code bits), t)) (sym (or_false truncated))
encode_one-fits capacity offset truncated (viewed bs) h =
    let e : min 512 (length bs) ≡ length (take 512 bs) = sym (length-take 512 bs) in
    encode_bytes_one-fits (capacity - offset) bs (length bs) truncated
      (omega (arith, h, capped-min (length bs)))
    ∙ (λ i. (le_bytes 2 (e i) ++ take-min 512 bs i, truncated || ltb 512 (length bs)))
encode_one-fits capacity offset truncated (c_string p) h =
    let n = bounded_length p in
    let small : min 512 n ≡ n = omega (arith, bounded_length_le p) in
    let whole : n ≡ length (take n (memory_of p)) =
      omega (arith, length-take n (memory_of p), bounded_length_le p) in
    let shorter : ltb 512 n ≡ false = ground (arith, bounded_length_le p) in
    encode_bytes_one-fits (capacity - offset) (memory_of p) n truncated
      (omega (arith, h, bounded_length_le p))
    ∙ (λ i.
        (le_bytes 2 ((small ∙ whole) i) ++ take (small i) (memory_of p), truncated || shorter i))

or_assoc : (a b c : Bool) → ((a || b) || c) ≡ (a || (b || c))
or_assoc a b c = ground arith

encode_from-fits :
    (capacity offset : ℕ) (truncated : Bool) (args : List Arg)
    → offset + room args ≤ capacity
    → capacity < 2 ^ 32
    → encode_from capacity offset truncated args ≡ (plains args, truncated || any_cut args)
unfolding encode_from
encode_from-fits capacity offset truncated [] h k = ap (λ t. ([], t)) (sym (or_false truncated))
encode_from-fits capacity offset truncated (a ∷ more) h k =
    let next : (offset + length (plain a)) % 2 ^ 32 ≡ offset + upper_bound_one a =
      omega (arith, length-plain a) in
    rw
      (
        encode_one-fits capacity offset truncated a (omega arith),
        next,
        encode_from-fits capacity (offset + upper_bound_one a) (truncated || cut a) more
            (omega arith) k,
      )
      (ap (λ t. (plain a ++ plains more, t)) (or_assoc truncated (cut a) (any_cut more)))

-- A pack of fewer than 2^22 arguments, in a destination that is as large as sizing asks for, is
-- encoded argument by argument to exactly as many bytes as sizing promises: fixed-size values whole,
-- views up to 512 bytes behind their length. The flag says whether a view was longer than that; a C
-- string never sets it, since it is measured up to 512 bytes only.
pub encode_args_lem :
    (capacity : ℕ) (args : List Arg)
    → length args < 2 ^ 22
    → upper_bound_size args ≤ capacity
    → capacity < 2 ^ 32
    → (encode_args capacity args ≡ (plains args, any_cut args))
      × (length (plains args) ≡ upper_bound_size args)
unfolding encode_args
encode_args_lem capacity args n h k =
    let r = upper_bound_size-room args n in
    (encode_from-fits capacity 0 false args (omega arith) k, omega (arith, length-plains args))
