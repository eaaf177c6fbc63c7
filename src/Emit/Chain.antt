-- ===== src/Emit/Chain.antt =====
-- Continuation chains: `rawBytesOf` of include/sub0log/encode.hpp, `reserveChain` and `emitChained` of
-- include/sub0log/detail/emit.hpp.
use sub0log.Common.{
  ℕ, zero, suc, ◌+◌, ◌-◌, ◌*◌, ◌%◌, ◌^◌, Bool, true, false, ◌||◌, Option, none, some, List, [], ◌∷◌,
  ◌++◌, length, take, drop, min, ltb, ◌==◌, if◌then◌else◌,
}
use sub0log.Common.Bytes.{Bytes, le_bytes}
use sub0log.Common.Words.{add64}
use sub0log.Wire.{inline_bytes_cap, max_continuations, padded_payload, size_of_code}
use sub0log.Args.Encode.{Arg, fixed, viewed, c_string, scan, encode_fixed_one}
use sub0log.Chunk.{ChunkWriter, Reservation, reserve, remaining}

-- `cArgCeiling`
abbrev pub arg_ceiling : ℕ
arg_ceiling = inline_bytes_cap * (1 + max_continuations)

-- `rawBytesOf`: the bytes from the pointer on, as many as it counts.
unfoldable pub raw_bytes_of : Arg → Bytes
raw_bytes_of (fixed code bits) = []
raw_bytes_of (viewed bs) = bs
raw_bytes_of (c_string none) = []
raw_bytes_of (c_string (some memory)) = take (scan (arg_ceiling + 1) memory) memory

-- `sizeOne` of an argument: the bytes in the message, those behind them, and whether the ceiling
-- cuts it.
abbrev pub raw_length : Arg → ℕ
raw_length a = min (length (raw_bytes_of a)) arg_ceiling

abbrev pub inline_length : Arg → ℕ
inline_length a = min (raw_length a) inline_bytes_cap

unfoldable pub overflow_of : Arg → Bytes
overflow_of a = take (raw_length a - inline_length a) (drop (inline_length a) (raw_bytes_of a))

abbrev pub past_ceiling : List Arg → Bool
past_ceiling [] = false
past_ceiling (a ∷ more) = ltb arg_ceiling (length (raw_bytes_of a)) || past_ceiling more

-- `writeOne`
unfoldable pub write_one : Arg → Bytes
write_one (fixed code bits) = encode_fixed_one code bits
write_one (viewed bs) =
    le_bytes 2 (inline_length (viewed bs)) ++ take (inline_length (viewed bs)) bs
write_one (c_string p) =
    le_bytes 2 (inline_length (c_string p))
    ++ take (inline_length (c_string p)) (raw_bytes_of (c_string p))

unfoldable pub write_args : List Arg → Bytes
unfolding write_one
write_args [] = []
write_args (a ∷ more) = write_one a ++ write_args more

-- `argsBytes`
unfoldable pub inline_size : List Arg → ℕ
inline_size [] = 0
inline_size (fixed code bits ∷ more) = (size_of_code code + inline_size more) % 2 ^ 32
inline_size (viewed bs ∷ more) = (2 + inline_length (viewed bs) + inline_size more) % 2 ^ 32
inline_size (c_string p ∷ more) = (2 + inline_length (c_string p) + inline_size more) % 2 ^ 32

-- `struct ArgOverflow`, for the arguments from an index on that overflow.
pub record ArgOverflow : Type 0 where
  pub tail : Bytes
  pub arg_index : ℕ

unfoldable pub overflows_from : ℕ → List Arg → List ArgOverflow
unfolding overflow_of
overflows_from i [] = []
overflows_from i (a ∷ more) =
    let rest = overflows_from (i + 1) more in
    if ltb 0 (length (overflow_of a))
    then record { tail = overflow_of a; arg_index = i % 2 ^ 8 } ∷ rest
    else rest

-- A slice that goes into one continuation.
pub record Slice : Type 0 where
  pub source : Bytes
  pub arg_index : ℕ

-- `while (remaining > 0u)`, on fuel; the length of the tail is enough.
unfoldable pub slices : ℕ → ArgOverflow → List Slice
slices zero o = []
slices (suc fuel) o =
    let rest =
      slices fuel (record { tail = drop inline_bytes_cap o.tail; arg_index = o.arg_index }) in
    if ltb 0 (length o.tail)
    then record { source = take inline_bytes_cap o.tail; arg_index = o.arg_index } ∷ rest
    else []

unfoldable pub all_slices : List ArgOverflow → List Slice
all_slices [] = []
all_slices (o ∷ more) = slices (length o.tail) o ++ all_slices more

-- `recordFootprint`
unfoldable pub record_footprint : ℕ → ℕ
record_footprint n = (8 + padded_payload n) % 2 ^ 64

-- `sizeof(wire::ContinuationPayload) + sliceLen`
abbrev pub slice_bytes : Slice → ℕ
slice_bytes c = 16 + length c.source

-- `needed`, summed in 64 bits.
unfoldable pub footprints : ℕ → List Slice → ℕ
footprints sum [] = sum
footprints sum (c ∷ more) = footprints (add64 sum (record_footprint (slice_bytes c))) more

-- `struct ContinuationSlot`
pub record ContinuationSlot : Type 0 where
  pub reservation : Reservation
  pub slice : Slice

unfoldable pub next_slice :
    Slice
    → Option Reservation × ChunkWriter
    → Bool
    → Option (List ContinuationSlot) × ChunkWriter
    → Option (List ContinuationSlot) × ChunkWriter
next_slice c (none, w) full others = (none, w)
next_slice c (some slot, w) true others = (none, w)
next_slice c (some slot, w) false (none, w') = (none, w')
next_slice c (some slot, w) false (some slots, w') =
    (some (record { reservation = slot; slice = c } ∷ slots), w')

unfoldable pub with_message :
    Reservation → Option (List ContinuationSlot) → Option (Reservation × List ContinuationSlot)
with_message slot none = none
with_message slot (some slots) = some (slot, slots)

-- The second pair of loops of `reserveChain`; `free` counts the slots of the array that are left.
-- Without a result the reservations before the one that failed stay made.
unfoldable pub reserve_slices :
    ℕ → ChunkWriter → List Slice → Option (List ContinuationSlot) × ChunkWriter
unfolding next_slice
reserve_slices free w [] = (some [], w)
reserve_slices free w (c ∷ more) =
    let (slot, w') = reserve w (slice_bytes c) in
    let (others, w'') = reserve_slices (free - 1) w' more in
    next_slice c (slot, w') (free == 0) (others, w'')

-- What the message and its slices are reserved as.
abbrev pub ReservedChain : Type 0
ReservedChain = Reservation × List ContinuationSlot

unfoldable pub reserve_behind :
    ℕ → List Slice → Option Reservation × ChunkWriter → Option ReservedChain × ChunkWriter
unfolding reserve_slices with_message
reserve_behind free cs (none, w) = (none, w)
reserve_behind free cs (some slot, w) =
    let (slots, w') = reserve_slices free w cs in (with_message slot slots, w')

-- `reserveChain`, for a message of `n` bytes and an array of `free` slots.
unfoldable pub reserve_chain :
    ℕ → ℕ → List ArgOverflow → ChunkWriter → Option ReservedChain × ChunkWriter
unfolding reserve_behind
reserve_chain free n overflows w =
    let cs = all_slices overflows in
    if ltb (remaining w) (footprints (record_footprint n) cs)
    then (none, w)
    else reserve_behind free cs (reserve w n)
