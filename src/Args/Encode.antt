-- ===== src/Args/Encode.antt =====
-- include/sub0log/encode.hpp: sizing and encoding of an argument pack.
use sub0log.Common.{
  ℕ, zero, suc, ◌+◌, ◌-◌, ◌%◌, ◌^◌, Bool, false, ◌||◌, Option, none, some, List, [], ◌∷◌, ◌++◌,
  length, take, ltb, ◌==◌, if◌then◌else◌,
}
use sub0log.Common.Bytes.{Bytes, le_bytes}
use sub0log.Wire.{TypeCode, size_of_code, inline_bytes_cap}

-- An argument by how it is encoded: a fixed-size value as the bits that its type keeps, bytes that
-- are viewed (`ByteView`, `StringViewLike`), and a C string, whose memory starts at the pointer.
pub data Arg : Type 0 where
  fixed : TypeCode → ℕ → Arg
  viewed : Bytes → Arg
  c_string : Option Bytes → Arg

-- `typeCodeFor`
abbrev pub type_code_for : Arg → TypeCode
type_code_for (fixed code bits) = code
type_code_for (viewed bs) = TypeCode.bytes
type_code_for (c_string p) = TypeCode.bytes

-- `while (len < cap && ptr[len] != '\0')`
abbrev pub scan : ℕ → Bytes → ℕ
scan zero memory = 0
scan (suc cap) [] = 0
scan (suc cap) (b ∷ memory) = let rest = scan cap memory in if b == 0 then 0 else suc rest

abbrev pub bounded_length : Option Bytes → ℕ
bounded_length none = 0
bounded_length (some memory) = scan inline_bytes_cap memory

abbrev pub memory_of : Option Bytes → Bytes
memory_of none = []
memory_of (some memory) = memory

abbrev pub capped : ℕ → ℕ
capped len = if ltb len inline_bytes_cap then len else inline_bytes_cap

unfoldable pub upper_bound_one : Arg → ℕ
upper_bound_one (fixed code bits) = size_of_code code
upper_bound_one (viewed bs) = 2 + capped (length bs)
upper_bound_one (c_string p) = 2 + bounded_length p

unfoldable pub upper_bound_size : List Arg → ℕ
upper_bound_size [] = 0
upper_bound_size (a ∷ more) = (upper_bound_one a + upper_bound_size more) % 2 ^ 32

-- What a call writes at its destination, and the flag after it.
unfoldable pub encode_bytes_one : ℕ → Bytes → ℕ → Bool → Bytes × Bool
encode_bytes_one capacity_left source len truncated =
    let max_copy = capacity_left - 2 in
    let cap = if ltb max_copy inline_bytes_cap then max_copy else inline_bytes_cap in
    let copy_len = if ltb len cap then len else cap in
    if ltb capacity_left 2
    then ([], truncated || ltb 0 len)
    else (le_bytes 2 copy_len ++ take copy_len source, truncated || ltb copy_len len)

unfoldable pub encode_fixed_one : TypeCode → ℕ → Bytes
encode_fixed_one code bits = le_bytes (size_of_code code) bits

-- The lambda `encodeOne`, at an offset of the destination.
unfoldable pub encode_one : ℕ → ℕ → Bool → Arg → Bytes × Bool
encode_one capacity offset truncated (fixed code bits) = (encode_fixed_one code bits, truncated)
encode_one capacity offset truncated (viewed bs) =
    encode_bytes_one (capacity - offset) bs (length bs) truncated
encode_one capacity offset truncated (c_string p) =
    encode_bytes_one (capacity - offset) (memory_of p) (bounded_length p) truncated

-- The pack, one argument after the other; the offset is the number of bytes written so far.
unfoldable pub encode_from : ℕ → ℕ → Bool → List Arg → Bytes × Bool
unfolding encode_one
encode_from capacity offset truncated [] = ([], truncated)
encode_from capacity offset truncated (a ∷ more) =
    let (written, flag) = encode_one capacity offset truncated a in
    let (others, last) = encode_from capacity ((offset + length written) % 2 ^ 32) flag more in
    (written ++ others, last)

unfoldable pub encode_args : ℕ → List Arg → Bytes × Bool
unfolding encode_from
encode_args capacity args = encode_from capacity 0 false args
