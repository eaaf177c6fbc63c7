-- ===== src/Args/Decode.antt =====
-- include/sub0log/reader.hpp: the arguments of a message, as `Decoder::decodeAll` reads them.
use sub0log.Common.{
  ℕ, ◌+◌, ◌-◌, ◌^◌, Bool, not, ◌||◌, Option, none, some, List, [], ◌∷◌, length, ltb, ◌==◌,
  if◌then◌else◌,
}
use sub0log.Common.Bytes.{Bytes, load, view}
use sub0log.Wire.{TypeCode, type_code, type_of, size_of_code, fixed_size_of}
use sub0log.Wire.TypeCode.{
  invalid, bool, i8, u8, i16, u16, i32, u32, i64, u64, f32, f64, char, bytes, pointer,
}

-- `DecodedArg`; a 64-bit integer and a double are given as their bits.
pub data DecodedArg : Type 0 where
  flag : Bool → DecodedArg
  character : ℕ → DecodedArg
  signed : ℕ → DecodedArg
  unsigned : ℕ → DecodedArg
  floating : ℕ → DecodedArg
  text : Bytes → DecodedArg

-- A `w`-bit two's complement integer in 64 bits: `static_cast<std::int64_t>`.
abbrev pub sign_extend : ℕ → ℕ → ℕ
sign_extend w x = if ltb x (2 ^ (w - 1)) then x else x + (2 ^ 64 - 2 ^ w)

module _ (widen : ℕ → ℕ) where
  -- The value of each code from the bits that were loaded; `widen` is the machine's conversion of a
  -- `float` to a `double`.
  unfoldable pub value_of : TypeCode → ℕ → DecodedArg
  value_of bool x = flag (not (x == 0))
  value_of char x = character x
  value_of i8 x = signed (sign_extend 8 x)
  value_of u8 x = unsigned x
  value_of i16 x = signed (sign_extend 16 x)
  value_of u16 x = unsigned x
  value_of i32 x = signed (sign_extend 32 x)
  value_of u32 x = unsigned x
  value_of i64 x = signed x
  value_of u64 x = unsigned x
  value_of f32 x = floating (widen x)
  value_of f64 x = floating x
  value_of pointer x = unsigned x
  value_of bytes x = unsigned 0
  value_of invalid x = unsigned 0

  -- `decodeFixedArg`; a byte that no enumerator names falls out of the switch.
  unfoldable pub decode_fixed_arg : Option TypeCode → Bytes → ℕ → DecodedArg
  decode_fixed_arg none payload at = unsigned 0
  decode_fixed_arg (some code) payload at = value_of code (load (size_of_code code) payload at)

  -- The branch for `TypeCode::Bytes`: the argument and the offset behind it.
  unfoldable pub decode_bytes : Bytes → ℕ → Option (DecodedArg × ℕ)
  decode_bytes payload offset =
      let len = load 2 payload offset in
      if ltb (length payload - offset) 2
      then none
      else if ltb (length payload - (offset + 2)) len
      then none
      else some (text (view payload (offset + 2) len), offset + 2 + len)

  unfoldable pub decode_fixed : ℕ → Bytes → ℕ → Option (DecodedArg × ℕ)
  decode_fixed code payload offset =
      let size = fixed_size_of code in
      if (size == 0) || ltb (length payload - offset) size
      then none
      else some (decode_fixed_arg (type_of code) payload offset, offset + size)

  unfoldable pub decode_one : ℕ → Bytes → ℕ → Option (DecodedArg × ℕ)
  decode_one code payload offset =
      if code == type_code bytes
      then decode_bytes payload offset
      else decode_fixed code payload offset

  abbrev pub prepend : DecodedArg → Option (List DecodedArg) → Option (List DecodedArg)
  prepend a none = none
  prepend a (some more) = some (a ∷ more)

  -- `for (const wire::TypeCode code : site->argTypes_)`; `none` is `ok == false`.
  unfoldable pub decode_args : List ℕ → Bytes → ℕ → Option (List DecodedArg)
  decode_args [] payload offset = some []
  decode_args (code ∷ codes) payload offset = elim (decode_one code payload offset) [
    | none ↦ none
    | some (a, offset') ↦ prepend a (decode_args codes payload offset')
  ]
