-- ===== src/Args/RoundTrip.antt =====
-- Arguments that include/sub0log/encode.hpp wrote, read by `Decoder::decodeAll`.
use sub0log.Common.{
  ℕ, ◌+◌, ◌-◌, ◌^◌, ◌≤◌, ◌<◌, ◌≡◌, ◌≢◌, refl, sym, ap, ◌∙◌, arith, false, some, List, [], ◌∷◌, ◌++◌,
  append_assoc, length, length-append, length-take, ltb, ◌==◌, All, map, ◌*◌, true, not, Bool, ◌↔◌,
  ◌⊎◌, inl, inr, take, Bool-cases, ltb→lt, ltb→le,
}
use sub0log.Common.Bytes.{Bytes, le_bytes, length-le_bytes, load, load-le_bytes, view, view-append}
use sub0log.Wire.TypeCode.{
  invalid, bool, i8, u8, i16, u16, i32, u32, i64, u64, f32, f64, char, bytes, pointer,
}
use sub0log.Wire.{TypeCode, type_code, type_of, size_of_code, fixed_size_of}
use sub0log.Args.Encode.{Arg, fixed, viewed, c_string, type_code_for, bounded_length, memory_of}
use sub0log.Args.Plain.{kept, plain, plains, bounded_length_le}
use sub0log.Args.Decode.{
  DecodedArg, flag, character, signed, unsigned, floating, sign_extend, text, value_of,
  decode_fixed_arg, decode_bytes, decode_fixed, decode_one, decode_args, prepend,
}

-- A fixed-size argument has a fixed-size code, and its bits fit the code's size.
abbrev pub ArgFits : Arg → Type 0
ArgFits (fixed code bits) = (size_of_code code ≢ 0) × (bits < 256 ^ size_of_code code)
ArgFits (viewed bs) = Unit
ArgFits (c_string p) = Unit

abbrev pub codes_of : List Arg → List ℕ
codes_of args = map (λ a. type_code (type_code_for a)) args

type_of-type_code : (c : TypeCode) → type_of (type_code c) ≡ some c
unfolding type_of
type_of-type_code c = ground arith

fixed_size_of-type_code : (c : TypeCode) → fixed_size_of (type_code c) ≡ size_of_code c
unfolding fixed_size_of type_of
fixed_size_of-type_code c = ground arith

not_bytes : (c : TypeCode) → size_of_code c ≢ 0 → (type_code c == 13) ≡ false
not_bytes c h = ground (arith, h)

kept_short : (a : Arg) → length (kept a) ≤ 512
kept_short (fixed code bits) = omega arith
kept_short (viewed bs) = omega (arith, length-take 512 bs)
kept_short (c_string p) =
    omega (arith, length-take (bounded_length p) (memory_of p), bounded_length_le p)

-- A `w`-bit integer `x` and a 64-bit integer `v` are the same number in two's complement: both not
-- negative and equal, or both negative and as far below 0.
abbrev pub SameNumber : ℕ → ℕ → ℕ → Type 0
SameNumber w x v =
    ((2 * x < 2 ^ w) × (v ≡ x))
    ⊎ ((2 ^ w ≤ 2 * x) × (2 ^ 64 ≤ 2 * v) × (v < 2 ^ 64) × (2 ^ 64 - v ≡ 2 ^ w - x))

sign_extend-8 : (x : ℕ) → x < 256 ^ 1 → SameNumber 8 x (sign_extend 8 x)
sign_extend-8 x fit = ground arith

sign_extend-16 : (x : ℕ) → x < 256 ^ 2 → SameNumber 16 x (sign_extend 16 x)
sign_extend-16 x fit = ground arith

sign_extend-32 : (x : ℕ) → x < 256 ^ 4 → SameNumber 32 x (sign_extend 32 x)
sign_extend-32 x fit = ground arith

SameNumber-64 : (x : ℕ) → x < 256 ^ 8 → SameNumber 64 x x
SameNumber-64 x fit = elim (Bool-cases (ltb (2 * x) (2 ^ 64))) [
  | inl low ↦ inl (ltb→lt (2 * x) (2 ^ 64) low, refl)
  | inr high ↦ let h = ltb→le (2 * x) (2 ^ 64) high in inr (h, h, omega arith, refl)
]

not_zero_iff : (x : ℕ) → (not (x == 0) ≡ true) ↔ (x ≢ 0)
not_zero_iff x = (λ h. ground arith, λ h. ground (arith, h))

module _ (widen : ℕ → ℕ) where
  -- What the decoder is to hand out for an argument.
  abbrev pub decoded : Arg → DecodedArg
  decoded (fixed code bits) = value_of widen code bits
  decoded (viewed bs) = text (kept (viewed bs))
  decoded (c_string p) = text (kept (c_string p))

  decode_bytes-at :
      (payload bs : Bytes) (offset n : ℕ)
      → load 2 payload offset ≡ n
      → view payload (offset + 2) n ≡ bs
      → offset + 2 + n ≤ length payload
      → decode_bytes widen payload offset ≡ some (text bs, offset + 2 + n)
  unfolding decode_bytes
  decode_bytes-at payload bs offset n loaded seen room =
      let head : ltb (length payload - offset) 2 ≡ false = ground arith in
      let body : ltb (length payload - (offset + 2)) n ≡ false = ground arith in
      rw (head, loaded, body, seen) refl

  -- A view behind its length.
  decode_bytes-kept :
      (front bs rest : Bytes)
      → length bs ≤ 512
      → decode_bytes widen (front ++ ((le_bytes 2 (length bs) ++ bs) ++ rest)) (length front)
        ≡ some (text bs, length front + 2 + length bs)
  decode_bytes-kept front bs rest h =
      let n = length bs in
      let payload = front ++ ((le_bytes 2 n ++ bs) ++ rest) in
      decode_bytes-at payload bs (length front) n
        (load-le_bytes 2 n front (bs ++ rest) (length front) refl (omega arith))
        (ap (λ t. view t (length front + 2) n)
            (sym (append_assoc front (le_bytes 2 n) (bs ++ rest)))
          ∙ view-append n (front ++ le_bytes 2 n) bs rest (length front + 2)
              (omega (arith, length-append front (le_bytes 2 n))) refl)
        (omega (arith, length-append front ((le_bytes 2 n ++ bs) ++ rest), length-append bs rest))

  decode_fixed-at :
      (code : TypeCode) (payload : Bytes) (offset bits : ℕ)
      → size_of_code code ≢ 0
      → load (size_of_code code) payload offset ≡ bits
      → offset + size_of_code code ≤ length payload
      → decode_fixed widen (type_code code) payload offset
        ≡ some (value_of widen code bits, offset + size_of_code code)
  unfolding decode_fixed decode_fixed_arg
  decode_fixed-at code payload offset bits nz loaded room =
      let some_size : (size_of_code code == 0) ≡ false = ground (arith, nz) in
      let head : ltb (length payload - offset) (size_of_code code) ≡ false = ground arith in
      rw (fixed_size_of-type_code code, type_of-type_code code, some_size, head, loaded) refl

  decode_one-plain :
      (a : Arg) (front rest : Bytes)
      → ArgFits a
      → decode_one widen (type_code (type_code_for a)) (front ++ (plain a ++ rest)) (length front)
        ≡ some (decoded a, length (front ++ plain a))
  unfolding decode_one
  decode_one-plain (fixed code bits) front rest (nz, h) =
      let enc = le_bytes (size_of_code code) bits in
      rw (not_bytes code nz) (
        decode_fixed-at code (front ++ (enc ++ rest)) (length front) bits nz
          (load-le_bytes (size_of_code code) bits front rest (length front) refl h)
          (omega (
            arith,
            length-append front (enc ++ rest),
            length-append enc rest,
            length-le_bytes (size_of_code code) bits,
          ))
        ∙ ap (λ t. some (value_of widen code bits, t))
            (omega (arith, length-append front enc, length-le_bytes (size_of_code code) bits)))
  decode_one-plain (viewed bs) front rest fit =
      decode_bytes-kept front (kept (viewed bs)) rest (kept_short (viewed bs))
      ∙ ap (λ t. some (text (kept (viewed bs)), t))
          (omega (arith, length-append front (plain (viewed bs))))
  decode_one-plain (c_string p) front rest fit =
      decode_bytes-kept front (kept (c_string p)) rest (kept_short (c_string p))
      ∙ ap (λ t. some (text (kept (c_string p)), t))
          (omega (arith, length-append front (plain (c_string p))))

  decode_args-next :
      (payload : Bytes) (code : ℕ) (codes : List ℕ) (offset offset' : ℕ) (a : DecodedArg)
      → decode_one widen code payload offset ≡ some (a, offset')
      → decode_args widen (code ∷ codes) payload offset
        ≡ prepend widen a (decode_args widen codes payload offset')
  unfolding decode_args
  decode_args-next payload code codes offset offset' a e = rw (e, decode_args) refl

  decode_args-decoded :
      (args : List Arg) (front rest : Bytes)
      → All ArgFits args
      → decode_args widen (codes_of args) (front ++ (plains args ++ rest)) (length front)
        ≡ some (map decoded args)
  unfolding decode_args
  decode_args-decoded [] front rest fits = refl
  decode_args-decoded (a ∷ more) front rest (fit, fits) =
      let one = decode_one-plain a front (plains more ++ rest) fit in
      let later = decode_args-decoded more (front ++ plain a) rest fits in
      let whole = append_assoc (plain a) (plains more) rest in
      let shift = sym (append_assoc front (plain a) (plains more ++ rest)) in
      ap (λ t. decode_args widen (codes_of (a ∷ more)) (front ++ t) (length front)) whole
      ∙ decode_args-next (front ++ (plain a ++ (plains more ++ rest))) (type_code (type_code_for a))
          (codes_of more) (length front) (length (front ++ plain a)) (decoded a) one
      ∙ ap (prepend widen (decoded a))
          (ap (λ t. decode_args widen (codes_of more) t (length (front ++ plain a))) shift ∙ later)

  -- What a value of a code is to be: a flag that tells whether the bits are not 0; a character; a
  -- signed number that reads as the bits do in two's complement; the bits, unsigned; a double.
  abbrev pub Shows : TypeCode → ℕ → DecodedArg → Type 0
  Shows bool x d = (b : Bool) × (d ≡ flag b) × ((b ≡ true) ↔ (x ≢ 0))
  Shows char x d = d ≡ character x
  Shows i8 x d = (v : ℕ) × (d ≡ signed v) × SameNumber 8 x v
  Shows i16 x d = (v : ℕ) × (d ≡ signed v) × SameNumber 16 x v
  Shows i32 x d = (v : ℕ) × (d ≡ signed v) × SameNumber 32 x v
  Shows i64 x d = (v : ℕ) × (d ≡ signed v) × SameNumber 64 x v
  Shows u8 x d = d ≡ unsigned x
  Shows u16 x d = d ≡ unsigned x
  Shows u32 x d = d ≡ unsigned x
  Shows u64 x d = d ≡ unsigned x
  Shows pointer x d = d ≡ unsigned x
  Shows f32 x d = d ≡ floating (widen x)
  Shows f64 x d = d ≡ floating x
  Shows bytes x d = ⊥
  Shows invalid x d = ⊥

  abbrev pub Matches : Arg → DecodedArg → Type 0
  Matches (fixed code bits) d = Shows code bits d
  Matches (viewed bs) d = d ≡ text (take 512 bs)
  Matches (c_string p) d = d ≡ text (kept (c_string p))

  -- The arguments and the decoded ones, one for one.
  abbrev pub AllMatch : List Arg → List DecodedArg → Type 0
  AllMatch [] [] = Unit
  AllMatch [] (d ∷ ds) = ⊥
  AllMatch (a ∷ args) [] = ⊥
  AllMatch (a ∷ args) (d ∷ ds) = Matches a d × AllMatch args ds

  value_of-Shows :
      (code : TypeCode) (x : ℕ)
      → size_of_code code ≢ 0
      → x < 256 ^ size_of_code code
      → Shows code x (value_of widen code x)
  unfolding value_of
  value_of-Shows bool x nz fit = (not (x == 0), refl, not_zero_iff x)
  value_of-Shows char x nz fit = refl
  value_of-Shows i8 x nz fit = (sign_extend 8 x, refl, sign_extend-8 x fit)
  value_of-Shows i16 x nz fit = (sign_extend 16 x, refl, sign_extend-16 x fit)
  value_of-Shows i32 x nz fit = (sign_extend 32 x, refl, sign_extend-32 x fit)
  value_of-Shows i64 x nz fit = (x, refl, SameNumber-64 x fit)
  value_of-Shows u8 x nz fit = refl
  value_of-Shows u16 x nz fit = refl
  value_of-Shows u32 x nz fit = refl
  value_of-Shows u64 x nz fit = refl
  value_of-Shows pointer x nz fit = refl
  value_of-Shows f32 x nz fit = refl
  value_of-Shows f64 x nz fit = refl
  value_of-Shows bytes x nz fit = nz refl
  value_of-Shows invalid x nz fit = nz refl

  decoded-AllMatch : (args : List Arg) → All ArgFits args → AllMatch args (map decoded args)
  decoded-AllMatch [] fits = tt
  decoded-AllMatch (fixed code bits ∷ args) ((nz, fit), fits) =
      (value_of-Shows code bits nz fit, decoded-AllMatch args fits)
  decoded-AllMatch (viewed bs ∷ args) (fit, fits) = (refl, decoded-AllMatch args fits)
  decoded-AllMatch (c_string p ∷ args) (fit, fits) = (refl, decoded-AllMatch args fits)

  -- Arguments that were encoded are decoded under the type codes of the pack, wherever they stand
  -- in a payload, one for one: a flag is set exactly if its bits are not 0, an integer whose bits fit
  -- its size is the same number in 64 bits, signed or unsigned as its code says, a character and a
  -- double have all their bits, a float is widened as the machine does, and a view or a C string has
  -- the bytes that were kept, 512 at most.
  pub decode_args-plains :
      (args : List Arg) (front rest : Bytes)
      → All ArgFits args
      → (ds : List DecodedArg) × (decode_args widen
            (codes_of args)
            (front ++ (plains args ++ rest))
            (length front)
          ≡ some ds)
        × AllMatch args ds
  decode_args-plains args front rest fits =
      (map decoded args, decode_args-decoded args front rest fits, decoded-AllMatch args fits)
