-- ===== src/Tests/Args.antt =====
-- Argument packs of include/sub0log/encode.hpp, encoded and decoded.
use sub0log.Common.{ℕ, ◌≡◌, arith, some, [], ◌∷◌, ◌++◌, List, length, All}
use sub0log.Wire.{TypeCode}
use sub0log.Args.Encode.{
  Arg, fixed, viewed, c_string, upper_bound_size, upper_bound_one, encode_args,
}
use sub0log.Args.Plain.{plains, any_cut, encode_args_lem}
use sub0log.Args.Decode.{DecodedArg, decode_args}
use sub0log.Args.RoundTrip.{ArgFits, codes_of, AllMatch, decode_args-plains}

-- A signed byte, a string, and a C string with bytes behind its end.
abbrev three_args : List Arg
three_args =
    fixed TypeCode.i8 0xFE ∷ viewed (104 ∷ 105 ∷ []) ∷ c_string (some (97 ∷ 0 ∷ 98 ∷ [])) ∷ []

abbrev same_bits : ℕ → ℕ
same_bits x = x

encode_args_lem_example :
    (encode_args 64 three_args ≡ (plains three_args, any_cut three_args))
    × (length (plains three_args) ≡ upper_bound_size three_args)
unfolding upper_bound_size upper_bound_one
encode_args_lem_example = encode_args_lem 64 three_args (omega arith) (omega arith) (omega arith)

three_args-ArgFits : All ArgFits three_args
three_args-ArgFits = omega arith

decode_args-plains_example :
    (ds : List DecodedArg) × (decode_args same_bits
        (codes_of three_args)
        ((7 ∷ []) ++ (plains three_args ++ (8 ∷ [])))
        1
      ≡ some ds)
    × AllMatch same_bits three_args ds
decode_args-plains_example =
    decode_args-plains same_bits three_args (7 ∷ []) (8 ∷ []) three_args-ArgFits
