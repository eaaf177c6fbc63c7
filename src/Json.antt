-- ===== src/Json.antt =====
-- include/sub0log/json.hpp: strings and bytes in the export of messages.
pub mod Quoted
use sub0log.Common.{
  ℕ, ◌+◌, ◌/◌, ◌%◌, ◌^◌, Bool, ◌||◌, List, [], ◌∷◌, ◌++◌, ltb, ◌==◌, if◌then◌else◌, bit_and,
}
use sub0log.Common.Bytes.{Bytes}

-- `cHexDigits[n]`
unfoldable pub hex_digit : ℕ → ℕ
hex_digit n = if ltb n 10 then 48 + n else 87 + n

-- One byte inside quotes.
unfoldable pub escape_byte : ℕ → Bytes
escape_byte b =
    if (b == 34) || (b == 92)
    then 92 ∷ (b ∷ [])
    else if ltb b 0x20
    then 92 ∷ (117 ∷ (48 ∷ (48 ∷ (hex_digit (b / 2 ^ 4) ∷ (hex_digit (bit_and b 0x0F) ∷ [])))))
    else b ∷ []

abbrev pub escape : Bytes → Bytes
escape [] = []
escape (b ∷ text) = escape_byte b ++ escape text

unfoldable pub append_quoted : Bytes → Bytes → Bytes
append_quoted out text = out ++ (34 ∷ (escape text ++ (34 ∷ [])))

abbrev pub hex_of : Bytes → Bytes
hex_of [] = []
hex_of (b ∷ bs) = hex_digit (b / 2 ^ 4) ∷ (hex_digit (bit_and b 0x0F) ∷ hex_of bs)

-- `{"encoding":"hex","value":"` and `"}`
abbrev pub hex_front : Bytes
hex_front =
    123 ∷ 34 ∷ 101 ∷ 110 ∷ 99 ∷ 111 ∷ 100 ∷ 105 ∷ 110 ∷ 103 ∷ 34 ∷ 58 ∷ 34 ∷ 104 ∷ 101 ∷ 120 ∷ 34
    ∷ 44 ∷ 34 ∷ 118 ∷ 97 ∷ 108 ∷ 117 ∷ 101 ∷ 34 ∷ 58 ∷ 34 ∷ []

unfoldable pub append_hex : Bytes → Bytes → Bytes
append_hex out bs = out ++ (hex_front ++ (hex_of bs ++ (34 ∷ 125 ∷ [])))
