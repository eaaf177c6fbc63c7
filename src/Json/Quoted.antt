-- ===== src/Json/Quoted.antt =====
-- What a reader of JSON strings makes of `appendQuoted` (include/sub0log/json.hpp).
use sub0log.Common.{
  ℕ, zero, suc, ◌+◌, ◌-◌, ◌*◌, ◌/◌, ◌%◌, ◌<◌, ◌≡◌, refl, ap, ◌∙◌, arith, true, false, ◌||◌, Option,
  none, some, [], ◌∷◌, ◌++◌, append_assoc, ltb, ◌==◌, if◌then◌else◌, All, Bool-cases, inl, inr,
}
use sub0log.Common.Bits.{and_mask}
use sub0log.Common.Bytes.{Bytes, IsByte}
use sub0log.Json.{hex_digit, escape_byte, escape, append_quoted}

-- The value of a lower-case hexadecimal digit.
abbrev pub digit_value : ℕ → ℕ
digit_value c = if ltb c 58 then c - 48 else c - 87

digit_value-hex_digit : (n : ℕ) → n < 16 → digit_value (hex_digit n) ≡ n
unfolding hex_digit
digit_value-hex_digit n h = ground arith

-- Where a reader stands inside a JSON string: at a character, behind a backslash, or in the digits
-- of a four-digit escape, with those still to come and the value so far.
pub data Place : Type 0 where
  character : Place
  escaped : Place
  digits : ℕ → ℕ → Place

abbrev pub put : ℕ → Option (Bytes × Bytes) → Option (Bytes × Bytes)
put c none = none
put c (some (text, rest)) = some (c ∷ text, rest)

-- A JSON string up to its closing quote, as RFC 8259 reads it: the characters and what follows the
-- quote. Control characters must be escaped.
unfoldable pub read_string : Place → Bytes → Option (Bytes × Bytes)
read_string place [] = none
read_string character (c ∷ rest) =
    if c == 34
    then some ([], rest)
    else if c == 92
    then read_string escaped rest
    else if ltb c 32
    then none
    else put c (read_string character rest)
read_string escaped (c ∷ rest) =
    if (c == 34) || (c == 92)
    then put c (read_string character rest)
    else if c == 117
    then read_string (digits 3 0) rest
    else none
read_string (digits zero value) (c ∷ rest) =
    put (value * 16 + digit_value c) (read_string character rest)
read_string (digits (suc n) value) (c ∷ rest) =
    read_string (digits n (value * 16 + digit_value c)) rest

read_digits :
    (h l : ℕ) (rest : Bytes)
    → h < 16
    → l < 16
    → read_string character (92 ∷ (117 ∷ (48 ∷ (48 ∷ (hex_digit h ∷ (hex_digit l ∷ rest))))))
      ≡ put (h * 16 + l) (read_string character rest)
unfolding read_string
read_digits h l rest a b =
    ap (λ t. put t (read_string character rest))
      (omega (arith, digit_value-hex_digit h a, digit_value-hex_digit l b))

read_special :
    (b : ℕ) (rest : Bytes)
    → ((b == 34) || (b == 92)) ≡ true
    → read_string character (92 ∷ (b ∷ rest)) ≡ put b (read_string character rest)
unfolding read_string
read_special b rest e = rw e refl

read_plain :
    (b : ℕ) (rest : Bytes)
    → ((b == 34) || (b == 92)) ≡ false
    → ltb b 32 ≡ false
    → read_string character (b ∷ rest) ≡ put b (read_string character rest)
unfolding read_string
read_plain b rest e f =
    let no_quote : (b == 34) ≡ false = ground arith in
    let no_backslash : (b == 92) ≡ false = ground arith in rw (no_quote, no_backslash, f) refl

read-escape_byte :
    (b : ℕ) (rest : Bytes)
    → IsByte b
    → read_string character (escape_byte b ++ rest) ≡ put b (read_string character rest)
unfolding escape_byte
read-escape_byte b rest h = elim (Bool-cases ((b == 34) || (b == 92))) [
  | inl special ↦ rw special (read_special b rest special)
  | inr plain ↦ elim (Bool-cases (ltb b 32)) [
    | inl control ↦
        rw (plain, control, and_mask 4 b)
          (read_digits (b / 16) (b % 16) rest (omega arith) (omega arith)
            ∙ ap (λ t. put t (read_string character rest)) (omega arith))
    | inr other ↦ rw (plain, other) (read_plain b rest plain other)
  ]
]

read_close : (rest : Bytes) → read_string character (34 ∷ rest) ≡ some ([], rest)
unfolding read_string
read_close rest = refl

read-escape :
    (text rest : Bytes)
    → All IsByte text
    → read_string character (escape text ++ (34 ∷ rest)) ≡ some (text, rest)
read-escape [] rest h = read_close rest
read-escape (b ∷ text) rest (hb, hs) =
    ap (read_string character) (append_assoc (escape_byte b) (escape text) (34 ∷ rest))
    ∙ read-escape_byte b (escape text ++ (34 ∷ rest)) hb
    ∙ ap (put b) (read-escape text rest hs)

-- A string with its opening quote.
abbrev pub read_quoted : Bytes → Option (Bytes × Bytes)
read_quoted [] = none
read_quoted (c ∷ rest) = if c == 34 then read_string character rest else none

-- Bytes that were quoted behind other output are read back as they were, up to the closing quote,
-- by a reader of JSON strings that accepts no control characters.
pub read_quoted-append_quoted :
    (out text rest : Bytes)
    → All IsByte text
    → (quoted : Bytes) × (append_quoted out text ≡ out ++ quoted)
      × (read_quoted (quoted ++ rest) ≡ some (text, rest))
unfolding append_quoted
read_quoted-append_quoted out text rest h = (
  34 ∷ (escape text ++ (34 ∷ [])),
  refl,
  ap (read_string character) (append_assoc (escape text) (34 ∷ []) rest) ∙ read-escape text rest h,
)
