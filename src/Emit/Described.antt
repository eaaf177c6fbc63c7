-- ===== src/Emit/Described.antt =====
-- What `emitChained` (include/sub0log/detail/emit.hpp) is to make of a pack, told without its code: the
-- message, its continuations and its flag.
use sub0log.Common.{
  ℕ, zero, suc, ◌+◌, ◌-◌, ◌%◌, ◌^◌, ◌≤◌, ◌<◌, ◌≡◌, refl, sym, ap, ◌∙◌, arith, min, Bool, true,
  false, ◌||◌, ◌↔◌, ◌⊎◌, inl, inr, none, some, List, [], ◌∷◌, ◌++◌, length, length-take,
  length-drop, take, drop, take-min, take-drop-take, All, Bool-cases, ltb, ◌==◌, if◌then◌else◌,
  ltb→lt, ltb→le, bit_or,
}
use sub0log.Common.Bytes.{Bytes, le_bytes}
use sub0log.Wire.{size_of_code}
use sub0log.Args.Encode.{Arg, fixed, viewed, c_string, scan, encode_fixed_one}
use sub0log.Protocol.{Request}
use sub0log.Emit.{truncated_flag}
use sub0log.Emit.Chain.{
  raw_bytes_of, raw_length, inline_length, overflow_of, past_ceiling, write_one, write_args, Slice,
  ArgOverflow, slices, overflows_from, all_slices,
}
use sub0log.Emit.Slices.{SliceOf, carried, slices-whole, short_tail}
use sub0log.Wire.Layout.{continuation_image}
use sub0log.Emit.Layout.{more_flag, slice_requests}
use sub0log.Emit.Chained.{chain_requests}

-- The text of a view or of a C string, which ends before its first zero.
abbrev pub until_zero : Bytes → Bytes
until_zero [] = []
until_zero (b ∷ memory) = if b == 0 then [] else b ∷ until_zero memory

abbrev pub text_of : Arg → Bytes
text_of (fixed code bits) = []
text_of (viewed bs) = bs
text_of (c_string none) = []
text_of (c_string (some memory)) = until_zero memory

-- In the message: a fixed value's bytes, or the first 512 bytes of a text behind their number.
abbrev pub front_of : Arg → Bytes
front_of (fixed code bits) = le_bytes (size_of_code code) bits
front_of (viewed bs) = le_bytes 2 (length (take 512 bs)) ++ take 512 bs
front_of (c_string p) =
    le_bytes 2 (length (take 512 (text_of (c_string p)))) ++ take 512 (text_of (c_string p))

abbrev pub fronts : List Arg → Bytes
fronts [] = []
fronts (a ∷ more) = front_of a ++ fronts more

-- In continuations: the bytes of each text from the 513th to the 4096th, argument by argument.
abbrev pub Carries : ℕ → List Arg → List Slice → Type 0
Carries i [] cs = cs ≡ []
Carries i (a ∷ more) cs =
    (own : List Slice) × (rest : List Slice) × (cs ≡ own ++ rest)
    × (carried own ≡ take 3584 (drop 512 (text_of a)))
    × All (SliceOf i) own
    × Carries (i + 1) more rest

-- A text is longer than 4096 bytes.
abbrev pub TooLong : List Arg → Type 0
TooLong [] = ⊥
TooLong (a ∷ more) = (4096 < length (text_of a)) ⊎ TooLong more

-- The records: a message, and the continuations, each of which but the last says that more follow.
abbrev pub continued : List Slice → ℕ
continued [] = 0
continued (c ∷ cs) = 2

abbrev pub continuations : ℕ → List Slice → List Request
continuations site_id [] = []
continuations site_id (c ∷ cs) =
    record {
      kind = 3;
      flags = continued cs;
      payload = (le_bytes 8 site_id ++ (le_bytes 1 c.arg_index ++ le_bytes 7 0)) ++ c.source;
    }
    ∷ continuations site_id cs

abbrev pub chain_of : ℕ → Bool → List Slice → Bytes → List Request
chain_of site_id cut cs payload =
    record { kind = 1; flags = (if cut then 1 else 0) + continued cs; payload = payload }
    ∷ continuations site_id cs

scan-until_zero :
    (cap : ℕ) (memory : Bytes) → take (scan cap memory) memory ≡ take cap (until_zero memory)
scan-until_zero zero memory = refl
scan-until_zero (suc cap) [] = refl
scan-until_zero (suc cap) (b ∷ memory) = elim (Bool-cases (b == 0)) [
  | inl ends ↦ rw ends refl
  | inr goes ↦ rw goes (ap (λ t. b ∷ t) (scan-until_zero cap memory))
]

-- What the code measures of a text: all of it, or 4097 bytes of a C string.
raw_bytes_of-text :
    (a : Arg) → (raw_bytes_of a ≡ text_of a) ⊎ (raw_bytes_of a ≡ take 4097 (text_of a))
unfolding raw_bytes_of
raw_bytes_of-text (fixed code bits) = inl refl
raw_bytes_of-text (viewed bs) = inl refl
raw_bytes_of-text (c_string none) = inl refl
raw_bytes_of-text (c_string (some memory)) = inr (scan-until_zero 4097 memory)

raw_part :
    (a : Arg) (n m : ℕ)
    → m + n ≤ 4097
    → take n (drop m (raw_bytes_of a)) ≡ take n (drop m (text_of a))
raw_part a n m h = elim (raw_bytes_of-text a) [
  | inl e ↦ ap (λ t. take n (drop m t)) e
  | inr e ↦ ap (λ t. take n (drop m t)) e ∙ take-drop-take n m 4097 (text_of a) h
]

raw_long : (a : Arg) → (4096 < length (raw_bytes_of a)) ↔ (4096 < length (text_of a))
raw_long a = elim (raw_bytes_of-text a) [
  | inl e ↦ (λ h. omega (arith, ap length e), λ h. omega (arith, ap length e))
  | inr e ↦
      let size = ap length e ∙ length-take 4097 (text_of a) in
      (λ h. omega (arith, size), λ h. omega (arith, size))
]

overflow_of-text : (a : Arg) → overflow_of a ≡ take 3584 (drop 512 (text_of a))
unfolding overflow_of
overflow_of-text a =
    let raw = raw_bytes_of a in
    elim (Bool-cases (ltb 512 (length raw))) [
      | inl over ↦
          let lt = ltb→lt 512 (length raw) over in
          let skip : inline_length a ≡ 512 = omega arith in
          let count : raw_length a - inline_length a ≡ min (length (drop 512 raw)) 3584 =
            omega (arith, length-drop 512 raw) in
          ap (λ n. take n (drop (inline_length a) raw)) count
          ∙ ap (λ m. take (min (length (drop 512 raw)) 3584) (drop m raw)) skip
          ∙ take-min (drop 512 raw) 3584
          ∙ raw_part a 3584 512 (omega arith)
      | inr whole ↦
          let le = ltb→le 512 (length raw) whole in
          let count : raw_length a - inline_length a ≡ 0 = omega arith in
          ap (λ n. take n (drop (inline_length a) raw)) count
          ∙ short_tail (take 3584 (drop 512 raw))
              (omega (arith, length-take 3584 (drop 512 raw), length-drop 512 raw))
          ∙ raw_part a 3584 512 (omega arith)
    ]

cut_text :
    (raw t : Bytes) (n : ℕ)
    → take 512 raw ≡ take 512 t
    → n ≡ min (length raw) 512
    → le_bytes 2 n ++ take n raw ≡ le_bytes 2 (length (take 512 t)) ++ take 512 t
cut_text raw t n same e =
    let front : take n raw ≡ take 512 t = ap (λ m. take m raw) e ∙ take-min raw 512 ∙ same in
    let size : n ≡ length (take 512 t) = omega (arith, ap length same, length-take 512 raw, e) in
    ap (λ m. le_bytes 2 m ++ take n raw) size
    ∙ ap (λ u. le_bytes 2 (length (take 512 t)) ++ u) front

write_one-front_of : (a : Arg) → write_one a ≡ front_of a
unfolding write_one encode_fixed_one raw_bytes_of
write_one-front_of (fixed code bits) = refl
write_one-front_of (viewed bs) =
    cut_text bs bs (inline_length (viewed bs)) refl (inline_length-eq (viewed bs) bs refl)
  where
    inline_length-eq :
        (a : Arg) (bs : Bytes)
        → length (raw_bytes_of a) ≡ length bs
        → inline_length a ≡ min (length bs) 512
    inline_length-eq a bs e = omega (arith, e)
write_one-front_of (c_string p) =
    cut_text (raw_bytes_of (c_string p)) (text_of (c_string p)) (inline_length (c_string p))
      (raw_part (c_string p) 512 0 (omega arith)) (omega arith)

pub write_args-fronts : (args : List Arg) → write_args args ≡ fronts args
unfolding write_args
write_args-fronts [] = refl
write_args-fronts (a ∷ more) = λ i. write_one-front_of a i ++ write_args-fronts more i

pub past_ceiling_iff : (args : List Arg) → (past_ceiling args ≡ true) ↔ TooLong args
past_ceiling_iff [] = (λ h. cc h, λ h. absurd h)
past_ceiling_iff (a ∷ more) =
    let (down, up) = raw_long a in
    let (later, back) = past_ceiling_iff more in
    elim (Bool-cases (ltb 4096 (length (raw_bytes_of a)))) [
      | inl long ↦ (λ h. inl (down (ltb→lt 4096 (length (raw_bytes_of a)) long)), λ h. rw long refl)
      | inr short ↦ (
        λ h. inr (later (sym (ap (λ b. b || past_ceiling more) short) ∙ h)),
        λ h. elim h [
          | inl long ↦ absurd (omega (arith, up long, ltb→le 4096 (length (raw_bytes_of a)) short))
          | inr other ↦ rw short (back other)
        ],
      )
    ]

-- The slices of a pack from argument `i` on.
pub pack-Carries :
    (args : List Arg) (i : ℕ)
    → i + length args ≤ 2 ^ 8
    → Carries i args (all_slices (overflows_from i args))
unfolding all_slices overflows_from
pack-Carries [] i few = refl
pack-Carries (a ∷ more) i few =
    let rest = all_slices (overflows_from (i + 1) more) in
    let n = length (overflow_of a) in
    let later = pack-Carries more (i + 1) (omega arith) in
    elim (Bool-cases (ltb 0 n)) [
      | inr none_over ↦ rw none_over (
        [],
        rest,
        refl,
        short_tail (overflow_of a) (ltb→le 0 n none_over) ∙ overflow_of-text a,
        tt,
        later,
      )
      | inl over ↦
          let index : i % 2 ^ 8 ≡ i = omega arith in
          let o : ArgOverflow = record { tail = overflow_of a; arg_index = i % 2 ^ 8 } in
          let (whole, each, few) = slices-whole n o (omega arith) in
          rw over (slices n o, rest, refl, whole ∙ overflow_of-text a, same_arg index _ each, later)
    ]
  where
    same_arg : {i j : ℕ} → i ≡ j → (cs : List Slice) → All (SliceOf i) cs → All (SliceOf j) cs
    same_arg e cs h = rw (sym e) h

more_flag-continued : (cs : List Slice) → more_flag cs ≡ continued cs
more_flag-continued [] = refl
more_flag-continued (c ∷ cs) = refl

slice_requests-continuations :
    (site_id : ℕ) (cs : List Slice) → slice_requests site_id cs ≡ continuations site_id cs
unfolding continuation_image
slice_requests-continuations site_id [] = refl
slice_requests-continuations site_id (c ∷ cs) = λ i.
    record {
      kind = 3;
      flags = more_flag-continued cs i;
      payload = (le_bytes 8 site_id ++ (le_bytes 1 c.arg_index ++ le_bytes 7 0)) ++ c.source;
    }
    ∷ slice_requests-continuations site_id cs i

chain_flags :
    (cut : Bool) (cs : List Slice)
    → bit_or (truncated_flag cut) (more_flag cs) ≡ (if cut then 1 else 0) + continued cs
chain_flags false [] = refl
chain_flags false (c ∷ cs) = refl
chain_flags true [] = refl
chain_flags true (c ∷ cs) = refl

pub chain_requests-chain_of :
    (site_id : ℕ) (cut : Bool) (cs : List Slice) (payload : Bytes)
    → chain_requests site_id (truncated_flag cut) cs payload ≡ chain_of site_id cut cs payload
chain_requests-chain_of site_id cut cs payload = λ i.
    record { kind = 1; flags = chain_flags cut cs i; payload = payload }
    ∷ slice_requests-continuations site_id cs i
