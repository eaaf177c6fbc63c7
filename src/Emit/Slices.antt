-- ===== src/Emit/Slices.antt =====
-- How `emitChained` (include/sub0log/detail/emit.hpp) divides an argument between the message and its
-- continuations.
use sub0log.Common.{
  ℕ, zero, suc, ◌+◌, ◌-◌, ◌*◌, ◌%◌, ◌^◌, ◌≤◌, ◌≡◌, refl, ap, ◌∙◌, arith, List, [], ◌∷◌, ◌++◌,
  length, length-take, length-drop, take, drop, take-append-drop, All, Bool-cases, inl, inr, ltb,
  ltb→lt, ltb→le, take-min,
}
use sub0log.Common.Bytes.{Bytes}
use sub0log.Args.Encode.{Arg}
use sub0log.Emit.Chain.{
  raw_bytes_of, raw_length, inline_length, overflow_of, ArgOverflow, Slice, slice_bytes, slices,
  overflows_from, all_slices, arg_ceiling,
}
use sub0log.Wire.Padding.{padded_payload_eq}
use sub0log.Emit.Layout.{Short, chain_size}

-- The bytes that slices carry, one after the other.
abbrev pub carried : List Slice → Bytes
carried [] = []
carried (c ∷ cs) = c.source ++ carried cs

-- Slices of one argument that are neither empty nor longer than the inline cap.
abbrev pub SliceOf : ℕ → Slice → Type 0
SliceOf i c = (c.arg_index ≡ i) × (1 ≤ length c.source) × (length c.source ≤ 512)

pub short_tail : (bs : Bytes) → length bs ≤ 0 → [] ≡ bs
short_tail [] h = refl
short_tail (b ∷ bs) h = absurd (omega arith)

pub slices-whole :
    (fuel : ℕ) (o : ArgOverflow)
    → length o.tail ≤ fuel
    → (carried (slices fuel o) ≡ o.tail)
      × All (SliceOf o.arg_index) (slices fuel o)
      × (512 * length (slices fuel o) ≤ length o.tail + 511)
unfolding slices
slices-whole zero o h = (short_tail o.tail h, tt, omega arith)
slices-whole (suc fuel) o h = elim (Bool-cases (ltb 0 (length o.tail))) [
  | inr empty ↦ rw empty (short_tail o.tail (ltb→le 0 (length o.tail) empty), tt, omega arith)
  | inl more ↦
      let lt = ltb→lt 0 (length o.tail) more in
      let size = length-drop 512 o.tail in
      let cut = length-take 512 o.tail in
      let (whole, each, few) =
        slices-whole fuel (record { tail = drop 512 o.tail; arg_index = o.arg_index })
          (omega (arith, size)) in
      rw more (
        ap (λ t. take 512 o.tail ++ t) whole ∙ take-append-drop 512 o.tail,
        ((refl, omega (arith, cut), omega (arith, cut)), each),
        omega (arith, few, size),
      )
]

pub length-overflow_of : (a : Arg) → length (overflow_of a) ≡ raw_length a - inline_length a
unfolding overflow_of
length-overflow_of a =
    let raw = raw_bytes_of a in
    omega (
      arith,
      length-take (raw_length a - inline_length a) (drop (inline_length a) raw),
      length-drop (inline_length a) raw,
    )

-- A prefix that is cut again.
take-take : (m n : ℕ) (bs : Bytes) → take m bs ++ take n (drop m bs) ≡ take (m + n) bs
take-take zero n bs = let same : 0 + n ≡ n = omega arith in rw same refl
take-take (suc m) zero [] = let same : suc m + 0 ≡ suc m = omega arith in rw same refl
take-take (suc m) (suc n) [] =
    let same : suc m + suc n ≡ suc (m + suc n) = omega arith in rw same refl
take-take (suc m) n (b ∷ bs) =
    let same : suc m + n ≡ suc (m + n) = omega arith in rw same (ap (λ t. b ∷ t) (take-take m n bs))

-- An argument's bytes up to the ceiling of 4096 go into the message, 512 at most, and into the
-- slices of its continuations, in order and without a gap: there are at most seven slices, none is
-- empty, none is longer than 512 bytes, and fuel as long as the overflow is enough for all of them.
pub slices_lem :
    (a : Arg) (i : ℕ)
    → let cs = slices (length (overflow_of a)) (record { tail = overflow_of a; arg_index = i }) in
      (take (inline_length a) (raw_bytes_of a) ++ carried cs ≡ take arg_ceiling (raw_bytes_of a))
      × All (SliceOf i) cs
      × (length cs ≤ 7)
unfolding overflow_of
slices_lem a i =
    let raw = raw_bytes_of a in
    let (whole, each, few) =
      slices-whole (length (overflow_of a)) (record { tail = overflow_of a; arg_index = i })
        (omega arith) in
    let size = length-overflow_of a in
    let total : inline_length a + (raw_length a - inline_length a) ≡ raw_length a = omega arith in
    (
      ap (λ t. take (inline_length a) raw ++ t) whole
          ∙ take-take (inline_length a) (raw_length a - inline_length a) raw
          ∙ ap (λ t. take t raw) total
          ∙ take-min raw arg_ceiling,
      each,
      omega (arith, few, size),
    )

each-Short :
    (i : ℕ) (cs : List Slice)
    → All (SliceOf i) cs
    → All Short cs × (chain_size cs ≤ 536 * length cs)
each-Short i [] h = (tt, omega arith)
each-Short i (c ∷ cs) ((e, a, b), h) =
    let (short, size) = each-Short i cs h in
    ((omega arith, short), omega (arith, size, padded_payload_eq (slice_bytes c) (omega arith)))

-- What the slices of a pack take: short ones, seven for each argument at most.
abbrev pub Modest : ℕ → List Slice → Type 0
Modest n cs = All Short cs × (length cs ≤ 7 * n) × (chain_size cs ≤ 3752 * n)

Modest-append :
    (m n : ℕ) (cs ds : List Slice) → Modest m cs → Modest n ds → Modest (m + n) (cs ++ ds)
Modest-append m n [] ds (a, b, c) (d, e, f) = (d, omega arith, omega arith)
Modest-append m n (x ∷ cs) ds (a, b, c) g =
    let (d, e, f) = all_short (x ∷ cs) ds a g.0 in (d, omega (arith, e, g), omega (arith, f, g))
  where
    all_short :
        (xs ys : List Slice)
        → All Short xs
        → All Short ys
        → All Short (xs ++ ys)
          × (length (xs ++ ys) ≡ length xs + length ys)
          × (chain_size (xs ++ ys) ≡ chain_size xs + chain_size ys)
    all_short [] ys a b = (b, omega arith, omega arith)
    all_short (x ∷ xs) ys (a, b) c =
        let (d, e, f) = all_short xs ys b c in ((a, d), omega (arith, e), omega (arith, f))

-- The slices of a pack from argument `i` on.
pub overflows-Modest :
    (args : List Arg) (i : ℕ) → Modest (length args) (all_slices (overflows_from i args))
unfolding all_slices overflows_from
overflows-Modest [] i = (tt, omega arith, omega arith)
overflows-Modest (a ∷ more) i =
    let rest = overflows-Modest more (i + 1) in
    let n = length (overflow_of a) in
    elim (Bool-cases (ltb 0 n)) [
      | inr none_over ↦ rw none_over (rest.0, omega (arith, rest), omega (arith, rest))
      | inl over ↦
          let (whole, each, few) = slices_lem a (i % 2 ^ 8) in
          let (short, size) = each-Short (i % 2 ^ 8) _ each in
          let both =
            Modest-append 1 (length more) _ (all_slices (overflows_from (i + 1) more))
              (short, omega (arith, few), omega (arith, size, few)) rest in
          rw over (both.0, omega (arith, both), omega (arith, both))
    ]
