-- ===== src/Chunk/Reserved.antt =====
-- Records of include/sub0log/chunk.hpp that are reserved one after the other, and only then written
-- and committed.
use sub0log.Common.{
  ℕ, ◌+◌, ◌-◌, ◌^◌, ◌≤◌, ◌<◌, ◌≡◌, refl, sym, ap, ◌∙◌, arith, ◌++◌, length, length-append,
  append_assoc, replicate, replicate-add, length-replicate,
}
use sub0log.Common.Bytes.{Bytes, le_bytes, store, store-append}
use sub0log.Wire.{padded_payload}
use sub0log.Wire.Padding.{padded_payload_eq}
use sub0log.Wire.Head.{RecordHead, pack}
use sub0log.Chunk.{ChunkWriter}
use sub0log.Chunk.Layout.{Holds, after_reserve, record_image}

abbrev pub zeros : ℕ → Bytes
zeros n = replicate n 0

-- The bytes that a payload of `n` bytes takes up in a chunk.
abbrev pub footprint : ℕ → ℕ
footprint n = 8 + padded_payload n

-- A reservation leaves the chunk's memory as it was: the reserved part is zeros.
pub Holds-reserved :
    {w : ChunkWriter} {written : Bytes} {free : ℕ} (n : ℕ)
    → Holds w written free
    → n < 2 ^ 16
    → footprint n ≤ free
    → Holds (after_reserve w n) (written ++ zeros (footprint n)) (free - footprint n)
Holds-reserved {w} {written} {free} n v small fits =
    let even = padded_payload_eq n (omega arith) in
    let size : length (written ++ zeros (footprint n)) ≡ length written + footprint n =
      length-append written (zeros (footprint n))
      ∙ ap (λ t. length written + t) (length-replicate {A = ℕ} (footprint n) 0) in
    let whole : free ≡ footprint n + (free - footprint n) = omega arith in
    record {
      split =
          v.split
          ∙ ap (λ t. written ++ zeros t) whole
          ∙ ap (λ t. written ++ t) (replicate-add (footprint n) (free - footprint n) 0)
          ∙ sym (append_assoc written (zeros (footprint n)) (zeros (free - footprint n)));
      cursor = omega (arith, size, v.cursor);
      aligned = omega (arith, size, even, v.aligned);
      free_aligned = omega (arith, even, v.free_aligned);
      small = omega (arith, size, v.small);
    }

-- A payload between the head word that is not committed yet and the padding.
abbrev pub filled : Bytes → Bytes
filled payload = zeros 8 ++ (payload ++ zeros (padded_payload (length payload) - length payload))

pub fill_block :
    (front payload rest : Bytes)
    → length payload < 2 ^ 16
    → store (front ++ (zeros (footprint (length payload)) ++ rest)) (length front + 8) payload
      ≡ front ++ (filled payload ++ rest)
fill_block front payload rest small =
    let n = length payload in
    let pad = padded_payload n - n in
    let whole : footprint n ≡ 8 + (n + pad) = omega (arith, padded_payload_eq n (omega arith)) in
    let cut : zeros (footprint n) ≡ zeros 8 ++ (zeros n ++ zeros pad) =
      ap zeros whole
      ∙ replicate-add 8 (n + pad) 0
      ∙ ap (λ t. zeros 8 ++ t) (replicate-add n pad 0) in
    ap (λ t. store (front ++ (t ++ rest)) (length front + 8) payload) cut
    ∙ ap (λ t. store t (length front + 8) payload) (regroup (zeros n) (zeros pad))
    ∙ store-append (front ++ zeros 8) (zeros n) payload (zeros pad ++ rest) (length front + 8)
        (sym (length-append front (zeros 8))) (sym (length-replicate n 0))
    ∙ sym (regroup payload (zeros pad))
  where
    regroup :
        (xs ys : Bytes)
        → front ++ ((zeros 8 ++ (xs ++ ys)) ++ rest) ≡ (front ++ zeros 8) ++ (xs ++ (ys ++ rest))
    regroup xs ys =
        ap (λ t. front ++ t)
          (append_assoc (zeros 8) (xs ++ ys) rest
            ∙ ap (λ t. zeros 8 ++ t) (append_assoc xs ys rest))
        ∙ sym (append_assoc front (zeros 8) (xs ++ (ys ++ rest)))

pub commit_block :
    (front payload rest : Bytes) (head : RecordHead)
    → store (front ++ (filled payload ++ rest)) (length front) (le_bytes 8 (pack head))
      ≡ front ++ (record_image head payload ++ rest)
unfolding record_image
commit_block front payload rest head =
    let tail = payload ++ zeros (padded_payload (length payload) - length payload) in
    ap (λ t. store (front ++ t) (length front) (le_bytes 8 (pack head)))
      (append_assoc (zeros 8) tail rest)
    ∙ store-append front (zeros 8) (le_bytes 8 (pack head)) (tail ++ rest) (length front) refl refl
    ∙ ap (λ t. front ++ t) (sym (append_assoc (le_bytes 8 (pack head)) tail rest))
