-- ===== src/Emit/Layout.antt =====
-- The memory of a chunk while `emitChained` (include/sub0log/detail/emit.hpp) writes a chain: all
-- reservations, then the payloads, then the slices' heads and the message's head.
use sub0log.Common.{
  ℕ, zero, suc, ◌+◌, ◌-◌, ◌%◌, ◌^◌, ◌≤◌, ◌<◌, ◌≡◌, refl, sym, ap, ◌∙◌, arith, false, some, List, [],
  ◌∷◌, ◌++◌, length, length-append, append_assoc, append-nil, length-replicate, replicate-add, All,
  ◌==◌,
}
use sub0log.Common.Bytes.{Bytes, le_bytes, store}
use sub0log.Wire.{RecordKind, kind_code, flag_continued, padded_payload}
use sub0log.Wire.Padding.{padded_payload_eq}
use sub0log.Wire.Layout.{continuation_image}
use sub0log.Wire.Head.{RecordHead, pack}
use sub0log.Chunk.{ChunkWriter, fill, commit}
use sub0log.Chunk.Layout.{
  Holds, after_reserve, next_slot, reserve_fits, record_image, length-record_image,
}
use sub0log.Chunk.Reserved.{zeros, footprint, Holds-reserved, filled, fill_block, commit_block}
use sub0log.Reader.Body.Written.{images}
use sub0log.Protocol.{Request, numbered}
use sub0log.Emit.Chain.{Slice, ContinuationSlot, slice_bytes, next_slice, reserve_slices}
use sub0log.Emit.Publish.{fill_slices, continued_flag, commit_slices}

-- Where slices go behind the cursor of a writer, and the writer behind them.
abbrev pub slots_of : ChunkWriter → List Slice → List ContinuationSlot
slots_of w [] = []
slots_of w (c ∷ cs) =
    record { reservation = next_slot w; slice = c } ∷ slots_of (after_reserve w (slice_bytes c)) cs

abbrev pub after_slices : ChunkWriter → List Slice → ChunkWriter
after_slices w [] = w
after_slices w (c ∷ cs) = after_slices (after_reserve w (slice_bytes c)) cs

abbrev pub chain_size : List Slice → ℕ
chain_size [] = 0
chain_size (c ∷ cs) = footprint (slice_bytes c) + chain_size cs

abbrev pub Short : Slice → Type 0
Short c = slice_bytes c < 2 ^ 16

pub reserve_slices_fits :
    (cs : List Slice) (k : ℕ) {w : ChunkWriter} {written : Bytes} {free : ℕ}
    → Holds w written free
    → All Short cs
    → chain_size cs ≤ free
    → length cs ≤ k
    → reserve_slices k w cs ≡ (some (slots_of w cs), after_slices w cs)
unfolding reserve_slices next_slice
reserve_slices_fits [] k v short fits room = refl
reserve_slices_fits (c ∷ cs) zero v short fits room = absurd (omega arith)
reserve_slices_fits (c ∷ cs) (suc k) v (small, short) fits room =
    let rest : suc k - 1 ≡ k = omega arith in
    let more =
      reserve_slices_fits cs k (Holds-reserved (slice_bytes c) v small (omega arith)) short
        (omega arith) (omega arith) in
    let some_left : (suc k == 0) ≡ false = ground arith in
    rw (reserve_fits (slice_bytes c) v small (omega arith), rest, more, some_left) refl

-- The reservations leave zeros behind what was written.
pub Holds-slices :
    (cs : List Slice) {w : ChunkWriter} {written : Bytes} {free : ℕ}
    → Holds w written free
    → All Short cs
    → chain_size cs ≤ free
    → Holds (after_slices w cs) (written ++ zeros (chain_size cs)) (free - chain_size cs)
Holds-slices [] {w} {written} {free} v short fits =
    let same : free - 0 ≡ free = omega arith in rw (append-nil written, same) v
Holds-slices (c ∷ cs) {w} {written} {free} v (small, short) fits =
    let n = footprint (slice_bytes c) in
    let regroup : written ++ zeros (n + chain_size cs)
        ≡ (written ++ zeros n) ++ zeros (chain_size cs) =
      ap (λ t. written ++ t) (replicate-add n (chain_size cs) 0)
      ∙ sym (append_assoc written (zeros n) (zeros (chain_size cs))) in
    let left : free - (n + chain_size cs) ≡ free - n - chain_size cs = omega arith in
    rw (regroup, left)
      (Holds-slices cs (Holds-reserved (slice_bytes c) v small (omega arith)) short (omega arith))

abbrev pub slice_payload : ℕ → Slice → Bytes
slice_payload site_id c =
    continuation_image (record { site_id = site_id; arg_index = c.arg_index }) ++ c.source

pub length-slice_payload :
    (site_id : ℕ) (c : Slice) → length (slice_payload site_id c) ≡ slice_bytes c
unfolding continuation_image
length-slice_payload site_id c = omega arith

abbrev pub more_flag : List Slice → ℕ
more_flag [] = 0
more_flag (c ∷ cs) = flag_continued

-- The records of the slices.
abbrev pub slice_requests : ℕ → List Slice → List Request
slice_requests site_id [] = []
slice_requests site_id (c ∷ cs) =
    record {
      kind = kind_code RecordKind.continuation;
      flags = more_flag cs;
      payload = slice_payload site_id c;
    }
    ∷ slice_requests site_id cs

abbrev pub filled_slices : ℕ → List Slice → Bytes
filled_slices site_id [] = []
filled_slices site_id (c ∷ cs) = filled (slice_payload site_id c) ++ filled_slices site_id cs

pub length-filled :
    (payload : Bytes)
    → length payload < 2 ^ 16
    → length (filled payload) ≡ footprint (length payload)
length-filled payload small =
    let pad = padded_payload (length payload) - length payload in
    omega (
      arith,
      length-append payload (zeros pad),
      length-replicate {A = ℕ} pad 0,
      padded_payload_eq (length payload) (omega arith),
    )

pub fill_slices-zeros :
    (cs : List Slice) (site_id : ℕ) (v w : ChunkWriter) (front rest : Bytes)
    → All Short cs
    → v.offset ≡ length front
    → w.body ≡ front ++ (zeros (chain_size cs) ++ rest)
    → fill_slices site_id (slots_of v cs) w
      ≡ record w { body = front ++ (filled_slices site_id cs ++ rest) }
unfolding fill_slices fill
fill_slices-zeros [] site_id v w front rest short at e = λ i. record w { body = e i }
fill_slices-zeros (c ∷ cs) site_id v w front rest (small, short) at e =
    let payload = slice_payload site_id c in
    let n = footprint (slice_bytes c) in
    let total = chain_size cs in
    let size = length-slice_payload site_id c in
    let len = length-filled payload (omega arith) ∙ ap footprint size in
    let laid : w.body ≡ front ++ (zeros (footprint (length payload)) ++ (zeros total ++ rest)) =
      e
      ∙ ap (λ t. front ++ (t ++ rest)) (replicate-add n total 0)
      ∙ ap (λ t. front ++ t) (append_assoc (zeros n) (zeros total) rest)
      ∙ ap (λ t. front ++ (zeros (footprint t) ++ (zeros total ++ rest))) (sym size) in
    let stored : store w.body (v.offset + 8) payload
        ≡ (front ++ filled payload) ++ (zeros total ++ rest) =
      ap (λ t. store t (v.offset + 8) payload) laid
      ∙ ap
          (λ t.
            store (front ++ (zeros (footprint (length payload)) ++ (zeros total ++ rest))) (t + 8)
              payload)
          at
      ∙ fill_block front payload (zeros total ++ rest) (omega arith)
      ∙ sym (append_assoc front (filled payload) (zeros total ++ rest)) in
    let regroup : (front ++ filled payload) ++ (filled_slices site_id cs ++ rest)
        ≡ front ++ ((filled payload ++ filled_slices site_id cs) ++ rest) =
      append_assoc front (filled payload) (filled_slices site_id cs ++ rest)
      ∙ ap (λ t. front ++ t)
          (sym (append_assoc (filled payload) (filled_slices site_id cs) rest)) in
    ap
      (λ b.
        fill_slices site_id (slots_of (after_reserve v (slice_bytes c)) cs) (record w { body = b }))
      stored
    ∙ fill_slices-zeros cs site_id (after_reserve v (slice_bytes c))
        (record w { body = (front ++ filled payload) ++ (zeros total ++ rest) })
        (front ++ filled payload) rest short
        (omega (arith, length-append front (filled payload), len, size, at)) refl
    ∙ (λ i. record w { body = regroup i })

pub continued_flag-slots_of :
    (cs : List Slice) (v : ChunkWriter) → continued_flag (slots_of v cs) ≡ more_flag cs
continued_flag-slots_of [] v = refl
continued_flag-slots_of (c ∷ cs) v = refl

pub commit_slices-filled :
    (cs : List Slice) (site_id : ℕ) (v w : ChunkWriter) (front rest : Bytes)
    → All Short cs
    → v.offset ≡ length front
    → w.body ≡ front ++ (filled_slices site_id cs ++ rest)
    → commit_slices (slots_of v cs) w ≡ record w {
      body = front ++ (images (numbered v.sequence (slice_requests site_id cs)) ++ rest);
    }
unfolding commit_slices commit
commit_slices-filled [] site_id v w front rest short at e = λ i. record w { body = e i }
commit_slices-filled (c ∷ cs) site_id v w front rest (small, short) at e =
    let payload = slice_payload site_id c in
    let size = length-slice_payload site_id c in
    let others = filled_slices site_id cs in
    let v' = after_reserve v (slice_bytes c) in
    let head : RecordHead = record {
      payload_bytes = length payload % 2 ^ 16;
      kind = kind_code RecordKind.continuation;
      flags = more_flag cs;
      sequence = v.sequence;
    } in
    let image = record_image head payload in
    let len = length-record_image head payload (omega arith) ∙ ap footprint size in
    let found = images (numbered v'.sequence (slice_requests site_id cs)) in
    let written : RecordHead = record {
      payload_bytes = slice_bytes c % 2 ^ 16;
      kind = kind_code RecordKind.continuation;
      flags = continued_flag (slots_of v' cs);
      sequence = v.sequence;
    } in
    let same : written ≡ head = (λ i. record {
      payload_bytes = (sym size) i % 2 ^ 16;
      kind = kind_code RecordKind.continuation;
      flags = continued_flag-slots_of cs v' i;
      sequence = v.sequence;
    }) in
    let stored : store w.body v.offset (le_bytes 8 (pack written))
        ≡ (front ++ image) ++ (others ++ rest) =
      ap (λ t. store t v.offset (le_bytes 8 (pack written)))
        (e ∙ ap (λ t. front ++ t) (append_assoc (filled payload) others rest))
      ∙ ap
          (λ t. store (front ++ (filled payload ++ (others ++ rest))) t (le_bytes 8 (pack written)))
          at
      ∙ ap
          (λ h.
            store (front ++ (filled payload ++ (others ++ rest))) (length front)
              (le_bytes 8 (pack h)))
          same
      ∙ commit_block front payload (others ++ rest) head
      ∙ sym (append_assoc front image (others ++ rest)) in
    let regroup : (front ++ image) ++ (found ++ rest) ≡ front ++ ((image ++ found) ++ rest) =
      append_assoc front image (found ++ rest)
      ∙ ap (λ t. front ++ t) (sym (append_assoc image found rest)) in
    ap (λ b. commit_slices (slots_of v' cs) (record w { body = b })) stored
    ∙ commit_slices-filled cs site_id v' (record w { body = (front ++ image) ++ (others ++ rest) })
        (front ++ image) rest short (omega (arith, length-append front image, len, at)) refl
    ∙ (λ i. record w { body = regroup i })
