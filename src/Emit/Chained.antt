-- ===== src/Emit/Chained.antt =====
-- A whole chain of `emitChained` (include/sub0log/detail/emit.hpp): it is reserved or the chunk stays
-- as it was, and the reader finds the message with all its continuations behind it.
use sub0log.Common.{
  ℕ, ◌+◌, ◌-◌, ◌%◌, ◌^◌, ◌≤◌, ◌<◌, ◌≡◌, refl, sym, ap, ◌∙◌, arith, none, some, List, [], ◌∷◌, ◌++◌,
  map, length, append_assoc, length-append, All, Bool-cases, inl, inr, ltb, ltb→lt, ltb→le, ◌⊎◌,
  bit_or,
}
use sub0log.Common.Bytes.{Bytes, le_bytes, store}
use sub0log.Wire.{RecordKind, kind_code, padded_payload}
use sub0log.Wire.Padding.{padded_payload_eq}
use sub0log.Wire.Head.{RecordHead, pack}
use sub0log.Chunk.{ChunkWriter, fill, commit}
use sub0log.Chunk.Layout.{
  Holds, after_reserve, next_slot, reserve_fits, reserve_refused, record_image, length-record_image,
  remaining-Holds,
}
use sub0log.Chunk.Reserved.{zeros, footprint, Holds-reserved, filled, fill_block, commit_block}
use sub0log.Reader.Body.Written.{Entry, EntryFits, images}
use sub0log.Protocol.{Request, RequestFits, numbered, entry_of-EntryFits, size_cases}
use sub0log.Logger.Log.{request_of_entry}
use sub0log.Emit.Chain.{
  Slice, ArgOverflow, slice_bytes, reserve_behind, reserve_chain, with_message, all_slices,
  footprints, record_footprint, ReservedChain,
}
use sub0log.Emit.Publish.{fill_slices, commit_slices, continued_flag, write_chain}
use sub0log.Emit.Layout.{
  slots_of, after_slices, chain_size, Short, reserve_slices_fits, slice_requests, more_flag,
  fill_slices-zeros, commit_slices-filled, slice_payload, length-slice_payload, filled_slices,
  length-filled, continued_flag-slots_of,
}

footprints-sum :
    (cs : List Slice) (sum : ℕ)
    → sum + chain_size cs < 2 ^ 64
    → footprints sum cs ≡ sum + chain_size cs
unfolding footprints record_footprint
footprints-sum [] sum h = omega arith
footprints-sum (c ∷ cs) sum h =
    let next : (sum + (8 + padded_payload (slice_bytes c)) % 2 ^ 64) % 2 ^ 64
        ≡ sum + footprint (slice_bytes c) =
      omega arith in
    rw next (footprints-sum cs (sum + footprint (slice_bytes c)) (omega arith) ∙ omega arith)

-- What a chain behind the cursor of `w` is reserved as.
abbrev pub chain_at : ChunkWriter → ℕ → List Slice → ReservedChain
chain_at w n cs = (next_slot w, slots_of (after_reserve w n) cs)

abbrev pub after_chain : ChunkWriter → ℕ → List Slice → ChunkWriter
after_chain w n cs = after_slices (after_reserve w n) cs

-- `reserveChain` is all or nothing: in a chunk that holds records and then zeros, a chain of short
-- slices, no more than the array has slots, gets all its reservations, one behind the other, exactly
-- if the head word can carry the message's length and the whole chain fits the free space;
-- otherwise the chunk is left as it was. Sizes stay below 2^32.
pub reserve_chain_lem :
    (k n : ℕ) (overflows : List ArgOverflow) {w : ChunkWriter} {written : Bytes} {free : ℕ}
    → Holds w written free
    → n < 2 ^ 32 - 8
    → All Short (all_slices overflows)
    → chain_size (all_slices overflows) < 2 ^ 32
    → length (all_slices overflows) ≤ k
    → let cs = all_slices overflows in
      ((n < 2 ^ 16)
        × (footprint n + chain_size cs ≤ free)
        × (reserve_chain k n overflows w ≡ (some (chain_at w n cs), after_chain w n cs)))
      ⊎ ((n < 2 ^ 16 → free < footprint n + chain_size cs)
          × (reserve_chain k n overflows w ≡ (none, w)))
unfolding reserve_chain reserve_behind with_message record_footprint
reserve_chain_lem k n overflows {w} {written} {free} v wide short bounded room =
    let cs = all_slices overflows in
    let pad = padded_payload_eq n (omega arith) in
    let start : record_footprint n ≡ footprint n = omega (arith, pad) in
    let needed : footprints (record_footprint n) cs ≡ footprint n + chain_size cs =
      ap (λ t. footprints t cs) start ∙ footprints-sum cs (footprint n) (omega (arith, pad)) in
    let size = footprint n + chain_size cs in
    let left = remaining-Holds v in
    elim (Bool-cases (ltb free size)) [
      | inl big ↦ inr (λ small. ltb→lt free size big, rw (left, needed, big) refl)
      | inr fits ↦
          let enough = ltb→le free size fits in
          elim (size_cases n free) [
            | inr no_room ↦ inr (
              λ small. absurd (omega (arith, no_room small, enough)),
              rw (left, needed, fits, reserve_refused n v no_room) refl,
            )
            | inl (small, ok) ↦
                let slots =
                  reserve_slices_fits cs k (Holds-reserved n v small ok) short
                    (omega (arith, enough)) room in
                inl (small, enough, rw (left, needed, fits, reserve_fits n v small ok, slots) refl)
          ]
    ]

-- The message of a chain, and the records of the whole chain.
abbrev pub message_request : ℕ → List Slice → Bytes → Request
message_request flags cs payload = record {
  kind = kind_code RecordKind.message;
  flags = bit_or flags (more_flag cs);
  payload = payload;
}

abbrev pub chain_requests : ℕ → ℕ → List Slice → Bytes → List Request
chain_requests site_id flags cs payload =
    message_request flags cs payload ∷ slice_requests site_id cs

-- The memory behind all the stores.
pub chain_body :
    (site_id n flags : ℕ) (cs : List Slice) (payload front rest : Bytes) (w u : ChunkWriter)
    → length payload ≡ n
    → n < 2 ^ 16
    → All Short cs
    → w.offset ≡ length front
    → u.body ≡ front ++ (zeros (footprint n) ++ (zeros (chain_size cs) ++ rest))
    → write_chain site_id n flags payload (chain_at w n cs) u ≡ record u {
      body =
          front ++ (images (numbered w.sequence (chain_requests site_id flags cs payload)) ++ rest);
    }
unfolding write_chain fill commit
chain_body site_id n flags cs payload front rest w u len small short at e =
    let v = after_reserve w n in
    let front' = front ++ filled payload in
    let filled_behind = filled_slices site_id cs ++ rest in
    let behind : length front' ≡ length front + footprint n =
      length-append front (filled payload)
      ∙ ap (λ t. length front + t) (length-filled payload (omega arith) ∙ ap footprint len) in
    let cursor : v.offset ≡ length front' = omega (arith, behind, at) in
    let first : store u.body (w.offset + 8) payload ≡ front' ++ (zeros (chain_size cs) ++ rest) =
      ap (λ t. store t (w.offset + 8) payload)
        (e ∙ ap (λ t. front ++ (zeros (footprint t) ++ (zeros (chain_size cs) ++ rest))) (sym len))
      ∙ ap
          (λ t.
            store (front ++ (zeros (footprint (length payload)) ++ (zeros (chain_size cs) ++ rest)))
              (t + 8) payload)
          at
      ∙ fill_block front payload (zeros (chain_size cs) ++ rest) (omega arith)
      ∙ sym (append_assoc front (filled payload) (zeros (chain_size cs) ++ rest)) in
    let slices_written : commit_slices (slots_of v cs) (
          fill_slices site_id (slots_of v cs)
            (record u { body = store u.body (w.offset + 8) payload }))
        ≡ record u { body = front' ++ (more ++ rest) } =
      ap
        (λ b.
          commit_slices (slots_of v cs)
            (fill_slices site_id (slots_of v cs) (record u { body = b })))
        first
      ∙ ap (commit_slices (slots_of v cs)) (
          fill_slices-zeros cs site_id v
            (record u { body = front' ++ (zeros (chain_size cs) ++ rest) }) front' rest short cursor
            refl)
      ∙ commit_slices-filled cs site_id v (record u { body = front' ++ filled_behind }) front' rest
          short cursor refl in
    ap (λ t. commit t (next_slot w) written) slices_written
    ∙ (λ i. record u { body = (last (more ++ rest) ∙ regroup) i })
  where
    more : Bytes
    more = images (numbered ((w.sequence + 1) % 2 ^ 16) (slice_requests site_id cs))

    written : RecordHead
    written = record {
      payload_bytes = n % 2 ^ 16;
      kind = kind_code RecordKind.message;
      flags = bit_or flags (continued_flag (slots_of (after_reserve w n) cs));
      sequence = w.sequence;
    }

    head : RecordHead
    head = record {
      payload_bytes = length payload % 2 ^ 16;
      kind = kind_code RecordKind.message;
      flags = bit_or flags (more_flag cs);
      sequence = w.sequence;
    }

    same : written ≡ head
    same = λ i. record {
      payload_bytes = (sym len) i % 2 ^ 16;
      kind = kind_code RecordKind.message;
      flags = bit_or flags (continued_flag-slots_of cs (after_reserve w n) i);
      sequence = w.sequence;
    }

    last :
        (behind : Bytes)
        → store ((front ++ filled payload) ++ behind) w.offset (le_bytes 8 (pack written))
          ≡ front ++ (record_image head payload ++ behind)
    last behind =
        ap (λ t. store t w.offset (le_bytes 8 (pack written)))
          (append_assoc front (filled payload) behind)
        ∙ ap (λ t. store (front ++ (filled payload ++ behind)) t (le_bytes 8 (pack written))) at
        ∙ ap (λ h. store (front ++ (filled payload ++ behind)) (length front) (le_bytes 8 (pack h)))
            same
        ∙ commit_block front payload behind head

    regroup :
        front ++ (record_image head payload ++ (more ++ rest))
        ≡ front ++ ((record_image head payload ++ more) ++ rest)
    regroup = ap (λ t. front ++ t) (sym (append_assoc (record_image head payload) more rest))

pub requests-numbered : (rs : List Request) (seq : ℕ) → map request_of_entry (numbered seq rs) ≡ rs
requests-numbered [] seq = refl
requests-numbered (r ∷ rs) seq = ap (λ t. r ∷ t) (requests-numbered rs ((seq + 1) % 2 ^ 16))

pub requests-append :
    (es fs : List Entry)
    → map request_of_entry (es ++ fs) ≡ map request_of_entry es ++ map request_of_entry fs
requests-append [] fs = refl
requests-append (e ∷ es) fs = ap (λ t. request_of_entry e ∷ t) (requests-append es fs)

pub images-append : (es fs : List Entry) → images (es ++ fs) ≡ images es ++ images fs
images-append [] fs = refl
images-append (e ∷ es) fs =
    ap (λ t. record_image e.head e.payload ++ t) (images-append es fs)
    ∙ sym (append_assoc (record_image e.head e.payload) (images es) (images fs))

-- Requests that fit are numbered to entries that fit.
abbrev pub Sound : Request → Type 0
Sound r = RequestFits r × (length r.payload < 2 ^ 16)

pub numbered-EntryFits :
    (rs : List Request) (seq : ℕ) → seq < 2 ^ 16 → All Sound rs → All EntryFits (numbered seq rs)
numbered-EntryFits [] seq h k = tt
numbered-EntryFits (r ∷ rs) seq h ((ok, short), k) = (
  entry_of-EntryFits seq r ok short h,
  numbered-EntryFits rs ((seq + 1) % 2 ^ 16) (omega arith) k,
)

pub slice_requests-Sound :
    (site_id : ℕ) (cs : List Slice) → All Short cs → All Sound (slice_requests site_id cs)
slice_requests-Sound site_id [] h = tt
slice_requests-Sound site_id (c ∷ []) (small, h) = (
  (
    record { kind_fits = omega arith; flags_fit = omega arith },
    omega (arith, length-slice_payload site_id c),
  ),
  tt,
)
slice_requests-Sound site_id (c ∷ (d ∷ cs)) (small, h) = (
  (
    record { kind_fits = omega arith; flags_fit = omega arith },
    omega (arith, length-slice_payload site_id c),
  ),
  slice_requests-Sound site_id (d ∷ cs) h,
)

pub All-append :
    (es fs : List Entry) → All EntryFits es → All EntryFits fs → All EntryFits (es ++ fs)
All-append [] fs h k = k
All-append (e ∷ es) fs (a, h) k = (a, All-append es fs h k)

-- Where the cursor ends, and the sequence number.
pub after_slices-numbers :
    (cs : List Slice) (w : ChunkWriter)
    → w.sequence < 2 ^ 16
    → (after_slices w cs).sequence < 2 ^ 16
after_slices-numbers [] w h = h
after_slices-numbers (c ∷ cs) w h =
    after_slices-numbers cs (after_reserve w (slice_bytes c)) (omega arith)

pub slice_requests-size :
    (cs : List Slice) (site_id seq : ℕ)
    → All Short cs
    → length (images (numbered seq (slice_requests site_id cs))) ≡ chain_size cs
slice_requests-size [] site_id seq h = refl
slice_requests-size (c ∷ cs) site_id seq (small, h) =
    let payload = slice_payload site_id c in
    let size = length-slice_payload site_id c in
    let head : RecordHead = record {
      payload_bytes = length payload % 2 ^ 16;
      kind = kind_code RecordKind.continuation;
      flags = more_flag cs;
      sequence = seq;
    } in
    length-append (record_image head payload)
      (images (numbered ((seq + 1) % 2 ^ 16) (slice_requests site_id cs)))
    ∙ omega (
      arith,
      length-record_image head payload (omega (arith, size)) ∙ ap footprint size,
      slice_requests-size cs site_id ((seq + 1) % 2 ^ 16) h,
    )
