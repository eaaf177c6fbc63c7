-- ===== src/Segment/Claim/Each.antt =====
-- Claims one after the other (include/sub0log/segment.hpp), past the end of the segment too.
use sub0log.Common.{
  ℕ, ◌+◌, ◌-◌, ◌%◌, ◌^◌, ◌≤◌, ◌<◌, ◌≡◌, refl, ap, ◌∙◌, arith, min, true, false, Option, none, some,
  List, [], ◌∷◌, length, ltb, leb, if◌then◌else◌, Bool-cases, inl, inr, ltb→lt, ltb→le,
}
use sub0log.Common.Bytes.{Bytes, le_bytes, length-store}
use sub0log.Common.Memory.{load-store}
use sub0log.Wire.{next_chunk_offset}
use sub0log.Segment.{
  Segment, Body, chunk_base, claim_chunk_index, stamp_chunk, claim_chunk, claimed_chunks,
}
use sub0log.Segment.Claim.{Claimed, claim_chunk-free, Claimed-next, moved}

-- Claims by threads at times.
unfoldable pub claim_each : Segment → List (ℕ × ℕ) → List (Option Body) × Segment
claim_each s [] = ([], s)
claim_each s ((thread, now) ∷ others) =
    let (body, s') = claim_chunk false s thread now in
    let (bodies, s'') = claim_each s' others in (body ∷ bodies, s'')

-- What the claim of index `k` gives out.
abbrev pub body_at : Segment → ℕ → Option Body
body_at s k =
    if ltb k s.chunk_count
    then some (record { start = chunk_base s k + 32; size = s.chunk_bytes - 32 })
    else none

abbrev pub bodies_from : Segment → ℕ → List (ℕ × ℕ) → List (Option Body)
bodies_from s k [] = []
bodies_from s k (x ∷ others) = body_at s k ∷ bodies_from s (k + 1) others

-- A segment whose cursor counts on behind the last chunk.
claim_index-full :
    (s : Segment) (k : ℕ)
    → Claimed s k
    → s.chunk_count ≤ k
    → claim_chunk_index false s.memory s.chunk_count ≡ (s.chunk_count, moved s k)
unfolding claim_chunk_index
claim_index-full s k c h =
    let full : ltb k s.chunk_count ≡ false = ground arith in rw (c.cursor, full) refl

stamp_chunk-full :
    (s : Segment) (thread now : ℕ) (memory : Bytes)
    → stamp_chunk s thread now (s.chunk_count, memory) ≡ (none, record s { memory = memory })
unfolding stamp_chunk
stamp_chunk-full s thread now memory =
    let full : leb s.chunk_count s.chunk_count ≡ true = ground arith in rw full refl

pub claim_chunk-full :
    (s : Segment) (k thread now : ℕ)
    → Claimed s k
    → s.chunk_count ≤ k
    → claim_chunk false s thread now ≡ (none, record s { memory = moved s k })
unfolding claim_chunk
claim_chunk-full s k thread now c h =
    ap (stamp_chunk s thread now) (claim_index-full s k c h)
    ∙ stamp_chunk-full s thread now (moved s k)

pub moved-Claimed :
    (s : Segment) (k : ℕ)
    → Claimed s k
    → k + 1 < 2 ^ 64
    → Claimed (record s { memory = moved s k }) (k + 1)
moved-Claimed s k c h = record {
  cursor =
      load-store 8 (k + 1) s.memory next_chunk_offset (omega (arith, c.header_room, c.chunks_fit))
        (omega arith);
  chunks_fit =
      omega (arith, c.chunks_fit, length-store s.memory next_chunk_offset (le_bytes 8 (k + 1)));
  header_room = c.header_room;
  chunk_room = c.chunk_room;
  count_fits = c.count_fits;
  class_fits = c.class_fits;
  generation_fits = c.generation_fits;
}

claimed_chunks-Claimed :
    (s : Segment) (k : ℕ) → Claimed s k → claimed_chunks false s ≡ min k s.chunk_count
unfolding claimed_chunks
claimed_chunks-Claimed s k c = rw c.cursor (clamped k s.chunk_count c.count_fits)
  where
    clamped : (k n : ℕ) → n < 2 ^ 32 → (if ltb k n then k % 2 ^ 32 else n) ≡ min k n
    clamped k n h = ground arith

-- With 64-bit atomics, and as long as the cursor does not wrap: claims one after the other give
-- out the bodies of the chunks in order, each chunk once, and nothing once all chunks are claimed;
-- the count of claimed chunks is clamped to the chunks there are.
pub claim_each_lem :
    (claims : List (ℕ × ℕ)) (s : Segment) (k : ℕ)
    → Claimed s k
    → k + length claims < 2 ^ 64
    → let (bodies, s') = claim_each s claims in
      (bodies ≡ bodies_from s k claims)
      × (claimed_chunks false s' ≡ min (k + length claims) s.chunk_count)
unfolding claim_each
claim_each_lem [] s k c h = (refl, claimed_chunks-Claimed s k c ∙ omega arith)
claim_each_lem ((thread, now) ∷ others) s k c h = elim (Bool-cases (ltb k s.chunk_count)) [
  | inl free ↦
      let lt = ltb→lt k s.chunk_count free in
      let (e, f) =
        claim_each_lem others _ (k + 1) (Claimed-next s k thread now c lt) (omega arith) in
      rw (claim_chunk-free s k thread now c lt, free)
        (
          ap (λ t. some (record { start = chunk_base s k + 32; size = s.chunk_bytes - 32 }) ∷ t) e,
          f ∙ omega arith,
        )
  | inr full ↦
      let le = ltb→le k s.chunk_count full in
      let (e, f) =
        claim_each_lem others _ (k + 1) (moved-Claimed s k c (omega arith)) (omega arith) in
      rw (claim_chunk-full s k thread now c le, full) (ap (λ t. none ∷ t) e, f ∙ omega arith)
]
