-- ===== src/Segment/Claim.antt =====
-- `Segment::claimChunk` (include/sub0log/segment.hpp): which chunk a claim gives out, and what it leaves.
pub mod Each
use sub0log.Common.{
  ℕ, zero, suc, ◌+◌, ◌-◌, ◌*◌, ◌%◌, ◌^◌, ◌≤◌, ◌<◌, ◌≡◌, ◌≢◌, refl, sym, ap, ◌∙◌, arith, Bool, true,
  false, not, ◌&&◌, Option, none, some, List, [], ◌∷◌, ◌++◌, length, length-take, take, drop, ltb,
  leb, ◌==◌, if◌then◌else◌, ==_refl,
}
use sub0log.Common.Bytes.{Bytes, le_bytes, length-le_bytes, load, store, length-store}
use sub0log.Common.Memory.{store_parts, load-before, load-store}
use sub0log.Wire.{next_chunk_offset}
use sub0log.Wire.Crc.{crc32, header_checksum}
use sub0log.Wire.Crc.Chain.{nonzero, covered_bytes, header_checksum_lem, crc32-lt}
use sub0log.Wire.Layout.{ChunkHeader, chunk_header_image, load_chunk_header}
use sub0log.Wire.Layout.RoundTrip.{
  ChunkHeaderFits, load_chunk_header-image, length-chunk_header_image,
}
use sub0log.Reader.Visit.{checksum_fails}
use sub0log.Segment.{
  Segment, Body, chunk_base, chunk_header, claim_chunk_index, stamp_chunk, claim_chunk,
  claimed_chunks,
}

-- A segment whose cursor stands at `k`, with room for all its chunks.
pub record Claimed (s : Segment) (k : ℕ) : Type 0 where
  pub cursor : load 8 s.memory next_chunk_offset ≡ k
  pub chunks_fit : s.header_bytes + s.chunk_count * s.chunk_bytes ≤ length s.memory
  pub header_room : next_chunk_offset + 8 ≤ s.header_bytes
  pub chunk_room : 48 ≤ s.chunk_bytes
  pub count_fits : s.chunk_count < 2 ^ 32
  pub class_fits : s.size_class < 2 ^ 8
  pub generation_fits : s.generation < 2 ^ 64

-- The memory once the cursor has moved on.
abbrev pub moved : Segment → ℕ → Bytes
moved s k = store s.memory next_chunk_offset (le_bytes 8 (k + 1))

claim_index-free :
    (s : Segment) (k : ℕ)
    → Claimed s k
    → k < s.chunk_count
    → claim_chunk_index false s.memory s.chunk_count ≡ (k, moved s k)
unfolding claim_chunk_index
claim_index-free s k c h =
    let small : k % 2 ^ 32 ≡ k = omega (arith, c.count_fits) in
    let free : ltb k s.chunk_count ≡ true = ground arith in rw (c.cursor, free, small) refl

chunks_below : (k count size : ℕ) → k < count → k * size + size ≤ count * size
chunks_below k count size h = grind arith

chunk_inside :
    (s : Segment) (k : ℕ)
    → Claimed s k
    → k < s.chunk_count
    → chunk_base s k + s.chunk_bytes ≤ length s.memory
chunk_inside s k c h = grind (arith, c.chunks_fit, chunks_below k s.chunk_count s.chunk_bytes h)

-- What a claim of a free chunk returns, and the segment after it.
abbrev pub claimed_memory : Segment → ℕ → ℕ → ℕ → Bytes
claimed_memory s k thread now =
    store (moved s k) (chunk_base s k) (chunk_header_image (chunk_header s thread now))

stamp_chunk-free :
    (s : Segment) (k thread now : ℕ) (memory : Bytes)
    → k < s.chunk_count
    → stamp_chunk s thread now (k, memory) ≡ (
      some (record { start = chunk_base s k + 32; size = s.chunk_bytes - 32 }),
      record s {
        memory = store memory (chunk_base s k) (chunk_header_image (chunk_header s thread now));
      },
    )
unfolding stamp_chunk
stamp_chunk-free s k thread now memory h =
    let free : leb s.chunk_count k ≡ false = ground arith in rw free refl

pub claim_chunk-free :
    (s : Segment) (k thread now : ℕ)
    → Claimed s k
    → k < s.chunk_count
    → claim_chunk false s thread now ≡ (
      some (record { start = chunk_base s k + 32; size = s.chunk_bytes - 32 }),
      record s { memory = claimed_memory s k thread now },
    )
unfolding claim_chunk
claim_chunk-free s k thread now c h =
    ap (stamp_chunk s thread now) (claim_index-free s k c h)
    ∙ stamp_chunk-free s k thread now (moved s k) h

and_false : (b : Bool) → (b && false) ≡ false
and_false b = ground arith

-- The stamped header passes the reader's check of its checksum.
checksum_passes :
    (s : Segment) (thread now : ℕ) → checksum_fails (chunk_header s thread now) ≡ false
unfolding checksum_fails chunk_header
checksum_passes s thread now =
    let sum = header_checksum s.generation thread now s.size_class in
    rw (==_refl sum) (and_false (not (sum == 0)))

checksum-lt : (g t c k : ℕ) → header_checksum g t c k < 2 ^ 32
checksum-lt g t c k =
    ground (arith, header_checksum_lem g t c k, crc32-lt 0 (covered_bytes g t c k))

header_fits :
    (s : Segment) (k thread now : ℕ)
    → Claimed s k
    → thread < 2 ^ 64
    → now < 2 ^ 64
    → ChunkHeaderFits (chunk_header s thread now)
unfolding chunk_header
header_fits s k thread now c a b = record {
  generation_fits = c.generation_fits;
  thread_fits = a;
  time_fits = b;
  checksum_fits = checksum-lt s.generation thread now s.size_class;
  class_fits = c.class_fits;
}

-- The stamped header stands at the base of the chunk.
load_header :
    (s : Segment) (k thread now : ℕ)
    → Claimed s k
    → k < s.chunk_count
    → thread < 2 ^ 64
    → now < 2 ^ 64
    → load_chunk_header (claimed_memory s k thread now) (chunk_base s k) ≡ chunk_header s thread now
load_header s k thread now c h a b =
    let base = chunk_base s k in
    let image = chunk_header_image (chunk_header s thread now) in
    let inside = chunk_inside s k c h in
    let size = length-store s.memory next_chunk_offset (le_bytes 8 (k + 1)) in
    let width = length-chunk_header_image (chunk_header s thread now) in
    ap (λ t. load_chunk_header t base)
      (store_parts (moved s k) image base (omega (arith, inside, size, width, c.chunk_room)))
    ∙ load_chunk_header-image (chunk_header s thread now) (take base (moved s k))
        (drop (base + length image) (moved s k)) base (header_fits s k thread now c a b)
        (omega (arith, length-take base (moved s k), size, inside))

pub Claimed-next :
    (s : Segment) (k thread now : ℕ)
    → Claimed s k
    → k < s.chunk_count
    → Claimed (record s { memory = claimed_memory s k thread now }) (k + 1)
Claimed-next s k thread now c h =
    let base = chunk_base s k in
    let image = chunk_header_image (chunk_header s thread now) in
    let size = length-store s.memory next_chunk_offset (le_bytes 8 (k + 1)) in
    let size' = length-store (moved s k) base image in
    record {
      cursor =
          load-before 8 (moved s k) image next_chunk_offset base (omega (arith, c.header_room))
          ∙ load-store 8 (k + 1) s.memory next_chunk_offset
              (omega (arith, c.header_room, c.chunks_fit)) (omega (arith, c.count_fits));
      chunks_fit = omega (arith, c.chunks_fit, size, size');
      header_room = c.header_room;
      chunk_room = c.chunk_room;
      count_fits = c.count_fits;
      class_fits = c.class_fits;
      generation_fits = c.generation_fits;
    }

-- With 64-bit atomics: in a segment of which `k` chunks are claimed and that has more, the next
-- claim gives out the body of chunk `k`, and the whole chunk lies inside the segment. The header
-- that is then loaded at its base is the one that was stamped, it passes the reader's check of the
-- checksum, and `k + 1` chunks are claimed. Thread and time fit 64 bits.
pub claim_chunk_lem :
    (s : Segment) (k thread now : ℕ)
    → Claimed s k
    → k < s.chunk_count
    → thread < 2 ^ 64
    → now < 2 ^ 64
    → let (body, s') = claim_chunk false s thread now in
      (body ≡ some (record { start = chunk_base s k + 32; size = s.chunk_bytes - 32 }))
      × (chunk_base s k + s.chunk_bytes ≤ length s.memory)
      × (load_chunk_header s'.memory (chunk_base s k) ≡ chunk_header s thread now)
      × (checksum_fails (chunk_header s thread now) ≡ false)
      × Claimed s' (k + 1)
claim_chunk_lem s k thread now c h a b = rw (claim_chunk-free s k thread now c h) (
  refl,
  chunk_inside s k c h,
  load_header s k thread now c h a b,
  checksum_passes s thread now,
  Claimed-next s k thread now c h,
)
