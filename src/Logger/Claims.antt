-- ===== src/Logger/Claims.antt =====
-- A thread that claims chunks through a Logger (include/sub0log/instance.hpp): every chunk that it
-- is given is blank, and what it wrote before stays as it was.
use sub0log.Common.{
  ℕ, ◌+◌, ◌-◌, ◌*◌, ◌%◌, ◌^◌, ◌≤◌, ◌<◌, ◌≡◌, refl, ap, ◌∙◌, arith, false, List, [], ◌++◌,
  append-nil, length, take, replicate, All, ltb, Bool-cases, inl, inr, ltb→lt, ltb→le, not, ◌||◌,
  ◌==◌, if◌then◌else◌,
}
use sub0log.Common.Bytes.{Bytes, view, le_bytes, store}
use sub0log.Common.Memory.{store-after}
use sub0log.Wire.{next_chunk_offset}
use sub0log.Wire.Layout.{chunk_header_image}
use sub0log.Wire.Layout.RoundTrip.{length-chunk_header_image}
use sub0log.Chunk.{ChunkWriter, fresh_writer, is_valid}
use sub0log.Segment.{Segment, chunk_base, chunk_header, claim_chunk}
use sub0log.Segment.Claim.{Claimed, claimed_memory, moved, claim_chunk-free, Claimed-next}
use sub0log.Segment.Claim.Each.{claim_chunk-full, moved-Claimed}
use sub0log.Reader.Body.Written.{Entry}
use sub0log.Logger.{Platform, Producer, writer_of, adopt, refill_writer, current_writer}
use sub0log.Logger.Log.{log, log_of, records_of, Filled, Filled-zeros, records_of-Filled}

-- A platform with 64-bit atomics.
abbrev pub hosted : ℕ → (ℕ → ℕ) → Platform
hosted thread clock = record { split = false; thread = thread; clock = clock }

-- The chunks from `k` on are blank behind their headers.
abbrev pub Blank : Segment → ℕ → Type 0
Blank seg k =
    (i : ℕ)
    → k ≤ i
    → i < seg.chunk_count
    → view seg.memory (chunk_base seg i + 32) (seg.chunk_bytes - 32)
      ≡ replicate (seg.chunk_bytes - 32) 0

-- A segment with `k` claims behind it whose other chunks are blank.
pub record Stocked (seg : Segment) (k : ℕ) : Type 0 where
  pub claimed : Claimed seg k
  pub blank : Blank seg k
  pub even : seg.chunk_bytes % 8 ≡ 0
  pub small : seg.chunk_bytes < 2 ^ 32

-- Each chunk of the thread holds whole records.
abbrev pub HoldsRecords : ChunkWriter → Type 0
HoldsRecords w = (es : List Entry) × Filled w es

pub record Ready (s : Producer) (k : ℕ) : Type 0 where
  pub stocked : Stocked s.logger.segment k
  pub current : HoldsRecords s.cache.writer
  pub others : All HoldsRecords s.left

chunk_after : (base size k i : ℕ) → k < i → base + k * size + size ≤ base + i * size
chunk_after base size k i h = grind arith

view_kept :
    (memory bs : Bytes) (at k n : ℕ)
    → at + length bs ≤ k
    → view (store memory at bs) k n ≡ view memory k n
view_kept memory bs at k n h = ap (take n) (store-after memory bs k at h)

-- A claim writes nothing into the bodies of the chunks that are still free.
view-Claimed :
    (seg : Segment) (k thread now i : ℕ)
    → Claimed seg k
    → k ≤ i
    → view (claimed_memory seg k thread now) (chunk_base seg i + 32) (seg.chunk_bytes - 32)
      ≡ view seg.memory (chunk_base seg i + 32) (seg.chunk_bytes - 32)
view-Claimed seg k thread now i c h =
    let image = chunk_header_image (chunk_header seg thread now) in
    let order : chunk_base seg k ≤ chunk_base seg i = grind arith in
    view_kept (moved seg k) image (chunk_base seg k) (chunk_base seg i + 32) (seg.chunk_bytes - 32)
      (omega (arith, order, length-chunk_header_image (chunk_header seg thread now)))
    ∙ view_kept seg.memory (le_bytes 8 (k + 1)) next_chunk_offset (chunk_base seg i + 32)
        (seg.chunk_bytes - 32) (omega (arith, c.header_room))

view-moved :
    (seg : Segment) (k i : ℕ)
    → Claimed seg k
    → view (moved seg k) (chunk_base seg i + 32) (seg.chunk_bytes - 32)
      ≡ view seg.memory (chunk_base seg i + 32) (seg.chunk_bytes - 32)
view-moved seg k i c =
    view_kept seg.memory (le_bytes 8 (k + 1)) next_chunk_offset (chunk_base seg i + 32)
      (seg.chunk_bytes - 32) (omega (arith, c.header_room))

Stocked-claimed :
    (seg : Segment) (k thread now : ℕ)
    → Stocked seg k
    → k < seg.chunk_count
    → Stocked (record seg { memory = claimed_memory seg k thread now }) (k + 1)
Stocked-claimed seg k thread now st h = record {
  claimed = Claimed-next seg k thread now st.claimed h;
  blank = λ i a b.
      view-Claimed seg k thread now i st.claimed (omega arith) ∙ st.blank i (omega arith) b;
  even = st.even;
  small = st.small;
}

Stocked-moved :
    (seg : Segment) (k : ℕ)
    → Stocked seg k
    → k + 1 < 2 ^ 64
    → Stocked (record seg { memory = moved seg k }) (k + 1)
Stocked-moved seg k st h = record {
  claimed = moved-Claimed seg k st.claimed h;
  blank = λ i a b. view-moved seg k i st.claimed ∙ st.blank i (omega arith) b;
  even = st.even;
  small = st.small;
}

-- What a claim does to the thread: nothing is lost, and a free chunk comes blank.
pub record Refilled (s s' : Producer) (k k' : ℕ) : Type 0 where
  pub ready : Ready s' k'
  pub same_log : log s' ≡ log s
  pub same_dropped : s'.logger.dropped ≡ s.logger.dropped
  pub same_truncated : s'.logger.truncated ≡ s.logger.truncated
  pub same_count : s'.logger.segment.chunk_count ≡ s.logger.segment.chunk_count
  pub same_bytes : s'.logger.segment.chunk_bytes ≡ s.logger.segment.chunk_bytes
  pub same_generation : s'.logger.segment.generation ≡ s.logger.segment.generation

-- The chunk that a claim of index `k` leaves in the cache.
abbrev pub claimed_writer : Segment → ℕ → ChunkWriter
claimed_writer seg k =
    if ltb k seg.chunk_count
    then fresh_writer (replicate (seg.chunk_bytes - 32) 0)
    else fresh_writer []

pub Filled-claimed : (seg : Segment) (k : ℕ) → Stocked seg k → Filled (claimed_writer seg k) []
Filled-claimed seg k st = elim (Bool-cases (ltb k seg.chunk_count)) [
  | inl free ↦ rw free (
      Filled-zeros (seg.chunk_bytes - 32) (omega (arith, st.even, st.claimed.chunk_room))
        (omega (arith, st.small)))
  | inr full ↦ rw full (Filled-zeros 0 (omega arith) (omega arith))
]

-- The segment after a claim.
abbrev claimed_segment : Segment → ℕ → ℕ → ℕ → Segment
claimed_segment seg k thread now =
    if ltb k seg.chunk_count
    then record seg { memory = claimed_memory seg k thread now }
    else record seg { memory = moved seg k }

claim-writer :
    (seg : Segment) (k thread now : ℕ)
    → Stocked seg k
    → k + 1 < 2 ^ 64
    → let (body, seg') = claim_chunk false seg thread now in
      (writer_of body seg'.memory ≡ claimed_writer seg k)
      × Stocked seg' (k + 1)
      × (seg'.chunk_count ≡ seg.chunk_count)
      × (seg'.chunk_bytes ≡ seg.chunk_bytes)
      × (seg'.generation ≡ seg.generation)
claim-writer seg k thread now st h = elim (Bool-cases (ltb k seg.chunk_count)) [
  | inl free ↦
      let lt = ltb→lt k seg.chunk_count free in
      let blank =
        view-Claimed seg k thread now k st.claimed (omega arith) ∙ st.blank k (omega arith) lt in
      rw (claim_chunk-free seg k thread now st.claimed lt, free)
        (ap fresh_writer blank, Stocked-claimed seg k thread now st lt, refl, refl, refl)
  | inr full ↦
      rw (claim_chunk-full seg k thread now st.claimed (ltb→le k seg.chunk_count full), full)
        (refl, Stocked-moved seg k st h, refl, refl, refl)
]

-- The next claim of a thread that is ready gives it chunk `k` blank, or no valid writer when all
-- chunks are claimed; the records that the thread wrote before are still found.
pub refill_writer_lem :
    (thread : ℕ) (clock : ℕ → ℕ) (s : Producer) (k : ℕ)
    → Ready s k
    → k + 1 < 2 ^ 64
    → let (valid, s') = refill_writer (hosted thread clock) s in
      (valid ≡ is_valid (claimed_writer s.logger.segment k))
      × (s'.cache.writer ≡ claimed_writer s.logger.segment k)
      × Refilled s s' k (k + 1)
unfolding refill_writer adopt log_of
refill_writer_lem thread clock s k r h =
    let seg = s.logger.segment in
    let (same, st, count, bytes, generation) =
      claim-writer seg k thread (clock s.readings) r.stocked h in
    let filled = Filled-claimed seg k r.stocked in
    (
      ap is_valid same,
      same,
      record {
        ready = record {
          stocked = st;
          current = ([], rw same filled);
          others = (r.current, r.others);
        };
        same_log =
            ap (λ t. log s ++ records_of t) same
            ∙ ap (λ t. log s ++ t) (records_of-Filled filled)
            ∙ append-nil (log s);
        same_dropped = refl;
        same_truncated = refl;
        same_count = count;
        same_bytes = bytes;
        same_generation = generation;
      },
    )

pub Refilled-refl : (s : Producer) (k : ℕ) → Ready s k → Refilled s s k k
Refilled-refl s k r = record {
  ready = r;
  same_log = refl;
  same_dropped = refl;
  same_truncated = refl;
  same_count = refl;
  same_bytes = refl;
  same_generation = refl;
}

-- The current writer is the cached one, or that of a claim.
pub current_writer_lem :
    (thread : ℕ) (clock : ℕ → ℕ) (s : Producer) (k : ℕ)
    → Ready s k
    → k + 1 < 2 ^ 64
    → let (valid, s') = current_writer (hosted thread clock) s in
      (valid ≡ is_valid s'.cache.writer) × ((k' : ℕ) × (k ≤ k') × (k' ≤ k + 1) × Refilled s s' k k')
unfolding current_writer refill_writer
current_writer_lem thread clock s k r h =
    elim (Bool-cases (
      not (s.cache.owner == s.logger.address)
      || not (s.cache.generation == s.logger.segment.generation))) [
        | inl other ↦
            let (valid, same, refilled) = refill_writer_lem thread clock s k r h in
            rw other (refl, (k + 1, omega arith, omega arith, refilled))
        | inr own ↦ rw own (refl, (k, omega arith, omega arith, Refilled-refl s k r))
      ]
