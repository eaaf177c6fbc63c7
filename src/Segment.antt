-- ===== src/Segment.antt =====
-- include/sub0log/segment.hpp: a segment in a caller's memory, and the claim of its chunks
-- (`claimChunkIndex` and `loadClaimedChunks` of include/sub0log/detail/atomics.hpp).
pub mod Create
pub mod Claim
pub mod Blank
use sub0log.Common.{
  ℕ, ◌+◌, ◌-◌, ◌*◌, ◌/◌, ◌%◌, ◌^◌, Bool, true, not, ◌||◌, Option, none, some, List, [], ◌∷◌, ◌++◌,
  length, replicate, ltb, leb, ◌==◌, if◌then◌else◌, ◌⊎◌, inl, inr,
}
use sub0log.Common.Bytes.{Bytes, le_bytes, load, store}
use sub0log.Wire.{
  magic, format_version, next_chunk_offset, compact_segment_header_bytes, sizeof_chunk_header,
}
use sub0log.Wire.SizeClass.{size_class_for_chunk_bytes}
use sub0log.Wire.Crc.{header_checksum}
use sub0log.Wire.Layout.{SegmentHeader, segment_header_image, ChunkHeader, chunk_header_image}

-- The state of a valid segment; `bytes_` is the memory, from which pointers are offsets.
pub record Segment : Type 0 where
  pub memory : Bytes
  pub generation : ℕ
  pub header_bytes : ℕ
  pub chunk_bytes : ℕ
  pub chunk_count : ℕ
  pub size_class : ℕ

-- What the platform answers while a segment is created.
pub record Host : Type 0 where
  pub generation : ℕ
  pub process_id : ℕ
  pub mono_ns : ℕ
  pub wall_ns : ℕ

-- The three refusals of `createInMemory`.
pub data GeometryError : Type 0 where
  bad_chunk_bytes bad_storage storage_too_small : GeometryError

-- `validateChunkBytes`, true when it refuses.
abbrev pub refuses_chunk_bytes : ℕ → Bool
refuses_chunk_bytes n = ltb n (32 + 2 * 8) || not (n % 8 == 0)

abbrev pub or_zero : Option ℕ → ℕ
or_zero none = 0
or_zero (some c) = c

abbrev pub header_of : Host → ℕ → ℕ → ℕ → SegmentHeader
header_of host header_bytes chunk_bytes segment_bytes = record {
  magic = magic;
  format_version = format_version;
  header_bytes = header_bytes;
  chunk_bytes = chunk_bytes;
  segment_bytes = segment_bytes;
  generation = host.generation;
  process_id = host.process_id;
  anchor_mono_ns = host.mono_ns;
  anchor_wall_ns = host.wall_ns;
}

unfoldable pub initialise : Host → Bytes → ℕ → ℕ → Segment
initialise host memory header_bytes chunk_bytes =
    let segment_bytes = length memory in
    let stamped =
      store memory 0
        (segment_header_image (header_of host header_bytes chunk_bytes segment_bytes)) in
    record {
      memory = store stamped next_chunk_offset (le_bytes 8 0);
      generation = host.generation;
      header_bytes = header_bytes;
      chunk_bytes = chunk_bytes;
      chunk_count =
          (if ltb header_bytes segment_bytes
            then (segment_bytes - header_bytes) / chunk_bytes % 2 ^ 32
            else 0);
      size_class = or_zero (size_class_for_chunk_bytes chunk_bytes);
    }

-- `createInMemory`; the storage is the address of its first byte, 0 for a null pointer, and its bytes.
unfoldable pub create_in_memory : Host → ℕ → Bytes → ℕ → GeometryError ⊎ Segment
unfolding initialise
create_in_memory host address storage chunk_bytes =
    if refuses_chunk_bytes chunk_bytes
    then inl bad_chunk_bytes
    else if (address == 0) || not (address % 8 == 0)
    then inl bad_storage
    else if ltb (length storage) (compact_segment_header_bytes + chunk_bytes)
    then inl storage_too_small
    else inr
        (initialise host (replicate (length storage) 0) compact_segment_header_bytes chunk_bytes)

-- `claimChunkIndex`, with 64-bit atomics and without; the cursor is left as the memory shows it.
unfoldable pub claim_chunk_index : Bool → Bytes → ℕ → ℕ × Bytes
claim_chunk_index split memory chunk_count =
    let low = load 4 memory next_chunk_offset in
    let word = load 8 memory next_chunk_offset in
    if split
    then (if ltb low chunk_count
        then (low, store memory next_chunk_offset (le_bytes 4 (low + 1)))
        else (chunk_count, memory))
    else (
      (if ltb word chunk_count then word % 2 ^ 32 else chunk_count),
      store memory next_chunk_offset (le_bytes 8 (word + 1)),
    )

-- `claimedChunks`
unfoldable pub claimed_chunks : Bool → Segment → ℕ
claimed_chunks split s =
    let claimed =
      if split then load 4 s.memory next_chunk_offset else load 8 s.memory next_chunk_offset in
    if ltb claimed s.chunk_count then claimed % 2 ^ 32 else s.chunk_count

-- The body that a writer is bound to.
pub record Body : Type 0 where
  pub start : ℕ
  pub size : ℕ

abbrev pub chunk_base : Segment → ℕ → ℕ
chunk_base s index = s.header_bytes + index * s.chunk_bytes

-- The header that `claimChunk` stamps.
unfoldable pub chunk_header : Segment → ℕ → ℕ → ChunkHeader
chunk_header s thread now = record {
  generation = s.generation;
  owner_thread = thread;
  claim_mono_ns = now;
  header_checksum = header_checksum s.generation thread now s.size_class;
  chunk_size_class = s.size_class;
}

-- `claimChunk` after the index was claimed.
unfoldable pub stamp_chunk : Segment → ℕ → ℕ → ℕ × Bytes → Option Body × Segment
unfolding chunk_header
stamp_chunk s thread now (index, memory) =
    let base = chunk_base s index in
    if leb s.chunk_count index then (none, record s { memory = memory }) else (
      some (record {
        start = base + sizeof_chunk_header;
        size = s.chunk_bytes - sizeof_chunk_header;
      }),
      record s { memory = store memory base (chunk_header_image (chunk_header s thread now)) },
    )

unfoldable pub claim_chunk : Bool → Segment → ℕ → ℕ → Option Body × Segment
unfolding claim_chunk_index stamp_chunk
claim_chunk split s thread now =
    stamp_chunk s thread now (claim_chunk_index split s.memory s.chunk_count)
