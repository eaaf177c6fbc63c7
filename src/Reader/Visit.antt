-- ===== src/Reader/Visit.antt =====
-- include/sub0log/reader.hpp: the chunks of a segment, the outer loop of `SegmentReader::visit`.
pub mod Rounds
pub mod Counts
pub mod Steps
pub mod Bounds
use sub0log.Common.{
  ℕ, zero, suc, ◌+◌, ◌-◌, ◌%◌, ◌^◌, min, Bool, not, ◌&&◌, Option, none, some, [], ltb, leb, ◌==◌,
  if◌then◌else◌, length,
}
use sub0log.Common.Bytes.{Bytes}
use sub0log.Common.Words.{add64}
use sub0log.Wire.{sizeof_chunk_header}
use sub0log.Wire.Crc.{header_checksum}
use sub0log.Wire.Layout.{SegmentHeader, ChunkHeader, load_segment_header, load_chunk_header}
use sub0log.Wire.SizeClass.{chunk_bytes_for_size_class, max_chunk_size_class}
use sub0log.Reader.Header.{ok, open_error}
use sub0log.Reader.Body.{Visited, add_unreadable, add_unwritten, visit_body}

-- One round: leave the loop, go on at the next chunk, or a body walk that ran out of fuel.
pub data ChunkRound : Type 0 where
  leave : Visited → ChunkRound
  go_on : ℕ → Visited → ChunkRound
  stuck : ChunkRound

-- The stored checksum is present and disagrees with the header's own fields.
unfoldable pub checksum_fails : ChunkHeader → Bool
checksum_fails h =
    not (h.header_checksum == 0)
    && not (
        h.header_checksum
        == header_checksum h.generation h.owner_thread h.claim_mono_ns h.chunk_size_class)

-- The size that a chunk of this generation has; `none` for a class that the format never writes.
unfoldable pub this_chunk_bytes : SegmentHeader → ChunkHeader → Option ℕ
this_chunk_bytes h c =
    if c.chunk_size_class == 0
    then some h.chunk_bytes
    else if leb c.chunk_size_class max_chunk_size_class
    then some (chunk_bytes_for_size_class c.chunk_size_class)
    else none

-- The end of a chunk, cut to the end of the segment: `chunkLogicalEnd`.
abbrev pub logical_end : ℕ → ℕ → ℕ → ℕ
logical_end start size seg_end = min (add64 start size) seg_end

-- The part of it that the image has: `presentEnd - chunkStart`.
abbrev pub available : Bytes → ℕ → ℕ → ℕ → ℕ
available image start size seg_end = min (logical_end start size seg_end) (length image) - start

abbrev pub missing_tail : Bytes → ℕ → ℕ → ℕ → ℕ
missing_tail image start size seg_end =
    logical_end start size seg_end - start - available image start size seg_end

-- What a body walk hands back to the chunk loop.
abbrev pub after_body : ℕ → ℕ → Option Visited → ChunkRound
after_body next missing none = stuck
after_body next missing (some s) = go_on next (add_unreadable s missing)

-- A chunk of this generation whose size is known.
unfoldable pub real_chunk : Bytes → ℕ → ℕ → ℕ → ℕ → ℕ → Visited → ChunkRound
real_chunk image seg_end start index owner size s =
    after_body (add64 start size) (missing_tail image start size seg_end) (
      visit_body image index owner (add64 start (available image start size seg_end))
        (add64 start sizeof_chunk_header) s)

-- A chunk whose header is whole. A header fault counts what follows the header.
unfoldable pub headed_chunk : Bytes → SegmentHeader → ℕ → ℕ → ChunkHeader → Visited → ChunkRound
headed_chunk image h start index c s =
    let seg_end = h.segment_bytes in
    let skip = add64 start h.chunk_bytes in
    let body =
      add64 (available image start h.chunk_bytes seg_end - sizeof_chunk_header)
        (missing_tail image start h.chunk_bytes seg_end) in
    if checksum_fails c
    then go_on skip (add_unreadable s body)
    else if c.generation == 0
    then go_on skip (add_unwritten s (logical_end start h.chunk_bytes seg_end - start))
    else if not (c.generation == h.generation)
    then go_on skip (add_unreadable s body)
    else elim (this_chunk_bytes h c) [
      | none ↦ go_on skip (add_unreadable s body)
      | some size ↦ real_chunk image seg_end start index c.owner_thread size s
    ]

unfoldable pub chunk_round : Bytes → SegmentHeader → ℕ → ℕ → Visited → ChunkRound
chunk_round image h start index s =
    let seg_end = h.segment_bytes in
    if not (ltb start seg_end)
    then leave s
    else if leb (length image) start
    then leave (add_unreadable s (seg_end - start))
    else if ltb (available image start h.chunk_bytes seg_end) sizeof_chunk_header
    then go_on (add64 start h.chunk_bytes)
        (add_unreadable s (logical_end start h.chunk_bytes seg_end - start))
    else headed_chunk image h start index (load_chunk_header image start) s

-- `while (chunkStart < segEnd)`; `none` is a loop that used up its fuel.
unfoldable pub chunk_loop : ℕ → Bytes → SegmentHeader → ℕ → ℕ → Visited → Option Visited
chunk_loop zero image h start index s = none
chunk_loop (suc fuel) image h start index s = elim (chunk_round image h start index s) [
  | leave s' ↦ some s'
  | go_on start' s' ↦ chunk_loop fuel image h start' ((index + 1) % 2 ^ 32) s'
  | stuck ↦ none
]

abbrev pub nothing_visited : Visited
nothing_visited = record { records = []; unreadable_bytes = 0; unwritten_bytes = 0 }

-- `SegmentReader::visit` on an image: it resets the counters, and walks a reader that opened. Every
-- round moves on inside the image or is the last, so the image's size and two more suffice.
unfoldable pub visit : Bytes → Option Visited
unfolding chunk_loop
visit image =
    let h = load_segment_header image 0 in
    let walked = chunk_loop (length image + 2) image h h.header_bytes 0 nothing_visited in
    elim (open_error image) [ ok ↦ walked | _ ↦ some nothing_visited ]
