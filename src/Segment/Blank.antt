-- ===== src/Segment/Blank.antt =====
-- What `createInMemory` (include/sub0log/segment.hpp) leaves of its storage behind the headers: zeros.
use sub0log.Common.{
  ℕ, ◌+◌, ◌-◌, ◌*◌, ◌≤◌, ◌<◌, ◌≡◌, ap, ◌∙◌, arith, length, take, drop-replicate, take-replicate,
  replicate, length-replicate,
}
use sub0log.Common.Bytes.{le_bytes, view, store, length-store}
use sub0log.Common.Memory.{store-after}
use sub0log.Wire.{next_chunk_offset}
use sub0log.Wire.Layout.{SegmentHeader, segment_header_image}
use sub0log.Wire.Layout.RoundTrip.{length-segment_header_image}
use sub0log.Segment.{Host, header_of, initialise, chunk_base}
use sub0log.Segment.Claim.{Claimed}

-- Behind the cursor everything is as zeroed.
behind_headers :
    (h : SegmentHeader) (n at size : ℕ)
    → 136 ≤ at
    → at + size ≤ n
    → view
        (store (store (replicate n 0) 0 (segment_header_image h)) next_chunk_offset (le_bytes 8 0))
        at
        size
      ≡ replicate size 0
behind_headers h n at size low room =
    ap (take size) (
      store-after (store (replicate n 0) 0 (segment_header_image h)) (le_bytes 8 0) at
        next_chunk_offset (omega arith)
      ∙ store-after (replicate n 0) (segment_header_image h) at 0
          (omega (arith, length-segment_header_image h))
      ∙ drop-replicate at n 0)
    ∙ take-replicate size (n - at) 0 (omega arith)

chunk_room :
    (base bytes count i n : ℕ)
    → i < count
    → base + count * bytes ≤ n
    → 32 ≤ bytes
    → base + i * bytes + 32 + (bytes - 32) ≤ n
chunk_room base bytes count i n h k l = grind arith

-- Every chunk of a segment that was just created is blank behind its header.
pub created_blank :
    (host : Host) (n chunk_bytes : ℕ)
    → Claimed (initialise host (replicate n 0) 192 chunk_bytes) 0
    → let s = initialise host (replicate n 0) 192 chunk_bytes in
      (i : ℕ)
      → i < s.chunk_count
      → view s.memory (chunk_base s i + 32) (s.chunk_bytes - 32) ≡ replicate (s.chunk_bytes - 32) 0
unfolding initialise
created_blank host n chunk_bytes c i h =
    let header = header_of host 192 chunk_bytes (length (replicate {A = ℕ} n 0)) in
    let stamped = store (replicate n 0) 0 (segment_header_image header) in
    let size =
      length-store stamped next_chunk_offset (le_bytes 8 0)
      ∙ length-store (replicate n 0) 0 (segment_header_image header)
      ∙ length-replicate {A = ℕ} n 0 in
    behind_headers header n (192 + i * chunk_bytes + 32) (chunk_bytes - 32) (omega arith) (
      chunk_room 192 chunk_bytes (initialise host (replicate n 0) 192 chunk_bytes).chunk_count i n h
        (omega (arith, c.chunks_fit, size)) (omega (arith, c.chunk_room)))
