-- ===== src/Reader/Visit/Rounds.antt =====
-- One round of the chunk loop of `SegmentReader::visit` (include/sub0log/reader.hpp), case by case.
use sub0log.Common.{
  ℕ, ◌-◌, ◌≤◌, ◌<◌, ◌≡◌, ◌≢◌, arith, true, false, some, none, length, lt→ltb, le→ltb, le→leb, leb,
  ◌==◌,
}
use sub0log.Common.Bytes.{Bytes}
use sub0log.Common.Words.{add64}
use sub0log.Wire.{sizeof_chunk_header}
use sub0log.Wire.Layout.{SegmentHeader, ChunkHeader, load_chunk_header}
use sub0log.Reader.Body.{Visited, add_unreadable, add_unwritten}
use sub0log.Reader.Visit.{
  leave, go_on, this_chunk_bytes, logical_end, available, missing_tail, real_chunk, headed_chunk,
  chunk_round, checksum_fails,
}

lt→not_leb : (a b : ℕ) → a < b → leb b a ≡ false
lt→not_leb a b h = ground arith

ne→not_eq : (a b : ℕ) → a ≢ b → (a == b) ≡ false
ne→not_eq a b h = ground arith

eq→eq : (a b : ℕ) → a ≡ b → (a == b) ≡ true
eq→eq a b h = ground arith

module _ (image : Bytes) (h : SegmentHeader) (start index : ℕ) (s : Visited) where
  -- What a chunk with a fault in its header counts: its body, present or not.
  abbrev pub body_of : ℕ
  body_of =
      add64 (available image start h.chunk_bytes h.segment_bytes - sizeof_chunk_header)
        (missing_tail image start h.chunk_bytes h.segment_bytes)

  pub chunk_round-end : h.segment_bytes ≤ start → chunk_round image h start index s ≡ leave s
  unfolding chunk_round
  chunk_round-end p = rw (le→ltb start h.segment_bytes p)

  pub chunk_round-absent :
      start < h.segment_bytes
      → length image ≤ start
      → chunk_round image h start index s ≡ leave (add_unreadable s (h.segment_bytes - start))
  unfolding chunk_round
  chunk_round-absent p q = rw (lt→ltb start h.segment_bytes p, le→leb (length image) start q)

  pub chunk_round-cut :
      start < h.segment_bytes
      → start < length image
      → available image start h.chunk_bytes h.segment_bytes < sizeof_chunk_header
      → chunk_round image h start index s
        ≡ go_on
            (add64 start h.chunk_bytes)
            (add_unreadable s (logical_end start h.chunk_bytes h.segment_bytes - start))
  unfolding chunk_round
  chunk_round-cut p q r = rw (
    lt→ltb start h.segment_bytes p,
    lt→not_leb start (length image) q,
    lt→ltb (available image start h.chunk_bytes h.segment_bytes) sizeof_chunk_header r,
  )

  pub chunk_round-headed :
      start < h.segment_bytes
      → start < length image
      → sizeof_chunk_header ≤ available image start h.chunk_bytes h.segment_bytes
      → chunk_round image h start index s
        ≡ headed_chunk image h start index (load_chunk_header image start) s
  unfolding chunk_round
  chunk_round-headed p q r = rw (
    lt→ltb start h.segment_bytes p,
    lt→not_leb start (length image) q,
    le→ltb (available image start h.chunk_bytes h.segment_bytes) sizeof_chunk_header r,
  )

  module _ (c : ChunkHeader) where
    pub headed-corrupt :
        checksum_fails c ≡ true
        → headed_chunk image h start index c s
          ≡ go_on (add64 start h.chunk_bytes) (add_unreadable s body_of)
    unfolding headed_chunk
    headed-corrupt f = rw f

    pub headed-unclaimed :
        checksum_fails c ≡ false
        → c.generation ≡ 0
        → headed_chunk image h start index c s
          ≡ go_on
              (add64 start h.chunk_bytes)
              (add_unwritten s (logical_end start h.chunk_bytes h.segment_bytes - start))
    unfolding headed_chunk
    headed-unclaimed f z = rw (f, eq→eq c.generation 0 z)

    pub headed-stale :
        checksum_fails c ≡ false
        → c.generation ≢ 0
        → c.generation ≢ h.generation
        → headed_chunk image h start index c s
          ≡ go_on (add64 start h.chunk_bytes) (add_unreadable s body_of)
    unfolding headed_chunk
    headed-stale f z g = rw (f, ne→not_eq c.generation 0 z, ne→not_eq c.generation h.generation g)

    module _ (f : checksum_fails c ≡ false) (z : c.generation ≢ 0)
        (g : c.generation ≡ h.generation) where
      pub headed-bad_class :
          this_chunk_bytes h c ≡ none
          → headed_chunk image h start index c s
            ≡ go_on (add64 start h.chunk_bytes) (add_unreadable s body_of)
      unfolding headed_chunk
      headed-bad_class e =
          rw (f, ne→not_eq c.generation 0 z, eq→eq c.generation h.generation g, e, headed_chunk)

      pub headed-real :
          {size : ℕ}
          → this_chunk_bytes h c ≡ some size
          → headed_chunk image h start index c s
            ≡ real_chunk image h.segment_bytes start index c.owner_thread size s
      unfolding headed_chunk
      headed-real e =
          rw (f, ne→not_eq c.generation 0 z, eq→eq c.generation h.generation g, e, headed_chunk)
