-- ===== src/Reader/Visit/Bounds.antt =====
-- `SegmentReader::visit` (include/sub0log/reader.hpp) on any bytes: it ends, every record lies in the
-- image, and the counters stay below the declared size of the segment's body.
use sub0log.Common.{
  ℕ, zero, suc, ◌+◌, ◌-◌, ◌%◌, ◌^◌, ◌≤◌, ◌<◌, ◌≡◌, refl, arith, Option, some, length, All, ◌⊎◌, inl,
  inr, min,
}
use sub0log.Common.Bytes.{Bytes, IsByte, load-lt}
use sub0log.Wire.{sizeof_chunk_header}
use sub0log.Wire.Layout.{SegmentHeader, load_segment_header}
use sub0log.Reader.Header.{
  SegmentError, ok, too_small, bad_magic, unknown_version, bad_geometry, open_error,
}
use sub0log.Reader.Body.{Visited}
use sub0log.Reader.Visit.{chunk_loop, nothing_visited, visit}
use sub0log.Reader.Visit.Counts.{Counted, Counted-trans, count_nothing}
use sub0log.Reader.Visit.Steps.{Walkable, CounterRoom, round_cases}

chunk_loop-Counted :
    (image : Bytes) (h : SegmentHeader)
    → Walkable image h
    → (fuel start index : ℕ) (s : Visited) → 1 ≤ fuel
    → length image + 1 ≤ start + fuel
    → CounterRoom h start s
    → (s' : Visited) × (chunk_loop fuel image h start index s ≡ some s')
      × Counted image start (h.segment_bytes - start) s s'
unfolding chunk_loop
chunk_loop-Counted image h v zero start index s pos enough r = absurd (omega arith)
chunk_loop-Counted image h v (suc fuel) start index s pos enough r =
    elim (round_cases image h v index start s r) [
      | inl e ↦ (e.final, rw (e.ends, chunk_loop), e.counted)
      | inr m ↦
          let later = (index + 1) % 2 ^ 32 in
          let (s', e, c) =
            chunk_loop-Counted image h v fuel m.next later m.after
              (omega (arith, m.inside, m.further)) (omega (arith, m.inside, m.further))
              (record {
                damage_room =
                    omega (arith, r.damage_room, m.counted.damage, m.counted.total, m.further);
                space_room =
                    omega (arith, r.space_room, m.counted.space, m.counted.total, m.further);
              }) in
          (
            s',
            rw (m.moves, chunk_loop) e,
            Counted-trans image start m.next (min m.next h.segment_bytes - start)
                (h.segment_bytes - m.next) (h.segment_bytes - start) s m.after s'
                (omega (arith, m.further)) (omega (arith, m.further)) m.counted c,
          )
    ]

open_ok :
    (image : Bytes)
    → open_error image ≡ ok
    → let h = load_segment_header image 0 in
      (64 ≤ h.header_bytes)
      × (sizeof_chunk_header < h.chunk_bytes)
      × (h.header_bytes ≤ h.segment_bytes)
      × (h.header_bytes ≤ length image)
unfolding open_error
open_ok image e = ground arith

-- What `visit` does with each answer of `open`, given what the loop does.
answer :
    (image : Bytes) (h : SegmentHeader) (e : SegmentError) (w : Option Visited)
    → (e ≡ ok
        → (s' : Visited) × (w ≡ some s')
          × Counted image h.header_bytes (h.segment_bytes - h.header_bytes) nothing_visited s')
    → (s' : Visited) × (elim e [ ok ↦ w | _ ↦ some nothing_visited ] ≡ some s')
      × ((e ≡ ok) ⊎ (s' ≡ nothing_visited))
      × Counted image h.header_bytes (h.segment_bytes - h.header_bytes) nothing_visited s'
answer image h ok w f = let (s', q, c) = f refl in (s', q, inl refl, c)
answer image h too_small w f = (nothing_visited, refl, inr refl, count_nothing image _ _ _)
answer image h bad_magic w f = (nothing_visited, refl, inr refl, count_nothing image _ _ _)
answer image h unknown_version w f = (nothing_visited, refl, inr refl, count_nothing image _ _ _)
answer image h bad_geometry w f = (nothing_visited, refl, inr refl, count_nothing image _ _ _)

-- The fields of a header are as wide as their loads.
walkable :
    (image : Bytes)
    → All IsByte image
    → length image < 2 ^ 62
    → sizeof_chunk_header < (load_segment_header image 0).chunk_bytes
    → Walkable image (load_segment_header image 0)
unfolding load_segment_header
walkable image bytes short chunk = record {
  image_small = short;
  chunk_low = chunk;
  chunk_high = load-lt 4 image 16 bytes;
  end_fits = load-lt 8 image 24 bytes;
}

-- For every image of bytes shorter than 2^62, `visit` ends with a result: an image that does not
-- open is left with nothing counted, every record that it hands out is committed and lies inside
-- the image behind the segment header, and records, unreadable and unwritten bytes together are at
-- most the declared size of the body.
pub visit_lem :
    (image : Bytes)
    → All IsByte image
    → length image < 2 ^ 62
    → let h = load_segment_header image 0 in
      (s' : Visited) × (visit image ≡ some s')
      × ((open_error image ≡ ok) ⊎ (s' ≡ nothing_visited))
      × Counted image h.header_bytes (h.segment_bytes - h.header_bytes) nothing_visited s'
unfolding visit
visit_lem image bytes short =
    let h = load_segment_header image 0 in
    answer image h (open_error image)
      (chunk_loop (length image + 2) image h h.header_bytes 0 nothing_visited)
      (λ e.
        let (low, chunk, ends, inside) = open_ok image e in
        let v = walkable image bytes short chunk in
        chunk_loop-Counted image h v (length image + 2) h.header_bytes 0 nothing_visited
          (omega arith) (omega arith)
          (record {
            damage_room = omega (arith, v.end_fits);
            space_room = omega (arith, v.end_fits);
          }))
