-- ===== src/Reader/Visit/Steps.antt =====
-- Rounds of the chunk loop of `SegmentReader::visit` (include/sub0log/reader.hpp) on any bytes.
use sub0log.Common.{
  ℕ, ◌+◌, ◌-◌, ◌^◌, ◌≤◌, ◌<◌, ◌≡◌, ◌≢◌, ap, ◌∙◌, arith, false, some, length, ◌⊎◌, inl, inr,
  Bool-cases, Option-cases, ltb, ◌==◌, ==_iff, ltb→lt, ltb→le, min,
}
use sub0log.Common.Bytes.{Bytes}
use sub0log.Common.Words.{add64}
use sub0log.Wire.{sizeof_chunk_header}
use sub0log.Wire.Layout.{SegmentHeader, ChunkHeader, load_chunk_header}
use sub0log.Wire.SizeClass.Inverse.{class_bytes-range}
use sub0log.Reader.Body.{Visited, add_unreadable, add_unwritten, visit_body}
use sub0log.Reader.Body.Bounds.{visit_body_lem}
use sub0log.Reader.Visit.{
  ChunkRound, leave, go_on, this_chunk_bytes, logical_end, available, missing_tail, after_body,
  real_chunk, headed_chunk, chunk_round, checksum_fails,
}
use sub0log.Reader.Visit.Counts.{Counted, count_nothing, count_damage, count_space, widen}
use sub0log.Reader.Visit.Rounds.{
  body_of, chunk_round-end, chunk_round-absent, chunk_round-cut, chunk_round-headed, headed-corrupt,
  headed-unclaimed, headed-stale, headed-bad_class, headed-real,
}

-- A header that the reader can walk by: what `open` checks, in the header's own types.
pub record Walkable (image : Bytes) (h : SegmentHeader) : Type 0 where
  pub image_small : length image < 2 ^ 62
  pub chunk_low : sizeof_chunk_header < h.chunk_bytes
  pub chunk_high : h.chunk_bytes < 2 ^ 32
  pub end_fits : h.segment_bytes < 2 ^ 64

-- The size of a chunk of this generation is more than its header and less than 2^32.
this_chunk_bytes-range :
    (h : SegmentHeader) (c : ChunkHeader) (size : ℕ)
    → sizeof_chunk_header < h.chunk_bytes
    → h.chunk_bytes < 2 ^ 32
    → this_chunk_bytes h c ≡ some size
    → (sizeof_chunk_header < size) × (size < 2 ^ 32)
unfolding this_chunk_bytes
this_chunk_bytes-range h c size lo hi e = ground (arith, class_bytes-range c.chunk_size_class)

eq_false : {a b : ℕ} → (a == b) ≡ false → a ≢ b
eq_false {a} {b} h e = cc (h, (==_iff a b).1 e)

-- Room in the counters for the rest of the segment.
pub record CounterRoom (h : SegmentHeader) (start : ℕ) (s : Visited) : Type 0 where
  pub damage_room : s.unreadable_bytes + (h.segment_bytes - start) < 2 ^ 64
  pub space_room : s.unwritten_bytes + (h.segment_bytes - start) < 2 ^ 64

module _ (image : Bytes) (h : SegmentHeader) (v : Walkable image h) (index : ℕ) where
  -- A round of the chunk loop either ends the loop or moves on past `start`.
  pub record Ends (start : ℕ) (s : Visited) : Type 0 where
    pub final : Visited
    pub ends : chunk_round image h start index s ≡ leave final
    pub counted : Counted image start (h.segment_bytes - start) s final

  pub record Moves (start : ℕ) (s : Visited) (round : ChunkRound) : Type 0 where
    pub next : ℕ
    pub after : Visited
    pub moves : round ≡ go_on next after
    pub inside : start < length image
    pub further : start < next
    pub counted : Counted image start (min next h.segment_bytes - start) s after

  -- The shares of a chunk of the segment's own stride.
  abbrev stride : ℕ → ℕ
  stride start = min (start + h.chunk_bytes) h.segment_bytes - start

  move_damage :
      (start n : ℕ) (s : Visited) (round : ChunkRound)
      → start < length image
      → CounterRoom h start s
      → n ≤ stride start
      → round ≡ go_on (add64 start h.chunk_bytes) (add_unreadable s n)
      → Moves start s round
  move_damage start n s round inside r le e =
      let flat : add64 start h.chunk_bytes ≡ start + h.chunk_bytes =
        omega (arith, v.image_small, v.chunk_high) in
      record {
        next = start + h.chunk_bytes;
        after = add_unreadable s n;
        moves = e ∙ ap (λ t. go_on t (add_unreadable s n)) flat;
        inside = inside;
        further = omega (arith, v.chunk_low);
        counted = count_damage image start (stride start) n s le (omega (arith, r.damage_room));
      }

  move_space :
      (start n : ℕ) (s : Visited) (round : ChunkRound)
      → start < length image
      → CounterRoom h start s
      → n ≤ stride start
      → round ≡ go_on (add64 start h.chunk_bytes) (add_unwritten s n)
      → Moves start s round
  move_space start n s round inside r le e =
      let flat : add64 start h.chunk_bytes ≡ start + h.chunk_bytes =
        omega (arith, v.image_small, v.chunk_high) in
      record {
        next = start + h.chunk_bytes;
        after = add_unwritten s n;
        moves = e ∙ ap (λ t. go_on t (add_unwritten s n)) flat;
        inside = inside;
        further = omega (arith, v.chunk_low);
        counted = count_space image start (stride start) n s le (omega (arith, r.space_room));
      }

  logical_stride :
      (start : ℕ)
      → start < length image
      → logical_end start h.chunk_bytes h.segment_bytes - start ≡ stride start
  logical_stride start inside = omega (arith, v.image_small, v.chunk_high)

  body_of-le :
      (start : ℕ) (s : Visited)
      → start < length image
      → body_of image h start index s ≤ stride start
  body_of-le start s inside = omega (arith, v.image_small, v.chunk_high)

  -- A chunk of this generation, of any size that the header may declare.
  move_real :
      (start size owner : ℕ) (s : Visited)
      → start < length image
      → sizeof_chunk_header < size
      → size < 2 ^ 32
      → CounterRoom h start s
      → Moves start s (real_chunk image h.segment_bytes start index owner size s)
  unfolding real_chunk
  move_real start size owner s inside lo hi r =
      let seg_end = h.segment_bytes in
      let present = available image start size seg_end in
      let missing = missing_tail image start size seg_end in
      let next : add64 start size ≡ start + size = omega (arith, v.image_small) in
      let body_end : add64 start present ≡ start + present = omega (arith, v.image_small) in
      let cursor : add64 start sizeof_chunk_header ≡ start + sizeof_chunk_header =
        omega (arith, v.image_small) in
      let (s', e, w) =
        visit_body_lem image index owner (start + present) (start + sizeof_chunk_header) s
          (omega (arith, v.image_small))
          (record {
            damage_room = omega (arith, r.damage_room, next);
            space_room = omega (arith, r.space_room, next);
          }) in
      let walked =
        ap (λ t. visit_body image index owner t (add64 start sizeof_chunk_header) s) body_end
        ∙ ap (λ t. visit_body image index owner (start + present) t s) cursor
        ∙ e in
      let budget = min (start + size) seg_end - start in
      record {
        next = start + size;
        after = add_unreadable s' missing;
        moves =
            ap (after_body (add64 start size) missing) walked
            ∙ ap (λ t. go_on t (add_unreadable s' missing)) next;
        inside = inside;
        further = omega arith;
        counted = record {
          found = w.found;
          unreadable = w.unreadable + missing;
          unwritten = w.unwritten;
          records = w.records;
          damage = omega (arith, w.damage, w.total, r.damage_room, next);
          space = w.space;
          sound =
              widen image start (start + sizeof_chunk_header) (length image) (start + present)
                w.found (omega arith) (omega (arith, next)) w.sound;
          total = omega (arith, w.total, next);
        };
      }

  headed-Moves :
      (start : ℕ) (c : ChunkHeader) (s : Visited)
      → start < length image
      → CounterRoom h start s
      → Moves start s (headed_chunk image h start index c s)
  headed-Moves start c s inside r =
      let damage =
        move_damage start (body_of image h start index s) s (headed_chunk image h start index c s)
          inside r (body_of-le start s inside) in
      elim (Bool-cases (checksum_fails c)) [
        | inl f ↦ damage (headed-corrupt image h start index s c f)
        | inr f ↦ elim (Bool-cases (c.generation == 0)) [
          | inl z ↦
              move_space start (logical_end start h.chunk_bytes h.segment_bytes - start) s
                (headed_chunk image h start index c s) inside r
                (omega (arith, logical_stride start inside))
                (headed-unclaimed image h start index s c f ((==_iff c.generation 0).0 z))
          | inr z ↦ elim (Bool-cases (c.generation == h.generation)) [
            | inr g ↦ damage (headed-stale image h start index s c f (eq_false z) (eq_false g))
            | inl g ↦
                let same = (==_iff c.generation h.generation).0 g in
                elim (Option-cases (this_chunk_bytes h c)) [
                  | inl e ↦ damage (headed-bad_class image h start index s c f (eq_false z) same e)
                  | inr (size, e) ↦
                      let (lo, hi) = this_chunk_bytes-range h c size v.chunk_low v.chunk_high e in
                      let m = move_real start size c.owner_thread s inside lo hi r in
                      record {
                        next = m.next;
                        after = m.after;
                        moves = headed-real image h start index s c f (eq_false z) same e ∙ m.moves;
                        inside = m.inside;
                        further = m.further;
                        counted = m.counted;
                      }
                ]
          ]
        ]
      ]

  pub round_cases :
      (start : ℕ) (s : Visited)
      → CounterRoom h start s
      → Ends start s ⊎ Moves start s (chunk_round image h start index s)
  round_cases start s r = elim (Bool-cases (ltb start h.segment_bytes)) [
    | inr done ↦ inl (record {
      final = s;
      ends = chunk_round-end image h start index s (ltb→le start h.segment_bytes done);
      counted = count_nothing image start (h.segment_bytes - start) s;
    })
    | inl more ↦
        let before = ltb→lt start h.segment_bytes more in
        elim (Bool-cases (ltb start (length image))) [
          | inr absent ↦ inl (record {
            final = add_unreadable s (h.segment_bytes - start);
            ends =
                chunk_round-absent image h start index s before
                  (ltb→le start (length image) absent);
            counted =
                count_damage image start (h.segment_bytes - start) (h.segment_bytes - start) s
                  (omega arith) (omega (arith, r.damage_room));
          })
          | inl present ↦
              let inside = ltb→lt start (length image) present in
              let size = available image start h.chunk_bytes h.segment_bytes in
              elim (Bool-cases (ltb size sizeof_chunk_header)) [
                | inl cut ↦ inr (
                    move_damage start (logical_end start h.chunk_bytes h.segment_bytes - start) s
                      (chunk_round image h start index s) inside r
                      (omega (arith, logical_stride start inside))
                      (chunk_round-cut image h start index s before inside
                        (ltb→lt size sizeof_chunk_header cut)))
                | inr whole ↦
                    let c = load_chunk_header image start in
                    let m = headed-Moves start c s inside r in
                    inr (record {
                      next = m.next;
                      after = m.after;
                      moves =
                          chunk_round-headed image h start index s before inside
                            (ltb→le size sizeof_chunk_header whole)
                          ∙ m.moves;
                      inside = m.inside;
                      further = m.further;
                      counted = m.counted;
                    })
              ]
        ]
  ]
