-- ===== src/Reader/Body/Rounds.antt =====
-- One round of the inner loop of `SegmentReader::visit` (include/sub0log/reader.hpp), case by case.
use sub0log.Common.{ℕ, ◌+◌, ◌-◌, ◌%◌, ◌^◌, ◌≤◌, ◌<◌, ◌≡◌, ◌≢◌, arith, true, false, lt→ltb, le→ltb}
use sub0log.Common.Bytes.{Bytes, view}
use sub0log.Wire.{padded_payload}
use sub0log.Wire.Padding.{padded_payload_eq}
use sub0log.Wire.Head.{RecordHead, unpack, is_committed}
use sub0log.Reader.Body.{
  Visited, add_unwritten, add_unreadable, add_record, load_head_word, leave, go_on, committed_round,
  body_round,
}

module _ (image : Bytes) (index owner body_end cursor : ℕ) (s : Visited) where
  pub body_round-end : body_end ≤ cursor → body_round image index owner body_end cursor s ≡ leave s
  unfolding body_round
  body_round-end h = rw (le→ltb cursor body_end h)

  pub body_round-short :
      cursor < body_end
      → body_end < cursor + 8
      → body_round image index owner body_end cursor s ≡ leave (add_unwritten s (body_end - cursor))
  unfolding body_round
  body_round-short h k = rw (lt→ltb cursor body_end h, lt→ltb (body_end - cursor) 8 (omega arith))

  pub body_round-blank :
      cursor + 8 ≤ body_end
      → load_head_word image cursor ≡ 0
      → is_committed 0 ≡ false
      → body_round image index owner body_end cursor s ≡ leave (add_unwritten s (body_end - cursor))
  unfolding body_round
  body_round-blank h w c =
      rw (lt→ltb cursor body_end (omega arith), le→ltb (body_end - cursor) 8 (omega arith), w, c)

  pub body_round-torn :
      cursor + 8 ≤ body_end
      → is_committed (load_head_word image cursor) ≡ false
      → load_head_word image cursor ≢ 0
      → body_round image index owner body_end cursor s
        ≡ leave (add_unreadable s (body_end - cursor))
  unfolding body_round
  body_round-torn h c ne =
      rw (lt→ltb cursor body_end (omega arith), le→ltb (body_end - cursor) 8 (omega arith), c)
        (ground arith)

  pub body_round-committed :
      cursor + 8 ≤ body_end
      → is_committed (load_head_word image cursor) ≡ true
      → body_round image index owner body_end cursor s
        ≡ committed_round image index owner body_end cursor (unpack (load_head_word image cursor)) s
  unfolding body_round
  body_round-committed h c =
      rw (lt→ltb cursor body_end (omega arith), le→ltb (body_end - cursor) 8 (omega arith), c)

  module _ (head : RecordHead) where
    pub committed_round-fits :
        body_end < 2 ^ 63
        → head.payload_bytes < 2 ^ 16
        → cursor + 8 + head.payload_bytes ≤ body_end
        → committed_round image index owner body_end cursor head s
          ≡ go_on (cursor + (8 + padded_payload head.payload_bytes)) (
              add_record s (record {
                head = head;
                payload = view image (cursor + 8) head.payload_bytes;
                chunk_index = index;
                owner_thread = owner;
                record_offset = cursor;
              }))
    unfolding committed_round
    committed_round-fits bound small h =
        let after : (cursor + 8) % 2 ^ 64 ≡ cursor + 8 = omega arith in
        let pad = padded_payload_eq head.payload_bytes (omega arith) in
        let next : (cursor + 8 + padded_payload head.payload_bytes) % 2 ^ 64
            ≡ cursor + (8 + padded_payload head.payload_bytes) =
          omega (arith, pad) in
        rw (after, le→ltb (body_end - (cursor + 8)) head.payload_bytes (omega arith), next)

    pub committed_round-too_long :
        body_end < 2 ^ 63
        → cursor + 8 ≤ body_end
        → body_end < cursor + 8 + head.payload_bytes
        → committed_round image index owner body_end cursor head s
          ≡ leave (add_unreadable s (body_end - cursor))
    unfolding committed_round
    committed_round-too_long bound h k =
        let after : (cursor + 8) % 2 ^ 64 ≡ cursor + 8 = omega arith in
        rw (after, lt→ltb (body_end - (cursor + 8)) head.payload_bytes (omega arith))
