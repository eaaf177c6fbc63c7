-- ===== src/Reader/Body.antt =====
-- include/sub0log/reader.hpp: the records of one chunk, the inner loop of `SegmentReader::visit`.
-- `detail::loadHeadWord` is that of include/sub0log/detail/atomics.hpp.
pub mod Word
pub mod Rounds
pub mod Written
pub mod Bounds
use sub0log.Common.{
  ℕ, zero, suc, ◌+◌, ◌-◌, ◌*◌, ◌^◌, Bool, not, Option, none, some, List, [], ◌∷◌, ◌++◌, ltb, ◌==◌,
  if◌then◌else◌, bit_or,
}
use sub0log.Common.Bytes.{Bytes, load, view}
use sub0log.Common.Words.{add64}
use sub0log.Wire.{padded_payload}
use sub0log.Wire.Head.{RecordHead, unpack, is_committed}

-- `struct RecordView`; the payload is the viewed bytes.
pub record RecordView : Type 0 where
  pub head : RecordHead
  pub payload : Bytes
  pub chunk_index : ℕ
  pub owner_thread : ℕ
  pub record_offset : ℕ

-- What a walk has done so far: the views given to the callback, in order, and the two counters.
pub record Visited : Type 0 where
  pub records : List RecordView
  pub unreadable_bytes : ℕ
  pub unwritten_bytes : ℕ

abbrev pub add_unreadable : Visited → ℕ → Visited
add_unreadable s n = record s { unreadable_bytes = add64 s.unreadable_bytes n }

abbrev pub add_unwritten : Visited → ℕ → Visited
add_unwritten s n = record s { unwritten_bytes = add64 s.unwritten_bytes n }

abbrev pub add_record : Visited → RecordView → Visited
add_record s v = record s { records = s.records ++ (v ∷ []) }

-- Two 32-bit halves, the one with the tag first.
unfoldable pub load_head_word : Bytes → ℕ → ℕ
load_head_word image slot =
    let high = load 4 image (slot + 4) in let low = load 4 image slot in bit_or low (high * 2 ^ 32)

-- One round of a loop: leave it, or go on at a position.
pub data Round : Type 0 where
  leave : Visited → Round
  go_on : ℕ → Visited → Round

-- The body of the loop for a committed head word.
unfoldable pub committed_round : Bytes → ℕ → ℕ → ℕ → ℕ → RecordHead → Visited → Round
committed_round image chunk_index owner_thread body_end cursor head s =
    let after_head = add64 cursor 8 in
    if ltb (body_end - after_head) head.payload_bytes
    then leave (add_unreadable s (body_end - cursor))
    else go_on (add64 after_head (padded_payload head.payload_bytes)) (
        add_record s (record {
          head = head;
          payload = view image after_head head.payload_bytes;
          chunk_index = chunk_index;
          owner_thread = owner_thread;
          record_offset = cursor;
        }))

unfoldable pub body_round : Bytes → ℕ → ℕ → ℕ → ℕ → Visited → Round
body_round image chunk_index owner_thread body_end cursor s =
    let remaining = body_end - cursor in
    let word = load_head_word image cursor in
    if not (ltb cursor body_end)
    then leave s
    else if ltb remaining 8
    then leave (add_unwritten s remaining)
    else if not (is_committed word)
    then (if word == 0
        then leave (add_unwritten s remaining)
        else leave (add_unreadable s remaining))
    else committed_round image chunk_index owner_thread body_end cursor (unpack word) s

-- `while (cursor < bodyEnd)`; `none` is a loop that used up its fuel.
unfoldable pub body_loop : ℕ → Bytes → ℕ → ℕ → ℕ → ℕ → Visited → Option Visited
body_loop zero image chunk_index owner_thread body_end cursor s = none
body_loop (suc fuel) image chunk_index owner_thread body_end cursor s =
    elim (body_round image chunk_index owner_thread body_end cursor s) [
      | leave s' ↦ some s'
      | go_on cursor' s' ↦ body_loop fuel image chunk_index owner_thread body_end cursor' s'
    ]

-- Each round that goes on moves the cursor by 8 at least, so the body's size and one more suffice.
unfoldable pub visit_body : Bytes → ℕ → ℕ → ℕ → ℕ → Visited → Option Visited
unfolding body_loop
visit_body image chunk_index owner_thread body_end cursor s =
    body_loop (suc (body_end - cursor)) image chunk_index owner_thread body_end cursor s
