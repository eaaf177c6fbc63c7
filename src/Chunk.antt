-- ===== src/Chunk.antt =====
-- include/sub0log/chunk.hpp: one thread's bump-allocating writer over one claimed chunk. The
-- chunk's memory is the writer's `body`; pointers into it are offsets.
pub mod Layout
pub mod Reserved
use sub0log.Common.{
  ℕ, ◌+◌, ◌-◌, ◌%◌, ◌^◌, Bool, true, not, ◌||◌, Option, none, some, ltb, if◌then◌else◌, length,
}
use sub0log.Common.Bytes.{Bytes, le_bytes, store}
use sub0log.Wire.{padded_payload}
use sub0log.Wire.Head.{RecordHead, pack}

pub record ChunkWriter : Type 0 where
  pub body : Bytes
  pub offset : ℕ
  pub sequence : ℕ

-- `ChunkWriter{body}`
abbrev pub fresh_writer : Bytes → ChunkWriter
fresh_writer body = record { body = body; offset = 0; sequence = 0 }

abbrev pub is_valid : ChunkWriter → Bool
is_valid w = ltb 0 (length w.body)

-- `static_cast<std::uint32_t>(body_.size()) - offset_`, guarded as in the source.
unfoldable pub remaining : ChunkWriter → ℕ
remaining w =
    if not (is_valid w) || ltb (length w.body) w.offset
    then 0
    else (length w.body % 2 ^ 32 + 2 ^ 32 - w.offset) % 2 ^ 32

-- `struct Reservation`; one that is not valid is `none`.
pub record Reservation : Type 0 where
  pub payload : ℕ
  pub head_word : ℕ
  pub sequence : ℕ

-- `8u + wire::paddedPayload(payloadBytes)` in 32 bits.
abbrev pub record_bytes : ℕ → ℕ
record_bytes n = (8 + padded_payload n) % 2 ^ 32

unfoldable pub reserve : ChunkWriter → ℕ → Option Reservation × ChunkWriter
unfolding remaining
reserve w n =
    if ltb 0xFFFF n
    then (none, w)
    else if not (is_valid w) || ltb (remaining w) (record_bytes n)
    then (none, w)
    else (
      some (record { payload = w.offset + 8; head_word = w.offset; sequence = w.sequence }),
      record w {
        offset = (w.offset + record_bytes n) % 2 ^ 32;
        sequence = (w.sequence + 1) % 2 ^ 16;
      },
    )

-- What a caller does between the two: `std::memcpy` of bytes into the reserved payload.
unfoldable pub fill : ChunkWriter → Reservation → Bytes → ChunkWriter
fill w slot bs = record w { body = store w.body slot.payload bs }

unfoldable pub commit : ChunkWriter → Reservation → RecordHead → ChunkWriter
commit w slot head = record w {
  body = store w.body slot.head_word (le_bytes 8 (pack (record head { sequence = slot.sequence })));
}

-- The rest of the protocol for one record: write the payload, commit last.
unfoldable pub finish_record :
    ℕ → ℕ → Bytes → Option Reservation × ChunkWriter → Option (Reservation × ChunkWriter)
unfolding fill commit
finish_record kind flags payload (none, w) = none
finish_record kind flags payload (some slot, w) = some (
  slot,
  commit (fill w slot payload) slot (record {
    payload_bytes = length payload % 2 ^ 16;
    kind = kind;
    flags = flags;
    sequence = 0;
  }),
)

unfoldable pub put_record : ChunkWriter → ℕ → ℕ → Bytes → Option (Reservation × ChunkWriter)
put_record w kind flags payload = finish_record kind flags payload (reserve w (length payload))
