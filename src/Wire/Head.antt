-- ===== src/Wire/Head.antt =====
-- include/sub0log/wire.hpp: the record head word.
pub mod RoundTrip
use sub0log.Common.{
  ℕ, ◌+◌, ◌*◌, ◌/◌, ◌%◌, ◌^◌, ◌<◌, ◌≡◌, refl, arith, Bool, true, ◌==◌, ==_iff, bit_and, bit_or,
}
use sub0log.Common.Bits.{or_field, and_mask}
use sub0log.Wire.{commit_tag}

-- `struct RecordHead`; the kind is the byte of the enumeration.
pub record RecordHead : Type 0 where
  pub payload_bytes : ℕ
  pub kind : ℕ
  pub flags : ℕ
  pub sequence : ℕ

-- The fields lie in their machine types.
pub record IsValid (h : RecordHead) : Type 0 where
  pub payload_fits : h.payload_bytes < 2 ^ 16
  pub kind_fits : h.kind < 2 ^ 8
  pub flags_fit : h.flags < 2 ^ 8
  pub sequence_fits : h.sequence < 2 ^ 16

-- `static_cast<std::uint64_t>(x) << k`
abbrev shl64 : ℕ → ℕ → ℕ
shl64 x k = x * 2 ^ k % 2 ^ 64

unfoldable pub pack : RecordHead → ℕ
pack h =
    bit_or
      (bit_or (bit_or (bit_or h.payload_bytes (shl64 h.kind 16)) (shl64 h.flags 24))
        (shl64 h.sequence 32))
      (shl64 commit_tag 48)

unfoldable pub unpack : ℕ → RecordHead
unpack word = record {
  payload_bytes = bit_and word 0xFFFF;
  kind = bit_and (word / 2 ^ 16) 0xFF;
  flags = bit_and (word / 2 ^ 24) 0xFF;
  sequence = bit_and (word / 2 ^ 32) 0xFFFF;
}

unfoldable pub is_committed : ℕ → Bool
is_committed word = word / 2 ^ 48 % 2 ^ 16 == commit_tag

-- The word as a sum of its fields.
pub pack_sum :
    (h : RecordHead)
    → IsValid h
    → pack h
      ≡ h.payload_bytes
        + h.kind * 2 ^ 16
        + h.flags * 2 ^ 24
        + h.sequence * 2 ^ 32
        + commit_tag * 2 ^ 48
unfolding pack
pack_sum h v = ground (
  arith,
  or_field 16 h.payload_bytes h.kind,
  or_field 24 (h.payload_bytes + h.kind * 2 ^ 16) h.flags,
  or_field 32 (h.payload_bytes + h.kind * 2 ^ 16 + h.flags * 2 ^ 24) h.sequence,
  or_field 48 (h.payload_bytes + h.kind * 2 ^ 16 + h.flags * 2 ^ 24 + h.sequence * 2 ^ 32)
      commit_tag,
)

pub unpack_fields :
    (w : ℕ)
    → unpack w ≡ record {
      payload_bytes = w % 2 ^ 16;
      kind = w / 2 ^ 16 % 2 ^ 8;
      flags = w / 2 ^ 24 % 2 ^ 8;
      sequence = w / 2 ^ 32 % 2 ^ 16;
    }
unfolding unpack
unpack_fields w = ground (
  arith,
  and_mask 16 w,
  and_mask 8 (w / 2 ^ 16),
  and_mask 8 (w / 2 ^ 24),
  and_mask 16 (w / 2 ^ 32),
)
