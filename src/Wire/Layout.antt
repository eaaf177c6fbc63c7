-- ===== src/Wire/Layout.antt =====
-- include/sub0log/wire.hpp: the on-disk structures as byte strings, field by field, and
-- the reading of their fields at fixed offsets (`loadUnaligned` of a structure).
pub mod RoundTrip
use sub0log.Common.{ℕ, ◌+◌, ◌++◌, []}
use sub0log.Common.Bytes.{Bytes, le_bytes, load}

-- `struct SegmentHeader`; the reserved fields are written as zero.
pub record SegmentHeader : Type 0 where
  pub magic : ℕ
  pub format_version : ℕ
  pub header_bytes : ℕ
  pub chunk_bytes : ℕ
  pub segment_bytes : ℕ
  pub generation : ℕ
  pub process_id : ℕ
  pub anchor_mono_ns : ℕ
  pub anchor_wall_ns : ℕ

unfoldable pub segment_header_image : SegmentHeader → Bytes
segment_header_image h =
    le_bytes 8 h.magic
    ++ (le_bytes 2 h.format_version
        ++ (le_bytes 2 0
            ++ (le_bytes 4 h.header_bytes
                ++ (le_bytes 4 h.chunk_bytes
                    ++ (le_bytes 4 0
                        ++ (le_bytes 8 h.segment_bytes
                            ++ (le_bytes 8 h.generation
                                ++ (le_bytes 8 h.process_id
                                    ++ (le_bytes 8 h.anchor_mono_ns
                                        ++ le_bytes 8 h.anchor_wall_ns)))))))))

unfoldable pub load_segment_header : Bytes → ℕ → SegmentHeader
load_segment_header image at = record {
  magic = load 8 image at;
  format_version = load 2 image (at + 8);
  header_bytes = load 4 image (at + 12);
  chunk_bytes = load 4 image (at + 16);
  segment_bytes = load 8 image (at + 24);
  generation = load 8 image (at + 32);
  process_id = load 8 image (at + 40);
  anchor_mono_ns = load 8 image (at + 48);
  anchor_wall_ns = load 8 image (at + 56);
}

-- `struct ChunkHeader`
pub record ChunkHeader : Type 0 where
  pub generation : ℕ
  pub owner_thread : ℕ
  pub claim_mono_ns : ℕ
  pub header_checksum : ℕ
  pub chunk_size_class : ℕ

unfoldable pub chunk_header_image : ChunkHeader → Bytes
chunk_header_image h =
    le_bytes 8 h.generation
    ++ (le_bytes 8 h.owner_thread
        ++ (le_bytes 8 h.claim_mono_ns
            ++ (le_bytes 4 h.header_checksum ++ (le_bytes 1 h.chunk_size_class ++ le_bytes 3 0))))

unfoldable pub load_chunk_header : Bytes → ℕ → ChunkHeader
load_chunk_header image at = record {
  generation = load 8 image at;
  owner_thread = load 8 image (at + 8);
  claim_mono_ns = load 8 image (at + 16);
  header_checksum = load 4 image (at + 24);
  chunk_size_class = load 1 image (at + 28);
}

-- `struct MessagePayload`
pub record MessagePayload : Type 0 where
  pub site_id : ℕ
  pub mono_ns : ℕ
  pub correlation_id : ℕ

unfoldable pub message_image : MessagePayload → Bytes
message_image p = le_bytes 8 p.site_id ++ (le_bytes 8 p.mono_ns ++ le_bytes 8 p.correlation_id)

unfoldable pub load_message : Bytes → MessagePayload
load_message payload = record {
  site_id = load 8 payload 0;
  mono_ns = load 8 payload 8;
  correlation_id = load 8 payload 16;
}

-- `struct ContinuationPayload`
pub record ContinuationPayload : Type 0 where
  pub site_id : ℕ
  pub arg_index : ℕ

unfoldable pub continuation_image : ContinuationPayload → Bytes
continuation_image p = le_bytes 8 p.site_id ++ (le_bytes 1 p.arg_index ++ le_bytes 7 0)

unfoldable pub load_continuation : Bytes → ContinuationPayload
load_continuation payload = record { site_id = load 8 payload 0; arg_index = load 1 payload 8 }

-- `struct SiteDefinitionPayload`
pub record SiteDefinitionPayload : Type 0 where
  pub site_id : ℕ
  pub subsystem_id : ℕ
  pub line : ℕ
  pub severity : ℕ
  pub arg_count : ℕ

unfoldable pub site_definition_image : SiteDefinitionPayload → Bytes
site_definition_image p =
    le_bytes 8 p.site_id
    ++ (le_bytes 4 p.subsystem_id
        ++ (le_bytes 4 p.line
            ++ (le_bytes 1 p.severity
                ++ (le_bytes 1 p.arg_count ++ (le_bytes 2 0 ++ le_bytes 4 0)))))

unfoldable pub load_site_definition : Bytes → SiteDefinitionPayload
load_site_definition payload = record {
  site_id = load 8 payload 0;
  subsystem_id = load 4 payload 8;
  line = load 4 payload 12;
  severity = load 1 payload 16;
  arg_count = load 1 payload 17;
}

-- `struct SubsystemDefinitionPayload`
pub record SubsystemDefinitionPayload : Type 0 where
  pub subsystem_id : ℕ
  pub name_len : ℕ

unfoldable pub subsystem_definition_image : SubsystemDefinitionPayload → Bytes
subsystem_definition_image p = le_bytes 4 p.subsystem_id ++ (le_bytes 2 p.name_len ++ le_bytes 2 0)

unfoldable pub load_subsystem_definition : Bytes → SubsystemDefinitionPayload
load_subsystem_definition payload = record {
  subsystem_id = load 4 payload 0;
  name_len = load 2 payload 4;
}
