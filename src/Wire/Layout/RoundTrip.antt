-- ===== src/Wire/Layout/RoundTrip.antt =====
-- The structures of include/sub0log/wire.hpp are read back as they were written, at any offset.
use sub0log.Common.{ℕ, ◌+◌, ◌^◌, ◌<◌, ◌≡◌, refl, ap, ◌∙◌, arith, ◌++◌, length}
use sub0log.Common.Bytes.{Bytes, load, le_value-le_bytes, load-past}
use sub0log.Wire.Layout.{
  SegmentHeader, segment_header_image, load_segment_header, ChunkHeader, chunk_header_image,
  load_chunk_header, MessagePayload, message_image, load_message, ContinuationPayload,
  continuation_image, load_continuation, SiteDefinitionPayload, site_definition_image,
  load_site_definition, SubsystemDefinitionPayload, subsystem_definition_image,
  load_subsystem_definition,
}

-- The fields fit their machine types.
pub record ChunkHeaderFits (h : ChunkHeader) : Type 0 where
  pub generation_fits : h.generation < 2 ^ 64
  pub thread_fits : h.owner_thread < 2 ^ 64
  pub time_fits : h.claim_mono_ns < 2 ^ 64
  pub checksum_fits : h.header_checksum < 2 ^ 32
  pub class_fits : h.chunk_size_class < 2 ^ 8

chunk_header_first :
    (h : ChunkHeader) (rest : Bytes)
    → ChunkHeaderFits h
    → load_chunk_header (chunk_header_image h ++ rest) 0 ≡ h
unfolding load_chunk_header chunk_header_image load
chunk_header_first h rest v = λ i. record {
  generation = le_value-le_bytes 8 h.generation v.generation_fits i;
  owner_thread = le_value-le_bytes 8 h.owner_thread v.thread_fits i;
  claim_mono_ns = le_value-le_bytes 8 h.claim_mono_ns v.time_fits i;
  header_checksum = le_value-le_bytes 4 h.header_checksum v.checksum_fits i;
  chunk_size_class = le_value-le_bytes 1 h.chunk_size_class v.class_fits i;
}

pub load_chunk_header-past :
    (front rest : Bytes) (at : ℕ)
    → at ≡ length front
    → load_chunk_header (front ++ rest) at ≡ load_chunk_header rest 0
unfolding load_chunk_header
load_chunk_header-past front rest at e = λ i. record {
  generation = (first ∙ load-past 8 front rest at 0 e) i;
  owner_thread = load-past 8 front rest at 8 e i;
  claim_mono_ns = load-past 8 front rest at 16 e i;
  header_checksum = load-past 4 front rest at 24 e i;
  chunk_size_class = load-past 1 front rest at 28 e i;
}
  where
    first : load 8 (front ++ rest) at ≡ load 8 (front ++ rest) (at + 0)
    first = ap (load 8 (front ++ rest)) (omega arith)

-- A chunk header whose fields fit their types, stored anywhere in an image, is loaded as it was
-- stored.
pub load_chunk_header-image :
    (h : ChunkHeader) (front rest : Bytes) (at : ℕ)
    → ChunkHeaderFits h
    → at ≡ length front
    → load_chunk_header (front ++ (chunk_header_image h ++ rest)) at ≡ h
load_chunk_header-image h front rest at v e =
    load_chunk_header-past front (chunk_header_image h ++ rest) at e ∙ chunk_header_first h rest v

pub length-chunk_header_image : (h : ChunkHeader) → length (chunk_header_image h) ≡ 32
unfolding chunk_header_image
length-chunk_header_image h = refl

pub record SegmentHeaderFits (h : SegmentHeader) : Type 0 where
  pub magic_fits : h.magic < 2 ^ 64
  pub version_fits : h.format_version < 2 ^ 16
  pub header_bytes_fit : h.header_bytes < 2 ^ 32
  pub chunk_bytes_fit : h.chunk_bytes < 2 ^ 32
  pub segment_bytes_fit : h.segment_bytes < 2 ^ 64
  pub generation_fits : h.generation < 2 ^ 64
  pub process_fits : h.process_id < 2 ^ 64
  pub mono_fits : h.anchor_mono_ns < 2 ^ 64
  pub wall_fits : h.anchor_wall_ns < 2 ^ 64

-- A segment header whose fields fit their types, stored at the start of an image, is loaded as it
-- was stored.
pub load_segment_header-image :
    (h : SegmentHeader) (rest : Bytes)
    → SegmentHeaderFits h
    → load_segment_header (segment_header_image h ++ rest) 0 ≡ h
unfolding load_segment_header segment_header_image load
load_segment_header-image h rest v = λ i. record {
  magic = le_value-le_bytes 8 h.magic v.magic_fits i;
  format_version = le_value-le_bytes 2 h.format_version v.version_fits i;
  header_bytes = le_value-le_bytes 4 h.header_bytes v.header_bytes_fit i;
  chunk_bytes = le_value-le_bytes 4 h.chunk_bytes v.chunk_bytes_fit i;
  segment_bytes = le_value-le_bytes 8 h.segment_bytes v.segment_bytes_fit i;
  generation = le_value-le_bytes 8 h.generation v.generation_fits i;
  process_id = le_value-le_bytes 8 h.process_id v.process_fits i;
  anchor_mono_ns = le_value-le_bytes 8 h.anchor_mono_ns v.mono_fits i;
  anchor_wall_ns = le_value-le_bytes 8 h.anchor_wall_ns v.wall_fits i;
}

pub length-segment_header_image : (h : SegmentHeader) → length (segment_header_image h) ≡ 64
unfolding segment_header_image
length-segment_header_image h = refl

pub load_message-image :
    (p : MessagePayload) (rest : Bytes)
    → p.site_id < 2 ^ 64
    → p.mono_ns < 2 ^ 64
    → p.correlation_id < 2 ^ 64
    → load_message (message_image p ++ rest) ≡ p
unfolding load_message message_image load
load_message-image p rest a b c = λ i. record {
  site_id = le_value-le_bytes 8 p.site_id a i;
  mono_ns = le_value-le_bytes 8 p.mono_ns b i;
  correlation_id = le_value-le_bytes 8 p.correlation_id c i;
}

pub load_continuation-image :
    (p : ContinuationPayload) (rest : Bytes)
    → p.site_id < 2 ^ 64
    → p.arg_index < 2 ^ 8
    → load_continuation (continuation_image p ++ rest) ≡ p
unfolding load_continuation continuation_image load
load_continuation-image p rest a b = λ i. record {
  site_id = le_value-le_bytes 8 p.site_id a i;
  arg_index = le_value-le_bytes 1 p.arg_index b i;
}

pub record SiteDefinitionFits (p : SiteDefinitionPayload) : Type 0 where
  pub site_fits : p.site_id < 2 ^ 64
  pub subsystem_fits : p.subsystem_id < 2 ^ 32
  pub line_fits : p.line < 2 ^ 32
  pub severity_fits : p.severity < 2 ^ 8
  pub count_fits : p.arg_count < 2 ^ 8

pub load_site_definition-image :
    (p : SiteDefinitionPayload) (rest : Bytes)
    → SiteDefinitionFits p
    → load_site_definition (site_definition_image p ++ rest) ≡ p
unfolding load_site_definition site_definition_image load
load_site_definition-image p rest v = λ i. record {
  site_id = le_value-le_bytes 8 p.site_id v.site_fits i;
  subsystem_id = le_value-le_bytes 4 p.subsystem_id v.subsystem_fits i;
  line = le_value-le_bytes 4 p.line v.line_fits i;
  severity = le_value-le_bytes 1 p.severity v.severity_fits i;
  arg_count = le_value-le_bytes 1 p.arg_count v.count_fits i;
}

pub load_subsystem_definition-image :
    (p : SubsystemDefinitionPayload) (rest : Bytes)
    → p.subsystem_id < 2 ^ 32
    → p.name_len < 2 ^ 16
    → load_subsystem_definition (subsystem_definition_image p ++ rest) ≡ p
unfolding load_subsystem_definition subsystem_definition_image load
load_subsystem_definition-image p rest a b = λ i. record {
  subsystem_id = le_value-le_bytes 4 p.subsystem_id a i;
  name_len = le_value-le_bytes 2 p.name_len b i;
}
