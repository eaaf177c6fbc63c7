-- ===== src/Tests/Wire.antt =====
-- The format of include/sub0log/wire.hpp on concrete values.
use sub0log.Common.{
  ℕ, ◌+◌, ◌%◌, ◌≤◌, ◌<◌, ◌≡◌, ◌≢◌, refl, arith, true, false, some, [], ◌∷◌, ◌++◌, ◌↔◌,
}
use sub0log.Common.Bytes.{Bytes}
use sub0log.Wire.{padded_payload, magic, format_version}
use sub0log.Wire.Padding.{padded_payload_bounds}
use sub0log.Wire.Head.{RecordHead, IsValid, pack, unpack, is_committed}
use sub0log.Wire.Head.RoundTrip.{unpack-pack, pack-unpack, untagged_not_committed}
use sub0log.Wire.SizeClass.{
  size_class_for_chunk_bytes, max_chunk_size_class, chunk_bytes_for_size_class,
}
use sub0log.Wire.SizeClass.Inverse.{size_class_iff}
use sub0log.Wire.Crc.{crc32, header_checksum}
use sub0log.Wire.Crc.Nibble.{crc32-bitwise, bitwise_crc32}
use sub0log.Wire.Crc.Chain.{
  crc32-append, crc32-changed_byte, header_checksum_lem, nonzero, covered_bytes,
}
use sub0log.Wire.Layout.{
  SegmentHeader, segment_header_image, load_segment_header, ChunkHeader, chunk_header_image,
  load_chunk_header,
}
use sub0log.Wire.Layout.RoundTrip.{load_chunk_header-image, load_segment_header-image}

abbrev some_head : RecordHead
some_head = record { payload_bytes = 24; kind = 3; flags = 1; sequence = 513 }

some_head-IsValid : IsValid some_head
some_head-IsValid = record {
  payload_fits = omega arith;
  kind_fits = omega arith;
  flags_fit = omega arith;
  sequence_fits = omega arith;
}

unpack-pack_example : (unpack (pack some_head) ≡ some_head) × (is_committed (pack some_head) ≡ true)
unpack-pack_example = unpack-pack some_head some_head-IsValid

abbrev some_word : ℕ
some_word = 0xB10C020101030018

committed_run : is_committed (pack some_head) ≡ true
unfolding is_committed pack
committed_run = refl

pack-unpack_example :
    IsValid (unpack (pack some_head)) × (pack (unpack (pack some_head)) ≡ pack some_head)
unfolding pack
pack-unpack_example = pack-unpack (pack some_head) (omega arith) committed_run

untagged_not_committed_example : is_committed 0x020101030018 ≡ false
untagged_not_committed_example = untagged_not_committed 0x020101030018 (omega arith)

padded_payload_bounds_example :
    (padded_payload 13 % 8 ≡ 0) × (13 ≤ padded_payload 13) × (padded_payload 13 < 13 + 8)
padded_payload_bounds_example = padded_payload_bounds 13 (omega arith)

size_class_iff_example :
    (size_class_for_chunk_bytes 65536 ≡ some 10)
    ↔ ((1 ≤ 10) × (10 ≤ max_chunk_size_class) × (chunk_bytes_for_size_class 10 ≡ 65536))
size_class_iff_example = size_class_iff 65536 10

-- The check value of CRC-32: the checksum of the digits from 1 to 9.
abbrev digits : Bytes
digits = 49 ∷ 50 ∷ 51 ∷ 52 ∷ 53 ∷ 54 ∷ 55 ∷ 56 ∷ 57 ∷ []

check_value : crc32 0 digits ≡ 0xCBF43926
unfolding crc32
check_value = refl

crc32-bitwise_example : crc32 0 digits ≡ bitwise_crc32 0 digits
crc32-bitwise_example = crc32-bitwise 0 digits

crc32-append_example : crc32 (crc32 0 digits) (1 ∷ 2 ∷ []) ≡ crc32 0 (digits ++ (1 ∷ 2 ∷ []))
crc32-append_example = crc32-append 0 digits (1 ∷ 2 ∷ []) (omega arith) (omega arith)

crc32-changed_byte_example : crc32 0 (digits ++ (1 ∷ 7 ∷ [])) ≢ crc32 0 (digits ++ (2 ∷ 7 ∷ []))
crc32-changed_byte_example =
    crc32-changed_byte 0 digits (7 ∷ []) 1 2 (omega arith) (omega arith) (omega arith) (omega arith)
      (omega arith) (omega arith)

header_checksum_lem_example :
    (header_checksum 7 42 99 10 ≡ nonzero (crc32 0 (covered_bytes 7 42 99 10)))
    × (header_checksum 7 42 99 10 ≢ 0)
header_checksum_lem_example = header_checksum_lem 7 42 99 10

abbrev some_segment : SegmentHeader
some_segment = record {
  magic = magic;
  format_version = format_version;
  header_bytes = 128;
  chunk_bytes = 128;
  segment_bytes = 256;
  generation = 7;
  process_id = 41;
  anchor_mono_ns = 1000;
  anchor_wall_ns = 2000;
}

load_segment_header-image_example :
    load_segment_header (segment_header_image some_segment ++ (5 ∷ [])) 0 ≡ some_segment
load_segment_header-image_example = load_segment_header-image some_segment (5 ∷ []) (record {
  magic_fits = omega arith;
  version_fits = omega arith;
  header_bytes_fit = omega arith;
  chunk_bytes_fit = omega arith;
  segment_bytes_fit = omega arith;
  generation_fits = omega arith;
  process_fits = omega arith;
  mono_fits = omega arith;
  wall_fits = omega arith;
})

abbrev some_chunk : ChunkHeader
some_chunk = record {
  generation = 7;
  owner_thread = 42;
  claim_mono_ns = 99;
  header_checksum = 12345;
  chunk_size_class = 1;
}

load_chunk_header-image_example :
    load_chunk_header ((9 ∷ 9 ∷ []) ++ (chunk_header_image some_chunk ++ (5 ∷ []))) 2 ≡ some_chunk
load_chunk_header-image_example =
    load_chunk_header-image some_chunk (9 ∷ 9 ∷ []) (5 ∷ []) 2
      (record {
        generation_fits = omega arith;
        thread_fits = omega arith;
        time_fits = omega arith;
        checksum_fits = omega arith;
        class_fits = omega arith;
      })
      refl
