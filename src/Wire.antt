-- ===== src/Wire.antt =====
-- include/sub0log/wire.hpp: the constants of the format, its enumerations, and record alignment.
pub mod Head
pub mod Padding
pub mod SizeClass
pub mod Crc
pub mod Layout
use sub0log.Common.{
  ℕ, zero, suc, ◌+◌, ◌-◌, ◌%◌, ◌^◌, Bool, Option, none, some, ◌==◌, if◌then◌else◌, bit_and,
}

abbrev pub magic : ℕ
magic = 0x1E474F4C30425553

abbrev pub format_version : ℕ
format_version = 1

abbrev pub commit_tag : ℕ
commit_tag = 0xC511

abbrev pub segment_header_bytes : ℕ
segment_header_bytes = 4096

-- `sizeof(wire::SegmentHeader)`, `sizeof(wire::ChunkHeader)` and the head word.
abbrev pub sizeof_segment_header : ℕ
sizeof_segment_header = 64

abbrev pub sizeof_chunk_header : ℕ
sizeof_chunk_header = 32

abbrev pub next_chunk_offset : ℕ
next_chunk_offset = 128

abbrev pub compact_segment_header_bytes : ℕ
compact_segment_header_bytes = next_chunk_offset + 64

abbrev pub record_align : ℕ
record_align = 8

abbrev pub inline_bytes_cap : ℕ
inline_bytes_cap = 512

abbrev pub max_continuations : ℕ
max_continuations = 7

-- `enum class RecordKind : std::uint8_t`
pub data RecordKind : Type 0 where
  invalid message site_definition continuation blob : RecordKind
  child_output child_start child_exit subsystem_definition : RecordKind

abbrev pub kind_code : RecordKind → ℕ
kind_code invalid = 0
kind_code message = 1
kind_code site_definition = 2
kind_code continuation = 3
kind_code blob = 4
kind_code child_output = 5
kind_code child_start = 6
kind_code child_exit = 7
kind_code subsystem_definition = 8

-- The enumerator that a byte of the wire names; `none` for a value that no enumerator names.
unfoldable pub kind_of : ℕ → Option RecordKind
kind_of c =
    if c == 0
    then some invalid
    else if c == 1
    then some message
    else if c == 2
    then some site_definition
    else if c == 3
    then some continuation
    else if c == 4
    then some blob
    else if c == 5
    then some child_output
    else if c == 6
    then some child_start
    else if c == 7
    then some child_exit
    else if c == 8
    then some subsystem_definition
    else none

abbrev pub flag_truncated : ℕ
flag_truncated = 0x01

abbrev pub flag_continued : ℕ
flag_continued = 0x02

-- `enum class TypeCode : std::uint8_t`
pub data TypeCode : Type 0 where
  invalid bool i8 u8 i16 u16 i32 u32 i64 u64 f32 f64 char bytes pointer : TypeCode

abbrev pub type_code : TypeCode → ℕ
type_code invalid = 0
type_code bool = 1
type_code i8 = 2
type_code u8 = 3
type_code i16 = 4
type_code u16 = 5
type_code i32 = 6
type_code u32 = 7
type_code i64 = 8
type_code u64 = 9
type_code f32 = 10
type_code f64 = 11
type_code char = 12
type_code bytes = 13
type_code pointer = 14

unfoldable pub type_of : ℕ → Option TypeCode
type_of c =
    if c == 0
    then some TypeCode.invalid
    else if c == 1
    then some bool
    else if c == 2
    then some i8
    else if c == 3
    then some u8
    else if c == 4
    then some i16
    else if c == 5
    then some u16
    else if c == 6
    then some i32
    else if c == 7
    then some u32
    else if c == 8
    then some i64
    else if c == 9
    then some u64
    else if c == 10
    then some f32
    else if c == 11
    then some f64
    else if c == 12
    then some char
    else if c == 13
    then some bytes
    else if c == 14
    then some pointer
    else none

-- `fixedSizeOf` on an enumerator, and on a byte of the wire.
abbrev pub size_of_code : TypeCode → ℕ
size_of_code bool = 1
size_of_code i8 = 1
size_of_code u8 = 1
size_of_code char = 1
size_of_code i16 = 2
size_of_code u16 = 2
size_of_code i32 = 4
size_of_code u32 = 4
size_of_code f32 = 4
size_of_code i64 = 8
size_of_code u64 = 8
size_of_code f64 = 8
size_of_code pointer = 8
size_of_code bytes = 0
size_of_code TypeCode.invalid = 0

unfoldable pub fixed_size_of : ℕ → ℕ
unfolding type_of
fixed_size_of c = elim (type_of c) [ none ↦ 0 | some t ↦ size_of_code t ]

-- `(payloadBytes + (cRecordAlign - 1u)) & ~(cRecordAlign - 1u)` in 32 bits.
unfoldable pub padded_payload : ℕ → ℕ
padded_payload n = bit_and ((n + (record_align - 1)) % 2 ^ 32) (2 ^ 32 - 1 - (record_align - 1))
