-- ===== src/Reader/Header.antt =====
-- include/sub0log/reader.hpp: `SegmentReader::open`.
use sub0log.Common.{ℕ, Bool, not, ◌&&◌, ltb, leb, ◌==◌, if◌then◌else◌, length}
use sub0log.Common.Bytes.{Bytes}
use sub0log.Wire.{magic, format_version, sizeof_segment_header, sizeof_chunk_header}
use sub0log.Wire.Layout.{SegmentHeader, load_segment_header}

-- `enum class SegmentError`; `ok` is the state of a reader that opened.
pub data SegmentError : Type 0 where
  ok too_small bad_magic unknown_version bad_geometry : SegmentError

-- The geometry of a header against the size of the image.
unfoldable pub geometry_sane : SegmentHeader → ℕ → Bool
geometry_sane h image_bytes =
    leb sizeof_segment_header h.header_bytes
    && ltb sizeof_chunk_header h.chunk_bytes
    && leb h.header_bytes h.segment_bytes
    && leb h.header_bytes image_bytes

-- The checks on a loaded header, in the order of the source.
unfoldable pub judge_header : SegmentHeader → ℕ → SegmentError
unfolding geometry_sane
judge_header h image_bytes =
    if not (h.magic == magic)
    then bad_magic
    else if not (h.format_version == format_version)
    then unknown_version
    else if not (geometry_sane h image_bytes)
    then bad_geometry
    else ok

unfoldable pub open_error : Bytes → SegmentError
unfolding judge_header
open_error image =
    if ltb (length image) sizeof_segment_header
    then too_small
    else judge_header (load_segment_header image 0) (length image)
