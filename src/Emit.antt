-- ===== src/Emit.antt =====
-- include/sub0log/detail/emit.hpp: the definition of a call site on its first use in a segment, and
-- the message of a pack without byte arguments.
pub mod Attempts
pub mod Define
pub mod Chain
pub mod Publish
pub mod Layout
pub mod Slices
pub mod Described
pub mod Chained
pub mod ChainLog
pub mod Publishing
pub mod Outcome
pub mod Whole
pub mod Messages
pub mod Known
pub mod Ledger
use sub0log.Common.{
  ℕ, ◌+◌, ◌-◌, ◌%◌, ◌^◌, Bool, true, false, not, ◌||◌, Option, none, some, List, [], ◌∷◌, ◌++◌,
  length, ltb, ◌==◌, if◌then◌else◌,
}
use sub0log.Common.Bytes.{Bytes}
use sub0log.Wire.{kind_code, RecordKind, flag_truncated}
use sub0log.Wire.Layout.{MessagePayload, message_image}
use sub0log.Args.Encode.{Arg, fixed, viewed, c_string, upper_bound_size, encode_args}
use sub0log.Definitions.{
  Site, definition_payload_bytes, site_definition_bytes, shorten, subsystem_definition_bytes,
}
use sub0log.Chunk.{ChunkWriter, Reservation, remaining}
use sub0log.Logger.{
  Platform, Logger, Producer, count_drop, count_truncation, current_writer, refill_writer,
  try_reserve, reserve_record, commit_record,
}

-- `truncated ? cFlagTruncated : 0`
abbrev pub truncated_flag : Bool → ℕ
truncated_flag cut = if cut then flag_truncated else 0

-- `if (truncated) logger.countTruncation()`, behind a commit.
unfoldable pub note_truncation : Platform → Bool → Bool × Producer → Bool × Producer
note_truncation p cut (false, s) = (false, s)
note_truncation p cut (true, s) = (true, if cut then count_truncation p s else s)

-- The end of `writeSiteDefinitionCore`, with the lengths that were decided on.
unfoldable pub commit_definition :
    Platform → Site → ℕ × ℕ × Bool → Option Reservation × Producer → Bool × Producer
unfolding note_truncation
commit_definition p site (format_len, file_len, cut) (none, s) = (false, count_drop p s)
commit_definition p site (format_len, file_len, cut) (some slot, s) = note_truncation p cut (
    commit_record (kind_code RecordKind.site_definition) (truncated_flag cut)
      (site_definition_bytes site format_len file_len) (some slot, s))

abbrev pub whole : Site → ℕ × ℕ × Bool
whole site = (length site.format, length site.file, false)

abbrev pub reserve_definition :
    Site → ℕ × ℕ × Bool → Bool × Producer → Option Reservation × Producer
reserve_definition site (format_len, file_len, cut) attempt =
    try_reserve (definition_payload_bytes (length site.type_codes) format_len file_len) attempt

-- The attempt in a fresh chunk: whole, and shortened if that does not fit.
unfoldable pub define_fresh : Platform → Site → Option Reservation × Producer → Bool × Producer
unfolding commit_definition
define_fresh p site (some slot, s) = commit_definition p site (whole site) (some slot, s)
define_fresh p site (none, s) =
    let lengths =
      shorten (remaining s.cache.writer) (length site.type_codes) (length site.format)
        (length site.file) in
    commit_definition p site lengths (reserve_definition site lengths (true, s))

unfoldable pub define_refilled : Platform → Site → Bool × Producer → Bool × Producer
unfolding define_fresh
define_refilled p site (false, s) = (false, count_drop p s)
define_refilled p site (true, s) =
    define_fresh p site (reserve_definition site (whole site) (true, s))

unfoldable pub define_first : Platform → Site → Option Reservation × Producer → Bool × Producer
unfolding define_refilled commit_definition
define_first p site (some slot, s) = commit_definition p site (whole site) (some slot, s)
define_first p site (none, s) = define_refilled p site (refill_writer p s)

-- `writeSiteDefinitionCore`
unfoldable pub write_site_definition : Platform → Site → Producer → Bool × Producer
unfolding define_first
write_site_definition p site s =
    define_first p site (reserve_definition site (whole site) (current_writer p s))

-- `writeSubsystemDefinition` of include/sub0log/instance.hpp
unfoldable pub write_subsystem_definition : Platform → ℕ → Bytes → Producer → Bool × Producer
unfolding note_truncation
write_subsystem_definition p subsystem name s =
    let (payload, cut) = subsystem_definition_bytes subsystem name in
    note_truncation p cut (
      commit_record (kind_code RecordKind.subsystem_definition) (truncated_flag cut) payload
        (reserve_record p (length payload) s))

-- `cHasByteArg`
abbrev pub has_byte_arg : List Arg → Bool
has_byte_arg [] = false
has_byte_arg (fixed code bits ∷ more) = has_byte_arg more
has_byte_arg (viewed bs ∷ more) = true
has_byte_arg (c_string p ∷ more) = true

-- `scoped != 0u ? scoped : logger.rootCorrelation()`
abbrev pub correlation_of : Logger → ℕ → ℕ
correlation_of l scoped = if scoped == 0 then l.root_correlation else scoped

-- `Segment::announceKey`
abbrev pub announce_key : Platform → Logger → ℕ
announce_key p l = if p.split then l.announce_key else l.segment.generation

-- The message behind its reservation; the clock is read for its prefix.
unfoldable pub commit_message :
    Platform → ℕ → ℕ → ℕ → List Arg → Option Reservation × Producer → Bool × Producer
unfolding note_truncation
commit_message p scoped site_id payload_bytes args (none, s) = (false, s)
commit_message p scoped site_id payload_bytes args (some slot, s) =
    let (encoded, cut) = encode_args (payload_bytes - 24) args in
    let prefix = message_image (record {
      site_id = site_id;
      mono_ns = p.clock s.readings;
      correlation_id = correlation_of s.logger scoped;
    }) in
    note_truncation p cut (
      commit_record (kind_code RecordKind.message) (truncated_flag cut) (prefix ++ encoded)
        (some slot, record s { readings = s.readings + 1 }))

-- The part of `emitRecord` behind the definition, for a pack without byte arguments.
unfoldable pub emit_message : Platform → ℕ → ℕ → List Arg → Producer → Bool × Producer
unfolding commit_message
emit_message p scoped site_id args s =
    let payload_bytes = (24 + upper_bound_size args) % 2 ^ 32 in
    commit_message p scoped site_id payload_bytes args (reserve_record p payload_bytes s)
