-- ===== src/Definitions.antt =====
-- Records that make a segment self-describing: `Decoder::parseSiteDefinition` and
-- `Decoder::parseSubsystemDefinition` of include/sub0log/reader.hpp, and the payloads that
-- `writeSiteDefinitionCore` of include/sub0log/detail/emit.hpp and `writeSubsystemDefinition` of
-- include/sub0log/instance.hpp write.
pub mod RoundTrip
pub mod Shorten
use sub0log.Common.{
  ℕ, ◌+◌, ◌-◌, ◌/◌, ◌%◌, ◌^◌, min, Bool, false, ◌||◌, Option, none, some, List, ◌++◌, length, take,
  ltb, if◌then◌else◌,
}
use sub0log.Common.Bytes.{Bytes, le_bytes, load, view}
use sub0log.Wire.Layout.{
  SiteDefinitionPayload, site_definition_image, load_site_definition, SubsystemDefinitionPayload,
  subsystem_definition_image, load_subsystem_definition,
}

-- `struct DecodedSite`
pub record DecodedSite : Type 0 where
  pub site_id : ℕ
  pub subsystem : ℕ
  pub severity : ℕ
  pub line : ℕ
  pub format : Bytes
  pub file : Bytes
  pub arg_types : List ℕ

-- A length of two bytes and as many bytes, at an offset; and the offset behind them.
unfoldable pub counted_string : Bytes → ℕ → Option (Bytes × ℕ)
counted_string payload offset =
    let len = load 2 payload offset in
    if ltb (length payload - offset) 2
    then none
    else if ltb (length payload - (offset + 2)) len
    then none
    else some (view payload (offset + 2) len, offset + 2 + len)

-- The file name, read behind the format.
unfoldable pub parse_file :
    Bytes → SiteDefinitionPayload → List ℕ → Option (Bytes × ℕ) → Option DecodedSite
parse_file payload prefix types none = none
parse_file payload prefix types (some (format, offset)) = elim (counted_string payload offset) [
  | none ↦ none
  | some (file, end) ↦ some (record {
    site_id = prefix.site_id;
    subsystem = prefix.subsystem_id;
    severity = prefix.severity;
    line = prefix.line;
    format = format;
    file = file;
    arg_types = types;
  })
]

unfoldable pub parse_site_definition : Bytes → Option DecodedSite
unfolding parse_file
parse_site_definition payload =
    let prefix = load_site_definition payload in
    let n = prefix.arg_count in
    if ltb (length payload) 24
    then none
    else if ltb (length payload - 24) n
    then none
    else parse_file payload prefix (view payload 24 n) (counted_string payload (24 + n))

unfoldable pub parse_subsystem_definition : Bytes → Option (ℕ × Bytes)
parse_subsystem_definition payload =
    let prefix = load_subsystem_definition payload in
    if ltb (length payload) 8
    then none
    else if ltb (length payload - 8) prefix.name_len
    then none
    else some (prefix.subsystem_id, view payload 8 prefix.name_len)

-- `definitionPayloadBytes`
unfoldable pub definition_payload_bytes : ℕ → ℕ → ℕ → ℕ
definition_payload_bytes arg_count format_len file_len =
    (24 + arg_count + 2 + format_len % 2 ^ 32 + 2 + file_len % 2 ^ 32) % 2 ^ 32

-- What a call site declares.
pub record Site : Type 0 where
  pub site_id : ℕ
  pub subsystem : ℕ
  pub severity : ℕ
  pub line : ℕ
  pub format : Bytes
  pub file : Bytes
  pub type_codes : List ℕ

-- The payload that `writeSiteDefinitionCore` writes, with the lengths that it decided on.
unfoldable pub site_definition_bytes : Site → ℕ → ℕ → Bytes
site_definition_bytes s format_len file_len =
    site_definition_image (record {
      site_id = s.site_id;
      subsystem_id = s.subsystem;
      line = s.line;
      severity = s.severity;
      arg_count = length s.type_codes % 2 ^ 8;
    })
    ++ (s.type_codes
        ++ (le_bytes 2 format_len
            ++ (take format_len s.format ++ (le_bytes 2 file_len ++ take file_len s.file))))

-- The lengths for a definition that does not fit an empty chunk, and whether a string was cut.
unfoldable pub shorten : ℕ → ℕ → ℕ → ℕ → ℕ × ℕ × Bool
shorten remaining arg_count format_len file_len =
    let empty_capacity = min remaining 0xFFFF in
    let fixed_bytes = 24 + arg_count + 4 + 8 in
    let available = if ltb fixed_bytes empty_capacity then empty_capacity - fixed_bytes else 0 in
    let format_cap = available / 2 in
    let file_cap = available - format_cap in
    (
      (if ltb format_cap format_len then format_cap else format_len),
      (if ltb file_cap file_len then file_cap else file_len),
      ltb format_cap format_len || ltb file_cap file_len,
    )

-- The payload that `writeSubsystemDefinition` writes, with the name capped, and whether it was cut.
unfoldable pub subsystem_definition_bytes : ℕ → Bytes → Bytes × Bool
subsystem_definition_bytes subsystem name =
    let cut = ltb 512 (length name) in
    let kept = if cut then take 512 name else name in
    (
      subsystem_definition_image
            (record { subsystem_id = subsystem; name_len = length kept % 2 ^ 16 })
          ++ kept,
      cut,
    )
