-- ===== src/Tests/Decoding.antt =====
-- Definitions and messages of include/sub0log/reader.hpp on concrete records.
use sub0log.Common.{ℕ, ◌+◌, ◌≤◌, ◌≡◌, ◌⊎◌, refl, arith, true, some, [], ◌∷◌, ◌++◌, List, length}
use sub0log.Common.Bytes.{Bytes, load}
use sub0log.Wire.{kind_of, padded_payload}
use sub0log.Wire.Layout.{message_image, load_site_definition, site_definition_image}
use sub0log.Reader.Body.{RecordView}
use sub0log.Definitions.{
  Site, site_definition_bytes, parse_site_definition, definition_payload_bytes, shorten, parse_file,
  counted_string,
}
use sub0log.Definitions.RoundTrip.{site_kept, parse_site_definition-bytes}
use sub0log.Definitions.Shorten.{shorten_lem}
use sub0log.Decoder.{fresh_decoder, first_pass, declare_kind}
use sub0log.Decoder.Messages.{decode_all}
use sub0log.Decoder.Balance.{messages}
use sub0log.Decoder.Ledger.{decode_all_lem}

abbrev a_site : Site
a_site = record {
  site_id = 77;
  subsystem = 3;
  severity = 2;
  line = 120;
  format = 120 ∷ 61 ∷ 123 ∷ 125 ∷ [];
  file = 97 ∷ 46 ∷ 99 ∷ [];
  type_codes = 3 ∷ [];
}

parse_site_definition-bytes_example :
    (parse_site_definition (site_definition_bytes a_site 4 2) ≡ some (site_kept a_site 4 2))
    × (length (site_definition_bytes a_site 4 2) ≡ definition_payload_bytes 1 4 2)
parse_site_definition-bytes_example =
    parse_site_definition-bytes a_site 4 2
      (record {
        id_fits = omega arith;
        subsystem_fits = omega arith;
        line_fits = omega arith;
        severity_fits = omega arith;
        count_fits = omega arith;
      })
      (omega arith) (omega arith) (omega arith) (omega arith)

shorten_lem_example :
    let (format, file, cut) = shorten 96 1 500 40 in
    (definition_payload_bytes 1 format file ≤ 0xFFFF)
    × (8 + padded_payload (definition_payload_bytes 1 format file) ≤ 96)
    × (format ≤ 500)
    × (file ≤ 40)
    × ((cut ≡ true) ⊎ ((format ≡ 500) × (file ≡ 40)))
shorten_lem_example = shorten_lem 96 1 500 40 refl (omega arith) (omega arith)

abbrev view_of : ℕ → ℕ → Bytes → RecordView
view_of kind flags payload = record {
  head = record { payload_bytes = length payload; kind = kind; flags = flags; sequence = 0 };
  payload = payload;
  chunk_index = 0;
  owner_thread = 42;
  record_offset = 0;
}

-- A definition, a message of its site, a message of no known site, and one that promises a chain.
abbrev some_views : List RecordView
some_views =
    view_of 2 0 (site_definition_bytes a_site 4 3)
    ∷ view_of 1 0
        (message_image (record { site_id = 77; mono_ns = 5; correlation_id = 1 }) ++ (9 ∷ []))
    ∷ view_of 1 0
        (message_image (record { site_id = 78; mono_ns = 6; correlation_id = 1 }) ++ (9 ∷ []))
    ∷ view_of 1 2
        (message_image (record { site_id = 77; mono_ns = 7; correlation_id = 1 }) ++ (9 ∷ []))
    ∷ []

abbrev same_bits : ℕ → ℕ
same_bits x = x

first_pass_run : (first_pass fresh_decoder some_views).undecodable ≡ 0
unfolding first_pass declare_kind kind_of parse_site_definition parse_file counted_string
    site_definition_bytes site_definition_image load_site_definition load
first_pass_run = refl

decode_all_lem_example :
    let c = decode_all same_bits 7 some_views in
    length c.result + c.undecodable
    ≡ (first_pass fresh_decoder some_views).undecodable + messages some_views
decode_all_lem_example = decode_all_lem same_bits 7 some_views (omega (arith, first_pass_run))
