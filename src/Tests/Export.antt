-- ===== src/Tests/Export.antt =====
-- The merge of include/sub0log/merge.hpp and the strings of include/sub0log/json.hpp on concrete data.
use sub0log.Common.{ℕ, ◌≡◌, arith, false, some, [], ◌∷◌, ◌++◌, List}
use sub0log.Common.Bytes.{Bytes}
use sub0log.Wire.{magic, format_version}
use sub0log.Wire.Layout.{SegmentHeader}
use sub0log.Decoder.{fresh_decoder}
use sub0log.Decoder.Messages.{DecodedRecord}
use sub0log.Merge.{MergedRecord, Loaded, merge_record, merged}
use sub0log.Merge.Order.{Sorted, peers, all_on_wall, merged_lem}
use sub0log.Json.{append_quoted}
use sub0log.Json.Quoted.{read_quoted, read_quoted-append_quoted}

abbrev anchored : ℕ → ℕ → SegmentHeader
anchored process wall = record {
  magic = magic;
  format_version = format_version;
  header_bytes = 192;
  chunk_bytes = 64;
  segment_bytes = 256;
  generation = 7;
  process_id = process;
  anchor_mono_ns = 100;
  anchor_wall_ns = wall;
}

abbrev message_at : ℕ → DecodedRecord
message_at mono = record {
  site = record {
    site_id = 1;
    subsystem = 0;
    severity = 2;
    line = 3;
    format = [];
    file = [];
    arg_types = [];
  };
  mono_ns = mono;
  correlation_id = 0;
  owner_thread = 42;
  truncated = false;
  args = [];
  segment_generation = 7;
  record_offset = 0;
}

abbrev two_segments : List Loaded
two_segments =
    record {
      decoder = fresh_decoder;
      records = message_at 150 ∷ message_at 120 ∷ [];
      header = anchored 1 1000;
    }
    ∷ record { decoder = fresh_decoder; records = message_at 130 ∷ []; header = anchored 2 1000 }
    ∷ []

abbrev a_record : MergedRecord
a_record = merge_record (anchored 2 1000) (message_at 130)

merged_lem_example :
    Sorted (merged two_segments)
    × (peers a_record (merged two_segments) ≡ peers a_record (all_on_wall two_segments))
merged_lem_example = merged_lem two_segments a_record (omega arith)

-- A quote, a backslash, a line feed and a letter.
abbrev some_text : Bytes
some_text = 34 ∷ 92 ∷ 10 ∷ 97 ∷ []

read_quoted-append_quoted_example :
    (quoted : Bytes) × (append_quoted (1 ∷ []) some_text ≡ (1 ∷ []) ++ quoted)
    × (read_quoted (quoted ++ (44 ∷ [])) ≡ some (some_text, 44 ∷ []))
read_quoted-append_quoted_example =
    read_quoted-append_quoted (1 ∷ []) some_text (44 ∷ []) (omega arith)
