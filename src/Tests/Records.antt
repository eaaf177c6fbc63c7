-- ===== src/Tests/Records.antt =====
-- Records of include/sub0log/chunk.hpp, and the walks of include/sub0log/reader.hpp, on concrete bytes.
use sub0log.Common.{
  ℕ, ◌^◌, ◌%◌, bit_or, ◌*◌, ◌/◌, ◌+◌, ◌-◌, ◌≡◌, refl, arith, true, false, some, List, [], ◌∷◌, ◌++◌,
  length, ◌↔◌, replicate, All, ◌⊎◌,
}
use sub0log.Common.Bytes.{Bytes, IsByte, store, load}
use sub0log.Wire.Layout.{
  SegmentHeader, segment_header_image, load_segment_header, ChunkHeader, chunk_header_image,
}
use sub0log.Wire.{padded_payload, magic, format_version}
use sub0log.Wire.Head.{RecordHead, pack, is_committed}
use sub0log.Publish.{
  Slot, Reachable, start, store_low, store_high, load_high, load_low, published, waiting, finished,
  published_lem,
}
use sub0log.Chunk.{ChunkWriter, fresh_writer, remaining, put_record, finish_record, reserve}
use sub0log.Chunk.Layout.{record_image}
use sub0log.Reader.Header.{open_error, ok}
use sub0log.Reader.Body.{Visited, visit_body}
use sub0log.Reader.Body.Written.{Entry, EntryFits, images, seen_body, visit_body-images}
use sub0log.Reader.Body.Bounds.{Walked, visit_body_lem}
use sub0log.Reader.Visit.{visit, nothing_visited}
use sub0log.Reader.Visit.Counts.{Counted}
use sub0log.Reader.Visit.Bounds.{visit_lem}
use sub0log.Protocol.{
  Request, RequestFits, put_one, put_each, Fits, select, numbered, zeros-Holds, put_one_iff,
  visit_body-put_each,
}

abbrev first_request : Request
first_request = record { kind = 1; flags = 0; payload = 10 ∷ 20 ∷ 30 ∷ [] }

abbrev long_request : Request
long_request = record { kind = 2; flags = 1; payload = replicate 40 9 }

abbrev last_request : Request
last_request = record { kind = 3; flags = 0; payload = [] }

-- The first and the last fit 32 bytes, the one between them does not.
put_each_run :
    (put_each (fresh_writer (replicate 32 0)) (first_request ∷ long_request ∷ last_request ∷ [])).1
    ≡ true ∷ false ∷ true ∷ []
unfolding put_each put_record finish_record reserve padded_payload store
put_each_run = refl

put_one_iff_example :
    (((put_one (fresh_writer (replicate 32 0)) first_request).1 ≡ true) ↔ Fits 32 first_request)
    × (((put_one (fresh_writer (replicate 32 0)) first_request).1 ≡ true)
        ⊎ (put_one (fresh_writer (replicate 32 0)) first_request
            ≡ (fresh_writer (replicate 32 0), false)))
put_one_iff_example = put_one_iff first_request (zeros-Holds 32 refl (omega arith))

abbrev requests : List Request
requests = first_request ∷ long_request ∷ last_request ∷ []

requests-RequestFits : All RequestFits requests
requests-RequestFits = omega arith

visit_body-put_each_example :
    let (w, taken) = put_each (fresh_writer (replicate 32 0)) requests in
    visit_body ((1 ∷ 2 ∷ []) ++ (w.body ++ (3 ∷ []))) 4 42 (2 + 32) 2 nothing_visited
    ≡ some (seen_body 4 42 2 (numbered 0 (select requests taken)) (remaining w) nothing_visited)
visit_body-put_each_example =
    visit_body-put_each 32 requests (1 ∷ 2 ∷ []) (3 ∷ []) 4 42 nothing_visited refl (omega arith)
      (omega arith) requests-RequestFits (omega arith)

abbrev an_entry : Entry
an_entry = record {
  head = record { payload_bytes = 3; kind = 1; flags = 0; sequence = 5 };
  payload = 10 ∷ 20 ∷ 30 ∷ [];
}

an_entry-EntryFits : EntryFits an_entry
an_entry-EntryFits = record {
  head_fits = record {
    payload_fits = omega arith;
    kind_fits = omega arith;
    flags_fit = omega arith;
    sequence_fits = omega arith;
  };
  length_fits = refl;
}

visit_body-images_example :
    visit_body
      ((1 ∷ 2 ∷ []) ++ (images (an_entry ∷ []) ++ (replicate 8 0 ++ (3 ∷ []))))
      4
      42
      (2 + (length (images (an_entry ∷ [])) + 8))
      2
      nothing_visited
    ≡ some (seen_body 4 42 2 (an_entry ∷ []) 8 nothing_visited)
unfolding record_image padded_payload
visit_body-images_example =
    visit_body-images (an_entry ∷ []) (1 ∷ 2 ∷ []) (3 ∷ []) 8 4 42 nothing_visited
      (an_entry-EntryFits, tt) refl (omega arith) (omega arith)

-- A chunk that holds this record and eight free bytes.
abbrev a_chunk : ChunkWriter
a_chunk = record {
  body = images (an_entry ∷ []) ++ replicate 8 0;
  offset = length (images (an_entry ∷ []));
  sequence = 6;
}

-- A record, a torn head word, and rubbish behind it.
abbrev torn_body : Bytes
torn_body = images (an_entry ∷ []) ++ (1 ∷ 2 ∷ 3 ∷ 4 ∷ 0 ∷ 0 ∷ 0 ∷ 0 ∷ 77 ∷ 78 ∷ [])

visit_body_lem_example :
    (s' : Visited) × (visit_body torn_body 0 42 26 0 nothing_visited ≡ some s')
    × Walked torn_body 0 26 nothing_visited s'
visit_body_lem_example =
    visit_body_lem torn_body 0 42 26 0 nothing_visited (omega arith)
      (record { damage_room = omega arith; space_room = omega arith })

-- A segment with one chunk that holds one record.
abbrev some_segment : SegmentHeader
some_segment = record {
  magic = magic;
  format_version = format_version;
  header_bytes = 72;
  chunk_bytes = 64;
  segment_bytes = 136;
  generation = 7;
  process_id = 41;
  anchor_mono_ns = 1000;
  anchor_wall_ns = 2000;
}

abbrev some_chunk : ChunkHeader
some_chunk = record {
  generation = 7;
  owner_thread = 42;
  claim_mono_ns = 99;
  header_checksum = 0;
  chunk_size_class = 0;
}

abbrev some_image : Bytes
some_image =
    segment_header_image some_segment
    ++ (replicate 8 0
        ++ (chunk_header_image some_chunk ++ (images (an_entry ∷ []) ++ replicate 16 0)))

some_image_opens : open_error some_image ≡ ok
unfolding open_error segment_header_image load_segment_header load chunk_header_image record_image
    padded_payload
some_image_opens = refl

some_image-IsByte : All IsByte some_image
unfolding segment_header_image chunk_header_image record_image padded_payload
some_image-IsByte = omega arith

visit_lem_example :
    let h = load_segment_header some_image 0 in
    (s' : Visited) × (visit some_image ≡ some s')
    × ((open_error some_image ≡ ok) ⊎ (s' ≡ nothing_visited))
    × Counted some_image h.header_bytes (h.segment_bytes - h.header_bytes) nothing_visited s'
unfolding segment_header_image chunk_header_image record_image padded_payload
visit_lem_example = visit_lem some_image some_image-IsByte (omega arith)

abbrev a_head : RecordHead
a_head = record { payload_bytes = 24; kind = 1; flags = 0; sequence = 5 }

-- What the reader puts together once the writer is done.
abbrev read_word : ℕ
read_word = bit_or (pack a_head % 2 ^ 32) (pack a_head / 2 ^ 32 * 2 ^ 32)

abbrev final_slot : Slot
final_slot = record {
  low = pack a_head % 2 ^ 32;
  high = pack a_head / 2 ^ 32;
  writer = published;
  reader = finished read_word;
}

final_slot-Reachable : Reachable (pack a_head) final_slot
final_slot-Reachable =
    let w = pack a_head in
    load_low (w % 2 ^ 32) (w / 2 ^ 32) (w / 2 ^ 32) published (
      load_high (w % 2 ^ 32) (w / 2 ^ 32) published
        (store_high (w % 2 ^ 32) 0 waiting (store_low 0 0 waiting start)))

read_word_run : is_committed read_word ≡ true
unfolding is_committed pack
read_word_run = refl

published_lem_example : read_word ≡ pack a_head
published_lem_example =
    published_lem a_head final_slot read_word
      (record {
        payload_fits = omega arith;
        kind_fits = omega arith;
        flags_fit = omega arith;
        sequence_fits = omega arith;
      })
      final_slot-Reachable refl read_word_run
