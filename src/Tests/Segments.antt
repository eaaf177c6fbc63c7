-- ===== src/Tests/Segments.antt =====
-- Segments of include/sub0log/segment.hpp in concrete memories.
use sub0log.Common.{
  ◌+◌, ◌-◌, ◌≤◌, ◌≡◌, ◌⊎◌, inl, inr, refl, arith, min, false, some, [], ◌∷◌, length, replicate,
}
use sub0log.Common.Bytes.{Bytes, load}
use sub0log.Wire.Layout.{load_chunk_header}
use sub0log.Reader.Header.{open_error, ok}
use sub0log.Reader.Visit.{checksum_fails}
use sub0log.Segment.{
  Segment, Host, GeometryError, create_in_memory, claim_chunk, chunk_header, chunk_base,
  claimed_chunks,
}
use sub0log.Segment.Create.{HostFits, Acceptable, create_in_memory_lem}
use sub0log.Segment.Claim.{Claimed, claim_chunk_lem}
use sub0log.Segment.Claim.Each.{claim_each, bodies_from, claim_each_lem}

abbrev pub a_host : Host
a_host = record { generation = 7; process_id = 41; mono_ns = 1000; wall_ns = 2000 }

pub a_host-HostFits : HostFits a_host
a_host-HostFits = record {
  generation_fits = omega arith;
  process_fits = omega arith;
  mono_fits = omega arith;
  wall_fits = omega arith;
}

abbrev some_storage : Bytes
some_storage = replicate 256 9

create_in_memory_lem_example :
    (Acceptable 4096 (length some_storage) 64
      × ((s : Segment) × (create_in_memory a_host 4096 some_storage 64 ≡ inr s)
          × Claimed s 0
          × (1 ≤ s.chunk_count)
          × (open_error s.memory ≡ ok)))
    ⊎ (¬ Acceptable 4096 (length some_storage) 64
        × ((e : GeometryError) × (create_in_memory a_host 4096 some_storage 64 ≡ inl e)))
create_in_memory_lem_example =
    create_in_memory_lem a_host 4096 some_storage 64 a_host-HostFits (omega arith) (omega arith)

abbrev one_chunk : Segment
one_chunk = record {
  memory = replicate 256 0;
  generation = 7;
  header_bytes = 192;
  chunk_bytes = 64;
  chunk_count = 1;
  size_class = 0;
}

one_chunk-Claimed : Claimed one_chunk 0
unfolding load
one_chunk-Claimed = record {
  cursor = refl;
  chunks_fit = omega arith;
  header_room = omega arith;
  chunk_room = omega arith;
  count_fits = omega arith;
  class_fits = omega arith;
  generation_fits = omega arith;
}

claim_chunk_lem_example :
    let (body, s') = claim_chunk false one_chunk 42 99 in
    (body ≡ some (record { start = 192 + 32; size = 64 - 32 }))
    × (192 + 64 ≤ length one_chunk.memory)
    × (load_chunk_header s'.memory (chunk_base one_chunk 0) ≡ chunk_header one_chunk 42 99)
    × (checksum_fails (chunk_header one_chunk 42 99) ≡ false)
    × Claimed s' 1
claim_chunk_lem_example =
    claim_chunk_lem one_chunk 0 42 99 one_chunk-Claimed (omega arith) (omega arith) (omega arith)

-- The second claim finds no chunk.
claim_each_lem_example :
    let (bodies, s') = claim_each one_chunk ((42, 99) ∷ (43, 100) ∷ []) in
    (bodies ≡ bodies_from one_chunk 0 ((42, 99) ∷ (43, 100) ∷ []))
    × (claimed_chunks false s' ≡ min 2 1)
claim_each_lem_example =
    claim_each_lem ((42, 99) ∷ (43, 100) ∷ []) one_chunk 0 one_chunk-Claimed (omega arith)
