-- ===== src/Tests/Logger.antt =====
-- A Logger on a small segment: include/sub0log/instance.hpp and include/sub0log/detail/emit.hpp run on
-- concrete values, and the theorems on them at these values.
use sub0log.Common.{
  ◌↔◌, ℕ, ◌+◌, ◌-◌, ◌*◌, ◌^◌, ◌≤◌, ◌<◌, ◌≡◌, refl, ap, ◌∙◌, arith, true, none, some, List, [], ◌∷◌,
  length, replicate, drop-replicate, take, take-replicate, All, ◌⊎◌, inl, inr, ◌++◌,
}
use sub0log.Common.Bytes.{Bytes, load}
use sub0log.Wire.{TypeCode}
use sub0log.Severity.{trace, info, warning}
use sub0log.Args.Encode.{Arg, fixed, viewed}
use sub0log.Definitions.{Site}
use sub0log.Chunk.{fresh_writer}
use sub0log.Chunk.Reserved.{footprint}
use sub0log.Segment.{Segment, GeometryError}
use sub0log.Segment.Claim.{Claimed}
use sub0log.Segment.Create.{Acceptable}
use sub0log.Protocol.{Request, zeros-Holds}
use sub0log.Logger.Threshold.{Setting, for_all, for_one, set_each, latest, rank, enabled-set_each}
use sub0log.Logger.{enabled, threshold, Platform, Logger, Producer, WriterCache}
use sub0log.Logger.Log.{log}
use sub0log.Logger.Claims.{hosted, Ready, Stocked}
use sub0log.Logger.Reserve.{write_record, write_record_lem, Ends}
use sub0log.Emit.{write_site_definition}
use sub0log.Emit.Define.{SiteSize, Defined, NotDefined, write_site_definition_lem}
use sub0log.Emit.Chain.{
  ArgOverflow, all_slices, slices, overflow_of, raw_bytes_of, inline_length, reserve_chain,
  arg_ceiling,
}
use sub0log.Emit.Publish.{emit_chained}
use sub0log.Emit.Layout.{Short, chain_size}
use sub0log.Emit.Slices.{slices_lem, carried, SliceOf}
use sub0log.Emit.Chained.{reserve_chain_lem, chain_at, after_chain}
use sub0log.Emit.Whole.{ChainEnds, emit_chained_lem}
use sub0log.Emit.Known.{described, known_after, messages_in}
use sub0log.Emit.Ledger.{Call, CallFits, emit_each, Accounts, Remembers, emit_each_lem}
use sub0log.Instance.{Options, create_logger}
use sub0log.Instance.Fresh.{Names, unnamed, fresh-Ready, fresh-log, create_logger_lem}
use sub0log.Tests.Segments.{a_host, a_host-HostFits}

-- Two chunks of 128 bytes.
abbrev roomy : Segment
roomy = record {
  memory = replicate 448 0;
  generation = 7;
  header_bytes = 192;
  chunk_bytes = 128;
  chunk_count = 2;
  size_class = 0;
}

roomy-Claimed : Claimed roomy 0
unfolding load
roomy-Claimed = record {
  cursor = refl;
  chunks_fit = omega arith;
  header_room = omega arith;
  chunk_room = omega arith;
  count_fits = omega arith;
  class_fits = omega arith;
  generation_fits = omega arith;
}

roomy-Stocked : Stocked roomy 0
roomy-Stocked = record {
  claimed = roomy-Claimed;
  blank = λ i a b.
      ap (take 96) (drop-replicate (192 + i * 128 + 32) 448 0)
      ∙ take-replicate 96 (448 - (192 + i * 128 + 32)) 0 (omega arith);
  even = omega arith;
  small = omega arith;
}

abbrev no_cache : WriterCache
no_cache = record { owner = 0; generation = 0; writer = fresh_writer [] }

abbrev pub starting : Producer
starting = unnamed 4096 1 0 trace no_cache roomy

abbrev pub ticks : ℕ → ℕ
ticks i = 1000 + i

pub starting-Ready : Ready starting 0
starting-Ready = fresh-Ready 4096 1 0 trace roomy 0 0 roomy-Stocked

abbrev a_site : Site
a_site = record {
  site_id = 77;
  subsystem = 3;
  severity = 2;
  line = 10;
  format = 104 ∷ (105 ∷ []);
  file = 120 ∷ [];
  type_codes = [];
}

a_site-SiteSize : SiteSize a_site
a_site-SiteSize = record { few = omega arith; bounded = omega arith }

abbrev a_record : Request
a_record = record { kind = 1; flags = 0; payload = 1 ∷ (2 ∷ (3 ∷ [])) }

write_record_lem_example :
    (k' : ℕ) × (k' ≤ 0 + 2)
    × Ends (hosted 5 ticks) starting k' a_record (write_record (hosted 5 ticks) a_record starting)
write_record_lem_example =
    write_record_lem 5 ticks starting 0 a_record starting-Ready (omega arith)
      (record { kind_fits = omega arith; flags_fit = omega arith })

write_site_definition_lem_example :
    (k' : ℕ) × (k' ≤ 0 + 2)
    × (Defined
          (hosted 5 ticks)
          a_site
          starting
          k'
          (write_site_definition (hosted 5 ticks) a_site starting)
        ⊎ NotDefined
            (hosted 5 ticks)
            a_site
            starting
            k'
            (write_site_definition (hosted 5 ticks) a_site starting))
write_site_definition_lem_example =
    write_site_definition_lem 5 ticks a_site starting 0 starting-Ready (omega arith) a_site-SiteSize

abbrev some_args : List Arg
some_args = fixed TypeCode.u32 9 ∷ (viewed (104 ∷ (105 ∷ [])) ∷ [])

emit_chained_lem_example :
    (k' : ℕ) × (k' ≤ 0 + 2)
    × ChainEnds
        (hosted 5 ticks)
        77
        some_args
        starting
        k'
        (emit_chained (hosted 5 ticks) 0 77 some_args starting)
emit_chained_lem_example =
    emit_chained_lem 5 ticks 0 77 some_args starting 0 starting-Ready (omega arith) (omega arith)

abbrev some_tail : ArgOverflow
some_tail = record { tail = 1 ∷ (2 ∷ []); arg_index = 1 }

some_tail-Short : All Short (all_slices (some_tail ∷ []))
unfolding all_slices slices
some_tail-Short = (omega arith, tt)

some_tail-size :
    (chain_size (all_slices (some_tail ∷ [])) ≡ 32) × (length (all_slices (some_tail ∷ [])) ≡ 1)
unfolding all_slices slices sub0log.Wire.padded_payload
some_tail-size = (refl, refl)

reserve_chain_lem_example :
    ((30 < 2 ^ 16)
      × (footprint 30 + chain_size (all_slices (some_tail ∷ [])) ≤ 96)
      × (reserve_chain 7 30 (some_tail ∷ []) (fresh_writer (replicate 96 0)) ≡ (
        some (chain_at (fresh_writer (replicate 96 0)) 30 (all_slices (some_tail ∷ []))),
        after_chain (fresh_writer (replicate 96 0)) 30 (all_slices (some_tail ∷ [])),
      )))
    ⊎ ((30 < 2 ^ 16 → 96 < footprint 30 + chain_size (all_slices (some_tail ∷ [])))
        × (reserve_chain 7 30 (some_tail ∷ []) (fresh_writer (replicate 96 0))
            ≡ (none, fresh_writer (replicate 96 0))))
reserve_chain_lem_example =
    reserve_chain_lem 7 30 (some_tail ∷ []) (zeros-Holds 96 (omega arith) (omega arith))
      (omega arith) some_tail-Short (omega (arith, some_tail-size)) (omega (arith, some_tail-size))

slices_lem_example :
    (take (inline_length (viewed (replicate 600 65))) (raw_bytes_of (viewed (replicate 600 65)))
        ++ carried (
            slices
              (length (overflow_of (viewed (replicate 600 65))))
              (record { tail = overflow_of (viewed (replicate 600 65)); arg_index = 1 }))
      ≡ take arg_ceiling (raw_bytes_of (viewed (replicate 600 65))))
    × All (SliceOf 1) (
        slices
          (length (overflow_of (viewed (replicate 600 65))))
          (record { tail = overflow_of (viewed (replicate 600 65)); arg_index = 1 }))
    × (length (
          slices
            (length (overflow_of (viewed (replicate 600 65))))
            (record { tail = overflow_of (viewed (replicate 600 65)); arg_index = 1 }))
        ≤ 7)
slices_lem_example = slices_lem (viewed (replicate 600 65)) 1

abbrev two_calls : List Call
two_calls = (a_site, []) ∷ ((a_site, fixed TypeCode.u8 4 ∷ []) ∷ [])

two_calls-CallFits : All CallFits two_calls
two_calls-CallFits = (
  record { size = a_site-SiteSize; id_fits = omega arith; few = omega arith },
  (record { size = a_site-SiteSize; id_fits = omega arith; few = omega arith }, tt),
)

starting-log : log starting ≡ []
starting-log = fresh-log starting refl refl

starting-described : described [] (log starting) ≡ true
unfolding described
starting-described = ap (described []) starting-log

emit_each_lem_example :
    (k' : ℕ) × (rs : List Request) × (lost : ℕ) × Accounts starting
      (emit_each (hosted 5 ticks) 0 two_calls (λ id. 0) starting).1
      k'
      rs
      2
      lost
    × (described [] (log (emit_each (hosted 5 ticks) 0 two_calls (λ id. 0) starting).1) ≡ true)
    × Remembers
        (emit_each (hosted 5 ticks) 0 two_calls (λ id. 0) starting).0
        7
        (known_after [] (log (emit_each (hosted 5 ticks) 0 two_calls (λ id. 0) starting).1))
unfolding sub0log.Logger.set_threshold sub0log.Instance.fresh_logger
emit_each_lem_example =
    emit_each_lem two_calls 5 ticks 0 (λ id. 0) starting 0 starting-Ready (omega arith)
      two_calls-CallFits (omega arith) starting-described (λ id e. absurd (omega arith))

abbrev some_memory : Bytes
some_memory = replicate 256 9

abbrev some_options : Options
some_options = record {
  chunk_bytes = 64;
  threshold = info;
  subsystem_names = (3, 104 ∷ (105 ∷ [])) ∷ [];
}

create_logger_lem_example :
    (Acceptable 4096 (length some_memory) 64
      × ((s : Producer) × (create_logger
              (hosted 5 ticks)
              a_host
              8192
              1
              0
              some_options
              no_cache
              4096
              some_memory
            ≡ inr s)
          × ((k : ℕ) × (k ≤ 2 * 1) × Ready s k)
          × (messages_in (log s) ≡ 0)
          × (described [] (log s) ≡ true)
          × (length (log s) + s.logger.dropped ≡ 1)
          × Names some_options.subsystem_names (log s) s.logger.dropped))
    ⊎ (¬ Acceptable 4096 (length some_memory) 64
        × ((e : GeometryError) × (create_logger
                (hosted 5 ticks)
                a_host
                8192
                1
                0
                some_options
                no_cache
                4096
                some_memory
              ≡ inl e)))
create_logger_lem_example =
    create_logger_lem 5 ticks a_host 8192 1 0 some_options 0 0 4096 some_memory a_host-HostFits
      (omega arith) (omega arith) (omega arith)

-- Everything is turned down after subsystem 3 was turned up, and then subsystem 4 is turned up.
abbrev some_settings : List Setting
some_settings = for_one 3 trace ∷ (for_all warning ∷ (for_one 4 info ∷ []))

enabled-set_each_example :
    let o = enabled (hosted 5 ticks) (some (set_each some_settings starting.logger)) 0 info 3 in
    ((o.0 ≡ true) ↔ (rank (latest some_settings 3 (threshold starting.logger 3)) ≤ rank info))
    × (o.1 ≡ 0)
enabled-set_each_example = enabled-set_each some_settings (hosted 5 ticks) starting.logger 0 info 3

latest-some_settings : latest some_settings 3 trace ≡ warning
unfolding latest
latest-some_settings = refl
