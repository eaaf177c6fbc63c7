-- ===== src/Tests/Capture.antt =====
-- The capture of a child's output (include/sub0log/child.hpp) and the table of plugin call sites
-- (include/sub0log/abi_host.hpp) on concrete values.
use sub0log.Common.{
  ℕ, zero, suc, ◌+◌, ◌%◌, ◌^◌, ◌≡◌, ◌≢◌, refl, sym, arith, none, some, ap, length, List, [], ◌∷◌,
  ◌⊎◌, inl, inr,
}
use sub0log.Common.Bytes.{Bytes}
use sub0log.Logger.Claims.{hosted}
use sub0log.Child.{
  child_stdout, child_stderr, ChildCaptureState, LineInterceptor, log, suppress, quote_argument,
  quote_rest,
}
use sub0log.Instance.{fresh_logger}
use sub0log.Tests.Logger.{starting, ticks, starting-Ready}
use sub0log.Abi.{
  AbiHost, AbiRecord, Table, following_slot, probe_start, generation_for, record_site,
}
use sub0log.Abi.Emitted.{PluginEmitted, plugin_emit_lem}
use sub0log.Abi.Lookup.{Absent, Consistent, record_site_lem}

abbrev idle : ChildCaptureState
idle = record {
  producer = none;
  child_id = 1;
  captured_lines = 0;
  suppressed_lines = 0;
  unlogged_lines = 0;
  truncated_lines = 0;
}

-- A line feed alone ends a line, whatever the reads; a carriage return before it is dropped.
abbrev two_reads : List Bytes
two_reads = (104 ∷ (105 ∷ (13 ∷ []))) ∷ ((10 ∷ (120 ∷ [])) ∷ [])

-- The same reads with a Logger bound, and an interceptor that suppresses what stands on `stderr`.
abbrev out_only : LineInterceptor
out_only line = elim line.stream [ child_stdout ↦ some log | child_stderr ↦ some suppress ]

abbrev listening : ChildCaptureState
listening = record idle { producer = some starting }

-- `a "b` is quoted as `"a \"b"`.
quote_argument-blank :
    quote_argument (97 ∷ (32 ∷ (34 ∷ (98 ∷ []))))
    ≡ 34 ∷ (97 ∷ (32 ∷ (92 ∷ (34 ∷ (98 ∷ (34 ∷ []))))))
unfolding quote_argument quote_rest
quote_argument-blank = refl

abbrev empty_table : Table
empty_table i = record { site_id = 0; generation = 0 }

empty-Absent : (n slot id : ℕ) → id ≢ 0 → Absent n slot id empty_table
empty-Absent zero slot id h = tt
empty-Absent (suc n) slot id h = (λ e. h (sym e), empty-Absent n (following_slot slot) id h)

empty-Consistent : Consistent empty_table
empty-Consistent id h = inr (inl (empty-Absent 31 (following_slot (probe_start id)) id h))

record_site_lem_example :
    ((record_site 77 7 empty_table 0).1 ≡ 0)
      × (generation_for 77 (record_site 77 7 empty_table 0).0 (record_site 77 7 empty_table 0).1
          ≡ (7, (record_site 77 7 empty_table 0).1))
      × ((other : ℕ)
          → other ≢ 77
          → other ≢ 0
          → (generation_for other
              (record_site 77 7 empty_table 0).0
              (record_site 77 7 empty_table 0).1).0
            ≡ (generation_for other empty_table 0).0)
      × Consistent (record_site 77 7 empty_table 0).0
    ⊎ (((record_site 77 7 empty_table 0).0 ≡ empty_table)
        × ((record_site 77 7 empty_table 0).1 ≡ (0 + 1) % 2 ^ 64))
record_site_lem_example =
    record_site_lem 77 7 empty_table 0 (λ e. absurd (omega arith)) empty-Consistent

-- The host where site 77 is recorded for the segment, and a record of it from a plugin.
abbrev a_host : AbiHost
a_host = record {
  producer = some starting;
  table = (record_site 77 starting.logger.segment.generation empty_table 0).0;
  exhausted = 0;
  unbound = 0;
}

abbrev a_plugin_record : AbiRecord
a_plugin_record = record {
  site_id = 77;
  subsystem_id = 3;
  severity = 4;
  payload_bytes = 2;
  payload = some (9 ∷ (8 ∷ []));
}

plugin_emit_lem_example : PluginEmitted (hosted 5 ticks) 0 a_plugin_record a_host starting 0
plugin_emit_lem_example =
    plugin_emit_lem 5 ticks 0 a_plugin_record a_host starting 0 refl
      (λ bs e. sym (ap (λ o. length (elim o [ none ↦ [] | some xs ↦ xs ])) e)) starting-Ready
      (omega arith)

-- The table gives the site for this segment, so that the record is written or dropped.
plugin_emit-known : (generation_for 77 a_host.table 0).0 ≡ starting.logger.segment.generation
unfolding record_site generation_for fresh_logger probe_start
plugin_emit-known = refl
