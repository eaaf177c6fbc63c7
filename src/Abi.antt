-- ===== src/Abi.antt =====
-- include/sub0log/abi_host.hpp: the host's side of the plugin C ABI, and the table that remembers which
-- segment each plugin call site was defined in. Here one thread calls at a time.
pub mod Lookup
pub mod Emitted
use sub0log.Common.{
  ℕ, zero, suc, ◌+◌, ◌-◌, ◌*◌, ◌/◌, ◌%◌, ◌^◌, Bool, true, false, not, ◌&&◌, ◌||◌, Option, none,
  some, List, [], ◌∷◌, ◌++◌, length, take, ltb, ◌==◌, if◌then◌else◌, bit_xor, replicate,
}
use sub0log.Common.Bytes.{Bytes}
use sub0log.Wire.{RecordKind, kind_code}
use sub0log.Wire.Layout.{MessagePayload, message_image}
use sub0log.Definitions.{Site}
use sub0log.Severity.{byte_at_least}
use sub0log.Chunk.{Reservation}
use sub0log.Logger.{
  Platform, Logger, Producer, threshold, count_drop, count_truncation, reserve_record,
  commit_record, increment_counter, unbound_emit_cap,
}
use sub0log.Emit.{truncated_flag, note_truncation, correlation_of, write_site_definition}

abbrev pub slot_count : ℕ
slot_count = 4096

abbrev pub probe_limit : ℕ
probe_limit = 32

-- `struct SiteSlot` and the array.
pub record SiteSlot : Type 0 where
  pub site_id : ℕ
  pub generation : ℕ

abbrev pub Table : Type 0
Table = ℕ → SiteSlot

abbrev pub set_slot : Table → ℕ → SiteSlot → Table
set_slot t at slot i = if i == at then slot else t i

-- `probeStart`
unfoldable pub probe_start : ℕ → ℕ
probe_start site_id =
    let x = (site_id + 0x9E3779B97F4A7C15) % 2 ^ 64 in
    let y = bit_xor x (x / 2 ^ 30) * 0xBF58476D1CE4E5B9 % 2 ^ 64 in
    let z = bit_xor y (y / 2 ^ 27) * 0x94D049BB133111EB % 2 ^ 64 in
    bit_xor z (z / 2 ^ 31) % slot_count

-- `nextSlot`
abbrev pub following_slot : ℕ → ℕ
following_slot slot = (slot + 1) % slot_count

-- The loop of `generationFor`, with the probes that are left; `none` is a search that was not decided.
unfoldable pub find_from : ℕ → ℕ → ℕ → Table → Option ℕ
find_from zero slot site_id t = none
find_from (suc probes) slot site_id t =
    let rest = find_from probes (following_slot slot) site_id t in
    if (t slot).site_id == site_id
    then some (t slot).generation
    else if (t slot).site_id == 0
    then some 0
    else rest

-- `generationFor`, with the count of exhausted searches.
abbrev pub or_exhausted : Option ℕ → ℕ → ℕ × ℕ
or_exhausted none exhausted = (0, (exhausted + 1) % 2 ^ 64)
or_exhausted (some generation) exhausted = (generation, exhausted)

unfoldable pub generation_for : ℕ → Table → ℕ → ℕ × ℕ
unfolding find_from
generation_for site_id t exhausted =
    or_exhausted (find_from probe_limit (probe_start site_id) site_id t) exhausted

-- The loop of `record`.
unfoldable pub record_from : ℕ → ℕ → ℕ → ℕ → Table → Option Table
record_from zero slot site_id generation t = none
record_from (suc probes) slot site_id generation t =
    let rest = record_from probes (following_slot slot) site_id generation t in
    if ((t slot).site_id == 0) || ((t slot).site_id == site_id)
    then some (set_slot t slot (record { site_id = site_id; generation = generation }))
    else rest

-- `record`
abbrev pub or_full : Option Table → Table → ℕ → Table × ℕ
or_full none t exhausted = (t, (exhausted + 1) % 2 ^ 64)
or_full (some t') t exhausted = (t', exhausted)

unfoldable pub record_site : ℕ → ℕ → Table → ℕ → Table × ℕ
unfolding record_from
record_site site_id generation t exhausted =
    or_full (record_from probe_limit (probe_start site_id) site_id generation t) t exhausted

-- The process behind the three functions: the bound Logger's producer, and the module's counters.
pub record AbiHost : Type 0 where
  pub producer : Option Producer
  pub table : Table
  pub exhausted : ℕ
  pub unbound : ℕ

-- `countUnboundEmit`
abbrev pub count_unbound : Platform → AbiHost → AbiHost
count_unbound p h = record h {
  unbound = if ltb h.unbound unbound_emit_cap then increment_counter p h.unbound else h.unbound;
}

-- `static_cast<Severity>` of a byte is the byte; here a severity as the plugin gives it.
abbrev pub after_definition : ℕ → AbiHost → Bool × Producer → AbiHost
after_definition site_id h (false, s) = record h { producer = some s }
after_definition site_id h (true, s) =
    let (t, exhausted) = record_site site_id s.logger.segment.generation h.table h.exhausted in
    record h { producer = some s; table = t; exhausted = exhausted }

unfoldable pub define_for : Platform → Site → AbiHost → Option Producer → AbiHost
define_for p site h none = count_unbound p h
define_for p site h (some s) = after_definition site.site_id h (write_site_definition p site s)

-- `sub0logAbiHostDefineSite`; the site's strings and codes as the null checks leave them.
unfoldable pub define_site : Platform → Site → AbiHost → AbiHost
unfolding define_for
define_site p site h = define_for p site h h.producer

-- `Sub0LogAbiRecord`, with the payload's bytes unless its pointer is null.
pub record AbiRecord : Type 0 where
  pub site_id : ℕ
  pub subsystem_id : ℕ
  pub severity : ℕ
  pub payload_bytes : ℕ
  pub payload : Option Bytes

-- The bytes that end up in the slot: as many as are copied, or what the chunk held, zeros.
abbrev pub copied : Option Bytes → ℕ → Bytes
copied none n = replicate n 0
copied (some bs) n = take n bs

abbrev pub max_payload : ℕ
max_payload = 0xFFFF - 24

unfoldable pub commit_plugin :
    Platform → ℕ → AbiRecord → Bool → ℕ → Option Reservation × Producer → Producer
unfolding note_truncation
commit_plugin p scoped r cut n (none, s) = s
commit_plugin p scoped r cut n (some slot, s) =
    (note_truncation p cut (
      commit_record (kind_code RecordKind.message) (truncated_flag cut)
        (message_image (record {
          site_id = r.site_id;
          mono_ns = p.clock s.readings;
          correlation_id = correlation_of s.logger scoped;
        })
          ++ copied r.payload n)
        (some slot, record s { readings = s.readings + 1 }))).1

-- The message of a site that the table was asked for.
unfoldable pub emit_known : Platform → ℕ → AbiRecord → ℕ → Producer → Producer
unfolding commit_plugin
emit_known p scoped r generation s =
    let cut = ltb max_payload r.payload_bytes in
    let n = if cut then max_payload else r.payload_bytes in
    if generation == s.logger.segment.generation
    then commit_plugin p scoped r cut n (reserve_record p (24 + n) s)
    else count_drop p s

unfoldable pub emit_for : Platform → ℕ → AbiRecord → AbiHost → Option Producer → AbiHost
unfolding emit_known generation_for
emit_for p scoped r h none = count_unbound p h
emit_for p scoped r h (some s) =
    let (generation, exhausted) = generation_for r.site_id h.table h.exhausted in
    let emitted = emit_known p scoped r generation s in
    if byte_at_least r.severity (threshold s.logger r.subsystem_id)
    then record h { producer = some emitted; exhausted = exhausted }
    else h

-- `sub0logAbiHostEmit` of a record that is not null.
unfoldable pub plugin_emit : Platform → ℕ → AbiRecord → AbiHost → AbiHost
unfolding emit_for
plugin_emit p scoped r h = emit_for p scoped r h h.producer

-- `sub0logAbiHostCurrentCorrelation`
unfoldable pub plugin_correlation : ℕ → Option Producer → ℕ
plugin_correlation scoped none = scoped
plugin_correlation scoped (some s) = correlation_of s.logger scoped
