-- ===== src/Abi/Emitted.antt =====
-- `sub0logAbiHostEmit` of include/sub0log/abi_host.hpp: what becomes of a record that a plugin emits.
use sub0log.Common.{
  min, leb→le, take, replicate, ◌≤◌, ap, sym, ◌∙◌, if◌then◌else◌, ℕ, ◌+◌, ◌^◌, ◌<◌, ◌≡◌, ◌≢◌, refl,
  arith, Bool, true, false, Option, none, some, ◌++◌, length, length-append, length-take,
  length-replicate, ltb, inl, inr, ◌⊎◌, Bool-cases, ltb→le, ltb→lt, ◌==◌, ==_iff, ==_refl, take-min,
}
use sub0log.Common.Bytes.{Bytes}
use sub0log.Wire.{RecordKind, kind_code}
use sub0log.Wire.Layout.{MessagePayload, message_image}
use sub0log.Protocol.{Request}
use sub0log.Severity.{Severity, severity_code, byte_at_least}
use sub0log.Logger.Threshold.{rank, severity_code-rank}
use sub0log.Logger.{Platform, Producer, threshold, count_drop, set_writer}
use sub0log.Logger.Claims.{hosted, Ready, Refilled-refl}
use sub0log.Logger.Reserve.{
  Wrote, Dropped, Unfit, Reserved-Wrote, Refilled-Dropped, reserve_record_lem,
}
use sub0log.Emit.{truncated_flag, correlation_of}
use sub0log.Emit.Attempts.{bump, Wrote-note_truncation}
use sub0log.Emit.Messages.{Refilled-read, flag_fits}
use sub0log.Abi.{
  AbiHost, AbiRecord, copied, max_payload, commit_plugin, emit_known, emit_for, plugin_emit,
  generation_for,
}

-- The bytes of the payload that the head word's length can carry.
abbrev pub kept : AbiRecord → ℕ
kept r = if ltb max_payload r.payload_bytes then max_payload else r.payload_bytes

-- The payload's pointer is null, or there are as many bytes behind it as the record says.
abbrev pub Pointed : AbiRecord → Type 0
Pointed r = (bs : Bytes) → r.payload ≡ some bs → length bs ≡ r.payload_bytes

kept-bounds : (r : AbiRecord) → (kept r ≤ max_payload) × (kept r ≤ r.payload_bytes)
kept-bounds r = elim (Bool-cases (ltb max_payload r.payload_bytes)) [
  | inl long ↦ rw long (omega arith, omega (arith, ltb→lt max_payload r.payload_bytes long))
  | inr short ↦ rw short (ltb→le max_payload r.payload_bytes short, omega arith)
]

length-copied :
    (r : AbiRecord) (payload : Option Bytes)
    → ((bs : Bytes) → payload ≡ some bs → length bs ≡ r.payload_bytes)
    → length (copied payload (kept r)) ≡ kept r
length-copied r none there = length-replicate {A = ℕ} (kept r) 0
length-copied r (some bs) there =
    omega (arith, length-take (kept r) bs, there bs refl, (kept-bounds r).1)

-- What the reader is to find of the plugin's payload: its first 65511 bytes, which with the 24 in
-- front of them are as many as the 16-bit length of a head word carries; or zeros for a null pointer.
abbrev pub carried : Option Bytes → ℕ → Bytes
carried none n = replicate (min n 65511) 0
carried (some bs) n = take 65511 bs

kept-min : (r : AbiRecord) → kept r ≡ min r.payload_bytes 65511
kept-min r = elim (Bool-cases (ltb max_payload r.payload_bytes)) [
  | inl long ↦ rw long (omega (arith, ltb→lt max_payload r.payload_bytes long))
  | inr short ↦ rw short (omega (arith, ltb→le max_payload r.payload_bytes short))
]

copied-carried :
    (r : AbiRecord) (payload : Option Bytes)
    → ((bs : Bytes) → payload ≡ some bs → length bs ≡ r.payload_bytes)
    → copied payload (kept r) ≡ carried payload r.payload_bytes
copied-carried r none there = ap (λ n. replicate n 0) (kept-min r)
copied-carried r (some bs) there =
    ap (λ n. take n bs) (kept-min r ∙ ap (λ n. min n 65511) (sym (there bs refl)))
    ∙ take-min bs 65511

-- The record that the reader is to find for a plugin's record.
abbrev pub forwarded : AbiRecord → MessagePayload → Request
forwarded r m = record {
  kind = 1;
  flags = if ltb 65511 r.payload_bytes then 1 else 0;
  payload = message_image m ++ carried r.payload r.payload_bytes;
}

-- The record reaches the reader, flagged and counted if it is cut, or it is dropped for want of room.
abbrev pub PluginEnds : Platform → AbiRecord → Producer → ℕ → Bool × Producer → Type 0
PluginEnds p r s k o =
    ((m : MessagePayload) × (m.site_id ≡ r.site_id)
      × Wrote s k (bump p (ltb 65511 r.payload_bytes) s.logger.truncated) (forwarded r m) o)
    ⊎ (Dropped p s k o × Unfit s k (24 + min r.payload_bytes 65511))

Wrote-payload :
    {s : Producer} {k t kind flags : ℕ} {payload payload' : Bytes} {o : Bool × Producer}
    → payload ≡ payload'
    → Wrote s k t (record { kind = kind; flags = flags; payload = payload }) o
    → Wrote s k t (record { kind = kind; flags = flags; payload = payload' }) o
Wrote-payload e w = rw (sym e) w

-- A record of a site that the segment knows.
known_lem :
    (thread : ℕ) (clock : ℕ → ℕ) (scoped : ℕ) (r : AbiRecord) (s : Producer) (k : ℕ)
    → Pointed r
    → Ready s k
    → k + 2 < 2 ^ 64
    → (o : Bool × Producer) × (emit_known
          (hosted thread clock)
          scoped
          r
          s.logger.segment.generation
          s
        ≡ o.1)
      × ((k' : ℕ) × (k' ≤ k + 2) × PluginEnds (hosted thread clock) r s k' o)
unfolding emit_known commit_plugin message_image
known_lem thread clock scoped r s k there ready room =
    let p = hosted thread clock in
    let cut = ltb max_payload r.payload_bytes in
    let (k', s', near, refilled, settles) =
      reserve_record_lem thread clock s k (24 + kept r) ready room in
    let m : MessagePayload = record {
      site_id = r.site_id;
      mono_ns = clock s'.readings;
      correlation_id = correlation_of s'.logger scoped;
    } in
    let bytes = copied r.payload (kept r) in
    let written : Request = record {
      kind = kind_code RecordKind.message;
      flags = truncated_flag cut;
      payload = message_image m ++ bytes;
    } in
    let len : length written.payload ≡ 24 + kept r =
      omega (arith, length-append (message_image m) bytes, length-copied r r.payload there) in
    elim settles [
      | inr (e, unfit) ↦ (
        (false, count_drop p s'),
        rw (==_refl s.logger.segment.generation, e) refl,
        (k', near, inr (Refilled-Dropped p s s' k k' refilled, rw (sym (kept-min r)) unfit)),
      )
      | inl granted ↦
          let (slot, w', e, short, filled) =
            granted written (flag_fits cut (message_image m ++ bytes)) len in
          let read = record s' { readings = s'.readings + 1 } in
          (
            _,
            rw (==_refl s.logger.segment.generation, e) refl,
            (
              k',
              near,
              inl (
                m,
                refl,
                Wrote-payload (ap (λ t. message_image m ++ t) (copied-carried r r.payload there)) (
                    Wrote-note_truncation p s k' s.logger.truncated written cut _ (
                      Reserved-Wrote s read k k' written (some slot, set_writer read w')
                        (Refilled-read refilled) (slot, w', refl, short, filled))),
              ),
            ),
          )
    ]

byte_above :
    (value : ℕ) (bar : Severity) → byte_at_least value bar ≡ true → severity_code bar ≤ value
unfolding byte_at_least
byte_above value bar h = leb→le (severity_code bar) value h

byte_below :
    (value : ℕ) (bar : Severity) → byte_at_least value bar ≡ false → value < severity_code bar
unfolding byte_at_least
byte_below value bar h = ground arith

-- What `sub0logAbiHostEmit` does with a Logger bound: nothing below the threshold; one drop for a site
-- that is not recorded for this segment; and the end of the record otherwise.
abbrev pub PluginEmitted : Platform → ℕ → AbiRecord → AbiHost → Producer → ℕ → Type 0
PluginEmitted p scoped r h s k =
    let h' = plugin_emit p scoped r h in
    let known = (generation_for r.site_id h.table h.exhausted).0 in
    ((r.severity < rank (threshold s.logger r.subsystem_id)) × (h' ≡ h))
    ⊎ ((rank (threshold s.logger r.subsystem_id) ≤ r.severity)
        × (h'.table ≡ h.table)
        × ((o : Bool × Producer) × (h'.producer ≡ some o.1)
            × (((known ≢ s.logger.segment.generation) × Dropped p s k o)
                ⊎ ((known ≡ s.logger.segment.generation)
                    × ((k' : ℕ) × (k' ≤ k + 2) × PluginEnds p r s k' o)))))

-- With a Logger bound, a record that a plugin emits with a severity byte below the rank of its
-- subsystem's threshold in the ladder, from 0 for `trace` to 6 for `fatal`, changes nothing. Otherwise the table of sites is kept; the record of a site that the table does not give
-- for this segment is one counted drop, with nothing new for the reader; and the record of a
-- site that it does give is found by the reader behind all that the thread wrote before, under the
-- site's id and with the plugin's bytes, the first 65511 if there are more, or zeros for a null pointer, flagged and
-- counted as a truncation if these are not all, or is one counted drop, where an empty chunk could
-- not take it or the claims have gone past the last chunk. This is with 64-bit atomics, for a
-- payload that is null or as long as the record says, and a thread whose chunks hold whole records in
-- a segment whose free chunks are blank, as long as the claims do not wrap.
pub plugin_emit_lem :
    (thread : ℕ) (clock : ℕ → ℕ) (scoped : ℕ) (r : AbiRecord) (h : AbiHost) (s : Producer) (k : ℕ)
    → h.producer ≡ some s
    → Pointed r
    → Ready s k
    → k + 2 < 2 ^ 64
    → PluginEmitted (hosted thread clock) scoped r h s k
unfolding plugin_emit emit_for emit_known
plugin_emit_lem thread clock scoped r h s k bound there ready room =
    let p = hosted thread clock in
    let known = (generation_for r.site_id h.table h.exhausted).0 in
    let bar = threshold s.logger r.subsystem_id in
    let code = severity_code-rank bar in
    elim (Bool-cases (byte_at_least r.severity (threshold s.logger r.subsystem_id))) [
      | inr quiet ↦
          inl (omega (arith, byte_below r.severity bar quiet, code), rw (bound, quiet) refl)
      | inl loud ↦ elim (Bool-cases (known == s.logger.segment.generation)) [
        | inr other ↦ inr (
          omega (arith, byte_above r.severity bar loud, code),
          rw (bound, loud) refl,
          (
            (false, count_drop p s),
            rw (bound, loud, other) refl,
            inl (
              λ e. cc (other, (==_iff known s.logger.segment.generation).1 e),
              Refilled-Dropped p s s k k (Refilled-refl s k ready),
            ),
          ),
        )
        | inl same ↦
            let here : known ≡ s.logger.segment.generation =
              (==_iff known s.logger.segment.generation).0 same in
            let (o, e, ends) = known_lem thread clock scoped r s k there ready room in
            inr (
              omega (arith, byte_above r.severity bar loud, code),
              rw (bound, loud) refl,
              (o, rw (bound, loud, here) (ap some e), inr (here, ends)),
            )
      ]
    ]
