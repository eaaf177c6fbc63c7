-- ===== src/Emit/Messages.antt =====
-- `emitRecord` of include/sub0log/detail/emit.hpp behind the site's definition, for every pack of
-- arguments: one message more for the reader, or one drop.
use sub0log.Common.{
  ℕ, ◌+◌, ◌-◌, ◌*◌, ◌%◌, ◌^◌, ◌≤◌, ◌<◌, ◌≡◌, refl, ap, arith, Bool, true, false, some, List, [],
  ◌∷◌, ◌++◌, length, length-append, inl, inr, ◌⊎◌, Bool-cases,
}
use sub0log.Common.Bytes.{Bytes}
use sub0log.Wire.{RecordKind, kind_code}
use sub0log.Wire.Layout.{MessagePayload, message_image}
use sub0log.Args.Encode.{Arg, upper_bound_size, encode_args}
use sub0log.Args.Plain.{encode_args_lem, upper_bound_size-room, room_le}
use sub0log.Protocol.{Request, RequestFits}
use sub0log.Logger.{Platform, Producer, set_writer}
use sub0log.Logger.Claims.{hosted, Ready, Refilled}
use sub0log.Logger.Reserve.{Wrote, Dropped, Reserved-Wrote, Refilled-Dropped, reserve_record_lem}
use sub0log.Emit.{truncated_flag, correlation_of, commit_message, emit_message, has_byte_arg}
use sub0log.Emit.Attempts.{bump, Wrote-note_truncation}
use sub0log.Emit.Chain.{Slice}
use sub0log.Emit.Layout.{slice_requests}
use sub0log.Emit.Publish.{emit_announced}
use sub0log.Emit.Publishing.{Published}
use sub0log.Emit.Outcome.{emit_chained_cases}

-- A message of the site and continuations of it.
abbrev pub MessageOf : ℕ → List Request → Type 0
MessageOf site_id rs =
    (m : MessagePayload) × (m.site_id ≡ site_id)
    × ((flags : ℕ) × (rest : Bytes) × (cs : List Slice) × (rs
          ≡ record {
            kind = kind_code RecordKind.message;
            flags = flags;
            payload = message_image m ++ rest;
          }
            ∷ slice_requests site_id cs))

-- The message is published, or dropped.
abbrev pub MessageEnds : Platform → ℕ → Producer → ℕ → Bool × Producer → Type 0
MessageEnds p site_id s k o =
    ((t : ℕ) × (rs : List Request) × MessageOf site_id rs × Published s k t rs o) ⊎ Dropped p s k o

Wrote-Published :
    (s : Producer) (k t : ℕ) (r : Request) (o : Bool × Producer)
    → Wrote s k t r o
    → Published s k t (r ∷ []) o
Wrote-Published s k t r o w = record {
  returns = w.returns;
  ready = w.ready;
  logged = w.logged;
  same_dropped = w.same_dropped;
  truncations = w.truncations;
  same_count = w.same_count;
  same_bytes = w.same_bytes;
  same_generation = w.same_generation;
}

-- A reading of the clock changes nothing else.
pub Refilled-read :
    {s s' : Producer} {k k' : ℕ}
    → Refilled s s' k k'
    → Refilled s (record s' { readings = s'.readings + 1 }) k k'
Refilled-read f = record {
  ready = record { stocked = f.ready.stocked; current = f.ready.current; others = f.ready.others };
  same_log = f.same_log;
  same_dropped = f.same_dropped;
  same_truncated = f.same_truncated;
  same_count = f.same_count;
  same_bytes = f.same_bytes;
  same_generation = f.same_generation;
}

-- A message's kind and flag are bytes.
pub flag_fits :
    (cut : Bool) (payload : Bytes)
    → RequestFits (record {
      kind = kind_code RecordKind.message;
      flags = truncated_flag cut;
      payload = payload;
    })
flag_fits true payload = record { kind_fits = omega arith; flags_fit = omega arith }
flag_fits false payload = record { kind_fits = omega arith; flags_fit = omega arith }

emit_message_lem :
    (thread : ℕ) (clock : ℕ → ℕ) (scoped site_id : ℕ) (args : List Arg) (s : Producer) (k : ℕ)
    → Ready s k
    → k + 2 < 2 ^ 64
    → length args < 2 ^ 8
    → (k' : ℕ) × (k' ≤ k + 2)
      × MessageEnds
          (hosted thread clock)
          site_id
          s
          k'
          (emit_message (hosted thread clock) scoped site_id args s)
unfolding emit_message commit_message message_image
emit_message_lem thread clock scoped site_id args s k ready room few =
    let p = hosted thread clock in
    let n = (24 + upper_bound_size args) % 2 ^ 32 in
    let (k', s', near, refilled, settles) = reserve_record_lem thread clock s k n ready room in
    let m : MessagePayload = record {
      site_id = site_id;
      mono_ns = clock s'.readings;
      correlation_id = correlation_of s'.logger scoped;
    } in
    let (encoded, cut) = encode_args (n - 24) args in
    let r : Request = record {
      kind = kind_code RecordKind.message;
      flags = truncated_flag cut;
      payload = message_image m ++ encoded;
    } in
    let small = pack_bound args few in
    let (same, size) = encode_args_lem (n - 24) args (omega arith) (omega arith) (omega arith) in
    let len : length r.payload ≡ n =
      omega (arith, length-append (message_image m) encoded, ap (λ t. length t.0) same, size) in
    (
      k',
      near,
      elim settles [
        | inr (e, unfit) ↦ rw e (inr (Refilled-Dropped p s s' k k' refilled))
        | inl granted ↦
            let (slot, w', e, short, filled) =
              granted r (flag_fits cut (message_image m ++ encoded)) len in
            rw e (
              inl (
                bump p cut s.logger.truncated,
                r ∷ [],
                (m, refl, (truncated_flag cut, encoded, [], refl)),
                Wrote-Published s k' (bump p cut s.logger.truncated) r _ (
                    Wrote-note_truncation p s k' s.logger.truncated r cut _ (
                      Reserved-Wrote s (record s' { readings = s'.readings + 1 }) k k' r
                        (some slot, set_writer (record s' { readings = s'.readings + 1 }) w')
                        (Refilled-read refilled) (slot, w', refl, short, filled))),
              ))
      ],
    )
  where
    pack_bound : (args : List Arg) → length args < 2 ^ 8 → upper_bound_size args ≤ 514 * 2 ^ 8
    pack_bound args few = omega (arith, upper_bound_size-room args (omega arith), room_le args)

pub emit_announced_lem :
    (thread : ℕ) (clock : ℕ → ℕ) (scoped site_id : ℕ) (args : List Arg) (s : Producer) (k : ℕ)
    → Ready s k
    → k + 2 < 2 ^ 64
    → length args < 2 ^ 8
    → (k' : ℕ) × (k' ≤ k + 2)
      × MessageEnds
          (hosted thread clock)
          site_id
          s
          k'
          (emit_announced (hosted thread clock) scoped site_id args s)
unfolding emit_announced
emit_announced_lem thread clock scoped site_id args s k ready room few =
    elim (Bool-cases (has_byte_arg args)) [
      | inr plain_pack ↦
          rw plain_pack (emit_message_lem thread clock scoped site_id args s k ready room few)
      | inl chained ↦
          let (k', near, ends) =
            emit_chained_cases thread clock scoped site_id args s k ready room few in
          rw chained (
            k',
            near,
            elim ends [
              | inl (m, same, published) ↦ inl (_, _, (m, same, (_, _, _, refl)), published)
              | inr (inl ((m, same, published), full)) ↦
                  inl (_, _, (m, same, (_, _, [], refl)), published)
              | inr (inr (dropped, unfit)) ↦ inr dropped
            ],
          )
    ]
