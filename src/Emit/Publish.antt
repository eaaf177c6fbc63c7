-- ===== src/Emit/Publish.antt =====
-- `emitChained` and `emitRecord` of include/sub0log/detail/emit.hpp: the attempts, the order of the
-- commits, and the site's definition in front.
use sub0log.Common.{
  ℕ, ◌+◌, ◌*◌, ◌%◌, ◌^◌, Bool, true, false, Option, none, some, List, [], ◌∷◌, ◌++◌, length,
  if◌then◌else◌, ◌==◌, bit_or,
}
use sub0log.Common.Bytes.{Bytes}
use sub0log.Wire.{RecordKind, kind_code, flag_continued, max_continuations}
use sub0log.Wire.Layout.{message_image, continuation_image}
use sub0log.Args.Encode.{Arg}
use sub0log.Definitions.{Site}
use sub0log.Chunk.{ChunkWriter, Reservation, reserve, fill, commit}
use sub0log.Logger.{Platform, Producer, count_drop, set_writer, current_writer, refill_writer}
use sub0log.Emit.{
  truncated_flag, correlation_of, announce_key, has_byte_arg, note_truncation,
  write_site_definition, emit_message,
}
use sub0log.Emit.Chain.{
  ContinuationSlot, ReservedChain, reserve_chain, overflows_from, past_ceiling, inline_size,
  write_args, slice_bytes,
}

-- The payload of a continuation.
abbrev pub continuation_payload : ℕ → ContinuationSlot → Bytes
continuation_payload site_id c =
    continuation_image (record { site_id = site_id; arg_index = c.slice.arg_index })
    ++ c.slice.source

-- The loop that writes the slices, and the one that commits them; the last one is not continued.
unfoldable pub fill_slices : ℕ → List ContinuationSlot → ChunkWriter → ChunkWriter
fill_slices site_id [] w = w
fill_slices site_id (c ∷ more) w =
    fill_slices site_id more (fill w c.reservation (continuation_payload site_id c))

abbrev pub continued_flag : List ContinuationSlot → ℕ
continued_flag [] = 0
continued_flag (c ∷ more) = flag_continued

unfoldable pub commit_slices : List ContinuationSlot → ChunkWriter → ChunkWriter
commit_slices [] w = w
commit_slices (c ∷ more) w = commit_slices more (
    commit w c.reservation (record {
      payload_bytes = slice_bytes c.slice % 2 ^ 16;
      kind = kind_code RecordKind.continuation;
      flags = continued_flag more;
      sequence = 0;
    }))

-- The chain is written: the message's payload, the slices', the slices' heads, the message's head.
unfoldable pub write_chain : ℕ → ℕ → ℕ → Bytes → ReservedChain → ChunkWriter → ChunkWriter
unfolding fill_slices commit_slices
write_chain site_id n flags payload (slot, slots) w =
    commit (commit_slices slots (fill_slices site_id slots (fill w slot payload))) slot (record {
      payload_bytes = n % 2 ^ 16;
      kind = kind_code RecordKind.message;
      flags = bit_or flags (continued_flag slots);
      sequence = 0;
    })

-- What `emitChained` works out before it reserves.
abbrev pub message_bytes : List Arg → ℕ
message_bytes args = (24 + inline_size args) % 2 ^ 32

-- The end of `emitChained`, with a chain reserved in the current chunk.
unfoldable pub publish_chain :
    Platform → ℕ → ℕ → List Arg → Bool → ReservedChain → Producer → Bool × Producer
unfolding write_chain note_truncation
publish_chain p scoped site_id args cut chain s =
    let prefix = message_image (record {
      site_id = site_id;
      mono_ns = p.clock s.readings;
      correlation_id = correlation_of s.logger scoped;
    }) in
    note_truncation p cut (
      true,
      set_writer (record s { readings = s.readings + 1 })
          (write_chain site_id (message_bytes args) (truncated_flag cut) (prefix ++ write_args args)
            chain s.cache.writer),
    )

-- `writer != nullptr && reserveChain(...)`
unfoldable pub try_chain : List Arg → Bool × Producer → Option ReservedChain × Producer
try_chain args (false, s) = (none, s)
try_chain args (true, s) =
    let (chain, w) =
      reserve_chain (length args * max_continuations) (message_bytes args) (overflows_from 0 args)
        s.cache.writer in
    (chain, set_writer s w)

-- The message alone, cut at the inline cap, in a chunk that cannot hold the chain.
unfoldable pub publish_alone :
    Platform → ℕ → ℕ → List Arg → Option Reservation × ChunkWriter → Producer → Bool × Producer
unfolding publish_chain
publish_alone p scoped site_id args (none, w) s = (false, count_drop p (set_writer s w))
publish_alone p scoped site_id args (some slot, w) s =
    publish_chain p scoped site_id args true (slot, []) (set_writer s w)

unfoldable pub chain_last :
    Platform → ℕ → ℕ → List Arg → Bool → Option ReservedChain × Producer → Bool × Producer
unfolding publish_alone
chain_last p scoped site_id args valid (some chain, s) =
    publish_chain p scoped site_id args (past_ceiling args) chain s
chain_last p scoped site_id args false (none, s) = (false, count_drop p s)
chain_last p scoped site_id args true (none, s) =
    publish_alone p scoped site_id args (reserve s.cache.writer (message_bytes args)) s

unfoldable pub chain_first :
    Platform → ℕ → ℕ → List Arg → Option ReservedChain × Producer → Bool × Producer
unfolding chain_last try_chain
chain_first p scoped site_id args (some chain, s) =
    publish_chain p scoped site_id args (past_ceiling args) chain s
chain_first p scoped site_id args (none, s) =
    let (valid, s') = refill_writer p s in
    chain_last p scoped site_id args valid (try_chain args (valid, s'))

-- `emitChained`
unfoldable pub emit_chained : Platform → ℕ → ℕ → List Arg → Producer → Bool × Producer
unfolding chain_first
emit_chained p scoped site_id args s =
    chain_first p scoped site_id args (try_chain args (current_writer p s))

-- The rest of `emitRecord` for a site that the segment knows.
unfoldable pub emit_announced : Platform → ℕ → ℕ → List Arg → Producer → Bool × Producer
unfolding emit_message emit_chained
emit_announced p scoped site_id args s =
    if has_byte_arg args
    then emit_chained p scoped site_id args s
    else emit_message p scoped site_id args s

-- Behind the definition: the key is recorded only if the definition was written.
unfoldable pub emit_defined :
    Platform → ℕ → Site → List Arg → ℕ → Bool × Producer → ℕ × (Bool × Producer)
unfolding emit_announced
emit_defined p scoped site args announced (false, s) = (announced, (false, s))
emit_defined p scoped site args announced (true, s) =
    (announce_key p s.logger, emit_announced p scoped site.site_id args s)

-- `emitRecord` with a Logger bound: the site's key afterwards, and whether a message was committed.
unfoldable pub emit_record : Platform → ℕ → Site → List Arg → ℕ → Producer → ℕ × (Bool × Producer)
unfolding emit_defined
emit_record p scoped site args announced s =
    if announced == announce_key p s.logger
    then (announced, emit_announced p scoped site.site_id args s)
    else emit_defined p scoped site args announced (write_site_definition p site s)
