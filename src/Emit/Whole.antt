-- ===== src/Emit/Whole.antt =====
-- `emitChained` of include/sub0log/detail/emit.hpp, against what it is to make of a pack.
use sub0log.Common.{
  ℕ, ◌+◌, ◌-◌, ◌^◌, ◌≤◌, ◌<◌, ◌≡◌, sym, ap, ◌∙◌, arith, Bool, true, List, [], ◌++◌, length, inl,
  inr, ◌⊎◌, ◌↔◌,
}
use sub0log.Common.Bytes.{le_bytes}
use sub0log.Wire.Layout.{message_image}
use sub0log.Args.Encode.{Arg}
use sub0log.Chunk.Reserved.{footprint}
use sub0log.Protocol.{Request}
use sub0log.Logger.{Platform, Producer}
use sub0log.Logger.Claims.{hosted, Ready}
use sub0log.Logger.Reserve.{Dropped, Unfit}
use sub0log.Emit.Attempts.{bump}
use sub0log.Emit.Chain.{Slice, write_args, past_ceiling}
use sub0log.Emit.Publish.{message_bytes, emit_chained}
use sub0log.Emit.Layout.{chain_size}
use sub0log.Emit.Publishing.{Published, pack_slices, length-write_args}
use sub0log.Emit.Outcome.{PublishedChain, emit_chained_cases}
use sub0log.Emit.Described.{
  Carries, TooLong, fronts, chain_of, write_args-fronts, past_ceiling_iff, pack-Carries,
  chain_requests-chain_of,
}

-- A message of the site with the front of the pack, and these slices as its continuations.
abbrev pub Shown :
    Platform → ℕ → List Arg → Bool → List Slice → Producer → ℕ → Bool × Producer → Type 0
Shown p site_id args cut cs s k o =
    (now : ℕ) × (correlation : ℕ) × Published s k (bump p cut s.logger.truncated)
      (chain_of site_id cut cs
        ((le_bytes 8 site_id ++ (le_bytes 8 now ++ le_bytes 8 correlation)) ++ fronts args))
      o

-- The whole chain; or the message alone, where no empty chunk could hold the chain; or a drop.
abbrev pub ChainEnds : Platform → ℕ → List Arg → Producer → ℕ → Bool × Producer → Type 0
ChainEnds p site_id args s k o =
    (cut : Bool) × (cs : List Slice) × ((cut ≡ true) ↔ TooLong args)
    × Carries 0 args cs
    × (Shown p site_id args cut cs s k o
        ⊎ ((Shown p site_id args true [] s k o
              × (s.logger.segment.chunk_bytes - 32
                  < footprint (24 + length (fronts args)) + chain_size cs))
            ⊎ (Dropped p s k o × Unfit s k (24 + length (fronts args)))))

Published-same :
    {s : Producer} {k t : ℕ} {rs rs' : List Request} {o : Bool × Producer}
    → rs ≡ rs'
    → Published s k t rs o
    → Published s k t rs' o
Published-same e h = rw (sym e) h

PublishedChain-Shown :
    (p : Platform) (site_id : ℕ) (args : List Arg) (cut : Bool) (cs : List Slice) (s : Producer)
    (k : ℕ) (o : Bool × Producer)
    → PublishedChain p site_id args cut cs s k o
    → Shown p site_id args cut cs s k o
unfolding message_image
PublishedChain-Shown p site_id args cut cs s k o (m, same, h) = (
  m.mono_ns,
  m.correlation_id,
  Published-same
      (chain_requests-chain_of site_id cut cs (message_image m ++ write_args args)
        ∙ ap (chain_of site_id cut cs) (λ i.
          (le_bytes 8 (same i) ++ (le_bytes 8 m.mono_ns ++ le_bytes 8 m.correlation_id))
          ++ write_args-fronts args i))
      h,
)

message_bytes-fronts :
    (args : List Arg) → length args < 2 ^ 8 → message_bytes args ≡ 24 + length (fronts args)
message_bytes-fronts args few =
    omega (arith, length-write_args args (omega arith), ap length (write_args-fronts args))

-- A pack of fewer than 256 arguments is published as a message, behind everything the reader finds
-- of the thread before, that has of each text, a view or a C string up to its zero, the first 512
-- bytes, and behind it continuations that carry the bytes of each text up to the 4096th under the
-- argument's index, in order and without a gap, each flagged if another follows; the message is
-- flagged as cut exactly if a text is longer than 4096 bytes. Or, where an empty chunk could not
-- hold the chain, it is published as the message alone, flagged as cut. Every cut is counted as a
-- truncation, and no drop. Otherwise the reader finds what it found before and one drop is counted,
-- since an empty chunk cannot take the message or the claims have gone past the last chunk. No part
-- of a chain is found without the rest. This is with 64-bit atomics, for a thread whose chunks hold
-- whole records and a segment whose free chunks are blank, as long as the claims are not so many
-- that the cursor wraps.
pub emit_chained_lem :
    (thread : ℕ) (clock : ℕ → ℕ) (scoped site_id : ℕ) (args : List Arg) (s : Producer) (k : ℕ)
    → Ready s k
    → k + 2 < 2 ^ 64
    → length args < 2 ^ 8
    → (k' : ℕ) × (k' ≤ k + 2)
      × ChainEnds
          (hosted thread clock)
          site_id
          args
          s
          k'
          (emit_chained (hosted thread clock) scoped site_id args s)
emit_chained_lem thread clock scoped site_id args s k ready room few =
    let p = hosted thread clock in
    let o = emit_chained p scoped site_id args s in
    let cs = pack_slices args in
    let size = message_bytes-fronts args few in
    let (k', near, ends) = emit_chained_cases thread clock scoped site_id args s k ready room few in
    (
      k',
      near,
      (
        past_ceiling args,
        cs,
        past_ceiling_iff args,
        pack-Carries args 0 (omega arith),
        elim ends [
          | inl whole ↦
              inl (PublishedChain-Shown p site_id args (past_ceiling args) cs s k' o whole)
          | inr other ↦ inr (elim other [
            | inl (alone, big) ↦
                inl (PublishedChain-Shown p site_id args true [] s k' o alone, rw (sym size) big)
            | inr (dropped, unfit) ↦ inr (dropped, rw (sym size) unfit)
          ])
        ],
      ),
    )
