-- ===== src/Emit/Outcome.antt =====
-- How `emitChained` of include/sub0log/detail/emit.hpp ends.
use sub0log.Common.{
  ℕ, ◌+◌, ◌-◌, ◌^◌, ◌≤◌, ◌<◌, ◌≡◌, refl, sym, arith, Bool, true, false, List, [], ◌++◌, length, inl,
  inr, ◌⊎◌,
}
use sub0log.Wire.Layout.{MessagePayload, message_image}
use sub0log.Args.Encode.{Arg}
use sub0log.Chunk.{reserve, is_valid}
use sub0log.Chunk.Layout.{reserve_fits, reserve_refused}
use sub0log.Chunk.Reserved.{footprint}
use sub0log.Protocol.{size_cases}
use sub0log.Logger.{Platform, Producer, current_writer, refill_writer}
use sub0log.Logger.Log.{Filled, NoRoom}
use sub0log.Logger.Claims.{
  hosted, Ready, Refilled, refill_writer_lem, current_writer_lem, claimed_writer,
}
use sub0log.Logger.Reserve.{
  Dropped, Refilled-Dropped, Refilled-trans, Unfit, valid_claimed, invalid_claimed, blank_claimed,
}
use sub0log.Emit.{truncated_flag}
use sub0log.Emit.Attempts.{bump}
use sub0log.Emit.Chain.{Slice, write_args, past_ceiling}
use sub0log.Emit.Publish.{
  message_bytes, try_chain, publish_alone, chain_last, chain_first, emit_chained,
}
use sub0log.Emit.Layout.{chain_size}
use sub0log.Emit.Slices.{overflows-Modest}
use sub0log.Emit.Chained.{chain_requests}
use sub0log.Emit.Publishing.{Published, publish_lem, try_chain_lem, pack_slices}

-- A message of the site with these slices as its continuations was published.
abbrev pub PublishedChain :
    Platform → ℕ → List Arg → Bool → List Slice → Producer → ℕ → Bool × Producer → Type 0
PublishedChain p site_id args cut cs s k o =
    (m : MessagePayload) × (m.site_id ≡ site_id)
    × Published s k (bump p cut s.logger.truncated)
        (chain_requests site_id (truncated_flag cut) cs (message_image m ++ write_args args)) o

-- The whole chain; or the message alone, where no empty chunk could hold the chain; or a drop.
abbrev pub ChainCases : Platform → ℕ → List Arg → Producer → ℕ → Bool × Producer → Type 0
ChainCases p site_id args s k o =
    PublishedChain p site_id args (past_ceiling args) (pack_slices args) s k o
    ⊎ ((PublishedChain p site_id args true [] s k o
          × (s.logger.segment.chunk_bytes - 32
              < footprint (message_bytes args) + chain_size (pack_slices args)))
        ⊎ (Dropped p s k o × Unfit s k (message_bytes args)))

-- The message alone in a fresh chunk.
alone_lem :
    (p : Platform) (scoped site_id : ℕ) (args : List Arg) (s s' : Producer) (k k' : ℕ)
    (f : Filled s'.cache.writer [])
    → length args < 2 ^ 8
    → Refilled s s' k k'
    → let o =
        publish_alone p scoped site_id args (reserve s'.cache.writer (message_bytes args)) s' in
      ((message_bytes args < 2 ^ 16) × PublishedChain p site_id args true [] s k' o)
      ⊎ (Dropped p s k' o × NoRoom f.free (message_bytes args))
unfolding publish_alone
alone_lem p scoped site_id args s s' k k' f few refilled =
    let n = message_bytes args in
    elim (size_cases n f.free) [
      | inl (small, fits) ↦ rw (reserve_fits n f.holds small fits) (
          inl (
            small,
            (
              _,
              refl,
              publish_lem p scoped site_id args true [] s s' k k' [] f few refilled small tt
                  (omega (arith, fits)),
            ),
          ))
      | inr no_room ↦
          rw (reserve_refused n f.holds no_room)
            (inr (Refilled-Dropped p s s' k k' refilled, no_room))
    ]

-- The attempt in the chunk that was just claimed with index `k'`.
chain_last_lem :
    (p : Platform) (scoped site_id : ℕ) (args : List Arg) (s s0 s' : Producer) (k k' : ℕ)
    (valid : Bool)
    → length args < 2 ^ 8
    → Refilled s s0 k k'
    → Refilled s0 s' k' (k' + 1)
    → valid ≡ is_valid (claimed_writer s0.logger.segment k')
    → s'.cache.writer ≡ claimed_writer s0.logger.segment k'
    → ChainCases p site_id args s
        (k' + 1)
        (chain_last p scoped site_id args valid (try_chain args (valid, s')))
unfolding chain_last try_chain
chain_last_lem p scoped site_id args s s0 s' k k' false few before after usable same = inr (
    inr (
      Refilled-Dropped p s s' k (k' + 1) (Refilled-trans before after),
      inr (
          omega (
            arith,
            invalid_claimed s0.logger.segment k' before.ready.stocked (sym usable),
            before.same_count,
          )),
    ))
chain_last_lem p scoped site_id args s s0 s' k k' true few before after usable same =
    let seg = s0.logger.segment in
    let st = before.ready.stocked in
    let (f, free) =
      blank_claimed seg k' s'.cache.writer st (valid_claimed seg k' (sym usable)) same in
    let all = Refilled-trans before after in
    let (short, count, size) = overflows-Modest args 0 in
    elim (try_chain_lem args s' [] f true few) [
      | inl (small, fits, e) ↦ rw e (
          inl (
            _,
            refl,
            publish_lem p scoped site_id args (past_ceiling args) (pack_slices args) s s' k (k' + 1)
                [] f few all small short fits,
          ))
      | inr (e, why) ↦ rw e (elim (alone_lem p scoped site_id args s s' k (k' + 1) f few all) [
        | inl (small, published) ↦ inr (
            inl (
              published,
              elim why [
                | inl bad ↦ absurd (cc bad)
                | inr too_long ↦ omega (arith, too_long small, free, before.same_bytes)
              ],
            ))
        | inr (dropped, no_room) ↦
            inr
              (inr (dropped, inl (λ small. omega (arith, no_room small, free, before.same_bytes))))
      ])
    ]

-- `emitChained`, in whatever chunk it ends, in the terms of its own code.
pub emit_chained_cases :
    (thread : ℕ) (clock : ℕ → ℕ) (scoped site_id : ℕ) (args : List Arg) (s : Producer) (k : ℕ)
    → Ready s k
    → k + 2 < 2 ^ 64
    → length args < 2 ^ 8
    → (k' : ℕ) × (k' ≤ k + 2)
      × ChainCases
          (hosted thread clock)
          site_id
          args
          s
          k'
          (emit_chained (hosted thread clock) scoped site_id args s)
unfolding emit_chained chain_first
emit_chained_cases thread clock scoped site_id args s k ready room few =
    let p = hosted thread clock in
    let (valid, s0) = current_writer p s in
    let (usable, (k0, low, near, before)) =
      current_writer_lem thread clock s k ready (omega arith) in
    let (es, f) = before.ready.current in
    let (short, count, size) = overflows-Modest args 0 in
    elim (try_chain_lem args s0 es f valid few) [
      | inl (small, fits, e) ↦ (
        k0,
        omega arith,
        rw e (
            inl (
              _,
              refl,
              publish_lem p scoped site_id args (past_ceiling args) (pack_slices args) s s0 k k0 es
                  f few before small short fits,
            )),
      )
      | inr (e, why) ↦
          let (again, same, after) =
            refill_writer_lem thread clock s0 k0 before.ready (omega arith) in
          (
            k0 + 1,
            omega arith,
            rw e (
                chain_last_lem p scoped site_id args s s0 (refill_writer p s0).1 k k0
                  (refill_writer p s0).0 few before after again same),
          )
    ]
