-- ===== src/Emit/Publishing.antt =====
-- `emitChained` of include/sub0log/detail/emit.hpp in the state of a thread: the chain is published
-- in the current chunk or a fresh one, the message alone, or one drop is counted.
use sub0log.Common.{
  ℕ, ◌+◌, ◌*◌, ◌^◌, ◌≤◌, ◌<◌, ◌≡◌, refl, sym, ap, ◌∙◌, arith, Bool, true, false, none, some, List,
  [], ◌∷◌, ◌++◌, length, length-append, length-take, take, append_assoc, All, inl, inr, ◌⊎◌,
}
use sub0log.Common.Bytes.{Bytes, le_bytes, length-le_bytes}
use sub0log.Wire.{size_of_code, TypeCode}
use sub0log.Wire.Layout.{message_image}
use sub0log.Args.Encode.{Arg, fixed, viewed, c_string, encode_fixed_one}
use sub0log.Chunk.Reserved.{footprint}
use sub0log.Reader.Body.Written.{Entry}
use sub0log.Protocol.{Request}
use sub0log.Logger.{Platform, Producer, increment_counter, set_writer}
use sub0log.Logger.Log.{Filled, log, log_of, records_of}
use sub0log.Logger.Claims.{Ready, Refilled}
use sub0log.Emit.{truncated_flag, correlation_of, note_truncation}
use sub0log.Emit.Attempts.{bump}
use sub0log.Emit.Chain.{
  Slice, raw_bytes_of, inline_length, write_one, write_args, inline_size, overflows_from,
  all_slices,
}
use sub0log.Emit.Publish.{message_bytes, publish_chain, try_chain}
use sub0log.Emit.Layout.{chain_size, Short}
use sub0log.Emit.Slices.{overflows-Modest}
use sub0log.Emit.Chained.{chain_at, after_chain, chain_requests, reserve_chain_lem}
use sub0log.Emit.ChainLog.{Filled-chain, records_of-chain}

-- `rs` are found behind everything else, no drop, `t` truncations in all, and the thread goes on.
pub record Published (s : Producer) (k t : ℕ) (rs : List Request) (o : Bool × Producer)
    : Type 0 where
  pub returns : o.0 ≡ true
  pub ready : Ready o.1 k
  pub logged : log o.1 ≡ log s ++ rs
  pub same_dropped : o.1.logger.dropped ≡ s.logger.dropped
  pub truncations : o.1.logger.truncated ≡ t
  pub same_count : o.1.logger.segment.chunk_count ≡ s.logger.segment.chunk_count
  pub same_bytes : o.1.logger.segment.chunk_bytes ≡ s.logger.segment.chunk_bytes
  pub same_generation : o.1.logger.segment.generation ≡ s.logger.segment.generation

Published-note_truncation :
    (p : Platform) (s : Producer) (k t : ℕ) (rs : List Request) (cut : Bool) (s' : Producer)
    → Published s k t rs (true, s')
    → Published s k (bump p cut t) rs (note_truncation p cut (true, s'))
unfolding note_truncation
Published-note_truncation p s k t rs false s' w = w
Published-note_truncation p s k t rs true s' w = record {
  returns = refl;
  ready = record { stocked = w.ready.stocked; current = w.ready.current; others = w.ready.others };
  logged = w.logged;
  same_dropped = w.same_dropped;
  truncations = ap (increment_counter p) w.truncations;
  same_count = w.same_count;
  same_bytes = w.same_bytes;
  same_generation = w.same_generation;
}

-- What the arguments of a message take is what was worked out for them.
size_of_code_le : (c : TypeCode) → size_of_code c ≤ 8
size_of_code_le c = ground arith

length-cut :
    (a : Arg) (bs : Bytes) (more : Bytes)
    → length bs ≡ length (raw_bytes_of a)
    → length ((le_bytes 2 (inline_length a) ++ take (inline_length a) bs) ++ more)
      ≡ 2 + inline_length a + length more
length-cut a bs more e =
    length-append (le_bytes 2 (inline_length a) ++ take (inline_length a) bs) more
    ∙ omega (arith, length-take (inline_length a) bs)

pub length-write_args :
    (args : List Arg)
    → length args < 2 ^ 16
    → (length (write_args args) ≡ inline_size args) × (inline_size args ≤ 514 * length args)
unfolding write_args write_one inline_size encode_fixed_one raw_bytes_of
length-write_args [] h = (refl, omega arith)
length-write_args (fixed code bits ∷ more) h =
    let (same, small) = length-write_args more (omega arith) in
    let size = length-le_bytes (size_of_code code) bits in
    let whole = length-append (le_bytes (size_of_code code) bits) (write_args more) in
    (
      omega (arith, whole, size, same, small, size_of_code_le code),
      omega (arith, small, size_of_code_le code),
    )
length-write_args (viewed bs ∷ more) h =
    let (same, small) = length-write_args more (omega arith) in
    let whole = length-cut (viewed bs) bs (write_args more) refl in
    (omega (arith, whole, same, small), omega (arith, small))
length-write_args (c_string p ∷ more) h =
    let (same, small) = length-write_args more (omega arith) in
    let whole = length-cut (c_string p) (raw_bytes_of (c_string p)) (write_args more) refl in
    (omega (arith, whole, same, small), omega (arith, small))

-- The payload of the message, with the time that the thread reads.
abbrev pub chain_payload : Platform → ℕ → ℕ → List Arg → Producer → Bytes
chain_payload p scoped site_id args s =
    message_image (record {
      site_id = site_id;
      mono_ns = p.clock s.readings;
      correlation_id = correlation_of s.logger scoped;
    })
    ++ write_args args

pub length-chain_payload :
    (p : Platform) (scoped site_id : ℕ) (args : List Arg) (s : Producer)
    → length args < 2 ^ 8
    → length (chain_payload p scoped site_id args s) ≡ message_bytes args
unfolding message_image
length-chain_payload p scoped site_id args s few =
    omega (arith, length-write_args args (omega arith))

-- A chain that is reserved at the cursor of the current chunk is published.
pub publish_lem :
    (p : Platform) (scoped site_id : ℕ) (args : List Arg) (cut : Bool) (cs : List Slice)
    (s s' : Producer) (k k' : ℕ) (es : List Entry) (f : Filled s'.cache.writer es)
    → length args < 2 ^ 8
    → Refilled s s' k k'
    → message_bytes args < 2 ^ 16
    → All Short cs
    → footprint (message_bytes args) + chain_size cs ≤ f.free
    → let w = s'.cache.writer in
      Published s k'
        (bump p cut s.logger.truncated)
        (chain_requests site_id (truncated_flag cut) cs (chain_payload p scoped site_id args s'))
        (publish_chain p scoped site_id args cut
          (chain_at w (message_bytes args) cs)
          (set_writer s' (after_chain w (message_bytes args) cs)))
unfolding publish_chain log_of
publish_lem p scoped site_id args cut cs s s' k k' es f few refilled small short fits =
    let n = message_bytes args in
    let payload = chain_payload p scoped site_id args s' in
    let len = length-chain_payload p scoped site_id args s' few in
    let w = s'.cache.writer in
    let rs = chain_requests site_id (truncated_flag cut) cs payload in
    Published-note_truncation p s k' s.logger.truncated rs cut _ (record {
      returns = refl;
      ready = record {
        stocked = refilled.ready.stocked;
        current = (_, Filled-chain site_id n cut cs payload w es f len small short fits);
        others = refilled.ready.others;
      };
      logged =
          ap (λ t. log_of s'.left ++ t)
            (records_of-chain site_id n cut cs payload w es f len small short fits)
          ∙ sym (append_assoc (log_of s'.left) (records_of w) rs)
          ∙ ap (λ t. t ++ rs) refilled.same_log;
      same_dropped = refilled.same_dropped;
      truncations = refilled.same_truncated;
      same_count = refilled.same_count;
      same_bytes = refilled.same_bytes;
      same_generation = refilled.same_generation;
    })

-- The slices of a whole pack.
abbrev pub pack_slices : List Arg → List Slice
pack_slices args = all_slices (overflows_from 0 args)

pub try_chain_lem :
    (args : List Arg) (s : Producer) (es : List Entry) (f : Filled s.cache.writer es) (valid : Bool)
    → length args < 2 ^ 8
    → let n = message_bytes args in
      let cs = pack_slices args in
      ((n < 2 ^ 16)
        × (footprint n + chain_size cs ≤ f.free)
        × (try_chain args (valid, s) ≡ (
          some (chain_at s.cache.writer n cs),
          set_writer s (after_chain s.cache.writer n cs),
        )))
      ⊎ ((try_chain args (valid, s) ≡ (none, s))
          × ((valid ≡ false) ⊎ (n < 2 ^ 16 → f.free < footprint n + chain_size cs)))
unfolding try_chain
try_chain_lem args s es f false few = inr (refl, inl refl)
try_chain_lem args s es f true few =
    let n = message_bytes args in
    let (short, count, size) = overflows-Modest args 0 in
    elim (reserve_chain_lem (length args * 7) n (overflows_from 0 args) f.holds
      (omega (arith, length-write_args args (omega arith))) short (omega (arith, size))
      (omega (arith, count))) [
        | inl (small, fits, e) ↦ inl (small, fits, ap (λ t. (t.0, set_writer s t.1)) e)
        | inr (no_room, e) ↦ inr (ap (λ t. (t.0, set_writer s t.1)) e, inr no_room)
      ]
