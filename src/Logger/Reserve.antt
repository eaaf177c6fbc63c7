-- ===== src/Logger/Reserve.antt =====
-- `reserveRecord` of include/sub0log/instance.hpp and the commit behind it: the record is found by
-- the reader, or one drop is counted.
use sub0log.Common.{
  ℕ, ◌+◌, ◌-◌, ◌^◌, ◌≤◌, ◌<◌, ◌≡◌, refl, sym, ap, ◌∙◌, arith, Bool, true, false, Option, none, some,
  List, [], ◌∷◌, ◌++◌, append_assoc, length, length-replicate, ltb, Bool-cases, inl, inr, ltb→le,
  ltb→lt, lt→ltb, ◌⊎◌, replicate,
}
use sub0log.Chunk.{ChunkWriter, Reservation, fresh_writer, is_valid, finish_record}
use sub0log.Segment.{Segment}
use sub0log.Wire.{padded_payload}
use sub0log.Reader.Body.Written.{Entry}
use sub0log.Protocol.{Request, RequestFits, size_cases, zeros-Holds}
use sub0log.Logger.{
  Platform, Producer, increment_counter, set_writer, count_drop, refill_writer, current_writer,
  try_reserve, or_drop, or_refill, reserve_record, commit_to, commit_record,
}
use sub0log.Logger.Log.{log, log_of, records_of, Filled, NoRoom, Filled-Taken, Filled-refused}
use sub0log.Logger.Claims.{
  hosted, Ready, Refilled, Stocked, claimed_writer, refill_writer_lem, current_writer_lem,
  Filled-claimed,
}

-- A record as every caller of `reserveRecord` writes it: reserve, then write and commit.
unfoldable pub write_record : Platform → Request → Producer → Bool × Producer
write_record p r s = commit_record r.kind r.flags r.payload (reserve_record p (length r.payload) s)

-- A reservation in the current chunk that a commit turns into a record for the reader.
abbrev pub Reserved : Producer → Request → Option Reservation × Producer → Type 0
Reserved s r o =
    (slot : Reservation) × (w' : ChunkWriter) × (o ≡ (some slot, set_writer s w'))
    × (length r.payload < 2 ^ 16)
    × ((es : List Entry) × Filled
          (commit_to w' (finish_record r.kind r.flags r.payload (some slot, w'))) es
        × (records_of (commit_to w' (finish_record r.kind r.flags r.payload (some slot, w')))
            ≡ records_of s.cache.writer ++ (r ∷ [])))

-- A reservation of `n` bytes for whatever record is written there.
abbrev pub Granted : Producer → ℕ → Option Reservation × Producer → Type 0
Granted s n o = (r : Request) → RequestFits r → length r.payload ≡ n → Reserved s r o

pub try_reserve_lem :
    (s : Producer) (es : List Entry) (n : ℕ) (f : Filled s.cache.writer es) (valid : Bool)
    → Granted s n (try_reserve n (valid, s))
      ⊎ ((try_reserve n (valid, s) ≡ (none, s)) × ((valid ≡ false) ⊎ NoRoom f.free n))
unfolding try_reserve
try_reserve_lem s es n f false = inr (refl, inl refl)
try_reserve_lem s es n f true = elim (size_cases n f.free) [
  | inl (small, fits) ↦ inl (λ r ok same. granted r ok same small fits)
  | inr no_room ↦ inr (
    ap (λ t. (t.0, set_writer s t.1)) (Filled-refused s.cache.writer es n f no_room),
    inr no_room,
  )
]
  where
    granted :
        (r : Request)
        → RequestFits r
        → length r.payload ≡ n
        → n < 2 ^ 16
        → 8 + padded_payload n ≤ f.free
        → Reserved s r (try_reserve n (true, s))
    granted r ok same small fits =
        let (slot, w', e, short, filled) =
          Filled-Taken s.cache.writer es r f ok (omega arith) (rw same fits) in
        (
          slot,
          w',
          ap (λ m. try_reserve m (true, s)) (sym same) ∙ ap (λ t. (t.0, set_writer s t.1)) e,
          short,
          filled,
        )

-- One record more for the reader, no drop, `t` truncations in all, and the thread goes on.
pub record Wrote (s : Producer) (k t : ℕ) (r : Request) (o : Bool × Producer) : Type 0 where
  pub returns : o.0 ≡ true
  pub short : length r.payload < 2 ^ 16
  pub ready : Ready o.1 k
  pub logged : log o.1 ≡ log s ++ (r ∷ [])
  pub same_dropped : o.1.logger.dropped ≡ s.logger.dropped
  pub truncations : o.1.logger.truncated ≡ t
  pub same_count : o.1.logger.segment.chunk_count ≡ s.logger.segment.chunk_count
  pub same_bytes : o.1.logger.segment.chunk_bytes ≡ s.logger.segment.chunk_bytes
  pub same_generation : o.1.logger.segment.generation ≡ s.logger.segment.generation

-- Nothing changes for the reader, and one drop is counted.
pub record Dropped (p : Platform) (s : Producer) (k : ℕ) (o : Bool × Producer) : Type 0 where
  pub returns : o.0 ≡ false
  pub ready : Ready o.1 k
  pub same_log : log o.1 ≡ log s
  pub counted : o.1.logger.dropped ≡ increment_counter p s.logger.dropped
  pub same_truncated : o.1.logger.truncated ≡ s.logger.truncated
  pub same_count : o.1.logger.segment.chunk_count ≡ s.logger.segment.chunk_count
  pub same_bytes : o.1.logger.segment.chunk_bytes ≡ s.logger.segment.chunk_bytes
  pub same_generation : o.1.logger.segment.generation ≡ s.logger.segment.generation

-- Why a record is lost: an empty chunk cannot take it, or fewer chunks exist than were claimed.
abbrev pub Unfit : Producer → ℕ → ℕ → Type 0
Unfit s k n = NoRoom (s.logger.segment.chunk_bytes - 32) n ⊎ (s.logger.segment.chunk_count < k)

pub Reserved-Wrote :
    (s s' : Producer) (k k' : ℕ) (r : Request) (o : Option Reservation × Producer)
    → Refilled s s' k k'
    → Reserved s' r o
    → Wrote s k' s.logger.truncated r (commit_record r.kind r.flags r.payload o)
unfolding commit_record log_of
Reserved-Wrote s s' k k' r o f (slot, w', e, short, (es, filled, more)) = rw e (record {
  returns = refl;
  short = short;
  ready = record { stocked = f.ready.stocked; current = (es, filled); others = f.ready.others };
  logged =
      ap (λ t. log_of s'.left ++ t) more
      ∙ sym (append_assoc (log_of s'.left) (records_of s'.cache.writer) (r ∷ []))
      ∙ ap (λ t. t ++ (r ∷ [])) f.same_log;
  same_dropped = f.same_dropped;
  truncations = f.same_truncated;
  same_count = f.same_count;
  same_bytes = f.same_bytes;
  same_generation = f.same_generation;
})

pub Refilled-Dropped :
    (p : Platform) (s s' : Producer) (k k' : ℕ)
    → Refilled s s' k k'
    → Dropped p s k' (false, count_drop p s')
Refilled-Dropped p s s' k k' f = record {
  returns = refl;
  ready = record { stocked = f.ready.stocked; current = f.ready.current; others = f.ready.others };
  same_log = f.same_log;
  counted = ap (increment_counter p) f.same_dropped;
  same_truncated = f.same_truncated;
  same_count = f.same_count;
  same_bytes = f.same_bytes;
  same_generation = f.same_generation;
}

pub Refilled-trans :
    {s s' s'' : Producer} {k k' k'' : ℕ}
    → Refilled s s' k k'
    → Refilled s' s'' k' k''
    → Refilled s s'' k k''
Refilled-trans f g = record {
  ready = g.ready;
  same_log = g.same_log ∙ f.same_log;
  same_dropped = g.same_dropped ∙ f.same_dropped;
  same_truncated = g.same_truncated ∙ f.same_truncated;
  same_count = g.same_count ∙ f.same_count;
  same_bytes = g.same_bytes ∙ f.same_bytes;
  same_generation = g.same_generation ∙ f.same_generation;
}

Filled-same : {w w' : ChunkWriter} {es : List Entry} → w ≡ w' → Filled w' es → Filled w es
Filled-same e f = record {
  free = f.free;
  holds = rw e f.holds;
  fit = f.fit;
  numbered = rw e f.numbered;
}

-- The writer that a claim of index `k` leaves is valid exactly if the segment had such a chunk.
pub valid_claimed :
    (seg : Segment) (k : ℕ) → is_valid (claimed_writer seg k) ≡ true → k < seg.chunk_count
valid_claimed seg k h = elim (Bool-cases (ltb k seg.chunk_count)) [
  | inl free ↦ ltb→lt k seg.chunk_count free
  | inr full ↦
      let invalid : is_valid (claimed_writer seg k) ≡ false = rw full refl in cc (h, invalid)
]

pub invalid_claimed :
    (seg : Segment) (k : ℕ)
    → Stocked seg k
    → is_valid (claimed_writer seg k) ≡ false
    → seg.chunk_count ≤ k
invalid_claimed seg k st h = elim (Bool-cases (ltb k seg.chunk_count)) [
  | inr full ↦ ltb→le k seg.chunk_count full
  | inl free ↦
      let n = seg.chunk_bytes - 32 in
      let valid : is_valid (claimed_writer seg k) ≡ true =
        rw free (ground (arith, length-replicate {A = ℕ} n 0, st.claimed.chunk_room)) in
      cc (h, valid)
]

-- The chunk of such a claim is blank.
pub blank_claimed :
    (seg : Segment) (k : ℕ) (w : ChunkWriter)
    → Stocked seg k
    → k < seg.chunk_count
    → w ≡ claimed_writer seg k
    → (f : Filled w []) × (f.free ≡ seg.chunk_bytes - 32)
blank_claimed seg k w st lt same =
    let n = seg.chunk_bytes - 32 in
    let free : ltb k seg.chunk_count ≡ true = lt→ltb k seg.chunk_count lt in
    let fresh : w ≡ fresh_writer (replicate n 0) = same ∙ rw free refl in
    (
      record {
        free = n;
        holds = rw fresh (
            zeros-Holds n (omega (arith, st.even, st.claimed.chunk_room))
              (omega (arith, st.small)));
        fit = tt;
        numbered = rw fresh (omega arith);
      },
      refl,
    )

-- What a claim of index `k` leaves no room for is unfit.
pub unfit-claimed :
    (seg : Segment) (k n : ℕ) (w : ChunkWriter)
    → Stocked seg k
    → w ≡ claimed_writer seg k
    → (f : Filled w []) × ((is_valid w ≡ false) ⊎ NoRoom f.free n
        → NoRoom (seg.chunk_bytes - 32) n ⊎ (seg.chunk_count < k + 1))
unfit-claimed seg k n w st same = elim (Bool-cases (ltb k seg.chunk_count)) [
  | inr full ↦ (
    Filled-same same (Filled-claimed seg k st),
    λ why. inr (omega (arith, ltb→le k seg.chunk_count full)),
  )
  | inl free ↦
      let lt = ltb→lt k seg.chunk_count free in
      let (f, left) = blank_claimed seg k w st lt same in
      (
        f,
        λ why. elim why [
          | inl bad ↦ inr (omega (arith, invalid_claimed seg k st (ap is_valid (sym same) ∙ bad)))
          | inr no_room ↦ inl (λ small. omega (arith, no_room small, left))
        ],
      )
]

Unfit-same :
    (seg seg' : Segment) (k n : ℕ)
    → seg'.chunk_count ≡ seg.chunk_count
    → seg'.chunk_bytes ≡ seg.chunk_bytes
    → NoRoom (seg'.chunk_bytes - 32) n ⊎ (seg'.chunk_count < k)
    → NoRoom (seg.chunk_bytes - 32) n ⊎ (seg.chunk_count < k)
Unfit-same seg seg' k n count bytes (inl no_room) = inl (λ small. omega (arith, no_room small))
Unfit-same seg seg' k n count bytes (inr full) = inr (omega arith)

-- How a reservation ends: granted in the chunk that `s'` is at, or refused with a drop.
abbrev pub Settles : Platform → Producer → Producer → ℕ → ℕ → Option Reservation × Producer → Type 0
Settles p s s' k' n o = Granted s' n o ⊎ ((o ≡ (none, count_drop p s')) × Unfit s k' n)

-- The attempt in the chunk that was just claimed.
second_try :
    (p : Platform) (s s0 s' : Producer) (k k' n : ℕ) (valid : Bool)
    → Refilled s s0 k k'
    → valid ≡ is_valid s'.cache.writer
    → s'.cache.writer ≡ claimed_writer s0.logger.segment k'
    → Settles p s s' (k' + 1) n (or_drop p (try_reserve n (valid, s')))
unfolding or_drop
second_try p s s0 s' k k' n valid before usable same =
    let (f, unfit) =
      unfit-claimed s0.logger.segment k' n s'.cache.writer before.ready.stocked same in
    elim (try_reserve_lem s' [] n f valid) [
      | inl granted ↦ inl (λ r ok size. or_drop-Reserved p s' r _ (granted r ok size))
      | inr (e, why) ↦ rw e (
          inr (
            refl,
            Unfit-same s.logger.segment s0.logger.segment (k' + 1) n before.same_count
                before.same_bytes
                (unfit (elim why [ inl bad ↦ inl (sym usable ∙ bad) | inr no_room ↦ inr no_room ])),
          ))
    ]
  where
    or_drop-Reserved :
        (p : Platform) (s : Producer) (r : Request) (o : Option Reservation × Producer)
        → Reserved s r o
        → Reserved s r (or_drop p o)
    or_drop-Reserved p s r o (slot, w', e, short, filled) = (slot, w', rw e refl, short, filled)

-- `reserveRecord`, in whatever chunk it ends.
pub reserve_record_lem :
    (thread : ℕ) (clock : ℕ → ℕ) (s : Producer) (k n : ℕ)
    → Ready s k
    → k + 2 < 2 ^ 64
    → let o = reserve_record (hosted thread clock) n s in
      (k' : ℕ) × (s' : Producer) × (k' ≤ k + 2)
      × Refilled s s' k k'
      × Settles (hosted thread clock) s s' k' n o
unfolding reserve_record or_refill
reserve_record_lem thread clock s k n ready room =
    let p = hosted thread clock in
    let (valid, s0) = current_writer p s in
    let (usable, (k0, low, near, before)) =
      current_writer_lem thread clock s k ready (omega arith) in
    let (es, f) = before.ready.current in
    elim (try_reserve_lem s0 es n f valid) [
      | inl granted ↦ (
        k0,
        s0,
        omega arith,
        before,
        inl (λ r ok size. or_refill-Reserved p n s0 r _ (granted r ok size)),
      )
      | inr (e, why) ↦
          let (again, same, after) =
            refill_writer_lem thread clock s0 k0 before.ready (omega arith) in
          (
            k0 + 1,
            (refill_writer p s0).1,
            omega arith,
            Refilled-trans before after,
            rw e (
                second_try p s s0 (refill_writer p s0).1 k k0 n (refill_writer p s0).0 before
                  (again ∙ ap is_valid (sym same)) same),
          )
    ]
  where
    or_refill-Reserved :
        (p : Platform) (n : ℕ) (s : Producer) (r : Request) (o : Option Reservation × Producer)
        → Reserved s r o
        → Reserved s r (or_refill p n o)
    or_refill-Reserved p n s r o (slot, w', e, short, filled) = (slot, w', rw e refl, short, filled)

-- How an attempt to write a record ends.
abbrev pub Ends : Platform → Producer → ℕ → Request → Bool × Producer → Type 0
Ends p s k r o = Wrote s k s.logger.truncated r o ⊎ (Dropped p s k o × Unfit s k (length r.payload))

-- Whatever thread calls, a record whose kind and flags are bytes either is found by the reader
-- behind all the thread wrote before, with no drop counted, or the reader finds what it found
-- before and exactly one drop is counted; it is lost only when an empty chunk could not take it or
-- the claims have gone past the last chunk. At most two chunks are claimed, and the thread can go
-- on. This is with 64-bit atomics, for a thread whose chunks hold whole records and a segment whose
-- free chunks are blank, as long as the claims are not so many that the cursor wraps.
pub write_record_lem :
    (thread : ℕ) (clock : ℕ → ℕ) (s : Producer) (k : ℕ) (r : Request)
    → Ready s k
    → k + 2 < 2 ^ 64
    → RequestFits r
    → (k' : ℕ) × (k' ≤ k + 2)
      × Ends (hosted thread clock) s k' r (write_record (hosted thread clock) r s)
unfolding write_record commit_record
write_record_lem thread clock s k r ready room ok =
    let (k', s', near, refilled, settles) =
      reserve_record_lem thread clock s k (length r.payload) ready room in
    (
      k',
      near,
      elim settles [
        | inl granted ↦ inl (Reserved-Wrote s s' k k' r _ refilled (granted r ok refl))
        | inr (e, unfit) ↦
            inr (rw e (Refilled-Dropped (hosted thread clock) s s' k k' refilled), unfit)
      ],
    )
