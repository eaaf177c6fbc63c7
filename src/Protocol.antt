-- ===== src/Protocol.antt =====
-- The record protocol from end to end: records that a `ChunkWriter` (include/sub0log/chunk.hpp) was
-- asked to write, and what `SegmentReader::visit` (include/sub0log/reader.hpp) finds of them.
use sub0log.Common.{
  ℕ, ◌+◌, ◌-◌, ◌*◌, ◌/◌, ◌%◌, ◌^◌, ◌≤◌, ◌<◌, ◌≡◌, refl, sym, ap, ◌∙◌, arith, Bool, true, false,
  Option, some, none, List, [], ◌∷◌, ◌++◌, length, length-append, append_assoc, append-nil,
  replicate, All, ◌↔◌, ◌⊎◌, inl, inr, Bool-cases, ltb, ltb→lt, ltb→le,
}
use sub0log.Common.Bytes.{Bytes}
use sub0log.Wire.{padded_payload}
use sub0log.Wire.Padding.{padded_payload_eq}
use sub0log.Chunk.{ChunkWriter, Reservation, fresh_writer, put_record, finish_record, remaining}
use sub0log.Chunk.Layout.{
  Holds, after_put, put_record_fits, reserve_refused, after_put-Holds, record_image,
  length-record_image, remaining-Holds,
}
use sub0log.Reader.Body.{Visited, visit_body}
use sub0log.Reader.Body.Written.{Entry, EntryFits, images, seen_body, visit_body-images}

-- One record that a caller wants written.
pub record Request : Type 0 where
  pub kind : ℕ
  pub flags : ℕ
  pub payload : Bytes

-- Kind and flags are bytes.
pub record RequestFits (r : Request) : Type 0 where
  pub kind_fits : r.kind < 2 ^ 8
  pub flags_fit : r.flags < 2 ^ 8

-- The writer after an attempt, and whether the chunk took the record.
abbrev pub outcome : ChunkWriter → Option (Reservation × ChunkWriter) → ChunkWriter × Bool
outcome w none = (w, false)
outcome w (some (slot, w')) = (w', true)

unfoldable pub put_one : ChunkWriter → Request → ChunkWriter × Bool
put_one w r = outcome w (put_record w r.kind r.flags r.payload)

unfoldable pub put_each : ChunkWriter → List Request → ChunkWriter × List Bool
unfolding put_one
put_each w [] = (w, [])
put_each w (r ∷ rs) =
    let (w', taken) = put_one w r in let (w'', others) = put_each w' rs in (w'', taken ∷ others)

-- The requests that were taken.
abbrev pub select : List Request → List Bool → List Request
select [] ds = []
select (r ∷ rs) [] = []
select (r ∷ rs) (true ∷ ds) = r ∷ select rs ds
select (r ∷ rs) (false ∷ ds) = select rs ds

-- The record of a request, with a sequence number.
abbrev pub entry_of : ℕ → Request → Entry
entry_of seq r = record {
  head = record {
    payload_bytes = length r.payload % 2 ^ 16;
    kind = r.kind;
    flags = r.flags;
    sequence = seq;
  };
  payload = r.payload;
}

-- Sequence numbers follow the order in the chunk, and wrap at 16 bits.
abbrev pub numbered : ℕ → List Request → List Entry
numbered seq [] = []
numbered seq (r ∷ rs) = entry_of seq r ∷ numbered ((seq + 1) % 2 ^ 16) rs

-- The record has a length that the head word can carry, and its head word and its payload, rounded
-- up to a multiple of eight, are no longer than the free space.
abbrev pub Fits : ℕ → Request → Type 0
Fits free r = (length r.payload < 2 ^ 16) × (8 + (length r.payload + 7) / 8 * 8 ≤ free)

put_one_taken :
    {w : ChunkWriter} {written : Bytes} {free : ℕ} (r : Request)
    → Holds w written free
    → length r.payload < 2 ^ 16
    → 8 + padded_payload (length r.payload) ≤ free
    → put_one w r ≡ (after_put w written free r.kind r.flags r.payload, true)
unfolding put_one
put_one_taken {w} r v small fits =
    ap (outcome w) (put_record_fits r.kind r.flags r.payload v small fits)

put_one_refused :
    {w : ChunkWriter} {written : Bytes} {free : ℕ} (r : Request)
    → Holds w written free
    → (length r.payload < 2 ^ 16 → free < 8 + padded_payload (length r.payload))
    → put_one w r ≡ (w, false)
unfolding put_one put_record finish_record
put_one_refused {w} r v no_room =
    ap (λ t. outcome w (finish_record r.kind r.flags r.payload t))
      (reserve_refused (length r.payload) v no_room)

pub size_cases :
    (n free : ℕ)
    → ((n < 2 ^ 16) × (8 + padded_payload n ≤ free)) ⊎ (n < 2 ^ 16 → free < 8 + padded_payload n)
size_cases n free = elim (Bool-cases (ltb n (2 ^ 16))) [
  | inl small ↦ elim (Bool-cases (ltb free (8 + padded_payload n))) [
    | inl full ↦ inr (λ h. ltb→lt free (8 + padded_payload n) full)
    | inr fits ↦ inl (ltb→lt n (2 ^ 16) small, ltb→le free (8 + padded_payload n) fits)
  ]
  | inr big ↦ inr (λ h. absurd (omega (arith, ltb→le n (2 ^ 16) big)))
]

-- A chunk whose body holds written records and then zeros takes a record exactly if the head word
-- can carry its length and the free space its head word and padded payload; a record that it does
-- not take leaves the chunk as it was.
pub put_one_iff :
    {w : ChunkWriter} {written : Bytes} {free : ℕ} (r : Request)
    → Holds w written free
    → (((put_one w r).1 ≡ true) ↔ Fits free r)
      × (((put_one w r).1 ≡ true) ⊎ (put_one w r ≡ (w, false)))
put_one_iff {w} {written} {free} r v =
    let pad =
      λ (small : length r.payload < 2 ^ 16). padded_payload_eq (length r.payload) (omega arith) in
    elim (size_cases (length r.payload) free) [
      | inl (small, fits) ↦
          let taken = put_one_taken r v small fits in
          (
            (λ e. (small, omega (arith, fits, pad small)), λ h. ap (λ t. t.1) taken),
            inl (ap (λ t. t.1) taken),
          )
      | inr no_room ↦
          let refused = put_one_refused r v no_room in
          (
            (
              λ e. cc (ap (λ t. t.1) refused),
              λ (small, fits). absurd (omega (arith, no_room small, pad small)),
            ),
            inr refused,
          )
    ]

-- What `put_each` leaves of a chunk that holds `es` and `free` zeros.
pub record Leaves (es : List Entry) (free : ℕ) (w : ChunkWriter) (more : List Entry) : Type 0 where
  pub left : ℕ
  pub holds : Holds w (images (es ++ more)) left
  pub fit : All EntryFits more
  pub size : length (images (es ++ more)) + left ≡ length (images es) + free

pub images-snoc :
    (es : List Entry) (e : Entry)
    → images (es ++ (e ∷ [])) ≡ images es ++ record_image e.head e.payload
images-snoc [] e = append-nil (record_image e.head e.payload)
images-snoc (x ∷ es) e =
    ap (λ t. record_image x.head x.payload ++ t) (images-snoc es e)
    ∙ sym (append_assoc (record_image x.head x.payload) (images es) (record_image e.head e.payload))

Leaves-cons :
    (es : List Entry) (e : Entry) (free free' : ℕ) (w : ChunkWriter) (more : List Entry)
    → EntryFits e
    → length (images (es ++ (e ∷ []))) + free' ≡ length (images es) + free
    → Leaves (es ++ (e ∷ [])) free' w more
    → Leaves es free w (e ∷ more)
Leaves-cons es e free free' w more ok same l =
    let regroup : (es ++ (e ∷ [])) ++ more ≡ es ++ (e ∷ more) = append_assoc es (e ∷ []) more in
    record {
      left = l.left;
      holds = rw (← regroup) l.holds;
      fit = (ok, l.fit);
      size = ap (λ t. length (images t) + l.left) (sym regroup) ∙ l.size ∙ same;
    }

pub entry_of-EntryFits :
    (seq : ℕ) (r : Request)
    → RequestFits r
    → length r.payload < 2 ^ 16
    → seq < 2 ^ 16
    → EntryFits (entry_of seq r)
entry_of-EntryFits seq r ok small bound = record {
  head_fits = omega arith;
  length_fits = omega arith;
}

-- The lemma behind the round trip, for a chunk that holds some records already.
put_each-Leaves :
    (rs : List Request) (w : ChunkWriter) (es : List Entry) (free : ℕ)
    → Holds w (images es) free
    → w.sequence < 2 ^ 16
    → All RequestFits rs
    → Leaves es free (put_each w rs).0 (numbered w.sequence (select rs (put_each w rs).1))
unfolding put_each
put_each-Leaves [] w es free v seq ok = record {
  left = free;
  holds = rw (append-nil es) v;
  fit = tt;
  size = ap (λ t. length (images t) + free) (append-nil es);
}
put_each-Leaves (r ∷ rs) w es free v seq (ok, oks) = elim (size_cases (length r.payload) free) [
  | inr no_room ↦
      rw (put_one_refused r v no_room, put_each) (put_each-Leaves rs w es free v seq oks)
  | inl (small, fits) ↦
      let e = entry_of w.sequence r in
      let free' = free - (8 + padded_payload (length r.payload)) in
      let more = after_put w (images es) free r.kind r.flags r.payload in
      let same = images-snoc es e in
      let size =
        ap length same
        ∙ length-append (images es) (record_image e.head e.payload)
        ∙ ap (λ t. length (images es) + t) (length-record_image e.head e.payload small) in
      rw (put_one_taken r v small fits, put_each)
        (Leaves-cons es e free free' (put_each more rs).0
          (numbered ((w.sequence + 1) % 2 ^ 16) (select rs (put_each more rs).1))
          (entry_of-EntryFits w.sequence r ok small seq) (omega (arith, size))
          (put_each-Leaves rs more (es ++ (e ∷ [])) free'
            (rw same (after_put-Holds r.kind r.flags r.payload v small fits)) (omega arith) oks))
]

pub zeros-Holds :
    (n : ℕ) → n % 8 ≡ 0 → n < 2 ^ 32 → Holds (fresh_writer (replicate n 0)) (images []) n
zeros-Holds n even small = record {
  split = refl;
  cursor = refl;
  aligned = omega arith;
  free_aligned = even;
  small = omega arith;
}

-- Whatever records a thread asks a fresh chunk for, the reader finds, wherever the chunk's body
-- stands in an image, exactly those that the chunk took: in order, numbered from 0, with kind,
-- flags and payload as requested; and it counts exactly the writer's remaining bytes as unwritten.
-- The body is a multiple of eight below 2^32, it ends below 2^63, kinds and flags are bytes, and
-- the counter is a 64-bit number.
pub visit_body-put_each :
    (n : ℕ) (rs : List Request) (front rest : Bytes) (index owner : ℕ) (s : Visited)
    → n % 8 ≡ 0
    → n < 2 ^ 32
    → length front + n < 2 ^ 63
    → All RequestFits rs
    → s.unwritten_bytes < 2 ^ 64
    → let (w, taken) = put_each (fresh_writer (replicate n 0)) rs in
      visit_body (front ++ (w.body ++ rest)) index owner (length front + n) (length front) s
      ≡ some (seen_body index owner (length front) (numbered 0 (select rs taken)) (remaining w) s)
visit_body-put_each n rs front rest index owner s even small bound ok room =
    let first = fresh_writer (replicate n 0) in
    let w = (put_each first rs).0 in
    let found = numbered 0 (select rs (put_each first rs).1) in
    let l : Leaves [] n w found =
      put_each-Leaves rs first [] n (zeros-Holds n even (omega arith)) (omega arith) ok in
    let read =
      visit_body-images found front rest l.left index owner s l.fit l.holds.free_aligned
        (omega (arith, l.size)) room in
    ap (λ t. visit_body (front ++ (t ++ rest)) index owner (length front + n) (length front) s)
      l.holds.split
    ∙ ap (λ t. visit_body (front ++ t) index owner (length front + n) (length front) s)
        (append_assoc (images found) (replicate l.left 0) rest)
    ∙ ap
        (λ t.
          visit_body (front ++ (images found ++ (replicate l.left 0 ++ rest))) index owner t
            (length front) s)
        (omega (arith, l.size))
    ∙ read
    ∙ ap (λ t. some (seen_body index owner (length front) found t s))
        (sym (remaining-Holds l.holds))
