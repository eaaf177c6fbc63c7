-- ===== src/Chunk/Layout.antt =====
-- What the record protocol of include/sub0log/chunk.hpp leaves in the chunk's memory.
use sub0log.Common.{
  ℕ, ◌+◌, ◌-◌, ◌%◌, ◌^◌, ◌≤◌, ◌<◌, ◌≡◌, refl, sym, ap, ◌∙◌, arith, none, some, ◌++◌, length,
  length-append, Bool-cases, ltb, inl, inr, append_assoc, ltb→le, replicate, replicate-add,
  length-replicate,
}
use sub0log.Common.Bytes.{Bytes, le_bytes, store, store-append}
use sub0log.Wire.{padded_payload}
use sub0log.Wire.Padding.{padded_payload_eq}
use sub0log.Wire.Head.{RecordHead, pack}
use sub0log.Chunk.{ChunkWriter, Reservation, remaining, reserve, put_record, finish_record}

-- The bytes of one committed record: head word, payload, and padding that was never written.
unfoldable pub record_image : RecordHead → Bytes → Bytes
record_image head payload =
    le_bytes 8 (pack head)
    ++ (payload ++ replicate (padded_payload (length payload) - length payload) 0)

-- The chunk's memory is cut by the cursor into `written` bytes and zeros; both are aligned.
pub record Holds (w : ChunkWriter) (written : Bytes) (free : ℕ) : Type 0 where
  pub split : w.body ≡ written ++ replicate free 0
  pub cursor : w.offset ≡ length written
  pub aligned : length written % 8 ≡ 0
  pub free_aligned : free % 8 ≡ 0
  pub small : length written + free < 2 ^ 32

Holds-length :
    {w : ChunkWriter} {written : Bytes} {free : ℕ}
    → Holds w written free
    → length w.body ≡ length written + free
Holds-length {w} {written} {free} v =
    ap length v.split
    ∙ length-append written (replicate free 0)
    ∙ ap (λ t. length written + t) (length-replicate {A = ℕ} free 0)

-- The free space is what `remaining` reports.
pub remaining-Holds :
    {w : ChunkWriter} {written : Bytes} {free : ℕ} → Holds w written free → remaining w ≡ free
unfolding remaining
remaining-Holds {w} v = ground (arith, Holds-length v)

-- Payload first, head word last: two stores turn free zeros into a record and fewer zeros.
store_record :
    (written payload word : Bytes) (free pad left : ℕ)
    → length word ≡ 8
    → free ≡ 8 + (length payload + (pad + left))
    → store (store (written ++ replicate free 0) (length written + 8) payload) (length written) word
      ≡ (written ++ (word ++ (payload ++ replicate pad 0))) ++ replicate left 0
store_record written payload word free pad left hw e =
    ap (λ t. store (store t (length written + 8) payload) (length written) word) before
    ∙ ap (λ t. store t (length written) word) middle
    ∙ after
    ∙ regroup
  where
    tail_zeros : Bytes
    tail_zeros = replicate (pad + left) 0

    before :
        written ++ replicate free 0
        ≡ (written ++ replicate 8 0) ++ (replicate (length payload) 0 ++ tail_zeros)
    before = rw e (
        ap (λ t. written ++ t)
          (replicate-add 8 (length payload + (pad + left)) 0
            ∙ ap (λ t. replicate 8 0 ++ t) (replicate-add (length payload) (pad + left) 0))
        ∙ sym (append_assoc written (replicate 8 0) (replicate (length payload) 0 ++ tail_zeros)))

    middle :
        store
          ((written ++ replicate 8 0) ++ (replicate (length payload) 0 ++ tail_zeros))
          (length written + 8)
          payload
        ≡ written ++ (replicate 8 0 ++ (payload ++ tail_zeros))
    middle =
        store-append (written ++ replicate 8 0) (replicate (length payload) 0) payload tail_zeros
          (length written + 8) (sym (length-append written (replicate 8 0)))
          (sym (length-replicate (length payload) 0))
        ∙ append_assoc written (replicate 8 0) (payload ++ tail_zeros)

    after :
        store (written ++ (replicate 8 0 ++ (payload ++ tail_zeros))) (length written) word
        ≡ written ++ (word ++ (payload ++ tail_zeros))
    after =
        store-append written (replicate 8 0) word (payload ++ tail_zeros) (length written) refl hw

    regroup :
        written ++ (word ++ (payload ++ tail_zeros))
        ≡ (written ++ (word ++ (payload ++ replicate pad 0))) ++ replicate left 0
    regroup =
        ap (λ t. written ++ (word ++ (payload ++ t))) (replicate-add pad left 0) ∙ simp append_assoc

-- The head word that `put_record` commits.
abbrev pub head_of : ChunkWriter → ℕ → ℕ → Bytes → RecordHead
head_of w kind flags payload = record {
  payload_bytes = length payload % 2 ^ 16;
  kind = kind;
  flags = flags;
  sequence = w.sequence;
}

-- The writer after a record was put.
abbrev pub after_put : ChunkWriter → Bytes → ℕ → ℕ → ℕ → Bytes → ChunkWriter
after_put w written free kind flags payload = record {
  body =
      (written ++ record_image (head_of w kind flags payload) payload)
      ++ replicate (free - (8 + padded_payload (length payload))) 0;
  offset = length written + (8 + padded_payload (length payload));
  sequence = (w.sequence + 1) % 2 ^ 16;
}

-- The state of a writer that has reserved `n` bytes of payload.
abbrev pub after_reserve : ChunkWriter → ℕ → ChunkWriter
after_reserve w n = record w {
  offset = w.offset + (8 + padded_payload n);
  sequence = (w.sequence + 1) % 2 ^ 16;
}

-- Where the next record goes.
abbrev pub next_slot : ChunkWriter → Reservation
next_slot w = record { payload = w.offset + 8; head_word = w.offset; sequence = w.sequence }

pub reserve_fits :
    {w : ChunkWriter} {written : Bytes} {free : ℕ} (n : ℕ)
    → Holds w written free
    → n < 2 ^ 16
    → 8 + padded_payload n ≤ free
    → reserve w n ≡ (some (next_slot w), after_reserve w n)
unfolding reserve
reserve_fits {w} {written} {free} n v small fits =
    ground (arith, remaining-Holds v, Holds-length v, padded_payload_eq n (omega arith))

-- A reservation that does not fit, or whose length the head word cannot carry, leaves the writer
-- as it was.
pub reserve_refused :
    {w : ChunkWriter} {written : Bytes} {free : ℕ} (n : ℕ)
    → Holds w written free
    → (n < 2 ^ 16 → free < 8 + padded_payload n)
    → reserve w n ≡ (none, w)
unfolding reserve
reserve_refused {w} {written} {free} n v no_room = elim (Bool-cases (ltb 0xFFFF n)) [
  | inl big ↦ rw big
  | inr fits ↦
      let lt : n < 2 ^ 16 = omega (arith, ltb→le 0xFFFF n fits) in
      ground (arith, remaining-Holds v, padded_payload_eq n (omega arith), no_room lt)
]

pub put_record_fits :
    {w : ChunkWriter} {written : Bytes} {free : ℕ} (kind flags : ℕ) (payload : Bytes)
    → Holds w written free
    → length payload < 2 ^ 16
    → 8 + padded_payload (length payload) ≤ free
    → put_record w kind flags payload
      ≡ some (next_slot w, after_put w written free kind flags payload)
unfolding put_record finish_record record_image
put_record_fits {w} {written} {free} kind flags payload v small fits =
    let n = length payload in
    ap (finish_record kind flags payload) (reserve_fits n v small fits) ∙ (λ i. some (
      next_slot w,
      record {
        body = memory i;
        offset = (ap (λ t. t + (8 + padded_payload n)) v.cursor) i;
        sequence = (w.sequence + 1) % 2 ^ 16;
      },
    ))
  where
    word : Bytes
    word = le_bytes 8 (pack (head_of w kind flags payload))

    memory :
        store (store w.body (w.offset + 8) payload) w.offset word
        ≡ (written
            ++ (word
                ++ (payload ++ replicate (padded_payload (length payload) - length payload) 0)))
          ++ replicate (free - (8 + padded_payload (length payload))) 0
    memory =
        rw (v.split, v.cursor)
          (store_record written payload word free (padded_payload (length payload) - length payload)
            (free - (8 + padded_payload (length payload))) refl
            (omega (arith, padded_payload_eq (length payload) (omega arith))))

pub length-record_image :
    (head : RecordHead) (payload : Bytes)
    → length payload < 2 ^ 16
    → length (record_image head payload) ≡ 8 + padded_payload (length payload)
unfolding record_image
length-record_image head payload small =
    let pad = padded_payload (length payload) - length payload in
    length-append (le_bytes 8 (pack head)) (payload ++ replicate pad 0)
    ∙ ap (λ t. 8 + t)
        (length-append payload (replicate pad 0)
          ∙ ap (λ t. length payload + t) (length-replicate {A = ℕ} pad 0))
    ∙ omega (arith, padded_payload_eq (length payload) (omega arith))

-- A record that was put extends the written part by its image, and the writer stays well formed.
pub after_put-Holds :
    {w : ChunkWriter} {written : Bytes} {free : ℕ} (kind flags : ℕ) (payload : Bytes)
    → Holds w written free
    → length payload < 2 ^ 16
    → 8 + padded_payload (length payload) ≤ free
    → Holds
        (after_put w written free kind flags payload)
        (written ++ record_image (head_of w kind flags payload) payload)
        (free - (8 + padded_payload (length payload)))
after_put-Holds {w} {written} {free} kind flags payload v small fits =
    let head = head_of w kind flags payload in
    let len = length-append written (record_image head payload) in
    let size = length-record_image head payload small in
    let even = padded_payload_eq (length payload) (omega arith) in
    record {
      split = refl;
      cursor = omega (arith, len, size);
      aligned = omega (arith, len, size, even);
      free_aligned = omega (arith, even);
      small = omega (arith, len, size, even);
    }
