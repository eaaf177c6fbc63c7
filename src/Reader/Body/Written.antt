-- ===== src/Reader/Body/Written.antt =====
-- A chunk body that holds written records and zeros, read by the inner loop of
-- `SegmentReader::visit` (include/sub0log/reader.hpp).
use sub0log.Common.{
  ℕ, zero, suc, ◌+◌, ◌-◌, ◌%◌, ◌^◌, ◌≤◌, ◌<◌, ◌≡◌, refl, sym, ap, ◌∙◌, arith, some, List, [], ◌∷◌,
  ◌++◌, length, length-append, append_assoc, append-nil, replicate, All,
}
use sub0log.Common.Bytes.{Bytes, le_bytes, view, view-append}
use sub0log.Common.Words.{add64}
use sub0log.Wire.{padded_payload}
use sub0log.Wire.Padding.{padded_payload_eq}
use sub0log.Wire.Head.{RecordHead, IsValid, pack, unpack, is_committed}
use sub0log.Wire.Head.RoundTrip.{unpack-pack, pack-lt, untagged_not_committed}
use sub0log.Chunk.Layout.{record_image, length-record_image}
use sub0log.Reader.Body.{
  RecordView, Visited, add_unwritten, add_record, load_head_word, leave, go_on, committed_round,
  body_round, body_loop, visit_body,
}
use sub0log.Reader.Body.Rounds.{
  body_round-end, body_round-blank, body_round-committed, committed_round-fits,
}
use sub0log.Reader.Body.Word.{load_head_word-le_bytes, load_head_word-zeros}

-- A record that a writer put: its head and its payload.
pub record Entry : Type 0 where
  pub head : RecordHead
  pub payload : Bytes

-- The head fits its word and carries the payload's length.
pub record EntryFits (e : Entry) : Type 0 where
  pub head_fits : IsValid e.head
  pub length_fits : e.head.payload_bytes ≡ length e.payload

abbrev pub entry_size : Entry → ℕ
entry_size e = 8 + padded_payload (length e.payload)

-- The bytes of records in a row.
abbrev pub images : List Entry → Bytes
images [] = []
images (e ∷ es) = record_image e.head e.payload ++ images es

-- What the callback is to see of a record at an offset.
abbrev pub view_at : ℕ → ℕ → ℕ → Entry → RecordView
view_at index owner at e = record {
  head = e.head;
  payload = e.payload;
  chunk_index = index;
  owner_thread = owner;
  record_offset = at;
}

abbrev pub views : ℕ → ℕ → ℕ → List Entry → List RecordView
views index owner at [] = []
views index owner at (e ∷ es) = view_at index owner at e ∷ views index owner (at + entry_size e) es

-- The loop, one record further.
round-record :
    (e : Entry) (front more : Bytes) (index owner body_end cursor : ℕ) (s : Visited)
    → EntryFits e
    → cursor ≡ length front
    → cursor + entry_size e ≤ body_end
    → body_end < 2 ^ 63
    → body_round (front ++ (record_image e.head e.payload ++ more)) index owner body_end cursor s
      ≡ go_on (cursor + entry_size e) (add_record s (view_at index owner cursor e))
unfolding record_image
round-record e front more index owner body_end cursor s v at room bound =
    let word = pack e.head in
    let n = length e.payload in
    let padding : Bytes = replicate (padded_payload n - n) 0 in
    let image = front ++ (record_image e.head e.payload ++ more) in
    let size = padded_payload_eq n (omega arith) in
    let laid : image ≡ front ++ (le_bytes 8 word ++ ((e.payload ++ padding) ++ more)) =
      ap (λ t. front ++ t) (append_assoc (le_bytes 8 word) (e.payload ++ padding) more) in
    let found : load_head_word image cursor ≡ word =
      ap (λ t. load_head_word t cursor) laid
      ∙ load_head_word-le_bytes front ((e.payload ++ padding) ++ more) word cursor at
          (pack-lt e.head v.head_fits) in
    let (back, tagged) = unpack-pack e.head v.head_fits in
    let seen : view image (cursor + 8) e.head.payload_bytes ≡ e.payload =
      ap (λ t. view t (cursor + 8) e.head.payload_bytes)
        (laid
          ∙ sym (append_assoc front (le_bytes 8 word) ((e.payload ++ padding) ++ more))
          ∙ ap (λ t. (front ++ le_bytes 8 word) ++ t) (append_assoc e.payload padding more))
      ∙ view-append e.head.payload_bytes (front ++ le_bytes 8 word) e.payload (padding ++ more)
          (cursor + 8) (omega (arith, length-append front (le_bytes 8 word))) v.length_fits in
    body_round-committed image index owner body_end cursor s (omega (arith, size))
      (ap is_committed found ∙ tagged)
    ∙ ap (λ t. committed_round image index owner body_end cursor t s) (ap unpack found ∙ back)
    ∙ committed_round-fits image index owner body_end cursor s e.head bound v.head_fits.payload_fits
        (omega (arith, size, v.length_fits))
    ∙ (λ i. go_on (cursor + (8 + padded_payload (v.length_fits i))) (
        add_record s (record {
          head = e.head;
          payload = seen i;
          chunk_index = index;
          owner_thread = owner;
          record_offset = cursor;
        })))

-- The loop at the free space behind the last record, which holds one head word at least.
round-free :
    (front rest : Bytes) (free index owner body_end cursor : ℕ) (s : Visited)
    → cursor ≡ length front
    → body_end ≡ cursor + free
    → 8 ≤ free
    → body_round (front ++ (replicate free 0 ++ rest)) index owner body_end cursor s
      ≡ leave (add_unwritten s free)
round-free front rest free index owner body_end cursor s at end room =
    let left : body_end - cursor ≡ free = omega arith in
    body_round-blank (front ++ (replicate free 0 ++ rest)) index owner body_end cursor s
      (omega arith) (load_head_word-zeros front rest free cursor at room)
      (untagged_not_committed 0 (omega arith))
    ∙ ap (λ t. leave (add_unwritten s t)) left

loop_leaves :
    (fuel : ℕ) (image : Bytes) (index owner body_end cursor : ℕ) (s : Visited) {s' : Visited}
    → body_round image index owner body_end cursor s ≡ leave s'
    → body_loop (suc fuel) image index owner body_end cursor s ≡ some s'
unfolding body_loop
loop_leaves fuel image index owner body_end cursor s e = rw (e, body_loop)

loop_goes_on :
    (fuel : ℕ) (image : Bytes) (index owner body_end cursor : ℕ) (s : Visited) {next : ℕ}
    {s' : Visited}
    → body_round image index owner body_end cursor s ≡ go_on next s'
    → body_loop (suc fuel) image index owner body_end cursor s
      ≡ body_loop fuel image index owner body_end next s'
unfolding body_loop
loop_goes_on fuel image index owner body_end cursor s e = rw (e, body_loop)

free-loop :
    (fuel : ℕ) (front rest : Bytes) (free index owner body_end cursor : ℕ) (s : Visited)
    → cursor ≡ length front
    → body_end ≡ cursor + free
    → s.unwritten_bytes < 2 ^ 64
    → free % 8 ≡ 0
    → body_loop (suc fuel) (front ++ (replicate free 0 ++ rest)) index owner body_end cursor s
      ≡ some (add_unwritten s free)
free-loop fuel front rest zero index owner body_end cursor s at end room even =
    let same : add64 s.unwritten_bytes 0 ≡ s.unwritten_bytes = omega arith in
    rw same (
      loop_leaves fuel (front ++ rest) index owner body_end cursor s
        (body_round-end (front ++ rest) index owner body_end cursor s (omega arith)))
free-loop fuel front rest (suc free) index owner body_end cursor s at end room even =
    loop_leaves fuel (front ++ (replicate (suc free) 0 ++ rest)) index owner body_end cursor s
      (round-free front rest (suc free) index owner body_end cursor s at end (omega arith))

-- What a walk over records and free space adds to the state.
abbrev pub seen_body : ℕ → ℕ → ℕ → List Entry → ℕ → Visited → Visited
seen_body index owner at es free s = record s {
  records = s.records ++ views index owner at es;
  unwritten_bytes = add64 s.unwritten_bytes free;
}

entry_length : (e : Entry) → EntryFits e → length (record_image e.head e.payload) ≡ entry_size e
entry_length e v =
    length-record_image e.head e.payload (omega (arith, v.length_fits, v.head_fits.payload_fits))

body_loop-images :
    (es : List Entry) (fuel : ℕ) (front rest : Bytes) (free index owner body_end cursor : ℕ)
    (s : Visited)
    → All EntryFits es
    → cursor ≡ length front
    → body_end ≡ cursor + (length (images es) + free)
    → body_end < 2 ^ 63
    → free % 8 ≡ 0
    → s.unwritten_bytes < 2 ^ 64
    → length (images es) ≤ fuel
    → body_loop
        (suc fuel)
        (front ++ (images es ++ (replicate free 0 ++ rest)))
        index
        owner
        body_end
        cursor
        s
      ≡ some (seen_body index owner cursor es free s)
body_loop-images [] fuel front rest free index owner body_end cursor s v at end bound even room f =
    free-loop fuel front rest free index owner body_end cursor s at (omega arith) room even ∙ (λ i.
      some (record s {
        records = sym (append-nil s.records) i;
        unwritten_bytes = add64 s.unwritten_bytes free;
      }))
body_loop-images (e ∷ es) zero front rest free index owner body_end cursor s (v, vs) at end bound
      even room f =
    absurd
      (omega (arith, length-append (record_image e.head e.payload) (images es), entry_length e v))
body_loop-images (e ∷ es) (suc fuel) front rest free index owner body_end cursor s (v, vs) at end
      bound even room f =
    let this = record_image e.head e.payload in
    let tail : Bytes = replicate free 0 ++ rest in
    let len = length-append this (images es) in
    let size = entry_length e v in
    let s' = add_record s (view_at index owner cursor e) in
    ap (λ t. body_loop (suc (suc fuel)) (front ++ t) index owner body_end cursor s)
      (append_assoc this (images es) tail)
    ∙ loop_goes_on (suc fuel) (front ++ (this ++ (images es ++ tail))) index owner body_end cursor s
        (round-record e front (images es ++ tail) index owner body_end cursor s v at
          (omega (arith, len, size)) bound)
    ∙ ap (λ t. body_loop (suc fuel) t index owner body_end (cursor + entry_size e) s')
        (sym (append_assoc front this (images es ++ tail)))
    ∙ body_loop-images es fuel (front ++ this) rest free index owner body_end
        (cursor + entry_size e) s' vs (omega (arith, length-append front this, size))
        (omega (arith, len, size)) bound even room (omega (arith, len, size))
    ∙ (λ i. some (record s {
      records =
          append_assoc s.records (view_at index owner cursor e ∷ [])
            (views index owner (cursor + entry_size e) es) i;
      unwritten_bytes = add64 s.unwritten_bytes free;
    }))

-- A chunk body that holds whole, valid records and then unwritten space in multiples of eight,
-- wherever it stands below 2^63 in an image, is read without loss: the callback sees exactly those
-- records in order, each with the head and the payload that was written and its own offset, and
-- only the space behind them counts as unwritten.
pub visit_body-images :
    (es : List Entry) (front rest : Bytes) (free index owner : ℕ) (s : Visited)
    → All EntryFits es
    → free % 8 ≡ 0
    → length front + (length (images es) + free) < 2 ^ 63
    → s.unwritten_bytes < 2 ^ 64
    → visit_body
        (front ++ (images es ++ (replicate free 0 ++ rest)))
        index
        owner
        (length front + (length (images es) + free))
        (length front)
        s
      ≡ some (seen_body index owner (length front) es free s)
unfolding visit_body
visit_body-images es front rest free index owner s v even bound room =
    let body_end = length front + (length (images es) + free) in
    body_loop-images es (body_end - length front) front rest free index owner body_end
      (length front) s v refl refl bound even room (omega arith)
