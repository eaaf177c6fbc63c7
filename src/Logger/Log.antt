-- ===== src/Logger/Log.antt =====
-- What the reader (include/sub0log/reader.hpp) finds in the chunks that a thread has written through
-- a Logger (include/sub0log/instance.hpp).
use sub0log.Common.{
  ℕ, ◌+◌, ◌-◌, ◌%◌, ◌^◌, ◌≤◌, ◌<◌, ◌≡◌, refl, sym, ap, ◌∙◌, arith, Option, none, some, List, [],
  ◌∷◌, ◌++◌, map, append-nil, length, length-append, length-replicate, replicate, All,
}
use sub0log.Common.Bytes.{Bytes}
use sub0log.Wire.{padded_payload}
use sub0log.Chunk.{ChunkWriter, Reservation, fresh_writer, reserve, finish_record, put_record}
use sub0log.Chunk.Layout.{
  Holds, after_put, after_reserve, next_slot, after_put-Holds, reserve_fits, reserve_refused,
  put_record_fits,
}
use sub0log.Reader.Body.{RecordView, Visited, visit_body}
use sub0log.Reader.Body.Written.{Entry, EntryFits, images, views, visit_body-images}
use sub0log.Protocol.{Request, RequestFits, entry_of, images-snoc, entry_of-EntryFits, zeros-Holds}
use sub0log.Logger.{Producer, commit_to}

abbrev pub request_of : RecordView → Request
request_of v = record { kind = v.head.kind; flags = v.head.flags; payload = v.payload }

abbrev pub found : Option Visited → List Request
found none = []
found (some v) = map request_of v.records

abbrev pub nothing_yet : Visited
nothing_yet = record { records = []; unreadable_bytes = 0; unwritten_bytes = 0 }

-- The records that the reader finds in a chunk's body, by kind, flags and payload.
unfoldable pub records_of : ChunkWriter → List Request
records_of w = found (
    visit_body w.body 0 0 (length w.body) 0
      (record { records = []; unreadable_bytes = 0; unwritten_bytes = 0 }))

-- In the chunks of a thread, newest first.
unfoldable pub log_of : List ChunkWriter → List Request
log_of [] = []
log_of (w ∷ ws) = log_of ws ++ records_of w

abbrev pub log : Producer → List Request
log s = log_of (s.cache.writer ∷ s.left)

-- A chunk that holds exactly the records `es`.
pub record Filled (w : ChunkWriter) (es : List Entry) : Type 0 where
  pub free : ℕ
  pub holds : Holds w (images es) free
  pub fit : All EntryFits es
  pub numbered : w.sequence < 2 ^ 16

abbrev pub request_of_entry : Entry → Request
request_of_entry e = record { kind = e.head.kind; flags = e.head.flags; payload = e.payload }

requests-views :
    (es : List Entry) (index owner at : ℕ)
    → map request_of (views index owner at es) ≡ map request_of_entry es
requests-views [] index owner at = refl
requests-views (e ∷ es) index owner at =
    ap (λ t. request_of_entry e ∷ t) (requests-views es index owner _)

pub records_of-Filled :
    {w : ChunkWriter} {es : List Entry} → Filled w es → records_of w ≡ map request_of_entry es
unfolding records_of
records_of-Filled {w} {es} f =
    let none_yet : Visited = record { records = []; unreadable_bytes = 0; unwritten_bytes = 0 } in
    let size : length w.body ≡ 0 + (length (images es) + f.free) =
      ap length f.holds.split
      ∙ length-append (images es) (replicate f.free 0)
      ∙ omega (arith, length-replicate {A = ℕ} f.free 0) in
    let laid : w.body ≡ images es ++ (replicate f.free 0 ++ []) =
      f.holds.split ∙ ap (λ t. images es ++ t) (sym (append-nil (replicate f.free 0))) in
    ap (λ t. found (visit_body w.body 0 0 t 0 none_yet)) size
    ∙ ap (λ t. found (visit_body t 0 0 (0 + (length (images es) + f.free)) 0 none_yet)) laid
    ∙ ap found (
        visit_body-images es [] [] f.free 0 0 none_yet f.fit f.holds.free_aligned
          (omega (arith, f.holds.small)) (omega arith))
    ∙ requests-views es 0 0 0

pub map-snoc :
    (es : List Entry) (e : Entry)
    → map request_of_entry (es ++ (e ∷ [])) ≡ map request_of_entry es ++ (request_of_entry e ∷ [])
map-snoc [] e = refl
map-snoc (x ∷ es) e = ap (λ t. request_of_entry x ∷ t) (map-snoc es e)

-- A chunk of zeros holds nothing.
pub Filled-zeros : (n : ℕ) → n % 8 ≡ 0 → n < 2 ^ 32 → Filled (fresh_writer (replicate n 0)) []
Filled-zeros n even small = record {
  free = n;
  holds = zeros-Holds n even small;
  fit = tt;
  numbered = omega arith;
}

-- A record is reserved and committed, or it does not fit and the chunk stays as it was.
abbrev pub Taken : ChunkWriter → Request → Type 0
Taken w r =
    (slot : Reservation) × (w' : ChunkWriter) × (reserve w (length r.payload) ≡ (some slot, w'))
    × (length r.payload < 2 ^ 16)
    × ((es : List Entry) × Filled
          (commit_to w' (finish_record r.kind r.flags r.payload (some slot, w'))) es
        × (records_of (commit_to w' (finish_record r.kind r.flags r.payload (some slot, w')))
            ≡ records_of w ++ (r ∷ [])))

-- What keeps a payload of `n` bytes out of a chunk with `free` bytes left.
abbrev pub NoRoom : ℕ → ℕ → Type 0
NoRoom free n = n < 2 ^ 16 → free < 8 + padded_payload n

Filled-taken :
    (w : ChunkWriter) (es : List Entry) (r : Request) (f : Filled w es)
    → RequestFits r
    → length r.payload < 2 ^ 16
    → 8 + padded_payload (length r.payload) ≤ f.free
    → Filled
        (after_put w (images es) f.free r.kind r.flags r.payload)
        (es ++ (entry_of w.sequence r ∷ []))
Filled-taken w es r f ok small fits =
    let e = entry_of w.sequence r in
    record {
      free = f.free - (8 + padded_payload (length r.payload));
      holds = rw (images-snoc es e) (after_put-Holds r.kind r.flags r.payload f.holds small fits);
      fit = All-snoc es e f.fit (entry_of-EntryFits w.sequence r ok small f.numbered);
      numbered = omega arith;
    }
  where
    All-snoc :
        (xs : List Entry) (x : Entry)
        → All EntryFits xs
        → EntryFits x
        → All EntryFits (xs ++ (x ∷ []))
    All-snoc [] x h k = (k, tt)
    All-snoc (y ∷ xs) x (a, h) k = (a, All-snoc xs x h k)

committed_writer :
    (w : ChunkWriter) (es : List Entry) (r : Request) (f : Filled w es)
    → length r.payload < 2 ^ 16
    → 8 + padded_payload (length r.payload) ≤ f.free
    → commit_to (after_reserve w (length r.payload)) (
        finish_record r.kind r.flags r.payload
          (some (next_slot w), after_reserve w (length r.payload)))
      ≡ after_put w (images es) f.free r.kind r.flags r.payload
unfolding commit_to finish_record put_record
committed_writer w es r f small fits =
    let n = length r.payload in
    ap (λ t. commit_to (after_reserve w n) (finish_record r.kind r.flags r.payload t))
      (sym (reserve_fits n f.holds small fits))
    ∙ ap (commit_to (after_reserve w n))
        (put_record_fits r.kind r.flags r.payload f.holds small fits)

pub Filled-Taken :
    (w : ChunkWriter) (es : List Entry) (r : Request) (f : Filled w es)
    → RequestFits r
    → length r.payload < 2 ^ 16
    → 8 + padded_payload (length r.payload) ≤ f.free
    → Taken w r
Filled-Taken w es r f ok small fits =
    let e = entry_of w.sequence r in
    let same = committed_writer w es r f small fits in
    let filled = Filled-taken w es r f ok small fits in
    (
      next_slot w,
      after_reserve w (length r.payload),
      reserve_fits (length r.payload) f.holds small fits,
      small,
      (
        es ++ (e ∷ []),
        rw same filled,
        ap records_of same
            ∙ records_of-Filled filled
            ∙ map-snoc es e
            ∙ ap (λ t. t ++ (r ∷ [])) (sym (records_of-Filled f)),
      ),
    )

pub Filled-refused :
    (w : ChunkWriter) (es : List Entry) (n : ℕ) (f : Filled w es)
    → NoRoom f.free n
    → reserve w n ≡ (none, w)
Filled-refused w es n f no_room = reserve_refused n f.holds no_room
