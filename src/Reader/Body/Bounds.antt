-- ===== src/Reader/Body/Bounds.antt =====
-- The inner loop of `SegmentReader::visit` (include/sub0log/reader.hpp) on any bytes: it ends, stays
-- inside its chunk, and accounts for no byte twice.
use sub0log.Common.{
  ℕ, zero, suc, ◌+◌, ◌-◌, ◌^◌, ◌≤◌, ◌<◌, ◌≡◌, refl, sym, ap, ◌∙◌, arith, true, some, List, [], ◌∷◌,
  ◌++◌, append_assoc, append-nil, All, ◌⊎◌, inl, inr, Bool-cases, ltb, ◌==◌, ltb→lt, ltb→le, ==_iff,
}
use sub0log.Common.Bytes.{Bytes, view}
use sub0log.Common.Words.{add64}
use sub0log.Wire.{padded_payload}
use sub0log.Wire.Padding.{padded_payload_eq}
use sub0log.Wire.Head.{unpack, is_committed, unpack_fields}
use sub0log.Wire.Head.RoundTrip.{untagged_not_committed}
use sub0log.Reader.Body.{
  RecordView, Visited, add_unwritten, add_unreadable, add_record, load_head_word, leave, go_on,
  body_round, body_loop, visit_body,
}
use sub0log.Reader.Body.Rounds.{
  body_round-end, body_round-short, body_round-blank, body_round-torn, body_round-committed,
  committed_round-fits, committed_round-too_long,
}

-- A view given to the callback is a committed record that lies in `[lo, hi)` of the image.
pub record InChunk (image : Bytes) (lo hi : ℕ) (v : RecordView) : Type 0 where
  pub from : lo ≤ v.record_offset
  pub below : v.record_offset + 8 + v.head.payload_bytes ≤ hi
  pub committed : is_committed (load_head_word image v.record_offset) ≡ true
  pub decoded : v.head ≡ unpack (load_head_word image v.record_offset)
  pub viewed : v.payload ≡ view image (v.record_offset + 8) v.head.payload_bytes

-- The bytes of records: head words and payloads.
abbrev pub record_total : List RecordView → ℕ
record_total [] = 0
record_total (v ∷ vs) = 8 + v.head.payload_bytes + record_total vs

-- What a walk of `[lo, hi)` adds to a state.
pub record Walked (image : Bytes) (lo hi : ℕ) (s s' : Visited) : Type 0 where
  pub found : List RecordView
  pub unreadable : ℕ
  pub unwritten : ℕ
  pub records : s'.records ≡ s.records ++ found
  pub damage : s'.unreadable_bytes ≡ s.unreadable_bytes + unreadable
  pub space : s'.unwritten_bytes ≡ s.unwritten_bytes + unwritten
  pub sound : All (InChunk image lo hi) found
  pub total : unreadable + unwritten + record_total found ≤ hi - lo

-- Room in the counters.
pub record Room (lo hi : ℕ) (s : Visited) : Type 0 where
  pub damage_room : s.unreadable_bytes + (hi - lo) < 2 ^ 64
  pub space_room : s.unwritten_bytes + (hi - lo) < 2 ^ 64

module _ (image : Bytes) (index owner body_end : ℕ) (bound : body_end < 2 ^ 63) where
  -- A round ends the loop and adds up to the rest of the chunk to one counter, or it finds a record.
  record Stops (cursor : ℕ) (s : Visited) : Type 0 where
    unreadable : ℕ
    unwritten : ℕ
    within : unreadable + unwritten ≤ body_end - cursor
    stops :
        body_round image index owner body_end cursor s
        ≡ leave (record s {
          unreadable_bytes = s.unreadable_bytes + unreadable;
          unwritten_bytes = s.unwritten_bytes + unwritten;
        })

  record Finds (cursor : ℕ) (s : Visited) : Type 0 where
    seen : RecordView
    offset : seen.record_offset ≡ cursor
    sound : InChunk image cursor body_end seen
    small : seen.head.payload_bytes < 2 ^ 16
    goes_on :
        body_round image index owner body_end cursor s
        ≡ go_on (cursor + (8 + padded_payload seen.head.payload_bytes)) (add_record s seen)

  stop_damage :
      (cursor : ℕ) (s : Visited)
      → Room cursor body_end s
      → body_round image index owner body_end cursor s
        ≡ leave (add_unreadable s (body_end - cursor))
      → Stops cursor s
  stop_damage cursor s r e = record {
    unreadable = body_end - cursor;
    unwritten = 0;
    within = omega arith;
    stops = e ∙ (λ i. leave (record s {
      unreadable_bytes =
          (let p : add64 s.unreadable_bytes (body_end - cursor)
                ≡ s.unreadable_bytes + (body_end - cursor) =
              omega (arith, r.damage_room) in
            p i);
      unwritten_bytes = (let p : s.unwritten_bytes ≡ s.unwritten_bytes + 0 = omega arith in p i);
    }));
  }

  stop_space :
      (cursor : ℕ) (s : Visited)
      → Room cursor body_end s
      → body_round image index owner body_end cursor s ≡ leave (add_unwritten s (body_end - cursor))
      → Stops cursor s
  stop_space cursor s r e = record {
    unreadable = 0;
    unwritten = body_end - cursor;
    within = omega arith;
    stops = e ∙ (λ i. leave (record s {
      unreadable_bytes = (let p : s.unreadable_bytes ≡ s.unreadable_bytes + 0 = omega arith in p i);
      unwritten_bytes =
          (let p : add64 s.unwritten_bytes (body_end - cursor)
                ≡ s.unwritten_bytes + (body_end - cursor) =
              omega (arith, r.space_room) in
            p i);
    }));
  }

  stop_end : (cursor : ℕ) (s : Visited) → body_end ≤ cursor → Stops cursor s
  stop_end cursor s h = record {
    unreadable = 0;
    unwritten = 0;
    within = omega arith;
    stops = body_round-end image index owner body_end cursor s h ∙ (λ i. leave (record s {
      unreadable_bytes = (let p : s.unreadable_bytes ≡ s.unreadable_bytes + 0 = omega arith in p i);
      unwritten_bytes = (let p : s.unwritten_bytes ≡ s.unwritten_bytes + 0 = omega arith in p i);
    }));
  }

  find_committed :
      (cursor : ℕ) (s : Visited)
      → cursor + 8 ≤ body_end
      → Room cursor body_end s
      → is_committed (load_head_word image cursor) ≡ true
      → Stops cursor s ⊎ Finds cursor s
  find_committed cursor s fits r c =
      let head = unpack (load_head_word image cursor) in
      let small : head.payload_bytes < 2 ^ 16 =
        omega (arith, ap (λ t. t.payload_bytes) (unpack_fields (load_head_word image cursor))) in
      let enter = body_round-committed image index owner body_end cursor s fits c in
      elim (Bool-cases (ltb body_end (cursor + 8 + head.payload_bytes))) [
        | inl long ↦ inl (
            stop_damage cursor s r (
              enter
              ∙ committed_round-too_long image index owner body_end cursor s head bound fits
                  (ltb→lt body_end (cursor + 8 + head.payload_bytes) long)))
        | inr whole ↦
            let inside : cursor + 8 + head.payload_bytes ≤ body_end =
              ltb→le body_end (cursor + 8 + head.payload_bytes) whole in
            inr (record {
              seen = record {
                head = head;
                payload = view image (cursor + 8) head.payload_bytes;
                chunk_index = index;
                owner_thread = owner;
                record_offset = cursor;
              };
              offset = refl;
              sound = record {
                from = omega arith;
                below = inside;
                committed = c;
                decoded = refl;
                viewed = refl;
              };
              small = small;
              goes_on =
                  enter
                  ∙ committed_round-fits image index owner body_end cursor s head bound small
                      inside;
            })
      ]

  round_cases :
      (cursor : ℕ) (s : Visited) → Room cursor body_end s → Stops cursor s ⊎ Finds cursor s
  round_cases cursor s r = elim (Bool-cases (ltb cursor body_end)) [
    | inr done ↦ inl (stop_end cursor s (ltb→le cursor body_end done))
    | inl more ↦ elim (Bool-cases (ltb body_end (cursor + 8))) [
      | inl short ↦ inl (
          stop_space cursor s r (
            body_round-short image index owner body_end cursor s (ltb→lt cursor body_end more)
              (ltb→lt body_end (cursor + 8) short)))
      | inr long ↦
          let fits : cursor + 8 ≤ body_end = ltb→le body_end (cursor + 8) long in
          elim (Bool-cases (is_committed (load_head_word image cursor))) [
            | inl c ↦ find_committed cursor s fits r c
            | inr c ↦ elim (Bool-cases (load_head_word image cursor == 0)) [
              | inl z ↦ inl (
                  stop_space cursor s r (
                    body_round-blank image index owner body_end cursor s fits
                      ((==_iff (load_head_word image cursor) 0).0 z)
                      (untagged_not_committed 0 (omega arith))))
              | inr z ↦ inl (
                  stop_damage cursor s r (
                    body_round-torn image index owner body_end cursor s fits c
                      (λ e. cc ((==_iff (load_head_word image cursor) 0).1 e))))
            ]
          ]
    ]
  ]

  widen :
      (lo lo' : ℕ) (vs : List RecordView)
      → lo ≤ lo'
      → All (InChunk image lo' body_end) vs
      → All (InChunk image lo body_end) vs
  widen lo lo' [] h a = tt
  widen lo lo' (v ∷ vs) h (a, more) = (
    record {
      from = omega (arith, a.from);
      below = a.below;
      committed = a.committed;
      decoded = a.decoded;
      viewed = a.viewed;
    },
    widen lo lo' vs h more,
  )

  abbrev Walk : ℕ → ℕ → Visited → Type 0
  Walk fuel cursor s =
      (s' : Visited) × (body_loop fuel image index owner body_end cursor s ≡ some s')
      × Walked image cursor body_end s s'

  Walk-stop : (fuel cursor : ℕ) (s : Visited) → Stops cursor s → Walk (suc fuel) cursor s
  unfolding body_loop
  Walk-stop fuel cursor s st = (
    record s {
      unreadable_bytes = s.unreadable_bytes + st.unreadable;
      unwritten_bytes = s.unwritten_bytes + st.unwritten;
    },
    rw (st.stops, body_loop),
    record {
      found = [];
      unreadable = st.unreadable;
      unwritten = st.unwritten;
      records = sym (append-nil s.records);
      damage = refl;
      space = refl;
      sound = tt;
      total = omega (arith, st.within);
    },
  )

  Walk-on :
      (fuel cursor : ℕ) (s : Visited) (f : Finds cursor s)
      → Walk fuel (cursor + (8 + padded_payload f.seen.head.payload_bytes)) (add_record s f.seen)
      → Walk (suc fuel) cursor s
  unfolding body_loop
  Walk-on fuel cursor s f (s', e, w) =
      let n = f.seen.head.payload_bytes in
      let pad = padded_payload_eq n (omega (arith, f.small)) in
      (
        s',
        rw (f.goes_on, body_loop) e,
        record {
          found = f.seen ∷ w.found;
          unreadable = w.unreadable;
          unwritten = w.unwritten;
          records = w.records ∙ append_assoc s.records (f.seen ∷ []) w.found;
          damage = w.damage;
          space = w.space;
          sound = (
            f.sound,
            widen cursor (cursor + (8 + padded_payload n)) w.found (omega arith) w.sound,
          );
          total = omega (arith, w.total, f.sound.below, f.offset, pad);
        },
      )

  body_loop-Walk :
      (fuel cursor : ℕ) (s : Visited)
      → body_end - cursor < fuel
      → Room cursor body_end s
      → Walk fuel cursor s
  body_loop-Walk zero cursor s h r = absurd (omega arith)
  body_loop-Walk (suc fuel) cursor s h r = elim (round_cases cursor s r) [
    | inl st ↦ Walk-stop fuel cursor s st
    | inr f ↦
        let next = cursor + (8 + padded_payload f.seen.head.payload_bytes) in
        Walk-on fuel cursor s f (
          body_loop-Walk fuel next (add_record s f.seen) (omega (arith, f.sound.below, f.offset))
            (omega (arith, r.damage_room, r.space_room)))
  ]

-- On any bytes the walk of a chunk body that ends below 2^63 comes to an end, when the counters
-- have room for the body's size. Every record that the callback sees is committed, lies whole
-- inside the body, and carries exactly the bytes behind its head word; records, damage and
-- unwritten space together never exceed the body.
pub visit_body_lem :
    (image : Bytes) (index owner body_end cursor : ℕ) (s : Visited)
    → body_end < 2 ^ 63
    → Room cursor body_end s
    → (s' : Visited) × (visit_body image index owner body_end cursor s ≡ some s')
      × Walked image cursor body_end s s'
unfolding visit_body
visit_body_lem image index owner body_end cursor s bound r =
    body_loop-Walk image index owner body_end bound (suc (body_end - cursor)) cursor s (omega arith)
      r
