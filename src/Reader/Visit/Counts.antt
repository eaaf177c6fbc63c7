-- ===== src/Reader/Visit/Counts.antt =====
-- Parts of the walk of `SegmentReader::visit` (include/sub0log/reader.hpp), and what they count.
use sub0log.Common.{
  ℕ, ◌+◌, ◌^◌, ◌≤◌, ◌<◌, ◌≡◌, sym, ap, ◌∙◌, arith, List, [], ◌∷◌, ◌++◌, length, append_assoc,
  append-nil, All,
}
use sub0log.Common.Bytes.{Bytes}
use sub0log.Reader.Body.{RecordView, Visited, add_unreadable, add_unwritten}
use sub0log.Reader.Body.Bounds.{InChunk, record_total}

-- What a part of the walk adds to a state: records of the image from `lo` on, and at most `budget`
-- bytes of records, damage and unwritten space.
pub record Counted (image : Bytes) (lo budget : ℕ) (s s' : Visited) : Type 0 where
  pub found : List RecordView
  pub unreadable : ℕ
  pub unwritten : ℕ
  pub records : s'.records ≡ s.records ++ found
  pub damage : s'.unreadable_bytes ≡ s.unreadable_bytes + unreadable
  pub space : s'.unwritten_bytes ≡ s.unwritten_bytes + unwritten
  pub sound : All (InChunk image lo (length image)) found
  pub total : unreadable + unwritten + record_total found ≤ budget

pub widen :
    (image : Bytes) (lo lo' hi hi' : ℕ) (vs : List RecordView)
    → lo ≤ lo'
    → hi' ≤ hi
    → All (InChunk image lo' hi') vs
    → All (InChunk image lo hi) vs
widen image lo lo' hi hi' [] h k a = tt
widen image lo lo' hi hi' (v ∷ vs) h k (a, more) = (
  record {
    from = omega (arith, a.from);
    below = omega (arith, a.below);
    committed = a.committed;
    decoded = a.decoded;
    viewed = a.viewed;
  },
  widen image lo lo' hi hi' vs h k more,
)

All-append :
    (P : RecordView → Type 0) (xs ys : List RecordView) → All P xs → All P ys → All P (xs ++ ys)
All-append P [] ys a b = b
All-append P (x ∷ xs) ys (a, more) b = (a, All-append P xs ys more b)

record_total-append :
    (xs ys : List RecordView) → record_total (xs ++ ys) ≡ record_total xs + record_total ys
record_total-append [] ys = omega arith
record_total-append (x ∷ xs) ys = omega (arith, record_total-append xs ys)

-- Two parts in a row.
pub Counted-trans :
    (image : Bytes) (lo lo' b b' total : ℕ) (s t u : Visited)
    → lo ≤ lo'
    → b + b' ≤ total
    → Counted image lo b s t
    → Counted image lo' b' t u
    → Counted image lo total s u
Counted-trans image lo lo' b b' total s t u le room x y = record {
  found = x.found ++ y.found;
  unreadable = x.unreadable + y.unreadable;
  unwritten = x.unwritten + y.unwritten;
  records = y.records ∙ ap (λ r. r ++ y.found) x.records ∙ append_assoc s.records x.found y.found;
  damage = omega (arith, x.damage, y.damage);
  space = omega (arith, x.space, y.space);
  sound =
      All-append (InChunk image lo (length image)) x.found y.found x.sound
        (widen image lo lo' (length image) (length image) y.found le (omega arith) y.sound);
  total = omega (arith, x.total, y.total, record_total-append x.found y.found);
}

pub count_nothing : (image : Bytes) (lo b : ℕ) (s : Visited) → Counted image lo b s s
count_nothing image lo b s = record {
  found = [];
  unreadable = 0;
  unwritten = 0;
  records = sym (append-nil s.records);
  damage = omega arith;
  space = omega arith;
  sound = tt;
  total = omega arith;
}

pub count_damage :
    (image : Bytes) (lo b n : ℕ) (s : Visited)
    → n ≤ b
    → s.unreadable_bytes + b < 2 ^ 64
    → Counted image lo b s (add_unreadable s n)
count_damage image lo b n s h room = record {
  found = [];
  unreadable = n;
  unwritten = 0;
  records = sym (append-nil s.records);
  damage = omega arith;
  space = omega arith;
  sound = tt;
  total = omega arith;
}

pub count_space :
    (image : Bytes) (lo b n : ℕ) (s : Visited)
    → n ≤ b
    → s.unwritten_bytes + b < 2 ^ 64
    → Counted image lo b s (add_unwritten s n)
count_space image lo b n s h room = record {
  found = [];
  unreadable = 0;
  unwritten = n;
  records = sym (append-nil s.records);
  damage = omega arith;
  space = omega arith;
  sound = tt;
  total = omega arith;
}
