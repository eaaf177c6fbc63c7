-- ===== src/Merge/Order.antt =====
-- `Merger::merged` (include/sub0log/merge.hpp): the order of the stream.
use sub0log.Common.{
  ◌≡◌, refl, ap, ◌∙◌, arith, Bool, true, false, not, ◌&&◌, List, [], ◌∷◌, if◌then◌else◌, All,
  Bool-cases, inl, inr, ℕ, sym, ◌==◌, ◌+◌, ◌-◌, ◌%◌, ◌^◌, ◌<◌, ◌≤◌, ◌⊎◌, map, ◌++◌,
}
use sub0log.Wire.Layout.{SegmentHeader}
use sub0log.Decoder.Messages.{DecodedRecord}
use sub0log.Merge.{
  aligned, merge_record, MergedRecord, Loaded, before, insert, stable_sort, collect, merged,
}

-- No record stands behind one that the comparison puts before it.
abbrev Arranged : List MergedRecord → Type 0
Arranged [] = Unit
Arranged (x ∷ xs) = All (λ y. before y x ≡ false) xs × Arranged xs

not_before_trans :
    (x y z : MergedRecord) → before y x ≡ false → before z y ≡ false → before z x ≡ false
unfolding before
not_before_trans x y z h k = ground arith

before_asym : (x y : MergedRecord) → before y x ≡ true → before x y ≡ false
unfolding before
before_asym x y h = ground arith

-- Neither of the two is to come before the other.
abbrev tied : MergedRecord → MergedRecord → Bool
tied a b = not (before a b) && not (before b a)

-- The records that tie with `p`, in their order.
abbrev ties : MergedRecord → List MergedRecord → List MergedRecord
ties p [] = []
ties p (y ∷ ys) = if tied p y then y ∷ ties p ys else ties p ys

insert-All :
    (P : MergedRecord → Type 0) (x : MergedRecord) (ys : List MergedRecord)
    → P x
    → All P ys
    → All P (insert x ys)
unfolding insert
insert-All P x [] px a = (px, tt)
insert-All P x (y ∷ ys) px (py, more) = elim (Bool-cases (before y x)) [
  | inl b ↦ rw b (py, insert-All P x ys px more)
  | inr b ↦ rw b (px, (py, more))
]

behind :
    (x y : MergedRecord) (ys : List MergedRecord)
    → before y x ≡ false
    → All (λ z. before z y ≡ false) ys
    → All (λ z. before z x ≡ false) ys
behind x y [] h a = tt
behind x y (z ∷ ys) h (k, more) = (not_before_trans x y z h k, behind x y ys h more)

insert-Arranged : (x : MergedRecord) (ys : List MergedRecord) → Arranged ys → Arranged (insert x ys)
unfolding insert
insert-Arranged x [] s = (tt, tt)
insert-Arranged x (y ∷ ys) (low, s) = elim (Bool-cases (before y x)) [
  | inl b ↦
      rw b
        (insert-All (λ z. before z y ≡ false) x ys (before_asym x y b) low, insert-Arranged x ys s)
  | inr b ↦ rw b ((b, behind x y ys b low), (low, s))
]

stable_sort-Arranged : (xs : List MergedRecord) → Arranged (stable_sort xs)
unfolding stable_sort
stable_sort-Arranged [] = tt
stable_sort-Arranged (x ∷ xs) = insert-Arranged x (stable_sort xs) (stable_sort-Arranged xs)

tied_not_before : (p x y : MergedRecord) → tied p x ≡ true → tied p y ≡ true → before y x ≡ false
unfolding before
tied_not_before p x y h k = ground arith

-- A record that is moved over one that it does not tie with leaves the ties as they are.
ties-swap :
    (p x y : MergedRecord) (ys : List MergedRecord)
    → before y x ≡ true
    → ties p (y ∷ (x ∷ ys)) ≡ ties p (x ∷ (y ∷ ys))
ties-swap p x y ys b = elim (Bool-cases (tied p x)) [
  | inr e ↦ rw e refl
  | inl e ↦ elim (Bool-cases (tied p y)) [
    | inr f ↦ rw (e, f) refl
    | inl f ↦ cc (b, tied_not_before p x y e f)
  ]
]

ties-cons :
    (p y : MergedRecord) (xs ys : List MergedRecord)
    → ties p xs ≡ ties p ys
    → ties p (y ∷ xs) ≡ ties p (y ∷ ys)
ties-cons p y xs ys e = ap (λ t. if tied p y then y ∷ t else t) e

ties-insert : (p x : MergedRecord) (ys : List MergedRecord) → ties p (insert x ys) ≡ ties p (x ∷ ys)
unfolding insert
ties-insert p x [] = refl
ties-insert p x (y ∷ ys) = elim (Bool-cases (before y x)) [
  | inl b ↦ rw b (ties-cons p y (insert x ys) (x ∷ ys) (ties-insert p x ys) ∙ ties-swap p x y ys b)
  | inr b ↦ rw b refl
]

ties-stable_sort : (p : MergedRecord) (xs : List MergedRecord) → ties p (stable_sort xs) ≡ ties p xs
unfolding stable_sort
ties-stable_sort p [] = refl
ties-stable_sort p (x ∷ xs) =
    ties-insert p x (stable_sort xs) ∙ ties-cons p x (stable_sort xs) xs (ties-stable_sort p xs)

-- The order of the stream, `a` in front of `b`: by time on the wall clock, then by process, thread and
-- monotonic time.
abbrev pub InOrder : MergedRecord → MergedRecord → Type 0
InOrder a b =
    (a.aligned_ns < b.aligned_ns)
    ⊎ ((a.aligned_ns ≡ b.aligned_ns)
        × ((a.process_id < b.process_id)
            ⊎ ((a.process_id ≡ b.process_id)
                × ((a.decoded.owner_thread < b.decoded.owner_thread)
                    ⊎ ((a.decoded.owner_thread ≡ b.decoded.owner_thread)
                        × (a.decoded.mono_ns ≤ b.decoded.mono_ns))))))

abbrev pub Sorted : List MergedRecord → Type 0
Sorted [] = Unit
Sorted (x ∷ xs) = All (InOrder x) xs × Sorted xs

-- The two have all four keys in common.
abbrev pub same_keys : MergedRecord → MergedRecord → Bool
same_keys a b =
    (a.aligned_ns == b.aligned_ns)
    && ((a.process_id == b.process_id)
        && ((a.decoded.owner_thread == b.decoded.owner_thread)
            && (a.decoded.mono_ns == b.decoded.mono_ns)))

-- The records with the keys of `p`, in their order.
abbrev pub peers : MergedRecord → List MergedRecord → List MergedRecord
peers p [] = []
peers p (y ∷ ys) = if same_keys p y then y ∷ peers p ys else peers p ys

-- The records of a segment on the wall clock: the anchor's time and what has passed since the anchor,
-- nothing for a record from before it.
abbrev pub on_wall : SegmentHeader → List DecodedRecord → List MergedRecord
on_wall h [] = []
on_wall h (r ∷ rs) =
    record {
      decoded = r;
      process_id = h.process_id;
      aligned_ns = (h.anchor_wall_ns + (r.mono_ns - h.anchor_mono_ns)) % 2 ^ 64;
    }
    ∷ on_wall h rs

abbrev pub all_on_wall : List Loaded → List MergedRecord
all_on_wall [] = []
all_on_wall (s ∷ more) = on_wall s.header s.records ++ all_on_wall more

-- A segment whose anchor on the wall clock is a 64-bit number.
abbrev pub Anchored : Loaded → Type 0
Anchored s = s.header.anchor_wall_ns < 2 ^ 64

before-InOrder : (x y : MergedRecord) → before y x ≡ false → InOrder x y
unfolding before
before-InOrder x y h = ground arith

Arranged-Sorted : (xs : List MergedRecord) → Arranged xs → Sorted xs
Arranged-Sorted [] s = tt
Arranged-Sorted (x ∷ xs) (low, s) = (each xs low, Arranged-Sorted xs s)
  where
    each : (ys : List MergedRecord) → All (λ y. before y x ≡ false) ys → All (InOrder x) ys
    each [] a = tt
    each (y ∷ ys) (h, a) = (before-InOrder x y h, each ys a)

tied-same_keys : (a b : MergedRecord) → tied a b ≡ same_keys a b
unfolding before
tied-same_keys a b = ground arith

ties-peers : (p : MergedRecord) (xs : List MergedRecord) → ties p xs ≡ peers p xs
ties-peers p [] = refl
ties-peers p (y ∷ ys) = rw (tied-same_keys p y, ties-peers p ys) refl

aligned-wall :
    (h : SegmentHeader) (mono_ns : ℕ)
    → h.anchor_wall_ns < 2 ^ 64
    → aligned h mono_ns ≡ (h.anchor_wall_ns + (mono_ns - h.anchor_mono_ns)) % 2 ^ 64
unfolding aligned
aligned-wall h mono_ns small = ground arith

map-on_wall :
    (h : SegmentHeader) (rs : List DecodedRecord)
    → h.anchor_wall_ns < 2 ^ 64
    → map (merge_record h) rs ≡ on_wall h rs
map-on_wall h [] small = refl
map-on_wall h (r ∷ rs) small = λ i.
    record { decoded = r; process_id = h.process_id; aligned_ns = aligned-wall h r.mono_ns small i }
    ∷ map-on_wall h rs small i

collect-all_on_wall :
    (segments : List Loaded) → All Anchored segments → collect segments ≡ all_on_wall segments
unfolding collect
collect-all_on_wall [] fits = refl
collect-all_on_wall (s ∷ more) (fit, fits) =
    λ i. map-on_wall s.header s.records fit i ++ collect-all_on_wall more fits i

-- For segments whose wall anchors are 64-bit numbers: the merged stream is ordered by time on the
-- wall clock, a record from before its segment's anchor at the anchor, then by process, thread and
-- monotonic time; and for every record it holds exactly the records of the segments that agree with it
-- in these four, in the order in which the segments were added and the records stood in them.
pub merged_lem :
    (segments : List Loaded) (p : MergedRecord)
    → All Anchored segments
    → Sorted (merged segments) × (peers p (merged segments) ≡ peers p (all_on_wall segments))
unfolding merged
merged_lem segments p fits = (
  Arranged-Sorted (merged segments) (stable_sort-Arranged (collect segments)),
  sym (ties-peers p (merged segments))
      ∙ ties-stable_sort p (collect segments)
      ∙ ties-peers p (collect segments)
      ∙ ap (peers p) (collect-all_on_wall segments fits),
)
