-- ===== src/Merge.antt =====
-- include/sub0log/merge.hpp: one ordered stream from the records of several segments.
pub mod Order
use sub0log.Common.{
  ℕ, ◌+◌, ◌-◌, ◌%◌, ◌^◌, Bool, not, Option, none, some, List, [], ◌∷◌, ◌++◌, map, ltb, leb, ◌==◌,
  if◌then◌else◌, length,
}
use sub0log.Common.Bytes.{Bytes}
use sub0log.Wire.Layout.{SegmentHeader}
use sub0log.Decoder.{Decoder, find_name}
use sub0log.Decoder.Messages.{DecodedRecord}

-- `struct MergedRecord`
pub record MergedRecord : Type 0 where
  pub decoded : DecodedRecord
  pub process_id : ℕ
  pub aligned_ns : ℕ

-- `struct Loaded`: a segment that was added.
pub record Loaded : Type 0 where
  pub decoder : Decoder
  pub records : List DecodedRecord
  pub header : SegmentHeader

-- The instant of a record on the wall clock, saturated at the segment's anchor.
unfoldable pub aligned : SegmentHeader → ℕ → ℕ
aligned h mono_ns =
    if leb h.anchor_mono_ns mono_ns
    then (h.anchor_wall_ns + (mono_ns - h.anchor_mono_ns)) % 2 ^ 64
    else h.anchor_wall_ns

abbrev pub merge_record : SegmentHeader → DecodedRecord → MergedRecord
merge_record h r = record {
  decoded = r;
  process_id = h.process_id;
  aligned_ns = aligned h r.mono_ns;
}

unfoldable pub collect : List Loaded → List MergedRecord
collect [] = []
collect (s ∷ more) = map (merge_record s.header) s.records ++ collect more

-- The comparison that `merged` sorts by.
unfoldable pub before : MergedRecord → MergedRecord → Bool
before a b =
    if not (a.aligned_ns == b.aligned_ns)
    then ltb a.aligned_ns b.aligned_ns
    else if not (a.process_id == b.process_id)
    then ltb a.process_id b.process_id
    else if not (a.decoded.owner_thread == b.decoded.owner_thread)
    then ltb a.decoded.owner_thread b.decoded.owner_thread
    else ltb a.decoded.mono_ns b.decoded.mono_ns

-- `std::stable_sort`: an element goes before those behind it that are not smaller.
unfoldable pub insert : MergedRecord → List MergedRecord → List MergedRecord
insert x [] = x ∷ []
insert x (y ∷ ys) = let later = insert x ys in if before y x then y ∷ later else x ∷ (y ∷ ys)

unfoldable pub stable_sort : List MergedRecord → List MergedRecord
unfolding insert
stable_sort [] = []
stable_sort (x ∷ xs) = insert x (stable_sort xs)

unfoldable pub merged : List Loaded → List MergedRecord
unfolding collect stable_sort
merged segments = stable_sort (collect segments)

abbrev pub name_or_empty : Option Bytes → Bytes
name_or_empty none = []
name_or_empty (some name) = name

-- `subsystemName`: the first segment with a name that is not empty.
unfoldable pub subsystem_name : ℕ → List Loaded → Bytes
subsystem_name id [] = []
subsystem_name id (s ∷ more) =
    let name = name_or_empty (find_name id s.decoder.subsystem_names) in
    let later = subsystem_name id more in if length name == 0 then later else name
