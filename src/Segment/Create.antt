-- ===== src/Segment/Create.antt =====
-- `Segment::createInMemory` (include/sub0log/segment.hpp): what it refuses, and what it hands out.
use sub0log.Common.{
  ℕ, ◌+◌, ◌-◌, ◌/◌, ◌%◌, ◌^◌, ◌≤◌, ◌<◌, ◌≡◌, ◌≢◌, refl, ap, ◌∙◌, arith, true, false, not, ◌||◌,
  length, length-replicate, replicate, ltb, leb, ◌==◌, ◌⊎◌, inl, inr, ltb→lt, ltb→le, Bool-cases,
  Option-cases,
}
use native.Mathlib.Nat.{div-mul-le_self, mul-le-mul_left, le-div_iff_mul-le}
use sub0log.Common.Bytes.{Bytes, le_bytes, load, store, length-store}
use sub0log.Common.Memory.{store_parts, load-before, load-store}
use sub0log.Wire.{next_chunk_offset}
use sub0log.Wire.SizeClass.{size_class_for_chunk_bytes}
use sub0log.Wire.SizeClass.Inverse.{size_class_iff}
use sub0log.Wire.Layout.{SegmentHeader, segment_header_image, load_segment_header}
use sub0log.Wire.Layout.RoundTrip.{
  SegmentHeaderFits, load_segment_header-image, length-segment_header_image,
}
use sub0log.Reader.Header.{ok, open_error, judge_header, geometry_sane}
use sub0log.Segment.{
  Segment, Host, GeometryError, bad_chunk_bytes, bad_storage, storage_too_small,
  refuses_chunk_bytes, or_zero, header_of, initialise, create_in_memory,
}
use sub0log.Segment.Claim.{Claimed}

-- The platform's answers fit their types.
pub record HostFits (host : Host) : Type 0 where
  pub generation_fits : host.generation < 2 ^ 64
  pub process_fits : host.process_id < 2 ^ 64
  pub mono_fits : host.mono_ns < 2 ^ 64
  pub wall_fits : host.wall_ns < 2 ^ 64

class_small : (b : ℕ) → or_zero (size_class_for_chunk_bytes b) < 2 ^ 8
class_small b = elim (Option-cases (size_class_for_chunk_bytes b)) [
  | inl e ↦ rw e (omega arith)
  | inr (k, e) ↦ rw e (omega (arith, ((size_class_iff b k).0 e).1))
]

module _ (host : Host) (fits : HostFits host) (n chunk_bytes : ℕ) where
  abbrev header : SegmentHeader
  header = header_of host 192 chunk_bytes n

  abbrev stamped : Bytes
  stamped = store (replicate n 0) 0 (segment_header_image header)

  abbrev initial : Bytes
  initial = store stamped next_chunk_offset (le_bytes 8 0)

  length-initial : length initial ≡ n
  length-initial =
      length-store stamped next_chunk_offset (le_bytes 8 0)
      ∙ length-store (replicate n 0) 0 (segment_header_image header)
      ∙ length-replicate n 0

  header_fits : chunk_bytes < 2 ^ 32 → n < 2 ^ 64 → SegmentHeaderFits header
  header_fits c h = record {
    magic_fits = omega arith;
    version_fits = omega arith;
    header_bytes_fit = omega arith;
    chunk_bytes_fit = c;
    segment_bytes_fit = h;
    generation_fits = fits.generation_fits;
    process_fits = fits.process_fits;
    mono_fits = fits.mono_fits;
    wall_fits = fits.wall_fits;
  }

  header-before : load_segment_header initial 0 ≡ load_segment_header stamped 0
  unfolding load_segment_header
  header-before = λ i. record {
    magic = before 8 0 (omega arith) i;
    format_version = before 2 8 (omega arith) i;
    header_bytes = before 4 12 (omega arith) i;
    chunk_bytes = before 4 16 (omega arith) i;
    segment_bytes = before 8 24 (omega arith) i;
    generation = before 8 32 (omega arith) i;
    process_id = before 8 40 (omega arith) i;
    anchor_mono_ns = before 8 48 (omega arith) i;
    anchor_wall_ns = before 8 56 (omega arith) i;
  }
    where
      before : (w at : ℕ) → at + w ≤ 128 → load w initial at ≡ load w stamped at
      before w at h = load-before w stamped (le_bytes 8 0) at 128 h

  header-loaded :
      chunk_bytes < 2 ^ 32 → n < 2 ^ 64 → 192 ≤ n → load_segment_header initial 0 ≡ header
  header-loaded c h room =
      header-before
      ∙ ap (λ t. load_segment_header t 0)
          (store_parts (replicate n 0) (segment_header_image header) 0
            (omega (arith, length-segment_header_image header, length-replicate {A = ℕ} n 0)))
      ∙ load_segment_header-image header _ (header_fits c h)

  opens : chunk_bytes < 2 ^ 32 → n < 2 ^ 64 → 192 ≤ n → 48 ≤ chunk_bytes → open_error initial ≡ ok
  unfolding open_error judge_header geometry_sane
  opens c h room low =
      let whole : ltb (length initial) 64 ≡ false = ground (arith, length-initial) in
      let small : ltb 32 chunk_bytes ≡ true = ground arith in
      let within : leb 192 n ≡ true = ground arith in
      rw (whole, header-loaded c h room, length-initial, small, within) refl

  abbrev pub made : Segment
  made = initialise host (replicate n 0) 192 chunk_bytes

  made-parts :
      n < 2 ^ 37
      → 192 + chunk_bytes ≤ n
      → 48 ≤ chunk_bytes
      → made ≡ record {
        memory = initial;
        generation = host.generation;
        header_bytes = 192;
        chunk_bytes = chunk_bytes;
        chunk_count = (n - 192) / chunk_bytes;
        size_class = or_zero (size_class_for_chunk_bytes chunk_bytes);
      }
  unfolding initialise
  made-parts h room low =
      let size = length-replicate {A = ℕ} n 0 in
      let more : ltb 192 n ≡ true = ground arith in
      let few : (n - 192) / chunk_bytes % 2 ^ 32 ≡ (n - 192) / chunk_bytes = omega (
        arith,
        div-mul-le_self (n - 192) chunk_bytes,
        mul-le-mul_left ((n - 192) / chunk_bytes) low,
      ) in
      rw (size, more, few) refl

  pub made-Claimed :
      n < 2 ^ 37
      → 192 + chunk_bytes ≤ n
      → 48 ≤ chunk_bytes
      → Claimed made 0 × (1 ≤ made.chunk_count)
  made-Claimed h room low =
      let q = (n - 192) / chunk_bytes in
      rw (made-parts h room low) (
        record {
          cursor =
              load-store 8 0 stamped next_chunk_offset
                (omega
                  (arith, length-initial, length-store stamped next_chunk_offset (le_bytes 8 0)))
                (omega arith);
          chunks_fit = omega (arith, length-initial, div-mul-le_self (n - 192) chunk_bytes);
          header_room = omega arith;
          chunk_room = low;
          count_fits = omega (arith, div-mul-le_self (n - 192) chunk_bytes, mul-le-mul_left q low);
          class_fits = class_small chunk_bytes;
          generation_fits = fits.generation_fits;
        },
        (le-div_iff_mul-le (omega arith)).1 (omega arith),
      )

-- What `createInMemory` asks of its caller.
abbrev pub Acceptable : ℕ → ℕ → ℕ → Type 0
Acceptable address size chunk_bytes =
    (48 ≤ chunk_bytes)
    × (chunk_bytes % 8 ≡ 0)
    × (address ≢ 0)
    × (address % 8 ≡ 0)
    × (192 + chunk_bytes ≤ size)

refused_chunk : (n : ℕ) → refuses_chunk_bytes n ≡ true → ¬ ((48 ≤ n) × (n % 8 ≡ 0))
refused_chunk n h (a, b) = ground arith

fine_chunk : (n : ℕ) → refuses_chunk_bytes n ≡ false → (48 ≤ n) × (n % 8 ≡ 0)
fine_chunk n h = ground arith

refused_address : (a : ℕ) → ((a == 0) || not (a % 8 == 0)) ≡ true → ¬ ((a ≢ 0) × (a % 8 ≡ 0))
refused_address a h (x, y) = ground (arith, x)

fine_address : (a : ℕ) → ((a == 0) || not (a % 8 == 0)) ≡ false → (a ≢ 0) × (a % 8 ≡ 0)
fine_address a h = ground arith

pub accepts_cases :
    (host : Host) (address : ℕ) (storage : Bytes) (chunk_bytes : ℕ)
    → (Acceptable address (length storage) chunk_bytes
        × (create_in_memory host address storage chunk_bytes
            ≡ inr (initialise host (replicate (length storage) 0) 192 chunk_bytes)))
      ⊎ (¬ Acceptable address (length storage) chunk_bytes
          × ((e : GeometryError) × (create_in_memory host address storage chunk_bytes ≡ inl e)))
unfolding create_in_memory
accepts_cases host address storage chunk_bytes =
    elim (Bool-cases (refuses_chunk_bytes chunk_bytes)) [
      | inl bad ↦
          inr ((λ a. refused_chunk chunk_bytes bad (a.0, a.1)), (bad_chunk_bytes, rw bad refl))
      | inr fine ↦ elim (Bool-cases ((address == 0) || not (address % 8 == 0))) [
        | inl bad ↦
            inr ((λ a. refused_address address bad (a.2, a.3)), (bad_storage, rw (fine, bad) refl))
        | inr placed ↦ elim (Bool-cases (ltb (length storage) (192 + chunk_bytes))) [
          | inl bad ↦ inr (
            (λ a. absurd (omega (arith, a.4, ltb→lt (length storage) (192 + chunk_bytes) bad))),
            (storage_too_small, rw (fine, placed, bad) refl),
          )
          | inr large ↦
              let (c, d) = fine_chunk chunk_bytes fine in
              let (a, b) = fine_address address placed in
              inl (
                (c, d, a, b, ltb→le (length storage) (192 + chunk_bytes) large),
                rw (fine, placed, large) refl,
              )
        ]
      ]
    ]

-- For a storage below 2^37 bytes and a 32-bit chunk size, `createInMemory` hands out a segment
-- exactly for an aligned, non-null storage with room for the header area and one chunk of a sound
-- size, and an error otherwise. The segment then has at least one chunk, none of them claimed, and
-- the reader opens its memory.
pub create_in_memory_lem :
    (host : Host) (address : ℕ) (storage : Bytes) (chunk_bytes : ℕ)
    → HostFits host
    → chunk_bytes < 2 ^ 32
    → length storage < 2 ^ 37
    → (Acceptable address (length storage) chunk_bytes
        × ((s : Segment) × (create_in_memory host address storage chunk_bytes ≡ inr s)
            × Claimed s 0
            × (1 ≤ s.chunk_count)
            × (open_error s.memory ≡ ok)))
      ⊎ (¬ Acceptable address (length storage) chunk_bytes
          × ((e : GeometryError) × (create_in_memory host address storage chunk_bytes ≡ inl e)))
create_in_memory_lem host address storage chunk_bytes fits c h =
    let n = length storage in
    elim (accepts_cases host address storage chunk_bytes) [
      | inl ((low, even, there, aligned, room), e) ↦
          let (claimed, some_chunk) = made-Claimed host fits n chunk_bytes h room low in
          inl (
            (low, even, there, aligned, room),
            (
              initialise host (replicate n 0) 192 chunk_bytes,
              e,
              claimed,
              some_chunk,
              ap (λ s. open_error s.memory) (made-parts host fits n chunk_bytes h room low)
                  ∙ opens host fits n chunk_bytes c (omega arith) (omega arith) low,
            ),
          )
      | inr refused ↦ inr refused
    ]
