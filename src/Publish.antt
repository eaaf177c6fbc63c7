-- ===== src/Publish.antt =====
-- include/sub0log/detail/atomics.hpp on a core without 64-bit atomics: `storeHeadWord` and
-- `loadHeadWord` of two threads as interleaved steps. The release store of the upper half and the
-- acquire fence behind its load keep each thread's two accesses in the order of its code.
use sub0log.Common.{ℕ, ◌*◌, ◌/◌, ◌%◌, ◌^◌, ◌<◌, ◌≡◌, refl, arith, true, bit_or, ◌⊎◌, inl, inr}
use mathlib.Core.Path.{subst}
use sub0log.Common.Bits.{or_field}
use sub0log.Wire.Head.{RecordHead, IsValid, pack, is_committed}
use sub0log.Wire.Head.RoundTrip.{untagged_not_committed, pack-lt}

-- Where the writer is in `storeHeadWord`.
pub data Writer : Type 0 where
  ready low_stored published : Writer

-- Where the reader is in `loadHeadWord`, with the upper half that it loaded, or its result.
pub data Reader : Type 0 where
  waiting : Reader
  high_loaded : ℕ → Reader
  finished : ℕ → Reader

-- The two halves of the slot, and the two threads.
pub record Slot : Type 0 where
  pub low : ℕ
  pub high : ℕ
  pub writer : Writer
  pub reader : Reader

-- The states that the steps of the two threads lead to, while `word` is being published.
pub data Reachable (word : ℕ) : Slot → Type 0 where
  start : Reachable word (record { low = 0; high = 0; writer = ready; reader = waiting })
  store_low :
      (low high : ℕ) (reader : Reader)
      → Reachable word (record { low = low; high = high; writer = ready; reader = reader })
      → Reachable word
          (record { low = word % 2 ^ 32; high = high; writer = low_stored; reader = reader })
  store_high :
      (low high : ℕ) (reader : Reader)
      → Reachable word (record { low = low; high = high; writer = low_stored; reader = reader })
      → Reachable word
          (record { low = low; high = word / 2 ^ 32; writer = published; reader = reader })
  load_high :
      (low high : ℕ) (writer : Writer)
      → Reachable word (record { low = low; high = high; writer = writer; reader = waiting })
      → Reachable word
          (record { low = low; high = high; writer = writer; reader = high_loaded high })
  load_low :
      (low high seen : ℕ) (writer : Writer)
      → Reachable word
          (record { low = low; high = high; writer = writer; reader = high_loaded seen })
      → Reachable word (record {
        low = low;
        high = high;
        writer = writer;
        reader = finished (bit_or low (seen * 2 ^ 32));
      })

-- What the slot holds at each point of the writer.
abbrev Stored : ℕ → ℕ → ℕ → Writer → Type 0
Stored word low high ready = (low ≡ 0) × (high ≡ 0)
Stored word low high low_stored = (low ≡ word % 2 ^ 32) × (high ≡ 0)
Stored word low high published = (low ≡ word % 2 ^ 32) × (high ≡ word / 2 ^ 32)

-- What the reader knows: it saw the upper half of an unpublished word, or the word is published.
abbrev Seen : ℕ → Writer → Reader → Type 0
Seen word writer waiting = Unit
Seen word writer (high_loaded high) = (high ≡ 0) ⊎ ((high ≡ word / 2 ^ 32) × (writer ≡ published))
Seen word writer (finished result) = (result < 2 ^ 32) ⊎ (result ≡ word)

abbrev Sound : ℕ → Slot → Type 0
Sound word s = Stored word s.low s.high s.writer × Seen word s.writer s.reader

Stored-low : (word low high : ℕ) (writer : Writer) → Stored word low high writer → low < 2 ^ 32
Stored-low word low high ready (a, b) = omega arith
Stored-low word low high low_stored (a, b) = omega arith
Stored-low word low high published (a, b) = omega arith

later-Seen :
    (word : ℕ) (reader : Reader) (w w' : Writer)
    → (w ≡ published → w' ≡ published)
    → Seen word w reader
    → Seen word w' reader
later-Seen word waiting w w' f s = tt
later-Seen word (high_loaded high) w w' f (inl z) = inl z
later-Seen word (high_loaded high) w w' f (inr (e, p)) = inr (e, f p)
later-Seen word (finished result) w w' f s = s

high_seen :
    (word low high : ℕ) (writer : Writer)
    → Stored word low high writer
    → (high ≡ 0) ⊎ ((high ≡ word / 2 ^ 32) × (writer ≡ published))
high_seen word low high ready (a, b) = inl b
high_seen word low high low_stored (a, b) = inl b
high_seen word low high published (a, b) = inr (b, refl)

low_published :
    (word low high : ℕ) (writer : Writer)
    → writer ≡ published
    → Stored word low high writer
    → low ≡ word % 2 ^ 32
low_published word low high ready e s = cc e
low_published word low high low_stored e (a, b) = a
low_published word low high published e (a, b) = a

result_seen :
    (word low high seen : ℕ) (writer : Writer)
    → word < 2 ^ 64
    → Stored word low high writer
    → (seen ≡ 0) ⊎ ((seen ≡ word / 2 ^ 32) × (writer ≡ published))
    → (bit_or low (seen * 2 ^ 32) < 2 ^ 32) ⊎ (bit_or low (seen * 2 ^ 32) ≡ word)
result_seen word low high seen writer h stored (inl z) =
    let small = Stored-low word low high writer stored in
    inl (omega (arith, or_field 32 low seen small, z, small))
result_seen word low high seen writer h stored (inr (e, p)) =
    let small = Stored-low word low high writer stored in
    inr (omega (arith, or_field 32 low seen small, e, low_published word low high writer p stored))

Reachable-Sound : (word : ℕ) (s : Slot) → word < 2 ^ 64 → Reachable word s → Sound word s
Reachable-Sound word _ h start = ((refl, refl), tt)
Reachable-Sound word _ h (store_low low high reader r) =
    let (stored, seen) = Reachable-Sound word _ h r in
    ((refl, stored.1), later-Seen word reader ready low_stored (λ e. cc e) seen)
Reachable-Sound word _ h (store_high low high reader r) =
    let (stored, seen) = Reachable-Sound word _ h r in
    ((stored.0, refl), later-Seen word reader low_stored published (λ e. refl) seen)
Reachable-Sound word _ h (load_high low high writer r) =
    let (stored, seen) = Reachable-Sound word _ h r in
    (stored, high_seen word low high writer stored)
Reachable-Sound word _ h (load_low low high seen writer r) =
    let (stored, known) = Reachable-Sound word _ h r in
    (stored, result_seen word low high seen writer h stored known)

-- A reader that finds a commit tag has the whole head word: whatever the interleaving of a thread
-- that publishes a valid head with one that loads it, a result that counts as committed is the word
-- that was published, its length and kind included.
pub published_lem :
    (h : RecordHead) (s : Slot) (result : ℕ)
    → IsValid h
    → Reachable (pack h) s
    → s.reader ≡ finished result
    → is_committed result ≡ true
    → result ≡ pack h
published_lem h s result v r e c =
    let (stored, seen) : Sound (pack h) s = Reachable-Sound (pack h) s (pack-lt h v) r in
    elim (subst (Seen (pack h) s.writer) e seen) [
      | inl small ↦ cc (c, untagged_not_committed result (omega arith))
      | inr same ↦ same
    ]
