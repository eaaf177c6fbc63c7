-- ===== src/Logger.antt =====
-- include/sub0log/instance.hpp: the Logger over one segment, and the chunk that the calling thread
-- writes. A Logger here has a valid segment; one without drops all records before any of this code.
pub mod Log
pub mod Claims
pub mod Reserve
pub mod Threshold
use sub0log.Common.{
  ℕ, ◌+◌, ◌%◌, ◌^◌, Bool, true, false, not, ◌||◌, Option, none, some, List, [], ◌∷◌, ltb, ◌==◌,
  length, if◌then◌else◌,
}
use sub0log.Common.Bytes.{Bytes, view}
use sub0log.Severity.{Severity, at_least}
use sub0log.Chunk.{ChunkWriter, Reservation, fresh_writer, is_valid, reserve, finish_record}
use sub0log.Segment.{Segment, Body, claim_chunk}

abbrev pub subsystem_levels : ℕ
subsystem_levels = 64

abbrev pub unbound_emit_cap : ℕ
unbound_emit_cap = 1024

-- What the platform answers: whether atomics are split, the calling thread's id, and the successive
-- readings of the monotonic clock.
pub record Platform : Type 0 where
  pub split : Bool
  pub thread : ℕ
  pub clock : ℕ → ℕ

-- `RelaxedCounter::increment_counter`, in the widest word that is lock-free.
unfoldable pub increment_counter : Platform → ℕ → ℕ
increment_counter p n = if p.split then (n + 1) % 2 ^ 32 else (n + 1) % 2 ^ 64

-- `class Logger`, at its address; `announce_key` is `announceKey_` of its segment, which is read
-- only where atomics are split. Subsystems from `subsystem_levels` on have no slot.
pub record Logger : Type 0 where
  pub address : ℕ
  pub segment : Segment
  pub announce_key : ℕ
  pub root_correlation : ℕ
  pub process_threshold : Severity
  pub subsystem_threshold : ℕ → Severity
  pub dropped : ℕ
  pub truncated : ℕ

-- `struct WriterCache`
pub record WriterCache : Type 0 where
  pub owner : ℕ
  pub generation : ℕ
  pub writer : ChunkWriter

-- A Logger and the calling thread: its cache, the writers of the chunks that it has let go of (their
-- bytes stay in the segment), newest first, and how often it has read the clock.
pub record Producer : Type 0 where
  pub logger : Logger
  pub cache : WriterCache
  pub left : List ChunkWriter
  pub readings : ℕ

-- `threshold(subsystem)`
unfoldable pub threshold : Logger → ℕ → Severity
threshold l subsystem =
    if ltb subsystem subsystem_levels then l.subsystem_threshold subsystem else l.process_threshold

-- `setThreshold(severity)`
unfoldable pub set_threshold : Logger → Severity → Logger
set_threshold l severity = record l {
  process_threshold = severity;
  subsystem_threshold = λ subsystem. severity;
}

-- `setThreshold(subsystem, severity)`
unfoldable pub set_subsystem_threshold : Logger → ℕ → Severity → Logger
set_subsystem_threshold l subsystem severity =
    if ltb subsystem subsystem_levels
    then record l {
      subsystem_threshold =
          λ slot. if slot == subsystem then severity else l.subsystem_threshold slot;
    }
    else l

-- `detail::enabled` of include/sub0log/detail/emit.hpp, with the counter of unbound emits.
unfoldable pub enabled : Platform → Option Logger → ℕ → Severity → ℕ → Bool × ℕ
enabled p none unbound severity subsystem =
    (false, if ltb unbound unbound_emit_cap then increment_counter p unbound else unbound)
enabled p (some l) unbound severity subsystem = (at_least severity (threshold l subsystem), unbound)

abbrev pub count_drop : Platform → Producer → Producer
count_drop p s = record s {
  logger = record s.logger { dropped = increment_counter p s.logger.dropped };
}

abbrev pub count_truncation : Platform → Producer → Producer
count_truncation p s = record s {
  logger = record s.logger { truncated = increment_counter p s.logger.truncated };
}

abbrev pub set_writer : Producer → ChunkWriter → Producer
set_writer s w = record s { cache = record s.cache { writer = w } }

-- The writer of a claimed body, and one that is not valid.
abbrev pub writer_of : Option Body → Bytes → ChunkWriter
writer_of none memory = fresh_writer []
writer_of (some b) memory = fresh_writer (view memory b.start b.size)

-- `claimChunk` reads the clock for a chunk that it claims only.
abbrev pub readings_after : Option Body → ℕ → ℕ
readings_after none n = n
readings_after (some b) n = n + 1

-- The cache after a claim by this thread.
unfoldable pub adopt : Producer → Option Body × Segment → Producer
adopt s (body, segment) = record {
  logger = record s.logger { segment = segment };
  cache = record {
    owner = s.logger.address;
    generation = segment.generation;
    writer = writer_of body segment.memory;
  };
  left = s.cache.writer ∷ s.left;
  readings = readings_after body s.readings;
}

-- The two ways to a writer return whether it is not null; it is the one in the cache.
unfoldable pub refill_writer : Platform → Producer → Bool × Producer
unfolding adopt
refill_writer p s =
    let s' = adopt s (claim_chunk p.split s.logger.segment p.thread (p.clock s.readings)) in
    (is_valid s'.cache.writer, s')

unfoldable pub current_writer : Platform → Producer → Bool × Producer
unfolding refill_writer
current_writer p s =
    if not (s.cache.owner == s.logger.address)
      || not (s.cache.generation == s.logger.segment.generation)
    then refill_writer p s
    else (is_valid s.cache.writer, s)

-- `(writer != nullptr) ? writer->reserve(payloadBytes) : Reservation{}`
unfoldable pub try_reserve : ℕ → Bool × Producer → Option Reservation × Producer
try_reserve n (false, s) = (none, s)
try_reserve n (true, s) = let (slot, w) = reserve s.cache.writer n in (slot, set_writer s w)

-- `if (!slot.valid()) logger.countDrop()`
unfoldable pub or_drop : Platform → Option Reservation × Producer → Option Reservation × Producer
or_drop p (none, s) = (none, count_drop p s)
or_drop p (some slot, s) = (some slot, s)

unfoldable pub or_refill :
    Platform → ℕ → Option Reservation × Producer → Option Reservation × Producer
unfolding or_drop
or_refill p n (none, s) = or_drop p (try_reserve n (refill_writer p s))
or_refill p n (some slot, s) = (some slot, s)

-- `reserveRecord`
unfoldable pub reserve_record : Platform → ℕ → Producer → Option Reservation × Producer
unfolding or_refill try_reserve
reserve_record p n s = or_refill p n (try_reserve n (current_writer p s))

-- What a caller of the two does next: it writes the payload and commits, through the writer that the
-- reservation belongs to; the flag says whether there was one.
unfoldable pub commit_to : ChunkWriter → Option (Reservation × ChunkWriter) → ChunkWriter
commit_to w none = w
commit_to w (some (slot, w')) = w'

unfoldable pub commit_record : ℕ → ℕ → Bytes → Option Reservation × Producer → Bool × Producer
unfolding commit_to
commit_record kind flags payload (none, s) = (false, s)
commit_record kind flags payload (some slot, s) = (
  true,
  set_writer s
      (commit_to s.cache.writer (finish_record kind flags payload (some slot, s.cache.writer))),
)
