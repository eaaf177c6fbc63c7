-- ===== src/Emit/Attempts.antt =====
-- How an attempt to write one record of include/sub0log/detail/emit.hpp ends, its truncation counted.
use sub0log.Common.{ℕ, refl, ap, Bool, true, false, if◌then◌else◌}
use sub0log.Protocol.{Request}
use sub0log.Logger.{Platform, Producer, increment_counter}
use sub0log.Logger.Reserve.{Wrote, Dropped}
use sub0log.Emit.{note_truncation}

-- The count of truncations behind a record.
abbrev pub bump : Platform → Bool → ℕ → ℕ
bump p cut t = if cut then increment_counter p t else t

pub Wrote-note_truncation :
    (p : Platform) (s : Producer) (k t : ℕ) (r : Request) (cut : Bool) (o : Bool × Producer)
    → Wrote s k t r o
    → Wrote s k (bump p cut t) r (note_truncation p cut o)
unfolding note_truncation
Wrote-note_truncation p s k t r cut (false, s') w = absurd (cc w.returns)
Wrote-note_truncation p s k t r false (true, s') w = w
Wrote-note_truncation p s k t r true (true, s') w = record {
  returns = refl;
  short = w.short;
  ready = record { stocked = w.ready.stocked; current = w.ready.current; others = w.ready.others };
  logged = w.logged;
  same_dropped = w.same_dropped;
  truncations = ap (increment_counter p) w.truncations;
  same_count = w.same_count;
  same_bytes = w.same_bytes;
  same_generation = w.same_generation;
}

pub Dropped-note_truncation :
    (p : Platform) (s : Producer) (k : ℕ) (cut : Bool) (o : Bool × Producer)
    → Dropped p s k o
    → Dropped p s k (note_truncation p cut o)
unfolding note_truncation
Dropped-note_truncation p s k cut (true, s') d = absurd (cc d.returns)
Dropped-note_truncation p s k cut (false, s') d = d
