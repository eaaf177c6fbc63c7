-- ===== src/Instance.antt =====
-- include/sub0log/instance.hpp: creation of a Logger over memory, its move, and its binding.
pub mod Fresh
use sub0log.Common.{
  ℕ, ◌+◌, ◌-◌, ◌%◌, ◌^◌, ◌<◌, ◌≤◌, ◌≡◌, refl, sym, ap, ◌∙◌, arith, Bool, true, false, Option, none,
  some, List, [], ◌∷◌, ◌++◌, length, append-nil, append_assoc, inl, inr, ◌⊎◌,
}
use sub0log.Common.Bytes.{Bytes}
use sub0log.Severity.{Severity, trace}
use sub0log.Segment.{Segment, Host, GeometryError, create_in_memory, claimed_chunks}
use sub0log.Logger.{
  Platform, Logger, Producer, WriterCache, set_threshold, threshold, subsystem_levels,
}
use sub0log.Emit.{write_subsystem_definition}

-- What `struct Options` says of a Logger over memory.
pub record Options : Type 0 where
  pub chunk_bytes : ℕ
  pub threshold : Severity
  pub subsystem_names : List (ℕ × Bytes)

-- `declareSubsystem`
unfoldable pub declare_subsystem : Platform → ℕ → Bytes → Producer → Producer
declare_subsystem p subsystem name s = (write_subsystem_definition p subsystem name s).1

unfoldable pub declare_each : Platform → List (ℕ × Bytes) → Producer → Producer
unfolding declare_subsystem
declare_each p [] s = s
declare_each p ((id, name) ∷ more) s = declare_each p more (declare_subsystem p id name s)

-- `Logger result{}` with the segment moved in, at an address; the keys and the root correlation come
-- from the process.
unfoldable pub fresh_logger : ℕ → ℕ → ℕ → Severity → Segment → Logger
fresh_logger address key root severity segment =
    set_threshold
      (record {
        address = address;
        segment = segment;
        announce_key = key;
        root_correlation = root;
        process_threshold = trace;
        subsystem_threshold = λ subsystem. trace;
        dropped = 0;
        truncated = 0;
      })
      severity

-- `finishCreate`, on a thread whose cache is given.
unfoldable pub finish_create : Platform → ℕ → ℕ → ℕ → Options → WriterCache → Segment → Producer
unfolding fresh_logger declare_each
finish_create p address key root options cache segment =
    declare_each p options.subsystem_names (record {
      logger = fresh_logger address key root options.threshold segment;
      cache = cache;
      left = [];
      readings = 0;
    })

-- `createInMemory`, with the segment that was created or its error.
unfoldable pub create_over :
    Platform
    → ℕ
    → ℕ
    → ℕ
    → Options
    → WriterCache
    → GeometryError ⊎ Segment
    → GeometryError ⊎ Producer
unfolding finish_create
create_over p address key root options cache (inl e) = inl e
create_over p address key root options cache (inr segment) =
    inr (finish_create p address key root options cache segment)

unfoldable pub create_logger :
    Platform → Host → ℕ → ℕ → ℕ → Options → WriterCache → ℕ → Bytes → GeometryError ⊎ Producer
unfolding create_over
create_logger p host address key root options cache at storage =
    create_over p address key root options cache
      (create_in_memory host at storage options.chunk_bytes)

-- The move: the table is carried across slot by slot, here by the slots that exist.
unfoldable pub moved_logger : ℕ → Logger → Logger
moved_logger address other = record other { address = address }

-- `stats` and `usage`
abbrev pub stats : Logger → ℕ × ℕ
stats l = (l.dropped, l.truncated)

unfoldable pub usage : Platform → Logger → ℕ × ℕ
usage p l = (claimed_chunks p.split l.segment, l.segment.chunk_count)

-- `sActive_` and `sDetachedByFork_`: the address of the bound Logger, or `none`.
pub record Binding : Type 0 where
  pub active : Option ℕ
  pub detached : Bool

-- The constructor of `ScopedBind`, which keeps what was bound, and its destructor.
unfoldable pub bind : ℕ → Binding → Option ℕ × Binding
bind address b = (b.active, record b { active = some address })

unfoldable pub unbind : Option ℕ → Binding → Binding
unbind previous b = record b { active = previous }

-- `detachForFork`
unfoldable pub detach_for_fork : Binding → Binding
detach_for_fork b = record { active = none; detached = true }
