-- ===== src/Instance/Fresh.antt =====
-- A Logger that `createInMemory` (include/sub0log/instance.hpp) has made over memory, with the names of
-- its subsystems declared, and the thread that made it.
use sub0log.Common.{
  ℕ, ◌+◌, ◌*◌, ◌%◌, ◌^◌, ◌<◌, ◌≤◌, ◌≡◌, refl, sym, ap, ◌∙◌, arith, Bool, true, false, List, [], ◌∷◌,
  ◌++◌, length, length-append, append-nil, append_assoc, replicate, inl, inr, ◌⊎◌, ltb,
  if◌then◌else◌, min, take, length-take, Bool-cases, ltb→lt, ltb→le, take-all,
}
use sub0log.Common.Bytes.{Bytes, le_bytes}
use sub0log.Wire.Layout.{subsystem_definition_image}
use sub0log.Wire.{RecordKind, kind_code}
use sub0log.Severity.{Severity}
use sub0log.Chunk.{fresh_writer}
use sub0log.Segment.{Segment, Host, GeometryError, initialise}
use sub0log.Segment.Create.{HostFits, Acceptable, accepts_cases, made-Claimed}
use sub0log.Segment.Blank.{created_blank}
use sub0log.Definitions.{subsystem_definition_bytes}
use sub0log.Protocol.{Request, RequestFits}
use sub0log.Logger.{increment_counter, set_threshold, Producer, WriterCache, commit_record}
use sub0log.Logger.Log.{Filled-zeros, log, log_of, records_of, records_of-Filled}
use sub0log.Logger.Claims.{hosted, Ready, Stocked}
use sub0log.Logger.Reserve.{Wrote, Dropped, Reserved-Wrote, Refilled-Dropped, reserve_record_lem}
use sub0log.Emit.{write_subsystem_definition, truncated_flag, note_truncation}
use sub0log.Emit.Attempts.{bump, Wrote-note_truncation}
use sub0log.Emit.Known.{
  messages_in, described, known_after, messages_in-append, described-append, known_after-append,
}
use sub0log.Instance.{
  Options, declare_subsystem, declare_each, fresh_logger, finish_create, create_over, create_logger,
}

-- The record that names a subsystem.
abbrev pub naming : ℕ → Bytes → Request
naming subsystem name = record {
  kind = kind_code RecordKind.subsystem_definition;
  flags = truncated_flag (subsystem_definition_bytes subsystem name).1;
  payload = (subsystem_definition_bytes subsystem name).0;
}

naming-RequestFits : (subsystem : ℕ) (name : Bytes) → RequestFits (naming subsystem name)
naming-RequestFits subsystem name = flag_fits (subsystem_definition_bytes subsystem name).1
  where
    flag_fits :
        (cut : Bool)
        → RequestFits (record {
          kind = 8;
          flags = truncated_flag cut;
          payload = (subsystem_definition_bytes subsystem name).0;
        })
    flag_fits true = record { kind_fits = omega arith; flags_fit = omega arith }
    flag_fits false = record { kind_fits = omega arith; flags_fit = omega arith }

-- The name of a subsystem is found by the reader, or one drop is counted.
pub write_subsystem_definition_lem :
    (thread : ℕ) (clock : ℕ → ℕ) (subsystem : ℕ) (name : Bytes) (s : Producer) (k : ℕ)
    → Ready s k
    → k + 2 < 2 ^ 64
    → let p = hosted thread clock in
      let o = write_subsystem_definition p subsystem name s in
      (k' : ℕ) × (k' ≤ k + 2)
      × (Wrote s k'
            (bump p (subsystem_definition_bytes subsystem name).1 s.logger.truncated)
            (naming subsystem name)
            o
          ⊎ Dropped p s k' o)
unfolding write_subsystem_definition commit_record note_truncation
write_subsystem_definition_lem thread clock subsystem name s k ready room =
    let p = hosted thread clock in
    let r = naming subsystem name in
    let (payload, cut) = subsystem_definition_bytes subsystem name in
    let (k', s', near, refilled, settles) =
      reserve_record_lem thread clock s k (length payload) ready room in
    (
      k',
      near,
      elim settles [
        | inr (e, unfit) ↦ rw e (inr (Refilled-Dropped p s s' k k' refilled))
        | inl granted ↦ inl (
            Wrote-note_truncation p s k' s.logger.truncated r cut _ (
              Reserved-Wrote s s' k k' r _ refilled
                (granted r (naming-RequestFits subsystem name) refl)))
      ],
    )

-- The record that names a subsystem, byte by byte: its id, the length of the name, two zeros, and the
-- name, of which there are 512 bytes at most; flagged if the name was longer.
abbrev pub named : ℕ × Bytes → Request
named (id, name) = record {
  kind = 8;
  flags = if ltb 512 (length name) then 1 else 0;
  payload =
      (le_bytes 4 id ++ (le_bytes 2 (min (length name) 512) ++ le_bytes 2 0)) ++ take 512 name;
}

-- Each name in turn: its record is in the log, or it is lost.
pub data Names : List (ℕ × Bytes) → List Request → ℕ → Type 0 where
  all_named : Names [] [] 0
  kept :
      (n : ℕ × Bytes) {names : List (ℕ × Bytes)} {rs : List Request} {lost : ℕ}
      → Names names rs lost
      → Names (n ∷ names) (named n ∷ rs) lost
  left_out :
      (n : ℕ × Bytes) {names : List (ℕ × Bytes)} {rs : List Request} {lost : ℕ}
      → Names names rs lost
      → Names (n ∷ names) rs (1 + lost)

Names-same :
    {names : List (ℕ × Bytes)} {rs rs' : List Request} {lost lost' : ℕ}
    → rs ≡ rs'
    → lost ≡ lost'
    → Names names rs lost
    → Names names rs' lost'
Names-same a b f = rw (sym a, sym b) f

naming-named : (id : ℕ) (name : Bytes) → naming id name ≡ named (id, name)
unfolding subsystem_definition_bytes subsystem_definition_image
naming-named id name = elim (Bool-cases (ltb 512 (length name))) [
  | inl long ↦
      let size : length (take 512 name) % 2 ^ 16 ≡ 512 =
        omega (arith, length-take 512 name, ltb→lt 512 (length name) long) in
      let least : min (length name) 512 ≡ 512 = omega (arith, ltb→lt 512 (length name) long) in
      rw (long, size, least) refl
  | inr short ↦
      let low = ltb→le 512 (length name) short in
      let size : length name % 2 ^ 16 ≡ length name = omega (arith, low) in
      let least : min (length name) 512 ≡ length name = omega (arith, low) in
      rw (short, size, least, take-all 512 name low) refl
]

-- What declarations leave: the names that were taken are in the log, the others are drops.
pub record Declared (s s' : Producer) (k : ℕ) (rs : List Request) (names lost : ℕ) : Type 0 where
  pub ready : Ready s' k
  pub logged : log s' ≡ log s ++ rs
  pub balance : length rs + lost ≡ names
  pub counted : s'.logger.dropped ≡ (s.logger.dropped + lost) % 2 ^ 64
  pub in_range : s'.logger.dropped < 2 ^ 64
  pub silent : (messages_in rs ≡ 0) × (described [] rs ≡ true)
  pub unknown : known_after [] rs ≡ []

one-Declared :
    (thread : ℕ) (clock : ℕ → ℕ) (subsystem : ℕ) (name : Bytes) (s : Producer) (k t : ℕ)
    (o : Bool × Producer)
    → s.logger.dropped < 2 ^ 64
    → Wrote s k t (naming subsystem name) o ⊎ Dropped (hosted thread clock) s k o
    → (rs : List Request) × (lost : ℕ) × Declared s o.1 k rs 1 lost
      × ((names : List (ℕ × Bytes)) (rs' : List Request) (lost' : ℕ)
          → Names names rs' lost'
          → Names ((subsystem, name) ∷ names) (rs ++ rs') (lost + lost'))
unfolding messages_in described known_after increment_counter
one-Declared thread clock subsystem name s k t o range (inl w) = (
  naming subsystem name ∷ [],
  0,
  record {
    ready = w.ready;
    logged = w.logged;
    balance = omega arith;
    counted = omega (arith, w.same_dropped);
    in_range = omega (arith, w.same_dropped);
    silent = (refl, refl);
    unknown = refl;
  },
  λ names rs lost f.
      Names-same (ap (λ r. r ∷ rs) (sym (naming-named subsystem name))) (omega arith)
        (kept (subsystem, name) f),
)
one-Declared thread clock subsystem name s k t o range (inr d) = (
  [],
  1,
  record {
    ready = d.ready;
    logged = d.same_log ∙ sym (append-nil (log s));
    balance = omega arith;
    counted = d.counted;
    in_range = omega (arith, d.counted);
    silent = (refl, refl);
    unknown = refl;
  },
  λ names rs lost f. Names-same refl (omega arith) (left_out (subsystem, name) f),
)

declare_each_lem :
    (names : List (ℕ × Bytes)) (thread : ℕ) (clock : ℕ → ℕ) (s : Producer) (k : ℕ)
    → Ready s k
    → k + 2 * length names < 2 ^ 64
    → s.logger.dropped < 2 ^ 64
    → let s' = declare_each (hosted thread clock) names s in
      (k' : ℕ) × (k' ≤ k + 2 * length names)
      × ((rs : List Request) × (lost : ℕ) × Declared s s' k' rs (length names) lost
          × Names names rs lost)
unfolding declare_each declare_subsystem messages_in described known_after
declare_each_lem [] thread clock s k ready room range = (
  k,
  omega arith,
  (
    [],
    0,
    record {
      ready = ready;
      logged = sym (append-nil (log s));
      balance = omega arith;
      counted = omega arith;
      in_range = range;
      silent = (refl, refl);
      unknown = refl;
    },
    all_named,
  ),
)
declare_each_lem ((id, name) ∷ more) thread clock s k ready room range =
    let p = hosted thread clock in
    let (k1, near, ends) =
      write_subsystem_definition_lem thread clock id name s k ready (omega arith) in
    let o = write_subsystem_definition p id name s in
    let (rs, lost, a, step) = one-Declared thread clock id name s k1 _ o range ends in
    let (k2, near2, (rs2, lost2, b, found)) =
      declare_each_lem more thread clock o.1 k1 a.ready (omega arith) a.in_range in
    (
      k2,
      omega arith,
      (
        rs ++ rs2,
        lost + lost2,
        record {
          ready = b.ready;
          logged = b.logged ∙ ap (λ t. t ++ rs2) a.logged ∙ append_assoc (log s) rs rs2;
          balance = omega (arith, length-append rs rs2, a.balance, b.balance);
          counted = omega (arith, a.counted, b.counted);
          in_range = b.in_range;
          silent = (
            omega (arith, messages_in-append rs rs2, a.silent, b.silent),
            described-append [] rs rs2 a.silent.1 (rw a.unknown b.silent.1),
          );
          unknown =
              known_after-append [] rs rs2 ∙ ap (λ t. known_after t rs2) a.unknown ∙ b.unknown;
        },
        step more rs2 lost2 found,
      ),
    )

-- A thread that has written nothing, on a segment without a claim.
pub fresh-Ready :
    (address key root : ℕ) (severity : Severity) (segment : Segment) (owner generation : ℕ)
    → Stocked segment 0
    → Ready
        (record {
          logger = fresh_logger address key root severity segment;
          cache = record { owner = owner; generation = generation; writer = fresh_writer [] };
          left = [];
          readings = 0;
        })
        0
unfolding fresh_logger set_threshold
fresh-Ready address key root severity segment owner generation st = record {
  stocked = st;
  current = ([], Filled-zeros 0 (omega arith) (omega arith));
  others = tt;
}

pub fresh-log : (s : Producer) → s.left ≡ [] → s.cache.writer ≡ fresh_writer [] → log s ≡ []
unfolding log_of
fresh-log s e f =
    ap (λ t. t ++ records_of s.cache.writer) (ap log_of e)
    ∙ ap records_of f
    ∙ records_of-Filled (Filled-zeros 0 (omega arith) (omega arith))

made-Stocked :
    (host : Host) (n chunk_bytes : ℕ)
    → HostFits host
    → n < 2 ^ 37
    → 192 + chunk_bytes ≤ n
    → 48 ≤ chunk_bytes
    → chunk_bytes % 8 ≡ 0
    → chunk_bytes < 2 ^ 32
    → Stocked (initialise host (replicate n 0) 192 chunk_bytes) 0
unfolding initialise
made-Stocked host n chunk_bytes fits h room low even small =
    let claimed = (made-Claimed host fits n chunk_bytes h room low).0 in
    record {
      claimed = claimed;
      blank = λ i a b. created_blank host n chunk_bytes claimed i b;
      even = even;
      small = small;
    }

-- The state before the names are declared.
abbrev pub unnamed : ℕ → ℕ → ℕ → Severity → WriterCache → Segment → Producer
unnamed address key root severity cache segment = record {
  logger = fresh_logger address key root severity segment;
  cache = cache;
  left = [];
  readings = 0;
}

-- For a storage below 2^37 bytes, a 32-bit chunk size and fewer than 2^63 names, `createInMemory` on
-- a thread that has no chunk yet makes a Logger exactly for a storage and a chunk size that are
-- acceptable, and an error otherwise. The thread is then ready to emit: its chunks hold whole records
-- and the free chunks are blank. The reader finds nothing but records of the names that were given, in
-- their order, each with the subsystem's id and the name, of which there are 512 bytes at most and a
-- flag if it was longer; the names that it does not find are the drops.
pub create_logger_lem :
    (thread : ℕ) (clock : ℕ → ℕ) (host : Host) (address key root : ℕ) (options : Options)
    (owner generation at : ℕ) (storage : Bytes)
    → HostFits host
    → options.chunk_bytes < 2 ^ 32
    → length storage < 2 ^ 37
    → 2 * length options.subsystem_names < 2 ^ 64
    → let cache : WriterCache = record {
      owner = owner;
      generation = generation;
      writer = fresh_writer [];
    } in
      let result =
        create_logger (hosted thread clock) host address key root options cache at storage in
      (Acceptable at (length storage) options.chunk_bytes
        × ((s : Producer) × (result ≡ inr s)
            × ((k : ℕ) × (k ≤ 2 * length options.subsystem_names) × Ready s k)
            × (messages_in (log s) ≡ 0)
            × (described [] (log s) ≡ true)
            × (length (log s) + s.logger.dropped ≡ length options.subsystem_names)
            × Names options.subsystem_names (log s) s.logger.dropped))
      ⊎ (¬ Acceptable at (length storage) options.chunk_bytes
          × ((e : GeometryError) × (result ≡ inl e)))
unfolding create_logger create_over finish_create set_threshold fresh_logger
create_logger_lem thread clock host address key root options owner generation at storage fits small
      h few =
    let n = length storage in
    let cache : WriterCache = record {
      owner = owner;
      generation = generation;
      writer = fresh_writer [];
    } in
    let over = create_over (hosted thread clock) address key root options cache in
    elim (accepts_cases host at storage options.chunk_bytes) [
      | inr (refused, (e, same)) ↦ inr (refused, (e, ap over same))
      | inl ((low, even, there, aligned, room), same) ↦
          let segment = initialise host (replicate n 0) 192 options.chunk_bytes in
          let stocked = made-Stocked host n options.chunk_bytes fits h room low even small in
          let s = unnamed address key root options.threshold cache segment in
          let ready =
            fresh-Ready address key root options.threshold segment owner generation stocked in
          let (k, near, (rs, lost, d, found)) =
            declare_each_lem options.subsystem_names thread clock s 0 ready (omega arith)
              (omega arith) in
          let all = d.logged ∙ ap (λ t. t ++ rs) (fresh-log s refl refl) in
          inl (
            (low, even, there, aligned, room),
            (
              declare_each (hosted thread clock) options.subsystem_names s,
              ap over same,
              (k, omega (arith, near), d.ready),
              ap messages_in all ∙ d.silent.0,
              ap (described []) all ∙ d.silent.1,
              omega (arith, ap length all, d.balance, d.counted),
              Names-same (sym all) (omega (arith, d.balance, d.counted)) found,
            ),
          )
    ]
