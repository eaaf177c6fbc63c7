-- ===== src/Emit/Define.antt =====
-- `writeSiteDefinitionCore` of include/sub0log/detail/emit.hpp: whole in the current chunk or a fresh
-- one, shortened in a fresh one, or dropped.
use sub0log.Common.{
  ℕ, ◌+◌, ◌-◌, ◌%◌, ◌^◌, ◌≤◌, ◌<◌, ◌≡◌, refl, sym, ap, arith, Bool, true, false, none, some, List,
  [], ◌++◌, length, length-append, length-take, take, inl, inr, ◌⊎◌, ltb, Bool-cases, ltb→lt,
  ltb→le,
}
use sub0log.Common.Bytes.{le_bytes}
use sub0log.Wire.{padded_payload, RecordKind, kind_code}
use sub0log.Wire.Layout.{site_definition_image}
use sub0log.Definitions.{Site, definition_payload_bytes, site_definition_bytes, shorten}
use sub0log.Definitions.Shorten.{shorten_lem, shorten_le}
use sub0log.Chunk.{Reservation, remaining, is_valid}
use sub0log.Chunk.Layout.{remaining-Holds}
use sub0log.Reader.Body.Written.{Entry}
use sub0log.Protocol.{Request, RequestFits}
use sub0log.Logger.{Platform, Producer, set_writer, refill_writer, current_writer}
use sub0log.Logger.Log.{Filled, NoRoom}
use sub0log.Logger.Claims.{
  hosted, Ready, Refilled, refill_writer_lem, current_writer_lem, claimed_writer,
}
use sub0log.Logger.Reserve.{
  Wrote, Dropped, Reserved-Wrote, Refilled-Dropped, Refilled-trans, try_reserve_lem, valid_claimed,
  invalid_claimed, blank_claimed,
}
use sub0log.Emit.{
  truncated_flag, commit_definition, whole, reserve_definition, define_fresh, define_refilled,
  define_first, write_site_definition,
}
use sub0log.Emit.Attempts.{bump, Wrote-note_truncation}

-- The record that defines a site, with the lengths of its strings.
abbrev pub definition_of : Site → ℕ × ℕ × Bool → Request
definition_of site (format_len, file_len, cut) = record {
  kind = kind_code RecordKind.site_definition;
  flags = truncated_flag cut;
  payload = site_definition_bytes site format_len file_len;
}

-- Lengths that cut the strings of a site, and a flag that is set unless both are whole.
abbrev pub Lengths : Site → ℕ × ℕ × Bool → Type 0
Lengths site (format_len, file_len, cut) =
    (format_len ≤ length site.format)
    × (file_len ≤ length site.file)
    × ((cut ≡ true) ⊎ ((format_len ≡ length site.format) × (file_len ≡ length site.file)))

-- A site with fewer than 256 arguments whose definition is below 2^32 bytes.
pub record SiteSize (site : Site) : Type 0 where
  pub few : length site.type_codes < 2 ^ 8
  pub bounded : 28 + length site.type_codes + length site.format + length site.file < 2 ^ 32

definition_of-RequestFits :
    (site : Site) (lengths : ℕ × ℕ × Bool) → RequestFits (definition_of site lengths)
definition_of-RequestFits site (f, g, true) = record {
  kind_fits = omega arith;
  flags_fit = omega arith;
}
definition_of-RequestFits site (f, g, false) = record {
  kind_fits = omega arith;
  flags_fit = omega arith;
}

-- What is written is as long as what was reserved.
pub length-site_definition_bytes :
    (site : Site) (format_len file_len : ℕ)
    → format_len ≤ length site.format
    → file_len ≤ length site.file
    → length (site_definition_bytes site format_len file_len)
      ≡ 28 + length site.type_codes + format_len + file_len
unfolding site_definition_bytes site_definition_image
length-site_definition_bytes site f g a b =
    let file_part = le_bytes 2 g ++ take g site.file in
    let strings = le_bytes 2 f ++ (take f site.format ++ file_part) in
    omega (
      arith,
      length-append site.type_codes strings,
      length-append (take f site.format) file_part,
      length-take f site.format,
      length-take g site.file,
    )

-- An attempt in the chunk that `s'` is at, with lengths that cut the site's strings.
define_step :
    (p : Platform) (site : Site) (s s' : Producer) (k k' : ℕ) (lengths : ℕ × ℕ × Bool)
    (es : List Entry) (f : Filled s'.cache.writer es) (valid : Bool)
    → SiteSize site
    → Lengths site lengths
    → Refilled s s' k k'
    → let o = reserve_definition site lengths (valid, s') in
      ((slot : Reservation) × (s'' : Producer) × (o ≡ (some slot, s''))
        × Wrote s k'
            (bump p lengths.2 s.logger.truncated)
            (definition_of site lengths)
            (commit_definition p site lengths (some slot, s'')))
      ⊎ ((o ≡ (none, s'))
          × ((valid ≡ false) ⊎ NoRoom f.free (length (definition_of site lengths).payload)))
unfolding commit_definition definition_payload_bytes
define_step p site s s' k k' (f_len, g_len, cut) es f valid size (a, b, c) refilled =
    let r = definition_of site (f_len, g_len, cut) in
    let fits = definition_of-RequestFits site (f_len, g_len, cut) in
    let width : definition_payload_bytes (length site.type_codes) f_len g_len ≡ length r.payload =
      omega (arith, length-site_definition_bytes site f_len g_len a b, size.few, size.bounded) in
    rw width (elim (try_reserve_lem s' es (length r.payload) f valid) [
      | inl granted ↦
          let (slot, w', e, short, filled) = granted r fits refl in
          inl (
            slot,
            set_writer s' w',
            e,
            Wrote-note_truncation p s k' s.logger.truncated r cut _ (
                Reserved-Wrote s s' k k' r (some slot, set_writer s' w') refilled
                  (slot, w', refl, short, filled)),
          )
      | inr refused ↦ inr refused
    ])

-- A definition that the reader finds, with lengths that the writer decided on.
abbrev pub Defined : Platform → Site → Producer → ℕ → Bool × Producer → Type 0
Defined p site s k o =
    (lengths : ℕ × ℕ × Bool) × Lengths site lengths
    × Wrote s k (bump p lengths.2 s.logger.truncated) (definition_of site lengths) o

-- A definition that is lost: all chunks are claimed, or they are too small for the fixed part.
abbrev pub NotDefined : Platform → Site → Producer → ℕ → Bool × Producer → Type 0
NotDefined p site s k o =
    Dropped p s k o
    × ((s.logger.segment.chunk_count < k)
        ⊎ (s.logger.segment.chunk_bytes - 32 < 36 + length site.type_codes))

whole-Lengths : (site : Site) → Lengths site (whole site)
whole-Lengths site = (omega arith, omega arith, inr (refl, refl))

abbrev shortened_size : Site → ℕ → ℕ
shortened_size site n =
    length
      (definition_of site
        (shorten n (length site.type_codes) (length site.format) (length site.file))).payload

-- In a fresh chunk with room for the fixed part the shortened definition fits.
shortened_fits :
    (site : Site) (n : ℕ)
    → SiteSize site
    → n % 8 ≡ 0
    → 36 + length site.type_codes ≤ n
    → ¬ NoRoom n (shortened_size site n)
unfolding definition_payload_bytes
shortened_fits site n size even room no_room =
    let argc = length site.type_codes in
    let (f, g, cut) = shorten n argc (length site.format) (length site.file) in
    let (small, fits, a, b, c) =
      shorten_lem n argc (length site.format) (length site.file) even room size.few in
    let wide = length-site_definition_bytes site f g a b in
    let same : definition_payload_bytes argc f g ≡ length (site_definition_bytes site f g) =
      omega (arith, wide, size.few, size.bounded) in
    let full = no_room (omega (arith, small, same)) in
    absurd (omega (arith, full, ap (λ t. padded_payload t) same, fits))

define_fresh_lem :
    (p : Platform) (site : Site) (s s' : Producer) (k k' : ℕ) (f : Filled s'.cache.writer [])
    → SiteSize site
    → Refilled s s' k k'
    → f.free % 8 ≡ 0
    → let o = define_fresh p site (reserve_definition site (whole site) (true, s')) in
      Defined p site s k' o ⊎ (Dropped p s k' o × (f.free < 36 + length site.type_codes))
unfolding define_fresh commit_definition
define_fresh_lem p site s s' k k' f size refilled even =
    elim (define_step p site s s' k k' (whole site) [] f true size (whole-Lengths site) refilled) [
      | inl (slot, s'', e, wrote) ↦ inl (whole site, whole-Lengths site, rw e wrote)
      | inr (e, why) ↦ rw e (second (remaining s'.cache.writer) (remaining-Holds f.holds))
    ]
  where
    too_small :
        (n : ℕ)
        → n ≡ f.free
        → (true ≡ false) ⊎ NoRoom f.free (shortened_size site n)
        → f.free < 36 + length site.type_codes
    too_small n same (inl e) = absurd (cc e)
    too_small n same (inr no_room) = elim (Bool-cases (ltb n (36 + length site.type_codes))) [
      | inl small ↦ omega (arith, ltb→lt n (36 + length site.type_codes) small)
      | inr large ↦ absurd (
          shortened_fits site n size (omega (arith, same, even))
            (ltb→le n (36 + length site.type_codes) large)
            (λ short. omega (arith, no_room short, same)))
    ]

    second :
        (n : ℕ)
        → n ≡ f.free
        → let lengths =
            shorten n (length site.type_codes) (length site.format) (length site.file) in
          let o = commit_definition p site lengths (reserve_definition site lengths (true, s')) in
          Defined p site s k' o ⊎ (Dropped p s k' o × (f.free < 36 + length site.type_codes))
    second n same =
        let lengths = shorten n (length site.type_codes) (length site.format) (length site.file) in
        let shorter =
          shorten_le n (length site.type_codes) (length site.format) (length site.file) in
        elim (define_step p site s s' k k' lengths [] f true size shorter refilled) [
          | inl (slot, s'', e, wrote) ↦ inl (lengths, shorter, rw e wrote)
          | inr (e, why) ↦ rw e (inr (Refilled-Dropped p s s' k k' refilled, too_small n same why))
        ]

-- The second attempt, in the chunk that `s'` has claimed with index `k'`.
define_refilled_lem :
    (p : Platform) (site : Site) (s s0 s' : Producer) (k k' : ℕ) (valid : Bool)
    → SiteSize site
    → Refilled s s0 k k'
    → Refilled s0 s' k' (k' + 1)
    → valid ≡ is_valid (claimed_writer s0.logger.segment k')
    → s'.cache.writer ≡ claimed_writer s0.logger.segment k'
    → let o = define_refilled p site (valid, s') in
      Defined p site s (k' + 1) o ⊎ NotDefined p site s (k' + 1) o
unfolding define_refilled
define_refilled_lem p site s s0 s' k k' false size before after usable same = inr (
  Refilled-Dropped p s s' k (k' + 1) (Refilled-trans before after),
  inl (
      omega (
        arith,
        invalid_claimed s0.logger.segment k' before.ready.stocked (sym usable),
        before.same_count,
      )),
)
define_refilled_lem p site s s0 s' k k' true size before after usable same =
    let seg = s0.logger.segment in
    let st = before.ready.stocked in
    let lt = valid_claimed seg k' (sym usable) in
    let (f, free) = blank_claimed seg k' s'.cache.writer st lt same in
    elim (define_fresh_lem p site s s' k (k' + 1) f size (Refilled-trans before after)
      (omega (arith, free, st.even, st.claimed.chunk_room))) [
        | inl defined ↦ inl defined
        | inr (dropped, small) ↦ inr (dropped, inr (omega (arith, small, free, before.same_bytes)))
      ]

-- The definition of a site with fewer than 256 arguments, whose payload would stay below 2^32
-- bytes, is found by the reader behind all that the thread wrote before: whole or with its strings
-- cut, which the record's flag and the count of truncations then tell, and no drop is counted; or
-- nothing changes for the reader and exactly one drop is counted, which happens only when the
-- claims have gone past the last chunk or a chunk is too small for the definition without strings.
-- This is with 64-bit atomics, for a thread whose chunks hold whole records and a segment whose
-- free chunks are blank, as long as the claims are not so many that the cursor wraps.
pub write_site_definition_lem :
    (thread : ℕ) (clock : ℕ → ℕ) (site : Site) (s : Producer) (k : ℕ)
    → Ready s k
    → k + 2 < 2 ^ 64
    → SiteSize site
    → let o = write_site_definition (hosted thread clock) site s in
      (k' : ℕ) × (k' ≤ k + 2)
      × (Defined (hosted thread clock) site s k' o ⊎ NotDefined (hosted thread clock) site s k' o)
unfolding write_site_definition define_first
write_site_definition_lem thread clock site s k ready room size =
    let p = hosted thread clock in
    let (valid, s0) = current_writer p s in
    let (usable, (k0, low, near, before)) =
      current_writer_lem thread clock s k ready (omega arith) in
    let (es, f) = before.ready.current in
    elim (define_step p site s s0 k k0 (whole site) es f valid size (whole-Lengths site) before) [
      | inl (slot, s'', e, wrote) ↦
          (k0, omega arith, rw e (inl (whole site, whole-Lengths site, wrote)))
      | inr (e, why) ↦
          let (again, same, after) =
            refill_writer_lem thread clock s0 k0 before.ready (omega arith) in
          (
            k0 + 1,
            omega arith,
            rw e (
                define_refilled_lem p site s s0 (refill_writer p s0).1 k k0 (refill_writer p s0).0
                  size before after again same),
          )
    ]
