-- ===== src/Emit/Ledger.antt =====
-- Calls of `emitRecord` (include/sub0log/detail/emit.hpp) one after the other: every call is a
-- message for the reader or a counted drop, and the segment describes itself.
use sub0log.Common.{
  ℕ, ◌+◌, ◌*◌, ◌%◌, ◌^◌, ◌≤◌, ◌<◌, ◌≡◌, refl, sym, ap, ◌∙◌, arith, Bool, true, false, ◌||◌, List,
  [], ◌∷◌, ◌++◌, append-nil, append_assoc, length, All, inl, inr, ◌⊎◌, Bool-cases, if◌then◌else◌,
  ◌==◌, ==_iff, ==_refl,
}
use sub0log.Args.Encode.{Arg}
use sub0log.Definitions.{Site}
use sub0log.Protocol.{Request}
use sub0log.Logger.{Platform, Producer, increment_counter}
use sub0log.Logger.Log.{log}
use sub0log.Logger.Claims.{hosted, Ready}
use sub0log.Logger.Reserve.{Dropped}
use sub0log.Emit.{write_site_definition}
use sub0log.Emit.Define.{SiteSize, write_site_definition_lem, Defined, definition_of}
use sub0log.Emit.Publish.{emit_record, emit_defined}
use sub0log.Emit.Messages.{MessageOf, MessageEnds, emit_announced_lem}
use sub0log.Emit.Known.{
  site_of, member, known_after, described, messages_in, known_after-append, messages_in-append,
  described-append, member-known_after, slice_requests-silent, site_of-definition, site_of-message,
}

-- A call of `emitRecord`, and calls of several sites; the sites' keys are a function of the id.
abbrev pub Call : Type 0
Call = Site × List Arg

-- `announcedKey_` of a site is set.
abbrev pub retold : ℕ → ℕ → (ℕ → ℕ) → ℕ → ℕ
retold site_id key announced id = if id == site_id then key else announced id

unfoldable pub emit_each : Platform → ℕ → List Call → (ℕ → ℕ) → Producer → (ℕ → ℕ) × Producer
emit_each p scoped [] announced s = (announced, s)
emit_each p scoped ((site, args) ∷ more) announced s =
    let (key, o) = emit_record p scoped site args (announced site.site_id) s in
    emit_each p scoped more (retold site.site_id key announced) o.1

-- A site of a size that its definition can be written in, and fewer than 256 arguments.
pub record CallFits (c : Call) : Type 0 where
  pub size : SiteSize c.0
  pub id_fits : c.0.site_id < 2 ^ 64
  pub few : length c.1 < 2 ^ 8

-- `rs` are new, `lost` calls were counted as drops, and the thread can go on.
pub record Accounts (s s' : Producer) (k : ℕ) (rs : List Request) (calls lost : ℕ) : Type 0 where
  pub ready : Ready s' k
  pub logged : log s' ≡ log s ++ rs
  pub balance : messages_in rs + lost ≡ calls
  pub counted : s'.logger.dropped ≡ (s.logger.dropped + lost) % 2 ^ 64
  pub in_range : s'.logger.dropped < 2 ^ 64
  pub same_generation : s'.logger.segment.generation ≡ s.logger.segment.generation

Dropped-Accounts :
    (thread : ℕ) (clock : ℕ → ℕ) (s : Producer) (k : ℕ) (o : Bool × Producer)
    → Dropped (hosted thread clock) s k o
    → Accounts s o.1 k [] 1 1
unfolding messages_in increment_counter
Dropped-Accounts thread clock s k o d = record {
  ready = d.ready;
  logged = d.same_log ∙ sym (append-nil (log s));
  balance = omega arith;
  counted = d.counted;
  in_range = omega (arith, d.counted);
  same_generation = d.same_generation;
}

messages_in-MessageOf :
    (site_id : ℕ) (rs : List Request) → MessageOf site_id rs → messages_in rs ≡ 1
unfolding messages_in
messages_in-MessageOf site_id rs (m, same, (flags, rest, cs, e)) =
    rw e (omega (arith, slice_requests-silent site_id cs []))

described-MessageOf :
    (site_id : ℕ) (rs : List Request) (known : List ℕ)
    → site_id < 2 ^ 64
    → member site_id known ≡ true
    → MessageOf site_id rs
    → described known rs ≡ true
unfolding described
described-MessageOf site_id rs known small h (m, same, (flags, rest, cs, e)) =
    let named = site_of-message m rest 1 flags (omega (arith, same)) ∙ same in
    rw (e, named, h) (slice_requests-silent site_id cs known).1

-- What a call that finds its site known, or makes it known, adds to the log.
MessageEnds-Accounts :
    (thread : ℕ) (clock : ℕ → ℕ) (site_id : ℕ) (s : Producer) (k : ℕ) (o : Bool × Producer)
    (known : List ℕ)
    → s.logger.dropped < 2 ^ 64
    → site_id < 2 ^ 64
    → member site_id known ≡ true
    → MessageEnds (hosted thread clock) site_id s k o
    → (rs : List Request) × (lost : ℕ) × Accounts s o.1 k rs 1 lost × (described known rs ≡ true)
unfolding described
MessageEnds-Accounts thread clock site_id s k o known range small h (inr dropped) =
    ([], 1, Dropped-Accounts thread clock s k o dropped, refl)
MessageEnds-Accounts thread clock site_id s k o known range small h (inl (t, rs, message, w)) = (
  rs,
  0,
  record {
    ready = w.ready;
    logged = w.logged;
    balance = omega (arith, messages_in-MessageOf site_id rs message);
    counted = omega (arith, w.same_dropped);
    in_range = omega (arith, w.same_dropped);
    same_generation = w.same_generation;
  },
  described-MessageOf site_id rs known small h message,
)

-- The sites that have the segment's key are known.
abbrev pub Remembers : (ℕ → ℕ) → ℕ → List ℕ → Type 0
Remembers announced key known = (id : ℕ) → announced id ≡ key → member id known ≡ true

-- What one call of `emitRecord` adds.
abbrev CallEnds : Site → Producer → ℕ → List ℕ → ℕ × (Bool × Producer) → Type 0
CallEnds site s k known (key, o) =
    (rs : List Request) × (lost : ℕ) × Accounts s o.1 k rs 1 lost
    × (described known rs ≡ true)
    × (key ≡ s.logger.segment.generation → member site.site_id (known_after known rs) ≡ true)

-- Behind the definition, or without it.
defined_lem :
    (thread : ℕ) (clock : ℕ → ℕ) (scoped : ℕ) (site : Site) (args : List Arg) (told : ℕ)
    (s : Producer) (k : ℕ) (known : List ℕ) (o : Bool × Producer)
    → k + 2 < 2 ^ 64
    → CallFits (site, args)
    → s.logger.dropped < 2 ^ 64
    → (told ≡ s.logger.segment.generation → member site.site_id known ≡ true)
    → Defined (hosted thread clock) site s k o ⊎ Dropped (hosted thread clock) s k o
    → (k' : ℕ) × (k' ≤ k + 2)
      × CallEnds site s k' known (emit_defined (hosted thread clock) scoped site args told o)
unfolding emit_defined described known_after messages_in
defined_lem thread clock scoped site args told s k known (false, s1) room fits range h
      (inl (lengths, cut, w)) =
    absurd (cc w.returns)
defined_lem thread clock scoped site args told s k known (true, s1) room fits range h (inr d) =
    absurd (cc d.returns)
defined_lem thread clock scoped site args told s k known (false, s1) room fits range h (inr d) =
    (k, omega arith, ([], 1, Dropped-Accounts thread clock s k (false, s1) d, refl, h))
defined_lem thread clock scoped site args told s k known (true, s1) room fits range h
      (inl (lengths, cut, w)) =
    let id = site.site_id in
    let d = definition_of site lengths in
    let named : site_of d ≡ id = site_of-definition site lengths fits.id_fits in
    let there : member id (site_of d ∷ known) ≡ true =
      rw named (ap (λ t. t || member id known) (==_refl id)) in
    let (k', near, ends) =
      emit_announced_lem thread clock scoped id args s1 k w.ready room fits.few in
    let (rs, lost, a, ok) =
      MessageEnds-Accounts thread clock id s1 k' _ (site_of d ∷ known)
        (omega (arith, w.same_dropped)) fits.id_fits there ends in
    (
      k',
      near,
      (
        d ∷ rs,
        lost,
        record {
          ready = a.ready;
          logged = a.logged ∙ ap (λ t. t ++ rs) w.logged ∙ append_assoc (log s) (d ∷ []) rs;
          balance = omega (arith, a.balance);
          counted = omega (arith, a.counted, w.same_dropped);
          in_range = a.in_range;
          same_generation = a.same_generation ∙ w.same_generation;
        },
        ok,
        λ e. member-known_after id rs (site_of d ∷ known) there,
      ),
    )

emit_record_lem :
    (thread : ℕ) (clock : ℕ → ℕ) (scoped : ℕ) (site : Site) (args : List Arg) (told : ℕ)
    (s : Producer) (k : ℕ) (known : List ℕ)
    → Ready s k
    → k + 4 < 2 ^ 64
    → CallFits (site, args)
    → s.logger.dropped < 2 ^ 64
    → (told ≡ s.logger.segment.generation → member site.site_id known ≡ true)
    → (k' : ℕ) × (k' ≤ k + 4)
      × CallEnds site s k' known (emit_record (hosted thread clock) scoped site args told s)
unfolding emit_record
emit_record_lem thread clock scoped site args told s k known ready room fits range h =
    let p = hosted thread clock in
    let id = site.site_id in
    elim (Bool-cases (told == s.logger.segment.generation)) [
      | inl same ↦
          let there = h ((==_iff told s.logger.segment.generation).0 same) in
          let (k', near, ends) =
            emit_announced_lem thread clock scoped id args s k ready (omega arith) fits.few in
          let (rs, lost, a, ok) =
            MessageEnds-Accounts thread clock id s k' _ known range fits.id_fits there ends in
          rw same (k', omega arith, (rs, lost, a, ok, λ e. member-known_after id rs known there))
      | inr new ↦
          let (k1, near, ends) =
            write_site_definition_lem thread clock site s k ready (omega arith) fits.size in
          let (k', near', result) =
            defined_lem thread clock scoped site args told s k1 known
              (write_site_definition p site s) (omega arith) fits range h
              (elim ends [ inl d ↦ inl d | inr (d, why) ↦ inr d ]) in
          rw new (k', omega arith, result)
    ]

-- From a segment's log that describes itself, for calls of sites whose keys are this segment's only
-- where the log defines them: every call of `emitRecord` is one message for the reader, behind what
-- was there, or one counted drop, so that messages and drops together are the calls; and every
-- message's site is defined before it. A site's record of the segment is right afterwards too. This
-- is with 64-bit atomics, for one thread whose chunks hold whole records and a segment whose free
-- chunks are blank, sites of fewer than 256 arguments, and as long as the claims do not wrap.
pub emit_each_lem :
    (calls : List Call) (thread : ℕ) (clock : ℕ → ℕ) (scoped : ℕ) (announced : ℕ → ℕ) (s : Producer)
    (k : ℕ)
    → Ready s k
    → k + 4 * length calls < 2 ^ 64
    → All CallFits calls
    → s.logger.dropped < 2 ^ 64
    → described [] (log s) ≡ true
    → Remembers announced s.logger.segment.generation (known_after [] (log s))
    → let (announced', s') = emit_each (hosted thread clock) scoped calls announced s in
      (k' : ℕ) × (rs : List Request) × (lost : ℕ) × Accounts s s' k' rs (length calls) lost
      × (described [] (log s') ≡ true)
      × Remembers announced' s.logger.segment.generation (known_after [] (log s'))
unfolding emit_each messages_in
emit_each_lem [] thread clock scoped announced s k ready room fits range d r = (
  k,
  [],
  0,
  record {
    ready = ready;
    logged = sym (append-nil (log s));
    balance = omega arith;
    counted = omega arith;
    in_range = range;
    same_generation = refl;
  },
  d,
  r,
)
emit_each_lem ((site, args) ∷ more) thread clock scoped announced s k ready room (f, fits) range d
      r =
    let p = hosted thread clock in
    let id = site.site_id in
    let (key, o) = emit_record p scoped site args (announced id) s in
    let known = known_after [] (log s) in
    let (k1, near, (rs, lost, a, ok, told)) =
      emit_record_lem thread clock scoped site args (announced id) s k known ready (omega arith) f
        range (r id) in
    let d' : described [] (log o.1) ≡ true = rw a.logged (described-append [] (log s) rs d ok) in
    let after : known_after [] (log o.1) ≡ known_after known rs =
      ap (known_after []) a.logged ∙ known_after-append [] (log s) rs in
    let same = a.same_generation in
    let told' : Remembers (retold id key announced) o.1.logger.segment.generation
        (known_after [] (log o.1)) =
      λ x e. rw after (remembers_more known rs id key announced r told x (e ∙ same)) in
    let (k2, rs2, lost2, b, d2, r2) =
      emit_each_lem more thread clock scoped (retold id key announced) o.1 k1 a.ready (omega arith)
        fits a.in_range d' told' in
    (
      k2,
      rs ++ rs2,
      lost + lost2,
      record {
        ready = b.ready;
        logged = b.logged ∙ ap (λ t. t ++ rs2) a.logged ∙ append_assoc (log s) rs rs2;
        balance = omega (arith, messages_in-append rs rs2, a.balance, b.balance);
        counted = omega (arith, a.counted, b.counted);
        in_range = b.in_range;
        same_generation = b.same_generation ∙ same;
      },
      d2,
      λ x e. r2 x (e ∙ sym same),
    )
  where
    remembers_more :
        {generation : ℕ} (known : List ℕ) (rs : List Request) (id key : ℕ) (announced : ℕ → ℕ)
        → Remembers announced generation known
        → (key ≡ generation → member id (known_after known rs) ≡ true)
        → Remembers (retold id key announced) generation (known_after known rs)
    remembers_more known rs id key announced r told x e = elim (Bool-cases (x == id)) [
      | inl this ↦
          let same = (==_iff x id).0 this in
          rw same (told (ap (λ b. if b then key else announced x) (sym this) ∙ e))
      | inr other ↦
          member-known_after x rs known
            (r x (ap (λ b. if b then key else announced x) (sym other) ∙ e))
    ]
