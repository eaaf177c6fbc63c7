-- ===== src/Decoder/Ledger.antt =====
-- `Decoder::decodeAll` of include/sub0log/reader.hpp: no message is lost without being counted.
use sub0log.Common.{
  ℕ, ◌+◌, ◌^◌, ◌<◌, ◌≡◌, refl, ap, arith, true, false, Option, none, some, List, [], ◌∷◌, length,
  length-append, ltb, Option-cases, inl, inr,
}
use sub0log.Wire.{RecordKind, kind_of}
use sub0log.Wire.RecordKind.{message, continuation}
use sub0log.Wire.Layout.{MessagePayload, load_message}
use sub0log.Reader.Body.{RecordView}
use sub0log.Args.Decode.{DecodedArg}
use sub0log.Definitions.{DecodedSite}
use sub0log.Decoder.{Decoder, fresh_decoder, first_pass}
use sub0log.Decoder.Messages.{
  DecodedRecord, Chain, finalize, publish, with_site, open_message, by_kind, expected, take_record,
  second_pass, close_pending, open_chain, decode_all, has_flag,
}
use sub0log.Decoder.Balance.{
  is_message, messages, waiting, waits, Ledger, is_message_le, messages_le, finalize-Ledger,
  set_damaged-Ledger, on_branches, on_tested, fail-Ledger, continue_chain-Ledger,
}

module _ (widen : ℕ → ℕ) (decoder : Decoder) (generation : ℕ) where
  publish-Ledger :
      (total : ℕ) (c : Chain) (v : RecordView) (prefix : MessagePayload) (site : DecodedSite)
      (args : Option (List DecodedArg))
      → Ledger total c
      → c.pending ≡ none
      → total + 1 < 2 ^ 64
      → Ledger (total + 1) (publish widen decoder generation c v prefix site args)
  unfolding publish
  publish-Ledger total c v prefix site none l e h = fail-Ledger total c l h
  publish-Ledger total c v prefix site (some args) l e h =
      on_branches (Ledger (total + 1)) (has_flag v.head.flags 2)
        (record { balanced = omega (arith, l.balanced, ap waiting e); opened = refl })
        (record {
          balanced = omega (arith, l.balanced, length-append c.result (_ ∷ []));
          opened = l.opened;
        })

  with_site-Ledger :
      (total : ℕ) (c : Chain) (v : RecordView) (prefix : MessagePayload) (site : Option DecodedSite)
      → Ledger total c
      → c.pending ≡ none
      → total + 1 < 2 ^ 64
      → Ledger (total + 1) (with_site widen decoder generation c v prefix site)
  unfolding with_site
  with_site-Ledger total c v prefix none l e h = fail-Ledger total c l h
  with_site-Ledger total c v prefix (some site) l e h = publish-Ledger total c v prefix site _ l e h

  by_kind-Ledger :
      (total : ℕ) (c : Chain) (v : RecordView) (kind : Option RecordKind)
      → Ledger total c
      → c.pending ≡ none
      → total + 1 < 2 ^ 64
      → Ledger (total + is_message kind) (by_kind widen decoder generation c v kind)
  unfolding by_kind open_message
  by_kind-Ledger total c v (some message) l e h =
      on_branches (Ledger (total + 1)) (ltb (length v.payload) 24) (fail-Ledger total c l h)
        (with_site-Ledger total c v (load_message v.payload) _ l e h)
  by_kind-Ledger total c v (some continuation) l e h = record {
    balanced = omega (arith, l.balanced);
    opened = l.opened;
  }
  by_kind-Ledger total c v none l e h = record {
    balanced = omega (arith, l.balanced);
    opened = l.opened;
  }
  by_kind-Ledger total c v (some _) l e h = record {
    balanced = omega (arith, l.balanced);
    opened = l.opened;
  }

  interrupted-Ledger :
      (total : ℕ) (c : Chain) (v : RecordView) (kind : Option RecordKind)
      → Ledger total c
      → total + 1 < 2 ^ 64
      → Ledger
          (total + is_message kind)
          (by_kind widen decoder generation (finalize (record c { damaged = true })) v kind)
  interrupted-Ledger total c v kind l h =
      let (m, closed) =
        finalize-Ledger total (record c { damaged = true }) (set_damaged-Ledger total c l)
          (omega arith) in
      by_kind-Ledger total (finalize (record c { damaged = true })) v kind m closed h

  expected-Ledger :
      (total : ℕ) (c : Chain) (v : RecordView) (kind : Option RecordKind)
      → Ledger total c
      → c.expecting ≡ true
      → total + 1 < 2 ^ 64
      → Ledger (total + is_message kind) (expected widen decoder generation c v kind)
  unfolding expected
  expected-Ledger total c v (some continuation) l o h =
      let m = continue_chain-Ledger total c v l o (omega arith) in
      record { balanced = omega (arith, m.balanced); opened = m.opened }
  expected-Ledger total c v none l o h = interrupted-Ledger total c v none l h
  expected-Ledger total c v (some k) l o h = interrupted-Ledger total c v (some k) l h

  nothing_waits : (c : Chain) (total : ℕ) → Ledger total c → c.expecting ≡ false → c.pending ≡ none
  nothing_waits c total l o = elim (Option-cases c.pending) [
    | inl e ↦ e
    | inr (r, e) ↦ cc (l.opened, o, ap waits e)
  ]

  take_record-Ledger :
      (total : ℕ) (c : Chain) (v : RecordView)
      → Ledger total c
      → total + 1 < 2 ^ 64
      → Ledger (total + is_message (kind_of v.head.kind)) (take_record widen decoder generation c v)
  unfolding take_record
  take_record-Ledger total c v l h =
      on_tested (Ledger (total + is_message (kind_of v.head.kind))) c.expecting
        (λ o. expected-Ledger total c v (kind_of v.head.kind) l o h)
        (λ o. by_kind-Ledger total c v (kind_of v.head.kind) l (nothing_waits c total l o) h)

  second_pass-Ledger :
      (total : ℕ) (c : Chain) (views : List RecordView)
      → Ledger total c
      → total + length views < 2 ^ 64
      → Ledger (total + messages views) (second_pass widen decoder generation c views)
  unfolding second_pass
  second_pass-Ledger total c [] l h = record {
    balanced = omega (arith, l.balanced);
    opened = l.opened;
  }
  second_pass-Ledger total c (v ∷ views) l h =
      let one = take_record-Ledger total c v l (omega arith) in
      let m =
        second_pass-Ledger (total + is_message (kind_of v.head.kind))
          (take_record widen decoder generation c v) views one
          (omega (arith, is_message_le (kind_of v.head.kind))) in
      record { balanced = omega (arith, m.balanced); opened = m.opened }

  close_pending-Ledger :
      (total : ℕ) (c : Chain) (p : Option DecodedRecord)
      → c.pending ≡ p
      → Ledger total c
      → total < 2 ^ 64
      → length (close_pending widen decoder generation c p).result
          + (close_pending widen decoder generation c p).undecodable
        ≡ total
  unfolding close_pending
  close_pending-Ledger total c none e l h = omega (arith, l.balanced, ap waiting e)
  close_pending-Ledger total c (some r) e l h =
      let (m, closed) =
        finalize-Ledger total (record c { damaged = true }) (set_damaged-Ledger total c l) h in
      omega (arith, m.balanced, ap waiting closed)

-- Every message of a segment comes out as a decoded record or is counted as undecodable, whatever
-- its site, its arguments and its continuation chain look like: the decoded records and the final
-- count of undecodable records together are the messages and the malformed definitions that the
-- first pass counted, as long as that count and the number of records fit 64 bits.
pub decode_all_lem :
    (widen : ℕ → ℕ) (generation : ℕ) (views : List RecordView)
    → (first_pass fresh_decoder views).undecodable + length views < 2 ^ 64
    → let c = decode_all widen generation views in
      length c.result + c.undecodable
      ≡ (first_pass fresh_decoder views).undecodable + messages views
unfolding decode_all
decode_all_lem widen generation views h =
    let decoder = first_pass fresh_decoder views in
    let start : Ledger decoder.undecodable (open_chain widen decoder generation) = record {
      balanced = omega arith;
      opened = refl;
    } in
    let c = second_pass widen decoder generation (open_chain widen decoder generation) views in
    let l =
      second_pass-Ledger widen decoder generation decoder.undecodable
        (open_chain widen decoder generation) views start h in
    close_pending-Ledger widen decoder generation (decoder.undecodable + messages views) c c.pending
      refl l (omega (arith, messages_le views))
