-- ===== src/Decoder/Balance.antt =====
-- `Decoder::decodeAll` of include/sub0log/reader.hpp: the balance of messages over one chain.
use sub0log.Common.{
  ℕ, ◌+◌, ◌^◌, ◌≤◌, ◌<◌, ◌≡◌, refl, sym, ap, ◌∙◌, arith, Bool, true, false, Option, none, some,
  List, [], ◌∷◌, length, length-append, drop, ltb, not, if◌then◌else◌, Bool-cases, inl, inr,
}
use sub0log.Common.Bytes.{Bytes}
use sub0log.Wire.{RecordKind, kind_of}
use sub0log.Wire.RecordKind.{message}
use sub0log.Wire.Layout.{load_continuation}
use sub0log.Reader.Body.{RecordView}
use sub0log.Decoder.{increment}
use sub0log.Decoder.Messages.{
  DecodedRecord, Chain, finalize_pending, finalize, extend, continue_chain, valid_target, has_flag,
  fail, append_at,
}

abbrev pub is_message : Option RecordKind → ℕ
is_message (some message) = 1
is_message _ = 0

-- The messages among the records.
abbrev pub messages : List RecordView → ℕ
messages [] = 0
messages (v ∷ views) = is_message (kind_of v.head.kind) + messages views

abbrev pub waiting : Option DecodedRecord → ℕ
waiting none = 0
waiting (some r) = 1

abbrev pub waits : Option DecodedRecord → Bool
waits none = false
waits (some r) = true

pub is_message_le : (k : Option RecordKind) → is_message k ≤ 1
is_message_le k = ground arith

pub messages_le : (views : List RecordView) → messages views ≤ length views
messages_le [] = omega arith
messages_le (v ∷ views) = omega (arith, is_message_le (kind_of v.head.kind), messages_le views)

-- Every message so far was published, counted, or waits for its chain.
pub record Ledger (total : ℕ) (c : Chain) : Type 0 where
  pub balanced : length c.result + c.undecodable + waiting c.pending ≡ total
  pub opened : c.expecting ≡ waits c.pending

increment_small : (n : ℕ) → n + 1 < 2 ^ 64 → increment n ≡ n + 1
increment_small n h = omega arith

finalize_pending-Ledger :
    (total : ℕ) (c : Chain) (p : Option DecodedRecord)
    → c.pending ≡ p
    → Ledger total c
    → total < 2 ^ 64
    → Ledger total (finalize_pending c p) × ((finalize_pending c p).pending ≡ none)
unfolding finalize_pending
finalize_pending-Ledger total c none e l h = (l, e)
finalize_pending-Ledger total c (some r) e l h =
    let w : waiting c.pending ≡ 1 = ap waiting e in
    let room = increment_small c.undecodable (omega (arith, l.balanced, w)) in
    (
      record {
        balanced = elim (Bool-cases c.damaged) [
          | inl d ↦ rw d (omega (arith, room, l.balanced, w))
          | inr d ↦ rw d (omega (arith, length-append c.result (r ∷ []), l.balanced, w))
        ];
        opened = refl;
      },
      refl,
    )

pub finalize-Ledger :
    (total : ℕ) (c : Chain)
    → Ledger total c
    → total < 2 ^ 64
    → Ledger total (finalize c) × ((finalize c).pending ≡ none)
finalize-Ledger total c l h = finalize_pending-Ledger total c c.pending refl l h

pub set_damaged-Ledger :
    (total : ℕ) (c : Chain) → Ledger total c → Ledger total (record c { damaged = true })
set_damaged-Ledger total c l = record { balanced = l.balanced; opened = l.opened }

pub on_branches : (P : Chain → Type 0) (b : Bool) {x y : Chain} → P x → P y → P (if b then x else y)
on_branches P true p q = p
on_branches P false p q = q

pub on_tested :
    (P : Chain → Type 0) (b : Bool) {x y : Chain}
    → (b ≡ true → P x)
    → (b ≡ false → P y)
    → P (if b then x else y)
on_tested P true p q = p refl
on_tested P false p q = q refl

-- A slice changes neither what waits nor what was counted.
extend-Ledger :
    (total : ℕ) (c : Chain) (p : Option DecodedRecord) (payload : Bytes)
    → c.pending ≡ p
    → Ledger total c
    → Ledger total (extend c p payload)
unfolding extend
extend-Ledger total c none payload e l = set_damaged-Ledger total c l
extend-Ledger total c (some r) payload e l =
    let i = (load_continuation payload).arg_index in
    let hurt = set_damaged-Ledger total c l in
    let longer : DecodedRecord = record r { args = append_at r.args i (drop 16 payload) } in
    on_branches (Ledger total) (ltb (length payload) 16) hurt (
      on_branches (Ledger total) (not (valid_target c.damaged r i)) hurt (record {
        balanced = omega (arith, l.balanced, ap waiting e);
        opened = l.opened ∙ ap waits e;
      }))

pub fail-Ledger :
    (total : ℕ) (c : Chain) → Ledger total c → total + 1 < 2 ^ 64 → Ledger (total + 1) (fail c)
fail-Ledger total c l h = record {
  balanced = omega (arith, l.balanced, increment_small c.undecodable (omega (arith, l.balanced)));
  opened = l.opened;
}

extend-expecting :
    (c : Chain) (p : Option DecodedRecord) (payload : Bytes)
    → (extend c p payload).expecting ≡ c.expecting
unfolding extend
extend-expecting c none payload = refl
extend-expecting c (some r) payload =
    let P : Chain → Type 0 = λ x. x.expecting ≡ c.expecting in
    on_branches P (ltb (length payload) 16) refl (
      on_branches P (not (valid_target c.damaged r (load_continuation payload).arg_index)) refl
        refl)

pub continue_chain-Ledger :
    (total : ℕ) (c : Chain) (v : RecordView)
    → Ledger total c
    → c.expecting ≡ true
    → total < 2 ^ 64
    → Ledger total (continue_chain c v)
unfolding continue_chain
continue_chain-Ledger total c v l o h =
    let m = extend-Ledger total c c.pending v.payload refl l in
    on_branches (Ledger total) (has_flag v.head.flags 2)
      (record {
        balanced = m.balanced;
        opened = sym (extend-expecting c c.pending v.payload ∙ o) ∙ m.opened;
      })
      (finalize-Ledger total (extend c c.pending v.payload) m h).0
