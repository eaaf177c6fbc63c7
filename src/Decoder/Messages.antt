-- ===== src/Decoder/Messages.antt =====
-- `Decoder::decodeAll` of include/sub0log/reader.hpp, its second pass: messages and their chains.
use sub0log.Common.{
  ℕ, zero, suc, ◌/◌, ◌%◌, Bool, true, false, not, ◌&&◌, Option, none, some, List, [], ◌∷◌, ◌++◌,
  ltb, ◌==◌, if◌then◌else◌, length, drop, get_elem?,
}
use sub0log.Common.Bytes.{Bytes}
use sub0log.Wire.{RecordKind, kind_of, type_code, TypeCode}
use sub0log.Wire.RecordKind.{message, continuation}
use sub0log.Wire.Layout.{MessagePayload, load_message, load_continuation}
use sub0log.Reader.Body.{RecordView}
use sub0log.Args.Decode.{DecodedArg, text, decode_args}
use sub0log.Definitions.{DecodedSite}
use sub0log.Decoder.{Decoder, fresh_decoder, increment, find_site, first_pass}

-- `struct DecodedRecord`
pub record DecodedRecord : Type 0 where
  pub site : DecodedSite
  pub mono_ns : ℕ
  pub correlation_id : ℕ
  pub owner_thread : ℕ
  pub truncated : Bool
  pub args : List DecodedArg
  pub segment_generation : ℕ
  pub record_offset : ℕ

-- The locals of the second pass. Storage that an argument owns holds what the argument shows, so
-- `pendingOwned` adds nothing to the arguments of `pending` but their number.
pub record Chain : Type 0 where
  pub result : List DecodedRecord
  pub pending : Option DecodedRecord
  pub expecting : Bool
  pub damaged : Bool
  pub undecodable : ℕ
  pub skipped : ℕ

-- The lambda `finalizePending`.
unfoldable pub finalize_pending : Chain → Option DecodedRecord → Chain
finalize_pending c none = c
finalize_pending c (some r) = record {
  result = if c.damaged then c.result else c.result ++ (r ∷ []);
  pending = none;
  expecting = false;
  damaged = false;
  undecodable = if c.damaged then increment c.undecodable else c.undecodable;
  skipped = c.skipped;
}

abbrev pub finalize : Chain → Chain
finalize c = finalize_pending c c.pending

abbrev pub has_flag : ℕ → ℕ → Bool
has_flag flags place = not (flags / place % 2 == 0)

-- The slice is appended to the text of an argument.
abbrev pub append_at : List DecodedArg → ℕ → Bytes → List DecodedArg
append_at [] i tail = []
append_at (text bs ∷ more) zero tail = text (bs ++ tail) ∷ more
append_at (a ∷ more) zero tail = a ∷ more
append_at (a ∷ more) (suc i) tail = a ∷ append_at more i tail

abbrev pub is_bytes_code : Option ℕ → Bool
is_bytes_code none = false
is_bytes_code (some code) = code == type_code TypeCode.bytes

unfoldable pub valid_target : Bool → DecodedRecord → ℕ → Bool
valid_target damaged r i =
    not damaged
    && (ltb i (length r.args)
        && (ltb i (length r.site.arg_types) && is_bytes_code (get_elem? r.site.arg_types i)))

-- One slice for the record that waits.
unfoldable pub extend : Chain → Option DecodedRecord → Bytes → Chain
extend c none payload = record c { damaged = true }
extend c (some r) payload =
    let i = (load_continuation payload).arg_index in
    if ltb (length payload) 16
    then record c { damaged = true }
    else if not (valid_target c.damaged r i)
    then record c { damaged = true }
    else record c { pending = some (record r { args = append_at r.args i (drop 16 payload) }) }

unfoldable pub continue_chain : Chain → RecordView → Chain
continue_chain c v =
    let c' = extend c c.pending v.payload in
    if has_flag v.head.flags 2 then record c' { expecting = true } else finalize c'

abbrev pub fail : Chain → Chain
fail c = record c { undecodable = increment c.undecodable }

module _ (widen : ℕ → ℕ) (decoder : Decoder) (generation : ℕ) where
  abbrev pub record_of : RecordView → MessagePayload → DecodedSite → List DecodedArg → DecodedRecord
  record_of v prefix site args = record {
    site = site;
    mono_ns = prefix.mono_ns;
    correlation_id = prefix.correlation_id;
    owner_thread = v.owner_thread;
    truncated = has_flag v.head.flags 1;
    args = args;
    segment_generation = generation;
    record_offset = v.record_offset;
  }

  -- A message whose arguments were read, or `ok == false`.
  unfoldable pub publish :
      Chain → RecordView → MessagePayload → DecodedSite → Option (List DecodedArg) → Chain
  publish c v prefix site none = fail c
  publish c v prefix site (some args) =
      if has_flag v.head.flags 2
      then record c {
        pending = some (record_of v prefix site args);
        expecting = true;
        damaged = false;
      }
      else record c { result = c.result ++ (record_of v prefix site args ∷ []) }

  unfoldable pub with_site : Chain → RecordView → MessagePayload → Option DecodedSite → Chain
  with_site c v prefix none = fail c
  with_site c v prefix (some site) =
      publish c v prefix site (decode_args widen site.arg_types v.payload 24)

  unfoldable pub open_message : Chain → RecordView → Chain
  open_message c v =
      let prefix = load_message v.payload in
      if ltb (length v.payload) 24
      then fail c
      else with_site c v prefix (find_site prefix.site_id decoder.sites)

  -- The handling by kind, when no chain takes the record.
  unfoldable pub by_kind : Chain → RecordView → Option RecordKind → Chain
  by_kind c v (some continuation) = record c { skipped = increment c.skipped }
  by_kind c v (some message) = open_message c v
  by_kind c v _ = c

  -- A record while a chain expects its next slice.
  unfoldable pub expected : Chain → RecordView → Option RecordKind → Chain
  expected c v (some continuation) = continue_chain c v
  expected c v kind = by_kind (finalize (record c { damaged = true })) v kind

  unfoldable pub take_record : Chain → RecordView → Chain
  take_record c v =
      if c.expecting then expected c v (kind_of v.head.kind) else by_kind c v (kind_of v.head.kind)

  unfoldable pub second_pass : Chain → List RecordView → Chain
  second_pass c [] = c
  second_pass c (v ∷ views) = second_pass (take_record c v) views

  -- The end of the stream.
  unfoldable pub close_pending : Chain → Option DecodedRecord → Chain
  close_pending c none = c
  close_pending c (some r) = finalize (record c { damaged = true })

  abbrev pub open_chain : Chain
  open_chain = record {
    result = [];
    pending = none;
    expecting = false;
    damaged = false;
    undecodable = decoder.undecodable;
    skipped = decoder.skipped;
  }

-- `decodeAll` of a fresh decoder on the records that `visit` hands out.
unfoldable pub decode_all : (ℕ → ℕ) → ℕ → List RecordView → Chain
unfolding first_pass second_pass close_pending
decode_all widen generation views =
    let decoder = first_pass fresh_decoder views in
    let c = second_pass widen decoder generation (open_chain widen decoder generation) views in
    close_pending widen decoder generation c c.pending
