-- ===== src/Decoder.antt =====
-- `Decoder::decodeAll` of include/sub0log/reader.hpp: the site table, and messages with their
-- continuation chains. `SegmentReader::visit` hands both passes the same records.
pub mod Messages
pub mod Balance
pub mod Ledger
use sub0log.Common.{
  ℕ, zero, suc, ◌+◌, ◌/◌, ◌%◌, ◌^◌, Bool, Option, none, some, List, [], ◌∷◌, ltb, ◌==◌,
  if◌then◌else◌, length,
}
use sub0log.Common.Bytes.{Bytes}
use sub0log.Wire.{RecordKind, kind_of}
use sub0log.Wire.RecordKind.{
  invalid, message, site_definition, continuation, blob, child_output, child_start, child_exit,
  subsystem_definition,
}
use sub0log.Reader.Body.{RecordView}
use sub0log.Definitions.{DecodedSite, parse_site_definition, parse_subsystem_definition}

-- The tables and counters of a `Decoder`; the newest entry of a table comes last, as it is looked up
-- from the front.
pub record Decoder : Type 0 where
  pub sites : List DecodedSite
  pub subsystem_names : List (ℕ × Bytes)
  pub undecodable : ℕ
  pub skipped : ℕ

abbrev pub fresh_decoder : Decoder
fresh_decoder = record { sites = []; subsystem_names = []; undecodable = 0; skipped = 0 }

abbrev pub increment : ℕ → ℕ
increment n = (n + 1) % 2 ^ 64

-- `siteFor`
unfoldable pub find_site : ℕ → List DecodedSite → Option DecodedSite
find_site id [] = none
find_site id (s ∷ more) = let later = find_site id more in if s.site_id == id then some s else later

-- `subsystemName`, with the empty name for an id that nobody declared.
unfoldable pub find_name : ℕ → List (ℕ × Bytes) → Option Bytes
find_name id [] = none
find_name id ((k, name) ∷ more) =
    let later = find_name id more in if k == id then some name else later

-- `try_emplace`: the first entry of a key stays.
unfoldable pub add_site : List DecodedSite → DecodedSite → List DecodedSite
add_site [] new = new ∷ []
add_site (s ∷ more) new =
    let later = add_site more new in if s.site_id == new.site_id then s ∷ more else s ∷ later

unfoldable pub add_name : List (ℕ × Bytes) → ℕ → Bytes → List (ℕ × Bytes)
add_name [] id name = (id, name) ∷ []
add_name ((k, old) ∷ more) id name =
    let later = add_name more id name in if k == id then (k, old) ∷ more else (k, old) ∷ later

abbrev pub count_undecodable : Decoder → Decoder
count_undecodable d = record d { undecodable = increment d.undecodable }

abbrev pub count_skipped : Decoder → Decoder
count_skipped d = record d { skipped = increment d.skipped }

abbrev pub declare_site : Decoder → Option DecodedSite → Decoder
declare_site d none = count_undecodable d
declare_site d (some s) = record d { sites = add_site d.sites s }

abbrev pub declare_name : Decoder → Option (ℕ × Bytes) → Decoder
declare_name d none = count_undecodable d
declare_name d (some (id, name)) = record d { subsystem_names = add_name d.subsystem_names id name }

-- The first pass on a record of a kind; `none` is a kind that no enumerator names.
unfoldable pub declare_kind : Decoder → Bytes → Option RecordKind → Decoder
declare_kind d payload (some site_definition) = declare_site d (parse_site_definition payload)
declare_kind d payload (some subsystem_definition) =
    declare_name d (parse_subsystem_definition payload)
declare_kind d payload (some message) = d
declare_kind d payload (some continuation) = d
declare_kind d payload (some invalid) = count_skipped d
declare_kind d payload (some blob) = count_skipped d
declare_kind d payload (some child_output) = count_skipped d
declare_kind d payload (some child_start) = count_skipped d
declare_kind d payload (some child_exit) = count_skipped d
declare_kind d payload none = count_skipped d

unfoldable pub first_pass : Decoder → List RecordView → Decoder
unfolding declare_kind
first_pass d [] = d
first_pass d (v ∷ views) = first_pass (declare_kind d v.payload (kind_of v.head.kind)) views
