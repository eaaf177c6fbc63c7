-- ===== src/Emit/Known.antt =====
-- What a segment's log says of call sites (docs/record-model.md, "strict self-description"): which
-- are defined, and whether every message's site is defined before the message.
use sub0log.Common.{
  ℕ, ◌+◌, ◌^◌, ◌<◌, ◌≡◌, refl, arith, Bool, true, false, ◌&&◌, ◌||◌, List, [], ◌∷◌, ◌++◌, ◌==◌,
  if◌then◌else◌, Bool-cases, inl, inr,
}
use sub0log.Common.Bytes.{Bytes, load, le_value-le_bytes}
use sub0log.Wire.Layout.{MessagePayload, message_image, site_definition_image}
use sub0log.Definitions.{Site, site_definition_bytes}
use sub0log.Protocol.{Request}
use sub0log.Emit.Chain.{Slice}
use sub0log.Emit.Layout.{slice_requests}
use sub0log.Emit.Define.{definition_of}

-- The site that a definition or a message names.
abbrev pub site_of : Request → ℕ
site_of r = load 8 r.payload 0

abbrev pub member : ℕ → List ℕ → Bool
member id [] = false
member id (x ∷ xs) = (x == id) || member id xs

abbrev pub learn : Request → List ℕ → List ℕ
learn r known = if r.kind == 2 then site_of r ∷ known else known

-- The sites that are known behind a log, and whether each message's is known where it stands.
unfoldable pub known_after : List ℕ → List Request → List ℕ
known_after known [] = known
known_after known (r ∷ rs) = known_after (learn r known) rs

unfoldable pub described : List ℕ → List Request → Bool
described known [] = true
described known (r ∷ rs) =
    (if r.kind == 1 then member (site_of r) known else true) && described (learn r known) rs

-- The messages of a log.
unfoldable pub messages_in : List Request → ℕ
messages_in [] = 0
messages_in (r ∷ rs) = (if r.kind == 1 then 1 else 0) + messages_in rs

pub known_after-append :
    (known : List ℕ) (xs ys : List Request)
    → known_after known (xs ++ ys) ≡ known_after (known_after known xs) ys
unfolding known_after
known_after-append known [] ys = refl
known_after-append known (x ∷ xs) ys = known_after-append (learn x known) xs ys

pub messages_in-append :
    (xs ys : List Request) → messages_in (xs ++ ys) ≡ messages_in xs + messages_in ys
unfolding messages_in
messages_in-append [] ys = omega arith
messages_in-append (x ∷ xs) ys = omega (arith, messages_in-append xs ys)

and_true : (a b : Bool) → (a && b) ≡ true → (a ≡ true) × (b ≡ true)
and_true a b h = ground arith

and_both : (a b : Bool) → a ≡ true → b ≡ true → (a && b) ≡ true
and_both a b h k = ground arith

pub described-append :
    (known : List ℕ) (xs ys : List Request)
    → described known xs ≡ true
    → described (known_after known xs) ys ≡ true
    → described known (xs ++ ys) ≡ true
unfolding described known_after
described-append known [] ys h k = k
described-append known (x ∷ xs) ys h k =
    let (first, rest) = and_true _ (described (learn x known) xs) h in
    and_both _ (described (learn x known) (xs ++ ys)) first
      (described-append (learn x known) xs ys rest k)

-- A known site stays known.
member-learn :
    (id : ℕ) (r : Request) (known : List ℕ)
    → member id known ≡ true
    → member id (learn r known) ≡ true
member-learn id r known h = elim (Bool-cases (r.kind == 2)) [
  | inl defines ↦ rw (defines, h) (ground arith)
  | inr other ↦ rw other h
]

pub member-known_after :
    (id : ℕ) (rs : List Request) (known : List ℕ)
    → member id known ≡ true
    → member id (known_after known rs) ≡ true
unfolding known_after
member-known_after id [] known h = h
member-known_after id (r ∷ rs) known h =
    member-known_after id rs (learn r known) (member-learn id r known h)

-- The continuations of a chain are no messages and define nothing.
pub slice_requests-silent :
    (site_id : ℕ) (cs : List Slice) (known : List ℕ)
    → (messages_in (slice_requests site_id cs) ≡ 0)
      × (described known (slice_requests site_id cs) ≡ true)
unfolding messages_in described
slice_requests-silent site_id [] known = (refl, refl)
slice_requests-silent site_id (c ∷ cs) known =
    let (a, b) = slice_requests-silent site_id cs known in (omega (arith, a), b)

-- A site definition names its site, and a message its own.
pub site_of-definition :
    (site : Site) (lengths : ℕ × ℕ × Bool)
    → site.site_id < 2 ^ 64
    → site_of (definition_of site lengths) ≡ site.site_id
unfolding site_definition_bytes site_definition_image load
site_of-definition site (f, g, cut) h = le_value-le_bytes 8 site.site_id h

pub site_of-message :
    (m : MessagePayload) (rest : Bytes) (kind flags : ℕ)
    → m.site_id < 2 ^ 64
    → site_of (record { kind = kind; flags = flags; payload = message_image m ++ rest }) ≡ m.site_id
unfolding message_image load
site_of-message m rest kind flags h = le_value-le_bytes 8 m.site_id h
