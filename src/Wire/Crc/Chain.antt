-- ===== src/Wire/Crc/Chain.antt =====
-- Incremental use of the CRC-32 of include/sub0log/wire.hpp, and what one changed byte does to it.
use sub0log.Common.{
  ℕ, ◌^◌, ◌<◌, ◌≡◌, ◌≢◌, refl, ap, sym, ◌∙◌, arith, ◌==◌, bit_xor, [], ◌∷◌, ◌++◌, All,
  if◌then◌else◌,
}
use sub0log.Common.Bytes.{Bytes, IsByte, le_bytes}
use sub0log.Common.Xor.{xor-lt, xor_assoc, xor_self, xor-zero, zero-xor}
use sub0log.Wire.Crc.{crc_byte, complement, crc32, header_checksum}
use sub0log.Wire.Crc.Linear.{shift_bits-lt, shift_bits-injective}
use sub0log.Wire.Crc.Nibble.{crc_byte-eq}
use mathlib.Core.List.{foldl}

crc_byte-lt : (crc b : ℕ) → crc < 2 ^ 32 → IsByte b → crc_byte crc b < 2 ^ 32
crc_byte-lt crc b h k =
    rw (crc_byte-eq crc b) (shift_bits-lt 8 (bit_xor crc b) (xor-lt 32 crc b h (omega arith)))

fold-lt : (bs : Bytes) (crc : ℕ) → crc < 2 ^ 32 → All IsByte bs → foldl crc_byte crc bs < 2 ^ 32
fold-lt [] crc h k = h
fold-lt (b ∷ bs) crc h (kb, ks) = fold-lt bs (crc_byte crc b) (crc_byte-lt crc b h kb) ks

foldl-append :
    (f : ℕ → ℕ → ℕ) (xs ys : Bytes) (a : ℕ) → foldl f a (xs ++ ys) ≡ foldl f (foldl f a xs) ys
foldl-append f [] ys a = refl
foldl-append f (x ∷ xs) ys a = foldl-append f xs ys (f a x)

pub crc32-lt : (crc : ℕ) (bs : Bytes) → crc32 crc bs < 2 ^ 32
unfolding crc32
crc32-lt crc bs = omega arith

-- From a 32-bit start value, the checksum of two pieces, the first one's result fed to the second
-- call, is the checksum of the bytes in one piece.
pub crc32-append :
    (crc : ℕ) (xs ys : Bytes)
    → crc < 2 ^ 32
    → All IsByte xs
    → crc32 (crc32 crc xs) ys ≡ crc32 crc (xs ++ ys)
unfolding crc32
crc32-append crc xs ys h k =
    let start = complement crc in
    let small : foldl crc_byte start xs < 2 ^ 32 = fold-lt xs start (omega arith) k in
    let back : complement (complement (foldl crc_byte start xs)) ≡ foldl crc_byte start xs =
      omega arith in
    ap complement (ap (λ t. foldl crc_byte t ys) back ∙ sym (foldl-append crc_byte xs ys start))

crc_byte-injective :
    (a b x y : ℕ)
    → a < 2 ^ 32
    → b < 2 ^ 32
    → IsByte x
    → IsByte y
    → crc_byte a x ≡ crc_byte b y
    → bit_xor a x ≡ bit_xor b y
crc_byte-injective a b x y ha hb hx hy e =
    shift_bits-injective 8 (bit_xor a x) (bit_xor b y) (xor-lt 32 a x ha (omega arith))
      (xor-lt 32 b y hb (omega arith)) (sym (crc_byte-eq a x) ∙ e ∙ crc_byte-eq b y)

xor_cancel : (a x : ℕ) → bit_xor (bit_xor a x) x ≡ a
xor_cancel a x = xor_assoc a x x ∙ ap (bit_xor a) (xor_self x) ∙ xor-zero a

xor_cancel_left : (a x : ℕ) → bit_xor a (bit_xor a x) ≡ x
xor_cancel_left a x = sym (xor_assoc a a x) ∙ ap (λ t. bit_xor t x) (xor_self a) ∙ zero-xor x

-- The bytes that follow keep two different states apart.
fold-injective :
    (bs : Bytes) (a b : ℕ)
    → a < 2 ^ 32
    → b < 2 ^ 32
    → All IsByte bs
    → foldl crc_byte a bs ≡ foldl crc_byte b bs
    → a ≡ b
fold-injective [] a b ha hb k e = e
fold-injective (x ∷ bs) a b ha hb (kx, ks) e =
    let next =
      fold-injective bs (crc_byte a x) (crc_byte b x) (crc_byte-lt a x ha kx)
        (crc_byte-lt b x hb kx) ks e in
    sym (xor_cancel a x)
    ∙ ap (λ t. bit_xor t x) (crc_byte-injective a b x x ha hb kx kx next)
    ∙ xor_cancel b x

-- From the same 32-bit start value, two inputs of bytes that differ in exactly one byte have
-- different checksums.
pub crc32-changed_byte :
    (crc : ℕ) (front back : Bytes) (x y : ℕ)
    → crc < 2 ^ 32
    → All IsByte front
    → All IsByte back
    → IsByte x
    → IsByte y
    → x ≢ y
    → crc32 crc (front ++ (x ∷ back)) ≢ crc32 crc (front ++ (y ∷ back))
unfolding crc32
crc32-changed_byte crc front back x y h kf kb kx ky ne e =
    let start = complement crc in
    let mid = foldl crc_byte start front in
    let small : mid < 2 ^ 32 = fold-lt front start (omega arith) kf in
    let sx : crc_byte mid x < 2 ^ 32 = crc_byte-lt mid x small kx in
    let sy : crc_byte mid y < 2 ^ 32 = crc_byte-lt mid y small ky in
    let lx : foldl crc_byte start (front ++ (x ∷ back)) < 2 ^ 32 =
      rw (foldl-append crc_byte front (x ∷ back) start) (fold-lt back (crc_byte mid x) sx kb) in
    let ly : foldl crc_byte start (front ++ (y ∷ back)) < 2 ^ 32 =
      rw (foldl-append crc_byte front (y ∷ back) start) (fold-lt back (crc_byte mid y) sy kb) in
    let same : foldl crc_byte start (front ++ (x ∷ back))
        ≡ foldl crc_byte start (front ++ (y ∷ back)) =
      omega arith in
    let step : crc_byte mid x ≡ crc_byte mid y =
      fold-injective back (crc_byte mid x) (crc_byte mid y) sx sy kb (
        sym (foldl-append crc_byte front (x ∷ back) start)
        ∙ same
        ∙ foldl-append crc_byte front (y ∷ back) start) in
    ne (
      sym (xor_cancel_left mid x)
      ∙ ap (bit_xor mid) (crc_byte-injective mid mid x y small small kx ky step)
      ∙ xor_cancel_left mid y)

header_buffer-IsByte : (a b c : ℕ) → All IsByte (le_bytes 8 a ++ (le_bytes 8 b ++ le_bytes 8 c))
header_buffer-IsByte a b c = omega arith

-- The fields that the checksum covers, as one string of 25 bytes.
abbrev pub covered_bytes : ℕ → ℕ → ℕ → ℕ → Bytes
covered_bytes g t c k = (le_bytes 8 g ++ (le_bytes 8 t ++ le_bytes 8 c)) ++ (k ∷ [])

abbrev pub nonzero : ℕ → ℕ
nonzero crc = if crc == 0 then 1 else crc

nonzero_ne : (crc : ℕ) → nonzero crc ≢ 0
nonzero_ne crc = ground arith

header_checksum_crc :
    (g t c k : ℕ) → header_checksum g t c k ≡ nonzero (crc32 0 (covered_bytes g t c k))
unfolding header_checksum
header_checksum_crc g t c k = ap nonzero (
    crc32-append 0 (le_bytes 8 g ++ (le_bytes 8 t ++ le_bytes 8 c)) (k ∷ []) (omega arith)
      (header_buffer-IsByte g t c))

-- The checksum of a chunk header is the CRC-32 of its 25 covered bytes, with 1 in place of 0; so it
-- is never the value that means that no checksum is present.
pub header_checksum_lem :
    (g t c k : ℕ)
    → (header_checksum g t c k ≡ nonzero (crc32 0 (covered_bytes g t c k)))
      × (header_checksum g t c k ≢ 0)
header_checksum_lem g t c k = (
  header_checksum_crc g t c k,
  λ e. nonzero_ne (crc32 0 (covered_bytes g t c k)) (sym (header_checksum_crc g t c k) ∙ e),
)
