-- ===== src/Common/Bytes.antt =====
-- Memory as lists of bytes: little-endian integers, `std::memcpy` at an offset, and the words that
-- an offset holds (`loadUnaligned` and `storeUnaligned` of include/sub0log/wire.hpp).
use Prim.Native.Nat.{ℕ, zero, suc, ◌+◌, ◌*◌, ◌/◌, ◌%◌, ◌^◌, ◌<◌}
use mathlib.Core.Path.{◌≡◌, refl, ap, sym, ◌∙◌}
use mathlib.Core.List.{List, [], ◌∷◌, ◌++◌}
use native.Mathlib.Nat.{pow-suc}
use native.Mathlib.Omega.{arith}
use sub0log.Common.Lists.{length, take, drop, All, take-append, drop-append, drop-drop}

abbrev pub IsByte : ℕ → Type 0
IsByte b = b < 256

abbrev pub Bytes : Type 0
Bytes = List ℕ

-- The `n` bytes of an unsigned integer, lowest first.
abbrev pub le_bytes : ℕ → ℕ → Bytes
le_bytes zero v = []
le_bytes (suc n) v = (v % 256) ∷ le_bytes n (v / 256)

-- The integer that bytes stand for.
abbrev pub le_value : Bytes → ℕ
le_value [] = 0
le_value (b ∷ bs) = b + 256 * le_value bs

-- `loadUnaligned` of an `n`-byte unsigned integer at an offset.
unfoldable pub load : ℕ → Bytes → ℕ → ℕ
load n memory offset = le_value (take n (drop offset memory))

-- `std::memcpy` of `bs` over the front of a memory; what would fall behind its end is not written.
abbrev pub overlay : Bytes → Bytes → Bytes
overlay [] bs = []
overlay (x ∷ xs) [] = x ∷ xs
overlay (x ∷ xs) (b ∷ bs) = b ∷ overlay xs bs

-- `std::memcpy` to an offset.
unfoldable pub store : Bytes → ℕ → Bytes → Bytes
store [] offset bs = []
store (x ∷ xs) zero bs = overlay (x ∷ xs) bs
store (x ∷ xs) (suc offset) bs = x ∷ store xs offset bs

-- The view of `n` bytes at an offset (`std::span::subspan`).
abbrev pub view : Bytes → ℕ → ℕ → Bytes
view memory offset n = take n (drop offset memory)

pub length-le_bytes : (n v : ℕ) → length (le_bytes n v) ≡ n
length-le_bytes zero v = refl
length-le_bytes (suc n) v = ap suc (length-le_bytes n (v / 256))

pub le_bytes-IsByte : (n v : ℕ) → All IsByte (le_bytes n v)
le_bytes-IsByte zero v = tt
le_bytes-IsByte (suc n) v = (omega arith, le_bytes-IsByte n (v / 256))

power_step : (n : ℕ) → 256 ^ suc n ≡ 256 * 256 ^ n
power_step n = omega (arith, pow-suc 256 n)

pub le_value-le_bytes : (n v : ℕ) → v < 256 ^ n → le_value (le_bytes n v) ≡ v
le_value-le_bytes zero v h = omega arith
le_value-le_bytes (suc n) v h =
    omega (arith, le_value-le_bytes n (v / 256) (omega (arith, power_step n)))

-- An `n`-byte store keeps only the low bytes of what it is given.
pub le_value-le_bytes_wrap : (n v : ℕ) → le_value (le_bytes n v) < 256 ^ n
le_value-le_bytes_wrap zero v = omega arith
le_value-le_bytes_wrap (suc n) v = omega (arith, power_step n, le_value-le_bytes_wrap n (v / 256))

pub le_bytes-le_value : (bs : Bytes) → All IsByte bs → le_bytes (length bs) (le_value bs) ≡ bs
le_bytes-le_value [] h = refl
le_bytes-le_value (b ∷ bs) (hb, hs) =
    let low : (b + 256 * le_value bs) % 256 ≡ b = omega arith in
    let high : (b + 256 * le_value bs) / 256 ≡ le_value bs = omega arith in
    rw (low, high) (ap (λ t. b ∷ t) (le_bytes-le_value bs hs))

pub le_value-lt : (bs : Bytes) → All IsByte bs → le_value bs < 256 ^ length bs
le_value-lt [] h = omega arith
le_value-lt (b ∷ bs) (hb, hs) = omega (arith, power_step (length bs), le_value-lt bs hs)

-- What stands behind a known front is loaded as it stands; the offset is the front's length.
pub load-append :
    (n : ℕ) (front rest : Bytes) (offset : ℕ)
    → offset ≡ length front
    → load n (front ++ rest) offset ≡ le_value (take n rest)
unfolding load
load-append n front rest offset e = ap (λ t. le_value (take n t)) (drop-append offset front rest e)

pub load-le_bytes :
    (n v : ℕ) (front rest : Bytes) (offset : ℕ)
    → offset ≡ length front
    → v < 256 ^ n
    → load n (front ++ (le_bytes n v ++ rest)) offset ≡ v
load-le_bytes n v front rest offset e h =
    load-append n front (le_bytes n v ++ rest) offset e
    ∙ ap le_value (take-append n (le_bytes n v) rest (sym (length-le_bytes n v)))
    ∙ le_value-le_bytes n v h

pub view-append :
    (n : ℕ) (front bs rest : Bytes) (offset : ℕ)
    → offset ≡ length front
    → n ≡ length bs
    → view (front ++ (bs ++ rest)) offset n ≡ bs
view-append n front bs rest offset e k =
    ap (take n) (drop-append offset front (bs ++ rest) e) ∙ take-append n bs rest k

length-overlay : (xs bs : Bytes) → length (overlay xs bs) ≡ length xs
length-overlay [] bs = refl
length-overlay (x ∷ xs) [] = refl
length-overlay (x ∷ xs) (b ∷ bs) = ap suc (length-overlay xs bs)

pub length-store : (xs : Bytes) (offset : ℕ) (bs : Bytes) → length (store xs offset bs) ≡ length xs
unfolding store
length-store [] offset bs = refl
length-store (x ∷ xs) zero bs = length-overlay (x ∷ xs) bs
length-store (x ∷ xs) (suc offset) bs = ap suc (length-store xs offset bs)

overlay-append :
    (old bs rest : Bytes) → length bs ≡ length old → overlay (old ++ rest) bs ≡ bs ++ rest
overlay-append [] [] [] e = refl
overlay-append [] [] (r ∷ rest) e = refl
overlay-append [] (b ∷ bs) rest e = absurd (omega arith)
overlay-append (x ∷ old) [] rest e = absurd (omega arith)
overlay-append (x ∷ old) (b ∷ bs) rest e =
    ap (λ t. b ∷ t) (overlay-append old bs rest (omega arith))

-- A store replaces the bytes that stand at its offset and nothing else.
pub store-append :
    (front old bs rest : Bytes) (offset : ℕ)
    → offset ≡ length front
    → length bs ≡ length old
    → store (front ++ (old ++ rest)) offset bs ≡ front ++ (bs ++ rest)
unfolding store
store-append [] [] [] [] zero e k = refl
store-append [] [] [] (r ∷ rest) zero e k = refl
store-append [] [] (b ∷ bs) rest zero e k = absurd (omega arith)
store-append [] (x ∷ old) bs rest zero e k = overlay-append (x ∷ old) bs rest k
store-append [] old bs rest (suc offset) e k = absurd (omega arith)
store-append (x ∷ front) old bs rest zero e k = absurd (omega arith)
store-append (x ∷ front) old bs rest (suc offset) e k =
    ap (λ t. x ∷ t) (store-append front old bs rest offset (omega arith) k)

-- A load past a known front is a load from what follows.
pub load-past :
    (n : ℕ) (front rest : Bytes) (at k : ℕ)
    → at ≡ length front
    → load n (front ++ rest) (at + k) ≡ load n rest k
unfolding load
load-past n front rest at k e =
    let split : drop (at + k) (front ++ rest) ≡ drop k (drop at (front ++ rest)) =
      sym (drop-drop k at (front ++ rest)) in
    ap (λ t. le_value (take n t)) (split ∙ ap (drop k) (drop-append at front rest e))

-- What is loaded from bytes fits the type it is loaded as.
le_value-take-lt : (n : ℕ) (bs : Bytes) → All IsByte bs → le_value (take n bs) < 256 ^ n
le_value-take-lt zero bs h = omega arith
le_value-take-lt (suc n) [] h = omega (arith, power_step n, le_value-take-lt n [] tt)
le_value-take-lt (suc n) (b ∷ bs) (hb, hs) = omega (arith, power_step n, le_value-take-lt n bs hs)

drop-IsByte : (n : ℕ) (bs : Bytes) → All IsByte bs → All IsByte (drop n bs)
drop-IsByte zero bs h = h
drop-IsByte (suc n) [] h = tt
drop-IsByte (suc n) (b ∷ bs) (hb, hs) = drop-IsByte n bs hs

pub load-lt : (n : ℕ) (memory : Bytes) (at : ℕ) → All IsByte memory → load n memory at < 256 ^ n
unfolding load
load-lt n memory at h = le_value-take-lt n (drop at memory) (drop-IsByte at memory h)
