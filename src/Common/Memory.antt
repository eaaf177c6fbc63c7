-- ===== src/Common/Memory.antt =====
-- Stores and loads at any place of a memory: what a store changes, and what it leaves.
use Prim.Native.Nat.{ℕ, zero, suc, ◌+◌, ◌≤◌, ◌<◌, ◌^◌}
use mathlib.Core.Path.{◌≡◌, refl, ap, sym, ◌∙◌}
use mathlib.Core.List.{[], ◌∷◌, ◌++◌}
use native.Mathlib.Omega.{arith}
use sub0log.Common.Lists.{length, take, drop, take-append-drop, length-take, length-drop, drop-drop}
use sub0log.Common.Bytes.{
  Bytes, le_bytes, le_value, length-le_bytes, load, load-le_bytes, overlay, store, store-append,
}

-- A store that fits replaces its own bytes between the ones before and behind it.
pub store_parts :
    (memory bs : Bytes) (at : ℕ)
    → at + length bs ≤ length memory
    → store memory at bs ≡ take at memory ++ (bs ++ drop (at + length bs) memory)
store_parts memory bs at h =
    let n = length bs in
    let front = take at memory in
    let back = drop at memory in
    ap (λ t. store t at bs)
      (sym (take-append-drop at memory) ∙ ap (λ t. front ++ t) (sym (take-append-drop n back)))
    ∙ store-append front (take n back) bs (drop n back) at (omega (arith, length-take at memory))
        (omega (arith, length-take n back, length-drop at memory))
    ∙ ap (λ t. front ++ (bs ++ t)) (drop-drop n at memory)

-- What lies before a store is not touched.
pub store-before :
    (memory bs : Bytes) (n k at : ℕ)
    → k + n ≤ at
    → take n (drop k (store memory at bs)) ≡ take n (drop k memory)
unfolding store
store-before [] bs n k at h = refl
store-before (x ∷ xs) bs zero k at h = refl
store-before (x ∷ xs) bs (suc n) k zero h = absurd (omega arith)
store-before (x ∷ xs) bs (suc n) zero (suc at) h =
    ap (λ t. x ∷ t) (store-before xs bs n 0 at (omega arith))
store-before (x ∷ xs) bs (suc n) (suc k) (suc at) h = store-before xs bs (suc n) k at (omega arith)

overlay-after : (xs bs : Bytes) (k : ℕ) → length bs ≤ k → drop k (overlay xs bs) ≡ drop k xs
overlay-after [] bs k h = refl
overlay-after (x ∷ xs) [] k h = refl
overlay-after (x ∷ xs) (b ∷ bs) zero h = absurd (omega arith)
overlay-after (x ∷ xs) (b ∷ bs) (suc k) h = overlay-after xs bs k (omega arith)

-- What lies behind a store is not touched.
pub store-after :
    (memory bs : Bytes) (k at : ℕ)
    → at + length bs ≤ k
    → drop k (store memory at bs) ≡ drop k memory
unfolding store
store-after [] bs k at h = refl
store-after (x ∷ xs) bs k zero h = overlay-after (x ∷ xs) bs k (omega arith)
store-after (x ∷ xs) bs zero (suc at) h = absurd (omega arith)
store-after (x ∷ xs) bs (suc k) (suc at) h = store-after xs bs k at (omega arith)

pub load-before :
    (n : ℕ) (memory bs : Bytes) (k at : ℕ)
    → k + n ≤ at
    → load n (store memory at bs) k ≡ load n memory k
unfolding load
load-before n memory bs k at h = ap le_value (store-before memory bs n k at h)

-- An integer that was stored is loaded.
pub load-store :
    (n v : ℕ) (memory : Bytes) (at : ℕ)
    → at + n ≤ length memory
    → v < 256 ^ n
    → load n (store memory at (le_bytes n v)) at ≡ v
load-store n v memory at h k =
    ap (λ t. load n t at)
      (store_parts memory (le_bytes n v) at (omega (arith, length-le_bytes n v)))
    ∙ load-le_bytes n v (take at memory) (drop (at + length (le_bytes n v)) memory) at
        (omega (arith, length-take at memory)) k
