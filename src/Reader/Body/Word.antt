-- ===== src/Reader/Body/Word.antt =====
-- Head words as the reader of include/sub0log/reader.hpp finds them in an image.
use sub0log.Common.{
  ℕ, suc, ◌+◌, ◌-◌, ◌*◌, ◌/◌, ◌%◌, ◌^◌, ◌≤◌, ◌<◌, ◌≡◌, ap, ◌∙◌, arith, ◌++◌, length, bit_or,
  replicate,
}
use sub0log.Common.Bits.{or_field}
use sub0log.Common.Bytes.{Bytes, le_bytes, le_value, load, load-past, load-append}
use sub0log.Reader.Body.{load_head_word}

le_low : (w : ℕ) → le_value (le_bytes 4 w) ≡ w % 2 ^ 32
le_low w = omega arith

-- The two halves of a stored word make up the word.
pub load_head_word-le_bytes :
    (front more : Bytes) (w cursor : ℕ)
    → cursor ≡ length front
    → w < 2 ^ 64
    → load_head_word (front ++ (le_bytes 8 w ++ more)) cursor ≡ w
unfolding load_head_word load
load_head_word-le_bytes front more w cursor e fits =
    let low : load 4 (front ++ (le_bytes 8 w ++ more)) cursor ≡ w % 2 ^ 32 =
      load-append 4 front (le_bytes 8 w ++ more) cursor e ∙ le_low w in
    let high : load 4 (front ++ (le_bytes 8 w ++ more)) (cursor + 4) ≡ w / 2 ^ 32 =
      load-past 4 front (le_bytes 8 w ++ more) cursor 4 e
      ∙ le_low (w / 256 / 256 / 256 / 256)
      ∙ omega arith in
    ap (λ t. bit_or t (load 4 (front ++ (le_bytes 8 w ++ more)) (cursor + 4) * 2 ^ 32)) low
    ∙ ap (λ t. bit_or (w % 2 ^ 32) (t * 2 ^ 32)) high
    ∙ omega (arith, or_field 32 (w % 2 ^ 32) (w / 2 ^ 32) (omega arith))

-- Eight zero bytes are the zero word.
pub load_head_word-zeros :
    (front rest : Bytes) (n cursor : ℕ)
    → cursor ≡ length front
    → 8 ≤ n
    → load_head_word (front ++ (replicate n 0 ++ rest)) cursor ≡ 0
load_head_word-zeros front rest n cursor e h =
    let split : n ≡ suc (suc (suc (suc (suc (suc (suc (suc (n - 8)))))))) = omega arith in
    rw split (load_head_word-le_bytes front (replicate (n - 8) 0 ++ rest) 0 cursor e (omega arith))
