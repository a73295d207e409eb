-- ===== src/Words.antt =====
-- A block as an array of `block_t`: the little-endian 32-bit words of its bytes.
use nano_fs.Prelude.{ℕ, ◌+◌, ◌*◌, ◌/◌, ◌%◌, ◌^◌, get_or, set}
use nano_fs.Os.{Block}

unfoldable pub word_at : Block → ℕ → ℕ
word_at block i =
    get_or block (4 * i) 0
    + 2 ^ 8 * get_or block (4 * i + 1) 0
    + 2 ^ 16 * get_or block (4 * i + 2) 0
    + 2 ^ 24 * get_or block (4 * i + 3) 0

pub set_word : Block → ℕ → ℕ → Block
set_word block i v =
    set
      (set (set (set block (4 * i) (v % 2 ^ 8)) (4 * i + 1) (v / 2 ^ 8 % 2 ^ 8)) (4 * i + 2)
        (v / 2 ^ 16 % 2 ^ 8))
      (4 * i + 3) (v / 2 ^ 24 % 2 ^ 8)
