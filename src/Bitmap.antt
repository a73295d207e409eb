-- ===== src/Bitmap.antt =====
-- src/block_alloc.c: the operations on a bitmap of `uint8_t`, over a list of bytes. The byte of a
-- bit out of range reads as 0, and a write there changes nothing; `Fits` rules both out.
mod Byte
pub mod Laws
use Prim.Native.Nat.{bit_and, bit_or}
use nano_fs.Prelude.{
  ℕ, zero, suc, ◌+◌, ◌-◌, ◌*◌, ◌/◌, ◌%◌, ◌^◌, ◌≤◌, ◌<◌, Bool, not, List, get_or, set, All, length,
  ◌==◌, if◌then◌else◌,
}

unfoldable pub bitmap_test : List ℕ → ℕ → Bool
bitmap_test bitmap bit = not (bit_and (get_or bitmap (bit / 8) 0) (2 ^ (bit % 8)) == 0)

unfoldable pub bitmap_set : List ℕ → ℕ → List ℕ
bitmap_set bitmap bit = set bitmap (bit / 8) (bit_or (get_or bitmap (bit / 8) 0) (2 ^ (bit % 8)))

-- `~(1 << offset)`, cut to a byte
unfoldable pub bitmap_clear : List ℕ → ℕ → List ℕ
bitmap_clear bitmap bit =
    set bitmap (bit / 8) (bit_and (get_or bitmap (bit / 8) 0) (255 - 2 ^ (bit % 8)))

-- The bits below `n` that are clear.
unfoldable pub count_clear : List ℕ → ℕ → ℕ
count_clear bitmap zero = 0
count_clear bitmap (suc n) =
    if bitmap_test bitmap n then count_clear bitmap n else suc (count_clear bitmap n)

-- A list of bytes that holds `n` bits.
pub record Fits (bitmap : List ℕ) (n : ℕ) : Type 0 where
  pub bytes : All (λ b. b < 256) bitmap
  pub room : n ≤ 8 * length bitmap
