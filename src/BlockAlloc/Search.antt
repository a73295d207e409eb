-- ===== src/BlockAlloc/Search.antt =====
-- What the searches through the bitmap find.
use nano_fs.Prelude.{
  ℕ, zero, suc, ◌+◌, ◌≤◌, ◌<◌, ◌≡◌, true, false, none, some, List, arith, Bool-cases, inl, inr,
}
use nano_fs.Bitmap.{bitmap_test}
use nano_fs.BlockAlloc.{find_free}

-- `k` is the first clear bit from `i` on, of the `rounds` that are looked at.
pub record FirstClear (m : List ℕ) (rounds i k : ℕ) : Type 0 where
  pub from : i ≤ k
  pub below : k < i + rounds
  pub clear : bitmap_test m k ≡ false
  pub first : (j : ℕ) → i ≤ j → j < k → bitmap_test m j ≡ true

pub find_free-some :
    (m : List ℕ) (rounds i k : ℕ) → find_free m rounds i ≡ some k → FirstClear m rounds i k
unfolding find_free
find_free-some m zero i k h = cc
find_free-some m (suc rounds) i k h = elim (Bool-cases (bitmap_test m i)) [
  | inl used ↦ later used (find_free-some m rounds (i + 1) k (rw used at h))
  | inr free ↦ here free (ground arith)
]
  where
    here : bitmap_test m i ≡ false → i ≡ k → FirstClear m (suc rounds) i k
    here free e = record {
      from = omega arith;
      below = omega arith;
      clear = rw (← e) free;
      first = λ j p q. absurd (omega arith);
    }

    later : bitmap_test m i ≡ true → FirstClear m rounds (i + 1) k → FirstClear m (suc rounds) i k
    later used c = record {
      from = omega arith;
      below = omega arith;
      clear = c.clear;
      first = λ j p q. ground (arith, c.first j, used);
    }

pub find_free-none :
    (m : List ℕ) (rounds i j : ℕ)
    → find_free m rounds i ≡ none
    → i ≤ j
    → j < i + rounds
    → bitmap_test m j ≡ true
unfolding find_free
find_free-none m zero i j h p q = absurd (omega arith)
find_free-none m (suc rounds) i j h p q = ground (arith, find_free-none m rounds (i + 1) j)
