-- ===== src/BlockAlloc/Ranges.antt =====
-- Setting, clearing and testing a range of bits.
use nano_fs.Prelude.{
  ℕ, zero, suc, ◌+◌, ◌≤◌, ◌<◌, ◌≡◌, refl, Bool, true, false, ◌&&◌, List, arith, ◌==◌, if◌then◌else◌,
  leb, ltb,
}
use nano_fs.Bitmap.{bitmap_test, bitmap_set, bitmap_clear, count_clear, Fits}
use nano_fs.Bitmap.Laws.{
  test-set, test-clear, set-Fits, clear-Fits, count_clear-flip, count_clear-congr,
}
use nano_fs.BlockAlloc.{set_range, clear_range, all_set}

abbrev pub in_run : ℕ → ℕ → ℕ → Bool
in_run start count j = leb start j && ltb j (start + count)

pub set_range-Fits : {n : ℕ} (m : List ℕ) (s c : ℕ) → Fits m n → Fits (set_range m s c) n
unfolding set_range
set_range-Fits m s zero f = f
set_range-Fits m s (suc c) f = set_range-Fits (bitmap_set m s) (s + 1) c (set-Fits f s)

pub clear_range-Fits : {n : ℕ} (m : List ℕ) (s c : ℕ) → Fits m n → Fits (clear_range m s c) n
unfolding clear_range
clear_range-Fits m s zero f = f
clear_range-Fits m s (suc c) f = clear_range-Fits (bitmap_clear m s) (s + 1) c (clear-Fits f s)

pub test-set_range :
    (m : List ℕ) (n s c j : ℕ)
    → Fits m n
    → s + c ≤ n
    → bitmap_test (set_range m s c) j ≡ (if in_run s c j then true else bitmap_test m j)
unfolding set_range
test-set_range m n s zero j f h = ground arith
test-set_range m n s (suc c) j f h =
    ground (arith, test-set_range (bitmap_set m s) n (s + 1) c j (set-Fits f s), test-set m n s j f)

pub test-clear_range :
    (m : List ℕ) (n s c j : ℕ)
    → Fits m n
    → s + c ≤ n
    → bitmap_test (clear_range m s c) j ≡ (if in_run s c j then false else bitmap_test m j)
unfolding clear_range
test-clear_range m n s zero j f h = ground arith
test-clear_range m n s (suc c) j f h = ground (
  arith,
  test-clear_range (bitmap_clear m s) n (s + 1) c j (clear-Fits f s),
  test-clear m n s j f,
)

-- A bitmap that has the clear run `[s, s + c)` of `m` set has `c` clear bits less.
pub count_clear-run :
    (m m' : List ℕ) (n s c : ℕ)
    → Fits m n
    → s + c ≤ n
    → ((j : ℕ) → s ≤ j → j < s + c → bitmap_test m j ≡ false)
    → ((j : ℕ) → bitmap_test m' j ≡ (if in_run s c j then true else bitmap_test m j))
    → count_clear m' n + c ≡ count_clear m n
count_clear-run m m' n s zero f h free law =
    omega (arith, count_clear-congr m m' n (λ j p. ground (arith, law j)))
count_clear-run m m' n s (suc c) f h free law = omega (
  arith,
  count_clear-flip m (bitmap_set m s) n s (omega arith) (free s (omega arith) (omega arith)) first,
  count_clear-run (bitmap_set m s) m' n (s + 1) c (set-Fits f s) (omega arith)
      (λ j p q. ground (arith, first j, free j)) (λ j. ground (arith, first j, law j)),
)
  where
    first : (j : ℕ) → bitmap_test (bitmap_set m s) j ≡ (if s == j then true else bitmap_test m j)
    first j = test-set m n s j f (omega arith)

pub all_set-test :
    (m : List ℕ) (s c j : ℕ) → all_set m s c ≡ true → s ≤ j → j < s + c → bitmap_test m j ≡ true
unfolding all_set
all_set-test m s zero j h p q = absurd (omega arith)
all_set-test m s (suc c) j h p q = ground (arith, all_set-test m (s + 1) c j)

pub test-all_set :
    (m : List ℕ) (s c : ℕ)
    → ((j : ℕ) → s ≤ j → j < s + c → bitmap_test m j ≡ true)
    → all_set m s c ≡ true
unfolding all_set
test-all_set m s zero h = refl
test-all_set m s (suc c) h =
    rw (h s (omega arith) (omega arith))
      (test-all_set m (s + 1) c (λ j p q. h j (omega arith) (omega arith)))
