-- ===== src/Bitmap/Laws.antt =====
-- What the bitmap operations do to each bit, and to the number of clear bits.
use Prim.Native.Nat.{bit_and, bit_or}
use native.Mathlib.Decide.{ℕ_discrete}
use nano_fs.Prelude.{
  ℕ, zero, suc, ◌+◌, ◌-◌, ◌/◌, ◌%◌, ◌^◌, ◌≤◌, ◌<◌, ◌≡◌, refl, Bool, true, false, List, arith,
  get_or, set, length, length-set, get_or-set_self, get_or-set_ne, All-set, All-get_or, ◌==◌,
  if◌then◌else◌,
}
use nano_fs.Bitmap.{bitmap_test, bitmap_set, bitmap_clear, count_clear, Fits}
use nano_fs.Bitmap.Byte.{has_bit, has_bit-bit_or, has_bit-bit_and, has_bit-zero, byte_range}

byte-lt : {m : List ℕ} {n : ℕ} → Fits m n → (i : ℕ) → get_or m (i / 8) 0 < 256
byte-lt {m} f i = All-get_or (λ b. b < 256) m (i / 8) 0 f.bytes (omega arith)

index-lt : {m : List ℕ} {n : ℕ} → Fits m n → (i : ℕ) → i < n → i / 8 < length m
index-lt f i h = let r = f.room in omega arith

same_bit : (i j : ℕ) → i / 8 ≡ j / 8 → (i % 8 == j % 8) ≡ (i == j)
same_bit i j e = ground arith

-- The bit of one byte that is written decides that bit of the bitmap alone.
module _ (m : List ℕ) (n i j v : ℕ) (b : Bool) (f : Fits m n) (hi : i < n) where
  test-set_byte :
      has_bit v (j % 8) ≡ (if i % 8 == j % 8 then b else has_bit (get_or m (i / 8) 0) (j % 8))
      → bitmap_test (set m (i / 8) v) j ≡ (if i == j then b else bitmap_test m j)
  unfolding bitmap_test
  test-set_byte h = elim (ℕ_discrete (i / 8) (j / 8)) [
    | yes e ↦ rw (← e, get_or-set_self m (i / 8) v 0 (index-lt f i hi)) (rw (same_bit i j e) at h)
    | no ne ↦ rw (get_or-set_ne m (i / 8) (j / 8) v 0 ne) (ground arith)
  ]

-- Setting a bit sets that bit and no other.
pub test-set :
    (m : List ℕ) (n i j : ℕ)
    → Fits m n
    → i < n
    → bitmap_test (bitmap_set m i) j ≡ (if i == j then true else bitmap_test m j)
unfolding bitmap_set
test-set m n i j f hi =
    test-set_byte m n i j _ true f hi
      (has_bit-bit_or _ (i % 8) (j % 8) (byte-lt f i) (omega arith) (omega arith))

-- Clearing a bit clears that bit and no other.
pub test-clear :
    (m : List ℕ) (n i j : ℕ)
    → Fits m n
    → i < n
    → bitmap_test (bitmap_clear m i) j ≡ (if i == j then false else bitmap_test m j)
unfolding bitmap_clear
test-clear m n i j f hi =
    test-set_byte m n i j _ false f hi
      (has_bit-bit_and _ (i % 8) (j % 8) (byte-lt f i) (omega arith) (omega arith))

pub set-Fits : {m : List ℕ} {n : ℕ} → Fits m n → (i : ℕ) → Fits (bitmap_set m i) n
unfolding bitmap_set
set-Fits {m} f i = record {
  bytes =
      All-set (λ b. b < 256) m (i / 8) _ f.bytes
        (byte_range _ (i % 8) (byte-lt f i) (omega arith)).0;
  room =
      let r = f.room in
      omega (arith, length-set m (i / 8) (bit_or (get_or m (i / 8) 0) (2 ^ (i % 8))));
}

pub clear-Fits : {m : List ℕ} {n : ℕ} → Fits m n → (i : ℕ) → Fits (bitmap_clear m i) n
unfolding bitmap_clear
clear-Fits {m} f i = record {
  bytes =
      All-set (λ b. b < 256) m (i / 8) _ f.bytes
        (byte_range _ (i % 8) (byte-lt f i) (omega arith)).1;
  room =
      let r = f.room in
      omega (arith, length-set m (i / 8) (bit_and (get_or m (i / 8) 0) (255 - 2 ^ (i % 8))));
}

-- Bitmaps that agree below `n` have as many clear bits there.
pub count_clear-congr :
    (m m' : List ℕ) (n : ℕ)
    → ((j : ℕ) → j < n → bitmap_test m' j ≡ bitmap_test m j)
    → count_clear m' n ≡ count_clear m n
unfolding count_clear
count_clear-congr m m' zero h = refl
count_clear-congr m m' (suc n) h =
    rw (h n (omega arith), count_clear-congr m m' n (λ j p. h j (omega arith)))

-- A bitmap that differs from `m` in the one bit `i`, which it has set, has one clear bit less.
pub count_clear-flip :
    (m m' : List ℕ) (n i : ℕ)
    → i < n
    → bitmap_test m i ≡ false
    → ((j : ℕ) → bitmap_test m' j ≡ (if i == j then true else bitmap_test m j))
    → count_clear m' n + 1 ≡ count_clear m n
unfolding count_clear
count_clear-flip m m' zero i hi c h = absurd (omega arith)
count_clear-flip m m' (suc n) i hi c h = elim (ℕ_discrete i n) [
  | yes e ↦ ground (arith, h n, count_clear-congr m m' n (λ j p. ground (arith, h j)))
  | no ne ↦ ground (arith, h n, count_clear-flip m m' n i (omega arith) c h)
]

pub count_clear-le : (m : List ℕ) (n : ℕ) → count_clear m n ≤ n
unfolding count_clear
count_clear-le m zero = omega arith
count_clear-le m (suc n) = ground (arith, count_clear-le m n)

-- If not every bit below `n` is set, some bit is clear.
pub count_clear-zero :
    (m : List ℕ) (n : ℕ) → ((j : ℕ) → j < n → bitmap_test m j ≡ true) → count_clear m n ≡ 0
unfolding count_clear
count_clear-zero m zero h = refl
count_clear-zero m (suc n) h =
    rw (h n (omega arith)) (count_clear-zero m n (λ j p. h j (omega arith)))

-- No bit of a byte 0 is set.
pub test-zero_byte : (m : List ℕ) (i : ℕ) → get_or m (i / 8) 0 ≡ 0 → bitmap_test m i ≡ false
unfolding bitmap_test
test-zero_byte m i z = rw z (has_bit-zero (i % 8) (omega arith))
