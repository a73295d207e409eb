-- ===== src/Bitmap/Byte.antt =====
-- The bits of one byte, by a table of all bytes.
use Prim.Native.Nat.{bit_and, bit_or}
use native.Mathlib.Decide.{ℕ_discrete}
use nano_fs.Prelude.{
  ℕ, zero, suc, ◌-◌, ◌^◌, ◌<◌, ◌≡◌, refl, Bool, true, false, not, ◌&&◌, ltb, ◌==◌, ==_iff, arith,
  if◌then◌else◌,
}

-- How many of the numbers below a bound fail a test.
failures : (ℕ → Bool) → ℕ → ℕ
failures test zero = 0
failures test (suc bound) =
    let others = failures test bound in if test bound then others else suc others

passes : (test : ℕ → Bool) (bound k : ℕ) → failures test bound ≡ 0 → k < bound → test k ≡ true
unfolding failures
passes test zero k none_fail lt = absurd (omega arith)
passes test (suc bound) k none_fail lt = elim (ℕ_discrete k bound) [
  | yes e ↦ rw e (ground arith)
  | no ne ↦ passes test bound k (ground arith) (omega arith)
]

abbrev pub has_bit : ℕ → ℕ → Bool
has_bit b k = not (bit_and b (2 ^ k) == 0)

iff_bool : Bool → Bool → Bool
iff_bool true b = b
iff_bool false b = not b

iff_bool_sound : (a b : Bool) → iff_bool a b ≡ true → a ≡ b
unfolding iff_bool
iff_bool_sound true true h = refl
iff_bool_sound true false h = cc
iff_bool_sound false false h = refl
iff_bool_sound false true h = cc

abbrev no_failure : (ℕ → Bool) → ℕ → Bool
no_failure test bound = failures test bound == 0

abbrev all_bits : (ℕ → ℕ → ℕ → Bool) → Bool
all_bits p = no_failure (λ b. no_failure (λ k. no_failure (p b k) 8) 8) 256

passed : (test : ℕ → Bool) (bound k : ℕ) → no_failure test bound ≡ true → k < bound → test k ≡ true
passed test bound k h lt = passes test bound k ((==_iff (failures test bound) 0).0 h) lt

all_bits_sound :
    (p : ℕ → ℕ → ℕ → Bool)
    → all_bits p ≡ true
    → (b k j : ℕ) → b < 256
    → k < 8
    → j < 8
    → p b k j ≡ true
all_bits_sound p table b k j hb hk hj =
    let at_byte = passed (λ b. no_failure (λ k. no_failure (p b k) 8) 8) 256 b table hb in
    passed (p b k) 8 j (passed (λ k. no_failure (p b k) 8) 8 k at_byte hk) hj

set_table :
    all_bits
      (λ b k j. iff_bool (has_bit (bit_or b (2 ^ k)) j) (if k == j then true else has_bit b j))
    ≡ true
unfolding failures iff_bool
set_table = refl

clear_table :
    all_bits (λ b k j.
      iff_bool (has_bit (bit_and b (255 - 2 ^ k)) j) (if k == j then false else has_bit b j))
    ≡ true
unfolding failures iff_bool
clear_table = refl

range_table :
    all_bits (λ b k j. ltb (bit_or b (2 ^ k)) 256 && ltb (bit_and b (255 - 2 ^ k)) 256) ≡ true
unfolding failures
range_table = refl

pub has_bit-bit_or :
    (b k j : ℕ)
    → b < 256
    → k < 8
    → j < 8
    → has_bit (bit_or b (2 ^ k)) j ≡ (if k == j then true else has_bit b j)
has_bit-bit_or b k j hb hk hj = iff_bool_sound _ _ (all_bits_sound _ set_table b k j hb hk hj)

pub has_bit-bit_and :
    (b k j : ℕ)
    → b < 256
    → k < 8
    → j < 8
    → has_bit (bit_and b (255 - 2 ^ k)) j ≡ (if k == j then false else has_bit b j)
has_bit-bit_and b k j hb hk hj = iff_bool_sound _ _ (all_bits_sound _ clear_table b k j hb hk hj)

pub byte_range :
    (b k : ℕ) → b < 256 → k < 8 → (bit_or b (2 ^ k) < 256) × (bit_and b (255 - 2 ^ k) < 256)
byte_range b k hb hk = split (all_bits_sound _ range_table b k 0 hb hk (omega arith))
  where
    split :
        (ltb (bit_or b (2 ^ k)) 256 && ltb (bit_and b (255 - 2 ^ k)) 256) ≡ true
        → (bit_or b (2 ^ k) < 256) × (bit_and b (255 - 2 ^ k) < 256)
    split h = ground arith

no_bits : no_failure (λ k. not (has_bit 0 k)) 8 ≡ true
unfolding failures
no_bits = refl

pub has_bit-zero : (k : ℕ) → k < 8 → has_bit 0 k ≡ false
has_bit-zero k lt = let t = passed (λ k. not (has_bit 0 k)) 8 k no_bits lt in ground arith
