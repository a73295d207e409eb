-- ===== src/Prelude/Results.antt =====
-- What a C function that fails with a negative code returns.
use mathlib.Core.Path.{◌≡◌, refl}
use mathlib.Core.Logic.{◌⊎◌, inl, inr}

-- The negated `errno` values of the block layer, and the `MODERNFS_*` codes of types.h.
pub data Errno : Type 0 where
  einval eio enospc enomem : Errno

pub data FsError : Type 0 where
  fs_error fs_enospc fs_einval fs_eio fs_enoent : FsError

pub data Result {ℓ} (E A : Type ℓ) : Type ℓ where
  ok : A → Result E A
  err : E → Result E A

-- To split on a computed result and keep the equation.
pub Result-cases :
    {E A : Type 0} (r : Result E A) → ((a : A) × (r ≡ ok a)) ⊎ ((e : E) × (r ≡ err e))
Result-cases (ok a) = inl (a, refl)
Result-cases (err e) = inr (e, refl)
