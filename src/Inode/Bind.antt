-- ===== src/Inode/Bind.antt =====
-- To prove something of a chain: by the results of its first part.
use nano_fs.Prelude.{◌≡◌, refl, Result, ok, err, FsError}
use nano_fs.BlockIo.{BlockIo}
use nano_fs.Inode.{Fs, M, ◌>>=◌, pure, continue}

module _ (io : BlockIo) where
  continue-cases :
      {A B : Type 0} (P : Result FsError B × Fs io → Type 0) (r : Result FsError A) (f : A → M io B)
      (t : Fs io)
      → ((a : A) → r ≡ ok a → P (f a t))
      → ((e : FsError) → r ≡ err e → P (err e, t))
      → P (continue io r f t)
  unfolding continue
  continue-cases P (ok a) f t good bad = good a refl
  continue-cases P (err e) f t good bad = bad e refl

  pub bind-cases :
      {A B : Type 0} (P : Result FsError B × Fs io → Type 0) (m : M io A) (f : A → M io B)
      (s : Fs io)
      → ((a : A) → (m s).0 ≡ ok a → P (f a (m s).1))
      → ((e : FsError) → (m s).0 ≡ err e → P (err e, (m s).1))
      → P (◌>>=◌ io m f s)
  unfolding ◌>>=◌
  bind-cases P m f s good bad = continue-cases P (m s).0 f (m s).1 good bad

  pub pure_lem : {A : Type 0} (a : A) (s : Fs io) → pure io a s ≡ (ok a, s)
  unfolding pure
  pure_lem a s = refl
