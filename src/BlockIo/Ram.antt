-- ===== src/BlockIo/Ram.antt =====
-- An array of blocks as a block device: a concrete instance of `BlockIo`.
use nano_fs.Prelude.{
  ℕ, ◌≡◌, ◌≢◌, ◌<◌, ◌↔◌, refl, Bool, true, false, ltb, ok, err, einval, Errno, Result, update,
  Bool-cases, inl, inr, arith,
}
use nano_fs.Os.{Block}
use nano_fs.Os.Ram.{update_self, update_other}
use nano_fs.BlockIo.{BlockIo}

pub was_read : (c d : Block) → ◌≡◌ {A = Result Errno Block} (ok c) (ok d) → d ≡ c
was_read c d e = cc

abbrev pub array_io : BlockIo
array_io = record {
  Dev = ℕ → Block;
  read = λ b w. (ok (w b), w);
  write = λ b d w. (ok tt, update w b d);
  sync = λ w. (ok tt, w);
  IsGood = λ w. Unit {0};
  contents = λ w. w;
  read_good = λ b w g. tt;
  read_data = λ b w d g e. was_read (w b) d e;
  read_contents = λ b q w g. refl;
  write_good = λ b d w g. tt;
  write_data = λ b d w g e. update_self w b d;
  write_contents = λ b q d w g ne. update_other w b q d ne;
  sync_good = λ w g. tt;
  sync_contents = λ q w g. refl;
}

-- The outcome of a write to an array of `total` blocks: there is no other.
pub bounded_write : Bool → ℕ → Block → (ℕ → Block) → Result Errno (Unit {0}) × (ℕ → Block)
bounded_write true b d w = (ok tt, update w b d)
bounded_write false b d w = (err einval, w)

pub bounded_data :
    (inside : Bool) (b : ℕ) (d : Block) (w : ℕ → Block)
    → (bounded_write inside b d w).0 ≡ ok tt
    → (bounded_write inside b d w).1 b ≡ d
unfolding bounded_write
bounded_data true b d w e = update_self w b d
bounded_data false b d w e = cc

pub bounded_other :
    (inside : Bool) (b q : ℕ) (d : Block) (w : ℕ → Block)
    → q ≢ b
    → (bounded_write inside b d w).1 q ≡ w q
unfolding bounded_write
bounded_other true b q d w ne = update_other w b q d ne
bounded_other false b q d w ne = refl

abbrev pub bounded_io : ℕ → BlockIo
bounded_io total = record {
  Dev = ℕ → Block;
  read = λ b w. (ok (w b), w);
  write = λ b d w. bounded_write (ltb b total) b d w;
  sync = λ w. (ok tt, w);
  IsGood = λ w. Unit {0};
  contents = λ w. w;
  read_good = λ b w g. tt;
  read_data = λ b w d g e. was_read (w b) d e;
  read_contents = λ b q w g. refl;
  write_good = λ b d w g. tt;
  write_data = λ b d w g e. bounded_data (ltb b total) b d w e;
  write_contents = λ b q d w g ne. bounded_other (ltb b total) b q d w ne;
  sync_good = λ w g. tt;
  sync_contents = λ q w g. refl;
}

pub bounded_write_iff :
    (total b : ℕ) (d : Block) (w : ℕ → Block)
    → ((bounded_write (ltb b total) b d w).0 ≡ ok tt) ↔ (b < total)
unfolding bounded_write
bounded_write_iff total b d w = elim (Bool-cases (ltb b total)) [
  | inl e ↦ rw e ((λ h. ground arith), (λ h. refl))
  | inr e ↦ rw e ((λ h. cc), (λ h. absurd (ground arith)))
]
