-- ===== src/Os/Ram.antt =====
-- A system whose device file is an array and that never fails: a concrete instance of `Os`.
use nano_fs.Prelude.{ℕ, ◌≡◌, ◌≢◌, refl, true, some, update, arith}
use nano_fs.Os.{Os, Laws, Block}

abbrev pub ram : Os
ram = record {
  W = ℕ → Block;
  file = λ w. w;
  pread = λ b w. (some (w b), w);
  pwrite = λ b d w. (true, update w b d);
  fsync = λ w. (true, w);
  malloc = λ w. (true, w);
}

pub update_self : (w : ℕ → Block) (b : ℕ) (d : Block) → update w b d b ≡ d
update_self w b d = ground arith

pub update_other : (w : ℕ → Block) (b q : ℕ) (d : Block) → q ≢ b → update w b d q ≡ w q
update_other w b q d ne = ground arith

pub ram-Laws : Laws ram
ram-Laws = record {
  pread_data = λ b w d e. cc;
  pread_file = λ b q w. refl;
  pwrite_data = λ b d w e. update_self w b d;
  pwrite_file = λ b q d w ne. update_other w b q d ne;
  fsync_file = λ q w. refl;
  malloc_file = λ q w. refl;
}
