-- ===== src/Os.antt =====
-- What the block layer uses of the operating system: the device file, read and written by whole
-- blocks at a block number (`pread`, `pwrite` at `block * BLOCK_SIZE`), `fsync`, and `malloc`.
-- These are parameters of the model, with the behaviour that the code relies on as laws.
pub mod Ram
use nano_fs.Prelude.{ℕ, ◌≡◌, ◌≢◌, Bool, true, Option, some, List}

abbrev pub Block : Type 0
Block = List ℕ

-- `W` is the state of the system; `file w b` is what the device file holds at block `b`.
-- `pread` returns `none` for a failed or short read, the others `false` for a failure.
pub record Os : Type 1 where
  pub W : Type 0
  pub file : W → ℕ → Block
  pub pread : ℕ → W → Option Block × W
  pub pwrite : ℕ → Block → W → Bool × W
  pub fsync : W → Bool × W
  pub malloc : W → Bool × W

-- A failed write may leave anything in its own block, and touches no other block.
pub record Laws (os : Os) : Type 0 where
  pub pread_data : (b : ℕ) (w : os.W) (d : Block) → (os.pread b w).0 ≡ some d → d ≡ os.file w b
  pub pread_file : (b q : ℕ) (w : os.W) → os.file (os.pread b w).1 q ≡ os.file w q
  pub pwrite_data :
      (b : ℕ) (d : Block) (w : os.W)
      → (os.pwrite b d w).0 ≡ true
      → os.file (os.pwrite b d w).1 b ≡ d
  pub pwrite_file :
      (b q : ℕ) (d : Block) (w : os.W) → q ≢ b → os.file (os.pwrite b d w).1 q ≡ os.file w q
  pub fsync_file : (q : ℕ) (w : os.W) → os.file (os.fsync w).1 q ≡ os.file w q
  pub malloc_file : (q : ℕ) (w : os.W) → os.file (os.malloc w).1 q ≡ os.file w q
