-- ===== src/BlockIo.antt =====
-- What the layers above use of a block device (block_dev.h), as an interface: `blkdev_read`,
-- `blkdev_write` and `blkdev_sync`, and the array of blocks that they read and write. `BlockDev.Io` fills it.
pub mod Ram
use nano_fs.Prelude.{ℕ, ◌≡◌, ◌≢◌, Result, ok, Errno}
use nano_fs.Os.{Block}

pub record BlockIo : Type 1 where
  pub Dev : Type 0
  pub read : ℕ → Dev → Result Errno Block × Dev
  pub write : ℕ → Block → Dev → Result Errno (Unit {0}) × Dev
  pub sync : Dev → Result Errno (Unit {0}) × Dev
  pub IsGood : Dev → Type 0
  pub contents : Dev → ℕ → Block
  pub read_good : (b : ℕ) (dev : Dev) → IsGood dev → IsGood (read b dev).1
  pub read_data :
      (b : ℕ) (dev : Dev) (d : Block) → IsGood dev → (read b dev).0 ≡ ok d → d ≡ contents dev b
  pub read_contents :
      (b q : ℕ) (dev : Dev) → IsGood dev → contents (read b dev).1 q ≡ contents dev q
  pub write_good : (b : ℕ) (d : Block) (dev : Dev) → IsGood dev → IsGood (write b d dev).1
  pub write_data :
      (b : ℕ) (d : Block) (dev : Dev)
      → IsGood dev
      → (write b d dev).0 ≡ ok tt
      → contents (write b d dev).1 b ≡ d
  pub write_contents :
      (b q : ℕ) (d : Block) (dev : Dev)
      → IsGood dev
      → q ≢ b
      → contents (write b d dev).1 q ≡ contents dev q
  pub sync_good : (dev : Dev) → IsGood dev → IsGood (sync dev).1
  pub sync_contents : (q : ℕ) (dev : Dev) → IsGood dev → contents (sync dev).1 q ≡ contents dev q
