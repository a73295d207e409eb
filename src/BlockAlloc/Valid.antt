-- ===== src/BlockAlloc/Valid.antt =====
-- The invariant of the allocator: the bitmap has a bit for every block, `free_blocks` is the number
-- of clear bits, and no block number wraps or is 0, which stands for failure.
use nano_fs.Prelude.{ℕ, ◌+◌, ◌^◌, ◌≤◌, ◌<◌, ◌≡◌}
use nano_fs.Bitmap.{Fits, count_clear}
use nano_fs.BlockAlloc.{BlockAllocator}

pub record IsValid (a : BlockAllocator) : Type 0 where
  pub fits : Fits a.bitmap a.total_blocks
  pub counted : a.free_blocks ≡ count_clear a.bitmap a.total_blocks
  pub positive : 0 < a.data_start
  pub no_wrap : a.data_start + a.total_blocks < 2 ^ 32

-- A block of the data area.
abbrev pub InRange : BlockAllocator → ℕ → Type 0
InRange a block = (a.data_start ≤ block) × (block < a.data_start + a.total_blocks)
