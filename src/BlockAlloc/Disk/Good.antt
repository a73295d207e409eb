-- ===== src/BlockAlloc/Disk/Good.antt =====
-- Loading a bitmap keeps the device good.
use nano_fs.Prelude.{ℕ, zero, suc, ◌+◌, List, Result, Result-cases, ok, err, Errno, u32, inl, inr}
use nano_fs.BlockIo.{BlockIo}
use nano_fs.BlockAlloc.Disk.{put_block, load_bitmap, block_alloc_init}

module _ (io : BlockIo) where
  open io use {Dev, read, IsGood}

  put_block-IsGood :
      (l : List ℕ) (out : Result Errno (List ℕ) × Dev)
      → IsGood out.1
      → IsGood (put_block io l out).1
  unfolding put_block
  put_block-IsGood l (ok r, dev) g = g
  put_block-IsGood l (err e, dev) g = g

  pub load_bitmap-IsGood :
      (start rounds : ℕ) (dev : Dev) → IsGood dev → IsGood (load_bitmap io start rounds dev).1
  unfolding load_bitmap
  load_bitmap-IsGood start zero dev g = g
  load_bitmap-IsGood start (suc rounds) dev g = elim (Result-cases (read (u32 start) dev).0) [
    | inl (l, e) ↦
        rw (e, load_bitmap)
          (put_block-IsGood l _ (
            load_bitmap-IsGood (start + 1) rounds (read (u32 start) dev).1
              (io.read_good (u32 start) dev g)))
    | inr (x, e) ↦ rw (e, load_bitmap) (io.read_good (u32 start) dev g)
  ]

  pub block_alloc_init-IsGood :
      (bitmap_start bitmap_blocks data_start total_blocks : ℕ) (dev : Dev)
      → IsGood dev
      → IsGood (block_alloc_init io bitmap_start bitmap_blocks data_start total_blocks dev).1
  unfolding block_alloc_init
  block_alloc_init-IsGood bitmap_start bitmap_blocks data_start total_blocks dev g =
      load_bitmap-IsGood bitmap_start bitmap_blocks dev g
