-- ===== src/BlockAlloc/Disk.antt =====
-- src/block_alloc.c: `block_alloc_init` reads the bitmap from the device, `block_alloc_sync` writes
-- it back. The device is any that fills `BlockIo`.
pub mod Reload
pub mod Good
mod Tests
use nano_fs.Prelude.{
  ℕ, zero, suc, ◌+◌, Option, none, some, List, [], ◌++◌, Result, ok, err, Errno, u32, take, drop,
}
use nano_fs.Types.{Superblock, block_size}
use nano_fs.Bitmap.{count_clear}
use nano_fs.BlockIo.{BlockIo}
use nano_fs.BlockAlloc.{BlockAllocator}

-- The block at `bitmap + i * BLOCK_SIZE`, and what follows it.
pub first_block : List ℕ → List ℕ
first_block bitmap = take block_size bitmap

pub rest_blocks : List ℕ → List ℕ
rest_blocks bitmap = drop block_size bitmap

module _ (io : BlockIo) where
  open io use {Dev, read, write}

  -- What a block that was read is put in front of.
  put_block : List ℕ → Result Errno (List ℕ) × Dev → Result Errno (List ℕ) × Dev
  put_block content (ok rest, dev) = (ok (content ++ rest), dev)
  put_block content (err e, dev) = (err e, dev)

  -- The blocks of the bitmap, from `bitmap_start + i` on. The bitmap has fewer than 2^20 blocks, so that the products
  -- `bitmap_blocks * BLOCK_SIZE` and `i * BLOCK_SIZE` in `uint32_t` do not wrap.
  pub load_bitmap : ℕ → ℕ → Dev → Result Errno (List ℕ) × Dev
  load_bitmap start zero dev = (ok [], dev)
  load_bitmap start (suc rounds) dev =
      let (r, dev') = read (u32 start) dev in
      elim r [
        | ok content ↦ put_block content (load_bitmap (start + 1) rounds dev')
        | err e ↦ (err e, dev')
      ]

  allocator : ℕ → ℕ → ℕ → ℕ → List ℕ → BlockAllocator
  allocator bitmap_start bitmap_blocks data_start total_blocks bitmap = record {
    bitmap = bitmap;
    bitmap_blocks = bitmap_blocks;
    total_blocks = total_blocks;
    free_blocks = count_clear bitmap total_blocks;
    data_start = data_start;
    bitmap_start = bitmap_start;
    alloc_count = 0;
    free_count = 0;
  }

  -- `none` is the null pointer.
  loaded : (List ℕ → BlockAllocator) → Result Errno (List ℕ) → Option BlockAllocator
  loaded make (ok bitmap) = some (make bitmap)
  loaded make (err e) = none

  pub block_alloc_init : ℕ → ℕ → ℕ → ℕ → Dev → Option BlockAllocator × Dev
  unfolding allocator loaded
  block_alloc_init bitmap_start bitmap_blocks data_start total_blocks dev =
      let (r, dev') = load_bitmap bitmap_start bitmap_blocks dev in
      (loaded (allocator bitmap_start bitmap_blocks data_start total_blocks) r, dev')

  -- The bitmap, of fewer than 2^20 blocks as above, is written in blocks, from its block `bitmap_start + i` on.
  pub store_bitmap : ℕ → ℕ → List ℕ → Dev → Result Errno (Unit {0}) × Dev
  store_bitmap start zero bitmap dev = (ok tt, dev)
  store_bitmap start (suc rounds) bitmap dev =
      let (r, dev') = write (u32 start) (first_block bitmap) dev in
      elim r [
        | ok u ↦ store_bitmap (start + 1) rounds (rest_blocks bitmap) dev'
        | err e ↦ (err e, dev')
      ]

  -- After a successful write `dev->superblock`, if it is loaded, gets the number of free blocks.
  count_in : BlockAllocator → Option Superblock → Result Errno (Unit {0}) → Option Superblock
  count_in a sb (err e) = sb
  count_in a none (ok u) = none
  count_in a (some sb) (ok u) = some (record sb { free_blocks = a.free_blocks })

  pub block_alloc_sync :
      BlockAllocator → Option Superblock → Dev → Result Errno (Unit {0}) × Option Superblock × Dev
  unfolding count_in
  block_alloc_sync a sb dev =
      let (r, dev') = store_bitmap a.bitmap_start a.bitmap_blocks a.bitmap dev in
      (r, count_in a sb r, dev')

  -- Before the memory is freed. A failure is ignored.
  pub block_alloc_destroy : BlockAllocator → Option Superblock → Dev → Option Superblock × Dev
  unfolding block_alloc_sync
  block_alloc_destroy a sb dev = let (r, sb', dev') = block_alloc_sync a sb dev in (sb', dev')
