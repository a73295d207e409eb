-- ===== src/BlockAlloc/Disk/Tests.antt =====
-- A full bitmap of one block, synced to block 3 of a device and loaded from it.
use nano_fs.Prelude.{
  ℕ, ◌<◌, ◌≡◌, refl, arith, ok, none, some, List, [], ◌++◌, replicate, length-replicate,
  All-replicate,
}
use nano_fs.Types.{block_size}
use nano_fs.Bitmap.{bitmap_test, count_clear}
use nano_fs.BlockIo.Ram.{array_io}
use nano_fs.BlockAlloc.{BlockAllocator}
use nano_fs.BlockAlloc.Valid.{IsValid}
use nano_fs.BlockAlloc.Disk.{
  first_block, block_alloc_init, block_alloc_sync, load_bitmap, store_bitmap, loaded, put_block,
}
use nano_fs.BlockAlloc.Disk.Reload.{block_alloc_sync-init}

abbrev all_ones : List ℕ
all_ones = replicate block_size 255

abbrev full : BlockAllocator
full = record {
  bitmap = all_ones;
  bitmap_blocks = 1;
  total_blocks = 8;
  free_blocks = 0;
  data_start = 10;
  bitmap_start = 3;
  alloc_count = 8;
  free_count = 0;
}

no_clear : 0 ≡ count_clear all_ones 8
unfolding count_clear bitmap_test
no_clear = refl

full-IsValid : IsValid full
full-IsValid = record {
  fits = record {
    bytes = All-replicate (λ b. b < 256) block_size 255 (omega arith);
    room = omega (arith, length-replicate {A = ℕ} block_size 255);
  };
  counted = no_clear;
  positive = omega arith;
  no_wrap = omega arith;
}

abbrev reloaded : BlockAllocator
reloaded = record full {
  bitmap = first_block all_ones ++ [];
  free_blocks = count_clear (first_block all_ones ++ []) 8;
  alloc_count = 0;
}

synced : (block_alloc_sync array_io full none (λ b. [])).0 ≡ ok tt
unfolding block_alloc_sync store_bitmap
synced = refl

loads :
    (block_alloc_init array_io 3 1 10 8 (block_alloc_sync array_io full none (λ b. [])).2).0
    ≡ some reloaded
unfolding block_alloc_sync store_bitmap block_alloc_init load_bitmap loaded put_block
loads = refl

block_alloc_sync-init_example :
    (reloaded.bitmap ≡ full.bitmap)
    × (reloaded.free_blocks ≡ full.free_blocks)
    × (reloaded.data_start ≡ full.data_start)
    × (reloaded.total_blocks ≡ full.total_blocks)
block_alloc_sync-init_example =
    block_alloc_sync-init array_io full reloaded none (λ b. []) tt full-IsValid (omega arith)
      (length-replicate {A = ℕ} block_size 255) synced loads
