-- ===== src/Superblock/Tests.antt =====
-- `superblock.c` on images of 16 MiB and 1 MiB.
use nano_fs.Prelude.{
  ℕ, ◌+◌, ◌-◌, ◌*◌, ◌^◌, ◌≡◌, ◌≢◌, refl, ap, arith, Result, ok, Errno, [], replicate,
}
use nano_fs.Types.{Superblock}
use nano_fs.Types.Bytes.{superblock_of-superblock_bytes}
use nano_fs.Types.Tests.{image, image-IsSuperblock}
use nano_fs.BlockIo.Ram.{array_io}
use nano_fs.Superblock.Reload.{superblock_read-superblock_write}
use nano_fs.Superblock.{
  superblock_init, superblock_read, superblock_write, synced, inode_total, journal_size,
}
use nano_fs.Superblock.Layout.{IsLayout, superblock_init-IsLayout, superblock_init-too_small}

start_of_data : (superblock_init 4096 0).data_start ≡ 523
unfolding superblock_init inode_total journal_size
start_of_data = refl

-- One data block more than the bitmap has bits.
one_bit_short :
    (superblock_init 34828 0).data_blocks ≡ 32768 * (superblock_init 34828 0).data_bitmap_blocks + 1
unfolding superblock_init inode_total journal_size
one_bit_short = refl

superblock_init-IsLayout_example : IsLayout (superblock_init 4096 7)
superblock_init-IsLayout_example = superblock_init-IsLayout 4096 7 (omega arith) (omega arith)

superblock_init-too_small_example :
    let sb = superblock_init 256 7 in
    (sb.data_bitmap_blocks ≡ 0) × (sb.data_blocks ≡ 2 ^ 32 + 256 - 266)
superblock_init-too_small_example = superblock_init-too_small 256 7 (omega arith) (omega arith)

-- The image is written to an empty device and read back.
superblock_read-superblock_write_example :
    (image ≡ image) × ((q : ℕ) → q ≢ 0 → (superblock_write array_io image (λ b. [])).1 q ≡ [])
unfolding superblock_write synced superblock_read
superblock_read-superblock_write_example =
    superblock_read-superblock_write array_io image image (λ b. []) tt
      (image-IsSuperblock 5 (omega arith)) refl
      (ap (λ (sb : Superblock). let r : Result Errno Superblock = ok sb in r)
        (superblock_of-superblock_bytes image (replicate 8 0) (image-IsSuperblock 5 (omega arith))))
