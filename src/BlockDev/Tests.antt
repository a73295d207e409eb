-- ===== src/BlockDev/Tests.antt =====
-- `block_dev.c` on a device of four blocks in memory, of which block 1 is read.
use nano_fs.Prelude.{ℕ, ◌<◌, ◌≡◌, refl, ◌++◌, arith, ok, some, [], ◌∷◌, replicate}
use nano_fs.Types.Bytes.{superblock_of, superblock_bytes, superblock_of-superblock_bytes}
use nano_fs.Types.Tests.{image, image-IsSuperblock}
use nano_fs.Os.{Block}
use nano_fs.Os.Ram.{ram, ram-Laws}
use nano_fs.BufferCache.{
  hash_lookup, find_block, buffer_cache_lookup, buffer_cache_init, buffer_cache_insert, add_buffer,
  hash_insert, hash_block, sync_buffer, sync_list, buffer_cache_sync, buffer_head_put,
  buffer_head_mark_dirty, hit, lru_move_to_head, buffer_head_get,
}
use nano_fs.BlockDev.{
  read_hit, write_found, write_hit, write_miss, finish_write, flush, BlockDevice,
  blkdev_load_superblock, blkdev_write_superblock, write_loaded, then_sync, loaded, blkdev_open,
  blkdev_read, blkdev_write, blkdev_sync, read_found, read_miss, invalidate_block,
}
use nano_fs.BlockDev.Flat.{IsGood, Reads, blkdev_read-Reads}
use nano_fs.BlockDev.Write.{Writes, Syncs, blkdev_write-Writes, blkdev_sync-Syncs}
use nano_fs.BlockDev.Reload.{blkdev_load-write_superblock}
use nano_fs.BlockDev.Invalid.{invalidate-write-read}
use nano_fs.BlockDev.Io.{blkdev_open-IsGood}

abbrev disk : ℕ → Block
disk b = b ∷ 7 ∷ []

abbrev opened : BlockDevice ram
opened = blkdev_open ram 16384 disk

abbrev once_read : BlockDevice ram
once_read = (blkdev_read ram 1 opened).1

opened-IsGood : IsGood ram ram-Laws opened
opened-IsGood = (blkdev_open-IsGood ram ram-Laws 16384 disk).0

blkdev_read-Reads_example : Reads ram ram-Laws opened 1 (blkdev_read ram 1 opened)
unfolding blkdev_open
blkdev_read-Reads_example = blkdev_read-Reads ram ram-Laws opened 1 opened-IsGood (omega arith)

once_read-IsGood : IsGood ram ram-Laws once_read
unfolding blkdev_open
once_read-IsGood =
    (blkdev_read-Reads ram ram-Laws opened 1 opened-IsGood (omega arith)).same.coherent

blkdev_write-Writes_example :
    Writes ram ram-Laws opened 1 (9 ∷ []) (blkdev_write ram 1 (9 ∷ []) opened)
unfolding blkdev_open
blkdev_write-Writes_example =
    blkdev_write-Writes ram ram-Laws opened 1 (9 ∷ []) opened-IsGood (omega arith)

once_written-IsGood : IsGood ram ram-Laws (blkdev_write ram 1 (9 ∷ []) opened).1
unfolding blkdev_open
once_written-IsGood =
    (blkdev_write-Writes ram ram-Laws opened 1 (9 ∷ []) opened-IsGood (omega arith)).good

blkdev_sync-Syncs_example :
    let dev = (blkdev_write ram 1 (9 ∷ []) opened).1 in Syncs ram ram-Laws dev (blkdev_sync ram dev)
blkdev_sync-Syncs_example =
    blkdev_sync-Syncs ram ram-Laws (blkdev_write ram 1 (9 ∷ []) opened).1 once_written-IsGood

once_read_lt : 1 < once_read.total_blocks
unfolding blkdev_read blkdev_open read_found read_miss hash_lookup find_block buffer_cache_lookup
    buffer_cache_init buffer_cache_insert
once_read_lt = omega arith

cached : hash_lookup once_read.cache 1 ≡ some 0
unfolding blkdev_read blkdev_open read_found read_miss hash_lookup find_block buffer_cache_lookup
    buffer_cache_init buffer_cache_insert add_buffer hash_insert hash_block
cached = refl

read_back : (blkdev_read ram 1 opened).0 ≡ ok (1 ∷ 7 ∷ [])
unfolding blkdev_read blkdev_open read_found read_miss hash_lookup find_block buffer_cache_lookup
    buffer_cache_init buffer_cache_insert
read_back = refl

invalidate-write-read_example :
    let out = blkdev_write ram 1 (9 ∷ []) (invalidate_block ram 1 once_read) in
    (out.0 ≡ ok tt) × ((blkdev_read ram 1 out.1).0 ≡ ok (1 ∷ 7 ∷ []))
unfolding blkdev_read blkdev_open read_found read_miss hash_lookup find_block buffer_cache_lookup
    buffer_cache_init buffer_cache_insert
invalidate-write-read_example =
    invalidate-write-read ram ram-Laws 1 (9 ∷ []) once_read 0 (1 ∷ 7 ∷ []) once_read-IsGood
      once_read_lt cached refl

-- The device with a superblock, at the time 5.
abbrev labelled : BlockDevice ram
labelled = record opened { superblock = some image }

abbrev labelled_again : BlockDevice ram
labelled_again = (blkdev_write_superblock ram 5 (replicate 8 0) labelled).1

loads :
    (dev : BlockDevice ram) (l : Block)
    → (blkdev_read ram 0 dev).0 ≡ ok l
    → superblock_of l ≡ image
    → (blkdev_load_superblock ram dev).0 ≡ ok tt
unfolding blkdev_load_superblock loaded
loads dev l e m = rw (e, m) refl

blkdev_load-write_superblock_example :
    (blkdev_load_superblock ram
      (blkdev_write_superblock ram 5 (replicate 8 0) labelled).1).1.superblock
    ≡ some image
unfolding blkdev_open blkdev_read blkdev_write blkdev_sync read_found read_miss hash_lookup
    find_block buffer_cache_lookup buffer_cache_init buffer_cache_insert add_buffer hash_insert
    hash_block blkdev_write_superblock write_loaded then_sync sync_buffer sync_list
    buffer_cache_sync buffer_head_put buffer_head_mark_dirty hit lru_move_to_head buffer_head_get
    read_hit write_found write_hit write_miss finish_write flush
blkdev_load-write_superblock_example =
    blkdev_load-write_superblock ram ram-Laws labelled image 5 (replicate 8 0) opened-IsGood
      (omega arith) refl (image-IsSuperblock 5 (omega arith)) refl
      (loads labelled_again (superblock_bytes image ++ replicate 8 0) refl
        (superblock_of-superblock_bytes image (replicate 8 0) (image-IsSuperblock 5 (omega arith))))
