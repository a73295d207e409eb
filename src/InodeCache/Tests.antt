-- ===== src/InodeCache/Tests.antt =====
-- `inode.c` with a pool of one inode, on an array of blocks of zeros.
use nano_fs.Prelude.{
  ℕ, ◌≡◌, refl, true, none, some, [], ◌∷◌, ok, err, replicate, ◌<◌, length-replicate, All-replicate,
  arith, update,
}
use nano_fs.Types.{block_size}
use nano_fs.Types.Tests.{image, directory, directory-IsDiskInode}
use nano_fs.BlockIo.Ram.{array_io}
use nano_fs.BlockAlloc.{BlockAllocator}
use nano_fs.Inode.{Inode}
use nano_fs.InodeCache.{
  InodeCache, hang, null, inode_hash, zero_inode, in_use, walk, hash_lookup, fill, load_inode,
  first_unused, removes, get_miss, get_found, inode_get, inode_sync,
}
use nano_fs.InodeCache.Sync.{Syncs, inode_sync-Syncs}
use nano_fs.InodeCache.Get.{Gets, inode_get-Gets}
use nano_fs.InodeCache.Chain.{inode_get_circle}
use nano_fs.Bitmap.{Fits, bitmap_test}
use nano_fs.InodeCache.Alloc.{inode_alloc}
use nano_fs.InodeCache.Alloc.Fresh.{IsNew, inode_alloc-IsNew}

abbrev small_allocator : BlockAllocator
small_allocator = record {
  bitmap = 5 ∷ [];
  bitmap_blocks = 1;
  total_blocks = 8;
  free_blocks = 6;
  data_start = 10;
  bitmap_start = 3;
  alloc_count = 2;
  free_count = 0;
}

-- The pool holds the inode `i`, in the chain of an odd number.
abbrev pub with_inode : Inode → InodeCache array_io
with_inode i = record {
  dev = λ b. replicate block_size 0;
  balloc = small_allocator;
  sb = image;
  inodes = λ p. i;
  max_inodes = 1;
  lru = 0 ∷ [];
  hash_table = update (λ h. none) 1 (some 0);
  hash_next = λ p. none;
  hash_size = 2;
  inode_bitmap = 3 ∷ [];
  bitmap_blocks = 1;
}

abbrev pub root : Inode
root = record { inum = 1; disk = directory; ref_count = 0; valid = true; dirty = true }

inode_sync-Syncs_example :
    Syncs array_io (with_inode root) 0 (inode_sync array_io 0 (with_inode root))
inode_sync-Syncs_example =
    inode_sync-Syncs array_io (with_inode root) 0 tt directory-IsDiskInode
      (length-replicate {A = ℕ} block_size 0) (omega arith) refl refl

evicts : (inode_get array_io 3 (with_inode root)).0 ≡ ok 0
unfolding inode_get get_found hash_lookup walk inode_hash get_miss first_unused in_use load_inode
    removes fill
evicts = refl

-- Inode 3 takes the place of inode 1.
inode_get-Gets_example :
    Gets array_io (with_inode root) 3 0 (inode_get array_io 3 (with_inode root)).1
inode_get-Gets_example = inode_get-Gets array_io (with_inode root) 3 0 tt evicts

-- An inode whose load has failed.
abbrev failed : Inode
failed = record zero_inode { inum = 1 }

inode_get_circle_example :
    (inode_get array_io 5 (inode_get array_io 3 (with_inode failed)).1).0 ≡ err hang
unfolding hash_lookup walk inode_hash first_unused in_use zero_inode
inode_get_circle_example =
    inode_get_circle array_io (with_inode failed) 3 0 5 refl refl refl refl (omega arith) refl

-- A bitmap of 16384 bits, of which the first is set.
abbrev fresh : InodeCache array_io
fresh = record (with_inode root) { inode_bitmap = 1 ∷ replicate 2047 0 }

fresh-Fits : Fits (1 ∷ replicate 2047 0) 16384
fresh-Fits = record {
  bytes = (omega arith, All-replicate (λ b. b < 256) 2047 0 (omega arith));
  room = omega (arith, length-replicate {A = ℕ} 2047 0);
}

inode_alloc-IsNew_example :
    ((p : ℕ)
      → (inode_alloc array_io 2 9 fresh).0 ≡ ok p
      → (i : ℕ) × IsNew array_io fresh 2 9 i p (inode_alloc array_io 2 9 fresh).1)
    × ((j : ℕ)
        → (inode_alloc array_io 2 9 fresh).0 ≡ err null
        → bitmap_test (inode_alloc array_io 2 9 fresh).1.inode_bitmap j
          ≡ bitmap_test (1 ∷ replicate 2047 0) j)
inode_alloc-IsNew_example = inode_alloc-IsNew array_io fresh 2 9 tt fresh-Fits
