-- ===== src/InodeCache/Alloc/Good.antt =====
-- `inode_cache_init` keeps the device good.
use nano_fs.Prelude.{ℕ, ◌≡◌, List, Result, ok, err, Errno, ◌==◌, Bool-cases, inl, inr}
use nano_fs.Types.{superblock_block, superblock_magic}
use nano_fs.Types.Bytes.{superblock_of}
use nano_fs.BlockIo.{BlockIo}
use nano_fs.BlockAlloc.{BlockAllocator}
use nano_fs.BlockAlloc.Disk.{load_bitmap}
use nano_fs.BlockAlloc.Disk.Good.{load_bitmap-IsGood}
use nano_fs.InodeCache.{InodeCache}
use nano_fs.InodeCache.Alloc.{new_cache, with_bitmap, with_superblock, inode_cache_init}

module _ (io : BlockIo) where
  open io use {Dev, read, IsGood}

  with_bitmap-IsGood :
      (r : Result Errno (List ℕ)) (make : List ℕ → InodeCache io) (icache : InodeCache io)
      → ((l : List ℕ) → IsGood (make l).dev)
      → with_bitmap io r make ≡ ok icache
      → IsGood icache.dev
  unfolding with_bitmap
  with_bitmap-IsGood (err e) make icache g h = cc
  with_bitmap-IsGood (ok l) make icache g h = let same : make l ≡ icache = cc in rw (← same) (g l)

  with_superblock-IsGood :
      (r : Result Errno (List ℕ)) (balloc : BlockAllocator) (max_inodes hash_size : ℕ) (dev : Dev)
      (icache : InodeCache io)
      → IsGood dev
      → (with_superblock io r balloc max_inodes hash_size dev).0 ≡ ok icache
      → IsGood icache.dev
  unfolding with_superblock new_cache
  with_superblock-IsGood (err e) balloc max_inodes hash_size dev icache g h = cc
  with_superblock-IsGood (ok buf) balloc max_inodes hash_size dev icache g h =
      let sb = superblock_of buf in
      elim (Bool-cases (sb.magic == superblock_magic)) [
        | inl m ↦
            with_bitmap-IsGood (load_bitmap io sb.inode_bitmap_start sb.inode_bitmap_blocks dev).0 _
              icache (λ l. load_bitmap-IsGood io sb.inode_bitmap_start sb.inode_bitmap_blocks dev g)
              (rw m at h)
        | inr m ↦ absurd (let h' = rw m at h in cc)
      ]

  pub inode_cache_init-IsGood :
      (balloc : BlockAllocator) (max_inodes hash_size : ℕ) (dev : Dev) (icache : InodeCache io)
      → IsGood dev
      → (inode_cache_init io balloc max_inodes hash_size dev).0 ≡ ok icache
      → IsGood icache.dev
  unfolding inode_cache_init
  inode_cache_init-IsGood balloc max_inodes hash_size dev icache g h =
      with_superblock-IsGood (read superblock_block dev).0 balloc max_inodes hash_size
        (read superblock_block dev).1 icache (io.read_good superblock_block dev g) h
