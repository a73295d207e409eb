-- ===== src/InodeCache/Alloc.antt =====
-- src/inode.c: `inode_alloc` and `inode_free`, and the cache's start.
pub mod Fresh
pub mod Good
use nano_fs.Prelude.{
  ℕ, zero, suc, ◌+◌, true, Option, none, some, List, [], ◌∷◌, Result, ok, err, Errno, FsError, ◌==◌,
  if◌then◌else◌, u32, sub_u32,
}
use nano_fs.Types.{Superblock, DiskInode, superblock_block, superblock_magic}
use nano_fs.Types.Bytes.{superblock_of}
use nano_fs.BlockIo.{BlockIo}
use nano_fs.Bitmap.{bitmap_set, bitmap_clear}
use nano_fs.BlockAlloc.{BlockAllocator, find_free}
use nano_fs.BlockAlloc.Disk.{load_bitmap}
use nano_fs.Inode.{Inode, inode_truncate}
use nano_fs.InodeCache.{
  Stop, null, hang, zero_disk, zero_inode, InodeCache, at, on_inode, inode_sync, sync_inode_bitmap,
  inode_put, inode_get,
}

module _ (io : BlockIo) where
  open io use {Dev, read}

  -- `memset(&inode->disk, 0, ...)` and what `inode_alloc` sets after it.
  pub new_disk : ℕ → ℕ → DiskInode
  new_disk kind now = record zero_disk {
    kind = kind;
    nlink = 1;
    atime = now;
    mtime = now;
    ctime = now;
  }

  -- The bit is cleared again.
  roll_back : ℕ → InodeCache io → InodeCache io
  roll_back inum c = record c { inode_bitmap = bitmap_clear c.inode_bitmap inum }

  -- After the first `inode_sync` of the new inode `p`.
  finish_alloc : Result FsError (Unit {0}) → ℕ → ℕ → InodeCache io → Result Stop ℕ × InodeCache io
  unfolding roll_back inode_put
  finish_alloc (err e) p inum c = (err null, inode_put io p (roll_back inum c))
  finish_alloc (ok u) p inum c = (
    ok p,
    (sync_inode_bitmap io
        (record c { sb = record c.sb { free_inodes = sub_u32 c.sb.free_inodes 1 } })).1,
  )

  -- After `inode_get` of the number that was found.
  initialize : Result Stop ℕ → ℕ → ℕ → ℕ → InodeCache io → Result Stop ℕ × InodeCache io
  unfolding new_disk roll_back finish_alloc
  initialize (err hang) inum kind now c = (err hang, c)
  initialize (err null) inum kind now c = (err null, roll_back inum c)
  initialize (ok p) inum kind now c =
      let (r, c') =
        inode_sync io p
          (at io c p (λ i. record i { disk = new_disk kind now; valid = true; dirty = true })) in
      finish_alloc r p inum c'

  alloc_found : Option ℕ → ℕ → ℕ → InodeCache io → Result Stop ℕ × InodeCache io
  unfolding initialize
  alloc_found none kind now c = (err null, c)
  alloc_found (some inum) kind now c =
      let (r, c') =
        inode_get io inum (record c { inode_bitmap = bitmap_set c.inode_bitmap inum }) in
      initialize r inum kind now c'

  pub inode_alloc : ℕ → ℕ → InodeCache io → Result Stop ℕ × InodeCache io
  unfolding alloc_found
  inode_alloc kind now c = alloc_found (find_free c.inode_bitmap c.sb.total_inodes 0) kind now c

  -- `inode_truncate` to 0 does not fail.
  pub inode_free : ℕ → InodeCache io → Result FsError (Unit {0}) × InodeCache io
  unfolding inode_put roll_back
  inode_free p c =
      let (r, c1) = on_inode io p (inode_truncate io 0) c in
      let inum = (c1.inodes p).inum in
      let c2 = roll_back inum (inode_put io p c1) in
      let c3 =
        (sync_inode_bitmap io
          (record c2 { sb = record c2.sb { free_inodes = u32 (c2.sb.free_inodes + 1) } })).1 in
      elim r [ ok u ↦ (ok tt, c3) | err e ↦ (err e, c1) ]

  -- The LRU list after the inodes of the pool are put in, the first one first.
  pool : ℕ → List ℕ
  pool zero = []
  pool (suc n) = n ∷ pool n

  -- `inode_cache_init` once the superblock and the bitmap are read.
  pub new_cache : BlockAllocator → ℕ → ℕ → Superblock → List ℕ → Dev → InodeCache io
  unfolding pool
  new_cache balloc max_inodes hash_size sb bitmap dev = record {
    dev = dev;
    balloc = balloc;
    sb = sb;
    inodes = λ p. zero_inode;
    max_inodes = max_inodes;
    lru = pool max_inodes;
    hash_table = λ h. none;
    hash_next = λ p. none;
    hash_size = hash_size;
    inode_bitmap = bitmap;
    bitmap_blocks = sb.inode_bitmap_blocks;
  }

  -- `load_inode_bitmap`.
  with_bitmap : Result Errno (List ℕ) → (List ℕ → InodeCache io) → Result Stop (InodeCache io)
  with_bitmap (ok bitmap) make = ok (make bitmap)
  with_bitmap (err e) make = err null

  -- `read_superblock`.
  with_superblock :
      Result Errno (List ℕ) → BlockAllocator → ℕ → ℕ → Dev → Result Stop (InodeCache io) × Dev
  unfolding with_bitmap
  with_superblock (err e) balloc max_inodes hash_size dev = (err null, dev)
  with_superblock (ok buf) balloc max_inodes hash_size dev =
      let sb = superblock_of buf in
      let (r, dev') = load_bitmap io sb.inode_bitmap_start sb.inode_bitmap_blocks dev in
      if sb.magic == superblock_magic
      then (with_bitmap r (λ bitmap. new_cache balloc max_inodes hash_size sb bitmap dev'), dev')
      else (err null, dev)

  pub inode_cache_init : BlockAllocator → ℕ → ℕ → Dev → Result Stop (InodeCache io) × Dev
  unfolding with_superblock
  inode_cache_init balloc max_inodes hash_size dev =
      let (r, dev') = read superblock_block dev in
      with_superblock r balloc max_inodes hash_size dev'

  pub inode_stat : Inode → ℕ × ℕ × ℕ
  inode_stat i = (i.disk.size, i.disk.blocks, i.disk.kind)
