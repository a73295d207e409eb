-- ===== src/Context.antt =====
-- src/fs_context.c: mounting, syncing and unmounting. The journal and the extent allocator are Rust
-- code behind include/modernfs/rust_ffi.h; they write to the device by a descriptor of their own.
-- `dup` and `pthread_create` succeed, and the closing of the device is left out, as is the thread
-- that makes a checkpoint every 30 seconds.
pub mod Mounted
pub mod Tests
use nano_fs.Prelude.{
  ℕ, Bool, true, false, not, Option, none, some, List, Result, ok, err, Errno, eio, ◌==◌,
  if◌then◌else◌,
}
use nano_fs.Types.{Superblock, inode_type_dir}
use nano_fs.BlockIo.{BlockIo}
use nano_fs.BlockAlloc.{BlockAllocator, block_alloc_stats}
use nano_fs.BlockAlloc.Disk.{block_alloc_init, block_alloc_sync, block_alloc_destroy}
use nano_fs.Superblock.{superblock_read, superblock_validate}
use nano_fs.InodeCache.{
  InodeCache, Stop, null, hang, inode_get, inode_put, inode_sync_all, inode_cache_destroy,
}
use nano_fs.InodeCache.Alloc.{inode_cache_init}

-- What the Rust functions do to a device; `false` is a negative result, `none` is NULL.
pub record Rust (Dev : Type 0) : Type 1 where
  pub Journal : Type 0
  pub Extent : Type 0
  pub Transaction : Type 0
  pub journal_init : ℕ → ℕ → Dev → Option Journal × Dev
  pub journal_recover : Journal → Dev → Bool × Journal × Dev
  pub journal_checkpoint : Journal → Dev → Bool × Journal × Dev
  pub journal_begin : Journal → Option Transaction × Journal
  pub journal_write : ℕ → List ℕ → Transaction → Bool × Transaction
  pub journal_commit : Transaction → Journal → Dev → Bool × Journal × Dev
  pub journal_abort : Transaction → Journal → Journal
  pub extent_alloc_init : ℕ → ℕ → Dev → Option Extent × Dev
  pub extent_sync : Extent → Dev → Bool × Extent × Dev

module _ (io : BlockIo) (rust : Rust io.Dev) where
  open io use {Dev, sync}
  open rust use {Journal, Extent}

  -- `fs_context_t`; the device and the allocator are those of the inode cache, and `sb` is also the
  -- superblock of the device.
  pub record FsContext : Type 0 where
    pub icache : InodeCache io
    pub sb : Superblock
    pub journal : Option Journal
    pub extent_alloc : Option Extent
    pub root_inum : ℕ
    pub read_only : Bool
    pub read_count : ℕ
    pub write_count : ℕ

  -- The context with another device.
  abbrev on_dev : FsContext → Dev → FsContext
  on_dev ctx dev = record ctx { icache = record ctx.icache { dev = dev } }

  pub checkpoint : Option Journal → FsContext → Bool × FsContext
  checkpoint none ctx = (true, ctx)
  checkpoint (some journal) ctx =
      let (done, journal', dev) = rust.journal_checkpoint journal ctx.icache.dev in
      (done, record (on_dev ctx dev) { journal = some journal' })

  sync_extents : Option Extent → FsContext → Bool × FsContext
  sync_extents none ctx = (true, ctx)
  sync_extents (some extent) ctx =
      let (done, extent', dev) = rust.extent_sync extent ctx.icache.dev in
      (done, record (on_dev ctx dev) { extent_alloc = some extent' })

  -- The counts of the superblock, once the allocator is synced, and the sync of the device.
  sync_counts : Result Errno (Unit {0}) → FsContext → Result Errno (Unit {0}) × FsContext
  sync_counts (err e) ctx = (err eio, ctx)
  sync_counts (ok u) ctx =
      let sb' = record ctx.sb {
        free_blocks = ctx.icache.balloc.free_blocks;
        free_inodes = ctx.icache.sb.free_inodes;
      } in
      let (r, dev) = sync ctx.icache.dev in
      (elim r [ ok v ↦ ok v | err e ↦ err eio ], record (on_dev ctx dev) { sb = sb' })

  -- The part in C.
  sync_caches : FsContext → Result Errno (Unit {0}) × FsContext
  unfolding sync_counts
  sync_caches ctx =
      let icache = inode_sync_all io ctx.icache in
      let (r, sb, dev) = block_alloc_sync io icache.balloc (some ctx.sb) icache.dev in
      sync_counts r (record ctx { icache = record icache { dev = dev } })

  unfoldable pub fs_context_sync : FsContext → Result Errno (Unit {0}) × FsContext
  unfolding checkpoint sync_extents sync_caches
  fs_context_sync ctx =
      let (done, ctx1) = checkpoint ctx.journal ctx in
      let (done', ctx2) = sync_extents ctx1.extent_alloc ctx1 in
      if ctx.read_only
      then (ok tt, ctx)
      else if not done
      then (err eio, ctx1)
      else if not done'
      then (err eio, ctx2)
      else sync_caches ctx2

  -- `inode_cache_destroy`, then `block_alloc_destroy`, which writes the bitmap with any of the two mounts.
  destroy_caches : Superblock → InodeCache io → InodeCache io
  destroy_caches sb icache =
      let c = inode_cache_destroy io icache in
      record c { dev = (block_alloc_destroy io c.balloc (some sb) c.dev).1 }

  -- Before the memory is freed and the device closed.
  pub fs_context_destroy : FsContext → InodeCache io
  unfolding fs_context_sync destroy_caches
  fs_context_destroy ctx =
      let ctx' = if ctx.read_only then ctx else (fs_context_sync ctx).1 in
      destroy_caches ctx'.sb ctx'.icache

  -- The numbers of data blocks and of inodes, each with those that are free.
  unfoldable pub fs_context_statfs : FsContext → (ℕ × ℕ × ℕ × ℕ) × FsContext
  fs_context_statfs ctx =
      let (data_total, data_free, data_used) = block_alloc_stats ctx.icache.balloc in
      (
        (data_total, data_free, ctx.icache.sb.total_inodes, ctx.icache.sb.free_inodes),
        record ctx {
          sb = record ctx.sb { free_blocks = data_free; free_inodes = ctx.icache.sb.free_inodes };
        },
      )

  -- A failure after the cache was made.
  give_up : Superblock → InodeCache io → Result Stop FsContext × Dev
  unfolding destroy_caches
  give_up sb icache = (err null, (destroy_caches sb icache).dev)

  -- The end of `fs_context_init`.
  mounted :
      Bool
      → Superblock
      → Option Journal
      → Option Extent
      → InodeCache io
      → Result Stop FsContext × Dev
  mounted read_only sb journal extent_alloc icache = (
    ok (record {
      icache = icache;
      sb = sb;
      journal = journal;
      extent_alloc = extent_alloc;
      root_inum = sb.root_inum;
      read_only = read_only;
      read_count = 0;
      write_count = 0;
    }),
    icache.dev,
  )

  with_extents : Option Extent → Superblock → Journal → InodeCache io → Result Stop FsContext × Dev
  unfolding give_up mounted
  with_extents none sb journal icache = give_up sb icache
  with_extents (some extent) sb journal icache =
      mounted false sb (some journal) (some extent) icache

  -- With the journal, after the recovery.
  recovered : Bool → Superblock → Journal → InodeCache io → Result Stop FsContext × Dev
  unfolding give_up with_extents
  recovered false sb journal icache = give_up sb icache
  recovered true sb journal icache =
      let (extent, dev) = rust.extent_alloc_init sb.data_bitmap_start sb.data_blocks icache.dev in
      with_extents extent sb journal (record icache { dev = dev })

  with_journal : Option Journal → Superblock → InodeCache io → Result Stop FsContext × Dev
  unfolding give_up recovered
  with_journal none sb icache = give_up sb icache
  with_journal (some journal) sb icache =
      let (done, journal', dev) = rust.journal_recover journal icache.dev in
      recovered done sb journal' (record icache { dev = dev })

  start_journal : Bool → Superblock → InodeCache io → Result Stop FsContext × Dev
  unfolding mounted with_journal
  start_journal read_only sb icache =
      let (journal, dev) = rust.journal_init sb.journal_start sb.journal_blocks icache.dev in
      if read_only
      then mounted true sb none none icache
      else with_journal journal sb (record icache { dev = dev })

  -- With the root that `inode_get` returned.
  with_root : Result Stop ℕ → Bool → Superblock → InodeCache io → Result Stop FsContext × Dev
  unfolding give_up start_journal
  with_root (err hang) read_only sb icache = (err hang, icache.dev)
  with_root (err null) read_only sb icache = give_up sb icache
  with_root (ok root) read_only sb icache =
      if (icache.inodes root).disk.kind == inode_type_dir
      then start_journal read_only sb (inode_put io root icache)
      else give_up sb (inode_put io root icache)

  -- With the result of `inode_cache_init` for the allocator `balloc`.
  with_icache :
      Result Stop (InodeCache io)
      → BlockAllocator
      → Bool
      → Superblock
      → Dev
      → Result Stop FsContext × Dev
  unfolding with_root
  with_icache (err hang) balloc read_only sb dev = (err hang, dev)
  with_icache (err null) balloc read_only sb dev =
      (err null, (block_alloc_destroy io balloc (some sb) dev).1)
  with_icache (ok icache) balloc read_only sb dev =
      let (r, icache') = inode_get io sb.root_inum icache in with_root r read_only sb icache'

  with_balloc : Option BlockAllocator → Bool → Superblock → Dev → Result Stop FsContext × Dev
  unfolding with_icache
  with_balloc none read_only sb dev = (err null, dev)
  with_balloc (some balloc) read_only sb dev =
      let (r, dev') = inode_cache_init io balloc 64 32 dev in with_icache r balloc read_only sb dev'

  -- With the result of `superblock_validate`.
  validated : Result Errno (Unit {0}) → Bool → Superblock → Dev → Result Stop FsContext × Dev
  unfolding with_balloc
  validated (err e) read_only sb dev = (err null, dev)
  validated (ok u) read_only sb dev =
      let (balloc, dev') =
        block_alloc_init io sb.data_bitmap_start sb.data_bitmap_blocks sb.data_start sb.data_blocks
          dev in
      with_balloc balloc read_only sb dev'

  with_sb : Result Errno Superblock → Bool → Dev → Result Stop FsContext × Dev
  unfolding validated
  with_sb (err e) read_only dev = (err null, dev)
  with_sb (ok sb) read_only dev = validated (superblock_validate sb) read_only sb dev

  -- From the device that was opened.
  pub fs_context_init : Bool → Dev → Result Stop FsContext × Dev
  unfolding with_sb
  fs_context_init read_only dev = let (r, dev') = superblock_read io dev in with_sb r read_only dev'
