-- ===== src/InodeCache.antt =====
-- src/inode.c and include/modernfs/inode.h: the inode cache. An inode of the pool is its number
-- there. The LRU list is the list of its inodes from head to tail; a hash chain is threaded through
-- the pool as in the source. A walk along a chain has one round more than the pool has inodes: a
-- longer one goes round in a circle for ever, and `hang` is its result.
pub mod Sync
pub mod Get
pub mod Fixed
pub mod Chain
pub mod Good
pub mod Unallocated
pub mod Alloc
pub mod Tests
use mathlib.Core.List.{reverse}
use nano_fs.Prelude.{
  ℕ, zero, suc, ◌+◌, ◌*◌, ◌/◌, ◌%◌, ◌^◌, Bool, true, false, not, ◌&&◌, ◌||◌, Option, none, some,
  List, [], ◌∷◌, Result, ok, err, Errno, FsError, fs_einval, fs_eio, ltb, leb, ◌==◌, if◌then◌else◌,
  u32, u64, sub_u32, update, replicate,
}
use nano_fs.Types.{
  Superblock, DiskInode, block_size, inode_size, inode_direct_blocks, superblock_block,
  superblock_magic,
}
use nano_fs.Types.Bytes.{superblock_of, inode_of, inode_bytes}
use nano_fs.Struct.{copy, splice}
use nano_fs.BlockIo.{BlockIo}
use nano_fs.Bitmap.{bitmap_set, bitmap_clear}
use nano_fs.BlockAlloc.{BlockAllocator, find_free}
use nano_fs.BlockAlloc.Disk.{load_bitmap, store_bitmap}
use nano_fs.BufferCache.{without}
use nano_fs.Inode.{Inode, Fs, M, inode_truncate}

-- How a function that returns a pointer ends without one.
pub data Stop : Type 0 where
  null hang : Stop

pub inode_hash : ℕ → ℕ → ℕ
inode_hash inum hash_size = inum % hash_size

-- A calloc'ed inode, and its disk part.
unfoldable pub zero_disk : DiskInode
zero_disk = record {
  mode = 0;
  uid = 0;
  gid = 0;
  nlink = 0;
  kind = 0;
  flags = 0;
  reserved = 0;
  size = 0;
  blocks = 0;
  atime = 0;
  mtime = 0;
  ctime = 0;
  direct = replicate inode_direct_blocks 0;
  indirect = 0;
  double_indirect = 0;
  padding = replicate 20 0;
}

pub zero_inode : Inode
zero_inode = record { inum = 0; disk = zero_disk; ref_count = 0; valid = false; dirty = false }

-- `ref_count > 0`, of an `int` as a bit pattern.
in_use : Inode → Bool
in_use inode = ltb 0 inode.ref_count && ltb inode.ref_count (2 ^ 31)

-- Where the inode lies on the device.
abbrev pub inode_block : Superblock → ℕ → ℕ
inode_block sb inum = u32 (sb.inode_table_start + u32 (inum * inode_size) / block_size)

abbrev pub inode_offset : ℕ → ℕ
inode_offset inum = u32 (inum * inode_size) % block_size

module _ (io : BlockIo) where
  open io use {Dev, read, write}

  pub record InodeCache : Type 0 where
    pub dev : Dev
    pub balloc : BlockAllocator
    pub sb : Superblock
    pub inodes : ℕ → Inode
    pub max_inodes : ℕ
    pub lru : List ℕ
    pub hash_table : ℕ → Option ℕ
    pub hash_next : ℕ → Option ℕ
    pub hash_size : ℕ
    pub inode_bitmap : List ℕ
    pub bitmap_blocks : ℕ

  -- A change of the inode `p`.
  abbrev pub at : InodeCache → ℕ → (Inode → Inode) → InodeCache
  at c p f = record c { inodes = update c.inodes p (f (c.inodes p)) }

  -- An operation on the inode `p`, with the allocator and the device of the cache.
  pub on_inode : {A : Type 0} → ℕ → M io A → InodeCache → Result FsError A × InodeCache
  on_inode p m c =
      let (r, s) = m (record { balloc = c.balloc; dev = c.dev; inode = c.inodes p }) in
      (r, record c { balloc = s.balloc; dev = s.dev; inodes = update c.inodes p s.inode })

  lru_remove : InodeCache → ℕ → InodeCache
  lru_remove c p = record c { lru = without p c.lru }

  lru_push_front : InodeCache → ℕ → InodeCache
  lru_push_front c p = record c { lru = p ∷ c.lru }

  pub hash_insert : InodeCache → ℕ → InodeCache
  hash_insert c p =
      let h = inode_hash (c.inodes p).inum c.hash_size in
      record c {
        hash_next = update c.hash_next p (c.hash_table h);
        hash_table = update c.hash_table h (some p);
      }

  -- The walk of `hash_lookup`; `none` if it does not end within the rounds.
  pub walk : ℕ → InodeCache → Option ℕ → ℕ → Option (Option ℕ)
  walk zero c start inum = none
  walk (suc rounds) c none inum = some none
  walk (suc rounds) c (some p) inum =
      let rest = walk rounds c (c.hash_next p) inum in
      if (c.inodes p).inum == inum then some (some p) else rest

  pub hash_lookup : InodeCache → ℕ → Option (Option ℕ)
  hash_lookup c inum = walk (c.max_inodes + 1) c (c.hash_table (inode_hash inum c.hash_size)) inum

  -- What a slot of a chain holds after `hash_remove` of `p`, and the new links, if the walk ends (see `removes`).
  pub unlink : ℕ → Option ℕ → ℕ → (ℕ → Option ℕ) → Option ℕ × (ℕ → Option ℕ)
  unlink zero slot p links = (slot, links)
  unlink (suc rounds) none p links = (none, links)
  unlink (suc rounds) (some q) p links =
      let (after, links') = unlink rounds (links q) p links in
      if q == p then (links p, links) else (some q, update links' q after)

  pub hash_remove : InodeCache → ℕ → InodeCache
  unfolding unlink
  hash_remove c p =
      let h = inode_hash (c.inodes p).inum c.hash_size in
      let (slot, links) = unlink (c.max_inodes + 1) (c.hash_table h) p c.hash_next in
      record c { hash_table = update c.hash_table h slot; hash_next = update links p none }

  -- Whether the walk of `hash_remove` ends, at `p` or at the end of the chain; a walk of more steps than the pool has
  -- inodes goes round in a circle.
  walk_ends : ℕ → InodeCache → Option ℕ → ℕ → Bool
  walk_ends zero c slot p = false
  walk_ends (suc rounds) c none p = true
  walk_ends (suc rounds) c (some q) p =
      let rest = walk_ends rounds c (c.hash_next q) p in if q == p then true else rest

  -- The same for the inode `p` as it is recycled: it is taken out only if it is valid.
  pub removes : ℕ → InodeCache → Bool
  unfolding walk_ends
  removes p c =
      let i = c.inodes p in
      not i.valid || walk_ends (c.max_inodes + 1) c (c.hash_table (inode_hash i.inum c.hash_size)) p

  -- A device's failure is EIO.
  lift : Result Errno (Unit {0}) → Result FsError (Unit {0})
  lift (ok u) = ok u
  lift (err e) = err fs_eio

  -- `inode_sync` with the block that was read, after the write, and whole.
  finish_sync : Result Errno (Unit {0}) → ℕ → InodeCache → Result FsError (Unit {0}) × InodeCache
  finish_sync (ok u) p c = (ok u, at c p (λ i. record i { dirty = false }))
  finish_sync (err e) p c = (err fs_eio, c)

  write_back : Result Errno (List ℕ) → ℕ → InodeCache → Result FsError (Unit {0}) × InodeCache
  unfolding finish_sync
  write_back (err e) p c = (err fs_eio, c)
  write_back (ok buf) p c =
      let i = c.inodes p in
      let (r, dev) =
        write (inode_block c.sb i.inum) (splice buf (inode_offset i.inum) (inode_bytes i.disk))
          c.dev in
      finish_sync r p (record c { dev = dev })

  pub inode_sync : ℕ → InodeCache → Result FsError (Unit {0}) × InodeCache
  unfolding write_back
  inode_sync p c =
      let i = c.inodes p in
      let (r, dev) = read (inode_block c.sb i.inum) c.dev in
      if not i.valid || not i.dirty then (ok tt, c) else write_back r p (record c { dev = dev })

  -- The loop of `inode_sync_all`; failures are ignored.
  pub sync_from : ℕ → ℕ → InodeCache → InodeCache
  sync_from zero i c = c
  sync_from (suc rounds) i c = sync_from rounds (i + 1) (inode_sync i c).1

  pub inode_sync_all : InodeCache → InodeCache
  unfolding sync_from
  inode_sync_all c = sync_from c.max_inodes 0 c

  pub sync_inode_bitmap : InodeCache → Result FsError (Unit {0}) × InodeCache
  unfolding lift
  sync_inode_bitmap c =
      let (r, dev) = store_bitmap io c.sb.inode_bitmap_start c.bitmap_blocks c.inode_bitmap c.dev in
      (lift r, record c { dev = dev })

  -- Before the memory is freed.
  pub inode_cache_destroy : InodeCache → InodeCache
  inode_cache_destroy c = (sync_inode_bitmap (inode_sync_all c)).1

  pub inode_put : ℕ → InodeCache → InodeCache
  inode_put p c = at c p (λ i. record i { ref_count = sub_u32 i.ref_count 1 })

  -- The inode's block was read for `inode_get`: it is filled in, or given back.
  fill : Result Errno (List ℕ) → ℕ → ℕ → InodeCache → Result Stop ℕ × InodeCache
  unfolding inode_put
  fill (err e) p inum c = (err null, inode_put p c)
  fill (ok buf) p inum c = (
    ok p,
    at c p
        (λ i. record i { disk = inode_of (copy buf (inode_offset inum) inode_size); valid = true }),
  )

  load_inode : ℕ → ℕ → InodeCache → Result Stop ℕ × InodeCache
  unfolding fill
  load_inode p inum c =
      let (r, dev) = read (inode_block c.sb inum) c.dev in fill r p inum (record c { dev = dev })

  get_hit : ℕ → ℕ → InodeCache → Result Stop ℕ × InodeCache
  unfolding load_inode lru_remove lru_push_front
  get_hit p inum c =
      let c' =
        lru_push_front (lru_remove (at c p (λ i. record i { ref_count = u32 (i.ref_count + 1) })) p)
          p in
      if (c.inodes p).valid then (ok p, c') else load_inode p inum c'

  -- From the tail of the LRU list, the first inode that is not in use.
  pub first_unused : InodeCache → List ℕ → Option ℕ
  unfolding in_use
  first_unused c [] = none
  first_unused c (p ∷ rest) =
      let next = first_unused c rest in if in_use (c.inodes p) then next else some p

  -- The inode `p` is written back, taken out and put in again for `inum`.
  pub recycle : ℕ → ℕ → InodeCache → InodeCache
  unfolding lru_remove lru_push_front
  recycle p inum c =
      let i = c.inodes p in
      let c1 = if i.dirty && i.valid then (inode_sync p c).1 else c in
      let c2 = if (c1.inodes p).valid then hash_remove c1 p else c1 in
      let c3 =
        at (lru_remove c2 p) p
          (λ j. record j { inum = inum; ref_count = 1; valid = false; dirty = false }) in
      lru_push_front (hash_insert c3 p) p

  get_miss : Option ℕ → ℕ → InodeCache → Result Stop ℕ × InodeCache
  unfolding load_inode
  get_miss none inum c = (err null, c)
  get_miss (some p) inum c =
      let out = load_inode p inum (recycle p inum c) in if removes p c then out else (err hang, c)

  get_found : Option (Option ℕ) → ℕ → InodeCache → Result Stop ℕ × InodeCache
  unfolding get_hit get_miss
  get_found none inum c = (err hang, c)
  get_found (some (some p)) inum c = get_hit p inum c
  get_found (some none) inum c = get_miss (first_unused c (reverse c.lru)) inum c

  pub inode_get : ℕ → InodeCache → Result Stop ℕ × InodeCache
  unfolding get_found
  inode_get inum c = get_found (hash_lookup c inum) inum c
