-- ===== src/Inode.antt =====
-- src/inode.c and include/modernfs/inode.h: from offsets in a file to blocks, over the allocator and
-- any device that fills `BlockIo`. The state is the inode that the function is given, with the
-- allocator and the device of its cache. A function that fails keeps what it changed before.
pub mod Bind
pub mod Kept
pub mod Lookup
pub mod Bytes
pub mod Read
pub mod Steady
pub mod Write
pub mod Whole
pub mod Present
pub mod Map
mod Tests
use nano_fs.Prelude.{
  ℕ, zero, suc, ◌+◌, ◌-◌, ◌*◌, ◌/◌, ◌%◌, ◌^◌, Bool, true, false, not, Option, none, some, List, [],
  ◌∷◌, ◌++◌, Result, ok, err, FsError, fs_error, fs_enospc, fs_einval, fs_eio, Errno, ltb, leb,
  ◌==◌, if◌then◌else◌, u32, u64, get_or, set, take, drop, replicate,
}
use nano_fs.Types.{DiskInode, block_size, inode_direct_blocks}
use nano_fs.Os.{Block}
use nano_fs.BlockIo.{BlockIo}
use nano_fs.BlockAlloc.{BlockAllocator, block_alloc, block_free}
use nano_fs.Struct.{copy}
use nano_fs.Words.{word_at, set_word}

-- `inode_t_mem` without its lists and lock.
pub record Inode : Type 0 where
  pub inum : ℕ
  pub disk : DiskInode
  pub ref_count : ℕ
  pub valid : Bool
  pub dirty : Bool

-- INDIRECT_BLOCKS_PER_BLOCK
abbrev pub per_block : ℕ
per_block = block_size / 4

unfoldable pub zeros : Block
zeros = replicate block_size 0

pub block_count : ℕ → ℕ
block_count size = u32 (u64 (size + 4095) / block_size)

-- `to_read`: to the end of the block, or what is left.
pub to_read : ℕ → ℕ → ℕ
to_read cur_offset left =
    let n = block_size - cur_offset % block_size in if ltb left n then left else n

module _ (io : BlockIo) where
  pub record Fs : Type 0 where
    pub balloc : BlockAllocator
    pub dev : io.Dev
    pub inode : Inode

  abbrev pub M : Type 0 → Type 0
  M A = Fs → Result FsError A × Fs

  -- The change of an inode's disk part, which makes it dirty.
  abbrev pub changed : Fs → (DiskInode → DiskInode) → Fs
  changed s f = record s { inode = record s.inode { disk = f s.inode.disk; dirty = true } }

  continue : {A B : Type 0} → Result FsError A → (A → M B) → M B
  continue (ok a) f s = f a s
  continue (err e) f s = (err e, s)

  infixl 5 ◌>>=◌ ◌>>◌
  pub ◌>>=◌ : {A B : Type 0} → M A → (A → M B) → M B
  unfolding continue
  ◌>>=◌ m f s = let (r, s') = m s in continue r f s'

  pub ◌>>◌ : {B : Type 0} → M (Unit {0}) → M B → M B
  unfolding ◌>>=◌
  m >> k = m >>= λ _. k

  pub pure : {A : Type 0} → A → M A
  pure a s = (ok a, s)

  or_eio : {A : Type 0} → Result Errno A → Result FsError A
  or_eio (ok a) = ok a
  or_eio (err e) = err fs_eio

  -- `blkdev_read` and `blkdev_write`; any failure is MODERNFS_EIO.
  pub load : ℕ → M Block
  unfolding or_eio
  load block s = let (r, dev) = io.read block s.dev in (or_eio r, record s { dev = dev })

  store : ℕ → Block → M (Unit {0})
  unfolding or_eio
  store block content s =
      let (r, dev) = io.write block content s.dev in (or_eio r, record s { dev = dev })

  -- `block_alloc`; 0 is MODERNFS_ENOSPC.
  alloc_block : M ℕ
  alloc_block s =
      let (b, balloc) = block_alloc s.balloc in
      (if b == 0 then err fs_enospc else ok b, record s { balloc = balloc })

  modify : (DiskInode → DiskInode) → M (Unit {0})
  modify f s = (ok tt, changed s f)

  -- A new block for the entry `idx` of the table that is read as `content`, with `disk.blocks++`.
  fill_slot : ℕ → ℕ → Block → M ℕ
  unfolding ◌>>=◌ ◌>>◌ pure load store alloc_block modify
  fill_slot table idx content = do
    b ← alloc_block
    store table (set_word content idx b)
    modify (λ d. record d { blocks = u64 (d.blocks + 1) })
    pure b

  slot : ℕ → ℕ → Bool → Block → M ℕ
  unfolding fill_slot pure
  slot table idx alloc_if_missing content =
      if word_at content idx == 0
      then (if alloc_if_missing then fill_slot table idx content else pure 0)
      else pure (word_at content idx)

  -- The entry `idx` of a table of data blocks.
  map_slot : ℕ → ℕ → Bool → M ℕ
  unfolding slot ◌>>=◌ load
  map_slot table idx alloc_if_missing = do
    content ← load table
    slot table idx alloc_if_missing content

  new_direct : ℕ → M ℕ
  unfolding ◌>>=◌ ◌>>◌ pure alloc_block modify
  new_direct idx = do
    b ← alloc_block
    modify (λ d. record d { direct = set d.direct idx b; blocks = u64 (d.blocks + 1) })
    pure b

  bmap_direct : ℕ → Bool → M ℕ
  unfolding new_direct pure
  bmap_direct idx alloc_if_missing s =
      let b = get_or s.inode.disk.direct idx 0 in
      if b == 0 then (if alloc_if_missing then new_direct idx s else pure 0 s) else pure b s

  -- A new, zeroed indirect block, and a new, zeroed double indirect block.
  new_indirect : M ℕ
  unfolding ◌>>=◌ ◌>>◌ pure store alloc_block modify zeros
  new_indirect = do
    b ← alloc_block
    modify (λ d. record d { indirect = b; blocks = u64 (d.blocks + 1) })
    store b zeros
    pure b

  new_double : M ℕ
  unfolding ◌>>=◌ ◌>>◌ pure store alloc_block modify zeros
  new_double = do
    b ← alloc_block
    modify (λ d. record d { double_indirect = b; blocks = u64 (d.blocks + 1) })
    store b zeros
    pure b

  bmap_indirect : ℕ → Bool → M ℕ
  unfolding map_slot new_indirect ◌>>=◌ pure
  bmap_indirect idx alloc_if_missing s =
      let b = s.inode.disk.indirect in
      if b == 0
      then (if alloc_if_missing
          then (do b' ← new_indirect; map_slot b' idx alloc_if_missing) s
          else pure 0 s)
      else map_slot b idx alloc_if_missing s

  -- A new, zeroed table of data blocks, for the entry `idx` of the double indirect block.
  fill_table : ℕ → ℕ → Block → M ℕ
  unfolding ◌>>=◌ ◌>>◌ pure store alloc_block modify zeros
  fill_table table idx content = do
    b ← alloc_block
    store table (set_word content idx b)
    modify (λ d. record d { blocks = u64 (d.blocks + 1) })
    store b zeros
    pure b

  table_slot : ℕ → ℕ → Bool → Block → M ℕ
  unfolding fill_table pure
  table_slot table idx alloc_if_missing content =
      if word_at content idx == 0
      then (if alloc_if_missing then fill_table table idx content else pure 0)
      else pure (word_at content idx)

  -- The data block behind the first-level entry `b`, where there is one.
  second_level : ℕ → Bool → ℕ → M ℕ
  unfolding map_slot pure
  second_level idx alloc_if_missing b =
      if b == 0 then pure 0 else map_slot b (idx % per_block) alloc_if_missing

  map_table : ℕ → ℕ → Bool → M ℕ
  unfolding table_slot second_level ◌>>=◌ load
  map_table table idx alloc_if_missing = do
    content ← load table
    b ← table_slot table (idx / per_block) alloc_if_missing content
    second_level idx alloc_if_missing b

  bmap_double : ℕ → Bool → M ℕ
  unfolding map_table new_double ◌>>=◌ pure
  bmap_double idx alloc_if_missing s =
      let b = s.inode.disk.double_indirect in
      if b == 0
      then (if alloc_if_missing
          then (do b' ← new_double; map_table b' idx alloc_if_missing) s
          else pure 0 s)
      else map_table b idx alloc_if_missing s

  pub too_far : M ℕ
  too_far s = (err fs_einval, s)

  bmap_index : ℕ → Bool → M ℕ
  bmap_index idx alloc_if_missing =
      if ltb idx inode_direct_blocks
      then bmap_direct idx alloc_if_missing
      else if ltb (idx - inode_direct_blocks) per_block
      then bmap_indirect (idx - inode_direct_blocks) alloc_if_missing
      else if ltb (idx - inode_direct_blocks - per_block) (per_block * per_block)
      then bmap_double (idx - inode_direct_blocks - per_block) alloc_if_missing
      else too_far

  pub inode_bmap : ℕ → Bool → M ℕ
  inode_bmap offset alloc_if_missing = bmap_index (u32 (offset / block_size)) alloc_if_missing

  -- `if (ret == MODERNFS_SUCCESS && block != 0) { block_free(...); disk.blocks--; }`
  release : Result FsError ℕ → Fs → Fs
  release (err e) s = s
  release (ok b) s = if b == 0 then s else record s {
    balloc = (block_free s.balloc b).1;
    inode = record s.inode {
      disk = record s.inode.disk { blocks = u64 (s.inode.disk.blocks + 2 ^ 64 - 1) };
    };
  }

  -- `for (i = ...; i < old_blocks; i++)`; `i * BLOCK_SIZE` is a product in `uint32_t`.
  pub release_blocks : ℕ → ℕ → Fs → Fs
  unfolding release
  release_blocks zero i s = s
  release_blocks (suc rounds) i s =
      let (r, s') = inode_bmap (u32 (i * block_size)) false s in
      release_blocks rounds (i + 1) (release r s')

  pub inode_truncate : ℕ → M (Unit {0})
  inode_truncate new_size s =
      let size = s.inode.disk.size in
      let first = block_count new_size in
      let s' = release_blocks (block_count size - first) first s in
      if leb size new_size
      then (ok tt, changed s (λ d. record d { size = new_size }))
      else (ok tt, changed s' (λ d. record d { size = new_size }))

  -- One round of the loop of `inode_read`: `n` bytes from the block, or zeros for a hole.
  pub read_piece : ℕ → ℕ → ℕ → M (List ℕ)
  unfolding ◌>>=◌ pure load copy
  read_piece b from n =
      if b == 0 then pure (replicate n 0) else (do content ← load b; pure (copy content from n))

  -- The loop, from `cur_offset`, with `left` bytes to read. Each round reads at least one.
  pub read_loop : ℕ → ℕ → ℕ → M (List ℕ)
  unfolding ◌>>=◌ pure read_piece
  read_loop zero cur_offset left = pure []
  read_loop (suc fuel) cur_offset left =
      let n = to_read cur_offset left in
      let round = (do
        b ← inode_bmap cur_offset false
        piece ← read_piece b (cur_offset % block_size) n
        rest ← read_loop fuel (cur_offset + n) (left - n)
        pure (piece ++ rest)) in
      if left == 0 then pure [] else round

  pub inode_read : ℕ → ℕ → ℕ → M (List ℕ)
  unfolding ◌>>=◌ ◌>>◌ pure modify
  inode_read now offset size s =
      let length = s.inode.disk.size in
      let n = if ltb length (u64 (offset + size)) then length - offset else size in
      if leb length offset
      then pure [] s
      else (do l ← read_loop n offset n; modify (λ d. record d { atime = now }); pure l) s
