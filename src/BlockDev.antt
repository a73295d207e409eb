-- ===== src/BlockDev.antt =====
-- src/block_dev.c and include/modernfs/block_dev.h: the device, over the cache and the file.
pub mod Flat
pub mod Write
pub mod Invalid
pub mod Io
pub mod Reload
mod Tests
use nano_fs.Prelude.{
  ℕ, ◌/◌, ◌+◌, Bool, true, false, not, Option, none, some, List, ◌++◌, Result, ok, err, Errno,
  einval, eio, leb, ◌==◌, if◌then◌else◌,
}
use nano_fs.Os.{Os, Block}
use nano_fs.Types.{Superblock, block_size, superblock_block, superblock_magic}
use nano_fs.Types.Bytes.{superblock_of, superblock_bytes}
use nano_fs.BufferCache.{
  BufferCache, BufferHead, at, buffer_cache_lookup, buffer_cache_insert, buffer_cache_sync,
  buffer_head_put, buffer_head_mark_dirty, buffer_cache_invalidate, buffer_cache_init,
}

module _ (os : Os) where
  -- `block_device_t`, and the system that its file descriptor leads to.
  pub record BlockDevice : Type 0 where
    pub total_blocks : ℕ
    pub cache : BufferCache
    pub superblock : Option Superblock
    pub w : os.W

  -- `blkdev_open`, once the file is open: `total_size` is `st_size`, and the cache has 1024 buffers.
  pub blkdev_open : ℕ → os.W → BlockDevice
  unfolding buffer_cache_init
  blkdev_open total_size w = record {
    total_blocks = total_size / block_size;
    cache = buffer_cache_init 1024;
    superblock = none;
    w = w;
  }

  abbrev pub Action : Type 0 → Type 0
  Action A = BlockDevice → Result Errno A × BlockDevice

  -- A hit on a buffer that is not valid: read the file, fill the buffer, put it.
  reload : ℕ → ℕ → Action Block
  reload block p dev =
      let (got, w') = os.pread block dev.w in
      elim got [
        | some content ↦ (
          ok content,
          record dev {
            cache =
                buffer_head_put
                  (at dev.cache p (λ bh. record bh { content = content; valid = true })) p;
            w = w';
          },
        )
        | none ↦ (err eio, record dev { cache = buffer_head_put dev.cache p; w = w' })
      ]

  read_hit : ℕ → ℕ → Action Block
  unfolding reload
  read_hit block p dev =
      if (dev.cache.heads p).valid
      then (ok (dev.cache.heads p).content, record dev { cache = buffer_head_put dev.cache p })
      else reload block p dev

  -- A miss: read the file, and insert the block if the cache takes it.
  read_miss : ℕ → Action Block
  read_miss block dev =
      let (got, w') = os.pread block dev.w in
      elim got [
        | some content ↦
            let (found, cache, w'') = buffer_cache_insert os dev.cache block content w' in
            (ok content, record dev { cache = cache; w = w'' })
        | none ↦ (err eio, record dev { w = w' })
      ]

  read_found : Option ℕ → ℕ → Action Block
  unfolding read_hit read_miss
  read_found (some p) block dev = read_hit block p dev
  read_found none block dev = read_miss block dev

  pub blkdev_read : ℕ → Action Block
  unfolding read_found
  blkdev_read block dev =
      let (found, cache) = buffer_cache_lookup dev.cache block in
      if leb dev.total_blocks block
      then (err einval, dev)
      else read_found found block (record dev { cache = cache })

  -- A hit: the buffer gets the data and is marked dirty. `valid` stays as it is.
  pub write_hit : ℕ → Block → BlockDevice → BlockDevice
  write_hit p content dev = record dev {
    cache =
        buffer_head_put
          (buffer_head_mark_dirty (at dev.cache p (λ bh. record bh { content = content })) p) p;
  }

  -- After an insertion: the buffer is marked dirty and put; without one the file is written.
  finish_write : Option ℕ → ℕ → Block → Action (Unit {0})
  finish_write (some p) block content dev =
      (ok tt, record dev { cache = buffer_head_put (buffer_head_mark_dirty dev.cache p) p })
  finish_write none block content dev =
      let (written, w') = os.pwrite block content dev.w in
      (if written then ok tt else err eio, record dev { w = w' })

  write_miss : ℕ → Block → Action (Unit {0})
  unfolding finish_write
  write_miss block content dev =
      let (found, cache, w') = buffer_cache_insert os dev.cache block content dev.w in
      finish_write found block content (record dev { cache = cache; w = w' })

  write_found : Option ℕ → ℕ → Block → Action (Unit {0})
  unfolding write_hit write_miss
  write_found (some p) block content dev = (ok tt, write_hit p content dev)
  write_found none block content dev = write_miss block content dev

  pub blkdev_write : ℕ → Block → Action (Unit {0})
  unfolding write_found
  blkdev_write block content dev =
      let (found, cache) = buffer_cache_lookup dev.cache block in
      if leb dev.total_blocks block
      then (err einval, dev)
      else write_found found block content (record dev { cache = cache })

  -- `fsync`, if the buffers were written.
  flush : Result Errno (Unit {0}) → Action (Unit {0})
  flush (err e) dev = (err e, dev)
  flush (ok u) dev =
      let (flushed, w') = os.fsync dev.w in
      (if flushed then ok tt else err eio, record dev { w = w' })

  pub blkdev_sync : Action (Unit {0})
  unfolding flush
  blkdev_sync dev =
      let (r, cache, w') = buffer_cache_sync os dev.cache dev.w in
      flush r (record dev { cache = cache; w = w' })

  -- `c_buffer_cache_invalidate_by_fd`, with `g_blkdev` set to the device.
  pub invalidate_block : ℕ → BlockDevice → BlockDevice
  invalidate_block block dev = record dev { cache = buffer_cache_invalidate dev.cache block }

  -- What `blkdev_load_superblock` does with the block that was read.
  loaded : Result Errno Block → Action (Unit {0})
  loaded (err e) dev = (err e, record dev { superblock = none })
  loaded (ok content) dev =
      let sb = superblock_of content in
      if sb.magic == superblock_magic
      then (ok tt, record dev { superblock = some sb })
      else (err einval, record dev { superblock = none })

  pub blkdev_load_superblock : Action (Unit {0})
  unfolding loaded
  blkdev_load_superblock dev = let (r, dev') = blkdev_read superblock_block dev in loaded r dev'

  -- `blkdev_sync`, if the write before it succeeded.
  then_sync : Result Errno (Unit {0}) → Action (Unit {0})
  then_sync (err e) dev = (err e, dev)
  then_sync (ok u) dev = blkdev_sync dev

  -- The write takes a block from the address of the superblock, which has 8 bytes less: `beyond` is
  -- what lies behind it. `time(NULL)` is `now`.
  write_loaded : Option Superblock → ℕ → List ℕ → Action (Unit {0})
  unfolding then_sync
  write_loaded none now beyond dev = (err einval, dev)
  write_loaded (some sb) now beyond dev =
      let sb' = record sb { write_time = now } in
      let (r, dev') =
        blkdev_write superblock_block (superblock_bytes sb' ++ beyond)
          (record dev { superblock = some sb' }) in
      then_sync r dev'

  pub blkdev_write_superblock : ℕ → List ℕ → Action (Unit {0})
  unfolding write_loaded
  blkdev_write_superblock now beyond dev = write_loaded dev.superblock now beyond dev
