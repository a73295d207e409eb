-- ===== src/BlockDev/Invalid.antt =====
-- A write to a cached block that was invalidated is lost: `blkdev_write` updates the buffer without
-- making it valid, and the next read takes the block from the file.
use nano_fs.Prelude.{ℕ, ◌<◌, ◌≡◌, refl, false, some, arith, ◌∙◌, ok}
use nano_fs.Os.{Os, Laws, Block}
use nano_fs.BufferCache.{
  BufferCache, hash_lookup, at, hit, buffer_head_put, buffer_head_mark_dirty,
  buffer_cache_invalidate,
}
use nano_fs.BufferCache.Inv.{In, Same-lookup, hash_lookup-at}
use nano_fs.BufferCache.Touch.{Same-hit}
use nano_fs.BufferCache.Fill.{hash_lookup-filled}
use nano_fs.BufferCache.Ends.{Same-filled}
use nano_fs.BufferCache.Insert.{lookup-some}
use nano_fs.BlockDev.{
  BlockDevice, blkdev_read, blkdev_write, invalidate_block, write_hit, write_found, read_found,
  read_hit, reload,
}
use nano_fs.BlockDev.Flat.{IsGood, in_range}

module _ (os : Os) (laws : Laws os) (b : ℕ) (d : Block) where
  write_at :
      (dev : BlockDevice os) (p : ℕ)
      → hash_lookup dev.cache b ≡ some p
      → b < dev.total_blocks
      → blkdev_write os b d dev ≡ (ok tt, write_hit os p d (record dev { cache = hit dev.cache p }))
  unfolding blkdev_write write_found
  write_at dev p e lt = rw (in_range os laws b dev.total_blocks lt, lookup-some dev.cache b p e)

  reload_at :
      (dev : BlockDevice os) (p : ℕ) (x : Block)
      → hash_lookup dev.cache b ≡ some p
      → b < dev.total_blocks
      → ((hit dev.cache p).heads p).valid ≡ false
      → (os.pread b dev.w).0 ≡ some x
      → (blkdev_read os b dev).0 ≡ ok x
  unfolding blkdev_read read_found read_hit reload
  reload_at dev p x e lt v got =
      rw (in_range os laws b dev.total_blocks lt, lookup-some dev.cache b p e, v, got, reload)

  -- The invalidated buffer `p` that was written: still found, and still not valid.
  module _ (c : BufferCache) (p : ℕ) (e : hash_lookup c b ≡ some p) (m : In p c.lru)
      (v : (c.heads p).valid ≡ false) where
    after_write : BufferCache
    after_write =
        buffer_head_put
          (buffer_head_mark_dirty (at (hit c p) p (λ bh. record bh { content = d })) p) p

    after_write-lookup : hash_lookup after_write b ≡ some p
    unfolding after_write
    after_write-lookup =
        Same-lookup (Same-filled (hit c p) p d) b
        ∙ hash_lookup-filled (hit c p) p b d
        ∙ Same-lookup (Same-hit c p m) b
        ∙ e

    after_write-In : In p after_write.lru
    unfolding after_write
    after_write-In = (Same-filled (hit c p) p d).members' p ((Same-hit c p m).members' p m)

    after_write-invalid : ((hit after_write p).heads p).valid ≡ false
    after_write-invalid = (Same-hit after_write p after_write-In).valid p ∙ still
      where
        still : (after_write.heads p).valid ≡ false
        still =
            unfold after_write in
            (Same-filled (hit c p) p d).valid p ∙ ground (arith, (Same-hit c p m).valid p)

  -- The cache after the invalidation.
  gone : BufferCache → ℕ → BufferCache
  gone c p = at c p (λ bh. record bh { valid = false; dirty = false })

  gone-lookup : (c : BufferCache) (p : ℕ) → hash_lookup (gone c p) b ≡ hash_lookup c b
  unfolding gone
  gone-lookup c p = hash_lookup-at c p (record (c.heads p) { valid = false; dirty = false }) b refl

  invalidate-gone :
      (dev : BlockDevice os) (p : ℕ)
      → hash_lookup dev.cache b ≡ some p
      → invalidate_block os b dev ≡ record dev { cache = gone dev.cache p }
  unfolding invalidate_block buffer_cache_invalidate gone
  invalidate-gone dev p e = rw (e, buffer_cache_invalidate)

  -- After `c_buffer_cache_invalidate_by_fd` of a cached block, a write of the block succeeds, and the
  -- next read of it returns what the file holds, whatever was written.
  pub invalidate-write-read :
      (dev : BlockDevice os) (p : ℕ) (x : Block)
      → IsGood os laws dev
      → b < dev.total_blocks
      → hash_lookup dev.cache b ≡ some p
      → (os.pread b dev.w).0 ≡ some x
      → let out = blkdev_write os b d (invalidate_block os b dev) in
        (out.0 ≡ ok tt) × ((blkdev_read os b out.1).0 ≡ ok x)
  invalidate-write-read dev p x good lt e got =
      rw (invalidate-gone dev p e, write_at (record dev { cache = c }) p f lt)
        (
          refl,
          unfold write_hit after_write in
              reload_at _ p x (unfold after_write in after_write-lookup c p f m v) lt
                (unfold after_write in after_write-invalid c p f m v) got,
        )
    where
      c : BufferCache
      c = gone dev.cache p

      f : hash_lookup c b ≡ some p
      f = gone-lookup dev.cache p ∙ e

      m : In p c.lru
      m = unfold gone in good.listed b p e

      v : (c.heads p).valid ≡ false
      v = unfold gone in ground arith
