-- ===== src/BlockDev/Flat.antt =====
-- The device behaves as an array of blocks, through the cache and in spite of failures, as long as
-- no cached block is invalidated.
use nano_fs.Prelude.{
  ℕ, ◌<◌, ◌≡◌, refl, false, none, some, arith, sym, ◌∙◌, inl, inr, Option-cases, leb, Result, ok,
  err, eio, Errno,
}
use nano_fs.Os.{Os, Laws, Block}
use nano_fs.BufferCache.{BufferCache, hash_lookup, hit}
use nano_fs.BufferCache.Inv.{In, IsCoherent, view, Same, Same-trans, Same-lookup}
use nano_fs.BufferCache.Touch.{Same-hit, Same-miss, Same-put}
use nano_fs.BufferCache.Insert.{
  SameView, SameView-trans, SameView-Same, SameView-file, insert-Inserts, insert-SameView,
  lookup-some, lookup-none,
}
use nano_fs.BlockDev.{BlockDevice, blkdev_read, read_hit, read_miss, read_found}

module _ (os : Os) (laws : Laws os) where
  abbrev pub IsGood : BlockDevice os → Type 0
  IsGood dev = IsCoherent os dev.cache dev.w

  -- The block that a reader sees.
  abbrev pub contents : BlockDevice os → ℕ → Block
  contents dev = view os dev.cache dev.w

  -- A read leaves the device good, with the same contents, and returns the block that it holds.
  pub record Reads (dev : BlockDevice os) (b : ℕ) (out : Result Errno Block × BlockDevice os)
      : Type 0 where
    pub same : SameView os laws dev.cache dev.w out.1.cache out.1.w
    pub result : (d : Block) → out.0 ≡ ok d → d ≡ contents dev b
    pub size : out.1.total_blocks ≡ dev.total_blocks
    pub only_eio : (e : Errno) → out.0 ≡ err e → e ≡ eio

  -- The view of a block that is cached, and of one that is not.
  view-some :
      (c : BufferCache) (w : os.W) (b p : ℕ)
      → hash_lookup c b ≡ some p
      → view os c w b ≡ (c.heads p).content
  unfolding view
  view-some c w b p e = rw (e, view)

  pub view-none :
      (c : BufferCache) (w : os.W) (b : ℕ) → hash_lookup c b ≡ none → view os c w b ≡ os.file w b
  unfolding view
  view-none c w b e = rw (e, view)

  pub in_range : (b n : ℕ) → b < n → leb n b ≡ false
  in_range b n h = ground arith

  module _ (dev : BlockDevice os) (b : ℕ) (good : IsGood dev) where
    Reads-hit :
        (p : ℕ)
        → hash_lookup dev.cache b ≡ some p
        → Reads dev b (read_hit os b p (record dev { cache = hit dev.cache p }))
    unfolding read_hit
    Reads-hit p e =
        rw ((Same-hit dev.cache p m).valid p ∙ good.valid p m, read_hit)
          (record {
            same =
                SameView-Same os laws good
                  (Same-trans (Same-hit dev.cache p m) (Same-put (hit dev.cache p) p));
            result = λ d h.
                ground (arith, (Same-hit dev.cache p m).content p, view-some dev.cache dev.w b p e);
            size = refl;
            only_eio = λ x h. cc;
          })
      where
        m : In p dev.cache.lru
        m = good.listed b p e

    module _ (c : BufferCache) (s : Same dev.cache c) (e : hash_lookup dev.cache b ≡ none) where
      w' : os.W
      w' = (os.pread b dev.w).1

      kept : SameView os laws dev.cache dev.w c w'
      unfolding w'
      kept = SameView-trans os laws (SameView-Same os laws good s) (
          SameView-file os laws (SameView-Same os laws good s).coherent
            (λ q. laws.pread_file b q dev.w))

      uncached : hash_lookup c b ≡ none
      uncached = Same-lookup s b ∙ e

      Reads-miss : Reads dev b (read_miss os b (record dev { cache = c }))
      unfolding read_miss
      Reads-miss = elim (Option-cases (os.pread b dev.w).0) [
        | inl failed ↦
            rw (failed, read_miss)
              (unfold w' in
                record {
                  same = kept;
                  result = λ d h. cc;
                  size = refl;
                  only_eio = λ x h. ground arith;
                })
        | inr (d, got) ↦
            rw (got, read_miss)
              (unfold w' in
                record {
                  same = SameView-trans os laws kept (
                      insert-SameView os laws kept.coherent uncached
                        (laws.pread_file b b dev.w ∙ sym (laws.pread_data b dev.w d got))
                        (insert-Inserts os laws c b d w' uncached));
                  result = λ x h.
                      ground (arith, laws.pread_data b dev.w d got, view-none dev.cache dev.w b e);
                  size = refl;
                  only_eio = λ x h. cc;
                })
      ]

    -- From a good device a read of a block in range leaves a good device of the same size, with the
    -- same contents, and what it returns is the block that the device holds; it fails with EIO only.
    pub blkdev_read-Reads : b < dev.total_blocks → Reads dev b (blkdev_read os b dev)
    unfolding blkdev_read read_found
    blkdev_read-Reads lt = elim (Option-cases (hash_lookup dev.cache b)) [
      | inl e ↦
          rw (in_range b dev.total_blocks lt, lookup-none dev.cache b e)
            (Reads-miss _ (Same-miss dev.cache _) e)
      | inr (p, e) ↦
          rw (in_range b dev.total_blocks lt, lookup-some dev.cache b p e) (Reads-hit p e)
    ]
