-- ===== src/BlockDev/Write.antt =====
-- `blkdev_write` and `blkdev_sync` against the array of blocks.
use nano_fs.Prelude.{
  ℕ, ◌<◌, ◌≡◌, ◌≢◌, refl, Option, none, some, arith, sym, ◌∙◌, update, inl, inr, Option-cases,
  Result, ok, err, eio, Errno,
}
use nano_fs.Os.{Os, Laws, Block}
use nano_fs.BufferCache.{BufferCache, hash_lookup, buffer_cache_sync, hit}
use nano_fs.BufferCache.Inv.{In, IsCoherent, view, Same, Same-lookup, Same-view, Same-IsCoherent}
use nano_fs.BufferCache.Touch.{Same-hit, Same-miss}
use nano_fs.BufferCache.Fill.{filled-IsCoherent, view-filled}
use nano_fs.BufferCache.Ends.{Same-filled}
use nano_fs.BufferCache.Insert.{
  SameView, SameView-trans, SameView-Same, SameView-file, Inserts, skipped, made, insert-Inserts,
  add_dirty, lookup-some, lookup-none,
}
use nano_fs.BufferCache.Sync.{buffer_cache_sync-Kept, file-buffer_cache_sync}
use nano_fs.BlockDev.{
  BlockDevice, blkdev_write, blkdev_sync, write_hit, write_miss, write_found, finish_write, flush,
}
use nano_fs.BlockDev.Flat.{IsGood, contents, view-none, in_range}

module _ (os : Os) (laws : Laws os) where
  -- A write leaves the device good, and every other block as it was. If it succeeds the block is
  -- what was written.
  pub record Writes (dev : BlockDevice os) (b : ℕ) (d : Block)
      (out : Result Errno (Unit {0}) × BlockDevice os) : Type 0 where
    pub good : IsGood os laws out.1
    pub others : (q : ℕ) → q ≢ b → contents os laws out.1 q ≡ contents os laws dev q
    pub written : out.0 ≡ ok tt → contents os laws out.1 b ≡ d
    pub size : out.1.total_blocks ≡ dev.total_blocks
    pub only_eio : (e : Errno) → out.0 ≡ err e → e ≡ eio

  -- A change of the file at a block that is not cached.
  module _ (c : BufferCache) (w w' : os.W) (b : ℕ) (i : IsCoherent os c w)
      (uncached : hash_lookup c b ≡ none)
      (same : (q : ℕ) → q ≢ b → os.file w' q ≡ os.file w q) where
    bypass-IsCoherent : IsCoherent os c w'
    bypass-IsCoherent = record {
      listed = i.listed;
      found = i.found;
      valid = i.valid;
      clean = λ r m e. same _ (cached r m) ∙ i.clean r m e;
      fresh = i.fresh;
      chains = i.chains;
    }
      where
        cached : (r : ℕ) → In r c.lru → (c.heads r).block_num ≢ b
        cached r m e = ground (arith, i.found r m)

    view-bypass : (q : ℕ) → q ≢ b → view os c w' q ≡ view os c w q
    view-bypass q ne = elim (Option-cases (hash_lookup c q)) [
      | inl e ↦ view-none os laws c w' q e ∙ same q ne ∙ sym (view-none os laws c w q e)
      | inr (p, e) ↦ unfold view in ground arith
    ]

  module _ (dev : BlockDevice os) (b : ℕ) (d : Block) (good : IsGood os laws dev) where
    -- Any way of ending with the view changed at `b` alone.
    updated :
        (dev' : BlockDevice os)
        → IsCoherent os dev'.cache dev'.w
        → dev'.total_blocks ≡ dev.total_blocks
        → ((q : ℕ) → view os dev'.cache dev'.w q ≡ update (contents os laws dev) b d q)
        → Writes dev b d (ok tt, dev')
    updated dev' i e v = record {
      good = i;
      others = λ q ne. ground (arith, v q);
      written = λ h. ground (arith, v b);
      size = e;
      only_eio = λ x h. cc;
    }

    Writes-hit :
        (p : ℕ)
        → hash_lookup dev.cache b ≡ some p
        → Writes dev b d (ok tt, write_hit os p d (record dev { cache = hit dev.cache p }))
    unfolding write_hit
    Writes-hit p e =
        updated _ (Same-IsCoherent os (Same-filled c p d) (filled-IsCoherent os c dev.w i b p d h))
          refl
          (λ q.
            Same-view os dev.w (Same-filled c p d) q
            ∙ view-filled os c dev.w i b p d h q
            ∙ ground (arith, Same-view os dev.w s q))
      where
        c : BufferCache
        c = hit dev.cache p

        s : Same dev.cache c
        s = Same-hit dev.cache p (good.listed b p e)

        i : IsCoherent os c dev.w
        i = Same-IsCoherent os s good

        h : hash_lookup c b ≡ some p
        h = Same-lookup s b ∙ e

    module _ (c : BufferCache) (s : Same dev.cache c) (e : hash_lookup dev.cache b ≡ none) where
      unchanged :
          (w' : os.W)
          → ((q : ℕ) → os.file w' q ≡ os.file dev.w q)
          → SameView os laws dev.cache dev.w c w'
      unchanged w' k =
          SameView-trans os laws (SameView-Same os laws good s)
            (SameView-file os laws (SameView-Same os laws good s).coherent k)

      finished :
          {out : Option ℕ × BufferCache × os.W}
          → Inserts os laws c b d dev.w out
          → Writes dev b d (finish_write os out.0 b d (record dev { cache = out.1; w = out.2 }))
      unfolding finish_write
      finished (made w' k) =
          let v = unchanged w' k in
          let out = add_dirty os laws c b w' d v.coherent (Same-lookup s b ∙ e) in
          updated _ out.0 refl (λ q. out.1 q ∙ ground (arith, v.views q))
      finished (skipped w' k) =
          let v = unchanged w' k in
          let u = Same-lookup s b ∙ e in
          let f = λ (q : ℕ) (ne : q ≢ b). laws.pwrite_file b q d w' ne in
          record {
            good = bypass-IsCoherent c w' (os.pwrite b d w').1 b v.coherent u f;
            others =
                λ q ne. view-bypass c w' (os.pwrite b d w').1 b v.coherent u f q ne ∙ v.views q;
            written = λ h.
                view-none os laws c (os.pwrite b d w').1 b u
                ∙ laws.pwrite_data b d w' (ground arith);
            size = refl;
            only_eio = λ x h. ground arith;
          }

      Writes-miss : Writes dev b d (write_miss os b d (record dev { cache = c }))
      unfolding write_miss
      Writes-miss = finished (insert-Inserts os laws c b d dev.w (Same-lookup s b ∙ e))

    -- From a good device a write of a block in range leaves a good device of the same size, changes
    -- no other block as a reader sees it, and the block itself is as written if it succeeds; it
    -- fails with EIO only.
    pub blkdev_write-Writes : b < dev.total_blocks → Writes dev b d (blkdev_write os b d dev)
    unfolding blkdev_write write_found
    blkdev_write-Writes lt = elim (Option-cases (hash_lookup dev.cache b)) [
      | inl e ↦
          rw (in_range os laws b dev.total_blocks lt, lookup-none dev.cache b e)
            (Writes-miss _ (Same-miss dev.cache _) e)
      | inr (p, e) ↦
          rw (in_range os laws b dev.total_blocks lt, lookup-some dev.cache b p e) (Writes-hit p e)
    ]

  -- What a sync leaves.
  pub record Syncs (dev : BlockDevice os) (out : Result Errno (Unit {0}) × BlockDevice os)
      : Type 0 where
    pub good : IsGood os laws out.1
    pub same : (q : ℕ) → contents os laws out.1 q ≡ contents os laws dev q
    pub size : out.1.total_blocks ≡ dev.total_blocks
    pub durable : out.0 ≡ ok tt → (q : ℕ) → os.file out.1.w q ≡ contents os laws dev q

  flush-Syncs :
      (dev dev' : BlockDevice os) (r : Result Errno (Unit {0}))
      → dev'.total_blocks ≡ dev.total_blocks
      → SameView os laws dev.cache dev.w dev'.cache dev'.w
      → (r ≡ ok tt → (q : ℕ) → os.file dev'.w q ≡ contents os laws dev q)
      → Syncs dev (flush os r dev')
  unfolding flush
  flush-Syncs dev dev' (err e) n v f = record {
    good = v.coherent;
    same = v.views;
    size = n;
    durable = λ h. absurd (cc h);
  }
  flush-Syncs dev dev' (ok u) n v f =
      let x =
        SameView-trans os laws v
          (SameView-file os laws v.coherent (λ q. laws.fsync_file q dev'.w)) in
      record {
        good = x.coherent;
        same = x.views;
        size = n;
        durable = λ h q. laws.fsync_file q dev'.w ∙ f refl q;
      }

  -- From a good device a sync leaves a good device with the same contents, also if it fails; if it
  -- succeeds the file holds every block as a reader sees it.
  pub blkdev_sync-Syncs :
      (dev : BlockDevice os) → IsGood os laws dev → Syncs dev (blkdev_sync os dev)
  unfolding blkdev_sync
  blkdev_sync-Syncs dev good =
      let k = buffer_cache_sync-Kept os laws dev.cache dev.w good in
      flush-Syncs dev _ (buffer_cache_sync os dev.cache dev.w).0 refl
        (record { coherent = k.coherent; views = k.views })
        (λ h. file-buffer_cache_sync os laws dev.cache dev.w good h)
