-- ===== src/BlockDev/Reload.antt =====
-- `blkdev_write_superblock` and `blkdev_load_superblock`.
use mathlib.Core.Path.{subst}
use nano_fs.Prelude.{
  ℕ, ◌<◌, ◌≡◌, refl, sym, ◌∙◌, ap, some, none, List, ◌++◌, Result, ok, err, Errno, ◌==◌, ==_iff,
  Bool-cases, inl, inr, arith,
}
use nano_fs.Types.{Superblock, superblock_magic}
use nano_fs.Types.Bytes.{
  superblock_of, superblock_bytes, IsSuperblock, superblock_of-superblock_bytes,
}
use nano_fs.Os.{Os, Laws, Block}
use nano_fs.BlockDev.{
  BlockDevice, blkdev_read, blkdev_write, loaded, blkdev_load_superblock, then_sync, write_loaded,
  blkdev_write_superblock,
}
use nano_fs.BlockDev.Flat.{IsGood, contents, blkdev_read-Reads}
use nano_fs.BlockDev.Write.{blkdev_write-Writes, blkdev_sync-Syncs}

module _ (os : Os) (laws : Laws os) where
  -- What a load finds in a device whose block 0 is `content`: the superblock if its magic number is
  -- right, and none with EINVAL if it is not.
  pub record Loads (dev : BlockDevice os) (content : Block)
      (out : Result Errno (Unit {0}) × BlockDevice os) : Type 0 where
    pub found :
        out.0 ≡ ok tt
        → (out.1.superblock ≡ some (superblock_of content))
          × ((superblock_of content).magic ≡ superblock_magic)
    pub missed : (e : Errno) → out.0 ≡ err e → out.1.superblock ≡ none
    pub good : IsGood os laws out.1
    pub same : (q : ℕ) → contents os laws out.1 q ≡ contents os laws dev q

  loaded-Loads :
      (dev dev' : BlockDevice os) (r : Result Errno Block)
      → IsGood os laws dev'
      → ((q : ℕ) → contents os laws dev' q ≡ contents os laws dev q)
      → ((l : Block) → r ≡ ok l → l ≡ contents os laws dev 0)
      → Loads dev (contents os laws dev 0) (loaded os r dev')
  unfolding loaded
  loaded-Loads dev dev' (err e) g s h = record {
    found = λ k. cc;
    missed = λ x k. refl;
    good = g;
    same = s;
  }
  loaded-Loads dev dev' (ok l) g s h =
      elim (Bool-cases ((superblock_of l).magic == superblock_magic)) [
        | inl m ↦ rw m (record {
          found = λ k. (
            ap (λ c. some (superblock_of c)) (h l refl),
            ap (λ c. (superblock_of c).magic) (sym (h l refl)) ∙ (==_iff _ superblock_magic).0 m,
          );
          missed = λ x k. cc;
          good = g;
          same = s;
        })
        | inr m ↦ rw m (record { found = λ k. cc; missed = λ x k. refl; good = g; same = s })
      ]

  -- From a good device that has a block, a load sets the superblock to what block 0 holds if it
  -- succeeds, which it does only for the right magic number, and to none if it fails; it changes no
  -- block.
  pub blkdev_load_superblock-Loads :
      (dev : BlockDevice os)
      → IsGood os laws dev
      → 0 < dev.total_blocks
      → Loads dev (contents os laws dev 0) (blkdev_load_superblock os dev)
  unfolding blkdev_load_superblock
  blkdev_load_superblock-Loads dev g lt =
      let r = blkdev_read-Reads os laws dev 0 g lt in
      loaded-Loads dev (blkdev_read os 0 dev).1 (blkdev_read os 0 dev).0 r.same.coherent
        r.same.views r.result

  -- What writing the superblock `sb` leaves.
  record Stores (dev : BlockDevice os) (content : Block)
      (out : Result Errno (Unit {0}) × BlockDevice os) : Type 0 where
    good : IsGood os laws out.1
    size : out.1.total_blocks ≡ dev.total_blocks
    stored : out.0 ≡ ok tt → contents os laws out.1 0 ≡ content

  then_sync-Stores :
      (dev dev' : BlockDevice os) (content : Block) (r : Result Errno (Unit {0}))
      → IsGood os laws dev'
      → dev'.total_blocks ≡ dev.total_blocks
      → (r ≡ ok tt → contents os laws dev' 0 ≡ content)
      → Stores dev content (then_sync os r dev')
  unfolding then_sync
  then_sync-Stores dev dev' content (err e) g n h = record { good = g; size = n; stored = λ k. cc }
  then_sync-Stores dev dev' content (ok u) g n h =
      let s = blkdev_sync-Syncs os laws dev' g in
      record { good = s.good; size = s.size ∙ n; stored = λ k. s.same 0 ∙ h refl }

  blkdev_write_superblock-Stores :
      (dev : BlockDevice os) (sb : Superblock) (now : ℕ) (beyond : List ℕ)
      → IsGood os laws dev
      → 0 < dev.total_blocks
      → dev.superblock ≡ some sb
      → Stores dev
          (superblock_bytes (record sb { write_time = now }) ++ beyond)
          (blkdev_write_superblock os now beyond dev)
  unfolding blkdev_write_superblock
  blkdev_write_superblock-Stores dev sb now beyond g lt e =
      let sb' = record sb { write_time = now } in
      let content = superblock_bytes sb' ++ beyond in
      let dev0 = record dev { superblock = some sb' } in
      let w = blkdev_write-Writes os laws dev0 0 content g lt in
      subst (λ o. Stores dev content (write_loaded os o now beyond dev)) (sym e)
        (then_sync-Stores dev (blkdev_write os 0 content dev0).1 content
          (blkdev_write os 0 content dev0).0 w.good w.size w.written)

  -- On a good device that has a block, with a superblock whose fields fit, if writing the superblock
  -- and loading it again both succeed, the one that is loaded is the one that was written, with
  -- `write_time` set, whatever lay behind it in memory.
  pub blkdev_load-write_superblock :
      (dev : BlockDevice os) (sb : Superblock) (now : ℕ) (beyond : List ℕ)
      → IsGood os laws dev
      → 0 < dev.total_blocks
      → dev.superblock ≡ some sb
      → IsSuperblock (record sb { write_time = now })
      → (blkdev_write_superblock os now beyond dev).0 ≡ ok tt
      → (blkdev_load_superblock os (blkdev_write_superblock os now beyond dev).1).0 ≡ ok tt
      → (blkdev_load_superblock os (blkdev_write_superblock os now beyond dev).1).1.superblock
        ≡ some (record sb { write_time = now })
  blkdev_load-write_superblock dev sb now beyond g lt e i written loads =
      let s = blkdev_write_superblock-Stores dev sb now beyond g lt e in
      let dev' = (blkdev_write_superblock os now beyond dev).1 in
      let l = blkdev_load_superblock-Loads dev' s.good (omega (arith, s.size, lt)) in
      (l.found loads).0
      ∙ ap (λ c. some (superblock_of c)) (s.stored written)
      ∙ ap (λ (t : Superblock). some t)
          (superblock_of-superblock_bytes (record sb { write_time = now }) beyond i)
