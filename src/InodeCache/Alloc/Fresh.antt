-- ===== src/InodeCache/Alloc/Fresh.antt =====
-- What `inode_alloc` leaves.
use nano_fs.Prelude.{
  ◌==◌, ==_iff, ℕ, ◌<◌, ◌≡◌, refl, sym, ◌∙◌, ap, true, false, some, List, Result, ok, err, FsError,
  sub_u32, Option-cases, Bool-cases, inl, inr, arith,
}
use nano_fs.Types.{Superblock}
use nano_fs.BlockIo.{BlockIo}
use nano_fs.Bitmap.{Fits, bitmap_test, bitmap_set, bitmap_clear}
use nano_fs.Bitmap.Laws.{set-Fits, test-set, test-clear}
use nano_fs.BlockAlloc.{find_free}
use nano_fs.BlockAlloc.Search.{FirstClear, find_free-some}
use nano_fs.InodeCache.{
  InodeCache, Stop, null, hang, at, sync_inode_bitmap, inode_sync, inode_put, inode_get,
}
use nano_fs.InodeCache.Get.{Gets, cached, loaded, inode_get-Gets}
use nano_fs.InodeCache.Alloc.{
  new_disk, roll_back, finish_alloc, initialize, alloc_found, inode_alloc,
}
use nano_fs.InodeCache.Fixed.{Same-inode_sync, Fixed-inode_get}

-- Clearing a bit that was clear before it was set restores the bitmap.
restored :
    (m : List ℕ) (n i j : ℕ)
    → Fits m n
    → i < n
    → bitmap_test m i ≡ false
    → bitmap_test (bitmap_clear (bitmap_set m i) i) j ≡ bitmap_test m j
restored m n i j fits lt clear = elim (Bool-cases (i == j)) [
  | inl same ↦
      test-clear (bitmap_set m i) n i j (set-Fits fits i) lt
      ∙ (let e : i ≡ j = (==_iff i j).0 same in rw (same, ← e) (sym clear))
  | inr other ↦
      test-clear (bitmap_set m i) n i j (set-Fits fits i) lt
      ∙ rw other (test-set m n i j fits lt ∙ rw other refl)
]

module _ (io : BlockIo) where
  open io use {Dev, IsGood}

  -- The inode `p` of the pool is new, and has the number `i`.
  pub record IsNew (c : InodeCache io) (kind now i p : ℕ) (c' : InodeCache io) : Type 0 where
    pub first : FirstClear c.inode_bitmap c.sb.total_inodes 0 i
    pub bitmap : c'.inode_bitmap ≡ bitmap_set c.inode_bitmap i
    pub sb : c'.sb ≡ record c.sb { free_inodes = sub_u32 c.sb.free_inodes 1 }
    pub number : (c'.inodes p).inum ≡ i
    pub disk : (c'.inodes p).disk ≡ new_disk io kind now
    pub valid : (c'.inodes p).valid ≡ true

  module _ (c : InodeCache io) (kind now i : ℕ)
      (first : FirstClear c.inode_bitmap c.sb.total_inodes 0 i) where
    -- How it ends, with the bit set and cleared again where it fails.
    record Ends (out : Result Stop ℕ × InodeCache io) : Type 0 where
      made : (p : ℕ) → out.0 ≡ ok p → IsNew c kind now i p out.1
      refused : out.0 ≡ err null → out.1.inode_bitmap ≡ bitmap_clear (bitmap_set c.inode_bitmap i) i

    Ends-finish_alloc :
        (r : Result FsError (Unit {0})) (p : ℕ) (c' : InodeCache io)
        → c'.inode_bitmap ≡ bitmap_set c.inode_bitmap i
        → c'.sb ≡ c.sb
        → (c'.inodes p).inum ≡ i
        → (c'.inodes p).disk ≡ new_disk io kind now
        → (c'.inodes p).valid ≡ true
        → Ends (finish_alloc io r p i c')
    unfolding finish_alloc sync_inode_bitmap roll_back inode_put
    Ends-finish_alloc (ok u) p c' b s n d v = record {
      made = λ q e.
          let same : p ≡ q = cc in
          rw (← same) (record {
            first = first;
            bitmap = b;
            sb =
                ap
                  (λ (x : Superblock).
                    let y : Superblock = record x { free_inodes = sub_u32 x.free_inodes 1 } in y)
                  s;
            number = n;
            disk = d;
            valid = v;
          });
      refused = λ e. cc;
    }
    Ends-finish_alloc (err x) p c' b s n d v = record {
      made = λ q e. cc;
      refused = λ e. ap (λ m. bitmap_clear m i) b;
    }

    Ends-initialize :
        (r : Result Stop ℕ) (c' : InodeCache io)
        → c'.inode_bitmap ≡ bitmap_set c.inode_bitmap i
        → c'.sb ≡ c.sb
        → ((p : ℕ) → r ≡ ok p → (c'.inodes p).inum ≡ i)
        → Ends (initialize io r i kind now c')
    unfolding initialize roll_back
    Ends-initialize (err hang) c' b s n = record { made = λ q e. cc; refused = λ e. cc }
    Ends-initialize (err null) c' b s n = record {
      made = λ q e. cc;
      refused = λ e. ap (λ m. bitmap_clear m i) b;
    }
    Ends-initialize (ok p) c' b s n =
        let c2 =
          at io c' p (λ j. record j { disk = new_disk io kind now; valid = true; dirty = true }) in
        let k = Same-inode_sync io p c2 in
        Ends-finish_alloc (inode_sync io p c2).0 p (inode_sync io p c2).1 (k.fixed.bitmap ∙ b)
          (k.fixed.sb ∙ s) (k.inum ∙ ground (arith, n p refl)) (k.disk ∙ ground arith)
          (k.valid ∙ ground arith)

  Gets-number : {c c' : InodeCache io} {i p : ℕ} → Gets io c i p c' → (c'.inodes p).inum ≡ i
  Gets-number (cached f h h' d) = h'.number
  Gets-number (loaded m h d) = h.number

  Ends-alloc_found :
      (c : InodeCache io) (kind now i : ℕ) (first : FirstClear c.inode_bitmap c.sb.total_inodes 0 i)
      → IsGood c.dev
      → Ends c kind now i first (alloc_found io (some i) kind now c)
  unfolding alloc_found
  Ends-alloc_found c kind now i first g =
      let c1 = record c { inode_bitmap = bitmap_set c.inode_bitmap i } in
      let k = Fixed-inode_get io i c1 in
      Ends-initialize c kind now i first (inode_get io i c1).0 (inode_get io i c1).1 k.bitmap k.sb
        (λ p e. Gets-number (inode_get-Gets io c1 i p g e))

  -- On a good device, with a bitmap that has a bit for each inode: when `inode_alloc` returns an inode of the pool, it
  -- is new, valid and of the kind asked for, and has the lowest number whose bit was clear; that bit is set, and the
  -- count of free inodes goes down by one. When it returns NULL, no bit of an inode has changed.
  pub inode_alloc-IsNew :
      (c : InodeCache io) (kind now : ℕ)
      → IsGood c.dev
      → Fits c.inode_bitmap c.sb.total_inodes
      → ((p : ℕ)
          → (inode_alloc io kind now c).0 ≡ ok p
          → (i : ℕ) × IsNew c kind now i p (inode_alloc io kind now c).1)
        × ((j : ℕ)
            → (inode_alloc io kind now c).0 ≡ err null
            → bitmap_test (inode_alloc io kind now c).1.inode_bitmap j
              ≡ bitmap_test c.inode_bitmap j)
  unfolding inode_alloc
  inode_alloc-IsNew c kind now g fits =
      elim (Option-cases (find_free c.inode_bitmap c.sb.total_inodes 0)) [
        | inl full ↦ rw full (unfold alloc_found in ((λ p e. cc), (λ j e. refl)))
        | inr (i, some_i) ↦
            let first = find_free-some c.inode_bitmap c.sb.total_inodes 0 i some_i in
            let x = Ends-alloc_found c kind now i first g in
            rw some_i (
              (λ p e. (i, x.made p e)),
              (λ j e.
                  ap (λ m. bitmap_test m j) (x.refused e)
                  ∙ restored c.inode_bitmap c.sb.total_inodes i j fits (omega (arith, first.below))
                      first.clear),
            )
      ]
