-- ===== src/InodeCache/Fixed.antt =====
-- `inode_sync` and `inode_get` keep the inode bitmap and the superblock of the cache.
use nano_fs.Prelude.{
  if◌then◌else◌, ℕ, ◌≡◌, refl, ◌∙◌, Bool, true, false, not, ◌&&◌, ◌||◌, Option, none, some, List,
  Result, ok, err, Errno, Bool-cases, inl, inr, arith,
}
use nano_fs.BlockIo.{BlockIo}
use nano_fs.InodeCache.{
  InodeCache, inode_block, finish_sync, write_back, inode_sync, inode_put, fill, load_inode,
  get_hit, recycle, removes, get_miss, get_found, inode_get, hash_insert, hash_remove, hash_lookup,
}

module _ (io : BlockIo) where
  open io use {Dev}

  -- The bitmap and the superblock of the cache are as they were.
  pub record Fixed (c c' : InodeCache io) : Type 0 where
    pub bitmap : c'.inode_bitmap ≡ c.inode_bitmap
    pub sb : c'.sb ≡ c.sb

  -- Nor is the inode `p` another one.
  pub record Same (p : ℕ) (c c' : InodeCache io) : Type 0 where
    pub fixed : Fixed c c'
    pub inum : (c'.inodes p).inum ≡ (c.inodes p).inum
    pub disk : (c'.inodes p).disk ≡ (c.inodes p).disk
    pub valid : (c'.inodes p).valid ≡ (c.inodes p).valid

  Same-finish_sync :
      (r : Result Errno (Unit {0})) (p : ℕ) (c : InodeCache io) → Same p c (finish_sync io r p c).1
  unfolding finish_sync
  Same-finish_sync (ok u) p c = record {
    fixed = record { bitmap = refl; sb = refl };
    inum = ground arith;
    disk = ground arith;
    valid = ground arith;
  }
  Same-finish_sync (err e) p c = record {
    fixed = record { bitmap = refl; sb = refl };
    inum = refl;
    disk = refl;
    valid = refl;
  }

  Same-write_back :
      (r : Result Errno (List ℕ)) (p : ℕ) (c : InodeCache io) (dev : Dev)
      → Same p c (write_back io r p (record c { dev = dev })).1
  unfolding write_back
  Same-write_back (err e) p c dev = record {
    fixed = record { bitmap = refl; sb = refl };
    inum = refl;
    disk = refl;
    valid = refl;
  }
  Same-write_back (ok l) p c dev =
      let s = Same-finish_sync _ p _ in
      record {
        fixed = record { bitmap = s.fixed.bitmap; sb = s.fixed.sb };
        inum = s.inum;
        disk = s.disk;
        valid = s.valid;
      }

  pub Same-inode_sync : (p : ℕ) (c : InodeCache io) → Same p c (inode_sync io p c).1
  unfolding inode_sync
  Same-inode_sync p c = elim (Bool-cases (not (c.inodes p).valid || not (c.inodes p).dirty)) [
    | inl idle ↦ rw idle (record {
      fixed = record { bitmap = refl; sb = refl };
      inum = refl;
      disk = refl;
      valid = refl;
    })
    | inr busy ↦ rw busy (
        Same-write_back (io.read (inode_block c.sb (c.inodes p).inum) c.dev).0 p c
          (io.read (inode_block c.sb (c.inodes p).inum) c.dev).1)
  ]

  Fixed-fill :
      (r : Result Errno (List ℕ)) (p inum : ℕ) (c : InodeCache io) → Fixed c (fill io r p inum c).1
  unfolding fill inode_put
  Fixed-fill (ok l) p inum c = record { bitmap = refl; sb = refl }
  Fixed-fill (err e) p inum c = record { bitmap = refl; sb = refl }

  Fixed-load : (p inum : ℕ) (c : InodeCache io) → Fixed c (load_inode io p inum c).1
  unfolding load_inode
  Fixed-load p inum c = let x = Fixed-fill _ p inum _ in record { bitmap = x.bitmap; sb = x.sb }

  Fixed-hit : (p inum : ℕ) (c : InodeCache io) → Fixed c (get_hit io p inum c).1
  unfolding get_hit
  Fixed-hit p inum c = elim (Bool-cases (c.inodes p).valid) [
    | inl v ↦ rw v (record { bitmap = refl; sb = refl })
    | inr v ↦ rw v (let x = Fixed-load p inum _ in record { bitmap = x.bitmap; sb = x.sb })
  ]

  Fixed-remove : (c : InodeCache io) (p : ℕ) → Fixed c (hash_remove io c p)
  unfolding hash_remove
  Fixed-remove c p = record { bitmap = refl; sb = refl }

  Fixed-trans : {a b c : InodeCache io} → Fixed a b → Fixed b c → Fixed a c
  Fixed-trans x y = record { bitmap = y.bitmap ∙ x.bitmap; sb = y.sb ∙ x.sb }

  Fixed-if :
      (b : Bool) (a x y : InodeCache io) → Fixed a x → Fixed a y → Fixed a (if b then x else y)
  Fixed-if true a x y f g = f
  Fixed-if false a x y f g = g

  Fixed-recycle : (p inum : ℕ) (c : InodeCache io) → Fixed c (recycle io p inum c)
  unfolding recycle hash_insert
  Fixed-recycle p inum c =
      let s = (Same-inode_sync p c).fixed in
      let i = c.inodes p in
      let c1 = if i.dirty && i.valid then (inode_sync io p c).1 else c in
      let f1 : Fixed c c1 =
        Fixed-if (i.dirty && i.valid) c (inode_sync io p c).1 c s
          (record { bitmap = refl; sb = refl }) in
      let f2 =
        Fixed-if (c1.inodes p).valid c (hash_remove io c1 p) c1 (Fixed-trans f1 (Fixed-remove c1 p))
          f1 in
      record { bitmap = f2.bitmap; sb = f2.sb }

  Fixed-miss :
      (unused : Option ℕ) (inum : ℕ) (c : InodeCache io) → Fixed c (get_miss io unused inum c).1
  unfolding get_miss
  Fixed-miss none inum c = record { bitmap = refl; sb = refl }
  Fixed-miss (some p) inum c =
      let f = Fixed-trans (Fixed-recycle p inum c) (Fixed-load p inum _) in
      elim (Bool-cases (removes io p c)) [
        | inl e ↦ rw e f
        | inr e ↦ rw e (record { bitmap = refl; sb = refl })
      ]

  Fixed-found :
      (f : Option (Option ℕ)) (inum : ℕ) (c : InodeCache io) → Fixed c (get_found io f inum c).1
  unfolding get_found
  Fixed-found none inum c = record { bitmap = refl; sb = refl }
  Fixed-found (some (some p)) inum c = Fixed-hit p inum c
  Fixed-found (some none) inum c = Fixed-miss _ inum c

  pub Fixed-inode_get : (inum : ℕ) (c : InodeCache io) → Fixed c (inode_get io inum c).1
  unfolding inode_get
  Fixed-inode_get inum c = Fixed-found (hash_lookup io c inum) inum c
