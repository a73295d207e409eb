-- ===== src/InodeCache/Unallocated.antt =====
-- What `inode_get`, and an operation that allocates nothing, leave as it is.
use nano_fs.Prelude.{
  ℕ, ◌≡◌, refl, ap, ◌∙◌, Bool, true, false, ◌&&◌, not, ◌||◌, Option, none, some, List, Result, ok,
  err, Errno, Bool-cases, inl, inr, if◌then◌else◌,
}
use nano_fs.Types.{Superblock}
use nano_fs.BlockIo.{BlockIo}
use nano_fs.BlockAlloc.{BlockAllocator}
use nano_fs.Inode.{Fs, M}
use nano_fs.Inode.Steady.{Keeps}
use nano_fs.InodeCache.{
  InodeCache, on_inode, inode_put, finish_sync, write_back, inode_sync, fill, load_inode, get_hit,
  hash_insert, hash_remove, recycle, removes, get_miss, get_found, inode_get, hash_lookup,
}
use nano_fs.InodeCache.Good.{inode_get-IsGood}

module _ (io : BlockIo) where
  -- From the cache `c` to `c'` nothing was allocated or freed; the device is good.
  pub record Unallocated (c c' : InodeCache io) : Type 0 where
    pub good : io.IsGood c'.dev
    pub balloc : c'.balloc ≡ c.balloc
    pub bitmap : c'.inode_bitmap ≡ c.inode_bitmap
    pub sb : c'.sb ≡ c.sb

  pub Unallocated-refl : (c : InodeCache io) → io.IsGood c.dev → Unallocated c c
  Unallocated-refl c g = record { good = g; balloc = refl; bitmap = refl; sb = refl }

  pub Unallocated-trans :
      {c d e : InodeCache io} → Unallocated c d → Unallocated d e → Unallocated c e
  Unallocated-trans u v = record {
    good = v.good;
    balloc = v.balloc ∙ u.balloc;
    bitmap = v.bitmap ∙ u.bitmap;
    sb = v.sb ∙ u.sb;
  }

  -- What is left of the state without the device and the inodes.
  abbrev Rest : Type 0
  Rest = BlockAllocator × List ℕ × Superblock

  abbrev rest : InodeCache io → Rest
  rest c = (c.balloc, c.inode_bitmap, c.sb)

  rest-finish_sync :
      (r : Result Errno (Unit {0})) (p : ℕ) (c : InodeCache io)
      → rest (finish_sync io r p c).1 ≡ rest c
  unfolding finish_sync
  rest-finish_sync (ok u) p c = refl
  rest-finish_sync (err e) p c = refl

  rest-write_back :
      (r : Result Errno (List ℕ)) (p : ℕ) (c : InodeCache io)
      → rest (write_back io r p c).1 ≡ rest c
  unfolding write_back
  rest-write_back (ok buf) p c = rest-finish_sync _ p _
  rest-write_back (err e) p c = refl

  rest-inode_sync : (p : ℕ) (c : InodeCache io) → rest (inode_sync io p c).1 ≡ rest c
  unfolding inode_sync
  rest-inode_sync p c = elim (Bool-cases (not (c.inodes p).valid || not (c.inodes p).dirty)) [
    | inl nothing ↦ rw nothing refl
    | inr something ↦ rw something (rest-write_back _ p _)
  ]

  rest-if :
      (b : Bool) (x y : InodeCache io) (r : Rest)
      → rest x ≡ r
      → rest y ≡ r
      → rest (if b then x else y) ≡ r
  rest-if true x y r e e' = e
  rest-if false x y r e e' = e'

  rest-recycle : (p inum : ℕ) (c : InodeCache io) → rest (recycle io p inum c) ≡ rest c
  unfolding recycle hash_insert hash_remove
  rest-recycle p inum c =
      let i = c.inodes p in
      let c1 = if i.dirty && i.valid then (inode_sync io p c).1 else c in
      let e : rest c1 ≡ rest c =
        rest-if (i.dirty && i.valid) (inode_sync io p c).1 c (rest c) (rest-inode_sync p c) refl in
      rest-if (c1.inodes p).valid (hash_remove io c1 p) c1 (rest c) e e

  rest-fill :
      (r : Result Errno (List ℕ)) (p inum : ℕ) (c : InodeCache io)
      → rest (fill io r p inum c).1 ≡ rest c
  unfolding fill inode_put
  rest-fill (ok buf) p inum c = refl
  rest-fill (err e) p inum c = refl

  rest-load_inode : (p inum : ℕ) (c : InodeCache io) → rest (load_inode io p inum c).1 ≡ rest c
  unfolding load_inode
  rest-load_inode p inum c = rest-fill _ p inum _

  rest-get_hit : (p inum : ℕ) (c : InodeCache io) → rest (get_hit io p inum c).1 ≡ rest c
  unfolding get_hit
  rest-get_hit p inum c = elim (Bool-cases (c.inodes p).valid) [
    | inl v ↦ rw v refl
    | inr v ↦ rw v (rest-load_inode p inum _)
  ]

  rest-get_found :
      (f : Option (Option ℕ)) (inum : ℕ) (c : InodeCache io)
      → rest (get_found io f inum c).1 ≡ rest c
  unfolding get_found
  rest-get_found none inum c = refl
  rest-get_found (some (some p)) inum c = rest-get_hit p inum c
  rest-get_found (some none) inum c = rest-get_miss _ inum c
    where
      rest-get_miss :
          (unused : Option ℕ) (inum : ℕ) (c : InodeCache io)
          → rest (get_miss io unused inum c).1 ≡ rest c
      rest-get_miss none inum c = unfold get_miss in refl
      rest-get_miss (some p) inum c =
          let e = rest-load_inode p inum (recycle io p inum c) ∙ rest-recycle p inum c in
          unfold get_miss in
          elim (Bool-cases (removes io p c)) [ inl b ↦ rw b e | inr b ↦ rw b refl ]

  Unallocated-rest : (c c' : InodeCache io) → io.IsGood c'.dev → rest c' ≡ rest c → Unallocated c c'
  Unallocated-rest c c' g e = record {
    good = g;
    balloc = ap (λ r. r.0) e;
    bitmap = ap (λ r. r.1) e;
    sb = ap (λ r. r.2) e;
  }

  pub Unallocated-inode_get :
      (inum : ℕ) (c : InodeCache io) → io.IsGood c.dev → Unallocated c (inode_get io inum c).1
  Unallocated-inode_get inum c g =
      Unallocated-rest c (inode_get io inum c).1 (inode_get-IsGood io inum c g)
        (unfold inode_get in rest-get_found (hash_lookup io c inum) inum c)

  pub Unallocated-inode_put :
      (p : ℕ) (c : InodeCache io) → io.IsGood c.dev → Unallocated c (inode_put io p c)
  unfolding inode_put
  Unallocated-inode_put p c g = record { good = g; balloc = refl; bitmap = refl; sb = refl }

  pub Unallocated-on_inode :
      {A : Type 0} (p : ℕ) (m : M io A) (c : InodeCache io)
      → ((s : Fs io) → io.IsGood s.dev → s.balloc ≡ c.balloc → Keeps io c.balloc (m s))
      → io.IsGood c.dev
      → Unallocated c (on_inode io p m c).1
  unfolding on_inode
  Unallocated-on_inode p m c keeps g =
      let k = keeps (record { balloc = c.balloc; dev = c.dev; inode = c.inodes p }) g refl in
      record { good = k.0; balloc = k.1; bitmap = refl; sb = refl }
