-- ===== src/InodeCache/Good.antt =====
-- `inode_get` keeps the device good, however it ends.
use nano_fs.Prelude.{
  ℕ, Option, none, some, List, Result, ok, err, Errno, ◌≡◌, Bool-cases, inl, inr, arith,
}
use nano_fs.BlockIo.{BlockIo}
use nano_fs.Inode.{Fs, M}
use nano_fs.InodeCache.{
  InodeCache, inode_block, on_inode, inode_put, fill, load_inode, get_hit, recycle, removes,
  get_miss, get_found, inode_get, hash_lookup,
}
use nano_fs.InodeCache.Get.{recycle-Keeps}

module _ (io : BlockIo) where
  open io use {Dev, IsGood}

  fill-IsGood :
      (r : Result Errno (List ℕ)) (p inum : ℕ) (c : InodeCache io)
      → IsGood c.dev
      → IsGood (fill io r p inum c).1.dev
  unfolding fill inode_put
  fill-IsGood (ok l) p inum c g = g
  fill-IsGood (err e) p inum c g = g

  load_inode-IsGood :
      (p inum : ℕ) (c : InodeCache io) → IsGood c.dev → IsGood (load_inode io p inum c).1.dev
  unfolding load_inode
  load_inode-IsGood p inum c g =
      fill-IsGood _ p inum (record c { dev = (io.read (inode_block c.sb inum) c.dev).1 })
        (io.read_good (inode_block c.sb inum) c.dev g)

  get_hit-IsGood :
      (p inum : ℕ) (c : InodeCache io) → IsGood c.dev → IsGood (get_hit io p inum c).1.dev
  unfolding get_hit
  get_hit-IsGood p inum c g = elim (Bool-cases (c.inodes p).valid) [
    | inl v ↦ rw v g
    | inr v ↦ rw v (load_inode-IsGood p inum _ g)
  ]

  get_miss-IsGood :
      (unused : Option ℕ) (inum : ℕ) (c : InodeCache io)
      → IsGood c.dev
      → IsGood (get_miss io unused inum c).1.dev
  unfolding get_miss
  get_miss-IsGood none inum c g = g
  get_miss-IsGood (some p) inum c g =
      let k = load_inode-IsGood p inum (recycle io p inum c) (recycle-Keeps io c inum p g).0 in
      elim (Bool-cases (removes io p c)) [ inl e ↦ rw e k | inr e ↦ rw e g ]

  get_found-IsGood :
      (f : Option (Option ℕ)) (inum : ℕ) (c : InodeCache io)
      → IsGood c.dev
      → IsGood (get_found io f inum c).1.dev
  unfolding get_found
  get_found-IsGood none inum c g = g
  get_found-IsGood (some (some p)) inum c g = get_hit-IsGood p inum c g
  get_found-IsGood (some none) inum c g = get_miss-IsGood _ inum c g

  pub inode_get-IsGood :
      (inum : ℕ) (c : InodeCache io) → IsGood c.dev → IsGood (inode_get io inum c).1.dev
  unfolding inode_get
  inode_get-IsGood inum c g = get_found-IsGood (hash_lookup io c inum) inum c g

  pub on_inode-IsGood :
      {A : Type 0} (p : ℕ) (m : M io A) (c : InodeCache io)
      → ((s : Fs io) → IsGood s.dev → IsGood (m s).1.dev)
      → IsGood c.dev
      → IsGood (on_inode io p m c).1.dev
  unfolding on_inode
  on_inode-IsGood p m c keeps g = keeps _ g

  pub inode_put-IsGood : (p : ℕ) (c : InodeCache io) → IsGood c.dev → IsGood (inode_put io p c).dev
  unfolding inode_put
  inode_put-IsGood p c g = g

  -- Putting an inode back changes its count only.
  pub inode_put_same :
      (p : ℕ) (c : InodeCache io)
      → (((inode_put io p c).inodes p).inum ≡ (c.inodes p).inum)
        × ((((inode_put io p c).inodes p).valid ≡ (c.inodes p).valid)
            × (((inode_put io p c).inodes p).disk ≡ (c.inodes p).disk))
  unfolding inode_put
  inode_put_same p c = (ground arith, (ground arith, ground arith))
