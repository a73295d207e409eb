-- ===== src/InodeCache/Get.antt =====
-- What `inode_get` returns.
use nano_fs.Prelude.{
  ℕ, zero, suc, ◌≡◌, refl, sym, ◌∙◌, ap, true, false, ◌&&◌, Option, some, none, List, Result, ok,
  err, Errno, arith, inl, inr, Bool-cases, ◌==◌, ==_iff,
}
use nano_fs.Types.{inode_size}
use nano_fs.Types.Bytes.{inode_of}
use nano_fs.Struct.{copy}
use nano_fs.BlockIo.{BlockIo}
use nano_fs.InodeCache.{
  InodeCache, inode_block, inode_offset, walk, hash_lookup, fill, load_inode, get_hit, recycle,
  hash_insert, hash_remove, removes, get_miss, get_found, inode_get,
}
use nano_fs.InodeCache.Sync.{stored, inode_sync-Keeps}

module _ (io : BlockIo) where
  open io use {Dev, read, write, IsGood, contents}

  -- The inode `p` of the pool is the inode `inum`.
  pub record Holds (c : InodeCache io) (inum p : ℕ) : Type 0 where
    pub number : (c.inodes p).inum ≡ inum
    pub valid : (c.inodes p).valid ≡ true

  -- No inode that the hash chain of `inum` leads to is valid.
  abbrev pub Missing : InodeCache io → ℕ → Type 0
  Missing c inum = (q : ℕ) → hash_lookup io c inum ≡ some (some q) → (c.inodes q).valid ≡ false

  -- It was there before, or it was not and has just been read from the device.
  pub data Gets (c : InodeCache io) (inum : ℕ) (p : ℕ) (c' : InodeCache io) : Type 0 where
    cached :
        hash_lookup io c inum ≡ some (some p)
        → Holds c inum p
        → Holds c' inum p
        → (c'.inodes p).disk ≡ (c.inodes p).disk
        → Gets c inum p c'
    loaded :
        Missing c inum
        → Holds c' inum p
        → (c'.inodes p).disk ≡ stored (contents c'.dev) c'.sb inum
        → Gets c inum p c'

  walk-inum :
      (rounds : ℕ) (c : InodeCache io) (start : Option ℕ) (inum p : ℕ)
      → walk io rounds c start inum ≡ some (some p)
      → (c.inodes p).inum ≡ inum
  unfolding walk
  walk-inum zero c start inum p e = cc
  walk-inum (suc rounds) c none inum p e = cc
  walk-inum (suc rounds) c (some q) inum p e = elim (Bool-cases ((c.inodes q).inum == inum)) [
    | inl same ↦ let f : q ≡ p = ground arith in rw (← f) ((==_iff _ inum).0 same)
    | inr other ↦ walk-inum rounds c (c.hash_next q) inum p (ground arith)
  ]

  -- What is read from the device is put into the inode `p`.
  fill-Gets :
      (c c0 : InodeCache io) (inum p : ℕ) (r : Result Errno (List ℕ)) (dev' : Dev) (q : ℕ)
      → Missing c0 inum
      → (c.inodes p).inum ≡ inum
      → ((l : List ℕ) → r ≡ ok l → l ≡ contents dev' (inode_block c.sb inum))
      → (fill io r p inum (record c { dev = dev' })).0 ≡ ok q
      → Gets c0 inum q (fill io r p inum (record c { dev = dev' })).1
  unfolding fill
  fill-Gets c c0 inum p (err e) dev' q m n got h = cc
  fill-Gets c c0 inum p (ok l) dev' q m n got h =
      let same : p ≡ q = cc in
      rw (← same)
        (loaded m (record { number = ground arith; valid = ground arith }) (ground (arith, filled)))
    where
      filled : inode_of (copy l (inode_offset inum) inode_size) ≡ stored (contents dev') c.sb inum
      filled =
          unfold stored in ap (λ b. inode_of (copy b (inode_offset inum) inode_size)) (got l refl)

  load_inode-Gets :
      (c c0 : InodeCache io) (inum p q : ℕ)
      → Missing c0 inum
      → IsGood c.dev
      → (c.inodes p).inum ≡ inum
      → (load_inode io p inum c).0 ≡ ok q
      → Gets c0 inum q (load_inode io p inum c).1
  unfolding load_inode
  load_inode-Gets c c0 inum p q m g n h =
      fill-Gets c c0 inum p (read (inode_block c.sb inum) c.dev).0
        (read (inode_block c.sb inum) c.dev).1 q m n
        (λ l e.
          io.read_data (inode_block c.sb inum) c.dev l g e
          ∙ sym (io.read_contents (inode_block c.sb inum) (inode_block c.sb inum) c.dev g))
        h

  get_hit-Gets :
      (c : InodeCache io) (inum p q : ℕ)
      → hash_lookup io c inum ≡ some (some p)
      → IsGood c.dev
      → (c.inodes p).inum ≡ inum
      → (get_hit io p inum c).0 ≡ ok q
      → Gets c inum q (get_hit io p inum c).1
  unfolding get_hit
  get_hit-Gets c inum p q f g n h = elim (Bool-cases (c.inodes p).valid) [
    | inl v ↦
        let same : p ≡ q = ground arith in
        rw (v, ← same)
          (cached f (record { number = n; valid = v })
            (record { number = ground arith; valid = ground arith }) (ground arith))
    | inr nv ↦ rw nv (
        load_inode-Gets _ c inum p q (λ q' e. let same : p ≡ q' = cc in rw (← same) nv) g
          (ground arith) (rw nv at h))
  ]

  -- The inode that is recycled has the new number, and the device stays good.
  pub recycle-Keeps :
      (c : InodeCache io) (inum p : ℕ)
      → IsGood c.dev
      → IsGood (recycle io p inum c).dev × (((recycle io p inum c).inodes p).inum ≡ inum)
  unfolding recycle hash_insert hash_remove
  recycle-Keeps c inum p g = (
    elim (Bool-cases ((c.inodes p).dirty && (c.inodes p).valid)) [
      | inl b ↦ rw b (ground (arith, (inode_sync-Keeps io c p g).good))
      | inr b ↦ rw b (ground (arith, g))
    ],
    ground arith,
  )

  get_miss-Gets :
      (c : InodeCache io) (unused : Option ℕ) (inum q : ℕ)
      → Missing c inum
      → IsGood c.dev
      → (get_miss io unused inum c).0 ≡ ok q
      → Gets c inum q (get_miss io unused inum c).1
  unfolding get_miss
  get_miss-Gets c none inum q m g h = cc
  get_miss-Gets c (some p) inum q m g h =
      let k = recycle-Keeps c inum p g in
      elim (Bool-cases (removes io p c)) [
        | inl ends ↦
            rw ends (load_inode-Gets (recycle io p inum c) c inum p q m k.0 k.1 (rw ends at h))
        | inr round ↦ let x = rw round at h in cc
      ]

  get_found-Gets :
      (c : InodeCache io) (found : Option (Option ℕ)) (inum q : ℕ)
      → hash_lookup io c inum ≡ found
      → IsGood c.dev
      → ((p : ℕ) → found ≡ some (some p) → (c.inodes p).inum ≡ inum)
      → (get_found io found inum c).0 ≡ ok q
      → Gets c inum q (get_found io found inum c).1
  unfolding get_found
  get_found-Gets c none inum q f g n h = cc
  get_found-Gets c (some (some p)) inum q f g n h = get_hit-Gets c inum p q f g (n p refl) h
  get_found-Gets c (some none) inum q f g n h = get_miss-Gets c _ inum q (λ q' e. cc) g h

  -- On a good device, when inode_get returns an inode of the pool, it has the number that was asked for and is valid. If
  -- the walk of that number's hash chain finds a valid inode, it is that one, and holds what it held; and it holds what
  -- the inode table on the device holds only if the walk finds none or one that is not valid.
  pub inode_get-Gets :
      (c : InodeCache io) (inum p : ℕ)
      → IsGood c.dev
      → (inode_get io inum c).0 ≡ ok p
      → Gets c inum p (inode_get io inum c).1
  unfolding inode_get hash_lookup
  inode_get-Gets c inum p g h =
      get_found-Gets c (hash_lookup io c inum) inum p refl g (λ q e. walk-inum _ c _ inum q e) h
