-- ===== src/InodeCache/Sync.antt =====
-- `inode_sync` and the inode table on the device.
use nano_fs.Prelude.{
  ℕ, ◌+◌, ◌*◌, ◌/◌, ◌^◌, ◌≤◌, ◌<◌, ◌≡◌, ◌≢◌, refl, sym, ◌∙◌, ap, true, false, not, ◌||◌, List,
  Result, ok, err, Errno, FsError, length, arith, inl, inr, Bool-cases,
}
use native.Mathlib.Decide.{ℕ_discrete}
use nano_fs.Types.{Superblock, DiskInode, inode_size, block_size}
use nano_fs.Types.Bytes.{
  inode_of, inode_bytes, IsDiskInode, length-inode_bytes, inode_of-inode_bytes,
}
use nano_fs.Os.{Block}
use nano_fs.Struct.{copy, splice}
use nano_fs.Struct.Laws.{copy-splice, copy-splice_ne}
use nano_fs.BlockIo.{BlockIo}
use nano_fs.InodeCache.{InodeCache, inode_block, inode_offset, finish_sync, write_back, inode_sync}

-- The inode of the table on the device, by its blocks.
unfoldable pub stored : (ℕ → Block) → Superblock → ℕ → DiskInode
stored f sb inum = inode_of (copy (f (inode_block sb inum)) (inode_offset inum) inode_size)

-- The table is no larger than a `uint32_t` counts, in bytes and in blocks.
abbrev pub InTable : Superblock → ℕ → Type 0
InTable sb inum =
    (inum * inode_size < 2 ^ 32) × (sb.inode_table_start + inum * inode_size / block_size < 2 ^ 32)

module _ (io : BlockIo) where
  open io use {Dev, read, write, IsGood, contents}

  -- What a sync of the inode `p` leaves.
  pub record Syncs (c : InodeCache io) (p : ℕ) (out : Result FsError (Unit {0}) × InodeCache io)
      : Type 0 where
    pub good : IsGood out.1.dev
    pub balloc : out.1.balloc ≡ c.balloc
    pub sb : out.1.sb ≡ c.sb
    pub others : (q : ℕ) → q ≢ p → out.1.inodes q ≡ c.inodes q
    pub disk : (out.1.inodes p).disk ≡ (c.inodes p).disk
    pub inum : (out.1.inodes p).inum ≡ (c.inodes p).inum
    pub clean : out.0 ≡ ok tt → (out.1.inodes p).dirty ≡ false
    pub written :
        out.0 ≡ ok tt → stored (contents out.1.dev) c.sb (c.inodes p).inum ≡ (c.inodes p).disk
    pub rest :
        (i : ℕ)
        → out.0 ≡ ok tt
        → InTable c.sb i
        → i ≢ (c.inodes p).inum
        → stored (contents out.1.dev) c.sb i ≡ stored (contents c.dev) c.sb i

  module _ (c : InodeCache io) (p : ℕ) (good : IsGood c.dev) (fits : IsDiskInode (c.inodes p).disk)
      (whole : length (contents c.dev (inode_block c.sb (c.inodes p).inum)) ≡ block_size)
      (table : InTable c.sb (c.inodes p).inum) where
    block : ℕ
    block = inode_block c.sb (c.inodes p).inum

    from : ℕ
    from = inode_offset (c.inodes p).inum

    room :
        (buf : List ℕ)
        → length buf ≡ block_size
        → from + length (inode_bytes (c.inodes p).disk) ≤ length buf
    unfolding from
    room buf e = omega (arith, length-inode_bytes (c.inodes p).disk fits, e)

    new_block : List ℕ
    unfolding block from
    new_block = splice (contents c.dev block) from (inode_bytes (c.inodes p).disk)

    -- The inode's own bytes are read back.
    own : inode_of (copy new_block from inode_size) ≡ (c.inodes p).disk
    unfolding new_block
    own =
        let e : length (inode_bytes (c.inodes p).disk) ≡ inode_size =
          length-inode_bytes (c.inodes p).disk fits in
        ap (λ n. inode_of (copy new_block from n)) (sym e)
        ∙ ap inode_of (
            copy-splice (contents c.dev block) (inode_bytes (c.inodes p).disk) from
              (room (contents c.dev block) whole))
        ∙ inode_of-inode_bytes (c.inodes p).disk fits

    -- Another inode's bytes are as they were, where it lies in the same block.
    other :
        (i : ℕ)
        → InTable c.sb i
        → i ≢ (c.inodes p).inum
        → inode_block c.sb i ≡ block
        → copy new_block (inode_offset i) inode_size
          ≡ copy (contents c.dev block) (inode_offset i) inode_size
    unfolding new_block block from
    other i t ne same =
        copy-splice_ne (contents c.dev block) (inode_bytes (c.inodes p).disk) from (inode_offset i)
          inode_size (room (contents c.dev block) whole)
          (ground (arith, length-inode_bytes (c.inodes p).disk fits))

    after :
        (dev' : Dev)
        → contents dev' block ≡ new_block
        → ((q : ℕ) → q ≢ block → contents dev' q ≡ contents c.dev q)
        → (i : ℕ) → InTable c.sb i
        → i ≢ (c.inodes p).inum
        → stored (contents dev') c.sb i ≡ stored (contents c.dev) c.sb i
    unfolding stored
    after dev' e rest i t ne = elim (ℕ_discrete (inode_block c.sb i) block) [
      | yes same ↦
          ap (λ b. inode_of (copy b (inode_offset i) inode_size)) (ap (contents dev') same ∙ e)
          ∙ ap inode_of (other i t ne same)
          ∙ ap (λ b. inode_of (copy (contents c.dev b) (inode_offset i) inode_size)) (sym same)
      | no away ↦
          ap (λ b. inode_of (copy b (inode_offset i) inode_size)) (rest (inode_block c.sb i) away)
    ]

    finish_sync-Syncs :
        (r : Result Errno (Unit {0})) (dev' : Dev)
        → IsGood dev'
        → (r ≡ ok tt → contents dev' block ≡ new_block)
        → ((q : ℕ) → q ≢ block → contents dev' q ≡ contents c.dev q)
        → Syncs c p (finish_sync io r p (record c { dev = dev' }))
    unfolding finish_sync block from
    finish_sync-Syncs (err e) dev' g w o = record {
      good = g;
      balloc = refl;
      sb = refl;
      others = λ q ne. refl;
      disk = refl;
      inum = refl;
      clean = λ h. cc;
      written = λ h. cc;
      rest = λ i h t ne. cc;
    }
    finish_sync-Syncs (ok u) dev' g w o = record {
      good = g;
      balloc = refl;
      sb = refl;
      others = λ q ne. ground arith;
      disk = ground arith;
      inum = ground arith;
      clean = λ h. ground arith;
      written = λ h. unfold stored in ap (λ b. inode_of (copy b from inode_size)) (w refl) ∙ own;
      rest = λ i h t ne. after dev' (w refl) o i t ne;
    }

    write_back-Syncs :
        (r : Result Errno (List ℕ)) (dev' : Dev)
        → IsGood dev'
        → ((q : ℕ) → contents dev' q ≡ contents c.dev q)
        → ((l : List ℕ) → r ≡ ok l → l ≡ contents c.dev block)
        → Syncs c p (write_back io r p (record c { dev = dev' }))
    unfolding write_back
    write_back-Syncs (err e) dev' g same got = record {
      good = g;
      balloc = refl;
      sb = refl;
      others = λ q ne. refl;
      disk = refl;
      inum = refl;
      clean = λ h. cc;
      written = λ h. cc;
      rest = λ i h t ne. cc;
    }
    write_back-Syncs (ok l) dev' g same got =
        let content = splice l from (inode_bytes (c.inodes p).disk) in
        let e : content ≡ new_block =
          unfold new_block in
          ap (λ b. splice b from (inode_bytes (c.inodes p).disk)) (got l refl) in
        unfold block from in
        finish_sync-Syncs (write block content dev').0 (write block content dev').1
          (io.write_good block content dev' g) (λ h. io.write_data block content dev' g h ∙ e)
          (λ q ne. io.write_contents block q content dev' g ne ∙ same q)

    -- On a good device, for an inode of the table whose fields fit and whose block of the table is
    -- whole, if the inode is valid and dirty, a sync that succeeds stores it on the device, where it
    -- is read back as it is, leaves all other inodes of the table as they were, and makes it clean;
    -- whether it succeeds or fails, no other inode of the pool changes, nor what this one holds.
    pub inode_sync-Syncs :
        (c.inodes p).valid ≡ true → (c.inodes p).dirty ≡ true → Syncs c p (inode_sync io p c)
    unfolding inode_sync block
    inode_sync-Syncs v d =
        rw (v, d)
          (write_back-Syncs (read block c.dev).0 (read block c.dev).1
            (io.read_good block c.dev good) (λ q. io.read_contents block q c.dev good)
            (λ l h. io.read_data block c.dev l good h))

  -- What a sync never changes, however it ends.
  pub record Keeps (c : InodeCache io) (c' : InodeCache io) : Type 0 where
    pub good : IsGood c'.dev
    pub sb : c'.sb ≡ c.sb

  written-Keeps :
      (c c' : InodeCache io) (r : Result Errno (Unit {0})) (p : ℕ)
      → IsGood c'.dev
      → c'.sb ≡ c.sb
      → Keeps c (finish_sync io r p c').1
  unfolding finish_sync
  written-Keeps c c' (ok u) p g e = record { good = g; sb = e }
  written-Keeps c c' (err x) p g e = record { good = g; sb = e }

  read-Keeps :
      (c : InodeCache io) (dev' : Dev) (r : Result Errno (List ℕ)) (p : ℕ)
      → IsGood dev'
      → Keeps c (write_back io r p (record c { dev = dev' })).1
  unfolding write_back
  read-Keeps c dev' (err x) p g = record { good = g; sb = refl }
  read-Keeps c dev' (ok l) p g = written-Keeps c _ _ p (io.write_good _ _ dev' g) refl

  pub inode_sync-Keeps : (c : InodeCache io) (p : ℕ) → IsGood c.dev → Keeps c (inode_sync io p c).1
  unfolding inode_sync
  inode_sync-Keeps c p g = elim (Bool-cases (not (c.inodes p).valid || not (c.inodes p).dirty)) [
    | inl idle ↦ rw idle (record { good = g; sb = refl })
    | inr busy ↦ rw busy (read-Keeps c _ _ p (io.read_good _ c.dev g))
  ]
