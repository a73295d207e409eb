-- ===== src/BlockDev/Io.antt =====
-- The device fills the interface of the layers above it.
use nano_fs.Prelude.{ℕ, ◌≡◌, ◌≢◌, true, false, arith, inl, inr, Bool-cases, leb, ok, err, einval}
use nano_fs.Os.{Os, Laws, Block}
use nano_fs.BufferCache.Inv.{init-IsCoherent, view-init}
use nano_fs.BlockIo.{BlockIo}
use nano_fs.BlockDev.{BlockDevice, blkdev_read, blkdev_write, blkdev_sync, blkdev_open}
use nano_fs.BlockDev.Flat.{IsGood, contents, Reads, blkdev_read-Reads}
use nano_fs.BlockDev.Write.{Writes, blkdev_write-Writes, blkdev_sync-Syncs}

module _ (os : Os) (laws : Laws os) where
  -- A block out of range is refused, and nothing changes.
  pub read_out_of_range :
      (dev : BlockDevice os) (b : ℕ)
      → leb dev.total_blocks b ≡ true
      → blkdev_read os b dev ≡ (err einval, dev)
  unfolding blkdev_read
  read_out_of_range dev b h = rw h

  pub write_out_of_range :
      (dev : BlockDevice os) (b : ℕ) (d : Block)
      → leb dev.total_blocks b ≡ true
      → blkdev_write os b d dev ≡ (err einval, dev)
  unfolding blkdev_write
  write_out_of_range dev b d h = rw h

  -- A device that has been opened is good, and holds what the file does.
  pub blkdev_open-IsGood :
      (total_size : ℕ) (w : os.W)
      → IsGood os laws (blkdev_open os total_size w)
        × ((b : ℕ) → contents os laws (blkdev_open os total_size w) b ≡ os.file w b)
  unfolding blkdev_open
  blkdev_open-IsGood total_size w = (init-IsCoherent os 1024 w, view-init os 1024 w)

  module _ (b : ℕ) (dev : BlockDevice os) (good : IsGood os laws dev) where
    read_in : leb dev.total_blocks b ≡ false → Reads os laws dev b (blkdev_read os b dev)
    read_in h = blkdev_read-Reads os laws dev b good (ground arith)

    write_in :
        (d : Block)
        → leb dev.total_blocks b ≡ false
        → Writes os laws dev b d (blkdev_write os b d dev)
    write_in d h = blkdev_write-Writes os laws dev b d good (ground arith)

    pub io_read-IsGood : IsGood os laws (blkdev_read os b dev).1
    io_read-IsGood = elim (Bool-cases (leb dev.total_blocks b)) [
      | inl h ↦ rw (read_out_of_range dev b h) good
      | inr h ↦ (read_in h).same.coherent
    ]

    pub io_read_data : (d : Block) → (blkdev_read os b dev).0 ≡ ok d → d ≡ contents os laws dev b
    io_read_data d e = elim (Bool-cases (leb dev.total_blocks b)) [
      | inl h ↦ cc (read_out_of_range dev b h)
      | inr h ↦ (read_in h).result d e
    ]

    pub io_read_contents :
        (q : ℕ) → contents os laws (blkdev_read os b dev).1 q ≡ contents os laws dev q
    io_read_contents q = elim (Bool-cases (leb dev.total_blocks b)) [
      | inl h ↦ rw (read_out_of_range dev b h)
      | inr h ↦ (read_in h).same.views q
    ]

    pub io_write-IsGood : (d : Block) → IsGood os laws (blkdev_write os b d dev).1
    io_write-IsGood d = elim (Bool-cases (leb dev.total_blocks b)) [
      | inl h ↦ rw (write_out_of_range dev b d h) good
      | inr h ↦ (write_in d h).good
    ]

    pub io_write_data :
        (d : Block)
        → (blkdev_write os b d dev).0 ≡ ok tt
        → contents os laws (blkdev_write os b d dev).1 b ≡ d
    io_write_data d e = elim (Bool-cases (leb dev.total_blocks b)) [
      | inl h ↦ cc (write_out_of_range dev b d h)
      | inr h ↦ (write_in d h).written e
    ]

    pub io_write_contents :
        (q : ℕ) (d : Block)
        → q ≢ b
        → contents os laws (blkdev_write os b d dev).1 q ≡ contents os laws dev q
    io_write_contents q d ne = elim (Bool-cases (leb dev.total_blocks b)) [
      | inl h ↦ rw (write_out_of_range dev b d h)
      | inr h ↦ (write_in d h).others q ne
    ]

  -- The block device as the layers above see it.
  abbrev pub device_io : BlockIo
  device_io = record {
    Dev = BlockDevice os;
    read = blkdev_read os;
    write = blkdev_write os;
    sync = blkdev_sync os;
    IsGood = IsGood os laws;
    contents = contents os laws;
    read_good = io_read-IsGood;
    read_data = λ b dev d good e. io_read_data b dev good d e;
    read_contents = λ b q dev good. io_read_contents b dev good q;
    write_good = λ b d dev good. io_write-IsGood b dev good d;
    write_data = λ b d dev good e. io_write_data b dev good d e;
    write_contents = λ b q d dev good ne. io_write_contents b dev good q d ne;
    sync_good = λ dev good. (blkdev_sync-Syncs os laws dev good).good;
    sync_contents = λ q dev good. (blkdev_sync-Syncs os laws dev good).same q;
  }
