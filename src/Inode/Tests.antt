-- ===== src/Inode/Tests.antt =====
-- `inode.c` on a file of 5000 bytes, whose first block is block 2 of the device and whose second
-- is a hole.
use nano_fs.Prelude.{replicate, ◌≡◌, refl, true, false, arith, ok, [], ◌∷◌, ◌/◌}
use nano_fs.Types.{inode_type_file, block_size}
use nano_fs.Os.Ram.{ram, ram-Laws}
use nano_fs.BlockIo.{BlockIo}
use nano_fs.BlockDev.{blkdev_open}
use nano_fs.BlockDev.Io.{device_io, blkdev_open-IsGood}
use nano_fs.Inode
use nano_fs.Inode.{Inode, Fs, inode_bmap, inode_read}
use nano_fs.Inode.Kept.{Looks}
use nano_fs.Inode.Lookup.{mapped, inode_bmap-Looks}
use nano_fs.Inode.Read.{ReadsFile, inode_read-ReadsFile}

abbrev io : BlockIo
io = device_io ram ram-Laws

abbrev file : Inode
file = record {
  inum = 5;
  disk = record {
    mode = 420;
    uid = 0;
    gid = 0;
    nlink = 1;
    kind = inode_type_file;
    flags = 0;
    reserved = 0;
    size = 5000;
    blocks = 1;
    atime = 0;
    mtime = 0;
    ctime = 0;
    direct = 2 ∷ 0 ∷ 0 ∷ 0 ∷ 0 ∷ 0 ∷ 0 ∷ 0 ∷ 0 ∷ 0 ∷ 0 ∷ 0 ∷ [];
    indirect = 0;
    double_indirect = 0;
    padding = replicate 20 0;
  };
  ref_count = 1;
  valid = true;
  dirty = false;
}

abbrev opened : Fs io
opened = record {
  balloc = record {
    bitmap = 5 ∷ [];
    bitmap_blocks = 1;
    total_blocks = 8;
    free_blocks = 6;
    data_start = 10;
    bitmap_start = 3;
    alloc_count = 2;
    free_count = 0;
  };
  dev = blkdev_open ram 73728 (λ b. b ∷ 7 ∷ 8 ∷ []);
  inode = file;
}

opened-IsGood : io.IsGood opened.dev
opened-IsGood = (blkdev_open-IsGood ram ram-Laws 73728 (λ b. b ∷ 7 ∷ 8 ∷ [])).0

first_is_two : (inode_bmap io 100 false opened).0 ≡ ok 2
unfolding inode_bmap nano_fs.Inode.bmap_index nano_fs.Inode.bmap_direct
first_is_two = refl

inode_bmap-Looks_example :
    Looks io opened
      (mapped (io.contents opened.dev) file.disk (100 / block_size))
      (inode_bmap io 100 false opened)
inode_bmap-Looks_example = inode_bmap-Looks io opened 100 opened-IsGood (omega arith)

inode_read-ReadsFile_example : ReadsFile io opened 77 1 3 (inode_read io 77 1 3 opened)
inode_read-ReadsFile_example =
    inode_read-ReadsFile io opened 77 1 3 opened-IsGood (omega arith) (omega arith)
