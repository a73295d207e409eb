-- ===== src/Inode/Write/Tests.antt =====
-- Three bytes written to a file of one block, block 2 of an array of blocks.
use nano_fs.Prelude.{
  ℕ, zero, suc, ◌/◌, ◌≡◌, ◌≢◌, refl, sym, ◌∙◌, true, false, none, [], ◌∷◌, ◌==◌, if◌then◌else◌,
  get_or, length, replicate, length-replicate, All-get_or, All-replicate, List, arith,
}
use nano_fs.Types.{DiskInode, block_size, inode_type_file}
use nano_fs.Os.{Block}
use nano_fs.BlockIo.Ram.{array_io}
use nano_fs.Struct.{splice, copy}
use nano_fs.Inode.{
  Fs, ◌>>=◌, ◌>>◌, continue, pure, modify, load, store, or_eio, inode_bmap, bmap_index, bmap_direct,
  to_read, inode_read, read_loop, read_piece,
}
use nano_fs.Inode.Lookup.{mapped}
use nano_fs.Inode.Map.{WellMapped, Apart}
use nano_fs.Inode.Write.{put, old_content, write_piece, write_loop, inode_write}
use nano_fs.Inode.Write.Overwrite.{Ready}
use nano_fs.Inode.Write.Back.{WritesFile, inode_write-WritesFile, inode_read-inode_write}

abbrev disk : DiskInode
disk = record {
  mode = 420;
  uid = 0;
  gid = 0;
  nlink = 1;
  kind = inode_type_file;
  flags = 0;
  reserved = 0;
  size = 101;
  blocks = 1;
  atime = 0;
  mtime = 0;
  ctime = 0;
  direct = 2 ∷ replicate 11 0;
  indirect = 0;
  double_indirect = 0;
  padding = replicate 20 0;
}

-- Block 0 names block 2, but the file has no double indirect block.
abbrev blocks : ℕ → Block
blocks b = if b == 2 then replicate block_size 0 else 2 ∷ []

abbrev opened : Fs array_io
opened = record {
  balloc = record {
    bitmap = 5 ∷ [];
    bitmap_blocks = 1;
    total_blocks = 8;
    free_blocks = 6;
    data_start = 10;
    bitmap_start = 3;
    alloc_count = 2;
    free_count = 0;
  };
  dev = blocks;
  inode = record { inum = 5; disk = disk; ref_count = 1; valid = true; dirty = false };
}

mapped_zero : mapped blocks disk 0 ≡ 2
unfolding mapped
mapped_zero = refl

no_other : (i : ℕ) → mapped blocks disk (suc i) ≡ 0
unfolding mapped
no_other i =
    let none_set : List ℕ = replicate 11 0 in
    let z : get_or none_set i 0 ≡ 0 =
      All-get_or (λ b. b ≡ 0) none_set i 0 (All-replicate (λ b. b ≡ 0) 11 0 refl) refl in
    ground arith

disk-WellMapped : WellMapped blocks disk
disk-WellMapped = record { apart = apart; own = own; whole = whole }
  where
    apart : (i : ℕ) → mapped blocks disk i ≢ 0 → Apart blocks disk (mapped blocks disk i)
    apart zero nz = rw mapped_zero (record {
      indirect = omega arith;
      double_indirect = omega arith;
      tables = λ nz j. absurd (omega arith);
    })
    apart (suc i) nz = absurd (nz (no_other i))

    own : (i j : ℕ) → mapped blocks disk i ≢ 0 → mapped blocks disk j ≡ mapped blocks disk i → j ≡ i
    own zero zero nz e = refl
    own zero (suc j) nz e = absurd (nz (sym e ∙ no_other j))
    own (suc i) j nz e = absurd (nz (no_other i))

    whole : (i : ℕ) → mapped blocks disk i ≢ 0 → length (blocks (mapped blocks disk i)) ≡ block_size
    whole zero nz = rw mapped_zero (length-replicate {A = ℕ} block_size 0)
    whole (suc i) nz = absurd (nz (no_other i))

opened-Ready : Ready array_io opened 100 (1 ∷ 2 ∷ 3 ∷ [])
opened-Ready = record {
  mapping = disk-WellMapped;
  present =
      λ x ge lt. let e : x / block_size ≡ 0 = omega arith in rw (e, mapped_zero) (omega arith);
  good = tt;
}

inode_write-WritesFile_example :
    WritesFile array_io opened 9 100
      (1 ∷ 2 ∷ 3 ∷ [])
      (inode_write array_io none 9 100 (1 ∷ 2 ∷ 3 ∷ []) opened)
inode_write-WritesFile_example =
    inode_write-WritesFile array_io opened 9 100 (1 ∷ 2 ∷ 3 ∷ []) opened-Ready (omega arith)

inode_read-inode_write_example : ◌≡◌ {A = List ℕ} (1 ∷ 2 ∷ 3 ∷ []) (1 ∷ 2 ∷ 3 ∷ [])
unfolding inode_write write_loop write_piece old_content put store load or_eio ◌>>=◌ ◌>>◌ continue
    pure modify inode_bmap bmap_index bmap_direct to_read splice copy inode_read read_loop
    read_piece
inode_read-inode_write_example =
    inode_read-inode_write array_io opened 9 11 100 3 (1 ∷ 2 ∷ 3 ∷ []) (1 ∷ 2 ∷ 3 ∷ []) opened-Ready
      (omega arith) refl refl
