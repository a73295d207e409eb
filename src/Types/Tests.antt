-- ===== src/Types/Tests.antt =====
-- The inode of a new directory, and an image's superblock, as bytes.
use nano_fs.Prelude.{ℕ, ◌^◌, ◌<◌, refl, length-replicate, arith, [], ◌∷◌, replicate}
use nano_fs.Types.{Superblock, DiskInode, inode_type_dir, superblock_magic, block_size}
use nano_fs.Types.Bytes.{IsDiskInode, IsSuperblock}

abbrev pub directory : DiskInode
directory = record {
  mode = 16877;
  uid = 1000;
  gid = 1000;
  nlink = 2;
  kind = inode_type_dir;
  flags = 0;
  reserved = 0;
  size = 4096;
  blocks = 1;
  atime = 1700000000;
  mtime = 1700000000;
  ctime = 1700000000;
  direct = 2 ∷ 0 ∷ 0 ∷ 0 ∷ 0 ∷ 0 ∷ 0 ∷ 0 ∷ 0 ∷ 0 ∷ 0 ∷ 0 ∷ [];
  indirect = 0;
  double_indirect = 0;
  padding = replicate 20 0;
}

pub directory-IsDiskInode : IsDiskInode directory
directory-IsDiskInode = record {
  mode = omega arith;
  uid = omega arith;
  gid = omega arith;
  nlink = omega arith;
  kind = omega arith;
  flags = omega arith;
  reserved = omega arith;
  size = omega arith;
  blocks = omega arith;
  atime = omega arith;
  mtime = omega arith;
  ctime = omega arith;
  twelve = refl;
  direct = omega arith;
  indirect = omega arith;
  double_indirect = omega arith;
  padding = refl;
}

-- An image of 4096 blocks.
abbrev pub image : Superblock
image = record {
  magic = superblock_magic;
  version = 1;
  block_bytes = block_size;
  total_blocks = 4096;
  free_blocks = 3573;
  journal_start = 1;
  journal_blocks = 8192;
  inode_bitmap_start = 8193;
  inode_bitmap_blocks = 1;
  data_bitmap_start = 8194;
  data_bitmap_blocks = 1;
  inode_table_start = 3;
  inode_table_blocks = 512;
  data_start = 523;
  data_blocks = 3573;
  total_inodes = 16384;
  free_inodes = 16383;
  first_inode = 1;
  root_inum = 1;
  state = 1;
  mount_time = 0;
  write_time = 5;
  mount_count = 0;
  padding = replicate 3988 0;
}

pub image-IsSuperblock : (now : ℕ) → now < 2 ^ 64 → IsSuperblock (record image { write_time = now })
image-IsSuperblock now lt = record {
  fields = omega arith;
  padding = length-replicate {A = ℕ} 3988 0;
}
