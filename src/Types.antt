-- ===== src/Types.antt =====
-- include/modernfs/types.h and the states of include/modernfs/superblock.h: the constants and the
-- structures on disk.
pub mod Bytes
pub mod Tests
use nano_fs.Prelude.{ℕ, List}

abbrev pub block_size : ℕ
block_size = 4096

abbrev pub max_filename : ℕ
max_filename = 255

abbrev pub inode_size : ℕ
inode_size = 128

abbrev pub superblock_block : ℕ
superblock_block = 0

abbrev pub superblock_magic : ℕ
superblock_magic = 0x4D4F_4446

-- `superblock_t`; the field for the constant's name `block_size` is `block_bytes`.
pub record Superblock : Type 0 where
  pub magic : ℕ
  pub version : ℕ
  pub block_bytes : ℕ
  pub total_blocks : ℕ
  pub free_blocks : ℕ
  pub journal_start : ℕ
  pub journal_blocks : ℕ
  pub inode_bitmap_start : ℕ
  pub inode_bitmap_blocks : ℕ
  pub data_bitmap_start : ℕ
  pub data_bitmap_blocks : ℕ
  pub inode_table_start : ℕ
  pub inode_table_blocks : ℕ
  pub data_start : ℕ
  pub data_blocks : ℕ
  pub total_inodes : ℕ
  pub free_inodes : ℕ
  pub first_inode : ℕ
  pub root_inum : ℕ
  pub state : ℕ
  pub mount_time : ℕ
  pub write_time : ℕ
  pub mount_count : ℕ
  pub padding : List ℕ

abbrev pub inode_type_file : ℕ
inode_type_file = 1

abbrev pub inode_type_dir : ℕ
inode_type_dir = 2

abbrev pub inode_type_symlink : ℕ
inode_type_symlink = 3

abbrev pub inode_direct_blocks : ℕ
inode_direct_blocks = 12

-- `disk_inode_t`; the field `type` is `kind`. `direct` has 12 entries.
pub record DiskInode : Type 0 where
  pub mode : ℕ
  pub uid : ℕ
  pub gid : ℕ
  pub nlink : ℕ
  pub kind : ℕ
  pub flags : ℕ
  pub reserved : ℕ
  pub size : ℕ
  pub blocks : ℕ
  pub atime : ℕ
  pub mtime : ℕ
  pub ctime : ℕ
  pub direct : List ℕ
  pub indirect : ℕ
  pub double_indirect : ℕ
  pub padding : List ℕ
