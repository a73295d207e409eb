-- ===== src/Superblock.antt =====
-- src/superblock.c: the check of a superblock and its initial contents. `time(NULL)` is an argument.
pub mod Layout
pub mod Reload
mod Tests
use nano_fs.Prelude.{
  ℕ, ◌+◌, ◌/◌, Bool, not, Result, ok, err, Errno, einval, eio, ◌++◌, ltb, ◌==◌, if◌then◌else◌, u32,
  sub_u32, replicate,
}
use nano_fs.Types.{Superblock, block_size}
use nano_fs.Types.Bytes.{superblock_of, superblock_bytes}
use nano_fs.BlockIo.{BlockIo}

abbrev pub modernfs_magic : ℕ
modernfs_magic = 0x4D4F_4446

abbrev pub modernfs_version : ℕ
modernfs_version = 1

abbrev pub fs_state_clean : ℕ
fs_state_clean = 0

unfoldable pub superblock_validate : Superblock → Result Errno (Unit {0})
superblock_validate sb =
    if not (sb.magic == modernfs_magic)
    then err einval
    else if not (sb.version == modernfs_version)
    then err einval
    else if not (sb.block_bytes == block_size)
    then err einval
    else if not (sb.root_inum == 1)
    then err einval
    else ok tt

-- `total_inodes`: one for 256 blocks, from 256 to 16384.
pub inode_total : ℕ → ℕ
inode_total total_blocks =
    let n = sub_u32 total_blocks 100 / 256 in
    let n' = if ltb n 256 then 256 else n in if ltb 16384 n' then 16384 else n'

-- `journal_size`: an eighth of the blocks, from 256 to 2048.
pub journal_size : ℕ → ℕ
journal_size total_blocks =
    let n = total_blocks / 8 in
    let n' = if ltb 2048 n then 2048 else n in if ltb n' 256 then 256 else n'

unfoldable pub superblock_init : ℕ → ℕ → Superblock
superblock_init total_blocks now =
    let total_inodes = inode_total total_blocks in
    let inode_bitmap_blocks = u32 (total_inodes + 32767) / 32768 in
    let data_blocks = sub_u32 (sub_u32 total_blocks 1) inode_bitmap_blocks in
    let data_bitmap_estimate = u32 (data_blocks + 32767) / 32768 in
    let inode_table_blocks = u32 (total_inodes + 31) / 32 in
    let journal_blocks = journal_size total_blocks in
    let metadata_estimate =
      u32 (1 + journal_blocks + inode_bitmap_blocks + data_bitmap_estimate + inode_table_blocks) in
    let data_estimate = sub_u32 total_blocks metadata_estimate in
    let data_bitmap_blocks = u32 (data_estimate + 32767) / 32768 in
    let metadata_blocks =
      u32 (1 + journal_blocks + inode_bitmap_blocks + data_bitmap_blocks + inode_table_blocks) in
    let data_blocks = sub_u32 total_blocks metadata_blocks in
    let inode_bitmap_start = u32 (1 + journal_blocks) in
    let data_bitmap_start = u32 (inode_bitmap_start + inode_bitmap_blocks) in
    let inode_table_start = u32 (data_bitmap_start + data_bitmap_blocks) in
    record {
      magic = modernfs_magic;
      version = modernfs_version;
      block_bytes = block_size;
      total_blocks = total_blocks;
      free_blocks = sub_u32 data_blocks 1;
      journal_start = 1;
      journal_blocks = journal_blocks;
      inode_bitmap_start = inode_bitmap_start;
      inode_bitmap_blocks = inode_bitmap_blocks;
      data_bitmap_start = data_bitmap_start;
      data_bitmap_blocks = data_bitmap_blocks;
      inode_table_start = inode_table_start;
      inode_table_blocks = inode_table_blocks;
      data_start = u32 (inode_table_start + inode_table_blocks);
      data_blocks = data_blocks;
      total_inodes = total_inodes;
      free_inodes = sub_u32 total_inodes 2;
      first_inode = 2;
      root_inum = 1;
      state = fs_state_clean;
      mount_time = now;
      write_time = now;
      mount_count = 0;
      padding = replicate 3988 0;
    }

module _ (io : BlockIo) where
  open io use {Dev, read, write, sync}

  -- Any failure is EIO.
  pub superblock_read : Dev → Result Errno Superblock × Dev
  superblock_read dev =
      let (r, dev') = read 0 dev in
      (elim r [ ok content ↦ ok (superblock_of content) | err e ↦ err eio ], dev')

  synced : Result Errno (Unit {0}) → Dev → Result Errno (Unit {0}) × Dev
  synced (err e) dev = (err eio, dev)
  synced (ok u) dev = let (r, dev') = sync dev in (elim r [ ok u ↦ ok u | err e ↦ err eio ], dev')

  pub superblock_write : Superblock → Dev → Result Errno (Unit {0}) × Dev
  unfolding synced
  superblock_write sb dev =
      let (r, dev') = write 0 (superblock_bytes sb ++ replicate 8 0) dev in synced r dev'
