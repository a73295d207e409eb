-- ===== src/Mkfs.antt =====
-- src/mkfs.c: the contents of a new image. The image file has been made and opened, `calloc` does not
-- fail, and the device is any that fills `BlockIo`. The two readings of `time(NULL)` are arguments.
-- Output, and the closing of the device, are left out.
pub mod Layout
pub mod Fills
pub mod Blocks
pub mod Image
pub mod Root
pub mod Formats
pub mod Succeeds
mod Tests
use Prim.Native.Nat.{bit_or}
use nano_fs.Prelude.{
  ℕ, zero, suc, ◌+◌, ◌-◌, ◌*◌, ◌/◌, ◌%◌, ◌^◌, ◌||◌, Bool, Option, none, some, List, [], ◌∷◌, ◌++◌,
  Result, ok, err, Errno, einval, eio, ltb, if◌then◌else◌, u32, sub_u32, get_or, set, length,
  replicate,
}
use nano_fs.Types.{Superblock, DiskInode, block_size, inode_type_dir, max_filename}
use nano_fs.Types.Bytes.{inode_bytes}
use nano_fs.Os.{Block}
use nano_fs.BlockIo.{BlockIo}
use nano_fs.Struct.{splice}
use nano_fs.Words.{set_word}
use nano_fs.Inode.{zeros}
use nano_fs.InodeCache.{zero_disk}
use nano_fs.Path.{Str, dot}
use nano_fs.Directory.{Dirent, dirent_bytes, dirent_bytes_count}
use nano_fs.Superblock.{superblock_init, superblock_write}

-- `bitmap[0] |= bits`
pub or_first : ℕ → List ℕ → List ℕ
or_first bits bitmap = set bitmap 0 (bit_or (get_or bitmap 0 0) bits)

-- The first block of either bitmap.
pub first_inode_bits : Block
unfolding or_first
first_inode_bits = or_first 2 (or_first 1 zeros)

pub first_data_bits : Block
unfolding or_first
first_data_bits = or_first 1 zeros

-- `disk_inode_t root`
pub root_inode : Superblock → ℕ → DiskInode
root_inode sb now = record zero_disk {
  kind = inode_type_dir;
  mode = 493;
  nlink = 2;
  uid = 0;
  gid = 0;
  size = block_size;
  blocks = 1;
  atime = now;
  mtime = now;
  ctime = now;
  direct = set (replicate 12 0) 0 sb.data_start;
}

-- Inode 1 in the first block of the table.
pub root_table : Superblock → ℕ → Block
unfolding root_inode
root_table sb now = splice zeros 128 (inode_bytes (root_inode sb now))

-- `dot_size` and `dotdot_size`
abbrev pub padded_size : ℕ → ℕ
padded_size name_len = (dirent_bytes_count + name_len + 7) / 8 * 8

-- An entry of the root, of the root.
pub root_entry : Str → ℕ → Dirent
root_entry name rec_len = record {
  inum = 1;
  rec_len = rec_len;
  name_len = length name;
  file_type = 0;
  name = name ++ replicate (max_filename - length name) 0;
}

pub dot_entry : Dirent
unfolding root_entry
dot_entry = root_entry (dot ∷ []) (padded_size 1)

pub dotdot_entry : Dirent
unfolding root_entry
dotdot_entry = root_entry (dot ∷ dot ∷ []) (block_size - padded_size 1)

pub root_block : Block
unfolding dot_entry dotdot_entry
root_block =
    splice (splice zeros 0 (dirent_bytes dot_entry)) (padded_size 1) (dirent_bytes dotdot_entry)

-- `journal_sb`: the magic number JRNL, version, block size, number of blocks, the sequence number of 64 bits, the
-- head and the tail.
pub journal_superblock : ℕ → Block
journal_superblock journal_blocks =
    let b0 = set_word zeros 0 0x4A52_4E4C in
    let b1 = set_word b0 1 1 in
    let b2 = set_word b1 2 block_size in
    let b3 = set_word b2 3 journal_blocks in
    let b5 = set_word (set_word b3 4 0) 5 0 in let b6 = set_word b5 6 1 in set_word b6 7 1

-- The blocks of an image of so many megabytes, if `main` makes it.
pub image_blocks : ℕ → Option ℕ
image_blocks size_mb =
    if ltb size_mb 1 || ltb 16384 size_mb
    then none
    else some (u32 (size_mb * 1024 * 1024 / block_size))

module _ (io : BlockIo) where
  open io use {Dev, write, sync}

  abbrev pub Step : Type 0
  Step = Dev → Result Errno (Unit {0}) × Dev

  next_if : Result Errno (Unit {0}) → Step → Step
  next_if (err e) next dev = (err e, dev)
  next_if (ok u) next dev = next dev

  -- The second step if the first one succeeds.
  pub and_then : Step → Step → Step
  unfolding next_if
  and_then step next dev = let (r, dev') = step dev in next_if r next dev'

  -- `blkdev_write`; a failure is EIO.
  pub write_block : ℕ → Block → Step
  write_block block content dev =
      let (r, dev') = write block content dev in (elim r [ ok u ↦ ok u | err e ↦ err eio ], dev')

  -- `blkdev_write(dev, start + i, content)` for the rest of a region; after the first write the buffer holds zeros.
  pub fill_from : ℕ → ℕ → ℕ → Block → Step
  unfolding and_then
  fill_from zero start i content dev = (ok tt, dev)
  fill_from (suc rounds) start i content dev =
      and_then (write_block (u32 (start + i)) content) (fill_from rounds start (i + 1) zeros) dev

  pub init_inode_bitmap : Superblock → Step
  unfolding fill_from
  init_inode_bitmap sb = fill_from sb.inode_bitmap_blocks sb.inode_bitmap_start 0 first_inode_bits

  pub init_data_bitmap : Superblock → Step
  unfolding fill_from
  init_data_bitmap sb = fill_from sb.data_bitmap_blocks sb.data_bitmap_start 0 first_data_bits

  pub init_inode_table : ℕ → Superblock → Step
  unfolding and_then fill_from
  init_inode_table now sb =
      and_then (fill_from sb.inode_table_blocks sb.inode_table_start 0 zeros)
        (write_block sb.inode_table_start (root_table sb now))

  pub init_root_directory : Superblock → Step
  init_root_directory sb = write_block sb.data_start root_block

  pub init_journal : Superblock → Step
  unfolding and_then fill_from
  init_journal sb =
      and_then (write_block sb.journal_start (journal_superblock sb.journal_blocks))
        (fill_from (sb.journal_blocks - 1) sb.journal_start 1 zeros)

  -- `blkdev_sync`, whose result is ignored.
  pub sync_ignored : Step
  sync_ignored dev = (ok tt, (sync dev).1)

  -- The steps of `main` with the superblock.
  pub write_image : ℕ → Superblock → Step
  unfolding and_then sync_ignored
  write_image now sb = and_then (superblock_write io sb) (
      and_then (init_journal sb) (
        and_then (init_inode_bitmap sb) (
          and_then (init_data_bitmap sb)
            (and_then (init_inode_table now sb) (and_then (init_root_directory sb) sync_ignored)))))

  -- With the size that `main` accepts.
  sized : Option ℕ → ℕ → ℕ → Step
  unfolding write_image
  sized none now now' dev = (err einval, dev)
  sized (some total_blocks) now now' dev = write_image now' (superblock_init total_blocks now) dev

  -- `main` from the open device on; any error is the exit code 1.
  pub mkfs : ℕ → ℕ → ℕ → Step
  unfolding sized image_blocks
  mkfs size_mb now now' = sized (image_blocks size_mb) now now'
