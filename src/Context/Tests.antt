-- ===== src/Context/Tests.antt =====
-- Mounting an image in memory, with a journal that does nothing.
use nano_fs.Prelude.{ℕ, true, false, some, [], ◌==◌, if◌then◌else◌, replicate, ◌++◌}
use nano_fs.Types.Bytes.{superblock_of, superblock_bytes, inode_bytes}
use nano_fs.Types.Tests.{image, directory}
use nano_fs.Os.{Block}
use nano_fs.BlockIo.Ram.{array_io}
use nano_fs.Context.{Rust, fs_context_init}
use nano_fs.Context.Mounted.{Returns, fs_context_init-Returns}

abbrev pub idle : Rust (ℕ → Block)
idle = record {
  Journal = Unit {0};
  Extent = Unit {0};
  Transaction = Unit {0};
  journal_init = λ start blocks dev. (some tt, dev);
  journal_recover = λ journal dev. (true, journal, dev);
  journal_checkpoint = λ journal dev. (true, journal, dev);
  journal_begin = λ journal. (some tt, journal);
  journal_write = λ block content txn. (true, txn);
  journal_commit = λ txn journal dev. (true, journal, dev);
  journal_abort = λ txn journal. journal;
  extent_alloc_init = λ start blocks dev. (some tt, dev);
  extent_sync = λ extent dev. (true, extent, dev);
}

-- The superblock in block 0, and inode 1 in the first block of the inode table.
abbrev blocks : ℕ → Block
blocks b =
    if b == 0
    then superblock_bytes image ++ replicate 8 0
    else if b == 3
    then replicate 128 0 ++ inode_bytes directory
    else []

fs_context_init-Returns_example :
    Returns array_io idle false
      (superblock_of (blocks 0))
      (fs_context_init array_io idle false blocks).0
fs_context_init-Returns_example = fs_context_init-Returns array_io idle false blocks tt
