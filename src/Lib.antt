-- ===== src/Lib.antt =====
-- ModernFS (NanoFS): the block layer, the inodes and the directories of a FUSE file system.
--
-- The program is a stack. `block_dev.c` reads and writes blocks of a device file through the cache
-- of `buffer_cache.c`; `block_alloc.c` hands out data blocks from a bitmap that it keeps on the
-- device; `inode.c` keeps a cache of inodes and maps offsets of a file to blocks, over the
-- allocator and the device; `directory.c` reads and writes the entries of a directory as the bytes
-- of its inode; paths and the FUSE operations stand on that; `superblock.c` lays the disk out and
-- `mkfs.c` writes a new image.
--
-- Files and what they model (paths from the repository's root):
--   Struct        the bytes of packed structs, and `memcpy` into and out of a buffer
--   Types         include/modernfs/types.h: constants, `superblock_t`, `disk_inode_t`; Bytes has
--                 the bytes of the two
--   Bitmap        src/block_alloc.c: bitmap_test, bitmap_set, bitmap_clear, over a list of bytes
--   BlockAlloc    src/block_alloc.c: the allocator as a record, one function per operation; Disk
--                 loads and syncs its bitmap over any device that fills `BlockIo`
--   Superblock    src/superblock.c: superblock_init, superblock_validate, and read and write
--   Os            the system calls that the block layer makes, and `malloc`, as parameters with laws:
--                 a read that succeeds returns the block of the file, a write that succeeds stores
--                 it, a write that fails touches no other block
--   BufferCache   src/buffer_cache.c: a memory of buffer heads, hash chains and an LRU list of
--                 pointers; Inv has the invariant, and the view: a cached block, or the file's
--   BlockDev      src/block_dev.c: open, read, write, sync, the superblock, invalidation
--   BlockIo       include/modernfs/block_dev.h as the layers above use it; BlockDev.Io fills it
--   Words, Inode  src/inode.c: inode_bmap, inode_truncate, inode_read and inode_write, in a monad of
--                 the inode, the allocator and the device, in which a failure keeps what was
--                 changed before; Lookup says which block an offset is mapped to, Bytes
--                 which bytes a file has, Map and Present what a write needs of them
--   InodeCache    src/inode.c: the pool of inodes with hash chains and an LRU list, over the same
--                 device; Alloc has inode_alloc, inode_free and inode_cache_init
--   Directory     src/directory.c: entries in the bytes of a file; Update has dir_add and dir_remove,
--                 Iterate dir_iterate and dir_is_empty; Entries and Listing say what a directory
--                 holds as relations
--   Path          src/path.c: path_normalize, path_basename and path_dirname on lists of bytes
--   Resolve       src/path.c: path_resolve and path_resolve_parent, over the cache and directories
--   Context       src/fs_context.c: mounting, syncing and unmounting, over all of the above
--   Fuse          src/fuse_ops.c: the operations of the FUSE table, over a context; Attributes, Names,
--                 Files and Write have them by what they touch, Requests serves any sequence of
--                 them; an error is the number that FUSE gets, with its sign left out
--   Mkfs          src/mkfs.c: `main` from the open device on; Blocks has the blocks of a new image,
--                 Root its root directory, Fills what writing a region does to any device
-- Modules called Tests run the code on concrete inputs; Os.Ram and BlockIo.Ram are a system and a
-- device in memory.
--
-- Machine integers are natural numbers with the wrap-around written out (`u32`, `u64`). A
-- counter that goes down where the code has checked that it is not 0 is a subtraction of naturals.
-- Loops over the blocks of a bitmap recurse on the number of rounds left. The loop of `inode_read`
-- has fuel, the number of bytes to read: each round reads at least one, so it ends by itself. So has
-- the loop of `inode_write`; that of `path_normalize` has one more than the bytes of the path: each
-- component takes a byte. The walk through a block of a directory has a round for each byte of the
-- block, since an entry has at least one, and the loop over the blocks one more than the blocks of
-- the directory. A walk along a hash chain of the inode cache has one round more than the pool has
-- inodes; a chain that is longer goes round in a circle, which is the result `hang`, for a search and
-- for the removal from a chain. So is a nesting
-- of symbolic links beyond the `depth` that `path_resolve` is given, where the source crashes.
--
-- A bitmap has fewer than 2^20 blocks, so that its size in bytes fits in a `uint32_t`.
--
-- Every operation is one step: each takes the lock of its structure for its whole body, and
-- interleavings of several locks are not modelled. Left out: null pointers, since the model has
-- values; the printing of messages; ratios that are floats; `malloc` outside the cache is taken to
-- succeed; `time(NULL)` is an argument, one value for a call. The LRU lists and the hash chains of
-- the buffer cache are lists of pointers, where the source threads them through its structures.
--
-- Not modelled: the thread of background checkpoints and the closing of the device in
-- src/fs_context.c; the creation of the image file, the reading of arguments and the output of
-- src/mkfs.c; the libfuse options that `modernfs_init` sets, and the locks of an inode, in
-- src/fuse_ops.c; src/main_fuse.c, which reads arguments and starts libfuse; the Rust code in
-- rust_core and tools, which the C code calls as a library or not at all. The Rust functions that a
-- mount and a write call are an argument of Context and Fuse, with the memory of a transaction
-- beside the device while a write has one; inode_write has `rust_journal_write` as an argument.
pub mod Prelude
pub mod Struct
pub mod Types
pub mod Bitmap
pub mod BlockAlloc
pub mod Superblock
pub mod Os
pub mod BufferCache
pub mod BlockIo
pub mod BlockDev
pub mod Words
pub mod Inode
pub mod InodeCache
pub mod Path
pub mod Directory
pub mod Resolve
pub mod Context
pub mod Mkfs
pub mod Fuse
