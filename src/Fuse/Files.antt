-- ===== src/Fuse/Files.antt =====
-- src/fuse_ops.c: reading and truncating a file.
pub mod Quiet
use nano_fs.Prelude.{
  ℕ, ◌+◌, ◌%◌, ◌^◌, Bool, true, false, not, Option, none, some, List, Result, ok, err, FsError,
  ◌==◌, if◌then◌else◌, u32, u64,
}
use nano_fs.Types.{inode_type_file}
use nano_fs.BlockIo.{BlockIo}
use nano_fs.Inode.{inode_read, inode_truncate}
use nano_fs.InodeCache.{InodeCache, Stop, null, hang, on_inode, inode_get, inode_put}
use nano_fs.Path.{Str}
use nano_fs.Context.{Rust, FsContext}
use nano_fs.Fuse.{
  FuseError, errno, code_enoent, code_eisdir, fs_code, Call, Handler, failing, putting, change_disk,
  or_code, at_path, Operation, on_cache, unless_read_only,
}

module _ (io : BlockIo) (call : Call) where
  -- A code of inode.h that is returned as it is.
  pub as_errno : {A : Type 0} → Result FsError A → Result FuseError A
  as_errno (ok a) = ok a
  as_errno (err e) = err (errno (fs_code e))

  read_inode : ℕ → ℕ → ℕ → Handler io (List ℕ)
  unfolding as_errno
  read_inode offset size p c =
      let (r, c') = on_inode io p (inode_read io call.now offset size) c in
      putting io p (λ c''. (as_errno r, c''))
        (change_disk io p (λ d. record d { atime = call.now }) c')

  -- The times change if the truncation succeeds.
  truncated : Result FsError (Unit {0}) → ℕ → InodeCache io → InodeCache io
  truncated (err e) p c = c
  truncated (ok u) p c = change_disk io p (λ d. record d { mtime = call.now; ctime = call.now }) c

  truncate_inode : ℕ → ℕ → Handler io (Unit {0})
  unfolding as_errno truncated
  truncate_inode size p c =
      let (r, c') = on_inode io p (inode_truncate io size) c in
      if not ((c.inodes p).disk.kind == inode_type_file)
      then putting io p (failing io code_eisdir) c
      else putting io p (λ c''. (as_errno r, c'')) (truncated r p c')

  module _ (rust : Rust io.Dev) where
    -- The inode of the file handle, to read `size` bytes from `offset` on. A call that has got the inode is counted.
    unfoldable pub count_read :
        Result FuseError (List ℕ) → Result Stop ℕ → FsContext io rust → FsContext io rust
    count_read r (ok p) ctx = record ctx { read_count = u64 (ctx.read_count + 1) }
    count_read r (err s) ctx = ctx

    unfoldable pub modernfs_read : ℕ → ℕ → ℕ → Operation io rust (List ℕ)
    unfolding read_inode count_read
    modernfs_read fh offset size ctx =
        let (got, c) = inode_get io (u32 fh) ctx.icache in
        let (r, c') = or_code io code_enoent got (read_inode offset size) c in
        (r, count_read r got (record ctx { icache = c' }))

    unfoldable pub modernfs_truncate : Str → ℕ → Operation io rust (Unit {0})
    unfolding truncate_inode
    modernfs_truncate path size =
        unless_read_only io rust
          (λ ctx. on_cache io rust (at_path io call ctx.root_inum path (truncate_inode size)) ctx)
