-- ===== src/Fuse/Attributes.antt =====
-- src/fuse_ops.c: the operations on attributes, and those that only read a name.
pub mod Quiet
use Prim.Native.Nat.{bit_or}
use nano_fs.Prelude.{
  ℕ, ◌-◌, ◌^◌, Bool, true, false, not, Option, none, some, List, Result, ok, err, FsError, Errno,
  ◌==◌, if◌then◌else◌,
}
use nano_fs.Types.{DiskInode, block_size, inode_type_file, inode_type_dir}
use nano_fs.BlockIo.{BlockIo}
use nano_fs.Inode.{Inode, Fs, M, inode_truncate}
use nano_fs.InodeCache.{InodeCache, on_inode}
use nano_fs.Path.{Str}
use nano_fs.Directory.Iterate.{Callback, dir_iterate}
use nano_fs.Context.{Rust, FsContext, fs_context_sync, fs_context_statfs}
use nano_fs.Fuse.{
  FuseError, hangs, errno, code_enoent, code_enotdir, code_eisdir, fs_code, errno_code, Call, u16,
  permissions, Handler, failing, putting, return_zero, change_disk, at_path, Operation, on_cache,
  unless_read_only,
}

abbrev pub s_ifdir : ℕ
s_ifdir = 0x4000

abbrev pub s_ifreg : ℕ
s_ifreg = 0x8000

-- `struct stat`; the fields that are not named here are 0.
pub record Stat : Type 0 where
  pub st_ino : ℕ
  pub st_mode : ℕ
  pub st_nlink : ℕ
  pub st_uid : ℕ
  pub st_gid : ℕ
  pub st_size : ℕ
  pub st_blocks : ℕ
  pub st_blksize : ℕ
  pub st_atime : ℕ
  pub st_mtime : ℕ
  pub st_ctime : ℕ

pub inode_to_stat : Inode → Stat
inode_to_stat inode =
    let d = inode.disk in
    record {
      st_ino = inode.inum;
      st_mode = bit_or (if d.kind == inode_type_dir then s_ifdir else s_ifreg) d.mode;
      st_nlink = d.nlink;
      st_uid = d.uid;
      st_gid = d.gid;
      st_size = d.size;
      st_blocks = d.blocks;
      st_blksize = block_size;
      st_atime = d.atime;
      st_mtime = d.mtime;
      st_ctime = d.ctime;
    }

-- `struct statvfs`
pub record Statvfs : Type 0 where
  pub f_bsize : ℕ
  pub f_frsize : ℕ
  pub f_blocks : ℕ
  pub f_bfree : ℕ
  pub f_bavail : ℕ
  pub f_files : ℕ
  pub f_ffree : ℕ
  pub f_favail : ℕ
  pub f_namemax : ℕ

-- FUSE's `filler`, over what is behind `buf`: the name, `st_ino` and `st_mode`, and whether it returns a value that is
-- not 0.
abbrev pub Filler : Type 0 → Type 0
Filler S = Str → ℕ → ℕ → S → Bool × S

-- `iterate_callback`; its value that is not 0 is -1.
pub iterate_callback : {S : Type 0} → Filler S → Callback S (Unit {0})
iterate_callback filler name inum s =
    let (full, s') = filler name inum s_ifdir s in (if full then some tt else none, s')

-- `ret < 0 ? ret : 0`
list_result : {S : Type 0} → Result FsError (Option (Unit {0})) → S → Result FuseError S
list_result (err e) s = err (errno (fs_code e))
list_result (ok (some u)) s = err (errno 1)
list_result (ok none) s = ok s

module _ (io : BlockIo) where
  -- `dir_iterate` as an operation on an inode of the pool.
  iterating : {S : Type 0} → Call → Filler S → S → M io (Result FuseError S)
  unfolding iterate_callback list_result
  iterating call filler s fs =
      let (r, out) = dir_iterate io call.now (call.stack 1) (iterate_callback filler) s fs in
      (ok (list_result r out.0), out.1)

  replied : {S : Type 0} → Result FsError (Result FuseError S) → Result FuseError S
  replied (err e) = err (errno (fs_code e))
  replied (ok r) = r

  pub list_dir : {S : Type 0} → Call → Filler S → S → ℕ → Handler io S
  unfolding iterating replied
  list_dir call filler s p c =
      let (r, c') = on_inode io p (iterating call filler s) c in
      if not ((c.inodes p).disk.kind == inode_type_dir)
      then putting io p (failing io code_enotdir) c
      else putting io p (λ c''. (replied r, c'')) c'

  module _ (rust : Rust io.Dev) where
    unfoldable pub modernfs_getattr : Call → Str → Operation io rust Stat
    modernfs_getattr call path ctx =
        on_cache io rust
          (at_path io call ctx.root_inum path
            (λ p c. putting io p (λ c'. (ok (inode_to_stat (c.inodes p)), c')) c))
          ctx

    -- The filled buffer.
    unfoldable pub modernfs_readdir : {S : Type 0} → Call → Str → Filler S → S → Operation io rust S
    unfolding list_dir
    modernfs_readdir call path filler s ctx =
        on_cache io rust (at_path io call ctx.root_inum path (list_dir call filler s)) ctx

    -- `fi->fh`
    unfoldable pub modernfs_open : Call → Str → Operation io rust ℕ
    modernfs_open call path ctx =
        on_cache io rust
          (at_path io call ctx.root_inum path (λ p c.
            if not ((c.inodes p).disk.kind == inode_type_file)
            then putting io p (failing io code_eisdir) c
            else putting io p (λ c'. (ok (c.inodes p).inum, c')) c))
          ctx

    unfoldable pub modernfs_release : Operation io rust (Unit {0})
    modernfs_release ctx = (ok tt, ctx)

    -- A change of the inode at `path`.
    unfoldable pub changing : Call → Str → (DiskInode → DiskInode) → Operation io rust (Unit {0})
    changing call path f = unless_read_only io rust (λ ctx.
        on_cache io rust
          (at_path io call ctx.root_inum path
            (λ p c. putting io p (return_zero io) (change_disk io p f c)))
          ctx)

    -- `tv`: the times of the last access and of the last change, or NULL.
    unfoldable pub modernfs_utimens : Call → Str → Option (ℕ × ℕ) → Operation io rust (Unit {0})
    unfolding changing
    modernfs_utimens call path none =
        changing call path (λ d. record d { atime = call.now; mtime = call.now; ctime = call.now })
    modernfs_utimens call path (some tv) =
        changing call path (λ d. record d { atime = tv.0; mtime = tv.1; ctime = call.now })

    unfoldable pub modernfs_chmod : Call → Str → ℕ → Operation io rust (Unit {0})
    unfolding changing
    modernfs_chmod call path mode =
        changing call path (λ d. record d { mode = permissions mode; ctime = call.now })

    -- `(uid_t)-1` leaves the user as it is; the fields on disk have 16 bits.
    new_owner : ℕ → ℕ → ℕ
    new_owner id old = if id == 2 ^ 32 - 1 then old else u16 id

    unfoldable pub modernfs_chown : Call → Str → ℕ → ℕ → Operation io rust (Unit {0})
    unfolding changing new_owner
    modernfs_chown call path uid gid =
        changing call path
          (λ d. record d { uid = new_owner uid d.uid; gid = new_owner gid d.gid; ctime = call.now })

    unfoldable pub modernfs_statfs : Operation io rust Statvfs
    modernfs_statfs ctx =
        let ((data_total, data_free, inode_total, inode_free), ctx') =
          fs_context_statfs io rust ctx in
        (
          ok (record {
            f_bsize = block_size;
            f_frsize = block_size;
            f_blocks = data_total;
            f_bfree = data_free;
            f_bavail = data_free;
            f_files = inode_total;
            f_ffree = inode_free;
            f_favail = inode_free;
            f_namemax = 255;
          }),
          ctx',
        )

    synced_code : Result Errno (Unit {0}) → Result FuseError (Unit {0})
    synced_code (ok u) = ok u
    synced_code (err e) = err (errno (errno_code e))

    unfoldable pub modernfs_fsync : Operation io rust (Unit {0})
    unfolding synced_code
    modernfs_fsync ctx = let (r, ctx') = fs_context_sync io rust ctx in (synced_code r, ctx')
