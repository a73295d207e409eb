-- ===== src/Fuse/Requests.antt =====
-- src/fuse_ops.c: the table of operations, `modernfs_init_ops`, as one function on requests; and
-- what a file system that is mounted read-only does with them.
pub mod ReadOnly
use nano_fs.Prelude.{ℕ, Bool, true, false, Option, none, some, List, [], ◌∷◌, Result, ok, err}
use nano_fs.BlockIo.{BlockIo}
use nano_fs.InodeCache.{InodeCache}
use nano_fs.Path.{Str}
use nano_fs.Context.{Rust, FsContext, fs_context_destroy}
use nano_fs.Fuse.{FuseError, Call, Operation}
use nano_fs.Fuse.Attributes.{
  Stat, Statvfs, Filler, modernfs_getattr, modernfs_readdir, modernfs_open, modernfs_release,
  modernfs_utimens, modernfs_chmod, modernfs_chown, modernfs_statfs, modernfs_fsync,
}
use nano_fs.Fuse.Names.{modernfs_mkdir, modernfs_rmdir, modernfs_create, modernfs_unlink}
use nano_fs.Fuse.Files.{modernfs_read, modernfs_truncate}
use nano_fs.Fuse.Write.{modernfs_write}

-- `struct fuse_operations`, without init and destroy. `S` is what a `filler` fills.
pub data Request (S : Type 0) : Type 0 where
  getattr : Str → Request S
  readdir : Str → Filler S → S → Request S
  mkdir : Str → ℕ → Request S
  rmdir : Str → Request S
  create : Str → ℕ → Request S
  open_file : Str → Request S
  read : ℕ → ℕ → ℕ → Request S
  write : ℕ → ℕ → List ℕ → Request S
  unlink_file : Str → Request S
  release_file : Request S
  truncate : Str → ℕ → Request S
  statfs : Request S
  utimens : Str → Option (ℕ × ℕ) → Request S
  chmod : Str → ℕ → Request S
  chown : Str → ℕ → ℕ → Request S
  fsync : Request S

pub data Reply (S : Type 0) : Type 0 where
  attributes : Stat → Reply S
  listing : S → Reply S
  handle : ℕ → Reply S
  bytes : List ℕ → Reply S
  count : ℕ → Reply S
  statistics : Statvfs → Reply S
  nothing : Reply S

pub reply_with :
    {A C S : Type 0} → (A → Reply S) → Result FuseError A × C → Result FuseError (Reply S) × C
reply_with f (ok a, c) = (ok (f a), c)
reply_with f (err e, c) = (err e, c)

module _ (io : BlockIo) (rust : Rust io.Dev) where
  pub modernfs_destroy : FsContext io rust → InodeCache io
  modernfs_destroy ctx = fs_context_destroy io rust ctx

  module _ {S : Type 0} where
    pub serve : Call → Request S → Operation io rust (Reply S)
    unfolding reply_with
    serve call (getattr path) ctx = reply_with attributes (modernfs_getattr io rust call path ctx)
    serve call (readdir path filler s) ctx =
        reply_with listing (modernfs_readdir io rust call path filler s ctx)
    serve call (mkdir path mode) ctx =
        reply_with (λ u. nothing) (modernfs_mkdir io call rust path mode ctx)
    serve call (rmdir path) ctx = reply_with (λ u. nothing) (modernfs_rmdir io call rust path ctx)
    serve call (create path mode) ctx =
        reply_with handle (modernfs_create io call rust path mode ctx)
    serve call (open_file path) ctx = reply_with handle (modernfs_open io rust call path ctx)
    serve call (read fh offset size) ctx =
        reply_with bytes (modernfs_read io call rust fh offset size ctx)
    serve call (write fh offset src) ctx =
        reply_with count (modernfs_write io rust call fh offset src ctx)
    serve call (unlink_file path) ctx =
        reply_with (λ u. nothing) (modernfs_unlink io call rust path ctx)
    serve call release_file ctx = reply_with (λ u. nothing) (modernfs_release io rust ctx)
    serve call (truncate path size) ctx =
        reply_with (λ u. nothing) (modernfs_truncate io call rust path size ctx)
    serve call statfs ctx = reply_with statistics (modernfs_statfs io rust ctx)
    serve call (utimens path tv) ctx =
        reply_with (λ u. nothing) (modernfs_utimens io rust call path tv ctx)
    serve call (chmod path mode) ctx =
        reply_with (λ u. nothing) (modernfs_chmod io rust call path mode ctx)
    serve call (chown path uid gid) ctx =
        reply_with (λ u. nothing) (modernfs_chown io rust call path uid gid ctx)
    serve call fsync ctx = reply_with (λ u. nothing) (modernfs_fsync io rust ctx)

    -- Requests one after the other, each with its call.
    pub serve_all :
        List (Call × Request S)
        → FsContext io rust
        → List (Result FuseError (Reply S)) × FsContext io rust
    unfolding serve
    serve_all [] ctx = ([], ctx)
    serve_all ((call, q) ∷ rest) ctx =
        let (r, ctx') = serve call q ctx in let (rs, last) = serve_all rest ctx' in (r ∷ rs, last)
