-- ===== src/Fuse/Requests/ReadOnly.antt =====
-- A file system that is mounted read-only.
use nano_fs.Prelude.{
  ℕ, ◌≡◌, refl, ap, ◌∙◌, true, Option, none, some, List, [], ◌∷◌, Result, ok, err,
}
use nano_fs.BlockIo.{BlockIo}
use nano_fs.Path.{Str}
use nano_fs.Context.{Rust, FsContext}
use nano_fs.Fuse.{FuseError, errno, code_erofs, Call, Operation, unless_read_only}
use nano_fs.Fuse.Attributes.{
  changing, modernfs_release, modernfs_utimens, modernfs_chmod, modernfs_chown,
}
use nano_fs.Fuse.Attributes.Quiet.{
  modernfs_getattr-Unchanged, modernfs_readdir-Unchanged, modernfs_open-Unchanged,
  modernfs_statfs-Unchanged, modernfs_fsync-Unchanged,
}
use nano_fs.Fuse.Files.Quiet.{modernfs_read-Unchanged}
use nano_fs.Fuse.Quiet.{Unchanged, Unchanged-refl, Unchanged-trans}
use nano_fs.Fuse.Names.{in_parent, modernfs_mkdir, modernfs_rmdir, modernfs_create, modernfs_unlink}
use nano_fs.Fuse.Files.{modernfs_truncate}
use nano_fs.Fuse.Write.{modernfs_write}
use nano_fs.Fuse.Requests.{
  Request, getattr, readdir, mkdir, rmdir, create, open_file, read, write, unlink_file,
  release_file, truncate, statfs, utimens, chmod, chown, fsync, Reply, reply_with, serve, serve_all,
}

-- The requests that are to change files, directories or their attributes.
pub data Changes {S : Type 0} : Request S → Type 0 where
  mkdir_changes : (path : Str) (mode : ℕ) → Changes (mkdir path mode)
  rmdir_changes : (path : Str) → Changes (rmdir path)
  create_changes : (path : Str) (mode : ℕ) → Changes (create path mode)
  write_changes : (fh offset : ℕ) (src : List ℕ) → Changes (write fh offset src)
  unlink_changes : (path : Str) → Changes (unlink_file path)
  truncate_changes : (path : Str) (size : ℕ) → Changes (truncate path size)
  utimens_changes : (path : Str) (tv : Option (ℕ × ℕ)) → Changes (utimens path tv)
  chmod_changes : (path : Str) (mode : ℕ) → Changes (chmod path mode)
  chown_changes : (path : Str) (uid gid : ℕ) → Changes (chown path uid gid)

module _ (io : BlockIo) (rust : Rust io.Dev) where
  module _ (ctx : FsContext io rust) (e : ctx.read_only ≡ true) where
    refused :
        {A : Type 0} (op : Operation io rust A)
        → unless_read_only io rust op ctx ≡ (err (errno code_erofs), ctx)
    unfolding unless_read_only
    refused op = rw e refl

    reply-refused :
        {A S : Type 0} (f : A → Reply S) (op : Operation io rust A)
        → reply_with f (unless_read_only io rust op ctx) ≡ (err (errno code_erofs), ctx)
    unfolding reply_with
    reply-refused f op = rw (refused op) refl

    pub serve-Changes :
        {S : Type 0} (call : Call) (q : Request S)
        → Changes q
        → serve io rust call q ctx ≡ (err (errno code_erofs), ctx)
    unfolding serve modernfs_mkdir in_parent modernfs_rmdir modernfs_create modernfs_write
        modernfs_unlink modernfs_truncate modernfs_utimens modernfs_chmod modernfs_chown changing
    serve-Changes call _ (mkdir_changes path mode) = reply-refused _ _
    serve-Changes call _ (rmdir_changes path) = reply-refused _ _
    serve-Changes call _ (create_changes path mode) = reply-refused _ _
    serve-Changes call _ (write_changes fh offset src) = reply-refused _ _
    serve-Changes call _ (unlink_changes path) = reply-refused _ _
    serve-Changes call _ (truncate_changes path size) = reply-refused _ _
    serve-Changes call _ (utimens_changes path none) = reply-refused _ _
    serve-Changes call _ (utimens_changes path (some tv)) = reply-refused _ _
    serve-Changes call _ (chmod_changes path mode) = reply-refused _ _
    serve-Changes call _ (chown_changes path uid gid) = reply-refused _ _

  reply-ctx :
      {A S C : Type 0} (f : A → Reply S) (out : Result FuseError A × C)
      → (reply_with f out).1 ≡ out.1
  unfolding reply_with
  reply-ctx f (ok a, c) = refl
  reply-ctx f (err e, c) = refl

  Unchanged-reply :
      {A S : Type 0} (f : A → Reply S) (ctx : FsContext io rust)
      (out : Result FuseError A × FsContext io rust)
      → Unchanged io rust ctx out.1
      → Unchanged io rust ctx (reply_with f out).1
  Unchanged-reply f ctx out u = rw (reply-ctx f out) u

  module _ {S : Type 0} (call : Call) (ctx : FsContext io rust) (e : ctx.read_only ≡ true)
      (g : io.IsGood ctx.icache.dev) where
    Unchanged-Changes :
        (q : Request S) → Changes q → Unchanged io rust ctx (serve io rust call q ctx).1
    Unchanged-Changes q h = rw (serve-Changes ctx e call q h) (Unchanged-refl io rust ctx g)

    serve-Unchanged : (q : Request S) → Unchanged io rust ctx (serve io rust call q ctx).1
    unfolding serve modernfs_release reply_with
    serve-Unchanged (getattr path) =
        Unchanged-reply _ ctx _ (modernfs_getattr-Unchanged io rust call ctx g path)
    serve-Unchanged (readdir path filler s) =
        Unchanged-reply _ ctx _ (modernfs_readdir-Unchanged io rust call ctx g path filler s)
    serve-Unchanged (mkdir path mode) = Unchanged-Changes _ (mkdir_changes path mode)
    serve-Unchanged (rmdir path) = Unchanged-Changes _ (rmdir_changes path)
    serve-Unchanged (create path mode) = Unchanged-Changes _ (create_changes path mode)
    serve-Unchanged (open_file path) =
        Unchanged-reply _ ctx _ (modernfs_open-Unchanged io rust call ctx g path)
    serve-Unchanged (read fh offset size) =
        Unchanged-reply _ ctx _ (modernfs_read-Unchanged io call rust ctx fh offset size g)
    serve-Unchanged (write fh offset src) = Unchanged-Changes _ (write_changes fh offset src)
    serve-Unchanged (unlink_file path) = Unchanged-Changes _ (unlink_changes path)
    serve-Unchanged release_file = Unchanged-refl io rust ctx g
    serve-Unchanged (truncate path size) = Unchanged-Changes _ (truncate_changes path size)
    serve-Unchanged statfs = Unchanged-reply _ ctx _ (modernfs_statfs-Unchanged io rust call ctx g)
    serve-Unchanged (utimens path tv) = Unchanged-Changes _ (utimens_changes path tv)
    serve-Unchanged (chmod path mode) = Unchanged-Changes _ (chmod_changes path mode)
    serve-Unchanged (chown path uid gid) = Unchanged-Changes _ (chown_changes path uid gid)
    serve-Unchanged fsync = Unchanged-reply _ ctx _ (modernfs_fsync-Unchanged io rust call ctx g e)

  -- The replies, one for each request, where those that are to change something fail with EROFS.
  pub data Refused {S : Type 0}
      : List (Call × Request S) → List (Result FuseError (Reply S)) → Type 0 where
    none_left : Refused [] []
    refused_one :
        (call : Call) (q : Request S) (r : Result FuseError (Reply S))
        (qs : List (Call × Request S)) (rs : List (Result FuseError (Reply S)))
        → (Changes q → r ≡ err (errno code_erofs))
        → Refused qs rs
        → Refused ((call, q) ∷ qs) (r ∷ rs)

  -- On a file system that is mounted read-only, from a good device, for any requests in any order, each with any buffers
  -- and clock: every request that is to change a file, a directory or an attribute fails with EROFS; and after all of
  -- them the allocator, the inode bitmap, the cache's superblock, the journal and the mount are as they were, and the
  -- device is good.
  pub serve_all-Refused :
      {S : Type 0} (qs : List (Call × Request S)) (ctx : FsContext io rust)
      → ctx.read_only ≡ true
      → io.IsGood ctx.icache.dev
      → let out = serve_all io rust qs ctx in Refused qs out.0 × Unchanged io rust ctx out.1
  unfolding serve_all
  serve_all-Refused [] ctx e g = (none_left, Unchanged-refl io rust ctx g)
  serve_all-Refused ((call, q) ∷ qs) ctx e g =
      let u = serve-Unchanged call ctx e g q in
      let rest = serve_all-Refused qs _ (u.read_only ∙ e) u.icache.good in
      (
        refused_one call q _ qs _ (λ h. ap (λ out. out.0) (serve-Changes ctx e call q h)) rest.0,
        Unchanged-trans io rust u rest.1,
      )
