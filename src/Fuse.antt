-- ===== src/Fuse.antt =====
-- src/fuse_ops.c: what the operations share. An operation fails with an `errno`, here the number
-- behind the sign, or does not return. The inode locks are left out. A call comes with
-- what its functions find around them: `depth` and the buffers `stack i` as in the modules that
-- use them, the clock, which stands still during the call, and the user of `fuse_get_context()`.
pub mod Attributes
pub mod Quiet
pub mod Names
pub mod Files
pub mod Write
pub mod Requests
mod Tests
use nano_fs.Prelude.{
  ℕ, ◌+◌, ◌%◌, ◌^◌, Bool, true, false, Option, none, some, List, Result, ok, err, Errno, einval,
  eio, enospc, enomem, FsError, fs_error, fs_enospc, fs_einval, fs_eio, fs_enoent, if◌then◌else◌,
}
use nano_fs.Types.{DiskInode}
use nano_fs.BlockIo.{BlockIo}
use nano_fs.InodeCache.{InodeCache, Stop, null, hang, at, inode_put}
use nano_fs.Path.{Str}
use nano_fs.Resolve.{path_resolve, path_resolve_parent}
use nano_fs.Context.{Rust, FsContext}

-- The `E*` numbers of Linux.
pub data FuseError : Type 0 where
  hangs : FuseError
  errno : ℕ → FuseError

abbrev pub code_enoent : ℕ
code_enoent = 2

abbrev pub code_eio : ℕ
code_eio = 5

abbrev pub code_eexist : ℕ
code_eexist = 17

abbrev pub code_enotdir : ℕ
code_enotdir = 20

abbrev pub code_eisdir : ℕ
code_eisdir = 21

abbrev pub code_enospc : ℕ
code_enospc = 28

abbrev pub code_erofs : ℕ
code_erofs = 30

abbrev pub code_enotempty : ℕ
code_enotempty = 39

-- A `MODERNFS_*` code that is returned as it is.
pub fs_code : FsError → ℕ
fs_code fs_error = 1
fs_code fs_enospc = 2
fs_code fs_einval = 3
fs_code fs_eio = 4
fs_code fs_enoent = 5

-- A negated errno of the block layer.
pub errno_code : Errno → ℕ
errno_code einval = 22
errno_code eio = 5
errno_code enospc = 28
errno_code enomem = 12

pub record Call : Type 0 where
  pub depth : ℕ
  pub now : ℕ
  pub stack : ℕ → List ℕ
  pub uid : ℕ
  pub gid : ℕ

-- What a `uint16_t` keeps.
abbrev pub u16 : ℕ → ℕ
u16 n = n % 2 ^ 16

-- `mode & 0777`
abbrev pub permissions : ℕ → ℕ
permissions mode = mode % 512

module _ (io : BlockIo) where
  -- A part of an operation that returns an `A`; it needs the inode cache only.
  abbrev pub Handler : Type 0 → Type 0
  Handler A = InodeCache io → Result FuseError A × InodeCache io

  pub failing : {A : Type 0} → ℕ → Handler A
  failing code c = (err (errno code), c)

  pub hanging : {A : Type 0} → Handler A
  hanging c = (err hangs, c)

  -- After `inode_put` of the inode `p`.
  pub putting : {A : Type 0} → ℕ → Handler A → Handler A
  putting p k c = k (inode_put io p c)

  pub return_zero : Handler (Unit {0})
  return_zero c = (ok tt, c)

  -- `inode->disk....; inode->dirty = true`
  pub change_disk : ℕ → (DiskInode → DiskInode) → InodeCache io → InodeCache io
  change_disk p f c = at io c p (λ i. record i { disk = f i.disk; dirty = true })

  -- Where a function has returned an inode or NULL, and NULL is the error `code`.
  pub or_code : {A : Type 0} → ℕ → Result Stop ℕ → (ℕ → Handler A) → Handler A
  unfolding failing hanging
  or_code code (err hang) k = hanging
  or_code code (err null) k = failing code
  or_code code (ok p) k = k p

  -- `path_resolve`, whose NULL is ENOENT.
  pub at_path : {A : Type 0} → Call → ℕ → Str → (ℕ → Handler A) → Handler A
  unfolding or_code
  at_path call root path k c =
      let (r, c') = path_resolve io call.depth call.now (call.stack 0) root root false path c in
      or_code code_enoent r k c'

  parent_found :
      {A : Type 0} → Result FsError (Option (ℕ × Str)) → (ℕ → Str → Handler A) → Handler A
  unfolding failing hanging
  parent_found (err e) k = failing code_enoent
  parent_found (ok none) k = hanging
  parent_found (ok (some (p, name))) k = k p name

  -- `path_resolve_parent`, whose errors are ENOENT.
  pub at_parent : {A : Type 0} → Call → ℕ → Str → (ℕ → Str → Handler A) → Handler A
  unfolding parent_found
  at_parent call root path k c =
      let (r, c') = path_resolve_parent io call.depth call.now (call.stack 0) root root path c in
      parent_found r k c'

  module _ (rust : Rust io.Dev) where
    abbrev pub Operation : Type 0 → Type 0
    Operation A = FsContext io rust → Result FuseError A × FsContext io rust

    unfoldable pub on_cache : {A : Type 0} → Handler A → Operation A
    on_cache h ctx = let (r, c) = h ctx.icache in (r, record ctx { icache = c })

    -- `if (ctx->read_only) return -EROFS;`
    unfoldable pub unless_read_only : {A : Type 0} → Operation A → Operation A
    unless_read_only op ctx = if ctx.read_only then (err (errno code_erofs), ctx) else op ctx
