-- ===== src/Fuse/Attributes/Quiet.antt =====
-- The operations that only read attributes and directories allocate nothing.
use nano_fs.Prelude.{
  ℕ, ◌≡◌, refl, sym, subst, Errno, true, false, not, Bool-cases, inl, inr, ◌==◌, if◌then◌else◌,
  Bool, Result,
}
use nano_fs.Types.{inode_type_file, inode_type_dir}
use nano_fs.BlockIo.{BlockIo}
use nano_fs.InodeCache.Unallocated.{Unallocated-refl, Unallocated-trans, Unallocated-on_inode}
use nano_fs.Path.{Str}
use nano_fs.Directory.Iterate.Good.{dir_iterate-Keeps}
use nano_fs.Context.{Rust, FsContext, fs_context_statfs, fs_context_sync}
use nano_fs.Fuse.{Call, code_enotdir, code_eisdir}
use nano_fs.Fuse.Attributes.{
  Filler, iterate_callback, iterating, list_dir, modernfs_getattr, modernfs_readdir, modernfs_open,
  modernfs_statfs, modernfs_fsync,
}
use nano_fs.Fuse.Quiet.{
  Quiet, Quiet-failing, Quiet-reply, Quiet-putting, Quiet-at_path, Unchanged, Unchanged-refl,
  Unchanged-on_cache,
}

module _ (io : BlockIo) where
  if_true : {A : Type 0} (b : Bool) (x y : A) → b ≡ true → (if b then x else y) ≡ x
  if_true true x y e = refl
  if_true false x y e = cc

  Quiet-list_dir :
      {S : Type 0} (call : Call) (filler : Filler S) (s : S) (p : ℕ)
      → Quiet io (list_dir io call filler s p)
  unfolding list_dir iterating
  Quiet-list_dir call filler s p = record {
    from = λ c g.
        let u =
          Unallocated-on_inode io p (iterating io call filler s) c
            (λ fs g' e.
              dir_iterate-Keeps io c.balloc (iterate_callback filler) call.now (call.stack 1) s fs
                g' e)
            g in
        elim (Bool-cases (not ((c.inodes p).disk.kind == inode_type_dir))) [
          | inl other ↦ rw other ((Quiet-putting io p _ (Quiet-failing io code_enotdir)).from c g)
          | inr dir ↦
              rw dir
                (Unallocated-trans io u ((Quiet-putting io p _ (Quiet-reply io _)).from _ u.good))
        ];
  }

  module _ (rust : Rust io.Dev) (call : Call) (ctx : FsContext io rust)
      (g : io.IsGood ctx.icache.dev) where
    pub modernfs_getattr-Unchanged :
        (path : Str) → Unchanged io rust ctx (modernfs_getattr io rust call path ctx).1
    unfolding modernfs_getattr
    modernfs_getattr-Unchanged path =
        Unchanged-on_cache io rust _ ctx
          (Quiet-at_path io call ctx.root_inum path _
            (λ p. record { from = λ c g. (Quiet-putting io p _ (Quiet-reply io _)).from c g }))
          g

    pub modernfs_readdir-Unchanged :
        {S : Type 0} (path : Str) (filler : Filler S) (s : S)
        → Unchanged io rust ctx (modernfs_readdir io rust call path filler s ctx).1
    unfolding modernfs_readdir
    modernfs_readdir-Unchanged path filler s =
        Unchanged-on_cache io rust _ ctx
          (Quiet-at_path io call ctx.root_inum path _ (λ p. Quiet-list_dir call filler s p)) g

    pub modernfs_open-Unchanged :
        (path : Str) → Unchanged io rust ctx (modernfs_open io rust call path ctx).1
    unfolding modernfs_open
    modernfs_open-Unchanged path =
        Unchanged-on_cache io rust _ ctx
          (Quiet-at_path io call ctx.root_inum path _ (λ p. record {
            from = λ c g. elim (Bool-cases (not ((c.inodes p).disk.kind == inode_type_file))) [
              | inl other ↦
                  rw other ((Quiet-putting io p _ (Quiet-failing io code_eisdir)).from c g)
              | inr file ↦ rw file ((Quiet-putting io p _ (Quiet-reply io _)).from c g)
            ];
          }))
          g

    pub modernfs_statfs-Unchanged : Unchanged io rust ctx (modernfs_statfs io rust ctx).1
    unfolding modernfs_statfs fs_context_statfs
    modernfs_statfs-Unchanged = record {
      icache = Unallocated-refl io ctx.icache g;
      journal = refl;
      extent_alloc = refl;
      root_inum = refl;
      read_only = refl;
    }

    pub modernfs_fsync-Unchanged :
        ctx.read_only ≡ true → Unchanged io rust ctx (modernfs_fsync io rust ctx).1
    unfolding modernfs_fsync fs_context_sync
    modernfs_fsync-Unchanged e =
        subst (λ out. Unchanged io rust ctx out.1)
          (sym (if_true {A = Result Errno (Unit {0}) × FsContext io rust} ctx.read_only _ _ e))
          (Unchanged-refl io rust ctx g)
