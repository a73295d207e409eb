-- ===== src/Fuse/Files/Quiet.antt =====
-- Reading a file allocates nothing.
use nano_fs.Prelude.{ℕ, refl, Result, ok, err, u32, List}
use nano_fs.BlockIo.{BlockIo}
use nano_fs.Inode.{inode_read}
use nano_fs.Inode.Steady.{inode_read-Keeps}
use nano_fs.InodeCache.{InodeCache, Stop, inode_get}
use nano_fs.InodeCache.Unallocated.{
  Unallocated, Unallocated-trans, Unallocated-inode_get, Unallocated-on_inode,
}
use nano_fs.Context.{Rust, FsContext}
use nano_fs.Fuse.{Call, FuseError, or_code, code_enoent}
use nano_fs.Fuse.Files.{read_inode, count_read, modernfs_read}
use nano_fs.Fuse.Quiet.{
  Quiet, Quiet-reply, Quiet-putting, Quiet-or_code, Unallocated-change_disk, Unchanged,
}

module _ (io : BlockIo) (call : Call) where
  Quiet-read_inode : (offset size p : ℕ) → Quiet io (read_inode io call offset size p)
  unfolding read_inode
  Quiet-read_inode offset size p = record {
    from = λ c g.
        let u =
          Unallocated-on_inode io p (inode_read io call.now offset size) c
            (λ s g' e. inode_read-Keeps io s c.balloc call.now offset size g' e) g in
        let v = Unallocated-change_disk io p _ _ u.good in
        Unallocated-trans io u
          (Unallocated-trans io v ((Quiet-putting io p _ (Quiet-reply io _)).from _ v.good));
  }

  module _ (rust : Rust io.Dev) (ctx : FsContext io rust) where
    Unchanged-count_read :
        (r : Result FuseError (List ℕ)) (got : Result Stop ℕ) (c : InodeCache io)
        → Unallocated io ctx.icache c
        → Unchanged io rust ctx (count_read io call rust r got (record ctx { icache = c }))
    unfolding count_read
    Unchanged-count_read r (ok p) c u = record {
      icache = u;
      journal = refl;
      extent_alloc = refl;
      root_inum = refl;
      read_only = refl;
    }
    Unchanged-count_read r (err s) c u = record {
      icache = u;
      journal = refl;
      extent_alloc = refl;
      root_inum = refl;
      read_only = refl;
    }

    pub modernfs_read-Unchanged :
        (fh offset size : ℕ)
        → io.IsGood ctx.icache.dev
        → Unchanged io rust ctx (modernfs_read io call rust fh offset size ctx).1
    unfolding modernfs_read
    modernfs_read-Unchanged fh offset size g =
        let got = inode_get io (u32 fh) ctx.icache in
        let u = Unallocated-inode_get io (u32 fh) ctx.icache g in
        let q =
          Quiet-or_code io code_enoent got.0 (read_inode io call offset size)
            (Quiet-read_inode offset size) in
        let out = or_code io code_enoent got.0 (read_inode io call offset size) got.1 in
        Unchanged-count_read out.0 got.0 out.1 (Unallocated-trans io u (q.from got.1 u.good))
