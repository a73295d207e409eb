-- ===== src/Fuse/Quiet.antt =====
-- Which parts of operations allocate nothing.
use nano_fs.Prelude.{ℕ, ◌≡◌, ◌∙◌, refl, false, Result, ok, err}
use nano_fs.Types.{DiskInode}
use nano_fs.BlockIo.{BlockIo}
use nano_fs.InodeCache.{InodeCache, Stop, null, hang}
use nano_fs.InodeCache.Unallocated.{
  Unallocated, Unallocated-refl, Unallocated-trans, Unallocated-inode_put,
}
use nano_fs.Path.{Str}
use nano_fs.Resolve.{path_resolve}
use nano_fs.Resolve.Valid.{path_resolve-IsLoaded}
use nano_fs.Fuse.{
  Call, Handler, failing, hanging, putting, change_disk, or_code, at_path, on_cache, FuseError,
  code_enoent,
}
use nano_fs.Context.{Rust, FsContext}

module _ (io : BlockIo) where
  pub record Quiet {A : Type 0} (h : Handler io A) : Type 0 where
    pub from : (c : InodeCache io) → io.IsGood c.dev → Unallocated io c (h c).1

  pub Quiet-failing : {A : Type 0} (code : ℕ) → Quiet {A = A} (failing io code)
  unfolding failing
  Quiet-failing code = record { from = λ c g. Unallocated-refl io c g }

  Quiet-hanging : {A : Type 0} → Quiet {A = A} (hanging io)
  unfolding hanging
  Quiet-hanging = record { from = λ c g. Unallocated-refl io c g }

  pub Quiet-reply :
      {A : Type 0} (f : InodeCache io → Result FuseError A) → Quiet {A = A} (λ c. (f c, c))
  Quiet-reply f = record { from = λ c g. Unallocated-refl io c g }

  pub Quiet-putting : {A : Type 0} (p : ℕ) (h : Handler io A) → Quiet h → Quiet (putting io p h)
  unfolding putting
  Quiet-putting p h q = record {
    from =
        λ c g. let u = Unallocated-inode_put io p c g in Unallocated-trans io u (q.from _ u.good);
  }

  pub Quiet-or_code :
      {A : Type 0} (code : ℕ) (r : Result Stop ℕ) (k : ℕ → Handler io A)
      → ((p : ℕ) → Quiet (k p))
      → Quiet (or_code io code r k)
  unfolding or_code
  Quiet-or_code code (err hang) k q = Quiet-hanging
  Quiet-or_code code (err null) k q = Quiet-failing code
  Quiet-or_code code (ok p) k q = q p

  pub Quiet-at_path :
      {A : Type 0} (call : Call) (root : ℕ) (path : Str) (k : ℕ → Handler io A)
      → ((p : ℕ) → Quiet (k p))
      → Quiet (at_path io call root path k)
  unfolding at_path
  Quiet-at_path call root path k q = record {
    from = λ c g.
        let out = path_resolve io call.depth call.now (call.stack 0) root root false path c in
        let l =
          path_resolve-IsLoaded io call.depth call.now (call.stack 0) root root false path c g in
        let q' = Quiet-or_code code_enoent out.0 k q in
        Unallocated-trans io l.same (q'.from out.1 l.same.good);
  }

  -- A change of an inode's own data.
  pub Unallocated-change_disk :
      (p : ℕ) (f : DiskInode → DiskInode) (c : InodeCache io)
      → io.IsGood c.dev
      → Unallocated io c (change_disk io p f c)
  unfolding change_disk
  Unallocated-change_disk p f c g = record { good = g; balloc = refl; bitmap = refl; sb = refl }

  module _ (rust : Rust io.Dev) where
    -- From `ctx` to `ctx'` nothing was allocated or freed, and the mount is the same.
    pub record Unchanged (ctx ctx' : FsContext io rust) : Type 0 where
      pub icache : Unallocated io ctx.icache ctx'.icache
      pub journal : ctx'.journal ≡ ctx.journal
      pub extent_alloc : ctx'.extent_alloc ≡ ctx.extent_alloc
      pub root_inum : ctx'.root_inum ≡ ctx.root_inum
      pub read_only : ctx'.read_only ≡ ctx.read_only

    pub Unchanged-refl : (ctx : FsContext io rust) → io.IsGood ctx.icache.dev → Unchanged ctx ctx
    Unchanged-refl ctx g = record {
      icache = Unallocated-refl io ctx.icache g;
      journal = refl;
      extent_alloc = refl;
      root_inum = refl;
      read_only = refl;
    }

    pub Unchanged-trans :
        {a b c : FsContext io rust} → Unchanged a b → Unchanged b c → Unchanged a c
    Unchanged-trans u v = record {
      icache = Unallocated-trans io u.icache v.icache;
      journal = v.journal ∙ u.journal;
      extent_alloc = v.extent_alloc ∙ u.extent_alloc;
      root_inum = v.root_inum ∙ u.root_inum;
      read_only = v.read_only ∙ u.read_only;
    }

    pub Unchanged-on_cache :
        {A : Type 0} (h : Handler io A) (ctx : FsContext io rust)
        → Quiet h
        → io.IsGood ctx.icache.dev
        → Unchanged ctx (on_cache io rust h ctx).1
    unfolding on_cache
    Unchanged-on_cache h ctx q g = record {
      icache = q.from ctx.icache g;
      journal = refl;
      extent_alloc = refl;
      root_inum = refl;
      read_only = refl;
    }
