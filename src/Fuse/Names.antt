-- ===== src/Fuse/Names.antt =====
-- src/fuse_ops.c: the operations that make and remove names.
use nano_fs.Prelude.{
  ℕ, ◌+◌, ◌-◌, ◌^◌, true, not, [], ◌∷◌, Result, ok, err, FsError, ltb, ◌==◌, if◌then◌else◌,
}
use nano_fs.Types.{DiskInode, inode_type_file, inode_type_dir}
use nano_fs.BlockIo.{BlockIo}
use nano_fs.InodeCache.{InodeCache, Stop, null, hang, at, on_inode, inode_get, inode_put}
use nano_fs.InodeCache.Alloc.{inode_alloc, inode_free}
use nano_fs.Path.{Str, dot}
use nano_fs.Directory.{dir_lookup}
use nano_fs.Directory.Update.{Failure, dir_add, dir_remove}
use nano_fs.Context.{Rust}
use nano_fs.Fuse.{
  FuseError, code_enoent, code_eio, code_eexist, code_enotdir, code_eisdir, code_enospc,
  code_enotempty, fs_code, Call, u16, permissions, Handler, failing, hanging, putting, return_zero,
  change_disk, at_parent, Operation, on_cache, unless_read_only,
}

module _ (io : BlockIo) (call : Call) where
  abbrev lookup : Str → ℕ → InodeCache io → Result FsError ℕ × InodeCache io
  lookup name p = on_inode io p (dir_lookup io call.now (call.stack 1) name)

  abbrev add : ℕ → ℕ → Str → ℕ → InodeCache io → Result Failure (Unit {0}) × InodeCache io
  add i p name inum = dir_add io call.now (call.stack i) (call.stack (i + 1)) p name inum

  -- Any error of the lookup passes for the absence of the name.
  absent : Result FsError ℕ → ℕ → Handler io ℕ → Handler io ℕ
  absent (ok existing) p k = putting io p (failing io code_eexist)
  absent (err e) p k = k

  -- The inode that `inode_alloc` returned.
  allocated : Result Stop ℕ → ℕ → (ℕ → Handler io ℕ) → Handler io ℕ
  unfolding hanging
  allocated (err hang) p k = hanging io
  allocated (err null) p k = putting io p (failing io code_enospc)
  allocated (ok q) p k = k q

  -- `inode_free` of the new inode `q`, and the error.
  undo : ℕ → ℕ → ℕ → Handler io ℕ
  undo q p code c = putting io p (failing io code) (inode_free io q c).1

  -- Owner, mode and links of the new inode.
  with_mode : ℕ → ℕ → DiskInode → DiskInode
  with_mode mode nlink d = record d {
    mode = permissions mode;
    nlink = nlink;
    uid = u16 call.uid;
    gid = u16 call.gid;
  }

  -- After `dir_add` of `name` to the parent.
  after_naming : Result Failure (Unit {0}) → ℕ → ℕ → ℕ → (DiskInode → DiskInode) → Handler io ℕ
  unfolding undo hanging
  after_naming (err Failure.hangs) inum q p f = hanging io
  after_naming (err (Failure.fails e)) inum q p f = undo q p (fs_code e)
  after_naming (ok u) inum q p f =
      λ c. (ok inum, inode_put io q (inode_put io p (change_disk io p f c)))

  name_it : ℕ → ℕ → ℕ → Str → (DiskInode → DiskInode) → Handler io ℕ
  unfolding after_naming
  name_it i q p name f c =
      let inum = (c.inodes q).inum in
      let (r, c') = add i p name inum c in after_naming r inum q p f c'

  -- After `dir_add` of .. to the new directory, and of . before it.
  second_dot : Result Failure (Unit {0}) → ℕ → ℕ → Str → Handler io ℕ
  unfolding undo name_it hanging
  second_dot (err Failure.hangs) q p name = hanging io
  second_dot (err (Failure.fails e)) q p name = undo q p code_eio
  second_dot (ok u) q p name = λ c.
      name_it 6 q p name (λ d. record d { nlink = u16 (d.nlink + 1) })
        (at io c q (λ i. record i { dirty = true }))

  first_dot : Result Failure (Unit {0}) → ℕ → ℕ → Str → Handler io ℕ
  unfolding second_dot undo hanging
  first_dot (err Failure.hangs) q p name = hanging io
  first_dot (err (Failure.fails e)) q p name = undo q p code_eio
  first_dot (ok u) q p name =
      λ c. let (r, c') = add 4 q (dot ∷ dot ∷ []) (c.inodes p).inum c in second_dot r q p name c'

  -- The new directory `q`. Its entries are added before it is marked.
  make_dir : ℕ → ℕ → ℕ → Str → Handler io ℕ
  unfolding with_mode first_dot
  make_dir mode q p name c =
      let c1 = at io c q (λ i. record i { disk = with_mode mode 2 i.disk }) in
      let (r, c2) = add 2 q (dot ∷ []) (c1.inodes q).inum c1 in first_dot r q p name c2

  make_file : ℕ → ℕ → ℕ → Str → Handler io ℕ
  unfolding with_mode name_it
  make_file mode q p name c = name_it 2 q p name (λ d. d) (change_disk io q (with_mode mode 1) c)

  -- The lookup, the allocation, and what is made of the new inode.
  make : ℕ → (ℕ → ℕ → Str → Handler io ℕ) → ℕ → Str → Handler io ℕ
  unfolding absent allocated
  make kind k p name c =
      let (r, c1) = lookup name p c in
      absent r p
        (λ c'.
          let (r', c2) = inode_alloc io kind call.now c' in allocated r' p (λ q. k q p name) c2)
        c1

  mkdir_in : ℕ → ℕ → Str → Handler io ℕ
  unfolding make make_dir
  mkdir_in mode p name c =
      if not ((c.inodes p).disk.kind == inode_type_dir)
      then putting io p (failing io code_enotdir) c
      else make inode_type_dir (make_dir mode) p name c

  create_in : ℕ → ℕ → Str → Handler io ℕ
  unfolding make make_file
  create_in mode = make inode_type_file (make_file mode)

  -- After `dir_remove`; the inode `t` is freed.
  removed : Result FsError (Unit {0}) → ℕ → ℕ → (DiskInode → DiskInode) → Handler io (Unit {0})
  removed (err e) t p f = putting io t (putting io p (failing io code_eio))
  removed (ok u) t p f =
      λ c. putting io p (return_zero io) (inode_free io t (change_disk io p f c)).1

  take_out : ℕ → ℕ → Str → (DiskInode → DiskInode) → Handler io (Unit {0})
  unfolding removed
  take_out t p name f c =
      let (r, c') = on_inode io p (dir_remove io call.now (call.stack 2) name) c in
      removed r t p f c'

  -- The target that `inode_get` returned.
  target : Result Stop ℕ → ℕ → (ℕ → Handler io (Unit {0})) → Handler io (Unit {0})
  unfolding hanging
  target (err hang) p k = hanging io
  target (err null) p k = putting io p (failing io code_enoent)
  target (ok t) p k = k t

  -- The number that `dir_lookup` found; any error is ENOENT.
  found_number : Result FsError ℕ → ℕ → (ℕ → Handler io (Unit {0})) → Handler io (Unit {0})
  unfolding target
  found_number (err e) p k = putting io p (failing io code_enoent)
  found_number (ok inum) p k = λ c. let (r, c') = inode_get io inum c in target r p k c'

  at_target : ℕ → Str → (ℕ → Handler io (Unit {0})) → Handler io (Unit {0})
  unfolding found_number
  at_target p name k c = let (r, c') = lookup name p c in found_number r p k c'

  refuse : ℕ → ℕ → ℕ → Handler io (Unit {0})
  refuse t p code = putting io t (putting io p (failing io code))

  rmdir_in : ℕ → Str → Handler io (Unit {0})
  unfolding at_target refuse take_out
  rmdir_in p name = at_target p name (λ t c.
      let d = (c.inodes t).disk in
      if not (d.kind == inode_type_dir)
      then refuse t p code_enotdir c
      else if ltb 2 d.nlink
      then refuse t p code_enotempty c
      else take_out t p name (λ d'. record d' { nlink = u16 (d'.nlink + 2 ^ 16 - 1) }) c)

  unlink_in : ℕ → Str → Handler io (Unit {0})
  unfolding at_target refuse take_out
  unlink_in p name = at_target p name (λ t c.
      if (c.inodes t).disk.kind == inode_type_dir
      then refuse t p code_eisdir c
      else take_out t p name (λ d. d) c)

  -- `mkdir` returns no number.
  without_number : Result FuseError ℕ → Result FuseError (Unit {0})
  without_number (err e) = err e
  without_number (ok inum) = ok tt

  module _ (rust : Rust io.Dev) where
    unfoldable pub in_parent : {A : Type 0} → Str → (ℕ → Str → Handler io A) → Operation io rust A
    in_parent path h =
        unless_read_only io rust
          (λ ctx. on_cache io rust (at_parent io call ctx.root_inum path h) ctx)

    unfoldable pub modernfs_mkdir : Str → ℕ → Operation io rust (Unit {0})
    unfolding in_parent mkdir_in without_number
    modernfs_mkdir path mode =
        in_parent path (λ p name c. let (r, c') = mkdir_in mode p name c in (without_number r, c'))

    unfoldable pub modernfs_rmdir : Str → Operation io rust (Unit {0})
    unfolding in_parent rmdir_in
    modernfs_rmdir path = in_parent path rmdir_in

    -- `fi->fh`
    unfoldable pub modernfs_create : Str → ℕ → Operation io rust ℕ
    unfolding in_parent create_in
    modernfs_create path mode = in_parent path (create_in mode)

    unfoldable pub modernfs_unlink : Str → Operation io rust (Unit {0})
    unfolding in_parent unlink_in
    modernfs_unlink path = in_parent path unlink_in
