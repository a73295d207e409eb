-- ===== src/Resolve.antt =====
-- src/path.c: `path_resolve` and `path_resolve_parent`, over the inode cache and the directories. A
-- symbolic link is resolved by a nested call; `depth` is the number of nested calls that the
-- memory has room for, and a call beyond it is a crash, here `hang`. `stack` is what the buffer of
-- `dir_lookup` holds at first.
pub mod Valid
mod Tests
use nano_fs.Prelude.{
  ℕ, zero, suc, ◌+◌, Bool, true, false, not, ◌&&◌, Option, none, some, List, [], ◌∷◌, Result, ok,
  err, FsError, fs_einval, fs_enoent, ltb, ◌==◌, if◌then◌else◌, length,
}
use nano_fs.Types.{max_filename, inode_type_dir, inode_type_symlink}
use nano_fs.BlockIo.{BlockIo}
use nano_fs.Inode.{inode_read}
use nano_fs.InodeCache.{InodeCache, Stop, null, hang, on_inode, inode_get, inode_put}
use nano_fs.Path.{
  Str, slash, dot, str_eq, is_absolute, get_next_component, path_dirname, path_basename,
}
use nano_fs.Directory.{dir_lookup}
use nano_fs.Directory.Iterate.{c_string}

module _ (io : BlockIo) where
  -- An operation that returns an inode of the pool, or none.
  abbrev pub Resolved : Type 0
  Resolved = Result Stop ℕ × InodeCache io

  module _ (now : ℕ) (stack : List ℕ) (follow_symlink : Bool)
      (resolve : Str → InodeCache io → Resolved) where
    -- After the target of the link `q` was read.
    follow : Result FsError (List ℕ) → ℕ → InodeCache io → Resolved
    follow (err e) q c = (err null, inode_put io q c)
    follow (ok link_target) q c = resolve (c_string link_target) (inode_put io q c)

    -- The next inode, or what a link there leads to.
    enter : Result Stop ℕ → InodeCache io → Resolved
    unfolding follow
    enter (err s) c = (err s, c)
    enter (ok q) c =
        let (r, c') = on_inode io q (inode_read io now 0 4095) c in
        if follow_symlink && (c.inodes q).disk.kind == inode_type_symlink
        then follow r q c'
        else (ok q, c)

    -- After the lookup in `current`.
    looked_up : Result FsError ℕ → ℕ → InodeCache io → Resolved
    unfolding enter
    looked_up (err e) current c = (err null, inode_put io current c)
    looked_up (ok next_inum) current c =
        let (r, c') = inode_get io next_inum (inode_put io current c) in enter r c'

    component_step : Str → ℕ → InodeCache io → Resolved
    unfolding looked_up
    component_step component current c =
        let (r, c') = on_inode io current (dir_lookup io now stack component) c in
        if not ((c.inodes current).disk.kind == inode_type_dir)
        then (err null, inode_put io current c)
        else looked_up r current c'

    -- The loop, from the inode that is at hand, if there is one.
    walk_path : ℕ → Str → Resolved → Resolved
    unfolding component_step
    walk_path rounds p (err s, c) = (err s, c)
    walk_path zero p (ok current, c) = (ok current, c)
    walk_path (suc rounds) p (ok current, c) =
        let (component, rest) = get_next_component p in
        elim component [
          | none ↦ (ok current, c)
          | some name ↦ walk_path rounds rest (component_step name current c)
        ]

  pub path_resolve : ℕ → ℕ → List ℕ → ℕ → ℕ → Bool → Str → InodeCache io → Resolved
  unfolding walk_path
  path_resolve zero now stack root cwd follow_symlink path c = (err hang, c)
  path_resolve (suc depth) now stack root cwd follow_symlink path c =
      walk_path now stack follow_symlink (path_resolve depth now stack root cwd follow_symlink)
        (length path + 1) path (inode_get io (if is_absolute path then root else cwd) c)

  -- The check that the parent is a directory.
  check_parent :
      Result Stop ℕ → Str → InodeCache io → Result FsError (Option (ℕ × Str)) × InodeCache io
  check_parent (err hang) name c = (ok none, c)
  check_parent (err null) name c = (err fs_enoent, c)
  check_parent (ok p) name c =
      if (c.inodes p).disk.kind == inode_type_dir
      then (ok (some (p, name)), c)
      else (err fs_einval, inode_put io p c)

  -- Where the directory's part of the path leads.
  parent_of : ℕ → ℕ → List ℕ → ℕ → ℕ → Str → InodeCache io → Resolved
  unfolding path_resolve
  parent_of depth now stack root cwd dir_path c =
      if length dir_path == 0
      then inode_get io cwd c
      else if str_eq dir_path (dot ∷ [])
      then inode_get io cwd c
      else if str_eq dir_path (slash ∷ [])
      then inode_get io root c
      else path_resolve depth now stack root cwd true dir_path c

  with_parent :
      Result FsError Str
      → ℕ
      → ℕ
      → List ℕ
      → ℕ
      → ℕ
      → Str
      → InodeCache io
      → Result FsError (Option (ℕ × Str)) × InodeCache io
  unfolding check_parent parent_of
  with_parent (err e) depth now stack root cwd name c = (err e, c)
  with_parent (ok dir_path) depth now stack root cwd name c =
      let (r, c') = parent_of depth now stack root cwd dir_path c in
      if ltb max_filename (length name) then (err fs_einval, c) else check_parent r name c'

  -- The parent and the name; `ok none` is a call that does not return.
  pub path_resolve_parent :
      ℕ
      → ℕ
      → List ℕ
      → ℕ
      → ℕ
      → Str
      → InodeCache io
      → Result FsError (Option (ℕ × Str)) × InodeCache io
  unfolding with_parent
  path_resolve_parent depth now stack root cwd path c =
      with_parent (path_dirname path 4096) depth now stack root cwd (path_basename path) c
