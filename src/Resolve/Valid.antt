-- ===== src/Resolve/Valid.antt =====
-- `path_resolve` and `path_resolve_parent` return inodes that are loaded, and allocate nothing.
use nano_fs.Prelude.{
  ℕ, zero, suc, ◌+◌, ◌≡◌, Bool, true, false, not, ◌&&◌, List, Result, ok, err, FsError, ◌==◌,
  if◌then◌else◌, length, Option-cases, inl, inr,
}
use nano_fs.Types.{inode_type_dir, inode_type_symlink}
use nano_fs.BlockIo.{BlockIo}
use nano_fs.Inode.{Fs, M, inode_read}
use nano_fs.BlockAlloc.{BlockAllocator}
use nano_fs.Inode.Steady.{Keeps, inode_read-Keeps}
use nano_fs.InodeCache.{InodeCache, Stop, null, hang, on_inode, inode_get, inode_put}
use nano_fs.InodeCache.Get.{Gets, cached, loaded, inode_get-Gets}
use nano_fs.InodeCache.Unallocated.{
  Unallocated, Unallocated-refl, Unallocated-trans, Unallocated-inode_get, Unallocated-inode_put,
  Unallocated-on_inode,
}
use nano_fs.Path.{Str, is_absolute, get_next_component}
use nano_fs.Directory.{dir_lookup}
use nano_fs.Directory.Good.{dir_lookup-Keeps}
use nano_fs.Directory.Iterate.{c_string}
use nano_fs.Resolve.{Resolved, follow, enter, looked_up, component_step, walk_path, path_resolve}

module _ (io : BlockIo) where
  -- From `c`: nothing was allocated, the device is good, and an inode that is returned is valid.
  pub record IsLoaded (c : InodeCache io) (out : Resolved io) : Type 0 where
    pub same : Unallocated io c out.1
    pub valid : (p : ℕ) → out.0 ≡ ok p → (out.1.inodes p).valid ≡ true

  Gets-valid : {c c' : InodeCache io} {i p : ℕ} → Gets io c i p c' → (c'.inodes p).valid ≡ true
  Gets-valid (cached f h h' d) = h'.valid
  Gets-valid (loaded m h d) = h.valid

  module _ (c0 : InodeCache io) where
    abbrev From : InodeCache io → Type 0
    From c = Unallocated io c0 c

    IsLoaded-err : (s : Stop) (c : InodeCache io) → From c → IsLoaded c0 (err s, c)
    IsLoaded-err s c u = record { same = u; valid = λ p e. cc }

    From-put : (p : ℕ) (c : InodeCache io) → From c → From (inode_put io p c)
    From-put p c u = Unallocated-trans io u (Unallocated-inode_put io p c u.good)

    From-on_inode :
        {A : Type 0} (p : ℕ) (m : M io A) (c : InodeCache io)
        → ((b : BlockAllocator) (s : Fs io) → io.IsGood s.dev → s.balloc ≡ b → Keeps io b (m s))
        → From c
        → From (on_inode io p m c).1
    From-on_inode p m c keeps u =
        Unallocated-trans io u (Unallocated-on_inode io p m c (keeps c.balloc) u.good)

    IsLoaded-inode_get : (inum : ℕ) (c : InodeCache io) → From c → IsLoaded c0 (inode_get io inum c)
    IsLoaded-inode_get inum c u = record {
      same = Unallocated-trans io u (Unallocated-inode_get io inum c u.good);
      valid = λ p e. Gets-valid (inode_get-Gets io c inum p u.good e);
    }

    IsLoaded-if :
        (b : Bool) (x y : Resolved io)
        → IsLoaded c0 x
        → IsLoaded c0 y
        → IsLoaded c0 (if b then x else y)
    IsLoaded-if true x y f g = f
    IsLoaded-if false x y f g = g

    module _ (now : ℕ) (stack : List ℕ) (follow_symlink : Bool)
        (resolve : Str → InodeCache io → Resolved io)
        (resolves : (l : Str) (c : InodeCache io) → From c → IsLoaded c0 (resolve l c)) where
      IsLoaded-follow :
          (r : Result FsError (List ℕ)) (q : ℕ) (c : InodeCache io)
          → From c
          → IsLoaded c0 (follow io now stack follow_symlink resolve r q c)
      unfolding follow
      IsLoaded-follow (err e) q c u = IsLoaded-err null (inode_put io q c) (From-put q c u)
      IsLoaded-follow (ok l) q c u = resolves (c_string l) (inode_put io q c) (From-put q c u)

      IsLoaded-enter :
          (r : Result Stop ℕ) (c : InodeCache io)
          → IsLoaded c0 (r, c)
          → IsLoaded c0 (enter io now stack follow_symlink resolve r c)
      unfolding enter
      IsLoaded-enter (err s) c l = l
      IsLoaded-enter (ok q) c l =
          IsLoaded-if (follow_symlink && (c.inodes q).disk.kind == inode_type_symlink) _ _
            (IsLoaded-follow _ q _ (
              From-on_inode q (inode_read io now 0 4095) c
                (λ b s g e. inode_read-Keeps io s b now 0 4095 g e) l.same))
            l

      IsLoaded-looked_up :
          (r : Result FsError ℕ) (current : ℕ) (c : InodeCache io)
          → From c
          → IsLoaded c0 (looked_up io now stack follow_symlink resolve r current c)
      unfolding looked_up
      IsLoaded-looked_up (err e) current c u = IsLoaded-err null _ (From-put current c u)
      IsLoaded-looked_up (ok i) current c u =
          IsLoaded-enter _ _ (IsLoaded-inode_get i (inode_put io current c) (From-put current c u))

      IsLoaded-component_step :
          (name : Str) (current : ℕ) (c : InodeCache io)
          → From c
          → IsLoaded c0 (component_step io now stack follow_symlink resolve name current c)
      unfolding component_step
      IsLoaded-component_step name current c u =
          IsLoaded-if (not ((c.inodes current).disk.kind == inode_type_dir)) _ _
            (IsLoaded-err null _ (From-put current c u))
            (IsLoaded-looked_up _ current _ (
              From-on_inode current (dir_lookup io now stack name) c
                (λ b s g e. dir_lookup-Keeps io b now stack name s g e) u))

      IsLoaded-walk_path :
          (rounds : ℕ) (p : Str) (at_hand : Resolved io)
          → IsLoaded c0 at_hand
          → IsLoaded c0 (walk_path io now stack follow_symlink resolve rounds p at_hand)
      unfolding walk_path
      IsLoaded-walk_path zero p (err s, c) l = l
      IsLoaded-walk_path (suc rounds) p (err s, c) l = l
      IsLoaded-walk_path zero p (ok current, c) l = l
      IsLoaded-walk_path (suc rounds) p (ok current, c) l =
          elim (Option-cases (get_next_component p).0) [
            | inl last ↦ rw (last, walk_path) l
            | inr (name, more) ↦
                rw (more, walk_path)
                  (IsLoaded-walk_path rounds (get_next_component p).1 _
                    (IsLoaded-component_step name current c l.same))
          ]

    resolve-IsLoaded :
        (depth now : ℕ) (stack : List ℕ) (root cwd : ℕ) (follow_symlink : Bool) (path : Str)
        (c : InodeCache io)
        → From c
        → IsLoaded c0 (path_resolve io depth now stack root cwd follow_symlink path c)
    unfolding path_resolve
    resolve-IsLoaded zero now stack root cwd follow_symlink path c u = IsLoaded-err hang c u
    resolve-IsLoaded (suc depth) now stack root cwd follow_symlink path c u =
        IsLoaded-walk_path now stack follow_symlink
          (path_resolve io depth now stack root cwd follow_symlink)
          (λ l c' u'. resolve-IsLoaded depth now stack root cwd follow_symlink l c' u')
          (length path + 1) path (inode_get io (if is_absolute path then root else cwd) c)
          (IsLoaded-inode_get (if is_absolute path then root else cwd) c u)

  -- From a good device, for any path, whatever the directories and the links on the way hold: when `path_resolve`
  -- returns an inode of the pool, it is valid; and also where nothing is found, the device stays good, and neither the
  -- allocator nor the inode bitmap nor the cache's superblock has changed.
  pub path_resolve-IsLoaded :
      (depth now : ℕ) (stack : List ℕ) (root cwd : ℕ) (follow_symlink : Bool) (path : Str)
      (c : InodeCache io)
      → io.IsGood c.dev
      → IsLoaded c (path_resolve io depth now stack root cwd follow_symlink path c)
  path_resolve-IsLoaded depth now stack root cwd follow_symlink path c g =
      resolve-IsLoaded c depth now stack root cwd follow_symlink path c (Unallocated-refl io c g)
