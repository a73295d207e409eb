-- ===== src/Directory/Update.antt =====
-- src/directory.c: `dir_add` and `dir_remove`. The search of a block returns the writes that the
-- function does there.
use nano_fs.Prelude.{
  ℕ, zero, suc, ◌+◌, ◌-◌, ◌%◌, ◌^◌, not, Option, none, some, List, [], ◌∷◌, Result, ok, err,
  FsError, fs_error, fs_einval, fs_enoent, ltb, leb, ◌==◌, if◌then◌else◌, u64, length,
}
use nano_fs.Types.{block_size, inode_type_dir}
use nano_fs.BlockIo.{BlockIo}
use nano_fs.Struct.{splice}
use nano_fs.Inode.{M, ◌>>=◌, ◌>>◌, pure, inode_read}
use nano_fs.Inode.Write.{inode_write}
use nano_fs.InodeCache.{InodeCache, Stop, null, hang, on_inode, inode_get, inode_put}
use nano_fs.Path.{Str}
use nano_fs.Directory.{
  Dirent, dirent_bytes, dirent_at, dirent_size, bad_name, dir_make_entry, stops, matches,
  dir_rounds, dir_lookup, fail,
}

-- What a `uint16_t` keeps.
abbrev u16 : ℕ → ℕ
u16 n = n % 2 ^ 16

-- The entry with another length, as bytes.
relength : Dirent → ℕ → List ℕ
relength de n = dirent_bytes (record de { rec_len = u16 n })

-- `free_space` of the entry.
pub free_space : Dirent → ℕ
free_space de = if de.inum == 0 then de.rec_len else u16 (de.rec_len + 2 ^ 16 - dirent_size de)

-- The writes that put `new` into the space of the entry at `pos`: the entry there is split, or its place is taken.
pub inserts : Dirent → ℕ → Dirent → List (ℕ × List ℕ)
unfolding relength free_space
inserts de pos new =
    if de.inum == 0
    then (pos, relength new (free_space de)) ∷ []
    else (pos, relength de (dirent_size de))
      ∷ (pos + dirent_size de, relength new (u16 (de.rec_len + 2 ^ 16 - dirent_size de)))
      ∷ []

-- The walk of `dir_add` through the `n` bytes read of a block, from `pos`.
pub room_in : ℕ → List ℕ → ℕ → ℕ → Dirent → Option (List (ℕ × List ℕ))
unfolding inserts free_space
room_in zero buf pos n new = none
room_in (suc rounds) buf pos n new =
    let de = dirent_at buf pos in
    let rest = room_in rounds buf (pos + de.rec_len) n new in
    if stops de pos n
    then none
    else if leb new.rec_len (free_space de)
    then some (inserts de pos new)
    else rest

-- The write that removes the entry at `pos`: its length goes to the entry in use before it, or it loses its number.
pub removal : List ℕ → Option ℕ → ℕ → ℕ × List ℕ
unfolding relength
removal buf none pos = (pos, dirent_bytes (record (dirent_at buf pos) { inum = 0 }))
removal buf (some prev) pos = (
  prev,
  relength (dirent_at buf prev) ((dirent_at buf prev).rec_len + (dirent_at buf pos).rec_len),
)

-- The walk of `dir_remove`.
pub remove_in : ℕ → List ℕ → ℕ → ℕ → Option ℕ → Str → Option (ℕ × List ℕ)
unfolding removal
remove_in zero buf pos n prev name = none
remove_in (suc rounds) buf pos n prev name =
    let de = dirent_at buf pos in
    let rest =
      remove_in rounds buf (pos + de.rec_len) n (if de.inum == 0 then prev else some pos) name in
    if stops de pos n then none else if matches de name then some (removal buf prev pos) else rest

-- How `dir_add` ends without success: in `inode_get`, or with an error.
pub data Failure : Type 0 where
  hangs : Failure
  fails : FsError → Failure

module _ (io : BlockIo) where
  -- `inode_write` of an entry; the count of bytes is only tested for an error.
  write_entry : ℕ → ℕ → List ℕ → M io (Unit {0})
  write_entry now offset bytes = ◌>>=◌ io (inode_write io none now offset bytes) (λ n. pure io tt)

  write_entries : ℕ → ℕ → List (ℕ × List ℕ) → M io (Unit {0})
  unfolding write_entry
  write_entries now offset [] = pure io tt
  write_entries now offset (w ∷ ws) =
      ◌>>◌ io (write_entry now (u64 (offset + w.0)) w.1) (write_entries now offset ws)

  append_entry : ℕ → Dirent → M io (Unit {0})
  unfolding write_entry
  append_entry now new s =
      write_entry now s.inode.disk.size (dirent_bytes (record new { rec_len = block_size })) s

  -- The loop of `dir_add`, and the append after it.
  insert_from : ℕ → List ℕ → ℕ → ℕ → Dirent → ℕ → M io (Unit {0})
  unfolding room_in write_entries append_entry
  insert_from now stack zero offset new size = append_entry now new
  insert_from now stack (suc rounds) offset new size =
      let round = ◌>>=◌ io (inode_read io now offset block_size) (λ l.
        let buf = splice stack 0 l in
        let next = insert_from now buf rounds (u64 (offset + block_size)) new size in
        let found = room_in block_size buf 0 (length l) new in
        if length l == 0
        then append_entry now new
        else elim found [ some writes ↦ write_entries now offset writes | none ↦ next ]) in
      if ltb offset size then round else append_entry now new

  pub insert_entry : ℕ → List ℕ → Dirent → M io (Unit {0})
  unfolding insert_from
  insert_entry now stack new s =
      insert_from now stack (dir_rounds s.inode.disk.size) 0 new s.inode.disk.size s

  -- Any error of the last part.
  lift_error : {A : Type 0} → Result FsError A → Result Failure A
  lift_error (ok a) = ok a
  lift_error (err e) = err (fails e)

  -- With the new entry, or the error of `dir_make_entry`.
  insert_made :
      Result FsError Dirent
      → ℕ
      → List ℕ
      → ℕ
      → InodeCache io
      → Result Failure (Unit {0}) × InodeCache io
  unfolding insert_entry lift_error
  insert_made (err e) now stack p c = (err (fails e), c)
  insert_made (ok new) now stack p c =
      let (r, c') = on_inode io p (insert_entry now stack new) c in (lift_error r, c')

  -- With the target that `inode_get` returned, for its type.
  add_target :
      Result Stop ℕ
      → ℕ
      → List ℕ
      → ℕ
      → Str
      → ℕ
      → InodeCache io
      → Result Failure (Unit {0}) × InodeCache io
  unfolding insert_made
  add_target (err hang) now stack p name inum c = (err hangs, c)
  add_target (err null) now stack p name inum c = (err (fails fs_error), c)
  add_target (ok q) now stack p name inum c =
      insert_made (dir_make_entry inum name (c.inodes q).disk.kind) now stack p (inode_put io q c)

  -- After the test that there is no such name; any error there passes for one.
  add_new :
      Result FsError ℕ
      → ℕ
      → List ℕ
      → ℕ
      → Str
      → ℕ
      → InodeCache io
      → Result Failure (Unit {0}) × InodeCache io
  unfolding add_target
  add_new (ok existing) now stack p name inum c = (err (fails fs_error), c)
  add_new (err e) now stack p name inum c =
      let (r, c') = inode_get io inum c in add_target r now stack p name inum c'

  -- `dir` is the inode `p` of the pool. `stack` is the buffer of the lookup, `stack'` that of the search.
  pub dir_add :
      ℕ → List ℕ → List ℕ → ℕ → Str → ℕ → InodeCache io → Result Failure (Unit {0}) × InodeCache io
  unfolding add_new
  dir_add now stack stack' p name inum c =
      let (r, c') = on_inode io p (dir_lookup io now stack name) c in
      if not ((c.inodes p).disk.kind == inode_type_dir)
      then (err (fails fs_einval), c)
      else if bad_name name
      then (err (fails fs_einval), c)
      else add_new r now stack' p name inum c'

  pub remove_from : ℕ → List ℕ → ℕ → ℕ → Str → ℕ → M io (Unit {0})
  unfolding remove_in write_entry
  remove_from now stack zero offset name size = fail io fs_enoent
  remove_from now stack (suc rounds) offset name size =
      let round = ◌>>=◌ io (inode_read io now offset block_size) (λ l.
        let buf = splice stack 0 l in
        let next = remove_from now buf rounds (u64 (offset + block_size)) name size in
        let found = remove_in block_size buf 0 (length l) none name in
        if length l == 0
        then fail io fs_enoent
        else elim found [ some w ↦ write_entry now (u64 (offset + w.0)) w.1 | none ↦ next ]) in
      if ltb offset size then round else fail io fs_enoent

  pub dir_remove : ℕ → List ℕ → Str → M io (Unit {0})
  unfolding remove_from
  dir_remove now stack name s =
      let d = s.inode.disk in
      if not (d.kind == inode_type_dir)
      then (err fs_einval, s)
      else if bad_name name
      then (err fs_einval, s)
      else remove_from now stack (dir_rounds d.size) 0 name d.size s
