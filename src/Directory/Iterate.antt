-- ===== src/Directory/Iterate.antt =====
-- src/directory.c: `dir_iterate` and `dir_is_empty`. A callback has a state of its own behind `arg`
-- and returns `none` for 0; a return that is not 0 ends the iteration.
pub mod Run
pub mod Whole
pub mod Empty
pub mod Good
use nano_fs.Prelude.{
  ℕ, zero, suc, ◌+◌, ◌%◌, ◌^◌, Bool, true, false, not, ◌||◌, Option, none, some, List, [], ◌∷◌,
  Result, ok, err, FsError, fs_einval, ltb, ◌==◌, if◌then◌else◌, u32, u64, length, take,
}
use nano_fs.Types.{block_size, inode_type_dir}
use nano_fs.BlockIo.{BlockIo}
use nano_fs.Struct.{splice}
use nano_fs.Inode.{Fs, inode_read}
use nano_fs.Path.{Str, str_eq, dot}
use nano_fs.Directory.{Dirent, dirent_at, stops, dir_rounds}

-- A C string ends at the first 0.
pub c_string : List ℕ → Str
c_string [] = []
c_string (c ∷ bytes) = if c == 0 then [] else c ∷ c_string bytes

-- The name in `name_buf`.
pub entry_name : Dirent → Str
unfolding c_string
entry_name de = c_string (take de.name_len de.name)

abbrev pub Callback : Type 0 → Type 0 → Type 0
Callback S R = Str → ℕ → S → Option R × S

-- The callback on an entry in use.
pub call_on : {S R : Type 0} → Dirent → Callback S R → S → Option R × S
unfolding entry_name
call_on de callback arg = if de.inum == 0 then (none, arg) else callback (entry_name de) de.inum arg

-- A return that is not 0 ends it.
pub or_next : {S R : Type 0} → Option R × S → Option R × S → Option R × S
or_next called rest = elim called.0 [ some r ↦ called | none ↦ rest ]

-- The walk through the `n` bytes read of a block, from `pos`.
pub iterate_in : {S R : Type 0} → ℕ → List ℕ → ℕ → ℕ → Callback S R → S → Option R × S
unfolding call_on or_next
iterate_in zero buf pos n callback arg = (none, arg)
iterate_in (suc rounds) buf pos n callback arg =
    let de = dirent_at buf pos in
    let called = call_on de callback arg in
    let rest = iterate_in rounds buf (pos + de.rec_len) n callback called.1 in
    if stops de pos n then (none, arg) else or_next called rest

-- `count_entries_callback`
pub count_entries_callback : Callback ℕ (Unit {0})
count_entries_callback name inum count =
    if str_eq name (dot ∷ []) || str_eq name (dot ∷ dot ∷ [])
    then (none, count)
    else (none, u32 (count + 1))

-- The result of the iteration, and whether the count is 0.
empty_if : {S : Type 0} → Result FsError (Option S) → ℕ → Result FsError Bool
empty_if (err e) count = err e
empty_if (ok ret) count = ok (count == 0)

module _ (io : BlockIo) where
  -- What `dir_iterate` returns, with the callback's state.
  abbrev pub Iterated : Type 0 → Type 0 → Type 0
  Iterated S R = Result FsError (Option R) × (S × Fs io)

  -- After the walk through a block.
  pub after_block :
      {S R : Type 0}
      → Option R × S
      → List ℕ
      → Fs io
      → (List ℕ → S → Fs io → Iterated S R)
      → Iterated S R
  after_block called buf s next = elim called.0 [
    | some r ↦ (ok (some r), (called.1, s))
    | none ↦ next buf called.1 s
  ]

  -- After the read at one offset, with the rest of the loop.
  iterate_read :
      {S R : Type 0}
      → Result FsError (List ℕ)
      → List ℕ
      → Callback S R
      → S
      → Fs io
      → (List ℕ → S → Fs io → Iterated S R)
      → Iterated S R
  unfolding iterate_in after_block
  iterate_read (err e) stack callback arg s next = (err e, (arg, s))
  iterate_read (ok l) stack callback arg s next =
      let buf = splice stack 0 l in
      if length l == 0
      then (ok none, (arg, s))
      else after_block (iterate_in block_size buf 0 (length l) callback arg) buf s next

  pub iterate_from :
      {S R : Type 0} → ℕ → List ℕ → ℕ → ℕ → Callback S R → ℕ → S → Fs io → Iterated S R
  unfolding iterate_read
  iterate_from now stack zero offset callback size arg s = (ok none, (arg, s))
  iterate_from now stack (suc rounds) offset callback size arg s =
      let (r, s') = inode_read io now offset block_size s in
      let round =
        iterate_read r stack callback arg s' (λ buf arg'.
          iterate_from now buf rounds (u64 (offset + block_size)) callback size arg') in
      if ltb offset size then round else (ok none, (arg, s))

  pub dir_iterate : {S R : Type 0} → ℕ → List ℕ → Callback S R → S → Fs io → Iterated S R
  unfolding iterate_from
  dir_iterate now stack callback arg s =
      let d = s.inode.disk in
      if not (d.kind == inode_type_dir)
      then (err fs_einval, (arg, s))
      else iterate_from now stack (dir_rounds d.size) 0 callback d.size arg s

  pub dir_is_empty : ℕ → List ℕ → Fs io → Result FsError Bool × Fs io
  unfolding empty_if dir_iterate
  dir_is_empty now stack s =
      let (r, out) = dir_iterate now stack count_entries_callback 0 s in
      if not (s.inode.disk.kind == inode_type_dir)
      then (err fs_einval, s)
      else (empty_if r out.0, out.1)
