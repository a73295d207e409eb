-- ===== src/Directory.antt =====
-- src/directory.c and `dirent_t` of include/modernfs/types.h: the entries of a directory. The inode
-- of the directory is that of the state. `stack` is what the memory of `block_buf` and after it
-- holds at first: a block that is read replaces its beginning, and an entry at the end of a block
-- reaches beyond it. The clock `now` stands still during a call.
pub mod Update
pub mod Iterate
pub mod Entries
pub mod Listing
pub mod Make
pub mod Good
mod Tests
use nano_fs.Prelude.{
  ℕ, zero, suc, ◌+◌, ◌-◌, ◌*◌, ◌/◌, ◌%◌, ◌^◌, Bool, true, false, not, ◌&&◌, ◌||◌, Option, none,
  some, List, [], ◌∷◌, ◌++◌, Result, ok, err, FsError, fs_einval, fs_enoent, ltb, ◌==◌,
  if◌then◌else◌, u64, get_or, length, take, drop, replicate,
}
use nano_fs.Types.{block_size, max_filename, inode_type_dir}
use nano_fs.BlockIo.{BlockIo}
use nano_fs.Struct.{put_fields, get_fields, splice, copy}
use nano_fs.Inode.{Fs, M, ◌>>=◌, pure, inode_read}
use nano_fs.Path.{Str, str_eq}

-- `dirent_t`; `name` has `max_filename` bytes.
pub record Dirent : Type 0 where
  pub inum : ℕ
  pub rec_len : ℕ
  pub name_len : ℕ
  pub file_type : ℕ
  pub name : List ℕ

-- `sizeof(dirent_t)` and the size of what stands before the name.
abbrev pub dirent_bytes_count : ℕ
dirent_bytes_count = 263

abbrev pub dirent_head : ℕ
dirent_head = 8

pub dirent_bytes : Dirent → List ℕ
dirent_bytes de =
    put_fields (4 ∷ 2 ∷ 1 ∷ 1 ∷ []) (de.inum ∷ de.rec_len ∷ de.name_len ∷ de.file_type ∷ [])
    ++ de.name

dirent_from : List ℕ → List ℕ → Dirent
dirent_from v name = record {
  inum = get_or v 0 0;
  rec_len = get_or v 1 0;
  name_len = get_or v 2 0;
  file_type = get_or v 3 0;
  name = name;
}

pub dirent_of : List ℕ → Dirent
unfolding dirent_from
dirent_of bytes = dirent_from (get_fields (4 ∷ 2 ∷ 1 ∷ 1 ∷ []) bytes) (drop dirent_head bytes)

-- `(dirent_t *)(block_buf + pos)`
pub dirent_at : List ℕ → ℕ → Dirent
unfolding dirent_of
dirent_at buf pos = dirent_of (copy buf pos dirent_bytes_count)

-- A multiple of 8 that is large enough; it fits in `uint16_t`.
pub dirent_size : Dirent → ℕ
dirent_size de = (dirent_head + de.name_len + 7) / 8 * 8

-- The check of `name_len`, in all functions that take a name.
pub bad_name : Str → Bool
bad_name name = length name == 0 || ltb max_filename (length name)

-- An entry with the length that it has to have.
with_length : Dirent → Dirent
unfolding dirent_size
with_length de = record de { rec_len = dirent_size de }

pub dir_make_entry : ℕ → Str → ℕ → Result FsError Dirent
unfolding with_length bad_name
dir_make_entry inum name file_type =
    if bad_name name
    then err fs_einval
    else ok (
        with_length (record {
          inum = inum;
          rec_len = 0;
          name_len = length name;
          file_type = file_type;
          name = name ++ replicate (max_filename - length name) 0;
        }))

-- The checks at which the walk through a block stops: the end of what was read, and a bad length.
pub stops : Dirent → ℕ → ℕ → Bool
stops de pos n = not (ltb pos n) || de.rec_len == 0 || ltb (block_size - pos) de.rec_len

-- `de->inum != 0 && de->name_len == name_len && memcmp(de->name, name, name_len) == 0`
pub matches : Dirent → Str → Bool
matches de name =
    not (de.inum == 0) && de.name_len == length name && str_eq (take (length name) de.name) name

-- The walk of `dir_lookup` through the `n` bytes read of a block, from `pos`. Each round goes on by at least a byte.
pub find_in : ℕ → List ℕ → ℕ → ℕ → Str → Option ℕ
unfolding dirent_at stops matches
find_in zero buf pos n name = none
find_in (suc rounds) buf pos n name =
    let de = dirent_at buf pos in
    let rest = find_in rounds buf (pos + de.rec_len) n name in
    if stops de pos n then none else if matches de name then some de.inum else rest

-- The rounds that a directory has at most.
abbrev pub dir_rounds : ℕ → ℕ
dir_rounds size = size / block_size + 1

module _ (io : BlockIo) where
  pub fail : {A : Type 0} → FsError → M io A
  fail e s = (err e, s)

  -- With the size of the directory, which its reads do not change.
  pub lookup_from : ℕ → List ℕ → ℕ → ℕ → Str → ℕ → M io ℕ
  unfolding find_in fail
  lookup_from now stack zero offset name size = fail fs_enoent
  lookup_from now stack (suc rounds) offset name size =
      let round = ◌>>=◌ io (inode_read io now offset block_size) (λ l.
        let buf = splice stack 0 l in
        let next = lookup_from now buf rounds (u64 (offset + block_size)) name size in
        let found = find_in block_size buf 0 (length l) name in
        if length l == 0
        then fail fs_enoent
        else elim found [ some inum ↦ pure io inum | none ↦ next ]) in
      if ltb offset size then round else fail fs_enoent

  pub dir_lookup : ℕ → List ℕ → Str → M io ℕ
  unfolding bad_name lookup_from fail
  dir_lookup now stack name s =
      let d = s.inode.disk in
      if not (d.kind == inode_type_dir)
      then (err fs_einval, s)
      else if bad_name name
      then (err fs_einval, s)
      else lookup_from now stack (dir_rounds d.size) 0 name d.size s
