-- ===== src/Directory/Make.antt =====
-- The bytes of an entry, and the entries that `dir_make_entry` makes.
use nano_fs.Prelude.{
  ℕ, ◌+◌, ◌-◌, ◌%◌, ◌^◌, ◌≤◌, ◌<◌, ◌≡◌, ◌↔◌, ◌⊎◌, refl, ap, ◌∙◌, true, List, [], ◌∷◌, ◌++◌, Result,
  ok, err, FsError, fs_einval, length, replicate, length-append, length-replicate, take-append,
  drop-append, arith, Bool-cases, inl, inr,
}
use nano_fs.Types.{max_filename}
use nano_fs.Struct.{put_fields, splice}
use nano_fs.Struct.Laws.{
  Fields, get-put_fields, length-put_fields, copy-splice, copy-splice_ne, copy-splice_prefix,
}
use nano_fs.Path.{Str}
use nano_fs.Directory.{
  Dirent, dirent_bytes_count, dirent_head, dirent_bytes, dirent_from, dirent_of, dirent_at,
  dirent_size, bad_name, with_length, dir_make_entry,
}
use nano_fs.Directory.Entries.{Named}

-- An entry whose fields fit, as every value of the C type does.
pub record IsDirent (de : Dirent) : Type 0 where
  pub inum : de.inum < 256 ^ 4
  pub rec_len : de.rec_len < 256 ^ 2
  pub name_len : de.name_len < 256 ^ 1
  pub file_type : de.file_type < 256 ^ 1
  pub name : length de.name ≡ max_filename

abbrev widths : List ℕ
widths = 4 ∷ 2 ∷ 1 ∷ 1 ∷ []

abbrev fields : Dirent → List ℕ
fields de = de.inum ∷ de.rec_len ∷ de.name_len ∷ de.file_type ∷ []

dirent-Fields : (de : Dirent) → IsDirent de → Fields widths (fields de)
dirent-Fields de i = (i.inum, (i.rec_len, (i.name_len, (i.file_type, tt))))

pub length-dirent_bytes :
    (de : Dirent) → IsDirent de → length (dirent_bytes de) ≡ dirent_bytes_count
unfolding dirent_bytes
length-dirent_bytes de i = omega (
  arith,
  length-append (put_fields widths (fields de)) de.name,
  length-put_fields widths (fields de) (dirent-Fields de i),
  i.name,
)

dirent_of-dirent_bytes : (de : Dirent) → IsDirent de → dirent_of (dirent_bytes de) ≡ de
unfolding dirent_of dirent_from dirent_bytes
dirent_of-dirent_bytes de i =
    rw
      (
        get-put_fields widths (fields de) de.name (dirent-Fields de i),
        drop-append (put_fields widths (fields de)) de.name 8
            (length-put_fields widths (fields de) (dirent-Fields de i)),
      )
      refl

-- The entry that is found where an entry was copied into a buffer that has room for it is that entry.
pub dirent_at-splice :
    (buf : List ℕ) (pos : ℕ) (de : Dirent)
    → IsDirent de
    → pos + dirent_bytes_count ≤ length buf
    → dirent_at (splice buf pos (dirent_bytes de)) pos ≡ de
unfolding dirent_at
dirent_at-splice buf pos de i fits =
    let n = length-dirent_bytes de i in
    let c = copy-splice buf (dirent_bytes de) pos (omega arith) in
    rw (rw n at c) (dirent_of-dirent_bytes de i)

-- What `dir_make_entry` promises of the entry that it makes.
pub record Makes (inum : ℕ) (name : Str) (file_type : ℕ) (de : Dirent) : Type 0 where
  pub fits : IsDirent de
  pub number : de.inum ≡ inum
  pub kind : de.file_type ≡ file_type
  pub named : Named de name
  pub room : dirent_head + length name ≤ de.rec_len
  pub tight : de.rec_len < dirent_head + length name + 8
  pub aligned : de.rec_len % 8 ≡ 0

bad_name_iff :
    (name : Str) → (bad_name name ≡ true) ↔ ((length name ≡ 0) ⊎ (max_filename < length name))
unfolding bad_name
bad_name_iff name = (λ h. ground arith, λ h. ground arith)

new_entry : ℕ → Str → ℕ → Dirent
new_entry inum name file_type = record {
  inum = inum;
  rec_len = 0;
  name_len = length name;
  file_type = file_type;
  name = name ++ replicate (max_filename - length name) 0;
}

Makes-new :
    (inum : ℕ) (name : Str) (file_type : ℕ)
    → inum < 2 ^ 32
    → file_type < 256
    → length name ≤ max_filename
    → Makes inum name file_type (with_length (new_entry inum name file_type))
unfolding with_length dirent_size new_entry
Makes-new inum name file_type lt lt' le = record {
  fits = record {
    inum = omega arith;
    rec_len = omega arith;
    name_len = omega arith;
    file_type = omega arith;
    name =
        length-append name (replicate (max_filename - length name) 0)
        ∙ omega (arith, length-replicate {A = ℕ} (max_filename - length name) 0);
  };
  number = refl;
  kind = refl;
  named = (refl, take-append name (replicate (max_filename - length name) 0) (length name) refl);
  room = omega arith;
  tight = omega arith;
  aligned = omega arith;
}

-- For numbers that fit in their fields: `dir_make_entry` returns an entry with the number, the type and the name,
-- whose length is the least multiple of 8 that holds it, or EINVAL, exactly when the name is empty or longer than 255.
pub dir_make_entry-Makes :
    (inum : ℕ) (name : Str) (file_type : ℕ)
    → inum < 2 ^ 32
    → file_type < 256
    → ((de : Dirent) → dir_make_entry inum name file_type ≡ ok de → Makes inum name file_type de)
      × ((dir_make_entry inum name file_type ≡ err fs_einval)
          ↔ ((length name ≡ 0) ⊎ (max_filename < length name)))
unfolding dir_make_entry new_entry
dir_make_entry-Makes inum name file_type lt lt' = elim (Bool-cases (bad_name name)) [
  | inl bad ↦ rw bad ((λ de h. cc), ((λ h. (bad_name_iff name).0 bad), (λ h. refl)))
  | inr good ↦
      let sized : ((length name ≡ 0) ⊎ (max_filename < length name)) → ⊥ =
        λ h. let t = (bad_name_iff name).1 h in cc in
      let m = Makes-new inum name file_type lt lt' (ground (arith, sized)) in
      rw good ((λ de h. rw (← made de h) m), ((λ h. cc), (λ h. absurd (sized h))))
]
  where
    made :
        (de : Dirent)
        → ◌≡◌ {A = Result FsError Dirent} (ok (with_length (new_entry inum name file_type))) (ok de)
        → with_length (new_entry inum name file_type) ≡ de
    made de h = cc

-- An entry elsewhere in the buffer is as it was.
pub dirent_at-splice_ne :
    (buf bytes : List ℕ) (from pos : ℕ)
    → from + length bytes ≤ length buf
    → (pos + dirent_bytes_count ≤ from) ⊎ (from + length bytes ≤ pos)
    → dirent_at (splice buf from bytes) pos ≡ dirent_at buf pos
unfolding dirent_at
dirent_at-splice_ne buf bytes from pos fits away =
    ap dirent_of (copy-splice_ne buf bytes from pos dirent_bytes_count fits away)

-- Nor does what stands behind a whole block matter.
pub dirent_at-block :
    (stack content : List ℕ) (pos : ℕ)
    → pos + dirent_bytes_count ≤ length content
    → dirent_at (splice stack 0 content) pos ≡ dirent_at content pos
unfolding dirent_at
dirent_at-block stack content pos fits =
    ap dirent_of (copy-splice_prefix stack content pos dirent_bytes_count fits)
