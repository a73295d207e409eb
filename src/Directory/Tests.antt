-- ===== src/Directory/Tests.antt =====
-- `directory.c` on a directory of one block with two entries.
use nano_fs.Prelude.{
  ℕ, ◌<◌, ◌≡◌, ◌↔◌, ◌⊎◌, refl, Bool, true, false, List, [], ◌∷◌, ok, err, fs_einval, All, length,
  arith,
}
use nano_fs.Types.{max_filename}
use nano_fs.Types.Tests.{directory}
use nano_fs.Os.{Block}
use nano_fs.BlockIo.Ram.{array_io}
use nano_fs.Inode.{Fs}
use nano_fs.Inode.Steady.{Steady}
use nano_fs.Path.{Str}
use nano_fs.Directory.{Dirent, bad_name, dir_make_entry, dir_lookup}
use nano_fs.Directory.Make.{Makes, dir_make_entry-Makes}
use nano_fs.Directory.Listing.{Listing, Listing-exists, Finds, dir_lookup-Finds}
use nano_fs.Directory.Iterate.{dir_iterate, dir_is_empty, count_entries_callback, entry_name}
use nano_fs.Directory.Iterate.Whole.{Runs, dir_iterate-Runs}
use nano_fs.Directory.Iterate.Empty.{IsDots, dir_is_empty-All}

abbrev ab : Str
ab = 97 ∷ 98 ∷ []

dir_make_entry-Makes_example :
    ((de : Dirent) → dir_make_entry 9 ab 1 ≡ ok de → Makes 9 ab 1 de)
    × ((dir_make_entry 9 ab 1 ≡ err fs_einval) ↔ ((length ab ≡ 0) ⊎ (max_filename < length ab)))
dir_make_entry-Makes_example = dir_make_entry-Makes 9 ab 1 (omega arith) (omega arith)

-- The directory lies in block 2, with the entries . and a.
abbrev blocks : ℕ → Block
blocks b =
    1 ∷ 0 ∷ 0 ∷ 0 ∷ 16 ∷ 0 ∷ 1 ∷ 2 ∷ 46 ∷ 0 ∷ 0 ∷ 0 ∷ 0 ∷ 0 ∷ 0 ∷ 0 ∷ 7 ∷ 0 ∷ 0 ∷ 0 ∷ 240 ∷ 15 ∷ 1
    ∷ 1 ∷ 97 ∷ []

abbrev opened : Fs array_io
opened = record {
  balloc = record {
    bitmap = 5 ∷ [];
    bitmap_blocks = 1;
    total_blocks = 8;
    free_blocks = 6;
    data_start = 10;
    bitmap_start = 3;
    alloc_count = 2;
    free_count = 0;
  };
  dev = blocks;
  inode = record { inum = 1; disk = directory; ref_count = 1; valid = true; dirty = false };
}

abbrev listed : (es : List Dirent) × Listing blocks directory [] 0 es
listed = Listing-exists 1 blocks directory [] 0 (omega arith)

dir_lookup-Finds_example :
    Finds array_io opened (97 ∷ []) listed.0 (dir_lookup array_io 5 [] (97 ∷ []) opened)
unfolding bad_name
dir_lookup-Finds_example =
    dir_lookup-Finds array_io opened 5 [] (97 ∷ []) listed.1 tt (omega arith) refl refl

dir_iterate-Runs_example :
    Runs array_io opened count_entries_callback listed.0 0
      (dir_iterate array_io 5 [] count_entries_callback 0 opened)
dir_iterate-Runs_example =
    dir_iterate-Runs array_io opened count_entries_callback 5 [] 0 listed.1 tt (omega arith) refl

dir_is_empty-All_example :
    ((b : Bool)
      → (dir_is_empty array_io 5 [] opened).0 ≡ ok b
      → ((b ≡ true) ↔ All (λ de. IsDots (entry_name de)) listed.0))
    × Steady array_io opened (dir_is_empty array_io 5 [] opened).1
dir_is_empty-All_example = dir_is_empty-All array_io opened 5 [] listed.1 tt (omega arith) refl
