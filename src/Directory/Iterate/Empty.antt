-- ===== src/Directory/Iterate/Empty.antt =====
-- `dir_is_empty` of a directory whose entries are listed.
use nano_fs.Prelude.{
  ℕ, suc, ◌+◌, ◌^◌, ◌≤◌, ◌<◌, ◌≡◌, ◌↔◌, ◌⊎◌, refl, ◌∙◌, ap, Bool, true, false, ◌||◌, Option, none,
  List, [], ◌∷◌, Result, ok, err, FsError, ◌==◌, if◌then◌else◌, u32, length, All, arith, Bool-cases,
  inl, inr,
}
use nano_fs.Types.{inode_type_dir}
use nano_fs.BlockIo.{BlockIo}
use nano_fs.Inode.{Fs}
use nano_fs.Inode.Steady.{Steady}
use nano_fs.Path.{Str, str_eq, dot}
use nano_fs.Path.Equal.{str_eq_refl, str_eq→≡}
use nano_fs.Directory.{Dirent}
use nano_fs.Directory.Listing.{Listing, length-Listing}
use nano_fs.Directory.Iterate.{
  entry_name, or_next, count_entries_callback, dir_iterate, empty_if, dir_is_empty,
}
use nano_fs.Directory.Iterate.Run.{run, run_nil, run_cons}
use nano_fs.Directory.Iterate.Whole.{dir_iterate-Runs}

-- The name of the directory itself, and that of its parent.
abbrev pub IsDots : Str → Type 0
IsDots name = (name ≡ dot ∷ []) ⊎ (name ≡ dot ∷ dot ∷ [])

abbrev dots : Str → Bool
dots name = str_eq name (dot ∷ []) || str_eq name (dot ∷ dot ∷ [])

dots→IsDots : (name : Str) → dots name ≡ true → IsDots name
dots→IsDots name h = elim (Bool-cases (str_eq name (dot ∷ []))) [
  | inl one ↦ inl (str_eq→≡ name (dot ∷ []) one)
  | inr other ↦ inr (str_eq→≡ name (dot ∷ dot ∷ []) (ground arith))
]

IsDots→dots : (name : Str) → IsDots name → dots name ≡ true
IsDots→dots name (inl e) = let t = str_eq_refl (dot ∷ []) in rw e (ground arith)
IsDots→dots name (inr e) = let t = str_eq_refl (dot ∷ dot ∷ []) in rw e (ground arith)

-- The entries with other names.
abbrev others : List Dirent → ℕ
others [] = 0
others (de ∷ es) = if dots (entry_name de) then others es else suc (others es)

others_bound : (es : List Dirent) → others es ≤ length es
others_bound [] = omega arith
others_bound (de ∷ es) = let ih = others_bound es in ground arith

others_none : (es : List Dirent) → (others es ≡ 0) ↔ All (λ de. IsDots (entry_name de)) es
others_none [] = (λ e. tt, λ a. refl)
others_none (de ∷ es) = elim (Bool-cases (dots (entry_name de))) [
  | inl d ↦
      rw d (
        (λ e. (dots→IsDots (entry_name de) d, (others_none es).0 e)),
        (λ a. (others_none es).1 a.1),
      )
  | inr n ↦
      rw n
        ((λ e. absurd (omega arith)), (λ a. absurd (let t = IsDots→dots (entry_name de) a.0 in cc)))
]

-- The callback on one entry.
count_dots :
    (name : Str) (inum count : ℕ)
    → dots name ≡ true
    → count_entries_callback name inum count ≡ (none, count)
unfolding count_entries_callback
count_dots name inum count d = rw d refl

count_other :
    (name : Str) (inum count : ℕ)
    → dots name ≡ false
    → count + 1 < 2 ^ 32
    → count_entries_callback name inum count ≡ (none, count + 1)
unfolding count_entries_callback
count_other name inum count n lt =
    let e : u32 (count + 1) ≡ count + 1 = omega arith in rw (n, e) refl

run-count :
    (es : List Dirent) (count : ℕ)
    → count + length es < 2 ^ 32
    → run count_entries_callback es count ≡ (none, count + others es)
unfolding or_next
run-count [] count lt = run_nil count_entries_callback count ∙ ap (λ n. (none, n)) (omega arith)
run-count (de ∷ es) count lt = elim (Bool-cases (dots (entry_name de))) [
  | inl d ↦
      rw
        (run_cons count_entries_callback de es count, count_dots (entry_name de) de.inum count d, d)
        (run-count es count (omega arith))
  | inr n ↦
      rw
        (
          run_cons count_entries_callback de es count,
          count_other (entry_name de) de.inum count n (omega arith),
          n,
        )
        (run-count es (count + 1) (omega arith) ∙ ap (λ m. (none, m)) (omega arith))
]

empty_if-count :
    {S : Type 0} (r : Result FsError (Option S)) (count : ℕ) (b : Bool)
    → empty_if r count ≡ ok b
    → ((ret : Option S) × (r ≡ ok ret)) × (b ≡ (count == 0))
unfolding empty_if
empty_if-count (err e) count b h = cc
empty_if-count (ok ret) count b h = ((ret, refl), cc)

module _ (io : BlockIo) (s : Fs io) where
  dir_is_empty_dir :
      (now : ℕ) (stack : List ℕ)
      → s.inode.disk.kind ≡ inode_type_dir
      → dir_is_empty io now stack s ≡ (
        empty_if
            (dir_iterate io now stack count_entries_callback 0 s).0
            (dir_iterate io now stack count_entries_callback 0 s).1.0,
        (dir_iterate io now stack count_entries_callback 0 s).1.1,
      )
  unfolding dir_is_empty
  dir_is_empty_dir now stack is_dir =
      let dir : (s.inode.disk.kind == inode_type_dir) ≡ true = ground arith in rw dir refl

  -- From a good state, for a directory of fewer than 2^32 bytes: a successful `dir_is_empty` returns true exactly when
  -- each of its entries in use is named . or ..; and of the inode only the access time and the
  -- dirty mark change, and nothing of the allocator or of the device's blocks.
  pub dir_is_empty-All :
      (now : ℕ) (stack : List ℕ) {es : List Dirent}
      → Listing (io.contents s.dev) s.inode.disk stack 0 es
      → io.IsGood s.dev
      → s.inode.disk.size < 2 ^ 32
      → s.inode.disk.kind ≡ inode_type_dir
      → ((b : Bool)
          → (dir_is_empty io now stack s).0 ≡ ok b
          → ((b ≡ true) ↔ All (λ de. IsDots (entry_name de)) es))
        × Steady io s (dir_is_empty io now stack s).1
  dir_is_empty-All now stack {es = es} l g small is_dir =
      let runs =
        dir_iterate-Runs io s count_entries_callback now stack 0 l g (omega arith) is_dir in
      let counted = run-count es 0 (omega (arith, length-Listing l)) in
      rw (dir_is_empty_dir now stack is_dir) (
        (λ b h.
            let ((ret, e), same) = empty_if-count _ _ b h in
            let c : (dir_iterate io now stack count_entries_callback 0 s).1.0 ≡ 0 + others es =
              ap (λ x. x.1) (runs.ran ret e ∙ counted) in
            let z = others_none es in
            ((λ t. z.0 (ground arith)), (λ a. let o = z.1 a in ground arith))),
        runs.steady,
      )
