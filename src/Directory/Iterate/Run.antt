-- ===== src/Directory/Iterate/Run.antt =====
-- What `dir_iterate` does within a block: the callback is called on the entries.
use nano_fs.Prelude.{
  ℕ, zero, suc, ◌+◌, ◌≤◌, ◌≡◌, ◌≢◌, refl, true, false, Option, none, some, List, [], ◌∷◌, ◌++◌,
  ◌==◌, Option-cases, inl, inr, arith,
}
use nano_fs.Directory.{Dirent, dirent_at}
use nano_fs.Directory.Entries.{Walk, stop, free, used, advances}
use nano_fs.Directory.Iterate.{Callback, entry_name, call_on, or_next, iterate_in}

-- What one call of the callback on each entry does, until one returns.
pub run : {S R : Type 0} → Callback S R → List Dirent → S → Option R × S
run callback [] arg = (none, arg)
run callback (de ∷ es) arg =
    let called = callback (entry_name de) de.inum arg in or_next called (run callback es called.1)

-- The callback is called on a list after another, unless it has ended before.
pub run-append_none :
    {S R : Type 0} (callback : Callback S R) (es rest : List Dirent) (arg : S)
    → (run callback es arg).0 ≡ none
    → run callback (es ++ rest) arg ≡ run callback rest (run callback es arg).1
unfolding run or_next
run-append_none callback [] rest arg e = refl
run-append_none callback (de ∷ es) rest arg e =
    let called = callback (entry_name de) de.inum arg in
    elim (Option-cases called.0) [
      | inl goes_on ↦ rw goes_on (run-append_none callback es rest called.1 (rw goes_on at e))
      | inr (r, ends) ↦ absurd (let e' = rw ends at e in cc)
    ]

pub run-append_some :
    {S R : Type 0} (callback : Callback S R) (es rest : List Dirent) (arg : S) (r : R)
    → (run callback es arg).0 ≡ some r
    → run callback (es ++ rest) arg ≡ run callback es arg
unfolding run or_next
run-append_some callback [] rest arg r e = cc
run-append_some callback (de ∷ es) rest arg r e =
    let called = callback (entry_name de) de.inum arg in
    elim (Option-cases called.0) [
      | inl goes_on ↦ rw goes_on (run-append_some callback es rest called.1 r (rw goes_on at e))
      | inr (r', ends) ↦ rw ends refl
    ]

call_on_free :
    {S R : Type 0} (de : Dirent) (callback : Callback S R) (arg : S)
    → de.inum ≡ 0
    → call_on de callback arg ≡ (none, arg)
unfolding call_on
call_on_free de callback arg z = let e : (de.inum == 0) ≡ true = ground arith in rw e refl

call_on_used :
    {S R : Type 0} (de : Dirent) (callback : Callback S R) (arg : S)
    → de.inum ≢ 0
    → call_on de callback arg ≡ callback (entry_name de) de.inum arg
unfolding call_on
call_on_used de callback arg nz = let e : (de.inum == 0) ≡ false = ground arith in rw e refl

pub run_nil : {S R : Type 0} (callback : Callback S R) (arg : S) → run callback [] arg ≡ (none, arg)
unfolding run
run_nil callback arg = refl

pub run_cons :
    {S R : Type 0} (callback : Callback S R) (de : Dirent) (es : List Dirent) (arg : S)
    → run callback (de ∷ es) arg
      ≡ or_next
          (callback (entry_name de) de.inum arg)
          (run callback es (callback (entry_name de) de.inum arg).1)
unfolding run
run_cons callback de es arg = refl

module _ (buf : List ℕ) (n : ℕ) where
  abbrev entry : ℕ → Dirent
  entry pos = dirent_at buf pos

  -- The walk of `dir_iterate` calls the callback on the entries.
  pub iterate_in-run :
      {S R : Type 0} (rounds : ℕ) (callback : Callback S R) (arg : S) {pos : ℕ} {es : List Dirent}
      → Walk buf n pos es
      → n ≤ pos + rounds
      → iterate_in rounds buf pos n callback arg ≡ run callback es arg
  unfolding iterate_in run
  iterate_in-run zero callback arg (stop pos s) le = refl
  iterate_in-run (suc rounds) callback arg (stop pos s) le = rw s refl
  iterate_in-run zero callback arg (free pos es go z w) le =
      let a = advances (entry pos) pos n go in absurd (omega arith)
  iterate_in-run zero callback arg (used pos es go nz w) le =
      let a = advances (entry pos) pos n go in absurd (omega arith)
  iterate_in-run (suc rounds) callback arg (free pos es go z w) le =
      let a = advances (entry pos) pos n go in
      rw (go, iterate_in-run rounds callback (call_on (entry pos) callback arg).1 w (omega arith))
        (rw (call_on_free (entry pos) callback arg z) refl)
  iterate_in-run (suc rounds) callback arg (used pos es go nz w) le =
      let a = advances (entry pos) pos n go in
      rw (go, iterate_in-run rounds callback (call_on (entry pos) callback arg).1 w (omega arith))
        (rw (call_on_used (entry pos) callback arg nz) refl)
