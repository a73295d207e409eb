-- ===== src/Directory/Iterate/Whole.antt =====
-- `dir_iterate` calls the callback on the entries of the directory, and `dir_is_empty` counts them.
use nano_fs.Prelude.{
  ℕ, zero, suc, ◌+◌, ◌-◌, ◌*◌, ◌^◌, ◌≤◌, ◌<◌, ◌≡◌, refl, sym, ◌∙◌, ap, true, false, Option, none,
  some, List, [], ◌++◌, Result, ok, err, FsError, ltb, ◌==◌, u64, length, lt→ltb, arith,
  Option-cases, inl, inr,
}
use Prim.Native.Nat.{min}
use nano_fs.Types.{DiskInode, block_size, inode_type_dir}
use nano_fs.Os.{Block}
use nano_fs.BlockIo.{BlockIo}
use nano_fs.Struct.{splice}
use nano_fs.Inode.{Fs, inode_read}
use nano_fs.Inode.Bytes.{length-file_bytes}
use nano_fs.Inode.Read.{inode_read-ReadsFile}
use nano_fs.Inode.Steady.{Steady, Steady-refl, Steady-read}
use nano_fs.Directory.{Dirent, dir_rounds}
use nano_fs.Directory.Entries.{Walk}
use nano_fs.Directory.Listing.{block_bytes, Listing, done, block, block_read}
use nano_fs.Directory.Iterate.{
  Callback, iterate_in, Iterated, after_block, iterate_read, iterate_from, dir_iterate,
}
use nano_fs.Directory.Iterate.Run.{run, run_nil, run-append_none, run-append_some, iterate_in-run}

module _ (io : BlockIo) (s : Fs io) {S R : Type 0} (callback : Callback S R) where
  abbrev f : ℕ → Block
  f = io.contents s.dev

  abbrev d : DiskInode
  d = s.inode.disk

  -- The outcome of calls on `es` from `arg` on.
  pub record Runs (es : List Dirent) (arg : S) (out : Iterated io S R) : Type 0 where
    pub ran : (ret : Option R) → out.0 ≡ ok ret → (ret, out.1.0) ≡ run callback es arg
    pub steady : Steady io s out.1.1

  Runs-nothing : (arg : S) (t : Fs io) → Steady io s t → Runs [] arg (ok none, (arg, t))
  Runs-nothing arg t k = record {
    ran = λ ret h. let e : ret ≡ none = cc in ap (λ x. (x, arg)) e ∙ sym (run_nil callback arg);
    steady = k;
  }

  Runs-after_block :
      (es rest : List Dirent) (arg : S) (buf : List ℕ) (u : Fs io)
      (next : List ℕ → S → Fs io → Iterated io S R)
      → Steady io s u
      → ((a : S) → Runs rest a (next buf a u))
      → Runs (es ++ rest) arg (after_block io (run callback es arg) buf u next)
  unfolding after_block
  Runs-after_block es rest arg buf u next k ih = elim (Option-cases (run callback es arg).0) [
    | inl goes_on ↦
        let i = ih (run callback es arg).1 in
        rw goes_on (record {
          ran = λ ret h. i.ran ret h ∙ sym (run-append_none callback es rest arg goes_on);
          steady = i.steady;
        })
    | inr (r, ends) ↦ rw ends (record {
      ran = λ ret h.
          let e : ret ≡ some r = cc in
          ap (λ x. (x, (run callback es arg).1)) (e ∙ sym ends)
          ∙ sym (run-append_some callback es rest arg r ends);
      steady = k;
    })
  ]

  Runs-read :
      (stack : List ℕ) (offset : ℕ) (es rest : List Dirent) (arg : S) (r : Result FsError (List ℕ))
      (u : Fs io) (next : List ℕ → S → Fs io → Iterated io S R)
      → Steady io s u
      → ((l : List ℕ) → r ≡ ok l → l ≡ block_bytes f d offset)
      → offset < d.size
      → Walk (splice stack 0 (block_bytes f d offset)) (length (block_bytes f d offset)) 0 es
      → ((a : S) → Runs rest a (next (splice stack 0 (block_bytes f d offset)) a u))
      → Runs (es ++ rest) arg (iterate_read io r stack callback arg u next)
  unfolding iterate_read
  Runs-read stack offset es rest arg (err e) u next k got lt w ih = record {
    ran = λ ret h. cc;
    steady = k;
  }
  Runs-read stack offset es rest arg (ok l) u next k got lt w ih =
      let e : l ≡ block_bytes f d offset = got l refl in
      let size : length l ≡ min block_size (d.size - offset) =
        rw e (length-file_bytes f d offset (min block_size (d.size - offset))) in
      let nonempty : (length l == 0) ≡ false = ground arith in
      let a : iterate_in block_size (splice stack 0 l) 0 (length l) callback arg
          ≡ run callback es arg =
        iterate_in-run (splice stack 0 l) (length l) block_size callback arg (rw e w)
          (omega arith) in
      rw (nonempty, a)
        (Runs-after_block es rest arg (splice stack 0 l) u next k (λ a'. rw e (ih a')))

  Runs-iterate_from :
      (rounds : ℕ) (now offset : ℕ) (arg : S) {stack : List ℕ} {es : List Dirent} (t : Fs io)
      → Listing f d stack offset es
      → Steady io s t
      → d.size ≤ 2 ^ 44
      → d.size ≤ offset + rounds * block_size
      → Runs es arg (iterate_from io now stack rounds offset callback d.size arg t)
  unfolding iterate_from
  Runs-iterate_from zero now offset arg t (done stack _ le) k fit enough = Runs-nothing arg t k
  Runs-iterate_from (suc rounds) now offset arg t (done stack _ le) k fit enough =
      let past : ltb offset d.size ≡ false = ground arith in rw past (Runs-nothing arg t k)
  Runs-iterate_from zero now offset arg t (block stack _ es rest lt w l) k fit enough =
      absurd (omega arith)
  Runs-iterate_from (suc rounds) now offset arg t (block stack _ es rest lt w l) k fit enough =
      let r =
        inode_read-ReadsFile io t now offset block_size k.good (omega arith)
          (let z : t.inode.disk.size ≡ d.size = ap (λ x. x.disk.size) k.inode in ground arith) in
      let whole : u64 (offset + block_size) ≡ offset + block_size = omega arith in
      let k' : Steady io s (inode_read io now offset block_size t).1 = Steady-read io k r in
      rw (lt→ltb offset d.size lt) (
        Runs-read stack offset es rest arg _ _ _ k'
          (λ l' e. block_read io s t k offset l' (r.result l' e)) lt w
          (λ a.
            rw whole
              (Runs-iterate_from rounds now (offset + block_size) a _ l k' fit (omega arith))))

  -- From a good state, for a directory of at most 2^44 bytes: a successful `dir_iterate` has called the callback
  -- on the name and number of each entry in use, in their order, up to the first call that returned a value, which it
  -- returns; and of the inode only the access time and the dirty mark change, and nothing of the allocator or of the
  -- device's blocks.
  pub dir_iterate-Runs :
      (now : ℕ) (stack : List ℕ) (arg : S) {es : List Dirent}
      → Listing f d stack 0 es
      → io.IsGood s.dev
      → d.size ≤ 2 ^ 44
      → d.kind ≡ inode_type_dir
      → Runs es arg (dir_iterate io now stack callback arg s)
  unfolding dir_iterate
  dir_iterate-Runs now stack arg l g fit is_dir =
      let dir : (d.kind == inode_type_dir) ≡ true = ground arith in
      rw dir
        (Runs-iterate_from (dir_rounds d.size) now 0 arg s l (Steady-refl io s g) fit (omega arith))
