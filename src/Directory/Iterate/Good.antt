-- ===== src/Directory/Iterate/Good.antt =====
-- An iteration keeps the device good and the allocator as it is, whatever the directory holds.
use nano_fs.Prelude.{
  ℕ, zero, suc, ◌+◌, ◌≡◌, not, Option, none, some, List, Result, ok, err, FsError, ltb, u64, ◌==◌,
  length, Bool-cases, inl, inr,
}
use nano_fs.Types.{block_size, inode_type_dir}
use nano_fs.BlockIo.{BlockIo}
use nano_fs.BlockAlloc.{BlockAllocator}
use nano_fs.Struct.{splice}
use nano_fs.Inode.{Fs, inode_read}
use nano_fs.Inode.Steady.{inode_read-Keeps}
use nano_fs.Directory.{dir_rounds}
use nano_fs.Directory.Iterate.{
  Callback, Iterated, iterate_in, after_block, iterate_read, iterate_from, dir_iterate,
}

module _ (io : BlockIo) (b : BlockAllocator) {S R : Type 0} (callback : Callback S R) where
  -- After an iteration: the device is good, and the allocator is `b`.
  abbrev pub Kept : Iterated io S R → Type 0
  Kept out = io.IsGood out.1.1.dev × (out.1.1.balloc ≡ b)

  after_block-Keeps :
      (called : Option R × S) (buf : List ℕ) (s : Fs io)
      (next : List ℕ → S → Fs io → Iterated io S R)
      → io.IsGood s.dev × (s.balloc ≡ b)
      → ((buf : List ℕ) (arg : S) → Kept (next buf arg s))
      → Kept (after_block io called buf s next)
  unfolding after_block
  after_block-Keeps (none, arg) buf s next k n = n buf arg
  after_block-Keeps (some r, arg) buf s next k n = k

  iterate_read-Keeps :
      (r : Result FsError (List ℕ)) (stack : List ℕ) (arg : S) (s : Fs io)
      (next : List ℕ → S → Fs io → Iterated io S R)
      → io.IsGood s.dev × (s.balloc ≡ b)
      → ((buf : List ℕ) (arg : S) → Kept (next buf arg s))
      → Kept (iterate_read io r stack callback arg s next)
  unfolding iterate_read
  iterate_read-Keeps (err e) stack arg s next k n = k
  iterate_read-Keeps (ok l) stack arg s next k n = elim (Bool-cases (length l == 0)) [
    | inl z ↦ rw z k
    | inr z ↦ rw z (
        after_block-Keeps (iterate_in block_size (splice stack 0 l) 0 (length l) callback arg)
          (splice stack 0 l) s next k n)
  ]

  iterate_from-Keeps :
      (now : ℕ) (stack : List ℕ) (rounds offset size : ℕ) (arg : S) (s : Fs io)
      → io.IsGood s.dev
      → s.balloc ≡ b
      → Kept (iterate_from io now stack rounds offset callback size arg s)
  unfolding iterate_from
  iterate_from-Keeps now stack zero offset size arg s g a = (g, a)
  iterate_from-Keeps now stack (suc rounds) offset size arg s g a =
      let k = inode_read-Keeps io s b now offset block_size g a in
      elim (Bool-cases (ltb offset size)) [
        | inl more ↦ rw more (
            iterate_read-Keeps (inode_read io now offset block_size s).0 stack arg
              (inode_read io now offset block_size s).1 _ k
              (λ buf arg'.
                iterate_from-Keeps now buf rounds (u64 (offset + block_size)) size arg' _ k.0 k.1))
        | inr past ↦ rw past (g, a)
      ]

  pub dir_iterate-Keeps :
      (now : ℕ) (stack : List ℕ) (arg : S) (s : Fs io)
      → io.IsGood s.dev
      → s.balloc ≡ b
      → Kept (dir_iterate io now stack callback arg s)
  unfolding dir_iterate
  dir_iterate-Keeps now stack arg s g a =
      elim (Bool-cases (not (s.inode.disk.kind == inode_type_dir))) [
        | inl other ↦ rw other (g, a)
        | inr dir ↦ rw dir (
            iterate_from-Keeps now stack (dir_rounds s.inode.disk.size) 0 s.inode.disk.size arg s g
              a)
      ]
