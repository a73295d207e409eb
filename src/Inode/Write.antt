-- ===== src/Inode/Write.antt =====
-- src/inode.c: `inode_write`.
pub mod Patch
pub mod Overwrite
pub mod Back
mod Tests
use nano_fs.Prelude.{
  ℕ, zero, suc, ◌+◌, ◌%◌, true, ◌&&◌, Option, none, some, List, [], ltb, ◌==◌, if◌then◌else◌, u64,
  length, take, drop,
}
use nano_fs.Types.{block_size}
use nano_fs.Os.{Block}
use nano_fs.BlockIo.{BlockIo}
use nano_fs.Struct.{splice}
use nano_fs.Inode.{M, ◌>>=◌, ◌>>◌, pure, modify, load, store, inode_bmap, to_read}

module _ (io : BlockIo) where
  -- `txn`: NULL, or what `rust_journal_write` does for that transaction, a failure being EIO.
  abbrev pub Txn : Type 0
  Txn = Option (ℕ → Block → M io (Unit {0}))

  put : Txn → ℕ → Block → M io (Unit {0})
  put none block content = store io block content
  put (some journal_write) block content = journal_write block content

  -- The buffer before the data is copied in: the block, unless all of it is overwritten.
  old_content : ℕ → ℕ → ℕ → M io Block
  old_content b from n = if from == 0 && n == block_size then pure io [] else load io b

  -- One round: `piece` goes to block `b` at `from`.
  write_piece : Txn → ℕ → ℕ → List ℕ → M io (Unit {0})
  unfolding old_content put
  write_piece txn b from piece =
      ◌>>=◌ io (old_content b from (length piece)) (λ old. put txn b (splice old from piece))

  -- The loop, from `cur_offset`, with the bytes that are left. Each round writes at least one.
  pub write_loop : Txn → ℕ → ℕ → List ℕ → M io (Unit {0})
  unfolding write_piece
  write_loop txn zero cur_offset src = pure io tt
  write_loop txn (suc fuel) cur_offset src =
      let n = to_read cur_offset (length src) in
      let round = ◌>>=◌ io (inode_bmap io cur_offset true) (λ b.
        ◌>>◌ io (write_piece txn b (cur_offset % block_size) (take n src))
          (write_loop txn fuel (cur_offset + n) (drop n src))) in
      if length src == 0 then pure io tt else round

  pub inode_write : Txn → ℕ → ℕ → List ℕ → M io ℕ
  inode_write txn now offset src =
      let end = u64 (offset + length src) in
      ◌>>◌ io (write_loop txn (length src) offset src) (
        ◌>>◌ io
          (modify io (λ d. record d { size = if ltb d.size end then end else d.size; mtime = now }))
          (pure io (length src)))
