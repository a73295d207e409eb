-- ===== src/Fuse/Write.antt =====
-- src/fuse_ops.c: `modernfs_write`, and its transaction. The writes of `inode_write` go to the memory
-- of the transaction; the device with that memory is the device of the call.
use nano_fs.Prelude.{
  ℕ, ◌+◌, Bool, true, false, Option, none, some, List, Result, ok, err, FsError, fs_eio,
  if◌then◌else◌, update, u32, u64,
}
use nano_fs.Os.{Block}
use nano_fs.BlockIo.{BlockIo}
use nano_fs.Inode.{Fs, M}
use nano_fs.Inode.Write.{inode_write}
use nano_fs.InodeCache.{InodeCache, Stop, null, hang, on_inode, inode_sync, inode_get, inode_put}
use nano_fs.Context.{Rust, checkpoint}
use nano_fs.Fuse.{
  FuseError, hangs, errno, code_enoent, code_eio, fs_code, Call, change_disk, Operation,
  unless_read_only,
}

-- The device with the memory of a transaction.
with_memory : BlockIo → Type 0 → BlockIo
with_memory io T = record {
  Dev = io.Dev × T;
  read = λ b w. let (r, dev) = io.read b w.0 in (r, (dev, w.1));
  write = λ b d w. let (r, dev) = io.write b d w.0 in (r, (dev, w.1));
  sync = λ w. let (r, dev) = io.sync w.0 in (r, (dev, w.1));
  IsGood = λ w. io.IsGood w.0;
  contents = λ w. io.contents w.0;
  read_good = λ b w g. io.read_good b w.0 g;
  read_data = λ b w d g e. io.read_data b w.0 d g e;
  read_contents = λ b q w g. io.read_contents b q w.0 g;
  write_good = λ b d w g. io.write_good b d w.0 g;
  write_data = λ b d w g e. io.write_data b d w.0 g e;
  write_contents = λ b q d w g ne. io.write_contents b q d w.0 g ne;
  sync_good = λ w g. io.sync_good w.0 g;
  sync_contents = λ q w g. io.sync_contents q w.0 g;
}

module _ (io : BlockIo) (rust : Rust io.Dev) where
  open rust use {Journal, Transaction}

  journal_put : ℕ → Block → M (with_memory io Transaction) (Unit {0})
  unfolding with_memory
  journal_put block content s =
      let (done, txn) = rust.journal_write block content s.dev.1 in
      (if done then ok tt else err fs_eio, record s { dev = (s.dev.0, txn) })

  -- `inode_write` with the transaction.
  write_logged :
      Transaction
      → ℕ
      → ℕ
      → ℕ
      → List ℕ
      → InodeCache io
      → Result FsError ℕ × Transaction × InodeCache io
  unfolding with_memory journal_put
  write_logged txn now p offset src c =
      let start : Fs (with_memory io Transaction) = record {
        balloc = c.balloc;
        dev = (c.dev, txn);
        inode = c.inodes p;
      } in
      let (r, s) =
        inode_write (with_memory io Transaction) (some journal_put) now offset src start in
      (
        r,
        s.dev.1,
        record c { balloc = s.balloc; dev = s.dev.0; inodes = update c.inodes p s.inode },
      )

  module _ (call : Call) where
    -- The end of a call that has got the inode `p`.
    ended : {A : Type 0} → ℕ → Result FuseError A → Operation io rust A
    ended p r ctx = (r, record ctx { icache = inode_put io p ctx.icache })

    -- With `write_count++`.
    end_written : ℕ → ℕ → Operation io rust ℕ
    unfolding ended
    end_written p n ctx = ended p (ok n) (record ctx { write_count = u64 (ctx.write_count + 1) })

    -- The times of the inode, and its `inode_sync`, whose result is ignored.
    touch : ℕ → InodeCache io → InodeCache io
    touch p c =
        (inode_sync io p
          (change_disk io p (λ d. record d { mtime = call.now; ctime = call.now }) c)).1

    -- After `inode_write` without a journal.
    without_journal : Result FsError ℕ → ℕ → Operation io rust ℕ
    unfolding ended end_written touch
    without_journal (err e) p ctx = ended p (err (errno (fs_code e))) ctx
    without_journal (ok n) p ctx = end_written p n (record ctx { icache = touch p ctx.icache })

    -- After `rust_journal_commit`; the result of the checkpoint is ignored.
    committed : Bool → ℕ → ℕ → Operation io rust ℕ
    unfolding ended end_written
    committed false p n ctx = ended p (err (errno code_eio)) ctx
    committed true p n ctx = end_written p n (checkpoint io rust ctx.journal ctx).1

    commit : Transaction → Journal → ℕ → ℕ → Operation io rust ℕ
    unfolding committed
    commit txn journal p n ctx =
        let (done, journal', dev) = rust.journal_commit txn journal ctx.icache.dev in
        committed done p n
          (record ctx { icache = record ctx.icache { dev = dev }; journal = some journal' })

    -- After `inode_write` with the transaction.
    after_logged : Result FsError ℕ → Transaction → Journal → ℕ → Operation io rust ℕ
    unfolding ended touch commit
    after_logged (err e) txn journal p ctx =
        ended p (err (errno (fs_code e)))
          (record ctx { journal = some (rust.journal_abort txn journal) })
    after_logged (ok n) txn journal p ctx =
        commit txn journal p n (record ctx { icache = touch p ctx.icache })

    -- With the result of `rust_journal_begin`.
    begun : Option Transaction → Journal → ℕ → ℕ → List ℕ → Operation io rust ℕ
    unfolding ended write_logged after_logged
    begun none journal p offset src ctx =
        ended p (err (errno code_eio)) (record ctx { journal = some journal })
    begun (some txn) journal p offset src ctx =
        let (r, txn', c) = write_logged txn call.now p offset src ctx.icache in
        after_logged r txn' journal p (record ctx { icache = c; journal = some journal })

    write_with : Option Journal → ℕ → ℕ → List ℕ → Operation io rust ℕ
    unfolding without_journal begun
    write_with none p offset src ctx =
        let (r, c) = on_inode io p (inode_write io none call.now offset src) ctx.icache in
        without_journal r p (record ctx { icache = c })
    write_with (some journal) p offset src ctx =
        let (txn, journal') = rust.journal_begin journal in begun txn journal' p offset src ctx

    -- With the result of `inode_get`.
    write_got : Result Stop ℕ → ℕ → List ℕ → Operation io rust ℕ
    unfolding write_with
    write_got (err hang) offset src ctx = (err hangs, ctx)
    write_got (err null) offset src ctx = (err (errno code_enoent), ctx)
    write_got (ok p) offset src ctx = write_with ctx.journal p offset src ctx

    -- The number of bytes.
    unfoldable pub modernfs_write : ℕ → ℕ → List ℕ → Operation io rust ℕ
    unfolding write_got
    modernfs_write fh offset src = unless_read_only io rust (λ ctx.
        let (got, c) = inode_get io (u32 fh) ctx.icache in
        write_got got offset src (record ctx { icache = c }))
