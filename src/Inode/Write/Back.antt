-- ===== src/Inode/Write/Back.antt =====
-- What was written is read back.
use nano_fs.Prelude.{
  ℕ, suc, ◌+◌, ◌-◌, ◌^◌, ◌≤◌, ◌<◌, ◌≡◌, refl, ◌∙◌, ap, true, none, List, [], ◌∷◌, Result, ok, err,
  FsError, length, get_or, ltb, if◌then◌else◌, u64, arith,
}
use Prim.Native.Nat.{min}
use nano_fs.Types.{DiskInode}
use nano_fs.Os.{Block}
use nano_fs.BlockIo.{BlockIo}
use nano_fs.Inode.{Fs, ◌>>=◌, ◌>>◌, pure, continue, changed, modify, inode_read}
use nano_fs.Inode.Bind.{bind-cases}
use nano_fs.Inode.Lookup.{mapped}
use nano_fs.Inode.Bytes.{byte_at, file_bytes}
use nano_fs.Inode.Read.{inode_read-ReadsFile}
use nano_fs.Inode.Map.{patched}
use nano_fs.Inode.Write.{write_loop, inode_write}
use nano_fs.Inode.Write.Patch.{Overwrites}
use nano_fs.Inode.Write.Overwrite.{Ready, Writes-write_loop}

-- The size after a write.
abbrev pub grown : DiskInode → ℕ → ℕ
grown d end = if ltb d.size end then end else d.size

module _ (io : BlockIo) where
  -- How `inode_write` of `src` at `off` ends.
  pub record WritesFile (s : Fs io) (now off : ℕ) (src : List ℕ) (out : Result FsError ℕ × Fs io)
      : Type 0 where
    pub balloc : out.1.balloc ≡ s.balloc
    pub good : io.IsGood out.1.dev
    pub all : (n : ℕ) → out.0 ≡ ok n → n ≡ length src
    pub bytes :
        (n : ℕ)
        → out.0 ≡ ok n
        → Overwrites (io.contents s.dev) s.inode.disk off src (io.contents out.1.dev)
    pub inode :
        (n : ℕ)
        → out.0 ≡ ok n
        → out.1.inode ≡ record s.inode {
          disk = record s.inode.disk { size = grown s.inode.disk (off + length src); mtime = now };
          dirty = true;
        }
    pub failed : (e : FsError) → out.0 ≡ err e → out.1.inode ≡ s.inode

  modified :
      {A : Type 0} (f : DiskInode → DiskInode) (a : A) (t : Fs io)
      → ◌>>=◌ io (modify io f) (λ u. pure io a) t ≡ (ok a, changed io t f)
  unfolding ◌>>=◌ modify pure continue
  modified f a t = refl

  -- From a good state, for a write that ends by 2^44, where each of its bytes has a block, and the file's blocks are
  -- whole, none of them used twice in the file nor for one of its tables: an inode_write without a transaction that
  -- succeeds has written all bytes, and no other byte of the file below 2^44 and no block that is not the file's has
  -- changed; of the inode, the size grows to the end of the write where it was less, the time of the last change is set,
  -- and it is marked dirty. One that fails leaves the inode as it was. Nothing is allocated.
  pub inode_write-WritesFile :
      (s : Fs io) (now off : ℕ) (src : List ℕ)
      → Ready io s off src
      → off + length src ≤ 2 ^ 44
      → WritesFile s now off src (inode_write io none now off src s)
  unfolding inode_write ◌>>◌
  inode_write-WritesFile s now off src r small =
      let w = Writes-write_loop io (length src) off src s (omega arith) small r in
      let t = (write_loop io none (length src) off src s).1 in
      let end : u64 (off + length src) ≡ off + length src = omega arith in
      bind-cases io (λ out. WritesFile s now off src out) (write_loop io none (length src) off src)
        _ s
        (λ u e.
          rw
            (
              modified (λ d. record d { size = grown d (u64 (off + length src)); mtime = now })
                  (length src) t,
              end,
            )
            (record {
              balloc = w.balloc;
              good = w.good;
              all = λ n h. cc;
              bytes = λ n h. w.result u e;
              inode = λ n h. rw w.inode refl;
              failed = λ x h. cc;
            }))
        (λ x e. record {
          balloc = w.balloc;
          good = w.good;
          all = λ n h. cc;
          bytes = λ n h. cc;
          inode = λ n h. cc;
          failed = λ x' h. w.inode;
        })

  file_bytes-src :
      (f : ℕ → Block) (d : DiskInode) (off : ℕ) (src : List ℕ)
      → ((k : ℕ) → k < length src → byte_at f d (off + k) ≡ get_or src k 0)
      → file_bytes f d off (length src) ≡ src
  unfolding file_bytes
  file_bytes-src f d off [] h = refl
  file_bytes-src f d off (c ∷ src) h =
      rw
        (
          start (h 0 (omega arith)),
          file_bytes-src f d (off + 1) src (λ k lt. next k (h (k + 1) (omega arith))),
        )
        refl
    where
      start : byte_at f d (off + 0) ≡ c → byte_at f d off ≡ c
      start e = let z : off + 0 ≡ off = omega arith in rw z at e

      next :
          (k : ℕ)
          → byte_at f d (off + (k + 1)) ≡ get_or (c ∷ src) (k + 1) 0
          → byte_at f d (off + 1 + k) ≡ get_or src k 0
      next k e =
          let z : off + (k + 1) ≡ off + 1 + k = omega arith in
          let z' : k + 1 ≡ suc k = omega arith in rw (z, z') at e

  -- Size and time of change have no part in a byte's place.
  byte_at-disk :
      (f : ℕ → Block) (d : DiskInode) (size mtime x : ℕ)
      → byte_at f (record d { size = size; mtime = mtime }) x ≡ byte_at f d x
  unfolding byte_at mapped
  byte_at-disk f d size mtime x = refl

  -- From a good state, for a write that ends by 2^44, where each of its bytes has a block, and the file's blocks are
  -- whole, none of them used twice in the file nor for one of its tables: after an inode_write without a transaction that
  -- succeeds, an inode_read of the same bytes that succeeds returns what was written.
  pub inode_read-inode_write :
      (s : Fs io) (now now' off n : ℕ) (src got : List ℕ)
      → Ready io s off src
      → off + length src ≤ 2 ^ 44
      → let out = inode_write io none now off src s in
        out.0 ≡ ok n → (inode_read io now' off (length src) out.1).0 ≡ ok got → got ≡ src
  inode_read-inode_write s now now' off n src got r small h h' =
      let w = inode_write-WritesFile s now off src r small in
      let t = (inode_write io none now off src s).1 in
      let l = inode_read-ReadsFile io t now' off (length src) w.good (omega arith) (ground arith) in
      let d = ap (λ i. i.disk) (w.inode n h) in
      let size : min (length src) (t.inode.disk.size - off) ≡ length src = rw d (ground arith) in
      let e = l.result got h' in
      let o = w.bytes n h in
      rw size at e
      ∙ file_bytes-src (io.contents t.dev) t.inode.disk off src (λ k lt.
        let z : off + k - off ≡ k = omega arith in
        let p : patched off src (byte_at (io.contents s.dev) s.inode.disk) (off + k)
            ≡ get_or src k 0 =
          ground arith in
        rw d (byte_at-disk (io.contents t.dev) s.inode.disk _ now (off + k))
        ∙ (o.bytes (off + k) (omega arith) ∙ p))
