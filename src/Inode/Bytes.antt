-- ===== src/Inode/Bytes.antt =====
-- The bytes of a file, by the blocks that its inode maps.
use nano_fs.Prelude.{
  ℕ, zero, suc, ◌+◌, ◌*◌, ◌/◌, ◌%◌, ◌≤◌, ◌≡◌, refl, ap, List, [], ◌∷◌, ◌++◌, ◌==◌, if◌then◌else◌,
  get_or, replicate, length, arith,
}
use nano_fs.Types.{DiskInode, block_size}
use nano_fs.Os.{Block}
use nano_fs.Struct.{copy}
use nano_fs.Inode.Lookup.{mapped, mapped-atime}

-- The byte of the file at `off`, and `n` bytes from `off` on, by the blocks `f` of the device.
unfoldable pub byte_at : (ℕ → Block) → DiskInode → ℕ → ℕ
byte_at f d off =
    let b = mapped f d (off / block_size) in if b == 0 then 0 else get_or (f b) (off % block_size) 0

unfoldable pub file_bytes : (ℕ → Block) → DiskInode → ℕ → ℕ → List ℕ
file_bytes f d off zero = []
file_bytes f d off (suc n) = byte_at f d off ∷ file_bytes f d (off + 1) n

pub file_bytes-append :
    (f : ℕ → Block) (d : DiskInode) (m off n next total : ℕ)
    → next ≡ off + m
    → total ≡ m + n
    → file_bytes f d off m ++ file_bytes f d next n ≡ file_bytes f d off total
unfolding file_bytes
file_bytes-append f d zero off n next total e t =
    let e' : next ≡ off = omega arith in let t' : total ≡ n = omega arith in rw (e', t')
file_bytes-append f d (suc m) off n next zero e t = absurd (omega arith)
file_bytes-append f d (suc m) off n next (suc total) e t =
    ap (◌∷◌ (byte_at f d off))
      (file_bytes-append f d m (off + 1) n next total (omega arith) (omega arith))

-- The bytes of one block.
unfoldable pub piece : (ℕ → Block) → ℕ → ℕ → ℕ → List ℕ
piece f b from n = if b == 0 then replicate n 0 else copy (f b) from n

piece-suc :
    (f : ℕ → Block) (b from n : ℕ)
    → piece f b from (suc n) ≡ (if b == 0 then 0 else get_or (f b) from 0) ∷ piece f b (from + 1) n
unfolding piece copy
piece-suc f b from n = ground arith

pub length-file_bytes :
    (f : ℕ → Block) (d : DiskInode) (off n : ℕ) → length (file_bytes f d off n) ≡ n
unfolding file_bytes
length-file_bytes f d off zero = refl
length-file_bytes f d off (suc n) = ap suc (length-file_bytes f d (off + 1) n)

-- The access time has no part in the bytes.
pub file_bytes-atime :
    (f : ℕ → Block) (d : DiskInode) (t off n : ℕ)
    → file_bytes f (record d { atime = t }) off n ≡ file_bytes f d off n
unfolding file_bytes byte_at
file_bytes-atime f d t off zero = refl
file_bytes-atime f d t off (suc n) =
    rw (mapped-atime f d t (off / block_size), file_bytes-atime f d t (off + 1) n) refl

-- Bytes that lie in block `base` of the file are bytes of the block that it is mapped to.
pub file_bytes-piece :
    (f : ℕ → Block) (d : DiskInode) (base off from n : ℕ)
    → off ≡ base * block_size + from
    → from + n ≤ block_size
    → file_bytes f d off n ≡ piece f (mapped f d base) from n
unfolding file_bytes
file_bytes-piece f d base off from zero e le = unfold piece copy in ground arith
file_bytes-piece f d base off from (suc n) e le =
    let q : off / block_size ≡ base = omega arith in
    let r : off % block_size ≡ from = omega arith in
    rw
      (
        piece-suc f (mapped f d base) from n,
        ← file_bytes-piece f d base (off + 1) (from + 1) n (omega arith) (omega arith),
      )
      (unfold byte_at in rw (q, r))
