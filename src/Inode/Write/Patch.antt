-- ===== src/Inode/Write/Patch.antt =====
-- A file's bytes after one part of them was written, and then another.
use nano_fs.Prelude.{
  ℕ, ◌+◌, ◌-◌, ◌≤◌, ◌<◌, ◌^◌, ◌≡◌, ◌≢◌, ◌⊎◌, refl, ◌∙◌, List, [], length, length-take, length-drop,
  get_or-take, get_or-drop, take, drop, arith,
}
use nano_fs.Types.{DiskInode, block_size}
use nano_fs.Os.{Block}
use nano_fs.Struct.{splice}
use nano_fs.Struct.Laws.{get_or-splice, length-splice, splice_nothing}
use nano_fs.Inode.Lookup.{mapped}
use nano_fs.Inode.Bytes.{byte_at}
use nano_fs.Inode.Map.{WellMapped, patched, Patches}

pub Patches-splice :
    (old : Block) (from : ℕ) (piece : List ℕ)
    → length old ≡ block_size
    → from + length piece ≤ block_size
    → Patches old from piece (splice old from piece)
Patches-splice old from piece size fits = record {
  size = length-splice old piece from (omega arith) ∙ size;
  bytes = λ k lt. get_or-splice old piece from k (omega arith) ∙ ground arith;
}

pub Patches-whole :
    (old : Block) (piece : List ℕ)
    → length piece ≡ block_size
    → Patches old 0 piece (splice [] 0 piece)
Patches-whole old piece size =
    rw (splice_nothing piece) (record {
      size = size;
      bytes = λ k lt. let e : k - 0 ≡ k = omega arith in rw e (ground arith);
    })

-- From the blocks `f` to `g` the bytes of `src` have come into the file from `off` on, and nothing else of it or of
-- the device has changed.
pub record Overwrites (f : ℕ → Block) (d : DiskInode) (off : ℕ) (src : List ℕ) (g : ℕ → Block)
    : Type 0 where
  pub bytes : (x : ℕ) → x < 2 ^ 44 → byte_at g d x ≡ patched off src (byte_at f d) x
  pub mapping : (i : ℕ) → mapped g d i ≡ mapped f d i
  pub still : WellMapped g d
  pub others : (q : ℕ) → ((i : ℕ) → mapped f d i ≢ q) → g q ≡ f q

pub Overwrites-nothing :
    (f : ℕ → Block) (d : DiskInode) (off : ℕ) → WellMapped f d → Overwrites f d off [] f
Overwrites-nothing f d off w = record {
  bytes = λ x lt. ground arith;
  mapping = λ i. refl;
  still = w;
  others = λ q free. refl;
}

-- The bytes before `n`, and then the others.
patched-patched :
    (off n : ℕ) (src : List ℕ) (old : ℕ → ℕ) (x : ℕ)
    → n ≤ length src
    → patched (off + n) (drop n src) (patched off (take n src) old) x ≡ patched off src old x
patched-patched off n src old x le =
    let k : (x < off + n) ⊎ (n + (x - (off + n)) ≡ x - off) = ground arith in
    ground (
      arith,
      length-take n src,
      length-drop n src,
      get_or-take n src (x - off) 0,
      get_or-drop n src (x - (off + n)) 0,
      k,
    )

pub Overwrites-append :
    (f g h : ℕ → Block) (d : DiskInode) (off n : ℕ) (src : List ℕ)
    → n ≤ length src
    → Overwrites f d off (take n src) g
    → Overwrites g d (off + n) (drop n src) h
    → Overwrites f d off src h
Overwrites-append f g h d off n src le a b = record {
  bytes = λ x lt.
      b.bytes x lt ∙ (rw (a.bytes x lt) refl ∙ patched-patched off n src (byte_at f d) x le);
  mapping = λ i. b.mapping i ∙ a.mapping i;
  still = b.still;
  others = λ q free. b.others q (λ i. rw (a.mapping i) (free i)) ∙ a.others q free;
}
