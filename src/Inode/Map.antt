-- ===== src/Inode/Map.antt =====
-- A file's blocks on the device, and what the write of one of them does to the file's bytes.
use nano_fs.Prelude.{
  ℕ, ◌+◌, ◌-◌, ◌*◌, ◌/◌, ◌%◌, ◌^◌, ◌≤◌, ◌<◌, ◌≡◌, ◌≢◌, refl, sym, ap, ◌∙◌, false, ◌&&◌, List,
  length, get_or, ltb, leb, ◌==◌, if◌then◌else◌, inl, inr, Bool-cases, ==_iff, arith,
}
use nano_fs.Types.{DiskInode, block_size, inode_direct_blocks}
use nano_fs.Os.{Block}
use nano_fs.Inode.{per_block}
use nano_fs.Inode.Lookup.{entry, mapped}
use nano_fs.Inode.Bytes.{byte_at}

-- No table of the file is in the block `b`; where there is no double indirect block, it has no tables behind it.
pub record Apart (f : ℕ → Block) (d : DiskInode) (b : ℕ) : Type 0 where
  pub indirect : d.indirect ≢ b
  pub double_indirect : d.double_indirect ≢ b
  pub tables : d.double_indirect ≢ 0 → (j : ℕ) → entry f d.double_indirect j ≢ b

-- The data blocks of a file are whole, not shared among its blocks, and apart from its tables.
pub record WellMapped (f : ℕ → Block) (d : DiskInode) : Type 0 where
  pub apart : (i : ℕ) → mapped f d i ≢ 0 → Apart f d (mapped f d i)
  pub own : (i j : ℕ) → mapped f d i ≢ 0 → mapped f d j ≡ mapped f d i → j ≡ i
  pub whole : (i : ℕ) → mapped f d i ≢ 0 → length (f (mapped f d i)) ≡ block_size

-- `old` with the bytes of `src` from `off` on.
abbrev pub patched : ℕ → List ℕ → (ℕ → ℕ) → ℕ → ℕ
patched off src old x =
    if leb off x && ltb x (off + length src) then get_or src (x - off) 0 else old x

-- `new` is the block `old` with a piece copied in.
pub record Patches (old : Block) (from : ℕ) (piece : List ℕ) (new : Block) : Type 0 where
  pub size : length new ≡ block_size
  pub bytes : (k : ℕ) → k < block_size → get_or new k 0 ≡ patched from piece (λ k. get_or old k 0) k

module _ (f g : ℕ → Block) (d : DiskInode) (b : ℕ) (same : (q : ℕ) → q ≢ b → g q ≡ f q) where
  mapped_same : (i : ℕ) → Apart f d b → mapped g d i ≡ mapped f d i
  unfolding mapped
  mapped_same i a = elim (Bool-cases (d.double_indirect == 0)) [
    | inl missing ↦ rw (same d.indirect a.indirect, missing) refl
    | inr there ↦
        rw
          (
            same d.indirect a.indirect,
            same d.double_indirect a.double_indirect,
            same (entry f d.double_indirect ((i - inode_direct_blocks - per_block) / per_block))
                (a.tables (λ e. ground arith) _),
          )
          refl
  ]

  module _ (w : WellMapped f d) (i : ℕ) (at : mapped f d i ≡ b) (nz : b ≢ 0) (from : ℕ)
      (piece : List ℕ) (fits : from + length piece ≤ block_size)
      (p : Patches (f b) from piece (g b)) where
    apart : Apart f d b
    apart = rw at at (w.apart i (rw at nz))

    pub mapped-write : (j : ℕ) → mapped g d j ≡ mapped f d j
    mapped-write j = mapped_same j apart

    size_at : (q : ℕ) → length (f q) ≡ block_size → length (g q) ≡ block_size
    size_at q size = elim (Bool-cases (q == b)) [
      | inl e ↦ rw ((==_iff q b).0 e) p.size
      | inr ne ↦ rw (same q (λ e. ground arith)) size
    ]

    pub WellMapped-write : WellMapped g d
    WellMapped-write = record {
      apart = λ j nz'.
          let a = w.apart j (rw (← mapped-write j) nz') in
          rw (mapped-write j) (record {
            indirect = a.indirect;
            double_indirect = a.double_indirect;
            tables = λ nz k. rw (same d.double_indirect apart.double_indirect) (a.tables nz k);
          });
      own = λ j k nz' e.
          w.own j k (rw (← mapped-write j) nz') (sym (mapped-write k) ∙ (e ∙ mapped-write j));
      whole = λ j nz'.
          rw (mapped-write j) (size_at (mapped f d j) (w.whole j (rw (← mapped-write j) nz')));
    }

    -- A byte of the block that was written, and one of another.
    inside :
        (x : ℕ)
        → x / block_size ≡ i
        → get_or (g b) (x % block_size) 0
          ≡ patched (i * block_size + from) piece (λ x. get_or (f b) (x % block_size) 0) x
    inside x e =
        let k : x - (i * block_size + from) ≡ x % block_size - from = omega arith in
        p.bytes (x % block_size) (omega arith) ∙ rw k (ground arith)

    outside :
        (x : ℕ)
        → x / block_size ≢ i
        → (old : ℕ → ℕ) → patched (i * block_size + from) piece old x ≡ old x
    outside x ne old = ground arith

    -- The bytes of the file after the write.
    pub byte_at-write :
        (x : ℕ) → x < 2 ^ 44 → byte_at g d x ≡ patched (i * block_size + from) piece (byte_at f d) x
    unfolding byte_at
    byte_at-write x lt =
        rw (mapped-write (x / block_size)) (elim (Bool-cases (x / block_size == i)) [
          | inl here ↦
              let h : x / block_size ≡ i = ground arith in
              let z : (b == 0) ≡ false = ground arith in rw (ap (mapped f d) h ∙ at, z) (inside x h)
          | inr there ↦
              let h : x / block_size ≢ i = λ e. ground arith in
              let ne : mapped f d (x / block_size) ≢ b =
                λ e. h (w.own i (x / block_size) (rw at nz) (e ∙ sym at)) in
              rw (same (mapped f d (x / block_size)) ne) (
                sym (
                  outside x h (λ y.
                    if mapped f d (x / block_size) == 0
                    then 0
                    else get_or (f (mapped f d (x / block_size))) (x % block_size) 0)))
        ])
