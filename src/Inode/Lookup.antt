-- ===== src/Inode/Lookup.antt =====
-- `inode_bmap` without allocation looks the block up and changes nothing but the device's cache.
use nano_fs.Prelude.{
  ℕ, ◌-◌, ◌*◌, ◌/◌, ◌%◌, ◌≡◌, refl, false, fun_ext, ltb, ◌==◌, if◌then◌else◌, u32, get_or, inl, inr,
  Bool-cases, ==_iff, ◌<◌, ◌^◌, arith,
}
use nano_fs.Types.{DiskInode, block_size, inode_direct_blocks}
use nano_fs.Os.{Block}
use nano_fs.BlockIo.{BlockIo}
use nano_fs.Words.{word_at}
use nano_fs.Inode.{
  Fs, per_block, load, slot, map_slot, bmap_direct, bmap_indirect, table_slot, second_level,
  map_table, bmap_double, too_far, bmap_index, inode_bmap,
}
use nano_fs.Inode.Kept.{Kept, Looks, Kept-refl, Kept-trans, Looks-pure, Looks-bind, Looks-load}

-- The entry `idx` of the table in block `table`, and the block behind it in the two-level table.
abbrev pub entry : (ℕ → Block) → ℕ → ℕ → ℕ
entry f table idx = word_at (f table) idx

abbrev pub entry2 : (ℕ → Block) → ℕ → ℕ → ℕ
entry2 f table idx =
    let t = entry f table (idx / per_block) in if t == 0 then 0 else entry f t (idx % per_block)

-- The block of the file's block `idx` by the blocks `f` of the device; 0 is a hole.
unfoldable pub mapped : (ℕ → Block) → DiskInode → ℕ → ℕ
mapped f d idx =
    if ltb idx inode_direct_blocks
    then get_or d.direct idx 0
    else if ltb (idx - inode_direct_blocks) per_block
    then (if d.indirect == 0 then 0 else entry f d.indirect (idx - inode_direct_blocks))
    else if d.double_indirect == 0
    then 0
    else entry2 f d.double_indirect (idx - inode_direct_blocks - per_block)

-- The access time has no part in it.
pub mapped-atime :
    (f : ℕ → Block) (d : DiskInode) (t idx : ℕ)
    → mapped f (record d { atime = t }) idx ≡ mapped f d idx
unfolding mapped
mapped-atime f d t idx = refl

module _ (io : BlockIo) where
  Looks-slot :
      (s : Fs io) (table idx : ℕ) (content : Block)
      → io.IsGood s.dev
      → Looks io s (word_at content idx) (slot io table idx false content s)
  unfolding slot
  Looks-slot s table idx content g = elim (Bool-cases (word_at content idx == 0)) [
    | inl z ↦ rw ((==_iff (word_at content idx) 0).0 z) (Looks-pure io s 0 g)
    | inr n ↦ rw n (Looks-pure io s (word_at content idx) g)
  ]

  Looks-map_slot :
      (s : Fs io) (table idx : ℕ)
      → io.IsGood s.dev
      → Looks io s (entry (io.contents s.dev) table idx) (map_slot io table idx false s)
  unfolding map_slot
  Looks-map_slot s table idx g =
      Looks-bind io (load io table) _ s (io.contents s.dev table) _ (Looks-load io s table g)
        (λ s' k. Looks-slot s' table idx (io.contents s.dev table) k.good)

  Looks-table_slot :
      (s : Fs io) (table idx : ℕ) (content : Block)
      → io.IsGood s.dev
      → Looks io s (word_at content idx) (table_slot io table idx false content s)
  unfolding table_slot
  Looks-table_slot s table idx content g = elim (Bool-cases (word_at content idx == 0)) [
    | inl z ↦ rw ((==_iff (word_at content idx) 0).0 z) (Looks-pure io s 0 g)
    | inr n ↦ rw n (Looks-pure io s (word_at content idx) g)
  ]

  Looks-second_level :
      (s : Fs io) (idx t : ℕ)
      → io.IsGood s.dev
      → Looks io s
          (if t == 0 then 0 else entry (io.contents s.dev) t (idx % per_block))
          (second_level io idx false t s)
  unfolding second_level
  Looks-second_level s idx t g = elim (Bool-cases (t == 0)) [
    | inl z ↦ rw z (Looks-pure io s 0 g)
    | inr n ↦ rw n (Looks-map_slot s t (idx % per_block) g)
  ]

  Looks-map_table :
      (s : Fs io) (table idx : ℕ)
      → io.IsGood s.dev
      → Looks io s (entry2 (io.contents s.dev) table idx) (map_table io table idx false s)
  unfolding map_table
  Looks-map_table s table idx g =
      Looks-bind io (load io table) _ s (io.contents s.dev table) _ (Looks-load io s table g)
        (λ s' k.
          Looks-bind io (table_slot io table (idx / per_block) false (io.contents s.dev table)) _ s'
            (entry (io.contents s.dev) table (idx / per_block)) _
            (Looks-table_slot s' table (idx / per_block) (io.contents s.dev table) k.good)
            (λ s'' k'.
              rw (← fun_ext (Kept-trans io k k').same) (Looks-second_level s'' idx _ k'.good)))

  Looks-direct :
      (s : Fs io) (idx : ℕ)
      → io.IsGood s.dev
      → Looks io s (get_or s.inode.disk.direct idx 0) (bmap_direct io idx false s)
  unfolding bmap_direct
  Looks-direct s idx g = elim (Bool-cases (get_or s.inode.disk.direct idx 0 == 0)) [
    | inl z ↦ rw ((==_iff (get_or s.inode.disk.direct idx 0) 0).0 z) (Looks-pure io s 0 g)
    | inr n ↦ rw n (Looks-pure io s (get_or s.inode.disk.direct idx 0) g)
  ]

  Looks-indirect :
      (s : Fs io) (idx : ℕ)
      → io.IsGood s.dev
      → Looks io s
          (if s.inode.disk.indirect == 0
            then 0
            else entry (io.contents s.dev) s.inode.disk.indirect idx)
          (bmap_indirect io idx false s)
  unfolding bmap_indirect
  Looks-indirect s idx g = elim (Bool-cases (s.inode.disk.indirect == 0)) [
    | inl z ↦ rw z (Looks-pure io s 0 g)
    | inr n ↦ rw n (Looks-map_slot s s.inode.disk.indirect idx g)
  ]

  Looks-double :
      (s : Fs io) (idx : ℕ)
      → io.IsGood s.dev
      → Looks io s
          (if s.inode.disk.double_indirect == 0
            then 0
            else entry2 (io.contents s.dev) s.inode.disk.double_indirect idx)
          (bmap_double io idx false s)
  unfolding bmap_double
  Looks-double s idx g = elim (Bool-cases (s.inode.disk.double_indirect == 0)) [
    | inl z ↦ rw z (Looks-pure io s 0 g)
    | inr n ↦ rw n (Looks-map_table s s.inode.disk.double_indirect idx g)
  ]

  pub Looks-too_far : (s : Fs io) (v : ℕ) → io.IsGood s.dev → Looks io s v (too_far io s)
  unfolding too_far
  Looks-too_far s v g = record { kept = Kept-refl io s g; result = λ a e. cc; no_enoent = λ e. cc }

  Looks-index :
      (s : Fs io) (idx : ℕ)
      → io.IsGood s.dev
      → Looks io s (mapped (io.contents s.dev) s.inode.disk idx) (bmap_index io idx false s)
  unfolding bmap_index mapped
  Looks-index s idx g = elim (Bool-cases (ltb idx inode_direct_blocks)) [
    | inl near ↦ rw near (Looks-direct s idx g)
    | inr far ↦ elim (Bool-cases (ltb (idx - inode_direct_blocks) per_block)) [
      | inl near ↦ rw (far, near) (Looks-indirect s (idx - inode_direct_blocks) g)
      | inr off ↦
          elim (Bool-cases (ltb (idx - inode_direct_blocks - per_block) (per_block * per_block))) [
            | inl near ↦
                rw (far, off, near) (Looks-double s (idx - inode_direct_blocks - per_block) g)
            | inr out ↦ rw (far, off, out) (Looks-too_far s _ g)
          ]
    ]
  ]

  -- On a good device, without allocation, for an offset below 2^44, `inode_bmap` returns the block that the file's block
  -- is mapped to through the direct, indirect and double indirect tables, 0 for a hole, or fails (never with ENOENT), and changes neither the inode nor the allocator nor a block of the device.
  pub inode_bmap-Looks :
      (s : Fs io) (offset : ℕ)
      → io.IsGood s.dev
      → offset < 2 ^ 44
      → Looks io s
          (mapped (io.contents s.dev) s.inode.disk (offset / block_size))
          (inode_bmap io offset false s)
  unfolding inode_bmap
  inode_bmap-Looks s offset g lt =
      let e : u32 (offset / block_size) ≡ offset / block_size = omega arith in
      rw e (Looks-index s (offset / block_size) g)

  -- Only the device's own state changes, at any offset.
  pub inode_bmap-Kept :
      (s : Fs io) (offset : ℕ) → io.IsGood s.dev → Kept io s (inode_bmap io offset false s).1
  unfolding inode_bmap
  inode_bmap-Kept s offset g = (Looks-index s (u32 (offset / block_size)) g).kept
