-- ===== src/Inode/Present.antt =====
-- `inode_bmap` with allocation, of a block that is there: it is looked up.
use nano_fs.Prelude.{
  ℕ, ◌-◌, ◌*◌, ◌/◌, ◌%◌, ◌≡◌, ◌≢◌, refl, ap, ◌∙◌, true, false, ltb, ◌==◌, u32, get_or, inl, inr,
  Bool-cases, arith, ◌<◌, ◌^◌,
}
use nano_fs.Types.{block_size, inode_direct_blocks}
use nano_fs.Os.{Block}
use nano_fs.BlockIo.{BlockIo}
use nano_fs.Words.{word_at}
use nano_fs.Inode.{
  Fs, per_block, load, slot, map_slot, bmap_direct, bmap_indirect, table_slot, second_level,
  map_table, bmap_double, bmap_index, inode_bmap,
}
use nano_fs.Inode.Kept.{Kept-trans, Looks, Looks-pure, Looks-bind, Looks-load}
use nano_fs.Inode.Lookup.{entry, entry2, mapped, Looks-too_far}

module _ (io : BlockIo) where
  Present-slot :
      (s : Fs io) (table idx : ℕ) (content : Block)
      → io.IsGood s.dev
      → word_at content idx ≢ 0
      → Looks io s (word_at content idx) (slot io table idx true content s)
  unfolding slot
  Present-slot s table idx content g nz =
      let n : (word_at content idx == 0) ≡ false = ground arith in
      rw n (Looks-pure io s (word_at content idx) g)

  Present-map_slot :
      (s : Fs io) (table idx : ℕ)
      → io.IsGood s.dev
      → entry (io.contents s.dev) table idx ≢ 0
      → Looks io s (entry (io.contents s.dev) table idx) (map_slot io table idx true s)
  unfolding map_slot
  Present-map_slot s table idx g nz =
      Looks-bind io (load io table) _ s (io.contents s.dev table) _ (Looks-load io s table g)
        (λ s' k. Present-slot s' table idx (io.contents s.dev table) k.good nz)

  Present-table_slot :
      (s : Fs io) (table idx : ℕ) (content : Block)
      → io.IsGood s.dev
      → word_at content idx ≢ 0
      → Looks io s (word_at content idx) (table_slot io table idx true content s)
  unfolding table_slot
  Present-table_slot s table idx content g nz =
      let n : (word_at content idx == 0) ≡ false = ground arith in
      rw n (Looks-pure io s (word_at content idx) g)

  Present-second_level :
      (s : Fs io) (idx t v : ℕ)
      → io.IsGood s.dev
      → t ≢ 0
      → entry (io.contents s.dev) t (idx % per_block) ≡ v
      → v ≢ 0
      → Looks io s v (second_level io idx true t s)
  unfolding second_level
  Present-second_level s idx t v g nz e nz' =
      let n : (t == 0) ≡ false = ground arith in
      rw (n, ← e) (Present-map_slot s t (idx % per_block) g (rw e nz'))

  Present-map_table :
      (s : Fs io) (table idx : ℕ)
      → io.IsGood s.dev
      → entry2 (io.contents s.dev) table idx ≢ 0
      → Looks io s (entry2 (io.contents s.dev) table idx) (map_table io table idx true s)
  unfolding map_table
  Present-map_table s table idx g nz =
      let f = io.contents s.dev in
      let t = entry f table (idx / per_block) in
      let nt : t ≢ 0 = λ e. nz (ground arith) in
      let n : (t == 0) ≡ false = ground arith in
      let v : entry f t (idx % per_block) ≡ entry2 f table idx = rw n refl in
      Looks-bind io (load io table) _ s (f table) _ (Looks-load io s table g) (λ s' k.
        Looks-bind io (table_slot io table (idx / per_block) true (f table)) _ s' t _
          (Present-table_slot s' table (idx / per_block) (f table) k.good nt)
          (λ s'' k'.
            Present-second_level s'' idx t (entry2 f table idx) k'.good nt
              (ap (λ b. word_at b (idx % per_block)) ((Kept-trans io k k').same t) ∙ v) nz))

  Present-indirect :
      (s : Fs io) (idx : ℕ)
      → io.IsGood s.dev
      → s.inode.disk.indirect ≢ 0
      → entry (io.contents s.dev) s.inode.disk.indirect idx ≢ 0
      → Looks io s
          (entry (io.contents s.dev) s.inode.disk.indirect idx)
          (bmap_indirect io idx true s)
  unfolding bmap_indirect
  Present-indirect s idx g nz nz' =
      let n : (s.inode.disk.indirect == 0) ≡ false = ground arith in
      rw n (Present-map_slot s s.inode.disk.indirect idx g nz')

  Present-double :
      (s : Fs io) (idx : ℕ)
      → io.IsGood s.dev
      → s.inode.disk.double_indirect ≢ 0
      → entry2 (io.contents s.dev) s.inode.disk.double_indirect idx ≢ 0
      → Looks io s
          (entry2 (io.contents s.dev) s.inode.disk.double_indirect idx)
          (bmap_double io idx true s)
  unfolding bmap_double
  Present-double s idx g nz nz' =
      let n : (s.inode.disk.double_indirect == 0) ≡ false = ground arith in
      rw n (Present-map_table s s.inode.disk.double_indirect idx g nz')

  Present-direct :
      (s : Fs io) (idx : ℕ)
      → io.IsGood s.dev
      → get_or s.inode.disk.direct idx 0 ≢ 0
      → Looks io s (get_or s.inode.disk.direct idx 0) (bmap_direct io idx true s)
  unfolding bmap_direct
  Present-direct s idx g nz =
      let n : (get_or s.inode.disk.direct idx 0 == 0) ≡ false = ground arith in
      rw n (Looks-pure io s (get_or s.inode.disk.direct idx 0) g)

  Present-index :
      (s : Fs io) (idx : ℕ)
      → io.IsGood s.dev
      → mapped (io.contents s.dev) s.inode.disk idx ≢ 0
      → Looks io s (mapped (io.contents s.dev) s.inode.disk idx) (bmap_index io idx true s)
  unfolding bmap_index mapped
  Present-index s idx g nz = elim (Bool-cases (ltb idx inode_direct_blocks)) [
    | inl near ↦ rw near (Present-direct s idx g (rw near at nz))
    | inr far ↦ elim (Bool-cases (ltb (idx - inode_direct_blocks) per_block)) [
      | inl near ↦
          let nz' = rw (far, near) at nz in
          let n : s.inode.disk.indirect ≢ 0 = λ e. nz' (ground arith) in
          let z : (s.inode.disk.indirect == 0) ≡ false = ground arith in
          rw (far, near, z) (Present-indirect s (idx - inode_direct_blocks) g n (rw z at nz'))
      | inr off ↦
          let nz' = rw (far, off) at nz in
          let n : s.inode.disk.double_indirect ≢ 0 = λ e. nz' (ground arith) in
          let z : (s.inode.disk.double_indirect == 0) ≡ false = ground arith in
          elim (Bool-cases (ltb (idx - inode_direct_blocks - per_block) (per_block * per_block))) [
            | inl near ↦
                rw (far, off, near, z)
                  (Present-double s (idx - inode_direct_blocks - per_block) g n (rw z at nz'))
            | inr out ↦ rw (far, off, out) (Looks-too_far io s _ g)
          ]
    ]
  ]

  pub inode_bmap-Present :
      (s : Fs io) (offset : ℕ)
      → io.IsGood s.dev
      → offset < 2 ^ 44
      → mapped (io.contents s.dev) s.inode.disk (offset / block_size) ≢ 0
      → Looks io s
          (mapped (io.contents s.dev) s.inode.disk (offset / block_size))
          (inode_bmap io offset true s)
  unfolding inode_bmap
  inode_bmap-Present s offset g lt nz =
      let e : u32 (offset / block_size) ≡ offset / block_size = omega arith in
      rw e (Present-index s (offset / block_size) g nz)
