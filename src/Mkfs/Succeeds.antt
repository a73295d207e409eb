-- ===== src/Mkfs/Succeeds.antt =====
-- When mkfs succeeds, on a device whose blocks can be written and no others.
use nano_fs.Prelude.{
  ℕ, zero, suc, ◌+◌, ◌-◌, ◌≤◌, ◌<◌, ◌*◌, ◌^◌, ◌≢◌, ◌==◌, ==_iff, Result, err, Errno, ◌≡◌, ◌↔◌, refl,
  true, false, ◌/◌, eio, ◌||◌, ok, Bool-cases, inl, inr, ltb, u32, arith,
}
use nano_fs.Types.{Superblock, block_size}
use nano_fs.Os.{Block}
use nano_fs.BlockIo.{BlockIo}
use nano_fs.Inode.{zeros}
use nano_fs.Superblock.{superblock_write, superblock_init}
use nano_fs.Superblock.Reload.{superblock_write-succeeds}
use nano_fs.Superblock.Layout.{least_journal}
use nano_fs.Mkfs.Layout.{IsRoomy, superblock_init-IsRoomy, image_blocks-some}
use nano_fs.Mkfs.{
  journal_superblock, root_table, root_block, first_inode_bits, first_data_bits, Step, next_if,
  and_then, write_block, fill_from, init_inode_bitmap, init_data_bitmap, init_inode_table,
  init_root_directory, init_journal, sync_ignored, write_image, sized, image_blocks, mkfs,
}

module _ (io : BlockIo) (total : ℕ) (small : total ≤ 2 ^ 22)
    (writes : (b : ℕ) (d : Block) (dev : io.Dev) → b < total → (io.write b d dev).0 ≡ ok tt)
    (syncs : (dev : io.Dev) → (io.sync dev).0 ≡ ok tt) where
  abbrev Succeeds : Step io → Type 0
  Succeeds step = (dev : io.Dev) → (step dev).0 ≡ ok tt

  Succeeds-and_then : (a b : Step io) → Succeeds a → Succeeds b → Succeeds (and_then io a b)
  unfolding and_then next_if
  Succeeds-and_then a b f g dev = rw (f dev) (g (a dev).1)

  Succeeds-write_block : (b : ℕ) (content : Block) → b < total → Succeeds (write_block io b content)
  unfolding write_block
  Succeeds-write_block b content lt dev = rw (writes b content dev lt) refl

  Succeeds-fill_from :
      (rounds start i : ℕ) (content : Block)
      → start + i + rounds ≤ total
      → Succeeds (fill_from io rounds start i content)
  unfolding fill_from
  Succeeds-fill_from zero start i content le dev = refl
  Succeeds-fill_from (suc rounds) start i content le dev =
      Succeeds-and_then (write_block io (u32 (start + i)) content)
        (fill_from io rounds start (i + 1) zeros) (Succeeds-write_block _ content (omega arith))
        (Succeeds-fill_from rounds start (i + 1) zeros (omega arith)) dev

  module _ (sb : Superblock) (r : IsRoomy sb) (size : sb.total_blocks ≡ total) where
    data_inside : sb.data_start < total
    data_inside = omega (arith, r.layout.whole, r.layout.some_data, size)

    Succeeds-init_journal : Succeeds (init_journal io sb)
    unfolding init_journal
    Succeeds-init_journal =
        let l = r.layout in
        Succeeds-and_then (write_block io sb.journal_start (journal_superblock sb.journal_blocks))
          (fill_from io (sb.journal_blocks - 1) sb.journal_start 1 zeros)
          (Succeeds-write_block sb.journal_start (journal_superblock sb.journal_blocks)
            (omega (arith, l, data_inside, r.journal)))
          (Succeeds-fill_from (sb.journal_blocks - 1) sb.journal_start 1 zeros
            (omega (arith, l, data_inside, r.journal)))

    Succeeds-init_inode_table : (now : ℕ) → Succeeds (init_inode_table io now sb)
    unfolding init_inode_table
    Succeeds-init_inode_table now =
        let l = r.layout in
        Succeeds-and_then (fill_from io sb.inode_table_blocks sb.inode_table_start 0 zeros)
          (write_block io sb.inode_table_start (root_table sb now))
          (Succeeds-fill_from sb.inode_table_blocks sb.inode_table_start 0 zeros
            (omega (arith, l, data_inside)))
          (Succeeds-write_block sb.inode_table_start (root_table sb now)
            (omega (arith, l, data_inside)))

    Succeeds-write_image : (now : ℕ) → Succeeds (write_image io now sb)
    unfolding write_image init_inode_bitmap init_data_bitmap init_root_directory sync_ignored
    Succeeds-write_image now =
        let l = r.layout in
        let s5 = and_then io (init_root_directory io sb) (sync_ignored io) in
        let s4 = and_then io (init_inode_table io now sb) s5 in
        let s3 = and_then io (init_data_bitmap io sb) s4 in
        let s2 = and_then io (init_inode_bitmap io sb) s3 in
        let s1 = and_then io (init_journal io sb) s2 in
        Succeeds-and_then (superblock_write io sb) s1
          (λ dev.
            superblock_write-succeeds io sb dev (λ d w. writes 0 d w (omega (arith, data_inside)))
              syncs)
          (Succeeds-and_then (init_journal io sb) s2 Succeeds-init_journal (
            Succeeds-and_then (init_inode_bitmap io sb) s3
              (Succeeds-fill_from sb.inode_bitmap_blocks sb.inode_bitmap_start 0 first_inode_bits
                (omega (arith, l, data_inside)))
              (Succeeds-and_then (init_data_bitmap io sb) s4
                (Succeeds-fill_from sb.data_bitmap_blocks sb.data_bitmap_start 0 first_data_bits
                  (omega (arith, l, data_inside)))
                (Succeeds-and_then (init_inode_table io now sb) s5 (Succeeds-init_inode_table now) (
                  Succeeds-and_then (init_root_directory io sb) (sync_ignored io)
                    (Succeeds-write_block sb.data_start root_block data_inside) (λ dev. refl))))))

-- A region that goes on to the block behind the device.
module _ (io : BlockIo) (total : ℕ) (small : total < 2 ^ 22)
    (refuses : (d : Block) (dev : io.Dev) → (io.write total d dev).0 ≢ ok tt) where
  abbrev Fails : Step io → Type 0
  Fails step = (dev : io.Dev) → (step dev).0 ≢ ok tt

  next_if_ok :
      (r : Result Errno (Unit {0})) (next : Step io) (dev : io.Dev)
      → (next_if io r next dev).0 ≡ ok tt
      → (r ≡ ok tt) × ((next dev).0 ≡ ok tt)
  unfolding next_if
  next_if_ok (ok u) next dev h = (refl, h)
  next_if_ok (err e) next dev h = cc

  Fails-first : (a b : Step io) → Fails a → Fails (and_then io a b)
  unfolding and_then
  Fails-first a b f dev h = f dev (next_if_ok (a dev).0 b (a dev).1 h).0

  Fails-second : (a b : Step io) → Fails b → Fails (and_then io a b)
  unfolding and_then
  Fails-second a b f dev h = f (a dev).1 (next_if_ok (a dev).0 b (a dev).1 h).1

  written_ok :
      (r : Result Errno (Unit {0})) → (elim r [ ok u ↦ ok u | err e ↦ err eio ]) ≡ ok tt → r ≡ ok tt
  written_ok (ok u) h = refl
  written_ok (err e) h = cc

  Fails-write_block : (content : Block) → Fails (write_block io total content)
  unfolding write_block
  Fails-write_block content dev h =
      refuses content dev (written_ok (io.write total content dev).0 h)

  Fails-fill_from :
      (rounds start i : ℕ) (content : Block)
      → start + i + rounds ≡ total
      → Fails (fill_from io (suc rounds) start i content)
  unfolding fill_from
  Fails-fill_from zero start i content e =
      let place : u32 (start + i) ≡ total = omega arith in
      rw place (Fails-first (write_block io total content) _ (Fails-write_block content))
  Fails-fill_from (suc rounds) start i content e =
      Fails-second (write_block io (u32 (start + i)) content) _
        (Fails-fill_from rounds start (i + 1) zeros (omega arith))

  Fails-write_image :
      (now : ℕ) (sb : Superblock)
      → sb.journal_start ≡ 1
      → sb.journal_blocks ≡ total
      → 2 ≤ total
      → Fails (write_image io now sb)
  unfolding write_image init_journal
  Fails-write_image now sb start size two = Fails-second (superblock_write io sb) _ (
      Fails-first (init_journal io sb) _ (
        Fails-second (write_block io sb.journal_start (journal_superblock sb.journal_blocks)) _ (
          let e : sb.journal_blocks - 1 ≡ suc (total - 2) = omega arith in
          rw (e, start) (Fails-fill_from (total - 2) 1 1 zeros (omega arith)))))

module _ (io : BlockIo) (size_mb : ℕ)
    (writes : (b : ℕ) (d : Block) (dev : io.Dev)
      → ((io.write b d dev).0 ≡ ok tt) ↔ (b < 256 * size_mb))
    (syncs : (dev : io.Dev) → (io.sync dev).0 ≡ ok tt) (now now' : ℕ) (dev : io.Dev) where
  made : (2 ≤ size_mb) × (size_mb ≤ 16384) → (mkfs io size_mb now now' dev).0 ≡ ok tt
  unfolding mkfs sized
  made h = rw (image_blocks-some size_mb h.0 h.1) (
      Succeeds-write_image io (256 * size_mb) (omega (arith, h.1)) (λ b d w lt. (writes b d w).1 lt)
        syncs (superblock_init (256 * size_mb) now)
        (superblock_init-IsRoomy (256 * size_mb) now (omega (arith, h.0)) (omega (arith, h.1)))
        (unfold superblock_init in refl) now' dev)

  -- One megabyte has 256 blocks, and the journal goes on to block 256.
  one_fails : size_mb ≡ 1 → (mkfs io size_mb now now' dev).0 ≢ ok tt
  unfolding mkfs sized image_blocks
  one_fails e =
      let fine : (ltb size_mb 1 || ltb 16384 size_mb) ≡ false = ground arith in
      let blocks : u32 (size_mb * 1024 * 1024 / block_size) ≡ 256 = omega arith in
      rw (fine, blocks)
        (Fails-write_image io 256 (omega arith)
          (λ d w h. let lt = (writes 256 d w).0 h in omega arith) now' (superblock_init 256 now)
          (unfold superblock_init in refl)
          (unfold superblock_init in least_journal 256 (omega arith)) (omega arith) dev)

  refused_fails :
      (ltb size_mb 1 || ltb 16384 size_mb) ≡ true → (mkfs io size_mb now now' dev).0 ≢ ok tt
  unfolding mkfs sized image_blocks
  refused_fails refused = rw refused (λ h. cc)

  -- On a device of as many blocks as the size says, where writes of those succeed and no others, and syncs succeed:
  -- mkfs succeeds exactly for the sizes from 2 to 16384 megabytes.
  pub mkfs_succeeds :
      ((mkfs io size_mb now now' dev).0 ≡ ok tt) ↔ ((2 ≤ size_mb) × (size_mb ≤ 16384))
  mkfs_succeeds = (
    (λ h. elim (Bool-cases (ltb size_mb 1 || ltb 16384 size_mb)) [
      | inl refused ↦ absurd (refused_fails refused h)
      | inr fine ↦ elim (Bool-cases (size_mb == 1)) [
        | inl e ↦ absurd (one_fails ((==_iff size_mb 1).0 e) h)
        | inr ne ↦ (ground arith, ground arith)
      ]
    ]),
    made,
  )
