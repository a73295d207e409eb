-- ===== src/Mkfs/Image.antt =====
-- `write_image` writes the blocks of a new image.
use nano_fs.Prelude.{ℕ, ◌+◌, ◌-◌, ◌≤◌, ◌<◌, ◌^◌, ◌≡◌, refl, sym, ◌∙◌, arith}
use nano_fs.Types.{Superblock}
use nano_fs.Os.{Block}
use nano_fs.BlockIo.{BlockIo}
use nano_fs.Inode.{zeros}
use nano_fs.Superblock.Layout.{IsLayout}
use nano_fs.Superblock.{superblock_write}
use nano_fs.Superblock.Reload.{superblock_write-Stores}
use nano_fs.Mkfs.{
  first_inode_bits, first_data_bits, root_table, root_block, journal_superblock, write_block,
  fill_from, init_inode_bitmap, init_data_bitmap, init_inode_table, init_root_directory,
  init_journal, sync_ignored, write_image,
}
use nano_fs.Mkfs.Layout.{IsRoomy}
use nano_fs.Mkfs.Blocks.{
  disk_image, image_at_start, image_at_inode_bitmap, image_at_data_bitmap, image_at_table,
  image_at_data,
}
use nano_fs.Mkfs.Fills.{
  Fills, Fills-and_then, Fills-write_block, Fills-fill_from, Fills-overwrite, Fills-sync_ignored,
}

module _ (io : BlockIo) (sb : Superblock) (now : ℕ) (r : IsRoomy sb) where
  open io use {Dev, IsGood, contents}

  abbrev image : ℕ → Block
  image = disk_image sb now

  abbrev l : IsLayout sb
  l = r.layout

  Fills-superblock :
      (dev : Dev) → IsGood dev → Fills io image 0 sb.journal_start dev (superblock_write io sb dev)
  Fills-superblock dev g =
      let s = superblock_write-Stores io sb dev g in
      record {
        good = s.good;
        others = λ q away. s.others q (ground (arith, l.journal));
        filled = λ h q ge lt.
            let z : 0 ≡ q = omega (arith, l.journal) in
            rw (← z) (s.stored h ∙ sym (image_at_start sb now r));
      }

  Fills-init_journal :
      (dev : Dev)
      → IsGood dev
      → Fills io image sb.journal_start sb.inode_bitmap_start dev (init_journal io sb dev)
  unfolding init_journal
  Fills-init_journal dev g =
      Fills-and_then io image sb.journal_start (sb.journal_start + 1) sb.inode_bitmap_start
        (omega arith) (omega (arith, l.inode_bitmap, r.journal))
        (write_block io sb.journal_start (journal_superblock sb.journal_blocks))
        (fill_from io (sb.journal_blocks - 1) sb.journal_start 1 zeros) dev
        (Fills-write_block io image sb.journal_start (journal_superblock sb.journal_blocks) dev g
          first)
        (λ d g'.
          Fills-fill_from io image (sb.journal_blocks - 1) sb.journal_start 1 (sb.journal_start + 1)
            sb.inode_bitmap_start zeros d g' refl (omega (arith, l.inode_bitmap, r.journal)) small
            (λ pos. rest (sb.journal_start + 1) (omega arith) (omega (arith, l.inode_bitmap)))
            (λ q gt lt. rest q (omega arith) lt))
    where
      first : image sb.journal_start ≡ journal_superblock sb.journal_blocks
      first = unfold disk_image in ground (arith, l.journal)

      small : sb.inode_bitmap_start ≤ 2 ^ 22
      small = omega (arith, l.data_bitmap, l.inode_table, l.data_area, l.whole, r.small)

      rest : (q : ℕ) → sb.journal_start < q → q < sb.inode_bitmap_start → image q ≡ zeros
      rest q gt lt =
          unfold disk_image in ground (arith, l.journal, l.data_bitmap, l.inode_table, l.data_area)

  end_small : sb.data_start + 1 ≤ 2 ^ 22
  end_small = omega (arith, l.whole, l.some_data, r.small)

  Fills-init_inode_bitmap :
      (dev : Dev)
      → IsGood dev
      → Fills io image sb.inode_bitmap_start sb.data_bitmap_start dev (init_inode_bitmap io sb dev)
  unfolding init_inode_bitmap
  Fills-init_inode_bitmap dev g =
      Fills-fill_from io image sb.inode_bitmap_blocks sb.inode_bitmap_start 0 sb.inode_bitmap_start
        sb.data_bitmap_start first_inode_bits dev g (omega arith) l.data_bitmap
        (omega (arith, l.inode_table, l.data_area, end_small))
        (λ pos. image_at_inode_bitmap sb now r)
        (λ q gt lt.
          unfold disk_image in
          ground (arith, l.journal, l.inode_bitmap, l.inode_table, l.data_area))

  Fills-init_data_bitmap :
      (dev : Dev)
      → IsGood dev
      → Fills io image sb.data_bitmap_start sb.inode_table_start dev (init_data_bitmap io sb dev)
  unfolding init_data_bitmap
  Fills-init_data_bitmap dev g =
      Fills-fill_from io image sb.data_bitmap_blocks sb.data_bitmap_start 0 sb.data_bitmap_start
        sb.inode_table_start first_data_bits dev g (omega arith) l.inode_table
        (omega (arith, l.data_area, end_small)) (λ pos. image_at_data_bitmap sb now r)
        (λ q gt lt.
          unfold disk_image in
          ground (arith, l.journal, l.inode_bitmap, l.data_bitmap, l.data_area))

  Fills-init_root_directory :
      (dev : Dev)
      → IsGood dev
      → Fills io image sb.data_start (sb.data_start + 1) dev (init_root_directory io sb dev)
  unfolding init_root_directory
  Fills-init_root_directory dev g =
      Fills-write_block io image sb.data_start root_block dev g (image_at_data sb now r)

  Fills-init_inode_table :
      (dev : Dev)
      → IsGood dev
      → Fills io image sb.inode_table_start sb.data_start dev (init_inode_table io now sb dev)
  unfolding init_inode_table
  Fills-init_inode_table dev g =
      Fills-overwrite io image (λ q. zeros) sb.inode_table_start sb.data_start (root_table sb now)
        (omega (arith, l.data_area, r.inode_table)) (image_at_table sb now r)
        (λ q gt lt.
          unfold disk_image in
          ground (arith, l.journal, l.inode_bitmap, l.data_bitmap, l.inode_table))
        (fill_from io sb.inode_table_blocks sb.inode_table_start 0 zeros) dev
        (Fills-fill_from io (λ q. zeros) sb.inode_table_blocks sb.inode_table_start 0
          sb.inode_table_start sb.data_start zeros dev g (omega arith) l.data_area
          (omega (arith, end_small)) (λ pos. refl) (λ q gt lt. refl))

  -- On a good device, for a layout of up to 2^22 blocks whose regions each have a block: a `write_image` that succeeds leaves on the device, up to the
  -- first block of the data area, the blocks of a new image; and no other block changes, also where it fails.
  pub write_image-Fills :
      (dev : Dev)
      → IsGood dev
      → Fills io (disk_image sb now) 0 (sb.data_start + 1) dev (write_image io now sb dev)
  unfolding write_image
  write_image-Fills dev g =
      let a0 : sb.journal_start ≤ sb.inode_bitmap_start = omega (arith, l.inode_bitmap) in
      let a1 : sb.inode_bitmap_start ≤ sb.data_bitmap_start = omega (arith, l.data_bitmap) in
      let a2 : sb.data_bitmap_start ≤ sb.inode_table_start = omega (arith, l.inode_table) in
      let a3 : sb.inode_table_start ≤ sb.data_start = omega (arith, l.data_area) in
      let end = sb.data_start + 1 in
      Fills-and_then io image 0 sb.journal_start end (omega arith) (omega arith)
        (superblock_write io sb) _ dev (Fills-superblock dev g)
        (λ d1 g1.
          Fills-and_then io image sb.journal_start sb.inode_bitmap_start end a0 (omega arith)
            (init_journal io sb) _ d1 (Fills-init_journal d1 g1)
            (λ d2 g2.
              Fills-and_then io image sb.inode_bitmap_start sb.data_bitmap_start end a1
                (omega arith) (init_inode_bitmap io sb) _ d2 (Fills-init_inode_bitmap d2 g2)
                (λ d3 g3.
                  Fills-and_then io image sb.data_bitmap_start sb.inode_table_start end a2
                    (omega arith) (init_data_bitmap io sb) _ d3 (Fills-init_data_bitmap d3 g3)
                    (λ d4 g4.
                      Fills-and_then io image sb.inode_table_start sb.data_start end a3
                        (omega arith) (init_inode_table io now sb) _ d4
                        (Fills-init_inode_table d4 g4)
                        (λ d5 g5.
                          Fills-and_then io image sb.data_start end end (omega arith) (omega arith)
                            (init_root_directory io sb) (sync_ignored io) d5
                            (Fills-init_root_directory d5 g5)
                            (λ d6 g6. Fills-sync_ignored io image end d6 g6))))))
