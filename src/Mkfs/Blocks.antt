-- ===== src/Mkfs/Blocks.antt =====
-- The blocks of a new image.
use nano_fs.Prelude.{ℕ, ◌≡◌, refl, ◌++◌, ◌==◌, if◌then◌else◌, replicate, arith}
use nano_fs.Types.{Superblock}
use nano_fs.Types.Bytes.{superblock_bytes}
use nano_fs.Os.{Block}
use nano_fs.Inode.{zeros}
use nano_fs.Superblock.Layout.{IsLayout}
use nano_fs.Mkfs.{first_inode_bits, first_data_bits, root_table, root_block, journal_superblock}
use nano_fs.Mkfs.Layout.{IsRoomy}

-- What the block `q` of a new image holds.
unfoldable pub disk_image : Superblock → ℕ → ℕ → Block
disk_image sb now q =
    if q == 0
    then superblock_bytes sb ++ replicate 8 0
    else if q == sb.journal_start
    then journal_superblock sb.journal_blocks
    else if q == sb.inode_bitmap_start
    then first_inode_bits
    else if q == sb.data_bitmap_start
    then first_data_bits
    else if q == sb.inode_table_start
    then root_table sb now
    else if q == sb.data_start
    then root_block
    else zeros

module _ (sb : Superblock) (now : ℕ) (r : IsRoomy sb) where
  abbrev l : IsLayout sb
  l = r.layout

  pub image_at_start : disk_image sb now 0 ≡ superblock_bytes sb ++ replicate 8 0
  unfolding disk_image
  image_at_start = refl

  pub image_at_inode_bitmap : disk_image sb now sb.inode_bitmap_start ≡ first_inode_bits
  unfolding disk_image
  image_at_inode_bitmap = ground (arith, l.journal, l.inode_bitmap, r.journal)

  pub image_at_data_bitmap : disk_image sb now sb.data_bitmap_start ≡ first_data_bits
  unfolding disk_image
  image_at_data_bitmap =
      ground (arith, l.journal, l.inode_bitmap, l.data_bitmap, r.journal, r.inode_bitmap)

  pub image_at_table : disk_image sb now sb.inode_table_start ≡ root_table sb now
  unfolding disk_image
  image_at_table = ground (
    arith, l.journal, l.inode_bitmap, l.data_bitmap, l.inode_table, r.journal, r.inode_bitmap,
    r.data_bitmap,
  )

  pub image_at_data : disk_image sb now sb.data_start ≡ root_block
  unfolding disk_image
  image_at_data = ground (
    arith, l.journal, l.inode_bitmap, l.data_bitmap, l.inode_table, l.data_area, r.journal,
    r.inode_bitmap, r.data_bitmap, r.inode_table,
  )
