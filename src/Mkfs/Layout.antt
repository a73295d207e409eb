-- ===== src/Mkfs/Layout.antt =====
-- The regions of an image that mkfs makes.
use nano_fs.Prelude.{ℕ, ◌*◌, ◌/◌, ◌≤◌, ◌<◌, ◌^◌, ◌≡◌, some, u32, arith}
use nano_fs.Types.{Superblock}
use nano_fs.Superblock.{superblock_init}
use nano_fs.Superblock.Layout.{
  IsLayout, superblock_init-IsLayout, superblock_init-data_bits, inode_total_bounds,
  journal_size_bounds, inode_total_small, journal_size_small,
}
use nano_fs.Mkfs.{image_blocks}

-- Each region has a block, and no block number wraps.
pub record IsRoomy (sb : Superblock) : Type 0 where
  pub layout : IsLayout sb
  pub journal : 0 < sb.journal_blocks
  pub inode_bitmap : 0 < sb.inode_bitmap_blocks
  pub data_bitmap : 0 < sb.data_bitmap_blocks
  pub inode_table : 0 < sb.inode_table_blocks
  pub small : sb.total_blocks ≤ 2 ^ 22

pub superblock_init-IsRoomy : (t now : ℕ) → 512 ≤ t → t ≤ 2 ^ 22 → IsRoomy (superblock_init t now)
superblock_init-IsRoomy t now lo hi = record {
  layout = l;
  journal = unfold superblock_init in omega (arith, journal_size_bounds t);
  inode_bitmap = omega (arith, l.inode_bits, l.inodes);
  data_bitmap = omega (arith, superblock_init-data_bits t now (omega arith) hi, many);
  inode_table = omega (arith, l.inode_slots, l.inodes);
  small = unfold superblock_init in hi;
}
  where
    l : IsLayout (superblock_init t now)
    l = superblock_init-IsLayout t now (omega arith) hi

    many : 1 < (superblock_init t now).data_blocks
    many =
        unfold superblock_init in
        omega (
          arith,
          inode_total_bounds t,
          journal_size_bounds t,
          inode_total_small t,
          journal_size_small t,
        )

-- From 2 megabytes on `main` makes an image of the blocks that they hold.
pub image_blocks-some :
    (size_mb : ℕ) → 2 ≤ size_mb → size_mb ≤ 16384 → image_blocks size_mb ≡ some (256 * size_mb)
unfolding image_blocks
image_blocks-some size_mb lo hi =
    let e : u32 (size_mb * 1024 * 1024 / 4096) ≡ 256 * size_mb = omega arith in ground arith
