-- ===== src/Superblock/Layout.antt =====
-- The layout that `superblock_init` computes.
use nano_fs.Prelude.{ℕ, ◌+◌, ◌-◌, ◌*◌, ◌/◌, ◌^◌, ◌≤◌, ◌<◌, ◌≡◌, ◌⊎◌, ◌↔◌, arith, ok}
use nano_fs.Types.{Superblock, block_size}
use nano_fs.Superblock.{
  superblock_init, superblock_validate, modernfs_magic, modernfs_version, inode_total, journal_size,
}

-- The regions follow one another from block 1 to the last block, and those for inodes have room
-- for all of them.
pub record IsLayout (sb : Superblock) : Type 0 where
  pub journal : sb.journal_start ≡ 1
  pub inode_bitmap : sb.inode_bitmap_start ≡ sb.journal_start + sb.journal_blocks
  pub data_bitmap : sb.data_bitmap_start ≡ sb.inode_bitmap_start + sb.inode_bitmap_blocks
  pub inode_table : sb.inode_table_start ≡ sb.data_bitmap_start + sb.data_bitmap_blocks
  pub data_area : sb.data_start ≡ sb.inode_table_start + sb.inode_table_blocks
  pub whole : sb.data_start + sb.data_blocks ≡ sb.total_blocks
  pub some_data : 0 < sb.data_blocks
  pub free : sb.free_blocks + 1 ≡ sb.data_blocks
  pub inode_bits : sb.total_inodes ≤ 8 * block_size * sb.inode_bitmap_blocks
  pub inode_slots : sb.total_inodes ≤ block_size / 128 * sb.inode_table_blocks
  pub inodes : sb.free_inodes + 2 ≡ sb.total_inodes

pub inode_total_bounds : (t : ℕ) → (256 ≤ inode_total t) × (inode_total t ≤ 16384)
unfolding inode_total
inode_total_bounds t = ground arith

pub journal_size_bounds : (t : ℕ) → (256 ≤ journal_size t) × (journal_size t ≤ 2048)
unfolding journal_size
journal_size_bounds t = ground arith

pub inode_total_small :
    (t : ℕ) → 100 ≤ t → t < 2 ^ 32 → (inode_total t ≡ 256) ⊎ (256 * inode_total t + 100 ≤ t)
unfolding inode_total
inode_total_small t h w = ground arith

pub journal_size_small : (t : ℕ) → (journal_size t ≡ 256) ⊎ (8 * journal_size t ≤ t)
unfolding journal_size
journal_size_small t = ground arith

-- From 267 blocks on, up to the 2 ^ 22 blocks of the largest image, the regions partition the disk.
pub superblock_init-IsLayout : (t now : ℕ) → 267 ≤ t → t ≤ 2 ^ 22 → IsLayout (superblock_init t now)
unfolding superblock_init
superblock_init-IsLayout t now lo hi =
    omega (
      arith,
      inode_total_bounds t,
      journal_size_bounds t,
      inode_total_small t,
      journal_size_small t,
    )

-- From 267 blocks on, up to the 2 ^ 22 blocks of the largest image, the data bitmap has a bit for
-- every data block but at most one.
pub superblock_init-data_bits :
    (t now : ℕ)
    → 267 ≤ t
    → t ≤ 2 ^ 22
    → let sb = superblock_init t now in sb.data_blocks ≤ 8 * block_size * sb.data_bitmap_blocks + 1
unfolding superblock_init
superblock_init-data_bits t now lo hi =
    omega (
      arith,
      inode_total_bounds t,
      journal_size_bounds t,
      inode_total_small t,
      journal_size_small t,
    )

least_inodes : (t : ℕ) → 100 ≤ t → t < 266 → inode_total t ≡ 256
unfolding inode_total
least_inodes t lo hi = ground arith

pub least_journal : (t : ℕ) → t < 266 → journal_size t ≡ 256
unfolding journal_size
least_journal t hi = ground arith

-- A disk of 100 to 265 blocks gets no data bitmap, and a data area whose size has wrapped.
pub superblock_init-too_small :
    (t now : ℕ)
    → 100 ≤ t
    → t < 266
    → let sb = superblock_init t now in
      (sb.data_bitmap_blocks ≡ 0) × (sb.data_blocks ≡ 2 ^ 32 + t - 266)
unfolding superblock_init
superblock_init-too_small t now lo hi = (
  omega (arith, least_inodes t lo hi, least_journal t hi),
  omega (arith, least_inodes t lo hi, least_journal t hi),
)

-- The check accepts exactly the superblocks with the four values that it names.
pub superblock_validate_iff :
    (sb : Superblock)
    → (superblock_validate sb ≡ ok tt) ↔ (
        (sb.magic ≡ modernfs_magic)
        × (sb.version ≡ modernfs_version)
        × (sb.block_bytes ≡ block_size)
        × (sb.root_inum ≡ 1))
unfolding superblock_validate
superblock_validate_iff sb =
    (λ h. (ground arith, ground arith, ground arith, ground arith), λ h. ground arith)
