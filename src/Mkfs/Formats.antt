-- ===== src/Mkfs/Formats.antt =====
-- An image that mkfs makes is a file system with an empty root.
use nano_fs.Prelude.{
  ℕ, ◌+◌, ◌*◌, ◌/◌, ◌^◌, ◌≤◌, ◌<◌, ◌≡◌, refl, ap, ◌∙◌, false, inr, List, [], ◌∷◌, ok, ltb, ◌==◌,
  get_or, replicate, length-replicate, All-replicate, All-get_or, arith,
}
use nano_fs.Types.{Superblock, block_size}
use nano_fs.Types.Bytes.{superblock_of, IsSuperblock, superblock_of-superblock_bytes}
use nano_fs.Os.{Block}
use nano_fs.BlockIo.{BlockIo}
use nano_fs.Bitmap.{bitmap_test, bitmap_set, Fits}
use nano_fs.Bitmap.Laws.{test-set, set-Fits, test-zero_byte}
use nano_fs.Inode.{zeros}
use nano_fs.InodeCache.Sync.{stored}
use nano_fs.Directory.Listing.{Listing}
use nano_fs.Superblock.{superblock_init, superblock_validate}
use nano_fs.Superblock.Layout.{superblock_validate_iff, inode_total_bounds, journal_size_bounds}
use nano_fs.Mkfs.{
  or_first, first_inode_bits, first_data_bits, root_inode, dot_entry, dotdot_entry, sized, mkfs,
}
use nano_fs.Mkfs.Layout.{IsRoomy, superblock_init-IsRoomy, image_blocks-some}
use nano_fs.Mkfs.Blocks.{
  disk_image, image_at_start, image_at_inode_bitmap, image_at_data_bitmap, image_at_table,
  image_at_data,
}
use nano_fs.Mkfs.Image.{write_image-Fills}
use nano_fs.Mkfs.Root.{stored-root, Listing-root}

-- What the blocks `f` of a device hold after mkfs: the superblock, which is valid, the root with the
-- entries . and .., and the bitmaps, in which the first two inodes and the first data block are taken.
pub record IsFormatted (sb : Superblock) (now : ℕ) (f : ℕ → Block) : Type 0 where
  pub label : superblock_of (f 0) ≡ sb
  pub valid : superblock_validate sb ≡ ok tt
  pub root : stored f sb sb.root_inum ≡ root_inode sb now
  pub entries :
      (stack : List ℕ) → Listing f (root_inode sb now) stack 0 (dot_entry ∷ dotdot_entry ∷ [])
  pub inode_bits : (i : ℕ) → i < 8 * block_size → bitmap_test (f sb.inode_bitmap_start) i ≡ ltb i 2
  pub data_bits : (i : ℕ) → i < 8 * block_size → bitmap_test (f sb.data_bitmap_start) i ≡ (i == 0)

zeros-Fits : Fits zeros (8 * block_size)
unfolding zeros
zeros-Fits = record {
  bytes = All-replicate (λ b. b < 256) block_size 0 (omega arith);
  room = omega (arith, length-replicate {A = ℕ} block_size 0);
}

get_or-zeros : (i : ℕ) → get_or zeros i 0 ≡ 0
unfolding zeros
get_or-zeros i =
    All-get_or (λ b. b ≡ 0) (replicate block_size 0) i 0
      (All-replicate (λ b. b ≡ 0) block_size 0 refl) refl

test-zeros : (i : ℕ) → bitmap_test zeros i ≡ false
test-zeros i = test-zero_byte zeros i (get_or-zeros (i / 8))

test-first_data_bits : (i : ℕ) → i < 8 * block_size → bitmap_test first_data_bits i ≡ (i == 0)
test-first_data_bits i lt =
    let e : first_data_bits ≡ bitmap_set zeros 0 =
      unfold first_data_bits or_first bitmap_set in refl in
    rw (e, test-set zeros (8 * block_size) 0 i zeros-Fits (omega arith), test-zeros i)
      (ground arith)

test-first_inode_bits : (i : ℕ) → i < 8 * block_size → bitmap_test first_inode_bits i ≡ ltb i 2
test-first_inode_bits i lt =
    let e : first_inode_bits ≡ bitmap_set (bitmap_set zeros 0) 1 =
      unfold first_inode_bits or_first bitmap_set in refl in
    rw
      (
        e,
        test-set (bitmap_set zeros 0) (8 * block_size) 1 i (set-Fits zeros-Fits 0) (omega arith),
        test-set zeros (8 * block_size) 0 i zeros-Fits (omega arith),
        test-zeros i,
      )
      (ground arith)

init-IsSuperblock : (t now : ℕ) → t ≤ 2 ^ 22 → now < 2 ^ 64 → IsSuperblock (superblock_init t now)
unfolding superblock_init
init-IsSuperblock t now le lt = record {
  fields = omega (arith, inode_total_bounds t, journal_size_bounds t);
  padding = length-replicate {A = ℕ} 3988 0;
}

superblock_init-valid : (t now : ℕ) → superblock_validate (superblock_init t now) ≡ ok tt
unfolding superblock_init
superblock_init-valid t now =
    (superblock_validate_iff (superblock_init t now)).1 (refl, refl, refl, refl)

module _ (io : BlockIo) where
  open io use {Dev, IsGood, contents}

  formatted :
      (sb : Superblock) (now : ℕ) (f : ℕ → Block)
      → IsRoomy sb
      → IsSuperblock sb
      → superblock_validate sb ≡ ok tt
      → sb.root_inum ≡ 1
      → now < 2 ^ 64
      → ((q : ℕ) → q < sb.data_start + 1 → f q ≡ disk_image sb now q)
      → IsFormatted sb now f
  formatted sb now f r i v one early same =
      let l = r.layout in
      record {
        label =
            ap superblock_of (same 0 (omega arith) ∙ image_at_start sb now r)
            ∙ superblock_of-superblock_bytes sb (replicate 8 0) i;
        valid = v;
        root =
            ap (stored f sb) one
            ∙ stored-root sb now (omega (arith, l.whole, r.small)) early f
                (omega (arith, l.data_area, l.whole, r.small))
                (same sb.inode_table_start (omega (arith, l.data_area)) ∙ image_at_table sb now r);
        entries = λ stack.
            Listing-root sb now (omega (arith, l.whole, r.small)) early f stack
              (omega (arith, l.data_area, r.inode_table))
              (same sb.data_start (omega arith) ∙ image_at_data sb now r);
        inode_bits = λ i lt.
            ap (λ b. bitmap_test b i)
              (same sb.inode_bitmap_start (omega (arith, l.data_bitmap, l.inode_table, l.data_area))
                ∙ image_at_inode_bitmap sb now r)
            ∙ test-first_inode_bits i lt;
        data_bits = λ i lt.
            ap (λ b. bitmap_test b i)
              (same sb.data_bitmap_start (omega (arith, l.inode_table, l.data_area))
                ∙ image_at_data_bitmap sb now r)
            ∙ test-first_data_bits i lt;
      }

  -- On a good device, for a size of 2 to 16384 megabytes and times that fit: where mkfs succeeds, the device holds a valid
  -- superblock, that of `superblock_init` for all blocks of the image; inode 1 is the root, a directory with the entries
  -- . and .. and no other; and in the first blocks of the bitmaps exactly inodes 0 and 1 and the first data block are
  -- taken. No block behind the root's changes, also where it fails.
  pub mkfs-IsFormatted :
      (size_mb now now' : ℕ) (dev : Dev)
      → IsGood dev
      → 2 ≤ size_mb
      → size_mb ≤ 16384
      → now < 2 ^ 64
      → now' < 2 ^ 64
      → let sb = superblock_init (256 * size_mb) now in
        let out = mkfs io size_mb now now' dev in
        (out.0 ≡ ok tt → IsFormatted sb now' (contents out.1))
        × ((q : ℕ) → sb.data_start < q → contents out.1 q ≡ contents dev q)
  unfolding mkfs sized
  mkfs-IsFormatted size_mb now now' dev g lo hi early early' =
      let sb = superblock_init (256 * size_mb) now in
      let r = superblock_init-IsRoomy (256 * size_mb) now (omega arith) (omega arith) in
      let w = write_image-Fills io sb now' r dev g in
      rw (image_blocks-some size_mb lo hi) (
        (λ h.
            formatted sb now' _ r (init-IsSuperblock (256 * size_mb) now (omega arith) early)
              (superblock_init-valid (256 * size_mb) now) (unfold superblock_init in refl) early'
              (λ q lt. w.filled h q (omega arith) lt)),
        (λ q gt. w.others q (inr (omega arith))),
      )
