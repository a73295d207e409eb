-- ===== src/Mkfs/Root.antt =====
-- What the file system reads from a new image.
use nano_fs.Prelude.{
  ℕ, ◌+◌, ◌-◌, ◌^◌, ◌<◌, ◌≡◌, refl, ap, ◌∙◌, inl, List, [], ◌∷◌, length, length-replicate, arith,
}
use Prim.Native.Nat.{min}
use nano_fs.Types.{Superblock, block_size}
use nano_fs.Types.Bytes.{inode_bytes, IsDiskInode, length-inode_bytes, inode_of-inode_bytes}
use nano_fs.Os.{Block}
use nano_fs.Struct.{splice}
use nano_fs.Struct.Laws.{length-splice, copy-splice}
use nano_fs.Inode.{zeros}
use nano_fs.Inode.Bytes.{file_bytes}
use nano_fs.Inode.Whole.{file_bytes_whole}
use nano_fs.InodeCache.{zero_disk, inode_block, inode_offset}
use nano_fs.InodeCache.Sync.{stored}
use nano_fs.Directory.{dirent_at, dirent_bytes}
use nano_fs.Directory.Entries.{Walk, Walk-entry, stops_at_end, stop}
use nano_fs.Directory.Make.{
  IsDirent, length-dirent_bytes, dirent_at-splice, dirent_at-splice_ne, dirent_at-block,
}
use nano_fs.Directory.Listing.{Listing, block, done, block_bytes}
use nano_fs.Mkfs.{root_entry, dot_entry, dotdot_entry, root_block, root_inode, root_table}

length-zeros : length zeros ≡ block_size
unfolding zeros
length-zeros = length-replicate {A = ℕ} block_size 0

dot-IsDirent : IsDirent dot_entry
unfolding dot_entry root_entry
dot-IsDirent = record {
  inum = omega arith;
  rec_len = omega arith;
  name_len = omega arith;
  file_type = omega arith;
  name = refl;
}

dotdot-IsDirent : IsDirent dotdot_entry
unfolding dotdot_entry root_entry
dotdot-IsDirent = record {
  inum = omega arith;
  rec_len = omega arith;
  name_len = omega arith;
  file_type = omega arith;
  name = refl;
}

abbrev first_half : Block
first_half = splice zeros 0 (dirent_bytes dot_entry)

length-first_half : length first_half ≡ block_size
length-first_half =
    length-splice zeros (dirent_bytes dot_entry) 0
      (omega (arith, length-zeros, length-dirent_bytes dot_entry dot-IsDirent))
    ∙ length-zeros

length-root_block : length root_block ≡ block_size
unfolding root_block
length-root_block =
    length-splice first_half (dirent_bytes dotdot_entry) 264
      (omega (arith, length-first_half, length-dirent_bytes dotdot_entry dotdot-IsDirent))
    ∙ length-first_half

dirent_at-dot : dirent_at root_block 0 ≡ dot_entry
unfolding root_block
dirent_at-dot =
    dirent_at-splice_ne first_half (dirent_bytes dotdot_entry) 264 0
      (omega (arith, length-first_half, length-dirent_bytes dotdot_entry dotdot-IsDirent))
      (inl (omega arith))
    ∙ dirent_at-splice zeros 0 dot_entry dot-IsDirent (omega (arith, length-zeros))

dirent_at-dotdot : dirent_at root_block 264 ≡ dotdot_entry
unfolding root_block
dirent_at-dotdot =
    dirent_at-splice first_half 264 dotdot_entry dotdot-IsDirent (omega (arith, length-first_half))

-- The walk through the root's block.
Walk-root :
    (stack : List ℕ) (n : ℕ)
    → n ≡ block_size
    → Walk (splice stack 0 root_block) n 0 (dot_entry ∷ dotdot_entry ∷ [])
unfolding dot_entry dotdot_entry root_entry
Walk-root stack n e =
    Walk-entry 0 264 dot_entry
      (dirent_at-block stack root_block 0 (omega (arith, length-root_block)) ∙ dirent_at-dot)
      (omega arith) (omega arith) (omega arith) (omega arith) refl
      (Walk-entry 264 block_size dotdot_entry
        (dirent_at-block stack root_block 264 (omega (arith, length-root_block)) ∙ dirent_at-dotdot)
        (omega arith) (omega arith) (omega arith) (omega arith) refl
        (stop block_size (stops_at_end _ block_size n (omega arith))))

module _ (sb : Superblock) (now : ℕ) (small : sb.data_start < 2 ^ 32) (early : now < 2 ^ 64) where
  root-IsDiskInode : IsDiskInode (root_inode sb now)
  unfolding root_inode zero_disk
  root-IsDiskInode = record {
    mode = omega arith;
    uid = omega arith;
    gid = omega arith;
    nlink = omega arith;
    kind = omega arith;
    flags = omega arith;
    reserved = omega arith;
    size = omega arith;
    blocks = omega arith;
    atime = omega arith;
    mtime = omega arith;
    ctime = omega arith;
    twelve = refl;
    direct = omega arith;
    indirect = omega arith;
    double_indirect = omega arith;
    padding = refl;
  }

  -- The inode that the first block of the table holds.
  pub stored-root :
      (f : ℕ → Block)
      → sb.inode_table_start < 2 ^ 32
      → f sb.inode_table_start ≡ root_table sb now
      → stored f sb 1 ≡ root_inode sb now
  unfolding stored root_table
  stored-root f table e =
      let place : inode_block sb 1 ≡ sb.inode_table_start = omega arith in
      let off : inode_offset 1 ≡ 128 = omega arith in
      let size = length-inode_bytes (root_inode sb now) root-IsDiskInode in
      let c =
        copy-splice zeros (inode_bytes (root_inode sb now)) 128
          (omega (arith, size, length-zeros)) in
      rw (place, off, e, rw size at c) (inode_of-inode_bytes (root_inode sb now) root-IsDiskInode)

  -- The entries of the root.
  pub Listing-root :
      (f : ℕ → Block) (stack : List ℕ)
      → 0 < sb.data_start
      → f sb.data_start ≡ root_block
      → Listing f (root_inode sb now) stack 0 (dot_entry ∷ dotdot_entry ∷ [])
  Listing-root f stack pos e =
      let d = root_inode sb now in
      let size : d.size ≡ block_size = unfold root_inode in refl in
      let n : min block_size (d.size - 0) ≡ block_size = omega (arith, size) in
      let whole : block_bytes f d 0 ≡ root_block =
        ap (file_bytes f d 0) n
        ∙ (file_bytes_whole f d sb.data_start (unfold root_inode in refl) (omega arith)
              (rw e length-root_block)
            ∙ e) in
      block stack 0 (dot_entry ∷ dotdot_entry ∷ []) [] (omega (arith, size))
        (rw whole (Walk-root stack (length root_block) length-root_block))
        (done (splice stack 0 (block_bytes f d 0)) (0 + block_size) (omega (arith, size)))
