-- ===== src/Inode/Whole.antt =====
-- A block of a file that is in the inode's own table, read whole.
use nano_fs.Prelude.{ℕ, ◌<◌, ◌≡◌, ◌≢◌, ◌∙◌, length, get_or, ◌==◌, false, arith}
use nano_fs.Types.{DiskInode, block_size, inode_direct_blocks}
use nano_fs.Os.{Block}
use nano_fs.Struct.Laws.{copy_whole}
use nano_fs.Inode.Lookup.{mapped}
use nano_fs.Inode.Bytes.{file_bytes, piece, file_bytes-piece}

mapped_direct :
    (f : ℕ → Block) (d : DiskInode) (idx : ℕ)
    → idx < inode_direct_blocks
    → mapped f d idx ≡ get_or d.direct idx 0
unfolding mapped
mapped_direct f d idx lt = ground arith

piece_whole : (f : ℕ → Block) (b n : ℕ) → b ≢ 0 → length (f b) ≡ n → piece f b 0 n ≡ f b
unfolding piece
piece_whole f b n nz size =
    rw (← size) (let e : (b == 0) ≡ false = ground arith in rw e (copy_whole (f b)))

pub file_bytes_whole :
    (f : ℕ → Block) (d : DiskInode) (b : ℕ)
    → get_or d.direct 0 0 ≡ b
    → b ≢ 0
    → length (f b) ≡ block_size
    → file_bytes f d 0 block_size ≡ f b
file_bytes_whole f d b e nz size =
    file_bytes-piece f d 0 0 0 block_size (omega arith) (omega arith)
    ∙ rw (mapped_direct f d 0 (omega arith), e) (piece_whole f b block_size nz size)
