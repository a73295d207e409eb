-- ===== src/Mkfs/Tests.antt =====
-- mkfs of an image of 16 megabytes, on an array of empty blocks.
use nano_fs.Prelude.{ℕ, ◌*◌, ◌<◌, ◌≤◌, ◌↔◌, ◌≡◌, refl, [], ok, arith}
use nano_fs.Os.{Block}
use nano_fs.BlockIo.Ram.{array_io, bounded_io, bounded_write_iff}
use nano_fs.Superblock.{superblock_init}
use nano_fs.Mkfs.{mkfs}
use nano_fs.Mkfs.Formats.{IsFormatted, mkfs-IsFormatted}
use nano_fs.Mkfs.Succeeds.{mkfs_succeeds}

abbrev empty : ℕ → Block
empty b = []

mkfs_succeeds_example :
    ((mkfs (bounded_io 4096) 16 5 6 empty).0 ≡ ok tt) ↔ ((2 ≤ 16) × (16 ≤ 16384))
mkfs_succeeds_example =
    mkfs_succeeds (bounded_io 4096) 16 (bounded_write_iff 4096) (λ w. refl) 5 6 empty

mkfs-IsFormatted_example :
    let out = mkfs array_io 16 5 6 empty in
    let sb = superblock_init (256 * 16) 5 in
    (out.0 ≡ ok tt → IsFormatted sb 6 out.1) × ((q : ℕ) → sb.data_start < q → out.1 q ≡ [])
mkfs-IsFormatted_example =
    mkfs-IsFormatted array_io 16 5 6 empty tt (omega arith) (omega arith) (omega arith)
      (omega arith)

-- The call did succeed.
image-IsFormatted :
    IsFormatted (superblock_init (256 * 16) 5) 6 (mkfs (bounded_io 4096) 16 5 6 empty).1
image-IsFormatted =
    (mkfs-IsFormatted (bounded_io 4096) 16 5 6 empty tt (omega arith) (omega arith) (omega arith)
        (omega arith)).0
      (mkfs_succeeds_example.1 (omega arith, omega arith))
