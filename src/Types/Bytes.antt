-- ===== src/Types/Bytes.antt =====
-- The bytes of `superblock_t` and `disk_inode_t`, and the structs that bytes hold. What `memcpy`
-- copies between a struct and a block are these bytes.
use mathlib.Core.List.{append_assoc}
use nano_fs.Prelude.{
  ℕ, ◌^◌, ◌<◌, ◌≡◌, refl, List, [], ◌∷◌, ◌++◌, take, drop, length, get_or, replicate, All,
  take-append, drop-append, get_or-append, length-append, arith,
}
use nano_fs.Types.{Superblock, DiskInode, inode_direct_blocks}
use nano_fs.Struct.{put_fields, get_fields}
use nano_fs.Struct.Laws.{Fields, get-put_fields, length-put_fields, Fields-append, Fields-replicate}

abbrev head_widths : List ℕ
head_widths = 2 ∷ 2 ∷ 2 ∷ 2 ∷ 1 ∷ 1 ∷ 2 ∷ 8 ∷ 8 ∷ 8 ∷ 8 ∷ 8 ∷ []

abbrev inode_widths : List ℕ
inode_widths = head_widths ++ (replicate inode_direct_blocks 4 ++ (4 ∷ 4 ∷ []))

abbrev inode_head : DiskInode → List ℕ
inode_head d =
    d.mode ∷ d.uid ∷ d.gid ∷ d.nlink ∷ d.kind ∷ d.flags ∷ d.reserved ∷ d.size ∷ d.blocks ∷ d.atime
    ∷ d.mtime ∷ d.ctime ∷ []

abbrev inode_fields : DiskInode → List ℕ
inode_fields d = inode_head d ++ (d.direct ++ (d.indirect ∷ d.double_indirect ∷ []))

pub inode_bytes : DiskInode → List ℕ
inode_bytes d = put_fields inode_widths (inode_fields d) ++ d.padding

inode_from : List ℕ → List ℕ → DiskInode
inode_from v padding = record {
  mode = get_or v 0 0;
  uid = get_or v 1 0;
  gid = get_or v 2 0;
  nlink = get_or v 3 0;
  kind = get_or v 4 0;
  flags = get_or v 5 0;
  reserved = get_or v 6 0;
  size = get_or v 7 0;
  blocks = get_or v 8 0;
  atime = get_or v 9 0;
  mtime = get_or v 10 0;
  ctime = get_or v 11 0;
  direct = take inode_direct_blocks (drop 12 v);
  indirect = get_or v 24 0;
  double_indirect = get_or v 25 0;
  padding = padding;
}

pub inode_of : List ℕ → DiskInode
unfolding inode_from
inode_of bytes = inode_from (get_fields inode_widths bytes) (drop 108 bytes)

-- A struct whose fields fit, as every value of the C type does.
pub record IsDiskInode (d : DiskInode) : Type 0 where
  pub mode : d.mode < 256 ^ 2
  pub uid : d.uid < 256 ^ 2
  pub gid : d.gid < 256 ^ 2
  pub nlink : d.nlink < 256 ^ 2
  pub kind : d.kind < 256 ^ 1
  pub flags : d.flags < 256 ^ 1
  pub reserved : d.reserved < 256 ^ 2
  pub size : d.size < 256 ^ 8
  pub blocks : d.blocks < 256 ^ 8
  pub atime : d.atime < 256 ^ 8
  pub mtime : d.mtime < 256 ^ 8
  pub ctime : d.ctime < 256 ^ 8
  pub twelve : length d.direct ≡ inode_direct_blocks
  pub direct : All (λ b. b < 256 ^ 4) d.direct
  pub indirect : d.indirect < 256 ^ 4
  pub double_indirect : d.double_indirect < 256 ^ 4
  pub padding : length d.padding ≡ 20

module _ (d : DiskInode) (i : IsDiskInode d) where
  inode-Fields : Fields inode_widths (inode_fields d)
  inode-Fields =
      Fields-append head_widths (replicate inode_direct_blocks 4 ++ (4 ∷ 4 ∷ [])) (inode_head d)
        (d.direct ++ (d.indirect ∷ d.double_indirect ∷ [])) (omega arith)
        (Fields-append (replicate inode_direct_blocks 4) (4 ∷ 4 ∷ []) d.direct
          (d.indirect ∷ d.double_indirect ∷ [])
          (Fields-replicate 4 inode_direct_blocks d.direct i.twelve i.direct) (omega arith))

  pub length-inode_bytes : length (inode_bytes d) ≡ 128
  unfolding inode_bytes
  length-inode_bytes = omega (
    arith,
    length-append (put_fields inode_widths (inode_fields d)) d.padding,
    length-put_fields inode_widths (inode_fields d) inode-Fields,
    i.padding,
  )

  inode_from-fields : inode_from (inode_fields d) d.padding ≡ d
  unfolding inode_from
  inode_from-fields =
      let last : List ℕ = d.indirect ∷ d.double_indirect ∷ [] in
      let e : get_or (d.direct ++ last) 12 0 ≡ d.indirect =
        ground (arith, i.twelve, get_or-append d.direct last 12 0) in
      let f : get_or (d.direct ++ last) 13 0 ≡ d.double_indirect =
        ground (arith, i.twelve, get_or-append d.direct last 13 0) in
      rw (take-append d.direct last 12 i.twelve, e, f) refl

  -- The struct that its own bytes hold is the struct, if its fields fit.
  pub inode_of-inode_bytes : inode_of (inode_bytes d) ≡ d
  unfolding inode_of inode_bytes
  inode_of-inode_bytes =
      rw
        (
          get-put_fields inode_widths (inode_fields d) d.padding inode-Fields,
          drop-append (put_fields inode_widths (inode_fields d)) d.padding 108
              (length-put_fields inode_widths (inode_fields d) inode-Fields),
        )
        inode_from-fields

abbrev superblock_widths : List ℕ
superblock_widths = replicate 20 4 ++ (8 ∷ 8 ∷ 4 ∷ [])

abbrev superblock_fields : Superblock → List ℕ
superblock_fields sb =
    sb.magic ∷ sb.version ∷ sb.block_bytes ∷ sb.total_blocks ∷ sb.free_blocks ∷ sb.journal_start
    ∷ sb.journal_blocks ∷ sb.inode_bitmap_start ∷ sb.inode_bitmap_blocks ∷ sb.data_bitmap_start
    ∷ sb.data_bitmap_blocks ∷ sb.inode_table_start ∷ sb.inode_table_blocks ∷ sb.data_start
    ∷ sb.data_blocks ∷ sb.total_inodes ∷ sb.free_inodes ∷ sb.first_inode ∷ sb.root_inum ∷ sb.state
    ∷ sb.mount_time ∷ sb.write_time ∷ sb.mount_count ∷ []

pub superblock_bytes : Superblock → List ℕ
superblock_bytes sb = put_fields superblock_widths (superblock_fields sb) ++ sb.padding

superblock_from : List ℕ → List ℕ → Superblock
superblock_from v padding = record {
  magic = get_or v 0 0;
  version = get_or v 1 0;
  block_bytes = get_or v 2 0;
  total_blocks = get_or v 3 0;
  free_blocks = get_or v 4 0;
  journal_start = get_or v 5 0;
  journal_blocks = get_or v 6 0;
  inode_bitmap_start = get_or v 7 0;
  inode_bitmap_blocks = get_or v 8 0;
  data_bitmap_start = get_or v 9 0;
  data_bitmap_blocks = get_or v 10 0;
  inode_table_start = get_or v 11 0;
  inode_table_blocks = get_or v 12 0;
  data_start = get_or v 13 0;
  data_blocks = get_or v 14 0;
  total_inodes = get_or v 15 0;
  free_inodes = get_or v 16 0;
  first_inode = get_or v 17 0;
  root_inum = get_or v 18 0;
  state = get_or v 19 0;
  mount_time = get_or v 20 0;
  write_time = get_or v 21 0;
  mount_count = get_or v 22 0;
  padding = padding;
}

-- The first 4088 bytes.
pub superblock_of : List ℕ → Superblock
unfolding superblock_from
superblock_of bytes =
    superblock_from (get_fields superblock_widths bytes) (take 3988 (drop 100 bytes))

pub record IsSuperblock (sb : Superblock) : Type 0 where
  pub fields : Fields superblock_widths (superblock_fields sb)
  pub padding : length sb.padding ≡ 3988

-- The superblock that its own bytes hold, whatever follows them, is the superblock.
pub superblock_of-superblock_bytes :
    (sb : Superblock) (rest : List ℕ)
    → IsSuperblock sb
    → superblock_of (superblock_bytes sb ++ rest) ≡ sb
unfolding superblock_of superblock_bytes
superblock_of-superblock_bytes sb rest i =
    rw
      (
        append_assoc (put_fields superblock_widths (superblock_fields sb)) sb.padding rest,
        get-put_fields superblock_widths (superblock_fields sb) (sb.padding ++ rest) i.fields,
        drop-append (put_fields superblock_widths (superblock_fields sb)) (sb.padding ++ rest) 100
            (length-put_fields superblock_widths (superblock_fields sb) i.fields),
        take-append sb.padding rest 3988 i.padding,
      )
      refl
