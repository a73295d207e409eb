-- ===== src/Directory/Listing.antt =====
-- `dir_lookup` finds a name among the entries of a directory.
use nano_fs.Prelude.{
  ℕ, zero, suc, ◌+◌, ◌-◌, ◌*◌, ◌^◌, ◌≤◌, ◌<◌, ◌≡◌, ◌∙◌, ap, true, false, Option, none, some, List,
  [], ◌++◌, Result, ok, err, FsError, fs_enoent, ltb, ◌==◌, if◌then◌else◌, u64, length,
  length-append, lt→ltb, arith, Bool-cases, Option-cases, inl, inr,
}
use Prim.Native.Nat.{min}
use nano_fs.Types.{DiskInode, block_size, inode_type_dir}
use nano_fs.Os.{Block}
use nano_fs.BlockIo.{BlockIo}
use nano_fs.Struct.{splice}
use nano_fs.Inode.{Fs, M, pure, inode_read}
use nano_fs.Inode.Bind.{bind-cases, pure_lem}
use nano_fs.Inode.Bytes.{file_bytes, length-file_bytes}
use nano_fs.Inode.Read.{inode_read-ReadsFile}
use nano_fs.Inode.Steady.{Steady, Steady-refl, Steady-read, bytes-Steady}
use nano_fs.Path.{Str}
use nano_fs.Directory.{Dirent, bad_name, find_in, dir_rounds, fail, lookup_from, dir_lookup}
use nano_fs.Directory.Entries.{
  Walk, Walk-exists, length-Walk, Answer, nowhere, here, later, find_in-Answer,
}

-- The bytes of the directory's block at `offset`.
abbrev pub block_bytes : (ℕ → Block) → DiskInode → ℕ → List ℕ
block_bytes f d offset = file_bytes f d offset (min block_size (d.size - offset))

-- The entries in use of the directory from `offset` on, by the blocks `f` of the device. A block that is not whole
-- leaves what the buffer held after it.
pub data Listing (f : ℕ → Block) (d : DiskInode) : List ℕ → ℕ → List Dirent → Type 0 where
  done : (stack : List ℕ) (offset : ℕ) → d.size ≤ offset → Listing f d stack offset []
  block :
      (stack : List ℕ) (offset : ℕ) (es rest : List Dirent)
      → offset < d.size
      → Walk (splice stack 0 (block_bytes f d offset)) (length (block_bytes f d offset)) 0 es
      → Listing f d (splice stack 0 (block_bytes f d offset)) (offset + block_size) rest
      → Listing f d stack offset (es ++ rest)

pub Listing-exists :
    (rounds : ℕ) (f : ℕ → Block) (d : DiskInode) (stack : List ℕ) (offset : ℕ)
    → d.size ≤ offset + rounds * block_size
    → (es : List Dirent) × Listing f d stack offset es
Listing-exists zero f d stack offset le = ([], done stack offset (omega arith))
Listing-exists (suc rounds) f d stack offset le = elim (Bool-cases (ltb offset d.size)) [
  | inl more ↦
      let buf = splice stack 0 (block_bytes f d offset) in
      let (es, w) =
        Walk-exists (length (block_bytes f d offset)) buf (length (block_bytes f d offset)) 0
          (omega arith) in
      let (rest, l) = Listing-exists rounds f d buf (offset + block_size) (omega arith) in
      (es ++ rest, block stack offset es rest (ground arith) w l)
  | inr past ↦ ([], done stack offset (ground arith))
]

-- There are no more entries than bytes.
pub length-Listing :
    {f : ℕ → Block} {d : DiskInode} {stack : List ℕ} {offset : ℕ} {es : List Dirent}
    → Listing f d stack offset es
    → length es ≤ d.size - offset
length-Listing (done stack offset le) = omega arith
length-Listing {f = f} {d = d} (block stack offset es rest lt w l) = omega (
  arith,
  length-append es rest,
  length-Walk w,
  length-Listing l,
  length-file_bytes f d offset (min block_size (d.size - offset)),
)

-- The first of two lists decides unless it has no such name.
Answer-some :
    {name : Str} {es : List Dirent} {r : Option ℕ} (rest : List Dirent) (i : ℕ)
    → Answer name es r
    → r ≡ some i
    → Answer name (es ++ rest) (some i)
Answer-some rest i nowhere e = cc
Answer-some rest i (here de es n) e =
    let f : de.inum ≡ i = ground arith in rw (← f) (here de (es ++ rest) n)
Answer-some rest i (later de es r n a) e = later de (es ++ rest) (some i) n (Answer-some rest i a e)

Answer-none :
    {name : Str} {es : List Dirent} {r : Option ℕ} (rest : List Dirent) (r' : Option ℕ)
    → Answer name es r
    → r ≡ none
    → Answer name rest r'
    → Answer name (es ++ rest) r'
Answer-none rest r' nowhere e b = b
Answer-none rest r' (here de es n) e b = cc
Answer-none rest r' (later de es r n a) e b = later de (es ++ rest) r' n (Answer-none rest r' a e b)

module _ (io : BlockIo) (s : Fs io) where
  abbrev f : ℕ → Block
  f = io.contents s.dev

  abbrev d : DiskInode
  d = s.inode.disk

  -- What a lookup of `name` among the entries `es` may return.
  pub record Finds (name : Str) (es : List Dirent) (out : Result FsError ℕ × Fs io) : Type 0 where
    pub found : (i : ℕ) → out.0 ≡ ok i → Answer name es (some i)
    pub missing : out.0 ≡ err fs_enoent → Answer name es none
    pub steady : Steady io s out.1

  Finds-missing :
      {name : Str} {es : List Dirent} (t : Fs io)
      → Steady io s t
      → Answer name es none
      → Finds name es (fail io fs_enoent t)
  unfolding fail
  Finds-missing t k a = record { found = λ i e. cc; missing = λ e. a; steady = k }

  -- What the round does with what it has read, with the rest of the loop.
  abbrev after_read : List ℕ → Str → M io ℕ → List ℕ → M io ℕ
  after_read stack name next l =
      let found = find_in block_size (splice stack 0 l) 0 (length l) name in
      if length l == 0
      then fail io fs_enoent
      else elim found [ some inum ↦ pure io inum | none ↦ next ]

  Finds-after_read :
      (stack : List ℕ) (offset : ℕ) (name : Str) (es rest : List Dirent) (l : List ℕ) (u : Fs io)
      (next : M io ℕ)
      → Steady io s u
      → l ≡ block_bytes f d offset
      → offset < d.size
      → Walk (splice stack 0 (block_bytes f d offset)) (length (block_bytes f d offset)) 0 es
      → Finds name rest (next u)
      → Finds name (es ++ rest) (after_read stack name next l u)
  Finds-after_read stack offset name es rest l u next k e lt w ih =
      let size : length l ≡ min block_size (d.size - offset) =
        rw e (length-file_bytes f d offset (min block_size (d.size - offset))) in
      let nonempty : (length l == 0) ≡ false = ground arith in
      let a : Answer name es (find_in block_size (splice stack 0 l) 0 (length l) name) =
        find_in-Answer (splice stack 0 l) (length l) block_size name (rw e w) (omega arith) in
      rw nonempty (elim (Option-cases (find_in block_size (splice stack 0 l) 0 (length l) name)) [
        | inl none_here ↦ rw none_here (record {
          found = λ i h. Answer-none rest (some i) a none_here (ih.found i h);
          missing = λ h. Answer-none rest none a none_here (ih.missing h);
          steady = ih.steady;
        })
        | inr (i, hit) ↦
            rw (hit, pure_lem io i u)
              (record { found = λ j h. Answer-some rest j a (cc); missing = λ h. cc; steady = k })
      ])

  -- A block that is read in a later state.
  pub block_read :
      (t : Fs io)
      → Steady io s t
      → (offset : ℕ) (l : List ℕ)
      → l
        ≡ file_bytes
            (io.contents t.dev)
            t.inode.disk
            offset
            (min block_size (t.inode.disk.size - offset))
      → l ≡ block_bytes f d offset
  block_read t k offset l e =
      let z : t.inode.disk.size ≡ d.size = ap (λ x. x.disk.size) k.inode in
      e
      ∙ ap (λ m. file_bytes (io.contents t.dev) t.inode.disk offset (min block_size (m - offset))) z
      ∙ bytes-Steady io k offset (min block_size (d.size - offset))

  Finds-lookup_from :
      (rounds : ℕ) (now offset : ℕ) (name : Str) {stack : List ℕ} {es : List Dirent} (t : Fs io)
      → Listing f d stack offset es
      → Steady io s t
      → d.size ≤ 2 ^ 44
      → d.size ≤ offset + rounds * block_size
      → Finds name es (lookup_from io now stack rounds offset name d.size t)
  unfolding lookup_from
  Finds-lookup_from zero now offset name t (done stack _ le) k fit enough =
      Finds-missing t k nowhere
  Finds-lookup_from (suc rounds) now offset name t (done stack _ le) k fit enough =
      let past : ltb offset d.size ≡ false = ground arith in rw past (Finds-missing t k nowhere)
  Finds-lookup_from zero now offset name t (block stack _ es rest lt w l) k fit enough =
      absurd (omega arith)
  Finds-lookup_from (suc rounds) now offset name t (block stack _ es rest lt w l) k fit enough =
      let r =
        inode_read-ReadsFile io t now offset block_size k.good (omega arith)
          (let z : t.inode.disk.size ≡ d.size = ap (λ x. x.disk.size) k.inode in ground arith) in
      let whole : u64 (offset + block_size) ≡ offset + block_size = omega arith in
      let k' : Steady io s (inode_read io now offset block_size t).1 = Steady-read io k r in
      rw (lt→ltb offset d.size lt) (
        bind-cases io (λ out. Finds name (es ++ rest) out) (inode_read io now offset block_size) _ t
          (λ l' e.
            let same : l' ≡ block_bytes f d offset = block_read t k offset l' (r.result l' e) in
            Finds-after_read stack offset name es rest l' _ _ k' same lt w (
              rw (whole, same)
                (Finds-lookup_from rounds now (offset + block_size) name _ l k' fit (omega arith))))
          (λ x e. record {
            found = λ i h. cc;
            missing = λ h. absurd (r.no_enoent cc);
            steady = k';
          }))

  -- From a good state, for a directory of at most 2^44 bytes and a name of 1 to 255 bytes: `dir_lookup` returns
  -- the number of the first entry in use that has the name; it returns ENOENT only when there is none; and of the
  -- inode only the access time and the dirty mark change, and nothing of the allocator or of the device's blocks.
  pub dir_lookup-Finds :
      (now : ℕ) (stack : List ℕ) (name : Str) {es : List Dirent}
      → Listing f d stack 0 es
      → io.IsGood s.dev
      → d.size ≤ 2 ^ 44
      → d.kind ≡ inode_type_dir
      → bad_name name ≡ false
      → Finds name es (dir_lookup io now stack name s)
  unfolding dir_lookup
  dir_lookup-Finds now stack name l g fit is_dir fine =
      let dir : (d.kind == inode_type_dir) ≡ true = ground arith in
      rw (dir, fine)
        (Finds-lookup_from (dir_rounds d.size) now 0 name s l (Steady-refl io s g) fit
          (omega arith))
