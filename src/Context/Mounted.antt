-- ===== src/Context/Mounted.antt =====
-- What a file system that is mounted is.
use nano_fs.Prelude.{
  ℕ, ◌≡◌, ◌≢◌, refl, ◌∙◌, ap, Bool, true, false, Option, none, some, List, Result, ok, err, Errno,
  ◌==◌, ==_iff, Bool-cases, inl, inr,
}
use nano_fs.Types.{Superblock, inode_type_dir}
use nano_fs.Types.Bytes.{superblock_of}
use nano_fs.BlockIo.{BlockIo}
use nano_fs.BlockAlloc.{BlockAllocator}
use nano_fs.BlockAlloc.Disk.{block_alloc_init}
use nano_fs.BlockAlloc.Disk.Good.{block_alloc_init-IsGood}
use nano_fs.Superblock.{superblock_read, superblock_validate}
use nano_fs.InodeCache.{InodeCache, Stop, null, hang, inode_get, inode_put}
use nano_fs.InodeCache.Alloc.{inode_cache_init}
use nano_fs.InodeCache.Alloc.Good.{inode_cache_init-IsGood}
use nano_fs.InodeCache.Good.{inode_put_same}
use nano_fs.Superblock.Reload.{superblock_read-contents, superblock_read-IsGood}
use nano_fs.InodeCache.Get.{Holds, Gets, cached, loaded, inode_get-Gets}
use nano_fs.Context.{
  Rust, FsContext, give_up, mounted, with_extents, recovered, with_journal, start_journal,
  with_root, with_icache, with_balloc, validated, with_sb, fs_context_init,
}

module _ (io : BlockIo) (rust : Rust io.Dev) where
  open io use {Dev, IsGood, contents}

  -- An inode of the pool is the directory `inum`.
  pub record HasRoot (icache : InodeCache io) (inum : ℕ) : Type 0 where
    pub place : ℕ
    pub holds : Holds io icache inum place
    pub directory : (icache.inodes place).disk.kind ≡ inode_type_dir

  -- A context that `fs_context_init` made with the superblock `sb`.
  pub record IsMounted (read_only : Bool) (sb : Superblock) (ctx : FsContext io rust) : Type 0 where
    pub label : ctx.sb ≡ sb
    pub valid : superblock_validate sb ≡ ok tt
    pub root_inum : ctx.root_inum ≡ sb.root_inum
    pub root : HasRoot ctx.icache sb.root_inum
    pub mode : ctx.read_only ≡ read_only
    pub plain : read_only ≡ true → (ctx.journal ≡ none) × (ctx.extent_alloc ≡ none)
    pub logged : read_only ≡ false → (ctx.journal ≢ none) × (ctx.extent_alloc ≢ none)

  -- If there is a result, it is such a context.
  abbrev Mounts : Bool → Superblock → Result Stop (FsContext io rust) × Dev → Type 0
  Mounts read_only sb out = (ctx : FsContext io rust) → out.0 ≡ ok ctx → IsMounted read_only sb ctx

  Gets-Holds : {c c' : InodeCache io} {i p : ℕ} → Gets io c i p c' → Holds io c' i p
  Gets-Holds (cached f h h' d) = h'
  Gets-Holds (loaded m h d) = h

  -- Putting the root back keeps it in the cache.
  put_root :
      (icache : InodeCache io) (p inum : ℕ)
      → Holds io icache inum p
      → (icache.inodes p).disk.kind ≡ inode_type_dir
      → HasRoot (inode_put io p icache) inum
  put_root icache p inum h d =
      let k = inode_put_same io p icache in
      record {
        place = p;
        holds = record { number = k.0 ∙ h.number; valid = k.1.0 ∙ h.valid };
        directory = ap (λ x. x.kind) k.1.1 ∙ d;
      }

  module _ (sb : Superblock) (valid : superblock_validate sb ≡ ok tt) where
    Mounts-with_extents :
        (extent : Option rust.Extent) (journal : rust.Journal) (icache : InodeCache io)
        → HasRoot icache sb.root_inum
        → Mounts false sb (with_extents io rust extent sb journal icache)
    unfolding with_extents give_up mounted
    Mounts-with_extents none journal icache r ctx e = cc
    Mounts-with_extents (some extent) journal icache r ctx e = is_it ctx (made ctx e)
      where
        this : FsContext io rust
        this = record {
          icache = icache;
          sb = sb;
          journal = some journal;
          extent_alloc = some extent;
          root_inum = sb.root_inum;
          read_only = false;
          read_count = 0;
          write_count = 0;
        }

        made :
            (ctx : FsContext io rust)
            → ◌≡◌ {A = Result Stop (FsContext io rust)} (ok this) (ok ctx)
            → this ≡ ctx
        made ctx e = cc

        is_it : (ctx : FsContext io rust) → this ≡ ctx → IsMounted false sb ctx
        is_it ctx e = rw (← e) (record {
          label = refl;
          valid = valid;
          root_inum = refl;
          root = r;
          mode = refl;
          plain = λ h. cc;
          logged = λ h. ((λ x. cc), (λ x. cc));
        })

    Mounts-recovered :
        (done : Bool) (journal : rust.Journal) (icache : InodeCache io)
        → HasRoot icache sb.root_inum
        → Mounts false sb (recovered io rust done sb journal icache)
    unfolding recovered give_up
    Mounts-recovered false journal icache r = λ ctx e. cc
    Mounts-recovered true journal icache r =
        let out = rust.extent_alloc_init sb.data_bitmap_start sb.data_blocks icache.dev in
        Mounts-with_extents out.0 journal (record icache { dev = out.1 })
          (record {
            place = r.place;
            holds = record { number = r.holds.number; valid = r.holds.valid };
            directory = r.directory;
          })

    Mounts-with_journal :
        (journal : Option rust.Journal) (icache : InodeCache io)
        → HasRoot icache sb.root_inum
        → Mounts false sb (with_journal io rust journal sb icache)
    unfolding with_journal give_up
    Mounts-with_journal none icache r = λ ctx e. cc
    Mounts-with_journal (some journal) icache r =
        let out = rust.journal_recover journal icache.dev in
        Mounts-recovered out.0 out.1 (record icache { dev = out.2 })
          (record {
            place = r.place;
            holds = record { number = r.holds.number; valid = r.holds.valid };
            directory = r.directory;
          })

    Mounts-mounted :
        (icache : InodeCache io)
        → HasRoot icache sb.root_inum
        → Mounts true sb (mounted io rust true sb none none icache)
    unfolding mounted
    Mounts-mounted icache r ctx e = rw (← made ctx e) (record {
      label = refl;
      valid = valid;
      root_inum = refl;
      root = r;
      mode = refl;
      plain = λ h. (refl, refl);
      logged = λ h. cc;
    })
      where
        this : FsContext io rust
        this = record {
          icache = icache;
          sb = sb;
          journal = none;
          extent_alloc = none;
          root_inum = sb.root_inum;
          read_only = true;
          read_count = 0;
          write_count = 0;
        }

        made :
            (ctx : FsContext io rust)
            → ◌≡◌ {A = Result Stop (FsContext io rust)} (ok this) (ok ctx)
            → this ≡ ctx
        made ctx e = cc

    Mounts-start_journal :
        (read_only : Bool) (icache : InodeCache io)
        → HasRoot icache sb.root_inum
        → Mounts read_only sb (start_journal io rust read_only sb icache)
    unfolding start_journal
    Mounts-start_journal true icache r = Mounts-mounted icache r
    Mounts-start_journal false icache r =
        let out = rust.journal_init sb.journal_start sb.journal_blocks icache.dev in
        Mounts-with_journal out.0 (record icache { dev = out.1 })
          (record {
            place = r.place;
            holds = record { number = r.holds.number; valid = r.holds.valid };
            directory = r.directory;
          })

    Mounts-with_root :
        (root : Result Stop ℕ) (read_only : Bool) (icache : InodeCache io)
        → ((p : ℕ) → root ≡ ok p → Holds io icache sb.root_inum p)
        → Mounts read_only sb (with_root io rust root read_only sb icache)
    unfolding with_root give_up
    Mounts-with_root (err hang) read_only icache h = λ ctx e. cc
    Mounts-with_root (err null) read_only icache h = λ ctx e. cc
    Mounts-with_root (ok p) read_only icache h =
        elim (Bool-cases ((icache.inodes p).disk.kind == inode_type_dir)) [
          | inl dir ↦ rw dir (
              Mounts-start_journal read_only (inode_put io p icache)
                (put_root icache p sb.root_inum (h p refl) ((==_iff _ inode_type_dir).0 dir)))
          | inr other ↦ rw other (λ ctx e. cc)
        ]

    Mounts-with_icache :
        (r : Result Stop (InodeCache io)) (balloc : BlockAllocator) (read_only : Bool) (dev : Dev)
        → ((icache : InodeCache io) → r ≡ ok icache → IsGood icache.dev)
        → Mounts read_only sb (with_icache io rust r balloc read_only sb dev)
    unfolding with_icache
    Mounts-with_icache (err null) balloc read_only dev g = λ ctx e. cc
    Mounts-with_icache (err hang) balloc read_only dev g = λ ctx e. cc
    Mounts-with_icache (ok icache) balloc read_only dev g =
        let out = inode_get io sb.root_inum icache in
        Mounts-with_root out.0 read_only out.1
          (λ p e. Gets-Holds (inode_get-Gets io icache sb.root_inum p (g icache refl) e))

    Mounts-with_balloc :
        (balloc : Option BlockAllocator) (read_only : Bool) (dev : Dev)
        → IsGood dev
        → Mounts read_only sb (with_balloc io rust balloc read_only sb dev)
    unfolding with_balloc
    Mounts-with_balloc none read_only dev g = λ ctx e. cc
    Mounts-with_balloc (some balloc) read_only dev g =
        let out = inode_cache_init io balloc 64 32 dev in
        Mounts-with_icache out.0 balloc read_only out.1
          (λ icache e. inode_cache_init-IsGood io balloc 64 32 dev icache g e)

  Mounts-validated :
      (r : Result Errno (Unit {0})) (read_only : Bool) (sb : Superblock) (dev : Dev)
      → superblock_validate sb ≡ r
      → IsGood dev
      → Mounts read_only sb (validated io rust r read_only sb dev)
  unfolding validated
  Mounts-validated (err x) read_only sb dev v g = λ ctx e. cc
  Mounts-validated (ok u) read_only sb dev v g =
      let out =
        block_alloc_init io sb.data_bitmap_start sb.data_bitmap_blocks sb.data_start sb.data_blocks
          dev in
      Mounts-with_balloc sb v out.0 read_only out.1 (
        block_alloc_init-IsGood io sb.data_bitmap_start sb.data_bitmap_blocks sb.data_start
          sb.data_blocks dev g)

  Mounts-with_sb :
      (r : Result Errno Superblock) (read_only : Bool) (dev : Dev) (content : List ℕ)
      → ((sb : Superblock) → r ≡ ok sb → sb ≡ superblock_of content)
      → IsGood dev
      → Mounts read_only (superblock_of content) (with_sb io rust r read_only dev)
  unfolding with_sb
  Mounts-with_sb (err x) read_only dev content got g = λ ctx e. cc
  Mounts-with_sb (ok sb) read_only dev content got g =
      rw (← got sb refl) (Mounts-validated (superblock_validate sb) read_only sb dev refl g)

  -- What `fs_context_init` returns: NULL, or no return, or a context.
  pub data Returns (read_only : Bool) (sb : Superblock)
      : Result Stop (FsContext io rust) → Type 0 where
    refused : (s : Stop) → Returns read_only sb (err s)
    succeeded :
        (ctx : FsContext io rust) → IsMounted read_only sb ctx → Returns read_only sb (ok ctx)

  returns :
      (read_only : Bool) (sb : Superblock) (r : Result Stop (FsContext io rust))
      → ((ctx : FsContext io rust) → r ≡ ok ctx → IsMounted read_only sb ctx)
      → Returns read_only sb r
  returns read_only sb (err s) h = refused s
  returns read_only sb (ok ctx) h = succeeded ctx (h ctx refl)

  -- From a good device: a context that `fs_context_init` returns has the superblock of block 0, which is valid; the
  -- root inode that it names is in the inode cache, loaded, and a directory; the context is read-only as asked for; and
  -- it has a journal and an extent allocator if it is not read-only, and neither if it is.
  pub fs_context_init-Returns :
      (read_only : Bool) (dev : Dev)
      → IsGood dev
      → Returns read_only (superblock_of (contents dev 0)) (fs_context_init io rust read_only dev).0
  unfolding fs_context_init
  fs_context_init-Returns read_only dev g = returns read_only (superblock_of (contents dev 0)) _ (
      Mounts-with_sb (superblock_read io dev).0 read_only (superblock_read io dev).1
        (contents dev 0) (λ sb h. superblock_read-contents io dev g sb h)
        (superblock_read-IsGood io dev g))
