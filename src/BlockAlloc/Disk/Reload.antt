-- ===== src/BlockAlloc/Disk/Reload.antt =====
-- What `block_alloc_sync` writes is what `block_alloc_init` reads.
use nano_fs.Prelude.{
  ℕ, zero, suc, ◌+◌, ◌*◌, ◌^◌, ◌≤◌, ◌<◌, ◌≡◌, refl, sym, ◌∙◌, ap, Option, some, List, [], ◌∷◌, ◌++◌,
  Result, Result-cases, ok, err, Errno, u32, length, length-drop, take-append-drop, ◌-◌, arith, inl,
  inr,
}
use nano_fs.Types.{Superblock, block_size}
use nano_fs.Bitmap.{count_clear}
use nano_fs.BlockIo.{BlockIo}
use nano_fs.BlockAlloc.{BlockAllocator}
use nano_fs.BlockAlloc.Valid.{IsValid}
use nano_fs.BlockAlloc.Disk.{
  first_block, rest_blocks, load_bitmap, store_bitmap, put_block, loaded, block_alloc_init,
  block_alloc_sync,
}

first-append-rest : (l : List ℕ) → first_block l ++ rest_blocks l ≡ l
unfolding first_block rest_blocks
first-append-rest l = take-append-drop block_size l

length-rest_blocks : (l : List ℕ) → length (rest_blocks l) ≡ length l - block_size
unfolding rest_blocks
length-rest_blocks l = length-drop block_size l

-- `f` holds the blocks of `bitmap` from `start` on.
abbrev Holds : (ℕ → List ℕ) → ℕ → ℕ → List ℕ → Type 0
Holds f start zero bitmap = bitmap ≡ []
Holds f start (suc rounds) bitmap =
    (f start ≡ first_block bitmap) × Holds f (start + 1) rounds (rest_blocks bitmap)

Holds-congr :
    (f g : ℕ → List ℕ) (start rounds : ℕ) (bitmap : List ℕ)
    → ((q : ℕ) → start ≤ q → g q ≡ f q)
    → Holds f start rounds bitmap
    → Holds g start rounds bitmap
Holds-congr f g start zero bitmap same h = h
Holds-congr f g start (suc rounds) bitmap same h = (
  same start (omega arith) ∙ h.0,
  Holds-congr f g (start + 1) rounds (rest_blocks bitmap) (λ q le. same q (omega arith)) h.1,
)

module _ (io : BlockIo) where
  open io use {Dev, read, write, IsGood, contents}

  -- A successful store: good, what lies below is kept, and the bitmap is on the device.
  record Stores (dev : Dev) (start rounds : ℕ) (bitmap : List ℕ) (dev' : Dev) : Type 0 where
    good : IsGood dev'
    below : (q : ℕ) → q < start → contents dev' q ≡ contents dev q
    holds : Holds (contents dev') start rounds bitmap

  store_bitmap-Stores :
      (start rounds : ℕ) (bitmap : List ℕ) (dev : Dev)
      → IsGood dev
      → start + rounds ≤ 2 ^ 32
      → length bitmap ≡ rounds * block_size
      → (store_bitmap io start rounds bitmap dev).0 ≡ ok tt
      → Stores dev start rounds bitmap (store_bitmap io start rounds bitmap dev).1
  unfolding store_bitmap
  store_bitmap-Stores start zero bitmap dev good le len h = record {
    good = good;
    below = λ q lt. refl;
    holds = empty bitmap len;
  }
    where
      empty : (l : List ℕ) → length l ≡ 0 → l ≡ []
      empty [] e = refl
      empty (x ∷ l) e = absurd (omega arith)
  store_bitmap-Stores start (suc rounds) bitmap dev good le len h =
      elim (Result-cases (write (u32 start) (first_block bitmap) dev).0) [
        | inl (u, e) ↦
            rw (e, store_bitmap)
              (stored e (
                store_bitmap-Stores (start + 1) rounds (rest_blocks bitmap) dev1
                  (io.write_good (u32 start) (first_block bitmap) dev good) (omega arith)
                  (omega (arith, length-rest_blocks bitmap)) (rw (e, store_bitmap) at h)))
        | inr (x, e) ↦ cc (rw (e, store_bitmap) at h)
      ]
    where
      word : start ≡ u32 start
      word = omega arith

      dev1 : Dev
      dev1 = (write (u32 start) (first_block bitmap) dev).1

      stored :
          {dev' : Dev}
          → (write (u32 start) (first_block bitmap) dev).0 ≡ ok tt
          → Stores dev1 (start + 1) rounds (rest_blocks bitmap) dev'
          → Stores dev start (suc rounds) bitmap dev'
      stored e s = record {
        good = s.good;
        below = λ q lt.
            s.below q (omega arith)
            ∙ io.write_contents (u32 start) q (first_block bitmap) dev good (omega arith);
        holds = (
          s.below start (omega arith)
              ∙ (ap (contents dev1) word
                  ∙ io.write_data (u32 start) (first_block bitmap) dev good e),
          s.holds,
        );
      }

  -- A load leaves the device good, with the same contents; a successful one returns the bitmap that
  -- is there.
  record Loads (dev : Dev) (bitmap : List ℕ) (out : Result Errno (List ℕ) × Dev) : Type 0 where
    good : IsGood out.1
    same : (q : ℕ) → contents out.1 q ≡ contents dev q
    result : (l : List ℕ) → out.0 ≡ ok l → l ≡ bitmap

  put_block-Loads :
      (dev dev1 : Dev) (bitmap l : List ℕ) (out : Result Errno (List ℕ) × Dev)
      → ((q : ℕ) → contents dev1 q ≡ contents dev q)
      → l ≡ first_block bitmap
      → Loads dev1 (rest_blocks bitmap) out
      → Loads dev bitmap (put_block io l out)
  unfolding put_block
  put_block-Loads dev dev1 bitmap l (ok r, d) same e s = record {
    good = s.good;
    same = λ q. s.same q ∙ same q;
    result = λ m h. cc (h, first-append-rest bitmap, s.result r refl);
  }
  put_block-Loads dev dev1 bitmap l (err x, d) same e s = record {
    good = s.good;
    same = λ q. s.same q ∙ same q;
    result = λ m h. cc;
  }

  load_bitmap-Loads :
      (start rounds : ℕ) (bitmap : List ℕ) (dev : Dev)
      → IsGood dev
      → start + rounds ≤ 2 ^ 32
      → Holds (contents dev) start rounds bitmap
      → Loads dev bitmap (load_bitmap io start rounds dev)
  unfolding load_bitmap
  load_bitmap-Loads start zero bitmap dev good le h = record {
    good = good;
    same = λ q. refl;
    result = λ l e. cc;
  }
  load_bitmap-Loads start (suc rounds) bitmap dev good le h =
      elim (Result-cases (read (u32 start) dev).0) [
        | inl (l, e) ↦
            rw (e, load_bitmap)
              (put_block-Loads dev dev1 bitmap l _ same (got l e) (
                load_bitmap-Loads (start + 1) rounds (rest_blocks bitmap) dev1
                  (io.read_good (u32 start) dev good) (omega arith)
                  (Holds-congr (contents dev) (contents dev1) (start + 1) rounds
                    (rest_blocks bitmap) (λ q k. same q) h.1)))
        | inr (x, e) ↦
            rw (e, load_bitmap)
              (record { good = io.read_good (u32 start) dev good; same = same; result = λ l k. cc })
      ]
    where
      word : u32 start ≡ start
      word = omega arith

      dev1 : Dev
      dev1 = (read (u32 start) dev).1

      same : (q : ℕ) → contents dev1 q ≡ contents dev q
      same q = io.read_contents (u32 start) q dev good

      got : (l : List ℕ) → (read (u32 start) dev).0 ≡ ok l → l ≡ first_block bitmap
      got l e = io.read_data (u32 start) dev l good e ∙ ap (contents dev) word ∙ h.0

  loaded-some :
      (make : List ℕ → BlockAllocator) (r : Result Errno (List ℕ)) (b : BlockAllocator)
      → loaded io make r ≡ some b
      → (l : List ℕ) × (r ≡ ok l) × (make l ≡ b)
  unfolding loaded
  loaded-some make (ok l) b h = (l, refl, cc)
  loaded-some make (err e) b h = cc

  -- If a valid allocator, whose bitmap fills its blocks and does not wrap on the disk, is synced to a
  -- good device and both the sync and the load after it succeed, the allocator that is loaded has
  -- the bitmap, the number of free blocks and the data area of the one that was synced.
  pub block_alloc_sync-init :
      (a b : BlockAllocator) (sb : Option Superblock) (dev : Dev)
      → IsGood dev
      → IsValid a
      → a.bitmap_start + a.bitmap_blocks ≤ 2 ^ 32
      → length a.bitmap ≡ a.bitmap_blocks * block_size
      → (block_alloc_sync io a sb dev).0 ≡ ok tt
      → (block_alloc_init io a.bitmap_start a.bitmap_blocks a.data_start a.total_blocks
          (block_alloc_sync io a sb dev).2).0
        ≡ some b
      → (b.bitmap ≡ a.bitmap)
        × (b.free_blocks ≡ a.free_blocks)
        × (b.data_start ≡ a.data_start)
        × (b.total_blocks ≡ a.total_blocks)
  unfolding block_alloc_sync block_alloc_init
  block_alloc_sync-init a b sb dev good v le len synced loads =
      let st = store_bitmap-Stores a.bitmap_start a.bitmap_blocks a.bitmap dev good le len synced in
      let (l, e, made) = loaded-some _ _ b loads in
      let same =
        (load_bitmap-Loads a.bitmap_start a.bitmap_blocks a.bitmap _ st.good le st.holds).result l
          e in
      (
        ap (λ (x : BlockAllocator). x.bitmap) (sym made) ∙ same,
        ap (λ (x : BlockAllocator). x.free_blocks) (sym made)
            ∙ ap (λ m. count_clear m a.total_blocks) same
            ∙ sym v.counted,
        ap (λ (x : BlockAllocator). x.data_start) (sym made),
        ap (λ (x : BlockAllocator). x.total_blocks) (sym made),
      )
