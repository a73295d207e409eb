-- ===== src/BlockAlloc/Single.antt =====
-- `block_alloc` and `block_free`.
use nano_fs.Prelude.{
  ℕ, ◌+◌, ◌-◌, ◌≤◌, ◌<◌, ◌≡◌, ◌≢◌, refl, true, false, some, arith, ◌==◌, inl, inr, Option-cases,
  if◌then◌else◌, ok, err, einval, u32, u64,
}
use nano_fs.Bitmap.{bitmap_test, bitmap_set, bitmap_clear, count_clear}
use nano_fs.Bitmap.Laws.{
  test-set, test-clear, set-Fits, clear-Fits, count_clear-flip, count_clear-zero, count_clear-le,
}
use nano_fs.BlockAlloc.{BlockAllocator, find_free, block_alloc, block_free, block_is_allocated}
use nano_fs.BlockAlloc.Search.{FirstClear, find_free-some, find_free-none}
use nano_fs.BlockAlloc.Valid.{IsValid, InRange}

-- `block` was free and now is allocated; all other blocks are as they were.
pub record Allocates (a : BlockAllocator) (block : ℕ) (a' : BlockAllocator) : Type 0 where
  pub in_range : InRange a block
  pub was_free : block_is_allocated a block ≡ false
  pub lowest : (b : ℕ) → a.data_start ≤ b → b < block → block_is_allocated a b ≡ true
  pub now :
      (b : ℕ) → block_is_allocated a' b ≡ (if block == b then true else block_is_allocated a b)
  pub count : a'.free_blocks + 1 ≡ a.free_blocks
  pub valid : IsValid a'

module _ (a : BlockAllocator) (v : IsValid a) where
  -- The search succeeds where `free_blocks` is not 0.
  found : a.free_blocks ≢ 0 → (i : ℕ) × (find_free a.bitmap a.total_blocks 0 ≡ some i)
  found ne = elim (Option-cases (find_free a.bitmap a.total_blocks 0)) [
    | inl e ↦ absurd (
        ne (
          omega (
            arith,
            v.counted,
            count_clear-zero a.bitmap a.total_blocks
                (λ j p. find_free-none a.bitmap a.total_blocks 0 j e (omega arith) (omega arith)),
          )))
    | inr r ↦ r
  ]

  -- The state that `block_alloc` leaves.
  taken : ℕ → BlockAllocator
  taken i = record a {
    bitmap = bitmap_set a.bitmap i;
    free_blocks = a.free_blocks - 1;
    alloc_count = u64 (a.alloc_count + 1);
  }

  block_alloc-taken :
      (i : ℕ)
      → a.free_blocks ≢ 0
      → find_free a.bitmap a.total_blocks 0 ≡ some i
      → i < a.total_blocks
      → block_alloc a ≡ (a.data_start + i, taken i)
  unfolding block_alloc taken
  block_alloc-taken i ne e lt = let w = v.no_wrap in ground arith

  taken-Allocates :
      (i : ℕ)
      → a.free_blocks ≢ 0
      → FirstClear a.bitmap a.total_blocks 0 i
      → Allocates a (a.data_start + i) (taken i)
  unfolding taken block_is_allocated
  taken-Allocates i ne c =
      let lt : i < a.total_blocks = omega (arith, c.below) in
      record {
        in_range = (omega arith, omega arith);
        was_free = let w = v.no_wrap in ground arith;
        lowest = λ b p q. let w = v.no_wrap in ground (arith, c.first (b - a.data_start));
        now = λ b.
            let w = v.no_wrap in
            ground (arith, test-set a.bitmap a.total_blocks i (b - a.data_start) v.fits lt);
        count = omega arith;
        valid = record {
          fits = set-Fits v.fits i;
          counted = omega (
            arith,
            v.counted,
            count_clear-flip a.bitmap (bitmap_set a.bitmap i) a.total_blocks i lt c.clear
                (λ j. test-set a.bitmap a.total_blocks i j v.fits lt),
          );
          positive = v.positive;
          no_wrap = v.no_wrap;
        };
      }

  -- From a valid allocator with a free block left `block_alloc` returns the lowest free block, which is not 0, marks it and
  -- nothing else, and keeps the invariant.
  pub block_alloc-Allocates : a.free_blocks ≢ 0 → Allocates a (block_alloc a).0 (block_alloc a).1
  block_alloc-Allocates ne =
      rw (block_alloc-taken (found ne).0 ne (found ne).1 (omega (arith, c.below)))
        (taken-Allocates (found ne).0 ne c)
    where
      c : FirstClear a.bitmap a.total_blocks 0 (found ne).0
      c = find_free-some a.bitmap a.total_blocks 0 (found ne).0 (found ne).1

-- Without a free block it returns 0 and changes nothing.
pub block_alloc-full : (a : BlockAllocator) → a.free_blocks ≡ 0 → block_alloc a ≡ (0, a)
unfolding block_alloc
block_alloc-full a e = rw e

-- `block` was allocated and now is free; all other blocks are as they were.
pub record Frees (a : BlockAllocator) (block : ℕ) (a' : BlockAllocator) : Type 0 where
  pub now :
      (b : ℕ) → block_is_allocated a' b ≡ (if block == b then false else block_is_allocated a b)
  pub count : a'.free_blocks ≡ a.free_blocks + 1
  pub valid : IsValid a'

module _ (a : BlockAllocator) (v : IsValid a) (block : ℕ) where
  -- The state that `block_free` leaves.
  freed : BlockAllocator
  freed = record a {
    bitmap = bitmap_clear a.bitmap (block - a.data_start);
    free_blocks = u32 (a.free_blocks + 1);
    free_count = u64 (a.free_count + 1);
  }

  bit-lt : block_is_allocated a block ≡ true → block - a.data_start < a.total_blocks
  unfolding block_is_allocated
  bit-lt h = let w = v.no_wrap in ground arith

  bit-set : block_is_allocated a block ≡ true → bitmap_test a.bitmap (block - a.data_start) ≡ true
  unfolding block_is_allocated
  bit-set h = let w = v.no_wrap in ground arith

  block_free-freed : block_is_allocated a block ≡ true → block_free a block ≡ (ok tt, freed)
  unfolding block_free freed block_is_allocated
  block_free-freed h = let w = v.no_wrap in ground arith

  freed-count :
      block_is_allocated a block ≡ true
      → count_clear (bitmap_clear a.bitmap (block - a.data_start)) a.total_blocks
        ≡ a.free_blocks + 1
  freed-count h = omega (arith, v.counted, flip)
    where
      bit : ℕ
      bit = block - a.data_start

      law :
          (j : ℕ)
          → bitmap_test (bitmap_clear a.bitmap bit) j
            ≡ (if bit == j then false else bitmap_test a.bitmap j)
      law j = test-clear a.bitmap a.total_blocks bit j v.fits (bit-lt h)

      flip :
          count_clear a.bitmap a.total_blocks + 1
          ≡ count_clear (bitmap_clear a.bitmap bit) a.total_blocks
      flip =
          count_clear-flip (bitmap_clear a.bitmap bit) a.bitmap a.total_blocks bit (bit-lt h)
            (ground (arith, law bit)) (λ j. ground (arith, law j, bit-set h))

  freed-Frees : block_is_allocated a block ≡ true → Frees a block freed
  unfolding freed block_is_allocated
  freed-Frees h = record {
    now = λ b.
        let w = v.no_wrap in
        ground (
          arith,
          test-clear a.bitmap a.total_blocks (block - a.data_start) (b - a.data_start) v.fits
              (bit-lt h),
        );
    count = omega (
      arith,
      freed-count h,
      v.no_wrap,
      count_clear-le (bitmap_clear a.bitmap (block - a.data_start)) a.total_blocks,
    );
    valid = record {
      fits = clear-Fits v.fits (block - a.data_start);
      counted = omega (
        arith,
        freed-count h,
        v.no_wrap,
        count_clear-le (bitmap_clear a.bitmap (block - a.data_start)) a.total_blocks,
      );
      positive = v.positive;
      no_wrap = v.no_wrap;
    };
  }

  -- In a valid allocator an allocated block is freed: the call succeeds, the block becomes free, no
  -- other block changes, the count grows by one, and the invariant stays.
  pub block_free-Frees :
      block_is_allocated a block ≡ true
      → ((block_free a block).0 ≡ ok tt) × Frees a block (block_free a block).1
  block_free-Frees h = rw (block_free-freed h) (refl, freed-Frees h)

-- A block that is not allocated is refused, in range (a double free) and out of range alike, and
-- nothing changes.
pub block_free-refused :
    (a : BlockAllocator) (block : ℕ)
    → block_is_allocated a block ≡ false
    → block_free a block ≡ (err einval, a)
unfolding block_free block_is_allocated
block_free-refused a block h = ground arith
