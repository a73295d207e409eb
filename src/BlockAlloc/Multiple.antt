-- ===== src/BlockAlloc/Multiple.antt =====
-- `block_alloc_multiple` and `block_free_multiple`.
use nano_fs.Prelude.{
  ℕ, ◌+◌, ◌-◌, ◌^◌, ◌≤◌, ◌<◌, ◌≡◌, ◌≢◌, ◌⊎◌, refl, Bool, true, false, none, some, arith, Bool-cases,
  inl, inr, Option-cases, if◌then◌else◌, ltb, ok, err, einval, enospc, u32, u64,
}
use nano_fs.Bitmap.{bitmap_test, count_clear}
use nano_fs.Bitmap.Laws.{count_clear-le}
use nano_fs.BlockAlloc.{
  BlockAllocator, find_run, set_range, clear_range, all_set, range_rejected, block_alloc_multiple,
  block_free_multiple, block_is_allocated,
}
use nano_fs.BlockAlloc.FirstFit.{Run, FirstRun, find_run-FirstRun, find_run_complete}
use nano_fs.BlockAlloc.Ranges.{
  in_run, set_range-Fits, clear_range-Fits, test-set_range, test-clear_range, count_clear-run,
  all_set-test, test-all_set,
}
use nano_fs.BlockAlloc.Valid.{IsValid, InRange}

-- The blocks `[start, start + count)` lie in the data area, and all have the state `b`.
pub record Extent (a : BlockAllocator) (b : Bool) (start count : ℕ) : Type 0 where
  pub low : a.data_start ≤ start
  pub high : start + count ≤ a.data_start + a.total_blocks
  pub each : (j : ℕ) → start ≤ j → j < start + count → block_is_allocated a j ≡ b

-- The state of exactly the blocks `[start, start + count)` has become `b`.
abbrev pub Marks : BlockAllocator → BlockAllocator → Bool → ℕ → ℕ → Type 0
Marks a a' b start count =
    (j : ℕ) → block_is_allocated a' j ≡ (if in_run start count j then b else block_is_allocated a j)

pub record AllocatesRun (a : BlockAllocator) (start count : ℕ) (a' : BlockAllocator) : Type 0 where
  pub were_free : Extent a false start count
  pub lowest : (s : ℕ) → s < start → ¬ Extent a false s count
  pub now : Marks a a' true start count
  pub left : a'.free_blocks + count ≡ a.free_blocks
  pub valid : IsValid a'

module _ (a : BlockAllocator) (v : IsValid a) (count : ℕ) (ne : count ≢ 0) where
  Extent-Run : (start : ℕ) → Extent a false start count → Run a.bitmap count (start - a.data_start)
  unfolding block_is_allocated
  Extent-Run start e j p q =
      let w = v.no_wrap in ground (arith, e.low, e.high, e.each (a.data_start + j))

  run_state : ℕ → BlockAllocator
  run_state s = record a {
    bitmap = set_range a.bitmap s count;
    free_blocks = a.free_blocks - count;
    alloc_count = u64 (a.alloc_count + count);
  }

  run_state-AllocatesRun :
      (s : ℕ)
      → FirstRun a.bitmap count a.total_blocks s
      → count ≤ a.free_blocks
      → AllocatesRun a (a.data_start + s) count (run_state s)
  unfolding run_state block_is_allocated
  run_state-AllocatesRun s r le = record {
    were_free = record {
      low = omega arith;
      high = omega (arith, r.inside);
      each = λ j p q. let w = v.no_wrap in ground (arith, r.inside, r.run (j - a.data_start));
    };
    lowest = λ t p e. r.first (t - a.data_start) (omega (arith, e.low)) (Extent-Run t e);
    now = λ j.
        let w = v.no_wrap in
        ground (
          arith,
          r.inside,
          test-set_range a.bitmap a.total_blocks s count (j - a.data_start) v.fits r.inside,
        );
    left = omega arith;
    valid = record {
      fits = set_range-Fits a.bitmap s count v.fits;
      counted = omega (
        arith,
        v.counted,
        count_clear-run a.bitmap (set_range a.bitmap s count) a.total_blocks s count v.fits r.inside
            r.run (λ j. test-set_range a.bitmap a.total_blocks s count j v.fits r.inside),
      );
      positive = v.positive;
      no_wrap = v.no_wrap;
    };
  }

  block_alloc_multiple-run_state :
      (s : ℕ)
      → count ≤ a.free_blocks
      → find_run a.bitmap count a.total_blocks 0 0 0 ≡ some s
      → s + count ≤ a.total_blocks
      → block_alloc_multiple a count ≡ (ok (a.data_start + s, count), run_state s)
  unfolding block_alloc_multiple run_state
  block_alloc_multiple-run_state s le e lt = let w = v.no_wrap in ground arith

  Run-count : (s : ℕ) → s + count ≤ a.total_blocks → Run a.bitmap count s → count ≤ a.free_blocks
  Run-count s le run = omega (
    arith,
    v.counted,
    count_clear-run a.bitmap (set_range a.bitmap s count) a.total_blocks s count v.fits le run
        (λ j. test-set_range a.bitmap a.total_blocks s count j v.fits le),
  )

  -- Wherever the data area of a valid allocator has an extent of `count` free blocks, `count` not 0,
  -- the call succeeds with the lowest such extent, which is marked; no other block changes, and the
  -- invariant stays.
  pub block_alloc_multiple-AllocatesRun :
      (start : ℕ)
      → Extent a false start count
      → (s : ℕ) × ((block_alloc_multiple a count).0 ≡ ok (s, count))
        × AllocatesRun a s count (block_alloc_multiple a count).1
  block_alloc_multiple-AllocatesRun start e =
      go (Option-cases (find_run a.bitmap count a.total_blocks 0 0 0))
    where
      fits : start - a.data_start + count ≤ a.total_blocks
      fits = omega (arith, e.low, e.high)

      enough : count ≤ a.free_blocks
      enough = Run-count (start - a.data_start) fits (Extent-Run start e)

      go :
          (find_run a.bitmap count a.total_blocks 0 0 0 ≡ none)
            ⊎ ((s : ℕ) × (find_run a.bitmap count a.total_blocks 0 0 0 ≡ some s))
          → (s : ℕ) × ((block_alloc_multiple a count).0 ≡ ok (s, count))
            × AllocatesRun a s count (block_alloc_multiple a count).1
      go (inl h) = absurd (
          find_run_complete a.bitmap count a.total_blocks (start - a.data_start) ne h fits
            (Extent-Run start e))
      go (inr (s, h)) =
          let r = find_run-FirstRun a.bitmap count a.total_blocks s ne h in
          (
            a.data_start + s,
            rw (block_alloc_multiple-run_state s enough h r.inside),
            rw (block_alloc_multiple-run_state s enough h r.inside)
                (run_state-AllocatesRun s r enough),
          )

  -- Where a valid allocator has no extent of `count` free blocks, `count` not 0, the request fails
  -- with ENOSPC, and nothing changes.
  pub block_alloc_multiple-enospc :
      ((start : ℕ) → ¬ Extent a false start count) → block_alloc_multiple a count ≡ (err enospc, a)
  unfolding block_alloc_multiple
  block_alloc_multiple-enospc no_run =
      go (Option-cases (find_run a.bitmap count a.total_blocks 0 0 0))
    where
      go :
          (find_run a.bitmap count a.total_blocks 0 0 0 ≡ none)
            ⊎ ((s : ℕ) × (find_run a.bitmap count a.total_blocks 0 0 0 ≡ some s))
          → block_alloc_multiple a count ≡ (err enospc, a)
      go (inl h) = ground arith
      go (inr (s, h)) = elim (Bool-cases (ltb a.free_blocks count)) [
        | inl few ↦ ground arith
        | inr enough ↦
            let r = find_run-FirstRun a.bitmap count a.total_blocks s ne h in
            absurd (no_run (a.data_start + s) (run_state-AllocatesRun s r (ground arith)).were_free)
      ]

-- The extent was allocated and now is free; nothing else changes.
pub record FreesRun (a : BlockAllocator) (start count : ℕ) (a' : BlockAllocator) : Type 0 where
  pub now : Marks a a' false start count
  pub left : a'.free_blocks ≡ a.free_blocks + count
  pub valid : IsValid a'

module _ (a : BlockAllocator) (v : IsValid a) (start count : ℕ) (ne : count ≢ 0) where
  freed_run : BlockAllocator
  freed_run = record a {
    bitmap = clear_range a.bitmap (start - a.data_start) count;
    free_blocks = u32 (a.free_blocks + count);
    free_count = u64 (a.free_count + count);
  }

  Extent-all_set : Extent a true start count → all_set a.bitmap (start - a.data_start) count ≡ true
  unfolding block_is_allocated
  Extent-all_set e =
      test-all_set a.bitmap (start - a.data_start) count
        (λ j p q. let w = v.no_wrap in ground (arith, e.low, e.high, e.each (a.data_start + j)))

  block_free_multiple-freed_run :
      Extent a true start count → block_free_multiple a start count ≡ (ok tt, freed_run)
  unfolding block_free_multiple freed_run
  block_free_multiple-freed_run e =
      let w = v.no_wrap in ground (arith, e.low, e.high, Extent-all_set e)

  freed_run-count :
      Extent a true start count
      → count_clear (clear_range a.bitmap (start - a.data_start) count) a.total_blocks
        ≡ a.free_blocks + count
  freed_run-count e = omega (
    arith,
    v.counted,
    count_clear-run (clear_range a.bitmap s count) a.bitmap a.total_blocks s count
        (clear_range-Fits a.bitmap s count v.fits) fits (λ j p q. ground (arith, law j))
        (λ j. ground (arith, law j, all_set-test a.bitmap s count j (Extent-all_set e))),
  )
    where
      s : ℕ
      s = start - a.data_start

      fits : s + count ≤ a.total_blocks
      fits = omega (arith, e.low, e.high)

      law :
          (j : ℕ)
          → bitmap_test (clear_range a.bitmap s count) j
            ≡ (if in_run s count j then false else bitmap_test a.bitmap j)
      law j = test-clear_range a.bitmap a.total_blocks s count j v.fits fits

  freed_run-FreesRun : Extent a true start count → FreesRun a start count freed_run
  unfolding freed_run block_is_allocated
  freed_run-FreesRun e =
      let fits : start - a.data_start + count ≤ a.total_blocks = omega (arith, e.low, e.high) in
      record {
        now = λ j.
            let w = v.no_wrap in
            ground (
              arith,
              e.low,
              fits,
              test-clear_range a.bitmap a.total_blocks (start - a.data_start) count
                  (j - a.data_start) v.fits fits,
            );
        left = omega (
          arith,
          freed_run-count e,
          v.no_wrap,
          count_clear-le (clear_range a.bitmap (start - a.data_start) count) a.total_blocks,
        );
        valid = record {
          fits = clear_range-Fits a.bitmap (start - a.data_start) count v.fits;
          counted = omega (
            arith,
            freed_run-count e,
            v.no_wrap,
            count_clear-le (clear_range a.bitmap (start - a.data_start) count) a.total_blocks,
          );
          positive = v.positive;
          no_wrap = v.no_wrap;
        };
      }

  -- An extent of `count` allocated blocks of a valid allocator, `count` not 0, is freed whole: the
  -- call succeeds, no other block changes, and the invariant stays.
  pub block_free_multiple-FreesRun :
      Extent a true start count
      → ((block_free_multiple a start count).0 ≡ ok tt)
        × FreesRun a start count (block_free_multiple a start count).1
  block_free_multiple-FreesRun e = rw (block_free_multiple-freed_run e) (refl, freed_run-FreesRun e)

  all_set-Extent :
      start + count < 2 ^ 32
      → range_rejected a start count ≡ false
      → all_set a.bitmap (start - a.data_start) count ≡ true
      → Extent a true start count
  unfolding range_rejected block_is_allocated
  all_set-Extent lt r h = record {
    low = ground arith;
    high = let w = v.no_wrap in ground arith;
    each = λ j p q.
        let w = v.no_wrap in
        ground (arith, all_set-test a.bitmap (start - a.data_start) count (j - a.data_start) h);
  }

  -- If the end of the range does not wrap, a valid allocator refuses to free a range, not empty,
  -- that is not an extent of allocated blocks, and nothing changes.
  pub block_free_multiple-refused :
      start + count < 2 ^ 32
      → ¬ Extent a true start count
      → block_free_multiple a start count ≡ (err einval, a)
  unfolding block_free_multiple
  block_free_multiple-refused lt not_set = elim (Bool-cases (range_rejected a start count)) [
    | inl r ↦ ground arith
    | inr r ↦ elim (Bool-cases (all_set a.bitmap (start - a.data_start) count)) [
      | inl s ↦ absurd (not_set (all_set-Extent lt r s))
      | inr s ↦ ground arith
    ]
  ]

-- For a range that starts in the data area of a valid allocator and whose end wraps, to a number
-- that is no more than the end of the data area, the range test passes, though the range runs past
-- the data area.
pub range_rejected-wraps :
    (a : BlockAllocator) (start count : ℕ)
    → IsValid a
    → InRange a start
    → count < 2 ^ 32
    → 2 ^ 32 ≤ start + count
    → start + count ≤ 2 ^ 32 + a.data_start + a.total_blocks
    → (range_rejected a start count ≡ false) × (a.data_start + a.total_blocks < start + count)
unfolding range_rejected
range_rejected-wraps a start count v i c lo hi = let w = v.no_wrap in (ground arith, omega arith)
