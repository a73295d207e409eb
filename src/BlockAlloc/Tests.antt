-- ===== src/BlockAlloc/Tests.antt =====
-- `block_alloc.c` on an allocator of eight blocks, 10 to 17, of which 10 and 12 are allocated.
use nano_fs.Prelude.{
  ℕ, ◌+◌, ◌≤◌, ◌<◌, ◌⊎◌, inl, inr, enospc, ◌≡◌, refl, true, false, arith, ok, err, einval, [], ◌∷◌,
}
use nano_fs.Bitmap.{bitmap_test, count_clear}
use nano_fs.BlockAlloc.{
  BlockAllocator, block_alloc, block_free, block_alloc_multiple, block_free_multiple,
  block_is_allocated, range_rejected,
}
use nano_fs.BlockAlloc
use nano_fs.BlockAlloc.Valid.{IsValid}
use nano_fs.BlockAlloc.Single.{
  Allocates, Frees, block_alloc-Allocates, block_free-Frees, block_free-refused,
}
use nano_fs.BlockAlloc.Multiple.{
  Extent, AllocatesRun, FreesRun, block_alloc_multiple-AllocatesRun, block_alloc_multiple-enospc,
  block_free_multiple-FreesRun, block_free_multiple-refused, range_rejected-wraps,
}

abbrev eight : BlockAllocator
eight = record {
  bitmap = 5 ∷ [];
  bitmap_blocks = 1;
  total_blocks = 8;
  free_blocks = 6;
  data_start = 10;
  bitmap_start = 3;
  alloc_count = 2;
  free_count = 0;
}

eight-IsValid : IsValid eight
unfolding count_clear bitmap_test
eight-IsValid = record {
  fits = record { bytes = (omega arith, tt); room = omega arith };
  counted = refl;
  positive = omega arith;
  no_wrap = omega arith;
}

next_block : (block_alloc eight).0 ≡ 11
unfolding block_alloc nano_fs.BlockAlloc.find_free bitmap_test
next_block = refl

block_alloc-Allocates_example : Allocates eight (block_alloc eight).0 (block_alloc eight).1
block_alloc-Allocates_example = block_alloc-Allocates eight eight-IsValid (omega arith)

twelve_allocated : block_is_allocated eight 12 ≡ true
unfolding block_is_allocated bitmap_test
twelve_allocated = refl

eleven_free : block_is_allocated eight 11 ≡ false
unfolding block_is_allocated bitmap_test
eleven_free = refl

block_free-Frees_example :
    ((block_free eight 12).0 ≡ ok tt) × Frees eight 12 (block_free eight 12).1
block_free-Frees_example = block_free-Frees eight eight-IsValid 12 twelve_allocated

block_free-refused_example : block_free eight 11 ≡ (err einval, eight)
block_free-refused_example = block_free-refused eight 11 eleven_free

-- 13 and 14 are free, 12 is allocated, and every extent of six blocks holds 12.
two_free : Extent eight false 13 2
unfolding block_is_allocated bitmap_test
two_free = record {
  low = omega arith;
  high = omega arith;
  each = λ j p q. elim (near j p q) [ inl e ↦ rw e refl | inr e ↦ rw e refl ];
}
  where
    near : (j : ℕ) → 13 ≤ j → j < 15 → (j ≡ 13) ⊎ (j ≡ 14)
    near j p q = ground arith

one_allocated : Extent eight true 12 1
one_allocated = record {
  low = omega arith;
  high = omega arith;
  each = λ j p q. let e : j ≡ 12 = omega arith in rw e twelve_allocated;
}

no_six_free : (start : ℕ) → ¬ Extent eight false start 6
no_six_free start e =
    let l = e.low in let h = e.high in cc (twelve_allocated, e.each 12 (omega arith) (omega arith))

not_both : ¬ Extent eight true 10 2
not_both e = cc (eleven_free, e.each 11 (omega arith) (omega arith))

block_alloc_multiple-AllocatesRun_example :
    (s : ℕ) × ((block_alloc_multiple eight 2).0 ≡ ok (s, 2))
    × AllocatesRun eight s 2 (block_alloc_multiple eight 2).1
block_alloc_multiple-AllocatesRun_example =
    block_alloc_multiple-AllocatesRun eight eight-IsValid 2 (omega arith) 13 two_free

block_alloc_multiple-enospc_example : block_alloc_multiple eight 6 ≡ (err enospc, eight)
block_alloc_multiple-enospc_example =
    block_alloc_multiple-enospc eight eight-IsValid 6 (omega arith) no_six_free

block_free_multiple-FreesRun_example :
    ((block_free_multiple eight 12 1).0 ≡ ok tt)
    × FreesRun eight 12 1 (block_free_multiple eight 12 1).1
block_free_multiple-FreesRun_example =
    block_free_multiple-FreesRun eight eight-IsValid 12 1 (omega arith) one_allocated

block_free_multiple-refused_example : block_free_multiple eight 10 2 ≡ (err einval, eight)
block_free_multiple-refused_example =
    block_free_multiple-refused eight eight-IsValid 10 2 (omega arith) (omega arith) not_both

range_rejected-wraps_example : (range_rejected eight 12 4294967286 ≡ false) × (18 < 12 + 4294967286)
range_rejected-wraps_example =
    range_rejected-wraps eight 12 4294967286 eight-IsValid (omega arith, omega arith) (omega arith)
      (omega arith) (omega arith)
