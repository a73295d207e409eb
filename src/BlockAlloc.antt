-- ===== src/BlockAlloc.antt =====
-- src/block_alloc.c: the allocator of data blocks. The state is a record, and a function that
-- changes it returns the new one beside its result. Each runs under `alloc_lock` from its first
-- access of the state to its last, so it is one step.
pub mod Disk
pub mod Search
mod Ranges
mod FirstFit
pub mod Valid
pub mod Single
pub mod Multiple
mod Tests
use nano_fs.Prelude.{
  ℕ, zero, suc, ◌+◌, ◌-◌, Bool, true, false, ◌||◌, Option, none, some, List, Result, ok, err, Errno,
  einval, enospc, ltb, leb, ◌==◌, if◌then◌else◌, u32, u64, sub_u32,
}
use nano_fs.Bitmap.{bitmap_test, bitmap_set, bitmap_clear}

pub record BlockAllocator : Type 0 where
  pub bitmap : List ℕ
  pub bitmap_blocks : ℕ
  pub total_blocks : ℕ
  pub free_blocks : ℕ
  pub data_start : ℕ
  pub bitmap_start : ℕ
  pub alloc_count : ℕ
  pub free_count : ℕ

-- `for (i = ...; i < total_blocks; i++) if (!bitmap_test(bitmap, i)) ...`, with `rounds` left
pub find_free : List ℕ → ℕ → ℕ → Option ℕ
find_free bitmap zero i = none
find_free bitmap (suc rounds) i =
    let rest = find_free bitmap rounds (i + 1) in if bitmap_test bitmap i then rest else some i

-- The bit found is taken; 0 stands for failure.
take_bit : BlockAllocator → Option ℕ → ℕ × BlockAllocator
take_bit a none = (0, a)
take_bit a (some i) = (
  u32 (a.data_start + i),
  record a {
    bitmap = bitmap_set a.bitmap i;
    free_blocks = a.free_blocks - 1;
    alloc_count = u64 (a.alloc_count + 1);
  },
)

unfoldable pub block_alloc : BlockAllocator → ℕ × BlockAllocator
unfolding take_bit
block_alloc a =
    if a.free_blocks == 0 then (0, a) else take_bit a (find_free a.bitmap a.total_blocks 0)

out_of_range : BlockAllocator → ℕ → Bool
out_of_range a block = ltb block a.data_start || leb (u32 (a.data_start + a.total_blocks)) block

unfoldable pub block_free : BlockAllocator → ℕ → Result Errno (Unit {0}) × BlockAllocator
unfolding out_of_range
block_free a block =
    if out_of_range a block
    then (err einval, a)
    else if bitmap_test a.bitmap (block - a.data_start)
    then (
      ok tt,
      record a {
        bitmap = bitmap_clear a.bitmap (block - a.data_start);
        free_blocks = u32 (a.free_blocks + 1);
        free_count = u64 (a.free_count + 1);
      },
    )
    else (err einval, a)

-- First fit: the first run of `count` clear bits. `consecutive` clear bits end at `i`, from `start`.
pub find_run : List ℕ → ℕ → ℕ → ℕ → ℕ → ℕ → Option ℕ
find_run bitmap count zero i consecutive start = none
find_run bitmap count (suc rounds) i consecutive start =
    let start' = if consecutive == 0 then i else start in
    let found = find_run bitmap count rounds (i + 1) (consecutive + 1) start' in
    let reset = find_run bitmap count rounds (i + 1) 0 start in
    if bitmap_test bitmap i
    then reset
    else if leb count (consecutive + 1)
    then some start'
    else found

-- `for (j = start; j < start + count; j++) bitmap_set(bitmap, j)`
pub set_range : List ℕ → ℕ → ℕ → List ℕ
set_range bitmap start zero = bitmap
set_range bitmap start (suc count) = set_range (bitmap_set bitmap start) (start + 1) count

take_run : BlockAllocator → ℕ → Option ℕ → Result Errno (ℕ × ℕ) × BlockAllocator
take_run a count none = (err enospc, a)
take_run a count (some start) = (
  ok (u32 (a.data_start + start), count),
  record a {
    bitmap = set_range a.bitmap start count;
    free_blocks = a.free_blocks - count;
    alloc_count = u64 (a.alloc_count + count);
  },
)

-- The pair is what goes through `out_start` and `out_count`.
unfoldable pub block_alloc_multiple : BlockAllocator → ℕ → Result Errno (ℕ × ℕ) × BlockAllocator
unfolding take_run
block_alloc_multiple a count =
    if count == 0
    then (err einval, a)
    else if ltb a.free_blocks count
    then (err enospc, a)
    else take_run a count (find_run a.bitmap count a.total_blocks 0 0 0)

-- `for (i = 0; i < count; i++) if (!bitmap_test(bitmap, bit_start + i)) return -EINVAL`
pub all_set : List ℕ → ℕ → ℕ → Bool
all_set bitmap start zero = true
all_set bitmap start (suc count) =
    let rest = all_set bitmap (start + 1) count in if bitmap_test bitmap start then rest else false

pub clear_range : List ℕ → ℕ → ℕ → List ℕ
clear_range bitmap start zero = bitmap
clear_range bitmap start (suc count) = clear_range (bitmap_clear bitmap start) (start + 1) count

-- The range test, whose sums wrap.
unfoldable pub range_rejected : BlockAllocator → ℕ → ℕ → Bool
range_rejected a start count =
    ltb start a.data_start || ltb (u32 (a.data_start + a.total_blocks)) (u32 (start + count))

unfoldable pub block_free_multiple :
    BlockAllocator → ℕ → ℕ → Result Errno (Unit {0}) × BlockAllocator
unfolding range_rejected
block_free_multiple a start count =
    if count == 0
    then (err einval, a)
    else if range_rejected a start count
    then (err einval, a)
    else if all_set a.bitmap (start - a.data_start) count
    then (
      ok tt,
      record a {
        bitmap = clear_range a.bitmap (start - a.data_start) count;
        free_blocks = u32 (a.free_blocks + count);
        free_count = u64 (a.free_count + count);
      },
    )
    else (err einval, a)

unfoldable pub block_is_allocated : BlockAllocator → ℕ → Bool
unfolding out_of_range
block_is_allocated a block =
    if out_of_range a block then false else bitmap_test a.bitmap (block - a.data_start)

-- What goes through `total`, `free` and `used`; the quotient `usage` is a float, and left out.
pub block_alloc_stats : BlockAllocator → ℕ × ℕ × ℕ
block_alloc_stats a = (a.total_blocks, a.free_blocks, sub_u32 a.total_blocks a.free_blocks)
