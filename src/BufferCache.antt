-- ===== src/BufferCache.antt =====
-- src/buffer_cache.c and include/modernfs/buffer_cache.h. A buffer head lives at a pointer, a number;
-- `heads` is the memory, and `next` the next pointer that `malloc` gives. A hash chain is the list of
-- its pointers from the table's entry on, and the LRU list that of its pointers from head to tail.
-- `ref_count` is the bit pattern of an `int`. The functions run under `cache_lock`.
use nano_fs.Prelude.{
  ℕ, ◌+◌, ◌*◌, ◌%◌, Bool, true, false, Option, none, some, List, [], ◌∷◌, Result, ok, err, Errno,
  eio, enomem, leb, ◌==◌, if◌then◌else◌, update, u32, u64, sub_u32,
}
pub mod Inv
pub mod Touch
pub mod Insert
pub mod Ends
pub mod Sync
pub mod Fill
mod Tests
use mathlib.Core.List.{reverse}
use nano_fs.Os.{Os, Block}

pub record BufferHead : Type 0 where
  pub block_num : ℕ
  pub content : Block
  pub dirty : Bool
  pub valid : Bool
  pub ref_count : ℕ

pub record BufferCache : Type 0 where
  pub heads : ℕ → BufferHead
  pub next : ℕ
  pub hash_table : ℕ → List ℕ
  pub hash_size : ℕ
  pub lru : List ℕ
  pub max_buffers : ℕ
  pub current_buffers : ℕ
  pub hit_count : ℕ
  pub miss_count : ℕ
  pub evict_count : ℕ

unfoldable pub hash_block : ℕ → ℕ → ℕ
hash_block block hash_size = block % hash_size

-- `lru_remove` on the list
pub without : ℕ → List ℕ → List ℕ
without p [] = []
without p (q ∷ l) = let rest = without p l in if p == q then rest else q ∷ rest

lru_remove : BufferCache → ℕ → BufferCache
lru_remove c p = record c { lru = without p c.lru }

lru_add_to_head : BufferCache → ℕ → BufferCache
lru_add_to_head c p = record c { lru = p ∷ c.lru }

is_head : List ℕ → ℕ → Bool
is_head [] p = false
is_head (q ∷ l) p = q == p

unfoldable pub lru_move_to_head : BufferCache → ℕ → BufferCache
unfolding is_head lru_remove lru_add_to_head
lru_move_to_head c p = if is_head c.lru p then c else lru_add_to_head (lru_remove c p) p

-- The walk along a chain.
unfoldable pub find_block : (ℕ → BufferHead) → List ℕ → ℕ → Option ℕ
find_block heads [] block = none
find_block heads (p ∷ chain) block =
    let rest = find_block heads chain block in if (heads p).block_num == block then some p else rest

unfoldable pub hash_lookup : BufferCache → ℕ → Option ℕ
hash_lookup c block = find_block c.heads (c.hash_table (hash_block block c.hash_size)) block

unfoldable pub hash_insert : BufferCache → ℕ → BufferCache
hash_insert c p =
    let h = hash_block (c.heads p).block_num c.hash_size in
    record c { hash_table = update c.hash_table h (p ∷ c.hash_table h) }

hash_remove : BufferCache → ℕ → BufferCache
hash_remove c p =
    let h = hash_block (c.heads p).block_num c.hash_size in
    record c { hash_table = update c.hash_table h (without p (c.hash_table h)) }

-- A write to `*p`.
abbrev pub at : BufferCache → ℕ → (BufferHead → BufferHead) → BufferCache
at c p f = record c { heads = update c.heads p (f (c.heads p)) }

unfoldable pub buffer_head_get : BufferCache → ℕ → BufferCache
buffer_head_get c p = at c p (λ bh. record bh { ref_count = u32 (bh.ref_count + 1) })

unfoldable pub buffer_head_put : BufferCache → ℕ → BufferCache
buffer_head_put c p = at c p (λ bh. record bh { ref_count = sub_u32 bh.ref_count 1 })

unfoldable pub buffer_head_mark_dirty : BufferCache → ℕ → BufferCache
buffer_head_mark_dirty c p = at c p (λ bh. record bh { dirty = true })

blank : BufferHead
blank = record { block_num = 0; content = []; dirty = false; valid = false; ref_count = 0 }

unfoldable pub buffer_cache_init : ℕ → BufferCache
unfolding blank
buffer_cache_init max_buffers = record {
  heads = λ p. blank;
  next = 0;
  hash_table = λ h. [];
  hash_size = u32 (max_buffers * 2);
  lru = [];
  max_buffers = max_buffers;
  current_buffers = 0;
  hit_count = 0;
  miss_count = 0;
  evict_count = 0;
}

-- The hit: `ref_count++`, to the head of the LRU list, `hit_count++`.
unfoldable pub hit : BufferCache → ℕ → BufferCache
unfolding buffer_head_get
hit c p =
    let c' = lru_move_to_head (buffer_head_get c p) p in
    record c' { hit_count = u64 (c'.hit_count + 1) }

unfoldable pub buffer_cache_lookup : BufferCache → ℕ → Option ℕ × BufferCache
buffer_cache_lookup c block = elim (hash_lookup c block) [
  | some p ↦ (some p, hit c p)
  | none ↦ (none, record c { miss_count = u64 (c.miss_count + 1) })
]

-- The block is cached already: new data, `ref_count++`, to the head of the LRU list.
pub refresh : BufferCache → ℕ → Block → BufferCache
unfolding buffer_head_get
refresh c p content =
    lru_move_to_head
      (buffer_head_get (at c p (λ bh. record bh { content = content; valid = true })) p) p

-- `buffer_head_alloc`, the copy of the data, and the entry into both lists.
unfoldable pub add_buffer : BufferCache → ℕ → Block → BufferCache
unfolding lru_add_to_head
add_buffer c block content =
    let bh : BufferHead = record {
      block_num = block;
      content = content;
      dirty = false;
      valid = true;
      ref_count = 1;
    } in
    let c' = record c { heads = update c.heads c.next bh; next = c.next + 1 } in
    let c'' = lru_add_to_head (hash_insert c' c.next) c.next in
    record c'' { current_buffers = u32 (c''.current_buffers + 1) }

unfoldable pub buffer_cache_invalidate : BufferCache → ℕ → BufferCache
buffer_cache_invalidate c block = elim (hash_lookup c block) [
  | some p ↦ at c p (λ bh. record bh { valid = false; dirty = false })
  | none ↦ c
]

-- What goes through `hits`, `misses` and `evicts`; the hit rate is a float, and left out.
pub buffer_cache_stats : BufferCache → ℕ × ℕ × ℕ
buffer_cache_stats c = (c.hit_count, c.miss_count, c.evict_count)

module _ (os : Os) where
  -- `malloc` answers for both allocations of `buffer_head_alloc`.
  unfoldable pub buffer_cache_insert :
      BufferCache → ℕ → Block → os.W → Option ℕ × BufferCache × os.W
  buffer_cache_insert c block content w = elim (hash_lookup c block) [
    | some p ↦ (some p, refresh c p content, w)
    | none ↦
        let (memory, w') = os.malloc w in
        if leb c.max_buffers c.current_buffers
        then (none, c, w)
        else if memory
        then (some c.next, add_buffer c block content, w')
        else (none, c, w')
  ]

  -- One buffer of `buffer_cache_sync`; `false` is a failed write.
  unfoldable pub sync_buffer : BufferCache → ℕ → os.W → Bool × BufferCache × os.W
  sync_buffer c p w =
      let (written, w') = os.pwrite (c.heads p).block_num (c.heads p).content w in
      if (c.heads p).dirty
      then (if written
          then (true, at c p (λ bh. record bh { dirty = false }), w')
          else (false, c, w'))
      else (true, c, w)

  unfoldable pub sync_list :
      BufferCache → List ℕ → os.W → Result Errno (Unit {0}) × BufferCache × os.W
  sync_list c [] w = (ok tt, c, w)
  sync_list c (p ∷ rest) w =
      let (done, c', w') = sync_buffer c p w in
      elim done [ true ↦ sync_list c' rest w' | false ↦ (err eio, c', w') ]

  unfoldable pub buffer_cache_sync :
      BufferCache → os.W → Result Errno (Unit {0}) × BufferCache × os.W
  buffer_cache_sync c w = sync_list c c.lru w

  -- The eviction of `p`, and the walk from the tail for a buffer that is not in use.
  evict : BufferCache → ℕ → BufferCache
  unfolding lru_remove hash_remove
  evict c p =
      let c' = hash_remove (lru_remove c p) p in
      record c' {
        current_buffers = sub_u32 c'.current_buffers 1;
        evict_count = u64 (c'.evict_count + 1);
      }

  evict_from : BufferCache → List ℕ → os.W → Result Errno (Unit {0}) × BufferCache × os.W
  evict_from c [] w = (err enomem, c, w)
  evict_from c (p ∷ rest) w =
      let (written, w') = os.pwrite (c.heads p).block_num (c.heads p).content w in
      let next = evict_from c rest w in
      if (c.heads p).ref_count == 0
      then (if (c.heads p).dirty
          then (if written then (ok tt, evict c p, w') else (err eio, c, w'))
          else (ok tt, evict c p, w))
      else next

  pub evict_lru_buffer : BufferCache → os.W → Result Errno (Unit {0}) × BufferCache × os.W
  evict_lru_buffer c w = evict_from c (reverse c.lru) w
