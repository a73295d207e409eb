-- ===== src/BufferCache/Ends.antt =====
-- The states in which the device leaves the cache, up to counters.
use nano_fs.Prelude.{ℕ, refl, true, false, arith}
use nano_fs.Os.{Block}
use nano_fs.BufferCache.{
  BufferCache, buffer_head_put, buffer_head_mark_dirty, at, add_buffer, hash_insert,
}
use nano_fs.BufferCache.Inv.{Same}
use nano_fs.BufferCache.Fill.{filled, added}

pub Same-add_buffer :
    (c : BufferCache) (b : ℕ) (d : Block) → Same (added c b d false) (add_buffer c b d)
unfolding add_buffer hash_insert
Same-add_buffer c b d = record {
  table = λ h. ground arith;
  size = refl;
  next = refl;
  members = λ q m. m;
  members' = λ q m. m;
  block = λ q. refl;
  content = λ q. refl;
  dirty = λ q. refl;
  valid = λ q. refl;
}

pub Same-add_dirty :
    (c : BufferCache) (b : ℕ) (d : Block)
    → Same
        (added c b d true)
        (buffer_head_put (buffer_head_mark_dirty (add_buffer c b d) c.next) c.next)
unfolding add_buffer hash_insert buffer_head_put buffer_head_mark_dirty
Same-add_dirty c b d = record {
  table = λ h. ground arith;
  size = refl;
  next = refl;
  members = λ q m. m;
  members' = λ q m. m;
  block = λ q. ground arith;
  content = λ q. ground arith;
  dirty = λ q. ground arith;
  valid = λ q. ground arith;
}

pub Same-filled :
    (c : BufferCache) (p : ℕ) (d : Block)
    → Same
        (filled c p d)
        (buffer_head_put (buffer_head_mark_dirty (at c p (λ bh. record bh { content = d })) p) p)
unfolding buffer_head_put buffer_head_mark_dirty
Same-filled c p d = record {
  table = λ h. refl;
  size = refl;
  next = refl;
  members = λ q m. m;
  members' = λ q m. m;
  block = λ q. ground arith;
  content = λ q. ground arith;
  dirty = λ q. ground arith;
  valid = λ q. ground arith;
}
