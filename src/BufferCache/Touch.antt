-- ===== src/BufferCache/Touch.antt =====
-- The operations that change reference counts and the LRU order only.
use nano_fs.Prelude.{ℕ, ◌+◌, ◌≡◌, refl, List, [], ◌∷◌, arith, u32, sub_u32, ◌⊎◌}
use nano_fs.BufferCache.{BufferCache, without, lru_move_to_head, buffer_head_put, hit, at}
use nano_fs.BufferCache.Inv.{In, Same, Same-trans}

In-without : (p q : ℕ) (l : List ℕ) → In q l → (p ≡ q) ⊎ In q (without p l)
unfolding without
In-without p q [] m = absurd m
In-without p q (r ∷ l) m = ground (arith, In-without p q l)

without-In : (p q : ℕ) (l : List ℕ) → In q (without p l) → In q l
unfolding without
without-In p q [] m = m
without-In p q (r ∷ l) m = ground (arith, without-In p q l)

-- A new reference count of one buffer.
Same-ref : (c : BufferCache) (p r : ℕ) → Same c (at c p (λ bh. record bh { ref_count = r }))
Same-ref c p r = record {
  table = λ _. refl;
  size = refl;
  next = refl;
  members = λ q m. m;
  members' = λ q m. m;
  block = λ q. ground arith;
  content = λ q. ground arith;
  dirty = λ q. ground arith;
  valid = λ q. ground arith;
}

pub Same-put : (c : BufferCache) (p : ℕ) → Same c (buffer_head_put c p)
unfolding buffer_head_put
Same-put c p = Same-ref c p (sub_u32 (c.heads p).ref_count 1)

-- A buffer of the list moves to its head.
pub Same-move : (c : BufferCache) (p : ℕ) → In p c.lru → Same c (lru_move_to_head c p)
unfolding lru_move_to_head
Same-move c p i = record {
  table = λ _. ground arith;
  size = ground arith;
  next = ground arith;
  members = λ q m. ground (arith, without-In p q c.lru);
  members' = λ q m. ground (arith, In-without p q c.lru);
  block = λ q. ground arith;
  content = λ q. ground arith;
  dirty = λ q. ground arith;
  valid = λ q. ground arith;
}

counted : (c : BufferCache) (n m : ℕ) → Same c (record c { hit_count = n; miss_count = m })
counted c n m = record {
  table = λ _. refl;
  size = refl;
  next = refl;
  members = λ q h. h;
  members' = λ q h. h;
  block = λ q. refl;
  content = λ q. refl;
  dirty = λ q. refl;
  valid = λ q. refl;
}

pub Same-hit : (c : BufferCache) (p : ℕ) → In p c.lru → Same c (hit c p)
unfolding hit
Same-hit c p i =
    Same-trans (Same-ref c p (u32 ((c.heads p).ref_count + 1)))
      (Same-trans (Same-move _ p i) (counted _ _ _))

-- A miss changes a counter alone.
pub Same-miss : (c : BufferCache) (n : ℕ) → Same c (record c { miss_count = n })
Same-miss c n = counted c c.hit_count n
