-- ===== src/BufferCache/Insert.antt =====
-- `buffer_cache_lookup` and `buffer_cache_insert` for the device: what a reader sees after them.
use nano_fs.Prelude.{
  ℕ, ◌+◌, ◌≡◌, refl, true, false, Option, none, some, arith, ◌∙◌, update, inl, inr, Bool-cases,
  Option-cases, leb, u64,
}
use native.Mathlib.Decide.{ℕ_discrete}
use nano_fs.Os.{Os, Laws, Block}
use nano_fs.BufferCache.{
  BufferCache, hash_lookup, buffer_cache_lookup, buffer_cache_insert, add_buffer, buffer_head_put,
  buffer_head_mark_dirty, hit,
}
use nano_fs.BufferCache.Inv.{IsCoherent, view, Same, Same-view, Same-IsCoherent}
use nano_fs.BufferCache.Fill.{added-IsCoherent, view-added}
use nano_fs.BufferCache.Ends.{Same-add_buffer, Same-add_dirty}

pub lookup-some :
    (c : BufferCache) (b p : ℕ)
    → hash_lookup c b ≡ some p
    → buffer_cache_lookup c b ≡ (some p, hit c p)
unfolding buffer_cache_lookup
lookup-some c b p e = rw (e, buffer_cache_lookup)

pub lookup-none :
    (c : BufferCache) (b : ℕ)
    → hash_lookup c b ≡ none
    → buffer_cache_lookup c b ≡ (none, record c { miss_count = u64 (c.miss_count + 1) })
unfolding buffer_cache_lookup
lookup-none c b e = rw (e, buffer_cache_lookup)

module _ (os : Os) (laws : Laws os) where
  -- A coherent state in which every block but `b` reads as in the first one.
  pub record SameView (c : BufferCache) (w : os.W) (c' : BufferCache) (w' : os.W) : Type 0 where
    pub coherent : IsCoherent os c' w'
    pub views : (q : ℕ) → view os c' w' q ≡ view os c w q

  pub SameView-trans :
      {c c' c'' : BufferCache} {w w' w'' : os.W}
      → SameView c w c' w'
      → SameView c' w' c'' w''
      → SameView c w c'' w''
  SameView-trans s t = record { coherent = t.coherent; views = λ q. t.views q ∙ s.views q }

  pub SameView-Same :
      {c c' : BufferCache} {w : os.W} → IsCoherent os c w → Same c c' → SameView c w c' w
  SameView-Same {w = w} i s = record { coherent = Same-IsCoherent os s i; views = Same-view os w s }

  -- A step of the system that leaves the file alone.
  pub SameView-file :
      {c : BufferCache} {w w' : os.W}
      → IsCoherent os c w
      → ((q : ℕ) → os.file w' q ≡ os.file w q)
      → SameView c w c w'
  SameView-file {c} {w} {w'} i f = record {
    coherent = record {
      listed = i.listed;
      found = i.found;
      valid = i.valid;
      clean = λ p m d. f _ ∙ i.clean p m d;
      fresh = i.fresh;
      chains = i.chains;
    };
    views = same_view;
  }
    where
      same_view : (q : ℕ) → view os c w' q ≡ view os c w q
      same_view q =
          unfold view in
          elim (Option-cases (hash_lookup c q)) [
            | inl e ↦ ground (arith, f q)
            | inr (p, e) ↦ ground arith
          ]

  -- The three ways in which an insertion ends, for a block that is not cached.
  pub data Inserts (c : BufferCache) (b : ℕ) (d : Block) (w : os.W)
      : Option ℕ × BufferCache × os.W → Type 0 where
    skipped : (w' : os.W) → ((q : ℕ) → os.file w' q ≡ os.file w q) → Inserts c b d w (none, c, w')
    made :
        (w' : os.W)
        → ((q : ℕ) → os.file w' q ≡ os.file w q)
        → Inserts c b d w (some c.next, add_buffer c b d, w')

  pub insert-Inserts :
      (c : BufferCache) (b : ℕ) (d : Block) (w : os.W)
      → hash_lookup c b ≡ none
      → Inserts c b d w (buffer_cache_insert os c b d w)
  unfolding buffer_cache_insert
  insert-Inserts c b d w e = elim (Bool-cases (leb c.max_buffers c.current_buffers)) [
    | inl full ↦ rw (e, buffer_cache_insert, full) (skipped w (λ q. refl))
    | inr room ↦ elim (Bool-cases (os.malloc w).0) [
      | inl memory ↦
          rw (e, buffer_cache_insert, room, memory)
            (made (os.malloc w).1 (λ q. laws.malloc_file q w))
      | inr failed ↦
          rw (e, buffer_cache_insert, room, failed)
            (skipped (os.malloc w).1 (λ q. laws.malloc_file q w))
    ]
  ]

  -- A new buffer with the data that the file holds.
  add_clean :
      {c : BufferCache} {b : ℕ} {d : Block} {w : os.W}
      → IsCoherent os c w
      → hash_lookup c b ≡ none
      → os.file w b ≡ d
      → SameView c w (add_buffer c b d) w
  add_clean {c} {b} {d} {w} i e f = record {
    coherent =
        Same-IsCoherent os (Same-add_buffer c b d) (added-IsCoherent os c w i b d false e (λ _. f));
    views =
        λ q. Same-view os w (Same-add_buffer c b d) q ∙ view-added os c w i b d false q ∙ same q;
  }
    where
      same : (q : ℕ) → update (view os c w) b d q ≡ view os c w q
      same q =
          unfold view in
          elim (ℕ_discrete b q) [
            | yes h ↦ rw (← h) (rw (e, view) (ground arith))
            | no h ↦ ground arith
          ]

  pub insert-SameView :
      {c : BufferCache} {b : ℕ} {d : Block} {w : os.W} {out : Option ℕ × BufferCache × os.W}
      → IsCoherent os c w
      → hash_lookup c b ≡ none
      → os.file w b ≡ d
      → Inserts c b d w out
      → SameView c w out.1 out.2
  insert-SameView i e f (skipped w' k) = SameView-file i k
  insert-SameView {c} {b} {d} {w} i e f (made w' k) =
      SameView-trans (SameView-file i k) (add_clean (SameView-file i k).coherent e (k b ∙ f))

  -- A new buffer that is marked dirty: block `b` reads as `d`.
  pub add_dirty :
      (c : BufferCache) (b : ℕ) (w : os.W) (d : Block)
      → IsCoherent os c w
      → hash_lookup c b ≡ none
      → let c' = buffer_head_put (buffer_head_mark_dirty (add_buffer c b d) c.next) c.next in
        IsCoherent os c' w × ((q : ℕ) → view os c' w q ≡ update (view os c w) b d q)
  add_dirty c b w d i e = (
    Same-IsCoherent os (Same-add_dirty c b d)
        (added-IsCoherent os c w i b d true e (λ h. absurd (cc h))),
    λ q. Same-view os w (Same-add_dirty c b d) q ∙ view-added os c w i b d true q,
  )
