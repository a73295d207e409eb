-- ===== src/BufferCache/Sync.antt =====
-- `buffer_cache_sync` writes every dirty buffer to the file, and changes no reader's view.
use nano_fs.Prelude.{
  ℕ, ◌≡◌, ◌≢◌, refl, true, false, List, [], ◌∷◌, arith, sym, ◌∙◌, inl, inr, Bool-cases,
  Option-cases, Result, ok, err, eio, Errno,
}
use native.Mathlib.Decide.{ℕ_discrete}
use nano_fs.Os.{Os, Laws}
use nano_fs.BufferCache.{BufferCache, hash_lookup, at, sync_buffer, sync_list, buffer_cache_sync}
use nano_fs.BufferCache.Inv.{In, find_block-congr, hash_lookup-block, IsCoherent, view}

module _ (os : Os) (laws : Laws os) where
  -- The same buffers with the same data, some of them clean now, and the same view of every block.
  pub record Kept (c : BufferCache) (w : os.W) (c' : BufferCache) (w' : os.W) : Type 0 where
    pub coherent : IsCoherent os c' w'
    pub lru : c'.lru ≡ c.lru
    pub block : (p : ℕ) → (c'.heads p).block_num ≡ (c.heads p).block_num
    pub clean : (p : ℕ) → (c.heads p).dirty ≡ false → (c'.heads p).dirty ≡ false
    pub views : (b : ℕ) → view os c' w' b ≡ view os c w b

  Kept-refl : {c : BufferCache} {w : os.W} → IsCoherent os c w → Kept c w c w
  Kept-refl i = record {
    coherent = i;
    lru = refl;
    block = λ p. refl;
    clean = λ p h. h;
    views = λ b. refl;
  }

  Kept-trans :
      {c c' c'' : BufferCache} {w w' w'' : os.W}
      → Kept c w c' w'
      → Kept c' w' c'' w''
      → Kept c w c'' w''
  Kept-trans k l = record {
    coherent = l.coherent;
    lru = l.lru ∙ k.lru;
    block = λ p. l.block p ∙ k.block p;
    clean = λ p h. l.clean p (k.clean p h);
    views = λ b. l.views b ∙ k.views b;
  }

  module _ (c : BufferCache) (w : os.W) (i : IsCoherent os c w) (p : ℕ) (m : In p c.lru) where
    washed : BufferCache
    washed = at c p (λ bh. record bh { dirty = false })

    w' : os.W
    w' = (os.pwrite (c.heads p).block_num (c.heads p).content w).1

    hash_lookup-washed : (b : ℕ) → hash_lookup washed b ≡ hash_lookup c b
    unfolding hash_lookup washed
    hash_lookup-washed b = find_block-congr c.heads _ _ b (λ q n. ground arith)

    -- Another buffer of the list is for another block.
    other_block : (q : ℕ) → In q c.lru → q ≢ p → (c.heads q).block_num ≢ (c.heads p).block_num
    other_block q n ne e = ground (arith, i.found q n, i.found p m)

    file-other : (q : ℕ) → q ≢ (c.heads p).block_num → os.file w' q ≡ os.file w q
    unfolding w'
    file-other q ne = laws.pwrite_file (c.heads p).block_num q (c.heads p).content w ne

    -- A failed write changes the file at the block of a dirty buffer.
    failed-Kept : (c.heads p).dirty ≡ true → Kept c w c w'
    failed-Kept d = record {
      coherent = record {
        listed = i.listed;
        found = i.found;
        valid = i.valid;
        clean =
            λ r n e. ground (arith, file-other (c.heads r).block_num, other_block r n, i.clean r n);
        fresh = i.fresh;
        chains = i.chains;
      };
      lru = refl;
      block = λ q. refl;
      clean = λ q h. h;
      views = same_view;
    }
      where
        same_view : (b : ℕ) → view os c w' b ≡ view os c w b
        same_view b =
            unfold view in
            elim (Option-cases (hash_lookup c b)) [
              | inl e ↦ ground (arith, file-other b, i.found p m)
              | inr (r, e) ↦ ground arith
            ]

    module _ (written : (os.pwrite (c.heads p).block_num (c.heads p).content w).0 ≡ true) where
      file_self : os.file w' (c.heads p).block_num ≡ (c.heads p).content
      unfolding w'
      file_self = laws.pwrite_data (c.heads p).block_num (c.heads p).content w written

      washed_clean :
          (r : ℕ)
          → In r c.lru
          → (washed.heads r).dirty ≡ false
          → os.file w' (washed.heads r).block_num ≡ (washed.heads r).content
      unfolding washed
      washed_clean r n e = elim (ℕ_discrete p r) [
        | yes h ↦ ground (arith, file_self)
        | no h ↦ ground (arith, file-other (c.heads r).block_num, other_block r n, i.clean r n)
      ]

      washed-view : (b : ℕ) → view os washed w' b ≡ view os c w b
      unfolding washed view
      washed-view b = elim (Option-cases (hash_lookup c b)) [
        | inl e ↦ ground (arith, hash_lookup-washed b, file-other b, i.found p m)
        | inr (r, e) ↦ ground (arith, hash_lookup-washed b)
      ]

      washed-Kept : Kept c w washed w'
      unfolding washed
      washed-Kept = record {
        coherent = record {
          listed = λ q r e. i.listed q r (sym (hash_lookup-washed q) ∙ e);
          found = λ r n. hash_lookup-washed _ ∙ ground (arith, i.found r n);
          valid = λ r n. ground (arith, i.valid r n);
          clean = washed_clean;
          fresh = i.fresh;
          chains = i.chains;
        };
        lru = refl;
        block = λ q. ground arith;
        clean = λ q h. ground arith;
        views = washed-view;
      }

  sync_buffer-Kept :
      (c : BufferCache) (w : os.W) (p : ℕ)
      → IsCoherent os c w
      → In p c.lru
      → Kept c w (sync_buffer os c p w).1 (sync_buffer os c p w).2
  unfolding sync_buffer washed w'
  sync_buffer-Kept c w p i m = elim (Bool-cases (c.heads p).dirty) [
    | inr clean ↦ rw clean (Kept-refl i)
    | inl dirty ↦ elim (Bool-cases (os.pwrite (c.heads p).block_num (c.heads p).content w).0) [
      | inl written ↦ rw (dirty, written) (washed-Kept c w i p m written)
      | inr failed ↦ rw (dirty, failed) (failed-Kept c w i p m dirty)
    ]
  ]

  sync_buffer-clean :
      (c : BufferCache) (w : os.W) (p : ℕ)
      → (sync_buffer os c p w).0 ≡ true
      → ((sync_buffer os c p w).1.heads p).dirty ≡ false
  unfolding sync_buffer
  sync_buffer-clean c w p h = ground arith

  sync_list-ok :
      (c : BufferCache) (w : os.W) (p : ℕ) (l : List ℕ)
      → (sync_buffer os c p w).0 ≡ true
      → sync_list os c (p ∷ l) w ≡ sync_list os (sync_buffer os c p w).1 l (sync_buffer os c p w).2
  unfolding sync_list
  sync_list-ok c w p l e = rw (e, sync_list)

  sync_list-fail :
      (c : BufferCache) (w : os.W) (p : ℕ) (l : List ℕ)
      → (sync_buffer os c p w).0 ≡ false
      → sync_list os c (p ∷ l) w ≡ (err eio, (sync_buffer os c p w).1, (sync_buffer os c p w).2)
  unfolding sync_list
  sync_list-fail c w p l e = rw (e, sync_list)

  -- What `sync_list` leaves: everything kept, and the buffers clean if it succeeds.
  record Swept (c : BufferCache) (w : os.W) (l : List ℕ)
      (out : Result Errno (Unit {0}) × BufferCache × os.W) : Type 0 where
    kept : Kept c w out.1 out.2
    washed_all : out.0 ≡ ok tt → (p : ℕ) → In p l → (out.1.heads p).dirty ≡ false

  after :
      (c : BufferCache) (w : os.W) (p : ℕ) (l : List ℕ) {c1 : BufferCache} {w1 : os.W}
      {out : Result Errno (Unit {0}) × BufferCache × os.W}
      → Kept c w c1 w1
      → (c1.heads p).dirty ≡ false
      → Swept c1 w1 l out
      → Swept c w (p ∷ l) out
  after c w p l k d s = record {
    kept = Kept-trans k s.kept;
    washed_all =
        λ h q m. elim m [ inl e ↦ rw (← e) (s.kept.clean p d) | inr n ↦ s.washed_all h q n ];
  }

  sync_list-Swept :
      (c : BufferCache) (w : os.W) (l : List ℕ)
      → IsCoherent os c w
      → ((p : ℕ) → In p l → In p c.lru)
      → Swept c w l (sync_list os c l w)
  unfolding sync_list
  sync_list-Swept c w [] i sub = record { kept = Kept-refl i; washed_all = λ h p m. absurd m }
  sync_list-Swept c w (p ∷ l) i sub =
      let k = sync_buffer-Kept c w p i (sub p (inl refl)) in
      elim (Bool-cases (sync_buffer os c p w).0) [
        | inr e ↦
            rw (sync_list-fail c w p l e) (record { kept = k; washed_all = λ h. absurd (cc h) })
        | inl e ↦ rw (sync_list-ok c w p l e) (
            after c w p l k (sync_buffer-clean c w p e) (
              sync_list-Swept (sync_buffer os c p w).1 (sync_buffer os c p w).2 l k.coherent
                (λ q m. rw k.lru (sub q (inr m)))))
      ]

  clean_view :
      (c : BufferCache) (w : os.W)
      → IsCoherent os c w
      → ((p : ℕ) → In p c.lru → (c.heads p).dirty ≡ false)
      → (b : ℕ) → os.file w b ≡ view os c w b
  unfolding view
  clean_view c w i clean b = elim (Option-cases (hash_lookup c b)) [
    | inl e ↦ ground arith
    | inr (p, e) ↦
        ground
          (arith, hash_lookup-block c b p e, i.clean p (i.listed b p e) (clean p (i.listed b p e)))
  ]

  -- From a coherent cache a sync keeps the invariant, the LRU list, the block numbers, the clean
  -- buffers and the view of every block, also where it fails.
  pub buffer_cache_sync-Kept :
      (c : BufferCache) (w : os.W)
      → IsCoherent os c w
      → Kept c w (buffer_cache_sync os c w).1 (buffer_cache_sync os c w).2
  unfolding buffer_cache_sync
  buffer_cache_sync-Kept c w i = (sync_list-Swept c w c.lru i (λ p m. m)).kept

  -- Where a sync of a coherent cache succeeds, the file holds at every block what a reader sees.
  pub file-buffer_cache_sync :
      (c : BufferCache) (w : os.W)
      → IsCoherent os c w
      → (buffer_cache_sync os c w).0 ≡ ok tt
      → (b : ℕ) → os.file (buffer_cache_sync os c w).2 b ≡ view os c w b
  unfolding buffer_cache_sync
  file-buffer_cache_sync c w i h b =
      clean_view _ _ s.kept.coherent (λ p m. s.washed_all h p (rw s.kept.lru at m)) b
      ∙ s.kept.views b
    where
      s : Swept c w c.lru (sync_list os c c.lru w)
      s = sync_list-Swept c w c.lru i (λ p m. m)
