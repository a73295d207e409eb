-- ===== src/BufferCache/Fill.antt =====
-- The operations that give a block new data: in its buffer, or in a new one.
use nano_fs.Prelude.{
  ℕ, ◌+◌, ◌<◌, ◌≡◌, Bool, true, false, none, some, ◌∷◌, arith, ◌==◌, sym, ◌∙◌, if◌then◌else◌,
  update, inl, inr, Option-cases,
}
use native.Mathlib.Decide.{ℕ_discrete}
use nano_fs.Os.{Os, Block}
use nano_fs.BufferCache.{BufferCache, BufferHead, hash_lookup, hash_block, find_block, at}
use nano_fs.BufferCache.Inv.{In, find_block-congr, hash_lookup-block, IsCoherent, view}

-- The buffer `p` holds `d`, and is dirty.
abbrev pub filled : BufferCache → ℕ → Block → BufferCache
filled c p d = at c p (λ bh. record bh { content = d; dirty = true })

pub hash_lookup-filled :
    (c : BufferCache) (p b : ℕ) (d : Block) → hash_lookup (filled c p d) b ≡ hash_lookup c b
unfolding hash_lookup
hash_lookup-filled c p b d = find_block-congr c.heads _ _ b (λ q m. ground arith)

module _ (os : Os) (c : BufferCache) (w : os.W) (i : IsCoherent os c w) (b p : ℕ) (d : Block)
    (h : hash_lookup c b ≡ some p) where
  pub view-filled : (q : ℕ) → view os (filled c p d) w q ≡ update (view os c w) b d q
  unfolding view
  view-filled q = elim (Option-cases (hash_lookup c q)) [
    | inl e ↦ ground (arith, hash_lookup-filled c p q d)
    | inr (r, e) ↦
        ground
          (arith, hash_lookup-filled c p q d, hash_lookup-block c q r e, hash_lookup-block c b p h)
  ]

  pub filled-IsCoherent : IsCoherent os (filled c p d) w
  filled-IsCoherent = record {
    listed = λ q r e. i.listed q r (sym (hash_lookup-filled c p q d) ∙ e);
    found = λ r m. hash_lookup-filled c p _ d ∙ ground (arith, i.found r m);
    valid = λ r m. ground (arith, i.valid r m);
    clean = λ r m e. ground (arith, i.clean r m);
    fresh = i.fresh;
    chains = i.chains;
  }

-- A new buffer for block `b`.
abbrev pub new_head : ℕ → Block → Bool → BufferHead
new_head b d t = record { block_num = b; content = d; dirty = t; valid = true; ref_count = 1 }

abbrev pub added : BufferCache → ℕ → Block → Bool → BufferCache
added c b d t = record c {
  heads = update c.heads c.next (new_head b d t);
  next = c.next + 1;
  hash_table =
      update c.hash_table (hash_block b c.hash_size)
        (c.next ∷ c.hash_table (hash_block b c.hash_size));
  lru = c.next ∷ c.lru;
}

module _ (os : Os) (c : BufferCache) (w : os.W) (i : IsCoherent os c w) (b : ℕ) (d : Block)
    (t : Bool) where
  old_chain :
      (h q : ℕ)
      → find_block (added c b d t).heads (c.hash_table h) q ≡ find_block c.heads (c.hash_table h) q
  old_chain h q =
      find_block-congr c.heads _ (c.hash_table h) q (λ p m. ground (arith, i.chains h p m))

  hash_lookup-added :
      (q : ℕ) → hash_lookup (added c b d t) q ≡ (if b == q then some c.next else hash_lookup c q)
  unfolding hash_lookup find_block
  hash_lookup-added q =
      ground (arith, old_chain (hash_block q c.hash_size) q, old_chain (hash_block b c.hash_size) q)

  pub view-added : (q : ℕ) → view os (added c b d t) w q ≡ update (view os c w) b d q
  unfolding view
  view-added q = elim (Option-cases (hash_lookup c q)) [
    | inl e ↦ ground (arith, hash_lookup-added q)
    | inr (r, e) ↦ ground (arith, hash_lookup-added q, i.fresh r (i.listed q r e))
  ]

  module _ (none_yet : hash_lookup c b ≡ none) (on_file : t ≡ false → os.file w b ≡ d) where
    added_found :
        (r : ℕ)
        → In r (c.next ∷ c.lru)
        → hash_lookup (added c b d t) ((added c b d t).heads r).block_num ≡ some r
    added_found r (inl e) = rw (← e) (ground (arith, hash_lookup-added b))
    added_found r (inr m) =
        ground (arith, i.fresh r m, i.found r m, hash_lookup-added (c.heads r).block_num)

    added_valid : (r : ℕ) → In r (c.next ∷ c.lru) → ((added c b d t).heads r).valid ≡ true
    added_valid r (inl e) = ground arith
    added_valid r (inr m) = ground (arith, i.fresh r m, i.valid r m)

    added_clean :
        (r : ℕ)
        → In r (c.next ∷ c.lru)
        → ((added c b d t).heads r).dirty ≡ false
        → os.file w ((added c b d t).heads r).block_num ≡ ((added c b d t).heads r).content
    added_clean r (inl e) q = ground (arith, on_file)
    added_clean r (inr m) q = ground (arith, i.fresh r m, i.clean r m)

    added_chain : (h r : ℕ) → In r ((added c b d t).hash_table h) → r < c.next + 1
    added_chain h r m = elim (ℕ_discrete (hash_block b c.hash_size) h) [
      | yes e ↦ ground (arith, i.chains h r)
      | no e ↦ ground (arith, i.chains h r)
    ]

    pub added-IsCoherent : IsCoherent os (added c b d t) w
    added-IsCoherent = record {
      listed = λ q r e. ground (arith, hash_lookup-added q, i.listed q r);
      found = added_found;
      valid = added_valid;
      clean = added_clean;
      fresh = λ r m. ground (arith, i.fresh r);
      chains = added_chain;
    }
