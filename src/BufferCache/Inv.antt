-- ===== src/BufferCache/Inv.antt =====
-- The invariant of the cache beside the file, and what the operations on buffers keep.
use nano_fs.Prelude.{
  ℕ, ◌<◌, ◌≡◌, refl, true, false, none, some, List, [], ◌∷◌, arith, sym, ◌∙◌, ◌⊎◌, inl, inr,
  Option-cases, update,
}
use nano_fs.Os.{Os, Block}
use nano_fs.BufferCache.{
  BufferCache, BufferHead, buffer_cache_init, hash_lookup, hash_block, find_block,
}

abbrev pub In : ℕ → List ℕ → Type 0
In p [] = ⊥
In p (q ∷ l) = (q ≡ p) ⊎ In p l

module _ (os : Os) where
  -- Every buffer that the table finds is in the LRU list, and every buffer of the list is found by
  -- its block, holds valid data, and is on the file if it is clean.
  pub record IsCoherent (c : BufferCache) (w : os.W) : Type 0 where
    pub listed : (b p : ℕ) → hash_lookup c b ≡ some p → In p c.lru
    pub found : (p : ℕ) → In p c.lru → hash_lookup c (c.heads p).block_num ≡ some p
    pub valid : (p : ℕ) → In p c.lru → (c.heads p).valid ≡ true
    pub clean :
        (p : ℕ)
        → In p c.lru
        → (c.heads p).dirty ≡ false
        → os.file w (c.heads p).block_num ≡ (c.heads p).content
    pub fresh : (p : ℕ) → In p c.lru → p < c.next
    pub chains : (h p : ℕ) → In p (c.hash_table h) → p < c.next

  -- What a reader of block `b` is to see.
  unfoldable pub view : BufferCache → os.W → ℕ → Block
  view c w b = elim (hash_lookup c b) [ some p ↦ (c.heads p).content | none ↦ os.file w b ]

-- Two caches that differ in reference counts, counters, and the order of the LRU list alone.
pub record Same (c c' : BufferCache) : Type 0 where
  pub table : (h : ℕ) → c'.hash_table h ≡ c.hash_table h
  pub size : c'.hash_size ≡ c.hash_size
  pub next : c'.next ≡ c.next
  pub members : (p : ℕ) → In p c'.lru → In p c.lru
  pub members' : (p : ℕ) → In p c.lru → In p c'.lru
  pub block : (p : ℕ) → (c'.heads p).block_num ≡ (c.heads p).block_num
  pub content : (p : ℕ) → (c'.heads p).content ≡ (c.heads p).content
  pub dirty : (p : ℕ) → (c'.heads p).dirty ≡ (c.heads p).dirty
  pub valid : (p : ℕ) → (c'.heads p).valid ≡ (c.heads p).valid

pub find_block-congr :
    (heads heads' : ℕ → BufferHead) (chain : List ℕ) (b : ℕ)
    → ((p : ℕ) → In p chain → (heads' p).block_num ≡ (heads p).block_num)
    → find_block heads' chain b ≡ find_block heads chain b
unfolding find_block
find_block-congr heads heads' [] b h = refl
find_block-congr heads heads' (p ∷ chain) b h =
    rw (h p (inl refl), find_block-congr heads heads' chain b (λ q m. h q (inr m)))

-- What a chain finds has the block's number.
pub find_block-block :
    (heads : ℕ → BufferHead) (chain : List ℕ) (b p : ℕ)
    → find_block heads chain b ≡ some p
    → (heads p).block_num ≡ b
unfolding find_block
find_block-block heads [] b p h = cc
find_block-block heads (q ∷ chain) b p h = ground (arith, find_block-block heads chain b p)

pub hash_lookup-block :
    (c : BufferCache) (b p : ℕ) → hash_lookup c b ≡ some p → (c.heads p).block_num ≡ b
unfolding hash_lookup
hash_lookup-block c b p h = find_block-block c.heads _ b p h

-- A new head with the same block number changes no lookup.
pub hash_lookup-at :
    (c : BufferCache) (p : ℕ) (bh : BufferHead) (b : ℕ)
    → bh.block_num ≡ (c.heads p).block_num
    → hash_lookup (record c { heads = update c.heads p bh }) b ≡ hash_lookup c b
unfolding hash_lookup
hash_lookup-at c p bh b e = find_block-congr c.heads _ _ b (λ q m. ground arith)

pub Same-trans : {c c' c'' : BufferCache} → Same c c' → Same c' c'' → Same c c''
Same-trans s t = record {
  table = λ h. t.table h ∙ s.table h;
  size = t.size ∙ s.size;
  next = t.next ∙ s.next;
  members = λ p m. s.members p (t.members p m);
  members' = λ p m. t.members' p (s.members' p m);
  block = λ p. t.block p ∙ s.block p;
  content = λ p. t.content p ∙ s.content p;
  dirty = λ p. t.dirty p ∙ s.dirty p;
  valid = λ p. t.valid p ∙ s.valid p;
}

pub Same-lookup : {c c' : BufferCache} → Same c c' → (b : ℕ) → hash_lookup c' b ≡ hash_lookup c b
unfolding hash_lookup
Same-lookup {c} {c'} s b =
    rw (s.size, s.table (hash_block b c.hash_size))
      (find_block-congr c.heads c'.heads (c.hash_table (hash_block b c.hash_size)) b
        (λ p m. s.block p))

module _ (os : Os) where
  pub Same-view :
      {c c' : BufferCache} (w : os.W) → Same c c' → (b : ℕ) → view os c' w b ≡ view os c w b
  unfolding view
  Same-view {c} {c'} w s b = elim (Option-cases (hash_lookup c b)) [
    | inl e ↦ ground (arith, Same-lookup s b)
    | inr (p, e) ↦ ground (arith, Same-lookup s b, s.content p)
  ]

  pub Same-IsCoherent :
      {c c' : BufferCache} {w : os.W} → Same c c' → IsCoherent os c w → IsCoherent os c' w
  Same-IsCoherent {c} {c'} {w} s i = record {
    listed = λ b p h. s.members' p (i.listed b p (sym (Same-lookup s b) ∙ h));
    found =
        λ p m. Same-lookup s (c'.heads p).block_num ∙ rw (s.block p) (i.found p (s.members p m));
    valid = λ p m. s.valid p ∙ i.valid p (s.members p m);
    clean = λ p m d. rw (s.block p, s.content p) (i.clean p (s.members p m) (sym (s.dirty p) ∙ d));
    fresh = λ p m. rw s.next (i.fresh p (s.members p m));
    chains = λ h p m. rw s.next (i.chains h p (rw (s.table h) at m));
  }

hash_lookup-init : (n b : ℕ) → hash_lookup (buffer_cache_init n) b ≡ none
unfolding hash_lookup find_block buffer_cache_init
hash_lookup-init n b = refl

module _ (os : Os) (n : ℕ) (w : os.W) where
  -- A new cache holds nothing.
  pub init-IsCoherent : IsCoherent os (buffer_cache_init n) w
  init-IsCoherent = record {
    listed = λ b p e. cc (hash_lookup-init n b);
    found = λ p m. absurd (unfold buffer_cache_init in m);
    valid = λ p m. absurd (unfold buffer_cache_init in m);
    clean = λ p m d. absurd (unfold buffer_cache_init in m);
    fresh = λ p m. absurd (unfold buffer_cache_init in m);
    chains = λ h p m. absurd (unfold buffer_cache_init in m);
  }

  pub view-init : (b : ℕ) → view os (buffer_cache_init n) w b ≡ os.file w b
  unfolding view
  view-init b = rw (hash_lookup-init n b, view)
