-- ===== src/InodeCache/Chain.antt =====
-- How a failed load makes a hash chain go round in a circle: the inode stays in its chain, and since
-- it is not valid it is not taken out before it is put in again.
use nano_fs.Prelude.{
  ℕ, zero, suc, ◌+◌, ◌≡◌, ◌≢◌, refl, ◌∙◌, ap, true, false, Option, some, none, List, Result, ok,
  err, Errno, arith,
}
use mathlib.Core.List.{reverse}
use nano_fs.BlockIo.{BlockIo}
use nano_fs.InodeCache.{
  InodeCache, hang, inode_hash, inode_block, walk, hash_lookup, hash_insert, fill, load_inode,
  first_unused, recycle, removes, get_miss, get_found, inode_get, inode_put,
}

module _ (io : BlockIo) where
  open io use {Dev, read}

  -- The chain of `inum` goes from `p` to `p`.
  record Circle (c : InodeCache io) (size inum p : ℕ) : Type 0 where
    table : c.hash_table (inode_hash inum size) ≡ some p
    link : c.hash_next p ≡ some p
    number : (c.inodes p).inum ≡ inum
    same : c.hash_size ≡ size

  recycle-Circle :
      (c : InodeCache io) (inum p : ℕ)
      → (c.inodes p).valid ≡ false
      → c.hash_table (inode_hash inum c.hash_size) ≡ some p
      → Circle (recycle io p inum c) c.hash_size inum p
  unfolding recycle hash_insert
  recycle-Circle c inum p v e = record {
    table = ground arith;
    link = ground arith;
    number = ground arith;
    same = ground arith;
  }

  fill-Circle :
      (c : InodeCache io) (size inum p : ℕ) (r : Result Errno (List ℕ)) (dev' : Dev)
      → Circle c size inum p
      → Circle (fill io r p inum (record c { dev = dev' })).1 size inum p
  unfolding fill inode_put
  fill-Circle c size inum p (err e) dev' k = record {
    table = k.table;
    link = k.link;
    number = ground (arith, k.number);
    same = k.same;
  }
  fill-Circle c size inum p (ok l) dev' k = record {
    table = k.table;
    link = k.link;
    number = ground (arith, k.number);
    same = k.same;
  }

  walk-Circle :
      (rounds : ℕ) (c : InodeCache io) (size inum p x : ℕ)
      → Circle c size inum p
      → x ≢ inum
      → walk io rounds c (some p) x ≡ none
  unfolding walk
  walk-Circle zero c size inum p x k ne = refl
  walk-Circle (suc rounds) c size inum p x k ne = ground (
    arith,
    k.number,
    ap (λ q. walk io rounds c q x) k.link,
    walk-Circle rounds c size inum p x k ne,
  )

  get_miss-Circle :
      (c : InodeCache io) (unused : Option ℕ) (inum p : ℕ)
      → unused ≡ some p
      → (c.inodes p).valid ≡ false
      → c.hash_table (inode_hash inum c.hash_size) ≡ some p
      → Circle (get_miss io unused inum c).1 c.hash_size inum p
  unfolding get_miss load_inode
  get_miss-Circle c none inum p e v t = cc
  get_miss-Circle c (some q) inum p e v t =
      let s : p ≡ q = cc in
      let c' = recycle io p inum c in
      let out = read (inode_block c'.sb inum) c'.dev in
      let e : removes io p c ≡ true = unfold removes in ground arith in
      rw (← s, e) (fill-Circle c' c.hash_size inum p out.0 out.1 (recycle-Circle c inum p v t))

  -- Where `inode_get` of a number that is not in the cache recycles an inode that is not valid and
  -- stands first in the chain of that number, as a load that failed leaves it, every later search of
  -- that chain for another number never ends.
  pub inode_get_circle :
      (c : InodeCache io) (inum p x : ℕ)
      → hash_lookup io c inum ≡ some none
      → first_unused io c (reverse c.lru) ≡ some p
      → (c.inodes p).valid ≡ false
      → c.hash_table (inode_hash inum c.hash_size) ≡ some p
      → x ≢ inum
      → inode_hash x c.hash_size ≡ inode_hash inum c.hash_size
      → (inode_get io x (inode_get io inum c).1).0 ≡ err hang
  inode_get_circle c inum p x miss unused v t ne same = hangs (inode_get io inum c).1 k
    where
      k : Circle (inode_get io inum c).1 c.hash_size inum p
      k =
          unfold inode_get get_found in
          rw (miss, get_found)
            (get_miss-Circle c (first_unused io c (reverse c.lru)) inum p unused v t)

      hangs : (c' : InodeCache io) → Circle c' c.hash_size inum p → (inode_get io x c').0 ≡ err hang
      hangs c' k =
          let w : hash_lookup io c' x ≡ none =
            unfold hash_lookup in
            ap (λ n. walk io (c'.max_inodes + 1) c' (c'.hash_table (inode_hash x n)) x) k.same
            ∙ ap (λ n. walk io (c'.max_inodes + 1) c' (c'.hash_table n) x) same
            ∙ ap (λ q. walk io (c'.max_inodes + 1) c' q x) k.table
            ∙ walk-Circle (c'.max_inodes + 1) c' c.hash_size inum p x k ne in
          unfold inode_get get_found in rw (w, get_found)
