-- ===== src/Superblock/Reload.antt =====
-- `superblock_write` and `superblock_read`.
use nano_fs.Prelude.{
  ℕ, ◌≡◌, ◌≢◌, refl, sym, ◌∙◌, List, ◌++◌, Result, ok, err, Errno, eio, replicate,
}
use nano_fs.Types.{Superblock}
use nano_fs.Types.Bytes.{
  superblock_of, superblock_bytes, IsSuperblock, superblock_of-superblock_bytes,
}
use nano_fs.BlockIo.{BlockIo}
use nano_fs.Superblock.{superblock_read, synced, superblock_write}

module _ (io : BlockIo) where
  open io use {Dev, read, write, sync, IsGood, contents}

  -- What a write of `content` to block 0, and a sync, leave.
  pub record Stores (dev : Dev) (content : List ℕ) (out : Result Errno (Unit {0}) × Dev)
      : Type 0 where
    pub good : IsGood out.1
    pub others : (q : ℕ) → q ≢ 0 → contents out.1 q ≡ contents dev q
    pub stored : out.0 ≡ ok tt → contents out.1 0 ≡ content

  synced-Stores :
      (dev dev' : Dev) (content : List ℕ) (r : Result Errno (Unit {0}))
      → IsGood dev'
      → ((q : ℕ) → q ≢ 0 → contents dev' q ≡ contents dev q)
      → (r ≡ ok tt → contents dev' 0 ≡ content)
      → Stores dev content (synced io r dev')
  unfolding synced
  synced-Stores dev dev' content (err e) g o w = record { good = g; others = o; stored = λ h. cc }
  synced-Stores dev dev' content (ok u) g o w = record {
    good = io.sync_good dev' g;
    others = λ q ne. io.sync_contents q dev' g ∙ o q ne;
    stored = λ h. io.sync_contents 0 dev' g ∙ w refl;
  }

  pub superblock_write-Stores :
      (sb : Superblock) (dev : Dev)
      → IsGood dev
      → Stores dev (superblock_bytes sb ++ replicate 8 0) (superblock_write io sb dev)
  unfolding superblock_write
  superblock_write-Stores sb dev g =
      let content = superblock_bytes sb ++ replicate 8 0 in
      synced-Stores dev (write 0 content dev).1 content (write 0 content dev).0
        (io.write_good 0 content dev g) (λ q ne. io.write_contents 0 q content dev g ne)
        (λ h. io.write_data 0 content dev g h)

  read_result :
      (r : Result Errno (List ℕ)) (content : List ℕ) (sb : Superblock)
      → ((l : List ℕ) → r ≡ ok l → l ≡ content)
      → ◌≡◌ {A = Result Errno Superblock}
          (elim r [ ok l ↦ ok (superblock_of l) | err e ↦ err eio ])
          (ok sb)
      → superblock_of content ≡ sb
  read_result (ok l) content sb got h = cc (got l refl)
  read_result (err e) content sb got h = cc

  -- On a good device, if a write of a superblock whose fields fit and a read after it both succeed,
  -- the superblock that is read is the one that was written; and the write changes no block but 0.
  pub superblock_read-superblock_write :
      (sb got : Superblock) (dev : Dev)
      → IsGood dev
      → IsSuperblock sb
      → (superblock_write io sb dev).0 ≡ ok tt
      → (superblock_read io (superblock_write io sb dev).1).0 ≡ ok got
      → (got ≡ sb) × ((q : ℕ) → q ≢ 0 → contents (superblock_write io sb dev).1 q ≡ contents dev q)
  unfolding superblock_read
  superblock_read-superblock_write sb got dev g i written loaded =
      let s = superblock_write-Stores sb dev g in
      let dev' = (superblock_write io sb dev).1 in
      let e =
        read_result (read 0 dev').0 (superblock_bytes sb ++ replicate 8 0) got
          (λ l h. io.read_data 0 dev' l s.good h ∙ s.stored written) loaded in
      (sym e ∙ superblock_of-superblock_bytes sb (replicate 8 0) i, s.others)

  pub superblock_read-IsGood : (dev : Dev) → IsGood dev → IsGood (superblock_read io dev).1
  unfolding superblock_read
  superblock_read-IsGood dev g = io.read_good 0 dev g

  -- What is read is what block 0 holds.
  pub superblock_read-contents :
      (dev : Dev)
      → IsGood dev
      → (sb : Superblock) → (superblock_read io dev).0 ≡ ok sb
      → sb ≡ superblock_of (contents dev 0)
  unfolding superblock_read
  superblock_read-contents dev g sb e =
      sym (read_result (read 0 dev).0 (contents dev 0) sb (λ l h. io.read_data 0 dev l g h) e)

  -- Where writes and syncs succeed, so does `superblock_write`.
  pub superblock_write-succeeds :
      (sb : Superblock) (dev : Dev)
      → ((d : List ℕ) (dev : Dev) → (write 0 d dev).0 ≡ ok tt)
      → ((dev : Dev) → (sync dev).0 ≡ ok tt)
      → (superblock_write io sb dev).0 ≡ ok tt
  unfolding superblock_write synced
  superblock_write-succeeds sb dev writes syncs =
      let content = superblock_bytes sb ++ replicate 8 0 in
      rw (writes content dev, syncs (write 0 content dev).1) refl
