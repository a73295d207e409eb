-- ===== src/Inode/Steady.antt =====
-- What a read of a file leaves as it was.
use nano_fs.Prelude.{
  ℕ, zero, suc, [], ◌++◌, ◌==◌, ◌%◌, false, ◌+◌, ◌-◌, ◌≡◌, refl, ◌∙◌, fun_ext, List, Result,
  FsError, ltb, leb, if◌then◌else◌, u64, inl, inr, Bool-cases,
}
use nano_fs.BlockIo.{BlockIo}
use nano_fs.BlockAlloc.{BlockAllocator}
use nano_fs.Inode.{
  Fs, ◌>>=◌, ◌>>◌, pure, continue, modify, read_loop, inode_read, read_piece, to_read, inode_bmap,
}
use nano_fs.Inode.Bind.{bind-cases}
use nano_fs.Inode.Kept.{Kept, Kept-trans, Looks-pure}
use nano_fs.Inode.Lookup.{inode_bmap-Kept}
use nano_fs.Types.{block_size}
use nano_fs.Inode.Bytes.{file_bytes-atime}
use nano_fs.Inode.Read.{bytes, ReadsFile, touched_inode, Looks-piece}

module _ (io : BlockIo) where
  -- All that has changed of the file system's state is the inode's access time and whether it is dirty, and the
  -- device's own state.
  pub record Steady (s s' : Fs io) : Type 0 where
    pub balloc : s'.balloc ≡ s.balloc
    pub inode : s'.inode ≡ touched_inode s.inode s'.inode.disk.atime s'.inode.dirty
    pub good : io.IsGood s'.dev
    pub same : (q : ℕ) → io.contents s'.dev q ≡ io.contents s.dev q

  pub Steady-refl : (s : Fs io) → io.IsGood s.dev → Steady s s
  Steady-refl s g = record { balloc = refl; inode = refl; good = g; same = λ q. refl }

  pub Steady-read :
      {s t : Fs io} {now offset size : ℕ} {r : Result FsError (List ℕ)}
      → Steady s t
      → {u : Fs io} → ReadsFile io t now offset size (r, u)
      → Steady s u
  Steady-read {s = s} {t = t} k {u = u} l = record {
    balloc = l.balloc ∙ k.balloc;
    inode = l.only_atime ∙ rw k.inode refl;
    good = l.good;
    same = λ q. l.same q ∙ k.same q;
  }

  pub bytes-Steady : {s t : Fs io} → Steady s t → (off n : ℕ) → bytes io t off n ≡ bytes io s off n
  bytes-Steady {s = s} {t = t} k off n =
      rw (fun_ext k.same, k.inode)
        (file_bytes-atime (io.contents s.dev) s.inode.disk t.inode.disk.atime off n)

  -- The device is good, and the allocator is `b`.
  abbrev pub Keeps : {A : Type 0} → BlockAllocator → Result FsError A × Fs io → Type 0
  Keeps b out = io.IsGood out.1.dev × (out.1.balloc ≡ b)

  Keeps-read_piece :
      (s : Fs io) (b from n : ℕ) → io.IsGood s.dev → Kept io s (read_piece io b from n s).1
  Keeps-read_piece s b from n g = (Looks-piece io s b from n g).kept

  -- The loop keeps all but the device's own state, also where an offset wraps.
  read_loop-Kept :
      (fuel off left : ℕ) (s : Fs io) → io.IsGood s.dev → Kept io s (read_loop io fuel off left s).1
  unfolding read_loop
  read_loop-Kept zero off left s g = (Looks-pure io {A = List ℕ} s [] g).kept
  read_loop-Kept (suc fuel) off left s g = elim (Bool-cases (left == 0)) [
    | inl z ↦ rw z (Looks-pure io {A = List ℕ} s [] g).kept
    | inr n ↦
        let k = inode_bmap-Kept io s off g in
        let m = to_read off left in
        rw n (
          bind-cases io (λ out. Kept io s out.1) (inode_bmap io off false) _ s
            (λ b e.
              let t = (inode_bmap io off false s).1 in
              let l = Kept-trans io k (Keeps-read_piece t b (off % block_size) m k.good) in
              bind-cases io (λ out. Kept io s out.1) (read_piece io b (off % block_size) m) _ t
                (λ p e'.
                  let u = (read_piece io b (off % block_size) m t).1 in
                  let o = Kept-trans io l (read_loop-Kept fuel (off + m) (left - m) u l.good) in
                  bind-cases io (λ out. Kept io s out.1) (read_loop io fuel (off + m) (left - m)) _
                    u (λ r e''. Kept-trans io o (Looks-pure io _ (p ++ r) o.good).kept)
                    (λ x e''. o))
                (λ x e'. l))
            (λ x e. k))
  ]

  -- A read keeps both, also where the end wraps.
  pub inode_read-Keeps :
      (s : Fs io) (b : BlockAllocator) (now offset size : ℕ)
      → io.IsGood s.dev
      → s.balloc ≡ b
      → Keeps b (inode_read io now offset size s)
  unfolding inode_read pure modify ◌>>◌ ◌>>=◌ continue
  inode_read-Keeps s b now offset size g a =
      let n =
        if ltb s.inode.disk.size (u64 (offset + size)) then s.inode.disk.size - offset else size in
      elim (Bool-cases (leb s.inode.disk.size offset)) [
        | inl past ↦ rw past (g, a)
        | inr inside ↦
            let l = read_loop-Kept n offset n s g in
            rw inside (
              bind-cases io (λ out. Keeps b out) (read_loop io n offset n) _ s
                (λ r e. (l.good, l.balloc ∙ a)) (λ x e. (l.good, l.balloc ∙ a)))
      ]
