-- ===== src/Inode/Read.antt =====
-- `inode_read` against the bytes of the file.
use nano_fs.Prelude.{
  ℕ, zero, suc, ◌+◌, ◌-◌, ◌/◌, ◌%◌, ◌^◌, ◌≤◌, ◌<◌, ◌≡◌, ◌≢◌, refl, ◌∙◌, Bool, true, false, fun_ext,
  List, [], ◌++◌, Result, ok, err, FsError, fs_enoent, ltb, leb, ◌==◌, ==_iff, if◌then◌else◌, u64,
  replicate, arith, inl, inr, Bool-cases,
}
use Prim.Native.Nat.{min}
use nano_fs.Types.{block_size}
use nano_fs.Os.{Block}
use nano_fs.BlockIo.{BlockIo}
use nano_fs.Struct.{copy}
use nano_fs.Inode.{
  Inode, Fs, M, ◌>>=◌, ◌>>◌, pure, continue, modify, load, inode_bmap, read_piece, to_read,
  read_loop, inode_read,
}
use nano_fs.Inode.Kept.{Kept, Kept-trans, Looks, Looks-pure, Looks-bind, Looks-load}
use nano_fs.Inode.Lookup.{mapped, inode_bmap-Looks}
use nano_fs.Inode.Bytes.{file_bytes, piece, file_bytes-append, file_bytes-piece}

-- The inode with another access time and mark.
abbrev pub touched_inode : Inode → ℕ → Bool → Inode
touched_inode i time dirty = record i { disk = record i.disk { atime = time }; dirty = dirty }

module _ (io : BlockIo) where
  pub Looks-piece :
      (s : Fs io) (b from n : ℕ)
      → io.IsGood s.dev
      → Looks io s (piece (io.contents s.dev) b from n) (read_piece io b from n s)
  unfolding read_piece piece
  Looks-piece s b from n g = elim (Bool-cases (b == 0)) [
    | inl z ↦ rw z (Looks-pure io s (replicate n 0) g)
    | inr nz ↦ rw nz (
        Looks-bind io (load io b) _ s (io.contents s.dev b) _ (Looks-load io s b g)
          (λ s' k. Looks-pure io s' (copy (io.contents s.dev b) from n) k.good))
  ]

  -- The bytes of the file in the state `s`.
  abbrev pub bytes : Fs io → ℕ → ℕ → List ℕ
  bytes s off n = file_bytes (io.contents s.dev) s.inode.disk off n

  bytes-Kept : {s t : Fs io} → Kept io s t → (off n : ℕ) → bytes t off n ≡ bytes s off n
  bytes-Kept k off n = rw (fun_ext k.same, k.inode)

  -- One round reads its piece, and the rest is as the loop reads it.
  Looks-round :
      (s : Fs io) (off left n : ℕ) (rest : M io (List ℕ))
      → io.IsGood s.dev
      → n ≤ left
      → off % block_size + n ≤ block_size
      → off < 2 ^ 44
      → ((t : Fs io) → Kept io s t → Looks io t (bytes t (off + n) (left - n)) (rest t))
      → Looks io s (bytes s off left) (
          ◌>>=◌ io
            (inode_bmap io off false)
            (λ b.
              ◌>>=◌ io
                (read_piece io b (off % block_size) n)
                (λ p. ◌>>=◌ io rest (λ r. pure io (p ++ r))))
            s)
  Looks-round s off left n rest g le fit small next =
      Looks-bind io (inode_bmap io off false) _ s b _ (inode_bmap-Looks io s off g small) (λ t k.
        Looks-bind io (read_piece io b (off % block_size) n) _ t (bytes s off n) _
          (rw (here t k) (Looks-piece t b (off % block_size) n k.good))
          (λ u l.
            Looks-bind io rest _ u (bytes s (off + n) (left - n)) _
              (rw (← bytes-Kept (Kept-trans io k l) (off + n) (left - n))
                (next u (Kept-trans io k l)))
              (λ v m. rw (← whole) (Looks-pure io v _ m.good))))
    where
      f : ℕ → Block
      f = io.contents s.dev

      b : ℕ
      b = mapped f s.inode.disk (off / block_size)

      here :
          (t : Fs io)
          → Kept io s t
          → bytes s off n ≡ piece (io.contents t.dev) b (off % block_size) n
      here t k =
          file_bytes-piece f s.inode.disk (off / block_size) off (off % block_size) n (omega arith)
            fit
          ∙ rw (fun_ext k.same)

      whole : bytes s off n ++ bytes s (off + n) (left - n) ≡ bytes s off left
      whole = file_bytes-append f s.inode.disk n off (left - n) (off + n) left refl (omega arith)

  pub to_read_bounds :
      (off left : ℕ)
      → left ≢ 0
      → (0 < to_read off left)
        × (to_read off left ≤ left)
        × (off % block_size + to_read off left ≤ block_size)
  unfolding to_read
  to_read_bounds off left ne = (ground arith, ground arith, ground arith)

  Looks-nothing :
      (fuel off : ℕ) (s : Fs io)
      → io.IsGood s.dev
      → Looks io s (bytes s off 0) (read_loop io fuel off 0 s)
  unfolding read_loop file_bytes
  Looks-nothing zero off s g = Looks-pure io s [] g
  Looks-nothing (suc fuel) off s g = Looks-pure io s [] g

  -- With a round of fuel for each byte that is left, up to 2^44, the loop reads all of them.
  pub Looks-read_loop :
      (fuel off left : ℕ) (s : Fs io)
      → left ≤ fuel
      → off + left ≤ 2 ^ 44
      → io.IsGood s.dev
      → Looks io s (bytes s off left) (read_loop io fuel off left s)
  unfolding read_loop
  Looks-read_loop zero off left s le small g =
      let z : left ≡ 0 = omega arith in rw z (Looks-nothing zero off s g)
  Looks-read_loop (suc fuel) off left s le small g = elim (Bool-cases (left == 0)) [
    | inl z ↦ rw ((==_iff left 0).0 z) (Looks-nothing (suc fuel) off s g)
    | inr n ↦
        let h = to_read_bounds off left (λ e. cc) in
        rw n (
          Looks-round s off left (to_read off left) (read_loop io fuel _ _) g h.1 h.2 (omega arith)
            (λ t k.
              Looks-read_loop fuel (off + to_read off left) (left - to_read off left) t
                (omega arith) (omega arith) k.good))
  ]

  -- What `inode_read` leaves and returns: the bytes of the file from `offset` on, as many as were
  -- asked for and the file has; and what it changes of the inode.
  pub record ReadsFile (s : Fs io) (now offset size : ℕ) (out : Result FsError (List ℕ) × Fs io)
      : Type 0 where
    pub result :
        (l : List ℕ) → out.0 ≡ ok l → l ≡ bytes s offset (min size (s.inode.disk.size - offset))
    pub no_enoent : out.0 ≢ err fs_enoent
    pub balloc : out.1.balloc ≡ s.balloc
    pub accessed :
        (l : List ℕ)
        → out.0 ≡ ok l
        → offset < s.inode.disk.size
        → out.1.inode ≡ touched_inode s.inode now true
    pub past : s.inode.disk.size ≤ offset → out.1.inode ≡ s.inode
    pub failed : (e : FsError) → out.0 ≡ err e → out.1.inode ≡ s.inode
    pub only_atime : out.1.inode ≡ touched_inode s.inode out.1.inode.disk.atime out.1.inode.dirty
    pub good : io.IsGood out.1.dev
    pub same : (q : ℕ) → io.contents out.1.dev q ≡ io.contents s.dev q

  touched :
      (s : Fs io) (now offset size n : ℕ) (r : Result FsError (List ℕ)) (s' : Fs io)
      → n ≡ min size (s.inode.disk.size - offset)
      → offset < s.inode.disk.size
      → Kept io s s'
      → ((l : List ℕ) → r ≡ ok l → l ≡ bytes s offset n)
      → r ≢ err fs_enoent
      → ReadsFile s now offset size
          (continue io r (λ l. ◌>>◌ io (modify io (λ d. record d { atime = now })) (pure io l)) s')
  unfolding continue ◌>>◌ ◌>>=◌ pure modify
  touched s now offset size n (ok l) s' e lt k got ne = record {
    result = λ l' h. rw (← e, ← got l refl) (cc);
    no_enoent = λ h. cc;
    balloc = k.balloc;
    accessed = λ l' h lt. rw k.inode refl;
    past = λ le. absurd (omega arith);
    failed = λ e h. cc;
    only_atime = rw k.inode refl;
    good = k.good;
    same = k.same;
  }
  touched s now offset size n (err x) s' e lt k got ne = record {
    result = λ l' h. cc;
    no_enoent = λ h. ne (cc);
    balloc = k.balloc;
    accessed = λ l' h lt. cc;
    past = λ le. k.inode;
    failed = λ e h. k.inode;
    only_atime = rw k.inode refl;
    good = k.good;
    same = k.same;
  }

  -- From a good state, when offset + size fits in 64 bits and what the file has of it ends by 2^44: a read that
  -- succeeds returns the bytes of the file from offset on, as many as were asked for and the file has, with zeros for
  -- holes. Where it begins before the end of the file and succeeds, it sets the access time of the inode and marks it
  -- dirty; the inode is else as it was, and wholly where the read fails (never with ENOENT) or begins at the end or
  -- behind it. No block of the device and nothing of the allocator changes.
  pub inode_read-ReadsFile :
      (s : Fs io) (now offset size : ℕ)
      → io.IsGood s.dev
      → offset + size < 2 ^ 64
      → min (offset + size) s.inode.disk.size ≤ 2 ^ 44
      → ReadsFile s now offset size (inode_read io now offset size s)
  unfolding inode_read
  inode_read-ReadsFile s now offset size g fit small =
      let n =
        if ltb s.inode.disk.size (u64 (offset + size)) then s.inode.disk.size - offset else size in
      elim (Bool-cases (leb s.inode.disk.size offset)) [
        | inl past ↦
            let z : min size (s.inode.disk.size - offset) ≡ 0 = ground arith in
            rw past (record {
              result = λ l' h. rw z (unfold file_bytes pure in cc);
              no_enoent = λ h. unfold pure in cc;
              balloc = unfold pure in refl;
              accessed = λ l' h lt. absurd (ground arith);
              past = λ le. unfold pure in refl;
              failed = λ e h. unfold pure in refl;
              only_atime = unfold pure in refl;
              good = unfold pure in g;
              same = λ q. unfold pure in refl;
            })
        | inr inside ↦
            let l = Looks-read_loop n offset n s (omega arith) (ground arith) g in
            rw inside (
              unfold ◌>>=◌ in
              touched s now offset size n (read_loop io n offset n s).0
                (read_loop io n offset n s).1 (ground arith) (ground arith) l.kept l.result
                l.no_enoent)
      ]
