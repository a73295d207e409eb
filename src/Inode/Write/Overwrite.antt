-- ===== src/Inode/Write/Overwrite.antt =====
-- `inode_write` without a transaction, where all blocks that it writes to are there.
use nano_fs.Prelude.{
  ℕ, zero, suc, ◌+◌, ◌*◌, ◌/◌, ◌%◌, ◌^◌, ◌≤◌, ◌<◌, ◌≡◌, ◌≢◌, refl, sym, ◌∙◌, true, false, ◌&&◌,
  none, List, [], ◌∷◌, Result, ok, err, FsError, Errno, length, length-take, length-drop, take,
  drop, ◌==◌, inl, inr, Bool-cases, arith,
}
use nano_fs.Types.{block_size}
use nano_fs.Os.{Block}
use nano_fs.BlockIo.{BlockIo}
use nano_fs.Struct.{splice}
use nano_fs.Inode.{Fs, M, ◌>>=◌, ◌>>◌, pure, or_eio, load, store, inode_bmap, to_read}
use nano_fs.Inode.Bind.{bind-cases}
use nano_fs.Inode.Kept.{Kept, Kept-trans, Looks, Looks-load}
use nano_fs.Inode.Lookup.{mapped}
use nano_fs.Inode.Read.{to_read_bounds}
use nano_fs.Inode.Present.{inode_bmap-Present}
use nano_fs.Inode.Map.{WellMapped, Patches, mapped-write, WellMapped-write, byte_at-write}
use nano_fs.Inode.Write.Patch.{
  Patches-splice, Patches-whole, Overwrites, Overwrites-nothing, Overwrites-append,
}
use nano_fs.Inode.Write.{put, old_content, write_piece, write_loop}

module _ (io : BlockIo) where
  -- How a write of `src` at `off` ends.
  pub record Writes {A : Type 0} (s : Fs io) (off : ℕ) (src : List ℕ)
      (out : Result FsError A × Fs io) : Type 0 where
    pub inode : out.1.inode ≡ s.inode
    pub balloc : out.1.balloc ≡ s.balloc
    pub good : io.IsGood out.1.dev
    pub result :
        (a : A)
        → out.0 ≡ ok a
        → Overwrites (io.contents s.dev) s.inode.disk off src (io.contents out.1.dev)

  or_eio-ok : {A : Type 0} (r : Result Errno A) (a : A) → or_eio io r ≡ ok a → r ≡ ok a
  unfolding or_eio
  or_eio-ok (ok b) a h = cc
  or_eio-ok (err e) a h = cc

  module _ (s : Fs io) (w : WellMapped (io.contents s.dev) s.inode.disk) (i from : ℕ)
      (piece : List ℕ) (nz : mapped (io.contents s.dev) s.inode.disk i ≢ 0)
      (fits : from + length piece ≤ block_size) where
    abbrev b : ℕ
    b = mapped (io.contents s.dev) s.inode.disk i

    Writes-store :
        (t : Fs io) (content : Block)
        → Kept io s t
        → Patches (io.contents s.dev b) from piece content
        → Writes s (i * block_size + from) piece (store io b content t)
    unfolding store
    Writes-store t content k p = record {
      inode = k.inode;
      balloc = k.balloc;
      good = io.write_good b content t.dev k.good;
      result = λ u h.
          let f = io.contents s.dev in
          let g = io.contents (io.write b content t.dev).1 in
          let same : (q : ℕ) → q ≢ b → g q ≡ f q =
            λ q ne. io.write_contents b q content t.dev k.good ne ∙ k.same q in
          let there : g b ≡ content = io.write_data b content t.dev k.good (or_eio-ok _ tt h) in
          let p' : Patches (f b) from piece (g b) = rw there p in
          record {
            bytes = byte_at-write f g s.inode.disk b same w i refl nz from piece fits p';
            mapping = mapped-write f g s.inode.disk b same w i refl nz from piece fits p';
            still = WellMapped-write f g s.inode.disk b same w i refl nz from piece fits p';
            others = λ q free. same q (λ e. free i (sym e));
          };
    }

    Writes-failed :
        {A : Type 0} (t : Fs io) (e : FsError)
        → Kept io s t
        → Writes {A = A} s (i * block_size + from) piece (err e, t)
    Writes-failed t e k = record {
      inode = k.inode;
      balloc = k.balloc;
      good = k.good;
      result = λ a h. cc;
    }

    Writes-write_piece :
        (t : Fs io)
        → Kept io s t
        → Writes s (i * block_size + from) piece (write_piece io none b from piece t)
    unfolding write_piece old_content put pure
    Writes-write_piece t k = elim (Bool-cases (from == 0 && length piece == block_size)) [
      | inl all ↦
          let z : from ≡ 0 = ground arith in
          let n : length piece ≡ block_size = ground arith in
          rw all (
            bind-cases io (λ out. Writes s (i * block_size + from) piece out) (pure io []) _ t
              (λ old e.
                let o : old ≡ [] = cc in
                rw o (
                  Writes-store t (splice [] from piece) k
                    (rw z (Patches-whole (io.contents s.dev b) piece n))))
              (λ e h. Writes-failed t e k))
      | inr part ↦ rw part (
          let l = Looks-load io t b k.good in
          bind-cases io (λ out. Writes s (i * block_size + from) piece out) (load io b) _ t
            (λ old e.
              let k' : Kept io s (load io b t).1 = Kept-trans io k l.kept in
              let o : old ≡ io.contents s.dev b = l.result old e ∙ k.same b in
              rw o (
                Writes-store (load io b t).1 (splice (io.contents s.dev b) from piece) k'
                  (Patches-splice (io.contents s.dev b) from piece (w.whole i nz) fits)))
            (λ e h. Writes-failed (load io b t).1 e (Kept-trans io k l.kept)))
    ]

  -- What the write of `src` at `off` needs: a block for each byte.
  pub record Ready (s : Fs io) (off : ℕ) (src : List ℕ) : Type 0 where
    pub mapping : WellMapped (io.contents s.dev) s.inode.disk
    pub present :
        (x : ℕ)
        → off ≤ x
        → x < off + length src
        → mapped (io.contents s.dev) s.inode.disk (x / block_size) ≢ 0
    pub good : io.IsGood s.dev

  -- After a first part was written, with the rest.
  Writes-then :
      (s t : Fs io) (off n : ℕ) (src : List ℕ) (out : Result FsError (Unit {0}) × Fs io)
      → n ≤ length src
      → t.inode ≡ s.inode
      → t.balloc ≡ s.balloc
      → Overwrites (io.contents s.dev) s.inode.disk off (take n src) (io.contents t.dev)
      → Writes t (off + n) (drop n src) out
      → Writes s off src out
  Writes-then s t off n src out le i a o w = record {
    inode = w.inode ∙ i;
    balloc = w.balloc ∙ a;
    good = w.good;
    result = λ u h.
        Overwrites-append (io.contents s.dev) (io.contents t.dev) (io.contents out.1.dev)
          s.inode.disk off n src le o (rw (← i) (w.result u h));
  }

  Ready-rest :
      (s t : Fs io) (off n : ℕ) (src : List ℕ)
      → n ≤ length src
      → t.inode ≡ s.inode
      → io.IsGood t.dev
      → Ready s off src
      → Overwrites (io.contents s.dev) s.inode.disk off (take n src) (io.contents t.dev)
      → Ready t (off + n) (drop n src)
  Ready-rest s t off n src le i g r o = record {
    mapping = rw i o.still;
    present = λ x ge lt.
        rw (i, o.mapping (x / block_size))
          (r.present x (omega arith) (omega (arith, length-drop n src)));
    good = g;
  }

  Writes-err :
      {A : Type 0} (s t : Fs io) (off : ℕ) (src : List ℕ) (e : FsError)
      → t.inode ≡ s.inode
      → t.balloc ≡ s.balloc
      → io.IsGood t.dev
      → Writes {A = A} s off src (err e, t)
  Writes-err s t off src e i a g = record { inode = i; balloc = a; good = g; result = λ u h. cc }

  -- A round, with the rest of the loop.
  Writes-round :
      (s : Fs io) (off n : ℕ) (src : List ℕ) (rest : M io (Unit {0}))
      → 0 < n
      → n ≤ length src
      → off % block_size + n ≤ block_size
      → off + length src ≤ 2 ^ 44
      → Ready s off src
      → ((t : Fs io) → Ready t (off + n) (drop n src) → Writes t (off + n) (drop n src) (rest t))
      → Writes s off src (
          ◌>>=◌ io
            (inode_bmap io off true)
            (λ b. ◌>>◌ io (write_piece io none b (off % block_size) (take n src)) rest)
            s)
  unfolding ◌>>◌
  Writes-round s off n src rest pos le fits small r next =
      bind-cases io (λ out. Writes s off src out) (inode_bmap io off true) _ s
        (λ b e.
          let same : b ≡ mapped (io.contents s.dev) s.inode.disk (off / block_size) =
            l.result b e in
          rw same (
            bind-cases io (λ out. Writes s off src out)
              (write_piece io none (mapped (io.contents s.dev) s.inode.disk (off / block_size))
                (off % block_size) (take n src))
              _ (inode_bmap io off true s).1
              (λ u e'.
                let t =
                  (write_piece io none (mapped (io.contents s.dev) s.inode.disk (off / block_size))
                    (off % block_size) (take n src) (inode_bmap io off true s).1).1 in
                let o = rw start at (p.result u e') in
                Writes-then s t off n src (rest t) le p.inode p.balloc o
                  (next t (Ready-rest s t off n src le p.inode p.good r o)))
              (λ x e'. Writes-err s _ off src x p.inode p.balloc p.good)))
        (λ x e. Writes-err s _ off src x l.kept.inode l.kept.balloc l.kept.good)
    where
      nz : mapped (io.contents s.dev) s.inode.disk (off / block_size) ≢ 0
      nz = r.present off (omega arith) (omega arith)

      l :
          Looks io s
            (mapped (io.contents s.dev) s.inode.disk (off / block_size))
            (inode_bmap io off true s)
      l = inode_bmap-Present io s off r.good (omega arith) nz

      start : off / block_size * block_size + off % block_size ≡ off
      start = omega arith

      p : Writes s (off / block_size * block_size + off % block_size) (take n src) (
          write_piece io none
            (mapped (io.contents s.dev) s.inode.disk (off / block_size))
            (off % block_size)
            (take n src)
            (inode_bmap io off true s).1)
      p =
          Writes-write_piece s r.mapping (off / block_size) (off % block_size) (take n src) nz
            (omega (arith, length-take n src)) (inode_bmap io off true s).1 l.kept

  Writes-nothing :
      (fuel off : ℕ) (s : Fs io)
      → Ready s off []
      → Writes s off [] (write_loop io none fuel off [] s)
  unfolding write_loop pure
  Writes-nothing zero off s r = record {
    inode = refl;
    balloc = refl;
    good = r.good;
    result = λ u h. Overwrites-nothing (io.contents s.dev) s.inode.disk off r.mapping;
  }
  Writes-nothing (suc fuel) off s r = record {
    inode = refl;
    balloc = refl;
    good = r.good;
    result = λ u h. Overwrites-nothing (io.contents s.dev) s.inode.disk off r.mapping;
  }

  -- With a round of fuel for each byte the loop writes all of them.
  pub Writes-write_loop :
      (fuel off : ℕ) (src : List ℕ) (s : Fs io)
      → length src ≤ fuel
      → off + length src ≤ 2 ^ 44
      → Ready s off src
      → Writes s off src (write_loop io none fuel off src s)
  unfolding write_loop
  Writes-write_loop fuel off [] s le small r = Writes-nothing fuel off s r
  Writes-write_loop zero off (c ∷ src) s le small r = absurd (omega arith)
  Writes-write_loop (suc fuel) off (c ∷ src) s le small r =
      let n = to_read off (length (c ∷ src)) in
      let h = to_read_bounds io off (length (c ∷ src)) (λ e. omega arith) in
      let z : (suc (length src) == 0) ≡ false = ground arith in
      rw z (
        Writes-round s off n (c ∷ src) (write_loop io none fuel (off + n) (drop n (c ∷ src))) h.0
          h.1 h.2 small r
          (λ t r'.
            Writes-write_loop fuel (off + n) (drop n (c ∷ src)) t
              (omega (arith, length-drop n (c ∷ src))) (omega (arith, length-drop n (c ∷ src))) r'))
