-- ===== src/Inode/Kept.antt =====
-- Steps of `inode.c` that change nothing but the device's own state, such as its cache.
use nano_fs.Prelude.{ℕ, ◌≡◌, ◌≢◌, refl, ◌∙◌, Result, ok, err, FsError, fs_enoent, Errno}
use nano_fs.BlockIo.{BlockIo}
use nano_fs.Inode.{Fs, M, ◌>>=◌, pure, load, continue, or_eio}

module _ (io : BlockIo) where
  -- Only the device's state has changed, and not its contents.
  pub record Kept (s s' : Fs io) : Type 0 where
    pub balloc : s'.balloc ≡ s.balloc
    pub inode : s'.inode ≡ s.inode
    pub good : io.IsGood s'.dev
    pub same : (q : ℕ) → io.contents s'.dev q ≡ io.contents s.dev q

  pub Kept-refl : (s : Fs io) → io.IsGood s.dev → Kept s s
  Kept-refl s g = record { balloc = refl; inode = refl; good = g; same = λ q. refl }

  pub Kept-trans : {s t u : Fs io} → Kept s t → Kept t u → Kept s u
  Kept-trans k l = record {
    balloc = l.balloc ∙ k.balloc;
    inode = l.inode ∙ k.inode;
    good = l.good;
    same = λ q. l.same q ∙ k.same q;
  }

  -- A lookup from `s` that finds `v`, or fails, and then with another error than ENOENT.
  pub record Looks {A : Type 0} (s : Fs io) (v : A) (out : Result FsError A × Fs io) : Type 0 where
    pub kept : Kept s out.1
    pub result : (a : A) → out.0 ≡ ok a → a ≡ v
    pub no_enoent : out.0 ≢ err fs_enoent

  pub Looks-pure : {A : Type 0} (s : Fs io) (a : A) → io.IsGood s.dev → Looks s a (pure io a s)
  unfolding pure
  Looks-pure s a g = record { kept = Kept-refl s g; result = λ b e. cc; no_enoent = λ e. cc }

  continued :
      {A B : Type 0} (f : A → M io B) (s : Fs io) (v : A) (u : B) (r : Result FsError A)
      (s' : Fs io)
      → Kept s s'
      → ((a : A) → r ≡ ok a → a ≡ v)
      → r ≢ err fs_enoent
      → ((s' : Fs io) → Kept s s' → Looks s' u (f v s'))
      → Looks s u (continue io r f s')
  unfolding continue
  continued f s v u (ok a) s' k e ne next =
      let l : Looks s' u (f a s') = rw (e a refl) (next s' k) in
      record { kept = Kept-trans k l.kept; result = l.result; no_enoent = l.no_enoent }
  continued f s v u (err x) s' k e ne next = record {
    kept = k;
    result = λ b h. cc;
    no_enoent = λ h. ne (cc);
  }

  pub Looks-bind :
      {A B : Type 0} (m : M io A) (f : A → M io B) (s : Fs io) (v : A) (u : B)
      → Looks s v (m s)
      → ((s' : Fs io) → Kept s s' → Looks s' u (f v s'))
      → Looks s u (◌>>=◌ io m f s)
  unfolding ◌>>=◌
  Looks-bind m f s v u l next = continued f s v u (m s).0 (m s).1 l.kept l.result l.no_enoent next

  ok_or_eio : {A : Type 0} (r : Result Errno A) (a : A) → or_eio io r ≡ ok a → r ≡ ok a
  unfolding or_eio
  ok_or_eio (ok b) a h = cc
  ok_or_eio (err e) a h = cc

  eio_only : {A : Type 0} (r : Result Errno A) → or_eio io r ≢ err fs_enoent
  unfolding or_eio
  eio_only (ok b) h = cc
  eio_only (err e) h = cc

  pub Looks-load :
      (s : Fs io) (table : ℕ)
      → io.IsGood s.dev
      → Looks s (io.contents s.dev table) (load io table s)
  unfolding load
  Looks-load s table g = record {
    kept = record {
      balloc = refl;
      inode = refl;
      good = io.read_good table s.dev g;
      same = λ q. io.read_contents table q s.dev g;
    };
    result = λ a h. io.read_data table s.dev a g (ok_or_eio _ a h);
    no_enoent = eio_only _;
  }
