-- ===== src/Directory/Good.antt =====
-- A lookup keeps the device good and the allocator as it is, whatever the directory holds.
use nano_fs.Prelude.{
  ℕ, zero, suc, ◌+◌, ◌≡◌, not, Option, none, some, List, Result, FsError, ltb, u64, ◌==◌, length,
  Bool-cases, inl, inr,
}
use nano_fs.Types.{block_size, inode_type_dir}
use nano_fs.BlockIo.{BlockIo}
use nano_fs.BlockAlloc.{BlockAllocator}
use nano_fs.Struct.{splice}
use nano_fs.Inode.{Fs, M, pure, inode_read}
use nano_fs.Inode.Bind.{bind-cases, pure_lem}
use nano_fs.Inode.Steady.{Keeps, inode_read-Keeps}
use nano_fs.Path.{Str}
use nano_fs.Directory.{fail, find_in, bad_name, dir_rounds, lookup_from, dir_lookup}

module _ (io : BlockIo) (b : BlockAllocator) where
  abbrev Kept : {A : Type 0} → Result FsError A × Fs io → Type 0
  Kept out = Keeps io b out

  Kept-chosen :
      (o : Option ℕ) (next : M io ℕ) (t : Fs io)
      → io.IsGood t.dev
      → t.balloc ≡ b
      → Kept (next t)
      → (let chosen : M io ℕ = elim o [ some inum ↦ pure io inum | none ↦ next ] in Kept (chosen t))
  Kept-chosen none next t g a h = h
  Kept-chosen (some inum) next t g a h = rw (pure_lem io inum t) (g, a)

  lookup_from-Keeps :
      (now : ℕ) (stack : List ℕ) (rounds offset : ℕ) (name : Str) (size : ℕ) (s : Fs io)
      → io.IsGood s.dev
      → s.balloc ≡ b
      → Kept (lookup_from io now stack rounds offset name size s)
  unfolding lookup_from fail
  lookup_from-Keeps now stack zero offset name size s g a = (g, a)
  lookup_from-Keeps now stack (suc rounds) offset name size s g a =
      let k = inode_read-Keeps io s b now offset block_size g a in
      elim (Bool-cases (ltb offset size)) [
        | inl more ↦ rw more (
            bind-cases io (λ out. Kept out) (inode_read io now offset block_size) _ s
              (λ l e.
                let t = (inode_read io now offset block_size s).1 in
                elim (Bool-cases (length l == 0)) [
                  | inl z ↦ rw z k
                  | inr z ↦ rw z (
                      Kept-chosen (find_in block_size (splice stack 0 l) 0 (length l) name) _ t k.0
                        k.1
                        (lookup_from-Keeps now (splice stack 0 l) rounds (u64 (offset + block_size))
                          name size t k.0 k.1))
                ])
              (λ x e. k))
        | inr past ↦ rw past (g, a)
      ]

  pub dir_lookup-Keeps :
      (now : ℕ) (stack : List ℕ) (name : Str) (s : Fs io)
      → io.IsGood s.dev
      → s.balloc ≡ b
      → Keeps io b (dir_lookup io now stack name s)
  unfolding dir_lookup
  dir_lookup-Keeps now stack name s g a =
      elim (Bool-cases (not (s.inode.disk.kind == inode_type_dir))) [
        | inl other ↦ rw other (g, a)
        | inr dir ↦ elim (Bool-cases (bad_name name)) [
          | inl bad ↦ rw (dir, bad) (g, a)
          | inr fine ↦
              rw (dir, fine)
                (lookup_from-Keeps now stack (dir_rounds s.inode.disk.size) 0 name s.inode.disk.size
                  s g a)
        ]
      ]
