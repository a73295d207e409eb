-- ===== src/Path/Split.antt =====
-- `path_dirname` and `path_basename` together.
use nano_fs.Prelude.{
  ℕ, ◌<◌, ◌≡◌, ◌≢◌, refl, ap, Option, some, none, [], ◌∷◌, ◌++◌, ok, err, fs_einval, leb, ◌==◌,
  if◌then◌else◌, length, take, All, arith, inl, inr, Bool-cases,
}
use nano_fs.Types.{max_filename}
use nano_fs.Path.{
  Str, slash, dot, strip, split_last, base_in, base_of, path_basename, one_byte, dir_in, dir_of,
  path_dirname,
}

abbrev pub NoSlash : Str → Type 0
NoSlash p = All (λ c. c ≢ slash) p

pub or_root : Str → Str
or_root [] = slash ∷ []
or_root (c ∷ d) = c ∷ d

-- How a path, without the slashes at its end, is split: there is nothing else, it has no slash, or
-- the last slash stands between the directory and the name.
pub data Splits (path dir base : Str) : Type 0 where
  only_slashes : strip path ≡ [] → dir ≡ slash ∷ [] → Splits path dir base
  bare :
      NoSlash (strip path)
      → dir ≡ dot ∷ []
      → base ≡ take max_filename (strip path)
      → Splits path dir base
  inside :
      (d b : Str)
      → strip path ≡ d ++ (slash ∷ b)
      → NoSlash b
      → dir ≡ or_root d
      → base ≡ take max_filename b
      → Splits path dir base

-- What `split_last` returns.
IsSplit : Str → Option (Str × Str) → Type 0
IsSplit p none = NoSlash p
IsSplit p (some (d, b)) = (p ≡ d ++ (slash ∷ b)) × NoSlash b

split_last-IsSplit : (p : Str) → IsSplit p (split_last p)
unfolding split_last IsSplit
split_last-IsSplit [] = tt
split_last-IsSplit (c ∷ p) = go (split_last p) (split_last-IsSplit p)
  where
    go :
        (s : Option (Str × Str))
        → IsSplit p s
        → IsSplit (c ∷ p) (elim s [
          | some (dir, base) ↦ some (c ∷ dir, base)
          | none ↦ if c == slash then some ([], p) else none
        ])
    go (some (d, b)) h = (ap (λ t. c ∷ t) h.0, h.1)
    go none h = elim (Bool-cases (c == slash)) [
      | inl e ↦ let s : c ≡ slash = ground arith in rw e (rw s refl, h)
      | inr ne ↦ rw ne (ground arith, h)
    ]

one_byte-ok :
    (size c : ℕ) (dir : Str) → one_byte size c ≡ ok dir → (dir ≡ c ∷ []) × (length dir < size)
unfolding one_byte
one_byte-ok size c dir e = elim (Bool-cases (leb 2 size)) [
  | inl room ↦ let s : c ∷ [] ≡ dir = ground arith in rw (← s) (refl, ground arith)
  | inr full ↦ ground arith
]

long_dir :
    (size : ℕ) (d dir : Str)
    → (if leb size (length d) then err fs_einval else ok d) ≡ ok dir
    → (dir ≡ d) × (length dir < size)
long_dir size d dir e = elim (Bool-cases (leb size (length d))) [
  | inl full ↦ ground arith
  | inr room ↦ let s : d ≡ dir = ground arith in rw (← s) (refl, ground arith)
]

module _ (path dir : Str) (size : ℕ) where
  Splits-in :
      (s : Option (Str × Str))
      → IsSplit (strip path) s
      → dir_in size s ≡ ok dir
      → Splits path dir (base_in (strip path) s) × (length dir < size)
  unfolding IsSplit dir_in base_in or_root
  Splits-in none h e = let o = one_byte-ok size dot dir e in (bare h o.0 refl, o.1)
  Splits-in (some ([], b)) h e =
      let o = one_byte-ok size slash dir e in (inside [] b h.0 h.1 o.0 refl, o.1)
  Splits-in (some (c ∷ d, b)) h e =
      let o = long_dir size (c ∷ d) dir e in (inside (c ∷ d) b h.0 h.1 o.0 refl, o.1)

  Splits-of :
      (l : Str)
      → strip path ≡ l
      → dir_of size l ≡ ok dir
      → Splits path dir (base_of l) × (length dir < size)
  unfolding dir_of base_of
  Splits-of [] same e = let o = one_byte-ok size slash dir e in (only_slashes same o.0, o.1)
  Splits-of (c ∷ l) same e =
      let r = Splits-in (split_last (strip path)) (split_last-IsSplit (strip path)) (rw same e) in
      (rw (← same) r.0, r.1)

-- Where `path_dirname` succeeds, the directory that it returns fits in the buffer with its
-- terminator, and together with the result of `path_basename` it splits the path, without the
-- slashes at its end, at the last slash: the directory is what stands before it, or `/` if that is
-- nothing, and the name what stands behind it, cut to the length of a file's name; without a slash
-- the directory is `.`, and for slashes only it is `/`.
pub path_dirname-Splits :
    (path dir : Str) (size : ℕ)
    → path_dirname path size ≡ ok dir
    → Splits path dir (path_basename path) × (length dir < size)
unfolding path_dirname path_basename strip
path_dirname-Splits path dir size e = elim (Bool-cases (size == 0)) [
  | inl z ↦ absurd (ground arith)
  | inr ne ↦ named path (rw ne at e)
]
  where
    named :
        (p : Str)
        → dir_of size (strip p) ≡ ok dir
        → Splits p dir (path_basename p) × (length dir < size)
    named [] h = let o = one_byte-ok size slash dir h in (only_slashes refl o.0, o.1)
    named (c ∷ p) h = Splits-of (c ∷ p) dir size (strip (c ∷ p)) refl h
