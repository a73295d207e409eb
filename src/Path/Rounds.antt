-- ===== src/Path/Rounds.antt =====
-- The loop of `path_normalize` ends: a path has fewer components than bytes.
use nano_fs.Prelude.{
  ℕ, zero, suc, ◌+◌, ◌≤◌, ◌<◌, ◌≡◌, refl, Option, some, none, List, [], ◌∷◌, Result, ok, err,
  FsError, ◌==◌, length, arith, inl, inr, Bool-cases,
}
use nano_fs.Types.{max_filename}
use nano_fs.Path.{
  Str, slash, skip_slashes, take_component, non_empty, get_next_component, push, collect,
}

skip_slashes-shorter : (p : Str) → length (skip_slashes p) ≤ length p
unfolding skip_slashes
skip_slashes-shorter [] = omega arith
skip_slashes-shorter (c ∷ p) = let h = skip_slashes-shorter p in ground arith

take_component-length :
    (room : ℕ) (p : Str)
    → length (take_component room p).0 + length (take_component room p).1 ≡ length p
unfolding take_component
take_component-length zero p = omega arith
take_component-length (suc room) [] = refl
take_component-length (suc room) (c ∷ p) = elim (Bool-cases (c == slash)) [
  | inl e ↦ rw e (omega arith)
  | inr ne ↦ rw ne (omega (arith, take_component-length room p))
]

non_empty-length : (m n : Str) → non_empty m ≡ some n → 0 < length m
unfolding non_empty
non_empty-length [] n e = cc
non_empty-length (c ∷ m) n e = omega arith

pub rest-shorter :
    (p n : Str) → (get_next_component p).0 ≡ some n → length (get_next_component p).1 < length p
unfolding get_next_component
rest-shorter p n e = omega (
  arith,
  skip_slashes-shorter p,
  take_component-length max_filename (skip_slashes p),
  non_empty-length (take_component max_filename (skip_slashes p)).0 n e,
)

-- With more rounds than the path has bytes the result of the loop does not depend on their number:
-- the loop has come to the end of the path.
pub collect_rounds :
    (fuel more : ℕ) (p : Str) (names : List Str)
    → length p < fuel
    → length p < more
    → collect fuel p names ≡ collect more p names
unfolding collect
collect_rounds zero more p names lt lt' = absurd (omega arith)
collect_rounds (suc fuel) zero p names lt lt' = absurd (omega arith)
collect_rounds (suc fuel) (suc more) p names lt lt' = go (get_next_component p).0 (λ n e c.
    let s = rest-shorter p n e in
    collect_rounds fuel more (get_next_component p).1 c (omega (arith, s, lt))
      (omega (arith, s, lt')))
  where
    after : ℕ → Result FsError (List Str) → Result FsError (List Str)
    after k r = elim r [ ok c ↦ collect k (get_next_component p).1 c | err x ↦ err x ]

    same :
        (r : Result FsError (List Str))
        → ((c : List Str)
            → collect fuel (get_next_component p).1 c ≡ collect more (get_next_component p).1 c)
        → after fuel r ≡ after more r
    same (ok c) h = h c
    same (err x) h = refl

    go :
        (next : Option Str)
        → ((n : Str)
            → next ≡ some n
            → (c : List Str)
            → collect fuel (get_next_component p).1 c ≡ collect more (get_next_component p).1 c)
        → (elim next [ none ↦ ok names | some name ↦ after fuel (push name names) ])
          ≡ (elim next [ none ↦ ok names | some name ↦ after more (push name names) ])
    go none h = refl
    go (some n) h = same (push n names) (h n refl)
