-- ===== src/Path/Equal.antt =====
-- `strcmp` of path.c is equality.
use nano_fs.Prelude.{◌≡◌, refl, true, [], ◌∷◌, ◌==◌, ==_iff, inl, inr, Bool-cases, arith}
use nano_fs.Path.{Str, str_eq}

pub str_eq_refl : (a : Str) → str_eq a a ≡ true
unfolding str_eq
str_eq_refl [] = refl
str_eq_refl (c ∷ a) = ground (arith, str_eq_refl a)

pub str_eq→≡ : (a b : Str) → str_eq a b ≡ true → a ≡ b
unfolding str_eq
str_eq→≡ [] [] h = refl
str_eq→≡ [] (c ∷ b) h = cc
str_eq→≡ (c ∷ a) [] h = cc
str_eq→≡ (c ∷ a) (e ∷ b) h = elim (Bool-cases (c == e)) [
  | inl same ↦
      let h' = rw same at h in let f : c ≡ e = (==_iff c e).0 same in rw (f, str_eq→≡ a b h') refl
  | inr other ↦ let h' = rw other at h in cc
]
