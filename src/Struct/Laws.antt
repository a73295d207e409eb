-- ===== src/Struct/Laws.antt =====
-- What is read from a struct is what was stored in it.
use native.Mathlib.Nat.{pow-suc}
use mathlib.Core.List.{append_assoc}
use nano_fs.Prelude.{
  ℕ, zero, suc, ◌+◌, ◌-◌, ◌*◌, ◌/◌, ◌%◌, ◌^◌, ◌≤◌, ◌<◌, ◌≡◌, refl, ap, ◌∙◌, List, [], ◌∷◌, ◌++◌,
  take, drop, length, get_or, length-append, length-take, All, replicate, get_or-append,
  get_or-take, get_or-drop, ltb, if◌then◌else◌, arith, ◌⊎◌, length-drop,
}
use nano_fs.Struct.{le_bytes, le_value, put_fields, get_fields, splice, copy}

pub length-le_bytes : (w v : ℕ) → length (le_bytes w v) ≡ w
unfolding le_bytes
length-le_bytes zero v = refl
length-le_bytes (suc w) v = ap suc (length-le_bytes w (v / 256))

pub le_value-le_bytes : (w v : ℕ) → v < 256 ^ w → le_value (le_bytes w v) ≡ v
unfolding le_bytes le_value
le_value-le_bytes zero v lt = omega arith
le_value-le_bytes (suc w) v lt =
    let p : 256 ^ suc w ≡ 256 * 256 ^ w = pow-suc 256 w ∙ omega arith in
    omega (arith, p, lt, le_value-le_bytes w (v / 256) (omega (arith, p, lt)))

pub take-le_bytes : (w v : ℕ) (rest : List ℕ) → take w (le_bytes w v ++ rest) ≡ le_bytes w v
unfolding le_bytes
take-le_bytes zero v rest = refl
take-le_bytes (suc w) v rest = ap (◌∷◌ (v % 256)) (take-le_bytes w (v / 256) rest)

pub drop-le_bytes : (w v : ℕ) (rest : List ℕ) → drop w (le_bytes w v ++ rest) ≡ rest
unfolding le_bytes
drop-le_bytes zero v rest = refl
drop-le_bytes (suc w) v rest = drop-le_bytes w (v / 256) rest

-- Every value fits in its field.
abbrev pub Fields : List ℕ → List ℕ → Type 0
Fields [] [] = Unit
Fields [] (v ∷ values) = ⊥
Fields (w ∷ widths) [] = ⊥
Fields (w ∷ widths) (v ∷ values) = (v < 256 ^ w) × Fields widths values

pub get-put_fields :
    (widths values rest : List ℕ)
    → Fields widths values
    → get_fields widths (put_fields widths values ++ rest) ≡ values
unfolding get_fields put_fields
get-put_fields [] [] rest f = refl
get-put_fields [] (v ∷ values) rest f = absurd f
get-put_fields (w ∷ widths) [] rest f = absurd f
get-put_fields (w ∷ widths) (v ∷ values) rest f =
    rw
      (
        append_assoc (le_bytes w v) (put_fields widths values) rest,
        take-le_bytes w v (put_fields widths values ++ rest),
        drop-le_bytes w v (put_fields widths values ++ rest),
        le_value-le_bytes w v f.0,
      )
      (ap (◌∷◌ v) (get-put_fields widths values rest f.1))

-- A byte of a buffer that something was copied into.
pub get_or-splice :
    (buf bytes : List ℕ) (from i : ℕ)
    → from + length bytes ≤ length buf
    → get_or (splice buf from bytes) i 0 ≡ (
        if ltb i from
        then get_or buf i 0
        else if ltb i (from + length bytes)
        then get_or bytes (i - from) 0
        else get_or buf i 0)
unfolding splice
get_or-splice buf bytes from i fits = ground (
  arith,
  get_or-append (take from buf) (bytes ++ drop (from + length bytes) buf) i 0,
  get_or-append bytes (drop (from + length bytes) buf) (i - from) 0,
  get_or-take from buf i 0,
  get_or-drop (from + length bytes) buf (i - from - length bytes) 0,
  (let e : i < from + length bytes ⊎ (from + length bytes + (i - from - length bytes) ≡ i) =
        ground arith in
      e),
  length-take from buf,
)

pub length-splice :
    (buf bytes : List ℕ) (from : ℕ)
    → from + length bytes ≤ length buf
    → length (splice buf from bytes) ≡ length buf
unfolding splice
length-splice buf bytes from fits = omega (
  arith,
  length-append (take from buf) (bytes ++ drop (from + length bytes) buf),
  length-append bytes (drop (from + length bytes) buf),
  length-take from buf,
  length-drop (from + length bytes) buf,
)

-- Copies that agree byte by byte.
pub copy-congr :
    (a b : List ℕ) (i j n : ℕ)
    → ((k : ℕ) → k < n → get_or a (i + k) 0 ≡ get_or b (j + k) 0)
    → copy a i n ≡ copy b j n
unfolding copy
copy-congr a b i j zero h = refl
copy-congr a b i j (suc n) h =
    rw (zero_step, copy-congr a b (i + 1) (j + 1) n (λ k lt. next k (h (k + 1) (omega arith)))) refl
  where
    zero_step : get_or a i 0 ≡ get_or b j 0
    zero_step =
        let h0 = h 0 (omega arith) in
        let e : i + 0 ≡ i = omega arith in let e' : j + 0 ≡ j = omega arith in rw (e, e') at h0

    next :
        (k : ℕ)
        → get_or a (i + (k + 1)) 0 ≡ get_or b (j + (k + 1)) 0
        → get_or a (i + 1 + k) 0 ≡ get_or b (j + 1 + k) 0
    next k e =
        let f : i + (k + 1) ≡ i + 1 + k = omega arith in
        let f' : j + (k + 1) ≡ j + 1 + k = omega arith in rw (f, f') at e

pub copy_whole : (a : List ℕ) → copy a 0 (length a) ≡ a
unfolding copy
copy_whole [] = refl
copy_whole (x ∷ a) =
    ap (◌∷◌ x) (copy-congr (x ∷ a) a 1 0 (length a) (λ k lt. shift k) ∙ copy_whole a)
  where
    shift : (k : ℕ) → get_or (x ∷ a) (1 + k) 0 ≡ get_or a (0 + k) 0
    shift k =
        let e : 1 + k ≡ suc k = omega arith in let f : 0 + k ≡ k = omega arith in rw (e, f) refl

pub length-copy : (a : List ℕ) (i n : ℕ) → length (copy a i n) ≡ n
unfolding copy
length-copy a i zero = refl
length-copy a i (suc n) = ap suc (length-copy a (i + 1) n)

-- What was copied in is copied out.
pub copy-splice :
    (buf bytes : List ℕ) (from : ℕ)
    → from + length bytes ≤ length buf
    → copy (splice buf from bytes) from (length bytes) ≡ bytes
copy-splice buf bytes from fits =
    copy-congr (splice buf from bytes) bytes from 0 (length bytes) (λ k lt. inside k lt)
    ∙ copy_whole bytes
  where
    inside :
        (k : ℕ)
        → k < length bytes
        → get_or (splice buf from bytes) (from + k) 0 ≡ get_or bytes (0 + k) 0
    inside k lt =
        let e : from + k - from ≡ 0 + k = omega arith in
        ground (arith, get_or-splice buf bytes from (from + k) fits)

-- A copy from elsewhere is as it was.
pub copy-splice_ne :
    (buf bytes : List ℕ) (from i n : ℕ)
    → from + length bytes ≤ length buf
    → (i + n ≤ from) ⊎ (from + length bytes ≤ i)
    → copy (splice buf from bytes) i n ≡ copy buf i n
copy-splice_ne buf bytes from i n fits away =
    copy-congr (splice buf from bytes) buf i i n
      (λ k lt. ground (arith, get_or-splice buf bytes from (i + k) fits))

abbrev pub sum : List ℕ → ℕ
sum [] = 0
sum (w ∷ widths) = w + sum widths

pub length-put_fields :
    (widths values : List ℕ) → Fields widths values → length (put_fields widths values) ≡ sum widths
unfolding put_fields
length-put_fields [] [] f = refl
length-put_fields [] (v ∷ values) f = absurd f
length-put_fields (w ∷ widths) [] f = absurd f
length-put_fields (w ∷ widths) (v ∷ values) f = omega (
  arith,
  length-append (le_bytes w v) (put_fields widths values),
  length-le_bytes w v,
  length-put_fields widths values f.1,
)

pub Fields-append :
    (ws ws' vs vs' : List ℕ) → Fields ws vs → Fields ws' vs' → Fields (ws ++ ws') (vs ++ vs')
Fields-append [] ws' [] vs' f g = g
Fields-append [] ws' (v ∷ vs) vs' f g = absurd f
Fields-append (w ∷ ws) ws' [] vs' f g = absurd f
Fields-append (w ∷ ws) ws' (v ∷ vs) vs' f g = (f.0, Fields-append ws ws' vs vs' f.1 g)

pub Fields-replicate :
    (w n : ℕ) (vs : List ℕ) → length vs ≡ n → All (λ v. v < 256 ^ w) vs → Fields (replicate n w) vs
Fields-replicate w zero [] e h = tt
Fields-replicate w zero (v ∷ vs) e h = absurd (omega arith)
Fields-replicate w (suc n) [] e h = absurd (omega arith)
Fields-replicate w (suc n) (v ∷ vs) e h = (h.0, Fields-replicate w n vs (omega arith) h.1)

-- Nor does what stands behind what was copied to the beginning matter.
pub copy-splice_prefix :
    (buf bytes : List ℕ) (i n : ℕ)
    → i + n ≤ length bytes
    → copy (splice buf 0 bytes) i n ≡ copy bytes i n
unfolding splice
copy-splice_prefix buf bytes i n fits =
    copy-congr (bytes ++ drop (0 + length bytes) buf) bytes i i n
      (λ k lt. ground (arith, get_or-append bytes (drop (0 + length bytes) buf) (i + k) 0))

append_nothing : (a : List ℕ) → a ++ [] ≡ a
append_nothing [] = refl
append_nothing (x ∷ a) = ap (◌∷◌ x) (append_nothing a)

drop_nothing : (n : ℕ) → drop {A = ℕ} n [] ≡ []
drop_nothing zero = refl
drop_nothing (suc n) = refl

-- A copy into a buffer that holds nothing of interest.
pub splice_nothing : (bytes : List ℕ) → splice [] 0 bytes ≡ bytes
unfolding splice
splice_nothing bytes = rw (drop_nothing (0 + length bytes)) (append_nothing bytes)
