-- ===== src/Path/Parts.antt =====
-- The components of a path, and those of them that .. leaves.
use mathlib.Core.List.{append_assoc, append-nil}
use nano_fs.Path.Rounds.{rest-shorter}
use nano_fs.Prelude.{
  ==_iff, ℕ, zero, suc, ◌≤◌, ◌<◌, ◌≡◌, ◌≢◌, refl, ◌∙◌, sym, ap, Option, some, none, List, [], ◌∷◌,
  ◌++◌, Result, ok, err, FsError, leb, ◌==◌, if◌then◌else◌, length, All, arith, inl, inr,
  Bool-cases,
}
use nano_fs.Types.{max_filename}
use nano_fs.Path.{
  Str, slash, dot, str_eq, skip_slashes, take_component, non_empty, get_next_component, but_last,
  push, collect,
}

-- A component of a path: not empty, no longer than a file's name may be, and without a slash.
pub record IsComponent (name : Str) : Type 0 where
  pub non_empty : length name ≢ 0
  pub short : length name ≤ max_filename
  pub no_slash : All (λ c. c ≢ slash) name

abbrev Taken : ℕ → Str → Type 0
Taken room name = (length name ≤ room) × All (λ c. c ≢ slash) name

take_component-Taken : (room : ℕ) (p : Str) → Taken room (take_component room p).0
unfolding take_component
take_component-Taken zero p = (omega arith, tt)
take_component-Taken (suc room) [] = (omega arith, tt)
take_component-Taken (suc room) (c ∷ p) = elim (Bool-cases (c == slash)) [
  | inl e ↦ rw e (omega arith, tt)
  | inr ne ↦ let t = take_component-Taken room p in rw ne (omega (arith, t.0), (ground arith, t.1))
]

non_empty-some : (m n : Str) → non_empty m ≡ some n → (m ≡ n) × (length n ≢ 0)
unfolding non_empty
non_empty-some [] n e = cc
non_empty-some (c ∷ m) [] e = cc
non_empty-some (c ∷ m) (x ∷ n) e = (cc, λ h. omega arith)

pub get_next_component-IsComponent : (p n : Str) → (get_next_component p).0 ≡ some n → IsComponent n
unfolding get_next_component
get_next_component-IsComponent p n e =
    let (same, ne) = non_empty-some (take_component max_filename (skip_slashes p)).0 n e in
    let t = take_component-Taken max_filename (skip_slashes p) in
    record { non_empty = ne; short = rw (← same) t.0; no_slash = rw (← same) t.1 }

-- A component ends at a slash, at the end of the path, or when it is as long as a name may be.
abbrev pub Stops : Str → Str → Type 0
Stops name rest = (c : ℕ) (q : Str) → rest ≡ c ∷ q → length name < max_filename → c ≡ slash

-- The path is these components, with slashes before them and behind the last one.
pub data Parts : Str → List Str → Type 0 where
  nothing : (p : Str) → All (λ c. c ≡ slash) p → Parts p []
  part :
      (p slashes name rest : Str) (names : List Str)
      → p ≡ slashes ++ (name ++ rest)
      → All (λ c. c ≡ slash) slashes
      → IsComponent name
      → Stops name rest
      → Parts rest names
      → Parts p (name ∷ names)

take_component-append :
    (room : ℕ) (p : Str) → (take_component room p).0 ++ (take_component room p).1 ≡ p
unfolding take_component
take_component-append zero p = refl
take_component-append (suc room) [] = refl
take_component-append (suc room) (c ∷ p) = elim (Bool-cases (c == slash)) [
  | inl e ↦ rw e refl
  | inr ne ↦ rw ne (ap (λ q. c ∷ q) (take_component-append room p))
]

take_component-Stops :
    (room : ℕ) (p : Str) (c : ℕ) (q : Str)
    → (take_component room p).1 ≡ c ∷ q
    → length (take_component room p).0 < room
    → c ≡ slash
unfolding take_component
take_component-Stops zero p c q e lt = absurd (omega arith)
take_component-Stops (suc room) [] c q e lt = cc
take_component-Stops (suc room) (x ∷ p) c q e lt = elim (Bool-cases (x == slash)) [
  | inl s ↦ let e' = rw s at e in let same : x ≡ c = cc in rw (← same) ((==_iff x slash).0 s)
  | inr ns ↦ take_component-Stops room p c q (rw ns at e) (let l = rw ns at lt in omega arith)
]

abbrev Skipped : Str → Type 0
Skipped p = (slashes : Str) × All (λ c. c ≡ slash) slashes × (p ≡ slashes ++ skip_slashes p)

skip_slashes-Skipped : (p : Str) → Skipped p
unfolding skip_slashes
skip_slashes-Skipped [] = ([], tt, refl)
skip_slashes-Skipped (c ∷ p) = elim (Bool-cases (c == slash)) [
  | inl e ↦
      let (s, all, same) = skip_slashes-Skipped p in
      rw e (c ∷ s, ((==_iff c slash).0 e, all), ap (λ q. c ∷ q) same)
  | inr ne ↦ rw ne ([], tt, refl)
]

-- Where no component follows there are only slashes.
only_slashes :
    (p : Str) (room : ℕ)
    → non_empty (take_component (suc room) (skip_slashes p)).0 ≡ none
    → All (λ c. c ≡ slash) p
unfolding skip_slashes take_component non_empty
only_slashes [] room e = tt
only_slashes (c ∷ p) room e = elim (Bool-cases (c == slash)) [
  | inl s ↦ ((==_iff c slash).0 s, only_slashes p room (rw s at e))
  | inr ns ↦ let e' = rw (ns, ns) at e in cc
]

Parts-none : (p : Str) → (get_next_component p).0 ≡ none → Parts p []
unfolding get_next_component
Parts-none p e = nothing p (only_slashes p 254 e)

Parts-some :
    (p n : Str) (names : List Str)
    → (get_next_component p).0 ≡ some n
    → Parts (get_next_component p).1 names
    → Parts p (n ∷ names)
unfolding get_next_component
Parts-some p n names e parts =
    let q = skip_slashes p in
    let (s, all, same) = skip_slashes-Skipped p in
    let m = (non_empty-some (take_component max_filename q).0 n e).0 in
    part p s n (take_component max_filename q).1 names
      (same ∙ ap (λ x. s ++ x) (sym (rw m at (take_component-append max_filename q)))) all
      (get_next_component-IsComponent p n e)
      (λ c r h lt. take_component-Stops max_filename q c r h (rw m lt)) parts

-- Read from the right: how many names before the list its .. take away, and the names that stay.
keep_name : Str → ℕ → List Str → ℕ × List Str
keep_name name zero kept = (zero, name ∷ kept)
keep_name name (suc ups) kept = (ups, kept)

pub keep : List Str → ℕ × List Str
unfolding keep_name
keep [] = (0, [])
keep (name ∷ names) =
    let (ups, kept) = keep names in
    if str_eq name (dot ∷ [])
    then (ups, kept)
    else if str_eq name (dot ∷ dot ∷ [])
    then (suc ups, kept)
    else keep_name name ups kept

pub drop_last : ℕ → List Str → List Str
drop_last zero names = names
drop_last (suc k) names = drop_last k (but_last names)

but_last-snoc : (names : List Str) (n : Str) → but_last (names ++ (n ∷ [])) ≡ names
unfolding but_last
but_last-snoc [] n = refl
but_last-snoc (m ∷ []) n = refl
but_last-snoc (m ∷ k ∷ names) n = ap (λ x. m ∷ x) (but_last-snoc (k ∷ names) n)

drop_last_nothing : (k : ℕ) → drop_last k [] ≡ []
unfolding drop_last but_last
drop_last_nothing zero = refl
drop_last_nothing (suc k) = drop_last_nothing k

-- The names that the array holds after `names` and the components.
pub left_of : List Str → List Str → List Str
unfolding drop_last keep
left_of names parts = drop_last (keep parts).0 names ++ (keep parts).1

pub left_of_nothing : (parts : List Str) → left_of [] parts ≡ (keep parts).1
unfolding left_of
left_of_nothing parts = rw (drop_last_nothing (keep parts).0) refl

drop_last-snoc :
    (names : List Str) (n : Str) (ups : ℕ) (kept : List Str)
    → drop_last ups (names ++ (n ∷ [])) ++ kept
      ≡ drop_last (keep_name n ups kept).0 names ++ (keep_name n ups kept).1
unfolding keep_name drop_last
drop_last-snoc names n zero kept = append_assoc names (n ∷ []) kept
drop_last-snoc names n (suc ups) kept = rw (but_last-snoc names n) refl

push-left_of :
    (n : Str) (names next parts : List Str)
    → push n names ≡ ok next
    → left_of next parts ≡ left_of names (n ∷ parts)
unfolding push left_of drop_last keep
push-left_of n names next parts e = elim (Bool-cases (str_eq n (dot ∷ []))) [
  | inl d ↦ let s : names ≡ next = ground arith in rw (d, ← s) refl
  | inr nd ↦ elim (Bool-cases (str_eq n (dot ∷ dot ∷ []))) [
    | inl d ↦ let s : but_last names ≡ next = ground arith in rw (nd, d, ← s) refl
    | inr nds ↦ elim (Bool-cases (leb 256 (length names))) [
      | inl full ↦ ground arith
      | inr room ↦
          let s : names ++ (n ∷ []) ≡ next = ground arith in
          rw (nd, nds, ← s) (drop_last-snoc names n (keep parts).0 (keep parts).1)
    ]
  ]
]

-- What the loop leaves, with enough rounds.
abbrev pub Leaves : Str → List Str → List Str → Type 0
Leaves p names result = (parts : List Str) × Parts p parts × (result ≡ left_of names parts)

pub collect-Leaves :
    (fuel : ℕ) (p : Str) (names result : List Str)
    → length p < fuel
    → collect fuel p names ≡ ok result
    → Leaves p names result
unfolding collect
collect-Leaves zero p names result lt e = absurd (omega arith)
collect-Leaves (suc fuel) p names result lt e =
    go (λ shorter c h. collect-Leaves fuel (get_next_component p).1 c result shorter h)
      (get_next_component p).0 refl e
  where
    Again : Type 0
    Again =
        length (get_next_component p).1 < fuel
        → (c : List Str) → collect fuel (get_next_component p).1 c ≡ ok result
        → Leaves (get_next_component p).1 c result

    Rest : Str → Type 0
    Rest n =
        (c : List Str)
        → push n names ≡ ok c
        → collect fuel (get_next_component p).1 c ≡ ok result
        → Leaves p names result

    rest : Again → (n : Str) → (get_next_component p).0 ≡ some n → Rest n
    rest again n q c h more =
        let (parts, split, same) = again (omega (arith, rest-shorter p n q, lt)) c more in
        (n ∷ parts, Parts-some p n parts q split, same ∙ push-left_of n names c parts h)

    pushed :
        (n : Str)
        → Rest n
        → (r : Result FsError (List Str)) → push n names ≡ r
        → (elim r [ ok c ↦ collect fuel (get_next_component p).1 c | err x ↦ err x ]) ≡ ok result
        → Leaves p names result
    pushed n more (ok c) k e = more c k e
    pushed n more (err x) k e = cc

    go :
        Again
        → (next : Option Str) → (get_next_component p).0 ≡ next
        → (elim next [
          | none ↦ ok names
          | some name ↦ elim (push name names) [
            | ok c ↦ collect fuel (get_next_component p).1 c
            | err x ↦ err x
          ]
        ])
          ≡ ok result
        → Leaves p names result
    go again none k e =
        let s : names ≡ result = cc in
        ([], Parts-none p k, sym s ∙ unfold left_of keep drop_last in sym (append-nil names))
    go again (some n) k e = pushed n (rest again n k) (push n names) refl e
