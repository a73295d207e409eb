-- ===== src/Path/Names.antt =====
-- The components that `path_normalize` collects, and what it prints.
use mathlib.Core.List.{append-nil, append_assoc}
use nano_fs.Prelude.{
  ℕ, zero, suc, ◌+◌, ◌≤◌, ◌<◌, ◌≡◌, ◌≢◌, refl, ◌∙◌, sym, ap, Bool, true, false, Option, some, none,
  List, [], ◌∷◌, ◌++◌, Result, ok, err, FsError, fs_einval, leb, ◌==◌, if◌then◌else◌, length, All,
  length-append, arith, inl, inr, Bool-cases,
}
use nano_fs.Path.Parts.{
  IsComponent, get_next_component-IsComponent, Parts, keep, left_of_nothing, Leaves, collect-Leaves,
}
use nano_fs.Path.{
  Str, slash, dot, str_eq, get_next_component, but_last, push, collect, emit, is_absolute,
  print_components, path_normalize,
}

-- One that is the name of an entry.
pub record IsName (name : Str) : Type 0 where
  pub component : IsComponent name
  pub not_dot : str_eq name (dot ∷ []) ≡ false
  pub not_dots : str_eq name (dot ∷ dot ∷ []) ≡ false

-- What is collected: names, no more than the array has room for.
abbrev pub Collected : List Str → Type 0
Collected names = All IsName names × (length names ≤ 256)

All-snoc :
    (names : List Str) (n : Str) → All IsName names → IsName n → All IsName (names ++ (n ∷ []))
All-snoc [] n h i = (i, tt)
All-snoc (m ∷ names) n h i = (h.0, All-snoc names n h.1 i)

but_last-Collected :
    (names : List Str)
    → All IsName names
    → All IsName (but_last names) × (length (but_last names) ≤ length names)
unfolding but_last
but_last-Collected [] h = (tt, omega arith)
but_last-Collected (n ∷ []) h = (tt, omega arith)
but_last-Collected (n ∷ m ∷ rest) h =
    let r = but_last-Collected (m ∷ rest) h.1 in ((h.0, r.0), omega (arith, r.1))

push-Collected :
    (n : Str) (names next : List Str)
    → IsComponent n
    → Collected names
    → push n names ≡ ok next
    → Collected next
unfolding push
push-Collected n names next i h e = elim (Bool-cases (str_eq n (dot ∷ []))) [
  | inl d ↦ let s : names ≡ next = ground arith in rw (← s) h
  | inr nd ↦ elim (Bool-cases (str_eq n (dot ∷ dot ∷ []))) [
    | inl d ↦
        let s : but_last names ≡ next = ground arith in
        let b = but_last-Collected names h.0 in rw (← s) (b.0, omega (arith, b.1, h.1))
    | inr nds ↦ elim (Bool-cases (leb 256 (length names))) [
      | inl full ↦ ground arith
      | inr room ↦
          let s : names ++ (n ∷ []) ≡ next = ground arith in
          let lt : length names < 256 = ground arith in
          rw (← s) (
            All-snoc names n h.0 (record { component = i; not_dot = nd; not_dots = nds }),
            omega (arith, lt, length-append names (n ∷ [])),
          )
    ]
  ]
]

-- The loop, for any fuel.
collect-Collected :
    (fuel : ℕ) (p : Str) (names result : List Str)
    → Collected names
    → collect fuel p names ≡ ok result
    → Collected result
unfolding collect
collect-Collected zero p names result h e = let s : names ≡ result = cc in rw (← s) h
collect-Collected (suc fuel) p names result h e =
    go (λ c k q. collect-Collected fuel (get_next_component p).1 c result k q)
      (get_next_component p).0 (λ n q. get_next_component-IsComponent p n q) e
  where
    Rest : Type 0
    Rest =
        (c : List Str)
        → Collected c
        → collect fuel (get_next_component p).1 c ≡ ok result
        → Collected result

    pushed :
        Rest
        → (r : Result FsError (List Str)) → ((next : List Str) → r ≡ ok next → Collected next)
        → (elim r [ ok c ↦ collect fuel (get_next_component p).1 c | err x ↦ err x ]) ≡ ok result
        → Collected result
    pushed more (ok c) k e = more c (k c refl) e
    pushed more (err x) k e = cc

    go :
        Rest
        → (next : Option Str) → ((n : Str) → next ≡ some n → IsComponent n)
        → (elim next [
          | none ↦ ok names
          | some name ↦ elim (push name names) [
            | ok c ↦ collect fuel (get_next_component p).1 c
            | err x ↦ err x
          ]
        ])
          ≡ ok result
        → Collected result
    go more none k e = let s : names ≡ result = cc in rw (← s) h
    go more (some n) k e =
        pushed more (push n names) (λ next q. push-Collected n names next (k n refl) h q) e

-- The names with a slash between any two.
pub join : List Str → Str
join [] = []
join (n ∷ []) = n
join (n ∷ m ∷ rest) = n ++ (slash ∷ join (m ∷ rest))

emit-join :
    (size : ℕ) (names : List Str) (out result : Str)
    → emit size names out ≡ ok result
    → length out < size
    → (result ≡ out ++ join names) × (length result < size)
unfolding emit join
emit-join size [] out result e lt = let s : out ≡ result = cc in rw (← s) (sym (append-nil out), lt)
emit-join size (n ∷ []) out result e lt = elim (Bool-cases (leb size (length out + length n))) [
  | inl full ↦ ground arith
  | inr room ↦
      let s : out ++ n ≡ result = ground arith in
      let lt : length out + length n < size = ground arith in
      rw (← s) (refl, omega (arith, lt, length-append out n))
]
emit-join size (n ∷ m ∷ rest) out result e lt =
    elim (Bool-cases (leb size (length out + length n + 1))) [
      | inl full ↦ ground arith
      | inr room ↦
          let lt : length out + length n + 1 < size = ground arith in
          let more : emit size (m ∷ rest) (out ++ (n ++ (slash ∷ []))) ≡ ok result = ground arith in
          let r = emit-join size (m ∷ rest) (out ++ (n ++ (slash ∷ []))) result more (
            omega
              (arith, lt, length-append out (n ++ (slash ∷ [])), length-append n (slash ∷ []))) in
          (
            r.0
                ∙ append_assoc out (n ++ (slash ∷ [])) (join (m ∷ rest))
                ∙ ap (λ t. out ++ t) (append_assoc n (slash ∷ []) (join (m ∷ rest))),
            r.1,
          )
    ]

-- A path with these names: `/` in front of an absolute one, and `.` for an empty relative one.
pub render : Bool → List Str → Str
render true names = slash ∷ join names
render false [] = dot ∷ []
render false (n ∷ names) = join (n ∷ names)

print-render :
    (size : ℕ) (absolute : Bool) (names : List Str) (result : Str)
    → size ≢ 0
    → print_components size absolute names ≡ ok result
    → (result ≡ render absolute names) × (length result < size)
unfolding print_components render
print-render size absolute [] result ne e = elim (Bool-cases (leb size 1)) [
  | inl full ↦ ground arith
  | inr room ↦ print-empty absolute room e
]
  where
    print-empty :
        (absolute : Bool)
        → leb size 1 ≡ false
        → (if leb size 1 then err fs_einval else ok (if absolute then slash ∷ [] else dot ∷ []))
          ≡ ok result
        → (result ≡ render absolute []) × (length result < size)
    print-empty true room e =
        let s : slash ∷ [] ≡ result = ground arith in rw (← s) (unfold join in refl, ground arith)
    print-empty false room e =
        let s : dot ∷ [] ≡ result = ground arith in rw (← s) (refl, ground arith)
print-render size true (n ∷ names) result ne e = elim (Bool-cases (leb size 1)) [
  | inl full ↦ ground arith
  | inr room ↦
      let more : emit size (n ∷ names) (slash ∷ []) ≡ ok result = ground arith in
      emit-join size (n ∷ names) (slash ∷ []) result more (ground arith)
]
print-render size false (n ∷ names) result ne e =
    emit-join size (n ∷ names) [] result e (omega arith)

-- A normalized form of `path` that fits in a buffer of `size` bytes.
pub record IsNormal (path : Str) (size : ℕ) (out : Str) : Type 0 where
  pub parts : List Str
  pub split : Parts path parts
  pub names : List Str
  pub resolved : names ≡ (keep parts).1
  pub each : All IsName names
  pub few : length names ≤ 256
  pub text : out ≡ render (is_absolute path) names
  pub fits : length out < size

-- Where path_normalize succeeds, its output has the names that are left of the path's components: those that are
-- neither . nor .. and that no later .. takes away, at most 256, with one slash between any two, and one in front where
-- the path is absolute; a relative path of which none is left gives the output . alone. The components are what stands
-- between slashes, in pieces of 255 bytes where it is longer. The output leaves room for the terminator in the buffer.
pub path_normalize-IsNormal :
    (path out : Str) (size : ℕ) → path_normalize path size ≡ ok out → IsNormal path size out
unfolding path_normalize
path_normalize-IsNormal path out size e = elim (Bool-cases (size == 0)) [
  | inl z ↦ absurd (ground arith)
  | inr ne ↦
      go (λ z. ground arith) (collect (length path + 1) path [])
        (λ names q. (
          collect-Collected (length path + 1) path [] names (tt, omega arith) q,
          collect-Leaves (length path + 1) path [] names (omega arith) q,
        ))
        (rw ne at e)
]
  where
    go :
        size ≢ 0
        → (r : Result FsError (List Str))
        → ((names : List Str) → r ≡ ok names → Collected names × Leaves path [] names)
        → (elim r [
          | ok components ↦ print_components size (is_absolute path) components
          | err x ↦ err x
        ])
          ≡ ok out
        → IsNormal path size out
    go ne (ok names) k e =
        let p = print-render size (is_absolute path) names out ne e in
        let (collected, (parts, split, left)) = k names refl in
        record {
          parts = parts;
          split = split;
          names = names;
          resolved = left ∙ left_of_nothing parts;
          each = collected.0;
          few = collected.1;
          text = p.0;
          fits = p.1;
        }
    go ne (err x) k e = cc
