-- ===== src/Directory/Entries.antt =====
-- The entries of a directory as a relation, without buffers and rounds.
use nano_fs.Prelude.{
  ℕ, zero, suc, ◌+◌, ◌-◌, ◌≤◌, ◌<◌, ◌≡◌, ◌≢◌, true, false, Option, none, some, List, [], ◌∷◌, ◌==◌,
  ==_iff, length, take, arith, subst, Bool-cases, inl, inr,
}
use nano_fs.Types.{block_size}
use nano_fs.Path.{Str, str_eq}
use nano_fs.Path.Equal.{str_eq_refl, str_eq→≡}
use nano_fs.Directory.{Dirent, dirent_at, stops, matches, find_in}

-- The entries in use that the walk through `n` bytes of a block meets from `pos` on.
pub data Walk (buf : List ℕ) (n : ℕ) : ℕ → List Dirent → Type 0 where
  stop : (pos : ℕ) → stops (dirent_at buf pos) pos n ≡ true → Walk buf n pos []
  free :
      (pos : ℕ) (es : List Dirent)
      → stops (dirent_at buf pos) pos n ≡ false
      → (dirent_at buf pos).inum ≡ 0
      → Walk buf n (pos + (dirent_at buf pos).rec_len) es
      → Walk buf n pos es
  used :
      (pos : ℕ) (es : List Dirent)
      → stops (dirent_at buf pos) pos n ≡ false
      → (dirent_at buf pos).inum ≢ 0
      → Walk buf n (pos + (dirent_at buf pos).rec_len) es
      → Walk buf n pos (dirent_at buf pos ∷ es)

-- A walk that goes on moves by at least a byte and stays within the block.
pub advances : (de : Dirent) (pos n : ℕ) → stops de pos n ≡ false → (pos < n) × (0 < de.rec_len)
unfolding stops
advances de pos n h = (ground arith, ground arith)

pub stops_at_end : (de : Dirent) (pos n : ℕ) → n ≤ pos → stops de pos n ≡ true
unfolding stops
stops_at_end de pos n le = ground arith

-- Each walk ends, after at most as many entries as there are bytes.
pub Walk-exists :
    (rounds : ℕ) (buf : List ℕ) (n pos : ℕ)
    → n ≤ pos + rounds
    → (es : List Dirent) × Walk buf n pos es
Walk-exists zero buf n pos le = ([], stop pos (stops_at_end _ pos n (omega arith)))
Walk-exists (suc rounds) buf n pos le = elim (Bool-cases (stops (dirent_at buf pos) pos n)) [
  | inl s ↦ ([], stop pos s)
  | inr go ↦
      let a = advances _ pos n go in
      let (es, w) = Walk-exists rounds buf n (pos + (dirent_at buf pos).rec_len) (omega arith) in
      elim (Bool-cases ((dirent_at buf pos).inum == 0)) [
        | inl z ↦ (es, free pos es go ((==_iff _ 0).0 z) w)
        | inr nz ↦ (dirent_at buf pos ∷ es, used pos es go (λ e. cc) w)
      ]
]

pub length-Walk :
    {buf : List ℕ} {n pos : ℕ} {es : List Dirent} → Walk buf n pos es → length es ≤ n - pos
length-Walk (stop pos s) = omega arith
length-Walk (free pos es go z w) = let a = advances _ pos _ go in omega (arith, length-Walk w)
length-Walk (used pos es go nz w) = let a = advances _ pos _ go in omega (arith, length-Walk w)

-- The entry has the name.
abbrev pub Named : Dirent → Str → Type 0
Named de name = (de.name_len ≡ length name) × (take (length name) de.name ≡ name)

-- The number of the first entry of the list that has the name, or none.
pub data Answer (name : Str) : List Dirent → Option ℕ → Type 0 where
  nowhere : Answer name [] none
  here : (de : Dirent) (es : List Dirent) → Named de name → Answer name (de ∷ es) (some de.inum)
  later :
      (de : Dirent) (es : List Dirent) (r : Option ℕ)
      → ¬ Named de name
      → Answer name es r
      → Answer name (de ∷ es) r

matches-Named : (de : Dirent) (name : Str) → matches de name ≡ true → Named de name
unfolding matches
matches-Named de name h = (ground arith, str_eq→≡ (take (length name) de.name) name (ground arith))

Named-matches : (de : Dirent) (name : Str) → de.inum ≢ 0 → Named de name → matches de name ≡ true
unfolding matches
Named-matches de name nz n =
    let e = str_eq_refl name in
    let s : str_eq (take (length name) de.name) name ≡ true = rw n.1 e in ground arith

unnumbered : (de : Dirent) (name : Str) → de.inum ≡ 0 → matches de name ≡ false
unfolding matches
unnumbered de name z = ground arith

module _ (buf : List ℕ) (n : ℕ) where
  abbrev entry : ℕ → Dirent
  entry pos = dirent_at buf pos

  -- The walk of `dir_lookup` finds the first of the entries that has the name.
  pub find_in-Answer :
      (rounds : ℕ) (name : Str) {pos : ℕ} {es : List Dirent}
      → Walk buf n pos es
      → n ≤ pos + rounds
      → Answer name es (find_in rounds buf pos n name)
  unfolding find_in
  find_in-Answer zero name (stop pos s) le = nowhere
  find_in-Answer (suc rounds) name (stop pos s) le = rw s nowhere
  find_in-Answer zero name (free pos es go z w) le =
      let a = advances (entry pos) pos n go in absurd (omega arith)
  find_in-Answer zero name (used pos es go nz w) le =
      let a = advances (entry pos) pos n go in absurd (omega arith)
  find_in-Answer (suc rounds) name (free pos es go z w) le =
      let a = advances (entry pos) pos n go in
      rw (go, unnumbered (entry pos) name z) (find_in-Answer rounds name w (omega arith))
  find_in-Answer (suc rounds) name (used pos es go nz w) le =
      let a = advances (entry pos) pos n go in
      elim (Bool-cases (matches (entry pos) name)) [
        | inl m ↦ rw (go, m) (here (entry pos) es (matches-Named (entry pos) name m))
        | inr m ↦
            rw (go, m)
              (later (entry pos) es _ (λ nm. let t = Named-matches (entry pos) name nz nm in cc)
                (find_in-Answer rounds name w (omega arith)))
      ]

goes_on :
    (de : Dirent) (pos n : ℕ)
    → pos < n
    → 0 < de.rec_len
    → pos + de.rec_len ≤ block_size
    → stops de pos n ≡ false
unfolding stops
goes_on de pos n lt some_len fits = ground arith

-- A walk meets an entry that lies where it is, and goes on behind it.
pub Walk-entry :
    {buf : List ℕ} {n : ℕ} {es : List Dirent} (pos next : ℕ) (de : Dirent)
    → dirent_at buf pos ≡ de
    → de.inum ≢ 0
    → pos < n
    → 0 < de.rec_len
    → pos + de.rec_len ≤ block_size
    → pos + de.rec_len ≡ next
    → Walk buf n next es
    → Walk buf n pos (de ∷ es)
Walk-entry {buf = buf} {n = n} {es = es} pos next de e nz lt some_len fits to w =
    let go : stops (dirent_at buf pos) pos n ≡ false = rw e (goes_on de pos n lt some_len fits) in
    let nz' : (dirent_at buf pos).inum ≢ 0 = rw e nz in
    let w' : Walk buf n (pos + (dirent_at buf pos).rec_len) es = rw (e, to) w in
    subst (λ x. Walk buf n pos (x ∷ es)) e (used pos es go nz' w')
