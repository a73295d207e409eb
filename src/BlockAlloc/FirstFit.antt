-- ===== src/BlockAlloc/FirstFit.antt =====
-- The first-fit search of `block_alloc_multiple` finds the first run of clear bits, and finds one
-- wherever there is one.
use native.Mathlib.Decide.{dec_lt}
use nano_fs.Prelude.{
  ℕ, zero, suc, ◌+◌, ◌≤◌, ◌<◌, ◌≡◌, ◌≢◌, refl, true, false, none, some, List, arith, ◌==◌,
  Bool-cases, inl, inr, if◌then◌else◌, leb,
}
use nano_fs.Bitmap.{bitmap_test}
use nano_fs.BlockAlloc.{find_run}

-- `count` clear bits from `s` on.
abbrev pub Run : List ℕ → ℕ → ℕ → Type 0
Run m count s = (j : ℕ) → s ≤ j → j < s + count → bitmap_test m j ≡ false

pub record FirstRun (m : List ℕ) (count limit s : ℕ) : Type 0 where
  pub inside : s + count ≤ limit
  pub run : Run m count s
  pub first : (s' : ℕ) → s' < s → ¬ Run m count s'

-- The loop's variables at `i`: the run that ends there starts at `e`, and none fits before `e`.
record Scan (m : List ℕ) (count i consecutive start e : ℕ) : Type 0 where
  short : consecutive < count
  ends : e + consecutive ≡ i
  agrees : consecutive ≢ 0 → start ≡ e
  clear : (j : ℕ) → e ≤ j → j < i → bitmap_test m j ≡ false
  before : (s' : ℕ) → s' < e → ¬ Run m count s'

module _ {m : List ℕ} {count i c start e : ℕ} (z : Scan m count i c start e) where
  Scan-start : (if c == 0 then i else start) ≡ e
  Scan-start = ground (arith, z.ends, z.agrees)

  Scan-reset : bitmap_test m i ≡ true → Scan m count (i + 1) 0 start (i + 1)
  Scan-reset used = record {
    short = omega (arith, z.short);
    ends = omega arith;
    agrees = λ ne. absurd (ne refl);
    clear = λ j p q. absurd (omega arith);
    before = λ s' p run. elim (dec_lt s' e) [
      | yes q ↦ z.before s' q run
      | no q ↦ let b = run i (omega arith) (omega (arith, z.short, z.ends)) in cc
    ];
  }

  Scan-extend :
      bitmap_test m i ≡ false
      → leb count (c + 1) ≡ false
      → Scan m count (i + 1) (c + 1) (if c == 0 then i else start) e
  Scan-extend free l = record {
    short = ground arith;
    ends = omega (arith, z.ends);
    agrees = λ ne. Scan-start;
    clear = λ j p q. elim (dec_lt j i) [
      | yes r ↦ z.clear j p r
      | no r ↦ let same : i ≡ j = omega arith in rw (← same) free
    ];
    before = z.before;
  }

  Scan-done :
      (rounds : ℕ)
      → bitmap_test m i ≡ false
      → leb count (c + 1) ≡ true
      → FirstRun m count (i + suc rounds) (if c == 0 then i else start)
  Scan-done rounds free l = rw Scan-start (record {
    inside = ground (arith, z.short, z.ends);
    run = λ j p q. elim (dec_lt j i) [
      | yes r ↦ z.clear j p r
      | no r ↦ let same : i ≡ j = ground (arith, z.short, z.ends) in rw (← same) free
    ];
    first = z.before;
  })

shift :
    {m : List ℕ} {count s : ℕ} (rounds i : ℕ)
    → FirstRun m count (i + 1 + rounds) s
    → FirstRun m count (i + suc rounds) s
shift rounds i f = record { inside = omega (arith, f.inside); run = f.run; first = f.first }

find_run-some :
    {m : List ℕ} {count : ℕ} (rounds i c start : ℕ) {e : ℕ} (s : ℕ)
    → Scan m count i c start e
    → find_run m count rounds i c start ≡ some s
    → FirstRun m count (i + rounds) s
unfolding find_run
find_run-some zero i c start s z h = cc
find_run-some {m} {count} (suc rounds) i c start s z h = elim (Bool-cases (bitmap_test m i)) [
  | inl used ↦
      shift rounds i (find_run-some rounds (i + 1) 0 start s (Scan-reset z used) (rw used at h))
  | inr free ↦ elim (Bool-cases (leb count (c + 1))) [
    | inl long ↦
        let same : (if c == 0 then i else start) ≡ s = ground arith in
        rw same at (Scan-done z rounds free long)
    | inr short ↦
        shift rounds i
          (find_run-some rounds (i + 1) (c + 1) _ s (Scan-extend z free short) (ground arith))
  ]
]

find_run-none :
    {m : List ℕ} {count : ℕ} (rounds i c start : ℕ) {e : ℕ} (s : ℕ)
    → Scan m count i c start e
    → find_run m count rounds i c start ≡ none
    → s + count ≤ i + rounds
    → ¬ Run m count s
unfolding find_run
find_run-none zero i c start s z h le run = z.before s (omega (arith, z.short, z.ends)) run
find_run-none {m} {count} (suc rounds) i c start s z h le run =
    elim (Bool-cases (bitmap_test m i)) [
      | inl used ↦
          find_run-none rounds (i + 1) 0 start s (Scan-reset z used) (rw used at h) (omega arith)
            run
      | inr free ↦ elim (Bool-cases (leb count (c + 1))) [
        | inl long ↦ ground arith
        | inr short ↦
            find_run-none rounds (i + 1) (c + 1) _ s (Scan-extend z free short) (ground arith)
              (omega arith) run
      ]
    ]

start-Scan : (m : List ℕ) (count : ℕ) → count ≢ 0 → Scan m count 0 0 0 0
start-Scan m count ne = record {
  short = omega arith;
  ends = refl;
  agrees = λ h. refl;
  clear = λ j p q. absurd (omega arith);
  before = λ s p. absurd (omega arith);
}

pub find_run-FirstRun :
    (m : List ℕ) (count limit s : ℕ)
    → count ≢ 0
    → find_run m count limit 0 0 0 ≡ some s
    → FirstRun m count limit s
find_run-FirstRun m count limit s ne h =
    let f = find_run-some limit 0 0 0 s (start-Scan m count ne) h in
    record { inside = omega (arith, f.inside); run = f.run; first = f.first }

pub find_run_complete :
    (m : List ℕ) (count limit s : ℕ)
    → count ≢ 0
    → find_run m count limit 0 0 0 ≡ none
    → s + count ≤ limit
    → ¬ Run m count s
find_run_complete m count limit s ne h le =
    find_run-none limit 0 0 0 s (start-Scan m count ne) h (omega arith)
