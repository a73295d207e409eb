-- ===== src/Mkfs/Fills.antt =====
-- What a step of mkfs writes: the blocks of a region.
use nano_fs.Prelude.{
  ℕ, zero, suc, ◌+◌, ◌≤◌, ◌<◌, ◌^◌, ◌≡◌, ◌⊎◌, refl, sym, ◌∙◌, inl, inr, Result, ok, err, Errno, eio,
  u32, arith,
}
use nano_fs.Os.{Block}
use nano_fs.BlockIo.{BlockIo}
use nano_fs.Inode.{zeros}
use nano_fs.Mkfs.{Step, next_if, and_then, write_block, fill_from, sync_ignored}

module _ (io : BlockIo) where
  open io use {Dev, IsGood, contents}

  -- The blocks from `lo` to below `hi` are those of `f`, if the step succeeds; no other block changes.
  pub record Fills (f : ℕ → Block) (lo hi : ℕ) (dev : Dev) (out : Result Errno (Unit {0}) × Dev)
      : Type 0 where
    pub good : IsGood out.1
    pub others : (q : ℕ) → (q < lo) ⊎ (hi ≤ q) → contents out.1 q ≡ contents dev q
    pub filled : out.0 ≡ ok tt → (q : ℕ) → lo ≤ q → q < hi → contents out.1 q ≡ f q

  module _ (f : ℕ → Block) (lo mid hi : ℕ) (le : lo ≤ mid) (le' : mid ≤ hi) where
    Fills-next_if :
        (r : Result Errno (Unit {0})) (next : Step io) (dev dev' : Dev)
        → Fills f lo mid dev (r, dev')
        → ((d : Dev) → IsGood d → Fills f mid hi d (next d))
        → Fills f lo hi dev (next_if io r next dev')
    unfolding next_if
    Fills-next_if (err e) next dev dev' s n = record {
      good = s.good;
      others = λ q away. s.others q (ground arith);
      filled = λ h. cc;
    }
    Fills-next_if (ok u) next dev dev' s n =
        let t = n dev' s.good in
        record {
          good = t.good;
          others = λ q away. t.others q (ground arith) ∙ s.others q (ground arith);
          filled = λ h q ge lt. elim (below q) [
            | inl b ↦ t.others q (inl b) ∙ s.filled refl q ge b
            | inr a ↦ t.filled h q a lt
          ];
        }
      where
        below : (q : ℕ) → (q < mid) ⊎ (mid ≤ q)
        below q = ground arith

    pub Fills-and_then :
        (step next : Step io) (dev : Dev)
        → Fills f lo mid dev (step dev)
        → ((d : Dev) → IsGood d → Fills f mid hi d (next d))
        → Fills f lo hi dev (and_then io step next dev)
    unfolding and_then
    Fills-and_then step next dev s n = Fills-next_if (step dev).0 next dev (step dev).1 s n

  write_block-ok :
      (r : Result Errno (Unit {0}))
      → ◌≡◌ {A = Result Errno (Unit {0})} (elim r [ ok u ↦ ok u | err e ↦ err eio ]) (ok tt)
      → r ≡ ok tt
  write_block-ok (ok u) e = refl
  write_block-ok (err x) e = cc

  pub Fills-write_block :
      (f : ℕ → Block) (lo : ℕ) (content : Block) (dev : Dev)
      → IsGood dev
      → f lo ≡ content
      → Fills f lo (lo + 1) dev (write_block io lo content dev)
  unfolding write_block
  Fills-write_block f lo content dev g e = record {
    good = io.write_good lo content dev g;
    others = λ q away. io.write_contents lo q content dev g (ground arith);
    filled = λ h q ge lt.
        let same : lo ≡ q = omega arith in
        rw (← same) (io.write_data lo content dev g (write_block-ok _ h) ∙ sym e);
  }

  Fills-empty :
      (f : ℕ → Block) (lo hi : ℕ) (dev : Dev)
      → IsGood dev
      → hi ≤ lo
      → Fills f lo hi dev (ok tt, dev)
  Fills-empty f lo hi dev g le = record {
    good = g;
    others = λ q away. refl;
    filled = λ h q ge lt. absurd (omega arith);
  }

  pub Fills-fill_from :
      (f : ℕ → Block) (rounds start i lo hi : ℕ) (content : Block) (dev : Dev)
      → IsGood dev
      → lo ≡ start + i
      → hi ≡ lo + rounds
      → hi ≤ 2 ^ 22
      → (0 < rounds → f lo ≡ content)
      → ((q : ℕ) → lo < q → q < hi → f q ≡ zeros)
      → Fills f lo hi dev (fill_from io rounds start i content dev)
  unfolding fill_from
  Fills-fill_from f zero start i lo hi content dev g e e' small first rest =
      Fills-empty f lo hi dev g (omega arith)
  Fills-fill_from f (suc rounds) start i lo hi content dev g e e' small first rest =
      let place : u32 (start + i) ≡ lo = omega arith in
      rw place (
        Fills-and_then f lo (lo + 1) hi (omega arith) (omega arith) (write_block io lo content)
          (fill_from io rounds start (i + 1) zeros) dev
          (Fills-write_block f lo content dev g (first (omega arith)))
          (λ d g'.
            Fills-fill_from f rounds start (i + 1) (lo + 1) hi zeros d g' (omega arith)
              (omega arith) small (λ pos. rest (lo + 1) (omega arith) (omega arith))
              (λ q gt lt. rest q (omega arith) lt)))

  pub Fills-sync_ignored :
      (f : ℕ → Block) (lo : ℕ) (dev : Dev) → IsGood dev → Fills f lo lo dev (sync_ignored io dev)
  unfolding sync_ignored
  Fills-sync_ignored f lo dev g = record {
    good = io.sync_good dev g;
    others = λ q away. io.sync_contents q dev g;
    filled = λ h q ge lt. absurd (omega arith);
  }

  -- A region that is filled with the blocks of `g`, and then its first block again.
  module _ (f g : ℕ → Block) (lo hi : ℕ) (content : Block) (lt : lo < hi) (first : f lo ≡ content)
      (rest : (q : ℕ) → lo < q → q < hi → f q ≡ g q) where
    Fills-first_again :
        (r : Result Errno (Unit {0})) (dev dev' : Dev)
        → Fills g lo hi dev (r, dev')
        → Fills f lo hi dev (next_if io r (write_block io lo content) dev')
    unfolding next_if
    Fills-first_again (err e) dev dev' s = record {
      good = s.good;
      others = s.others;
      filled = λ h. cc;
    }
    Fills-first_again (ok u) dev dev' s =
        let t = Fills-write_block f lo content dev' s.good first in
        record {
          good = t.good;
          others = λ q away. t.others q (ground arith) ∙ s.others q away;
          filled = λ h q ge below. elim (at_first q ge) [
            | inl e ↦ rw (← e) (t.filled h lo (omega arith) (omega arith))
            | inr gt ↦
                t.others q (ground arith) ∙ (s.filled refl q ge below ∙ sym (rest q gt below))
          ];
        }
      where
        at_first : (q : ℕ) → lo ≤ q → (lo ≡ q) ⊎ (lo < q)
        at_first q ge = ground arith

    pub Fills-overwrite :
        (step : Step io) (dev : Dev)
        → Fills g lo hi dev (step dev)
        → Fills f lo hi dev (and_then io step (write_block io lo content) dev)
    unfolding and_then
    Fills-overwrite step dev s = Fills-first_again (step dev).0 dev (step dev).1 s
