-- ===== src/Liveness/Measure.antt =====
-- How far the live-out sets have grown, and how far they can.
use jerryscript_optimizer.Prelude.{
  ℕ, ◌*◌, ◌≤◌, ◌<◌, ◌≡◌, refl, true, false, List, [], ◌∷◌, ◌++◌, ◌==◌, arith, Bool-cases, inl, inr,
  length,
}
use jerryscript_optimizer.Prelude.Sets.{mem, mem-append}
use jerryscript_optimizer.Prelude.Totals
use jerryscript_optimizer.Blocks.{BlockHeap}
use jerryscript_optimizer.Liveness.Equation.{Grows}

abbrev pub total : List ℕ → BlockHeap → List ℕ → ℕ
total all h bbs = Totals.total all (λ p. (h p).live_out) bbs

pub total-le :
    (all : List ℕ) (h : BlockHeap) (bbs : List ℕ) → total all h bbs ≤ length bbs * length all
total-le all h bbs = Totals.total-le all (λ p. (h p).live_out) bbs

pub total_mono :
    (all : List ℕ) (h g : BlockHeap) (bbs : List ℕ) → Grows h g → total all h bbs ≤ total all g bbs
total_mono all h g bbs up = Totals.total_mono all (λ p. (h p).live_out) (λ p. (g p).live_out) bbs up

pub total_strict :
    (all : List ℕ) (h g : BlockHeap) (bbs : List ℕ) (b r : ℕ)
    → Grows h g
    → mem b bbs ≡ true
    → mem r all ≡ true
    → mem r (h b).live_out ≡ false
    → mem r (g b).live_out ≡ true
    → total all h bbs < total all g bbs
total_strict all h g bbs b r up mb ma old new =
    Totals.total_strict all (λ p. (h p).live_out) (λ p. (g p).live_out) bbs b r up mb ma old new

-- The exposed registers of the listed blocks.
unfoldable pub exposed : BlockHeap → List ℕ → List ℕ
exposed h [] = []
exposed h (b ∷ bbs) = (h b).ue ++ exposed h bbs

pub mem-exposed :
    (h : BlockHeap) (bbs : List ℕ) (b r : ℕ)
    → mem b bbs ≡ true
    → mem r (h b).ue ≡ true
    → mem r (exposed h bbs) ≡ true
unfolding exposed mem
mem-exposed h [] b r mb mr = cc
mem-exposed h (c ∷ bbs) b r mb mr = elim (Bool-cases (b == c)) [
  | inl e ↦ let q : c ≡ b = ground arith in rw (q, mem-append) (rw mr refl)
  | inr e ↦
      ground (arith, mem-append r (h c).ue (exposed h bbs), mem-exposed h bbs b r (ground arith) mr)
]
