-- ===== src/Prelude/Totals.antt =====
-- A family of sets, measured by how many entries of a fixed list they hold together.
use Prim.Native.Nat.{ℕ, ◌+◌, ◌*◌, ◌≤◌, ◌<◌}
use mathlib.Core.Path.{◌≡◌}
use mathlib.Core.Logic.{inl, inr}
use mathlib.Core.Bool.{true, false}
use mathlib.Core.List.{List, [], ◌∷◌}
use native.Mathlib.Omega.{arith}
use jerryscript_optimizer.Prelude.Tests.{◌==◌, if◌then◌else◌, Bool-cases}
use jerryscript_optimizer.Prelude.Lists.{length}
use jerryscript_optimizer.Prelude.Sets.{mem}

-- Each set of the first family lies in that of the second.
abbrev pub Grows : (ℕ → List ℕ) → (ℕ → List ℕ) → Type 0
Grows h g = (p r : ℕ) → mem r (h p) ≡ true → mem r (g p) ≡ true

-- How many entries of `all` a set holds.
hits : List ℕ → List ℕ → ℕ
hits [] s = 0
hits (a ∷ all) s = (if mem a s then 1 else 0) + hits all s

hits-le-length : (all s : List ℕ) → hits all s ≤ length all
unfolding hits
hits-le-length [] s = omega arith
hits-le-length (a ∷ all) s = ground (arith, hits-le-length all s)

hits_mono :
    (all s t : List ℕ) → ((r : ℕ) → mem r s ≡ true → mem r t ≡ true) → hits all s ≤ hits all t
unfolding hits
hits_mono [] s t up = omega arith
hits_mono (a ∷ all) s t up = ground (arith, hits_mono all s t up, up a)

hits_strict :
    (all s t : List ℕ) (r : ℕ)
    → ((r : ℕ) → mem r s ≡ true → mem r t ≡ true)
    → mem r all ≡ true
    → mem r s ≡ false
    → mem r t ≡ true
    → hits all s < hits all t
unfolding hits mem
hits_strict [] s t r up ma ms mt = cc
hits_strict (a ∷ all) s t r up ma ms mt = elim (Bool-cases (r == a)) [
  | inl e ↦ let q : a ≡ r = ground arith in ground (arith, hits_mono all s t up)
  | inr e ↦ ground (arith, hits_strict all s t r up (ground arith) ms mt, up a)
]

-- The entries of `all` in the sets of the listed blocks, together.
pub total : List ℕ → (ℕ → List ℕ) → List ℕ → ℕ
total all h [] = 0
total all h (b ∷ bbs) = hits all (h b) + total all h bbs

pub total-le :
    (all : List ℕ) (h : ℕ → List ℕ) (bbs : List ℕ) → total all h bbs ≤ length bbs * length all
unfolding total
total-le all h [] = omega arith
total-le all h (b ∷ bbs) = omega (arith, hits-le-length all (h b), total-le all h bbs)

pub total_mono :
    (all : List ℕ) (h g : ℕ → List ℕ) (bbs : List ℕ) → Grows h g → total all h bbs ≤ total all g bbs
unfolding total
total_mono all h g [] up = omega arith
total_mono all h g (b ∷ bbs) up =
    omega (arith, hits_mono all (h b) (g b) (up b), total_mono all h g bbs up)

pub total_strict :
    (all : List ℕ) (h g : ℕ → List ℕ) (bbs : List ℕ) (b r : ℕ)
    → Grows h g
    → mem b bbs ≡ true
    → mem r all ≡ true
    → mem r (h b) ≡ false
    → mem r (g b) ≡ true
    → total all h bbs < total all g bbs
unfolding total mem
total_strict all h g [] b r up mb ma old new = cc
total_strict all h g (c ∷ bbs) b r up mb ma old new = elim (Bool-cases (b == c)) [
  | inl e ↦
      let q : c ≡ b = ground arith in
      rw q
        (omega (arith, hits_strict all (h b) (g b) r (up b) ma old new, total_mono all h g bbs up))
  | inr e ↦ omega (
    arith,
    hits_mono all (h c) (g c) (up c),
    total_strict all h g bbs b r up (ground arith) ma old new,
  )
]
