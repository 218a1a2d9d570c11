-- ===== src/Dominators/Immediate/Closest.antt =====
-- The search of `computeImmDominator` for the closest of several dominators.
use jerryscript_optimizer.Prelude.{
  ℕ, zero, suc, ◌≤◌, ◌≡◌, ◌≢◌, ◌⊎◌, refl, sym, true, false, not, none, some, List, [], ◌∷◌, ◌==◌,
  arith, length, Bool-cases, inl, inr, ⊎_elim, All, Pairs,
}
use jerryscript_optimizer.Prelude.Sets.{mem, mem-keep, mem-cons, mem_nil, IsNodup}
use jerryscript_optimizer.Prelude.Times.{length-keep-lt}
use jerryscript_optimizer.Blocks.{BlockHeap}
use jerryscript_optimizer.Dominators.{dominated_by}
use jerryscript_optimizer.Dominators.Kept.{keep-IsNodup}
use jerryscript_optimizer.Dominators.Immediate.{erase, farther_of, farther, closest}

-- Of two listed blocks one dominates the other, and domination passes on.
pub record IsLine (h : BlockHeap) (doms : List ℕ) : Type 0 where
  pub total :
      (i j : ℕ)
      → mem i doms ≡ true
      → mem j doms ≡ true
      → (dominated_by h i j ≡ true) ⊎ (dominated_by h j i ≡ true)
  pub passes :
      (i j k : ℕ)
      → mem i doms ≡ true
      → mem j doms ≡ true
      → mem k doms ≡ true
      → dominated_by h i j ≡ true
      → dominated_by h j k ≡ true
      → dominated_by h i k ≡ true

pub mem-erase : (x y : ℕ) (xs : List ℕ) → mem y (erase x xs) ≡ true → mem y xs ≡ true
mem-erase x y xs m = ground (arith, mem-keep (λ d. not (d == x)) y xs)

pub erase-mem : (x y : ℕ) (xs : List ℕ) → mem y xs ≡ true → y ≢ x → mem y (erase x xs) ≡ true
erase-mem x y xs m ne = ground (arith, mem-keep (λ d. not (d == x)) y xs)

IsLine-erase : (h : BlockHeap) (x : ℕ) (xs : List ℕ) → IsLine h xs → IsLine h (erase x xs)
IsLine-erase h x xs l =
    let up = λ (y : ℕ). λ (m : mem y (erase x xs) ≡ true). mem-erase x y xs m in
    record {
      total = λ i j mi mj. l.total i j (up i mi) (up j mj);
      passes = λ i j k mi mj mk. l.passes i j k (up i mi) (up j mj) (up k mk);
    }

-- In a line of two blocks or more, the first pair already makes one of the two go.
farther_lem :
    (h : BlockHeap) (i j : ℕ) (rest : List ℕ)
    → IsNodup (i ∷ j ∷ rest)
    → IsLine h (i ∷ j ∷ rest)
    → (x : ℕ) × (y : ℕ) × (farther h (i ∷ j ∷ rest) ≡ some x)
      × (mem x (i ∷ j ∷ rest) ≡ true)
      × (mem y (i ∷ j ∷ rest) ≡ true)
      × (y ≢ x)
      × (dominated_by h y x ≡ true)
unfolding farther farther_of
farther_lem h i j rest nd l =
    let mi : mem i (i ∷ j ∷ rest) ≡ true = ground (arith, mem-cons i i (j ∷ rest)) in
    let mj : mem j (i ∷ j ∷ rest) ≡ true =
      ground (arith, mem-cons j i (j ∷ rest), mem-cons j j rest) in
    let ne : i ≢ j = λ e. ground (arith, mem-cons i j rest, nd.0) in
    elim (Bool-cases (dominated_by h i j)) [
      | inl e ↦ (j, i, rw e refl, mj, mi, ne, e)
      | inr e ↦
          let back : dominated_by h j i ≡ true = ⊎_elim (λ b. cc) (λ b. b) (l.total i j mi mj) in
          (i, j, rw (e, back) refl, mi, mj, λ q. ne (sym q), back)
    ]

pub mem_not_empty : (x : ℕ) (xs : List ℕ) → mem x xs ≡ true → xs ≢ []
mem_not_empty x xs m e = cc (mem_nil x)

-- In a line, the search ends, with a round for each block, at the block that all the others
-- dominate.
pub closest_ends :
    (fuel : ℕ) (h : BlockHeap) (doms : List ℕ)
    → doms ≢ []
    → IsNodup doms
    → IsLine h doms
    → length doms ≤ fuel
    → (d : ℕ) × (closest fuel h doms ≡ some d)
      × (mem d doms ≡ true)
      × ((e : ℕ) → mem e doms ≡ true → (e ≡ d) ⊎ (dominated_by h d e ≡ true))
unfolding closest farther farther_of
closest_ends fuel h [] ne nd l le = absurd (ne refl)
closest_ends zero h (i ∷ doms) ne nd l le = absurd (omega arith)
closest_ends (suc fuel) h (i ∷ []) ne nd l le = (
  i,
  refl,
  ground (arith, mem-cons i i []),
  λ e m. inl (ground (arith, mem-cons e i [], mem_nil e)),
)
closest_ends (suc fuel) h (i ∷ j ∷ rest) ne nd l le =
    let (x, y, found, mx, my, other, above) = farther_lem h i j rest nd l in
    let doms = i ∷ j ∷ rest in
    let left = erase-mem x y doms my other in
    let shorter = length-keep-lt (λ d. not (d == x)) x doms (ground arith) mx in
    let (d, run, md, all) =
      closest_ends fuel h (erase x doms) (mem_not_empty y (erase x doms) left)
        (keep-IsNodup (λ d. not (d == x)) doms nd) (IsLine-erase h x doms l)
        (omega (arith, shorter, le)) in
    (
      d,
      rw (found, closest) run,
      mem-erase x d doms md,
      λ e me. elim (Bool-cases (e == x)) [
        | inl s ↦
            let same : e ≡ x = ground arith in
            inr (
              rw same (
                ⊎_elim (λ yd. rw (← yd) above)
                  (λ dy. l.passes d y x (mem-erase x d doms md) my mx dy above) (all y left)))
        | inr s ↦ all e (erase-mem x e doms me (ground arith))
      ],
    )

-- No two of the blocks are comparable.
abbrev pub AreApart : BlockHeap → List ℕ → Type 0
AreApart h doms = Pairs (λ i j. (dominated_by h i j ≡ false) × (dominated_by h j i ≡ false)) doms

farther_of_none :
    (h : BlockHeap) (i : ℕ) (js : List ℕ)
    → All (λ j. (dominated_by h i j ≡ false) × (dominated_by h j i ≡ false)) js
    → farther_of h i js ≡ none
unfolding farther_of
farther_of_none h i [] apart = refl
farther_of_none h i (j ∷ js) ((e, f), apart) = rw (e, f) (farther_of_none h i js apart)

farther_none : (h : BlockHeap) (doms : List ℕ) → AreApart h doms → farther h doms ≡ none
unfolding farther
farther_none h [] apart = refl
farther_none h (i ∷ is) apart = rw (farther_of_none h i is apart.0) (farther_none h is apart.1)

-- Without a block, or with several of which no two are comparable, the search does not end,
-- whatever the number of its rounds.
pub closest_endless :
    (fuel : ℕ) (h : BlockHeap) (doms : List ℕ)
    → AreApart h doms
    → length doms ≢ 1
    → closest fuel h doms ≡ none
unfolding closest
closest_endless zero h doms apart ne = refl
closest_endless (suc fuel) h doms apart ne =
    let more : (length doms == 1) ≡ false = ground (arith, ne) in
    rw (farther_none h doms apart, closest) (rw more (closest_endless fuel h doms apart ne))
