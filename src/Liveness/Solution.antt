-- ===== src/Liveness/Solution.antt =====
-- `computeLiveOuts` ends, and with the least solution of its equations.
use jerryscript_optimizer.Prelude.{
  ℕ, zero, suc, ◌+◌, ◌*◌, ◌<◌, ◌≡◌, refl, Bool, true, false, List, [], ◌∷◌, ◌==◌, arith, Bool-cases,
  if◌then◌else◌, inl, inr, ◌⊎◌, ⊎_elim, length, some,
}
use jerryscript_optimizer.Prelude.Sets.{mem, IsNodup}
use jerryscript_optimizer.Blocks.{BlockHeap}
use jerryscript_optimizer.Liveness.{
  sets_equal, next_live_out, compute_live_out, live_out_round, compute_live_outs,
}
use jerryscript_optimizer.Liveness.SetsEqual.{sets_equal_iff, new_member}
use jerryscript_optimizer.Liveness.Equation.{
  next_live_out-IsNodup, SameShape, Grows, next_live_out_mono,
}
use jerryscript_optimizer.Liveness.Rounds.{
  SameShape-trans, SameShape-sym, Inv, compute_live_out_self, compute_live_out_ne, compute-Grows,
  compute-Inv,
}
use jerryscript_optimizer.Liveness.Measure.{total, total-le, total_mono, total_strict}

-- The flag after one block.
abbrev flag : BlockHeap → ℕ → Bool → Bool
flag h b c = if sets_equal (h b).live_out (compute_live_out h b b).live_out then c else true

module _ (h0 : BlockHeap) (whole all : List ℕ)
    (covers : (b r : ℕ) → mem b whole ≡ true → mem r (h0 b).ue ≡ true → mem r all ≡ true) where
  abbrev Within : List ℕ → Type 0
  Within bbs = (b : ℕ) → mem b bbs ≡ true → mem b whole ≡ true

  head_in : (b : ℕ) (bbs : List ℕ) → Within (b ∷ bbs) → mem b whole ≡ true
  unfolding mem
  head_in b bbs w = w b (ground arith)

  tail_in : (b : ℕ) (bbs : List ℕ) → Within (b ∷ bbs) → Within bbs
  unfolding mem
  tail_in b bbs w c m = w c (ground arith)

  step-Inv :
      (h : BlockHeap) (b : ℕ)
      → mem b whole ≡ true
      → Inv h0 all h
      → Inv h0 all (compute_live_out h b)
  step-Inv h b mb inv = compute-Inv h0 all h inv b (λ r m. covers b r mb m)

  step_quiet :
      (h : BlockHeap) (b : ℕ)
      → Inv h0 all h
      → sets_equal (h b).live_out (compute_live_out h b b).live_out ≡ true
      → Grows (compute_live_out h b) h
  step_quiet h b inv e p r m = elim (Bool-cases (p == b)) [
    | inl same ↦
        let q : p ≡ b = ground arith in
        let n : IsNodup (compute_live_out h b b).live_out =
          rw (compute_live_out_self h b) (next_live_out-IsNodup h b) in
        let agree = (sets_equal_iff (h b).live_out _ (inv.nodup b) n).0 e r in
        let m' : mem r (compute_live_out h b b).live_out ≡ true = rw q at m in rw (q, agree) m'
    | inr other ↦ rw (compute_live_out_ne h b p other) at m
  ]

  step_loud :
      (h : BlockHeap) (b : ℕ)
      → mem b whole ≡ true
      → Inv h0 all h
      → sets_equal (h b).live_out (compute_live_out h b b).live_out ≡ false
      → total all h whole < total all (compute_live_out h b) whole
  step_loud h b mb inv e =
      let n : IsNodup (compute_live_out h b b).live_out =
        rw (compute_live_out_self h b) (next_live_out-IsNodup h b) in
      let up = compute-Grows h0 all h inv b in
      let (r, new, old) = new_member (h b).live_out _ (inv.nodup b) n (up b) e in
      let after = step-Inv h b mb inv in
      total_strict all h (compute_live_out h b) whole b r up mb (after.bounded b r new) old new

  round-Inv :
      (bbs : List ℕ) (h : BlockHeap) (c : Bool)
      → Within bbs
      → Inv h0 all h
      → Inv h0 all (live_out_round h bbs c).0 × Grows h (live_out_round h bbs c).0
  unfolding live_out_round
  round-Inv [] h c w inv = (inv, λ p r m. m)
  round-Inv (b ∷ bbs) h c w inv =
      let (inv', up) =
        round-Inv bbs (compute_live_out h b) (flag h b c) (tail_in b bbs w)
          (step-Inv h b (head_in b bbs w) inv) in
      (inv', λ p r m. up p r (compute-Grows h0 all h inv b p r m))

  -- A round that reports no change has changed no set, and every listed block has its equation.
  round_quiet :
      (bbs : List ℕ) (h : BlockHeap) (c : Bool)
      → Within bbs
      → Inv h0 all h
      → (live_out_round h bbs c).1 ≡ false
      → (c ≡ false)
        × Grows (live_out_round h bbs c).0 h
        × ((b r : ℕ)
            → mem b bbs ≡ true
            → mem r (next_live_out (live_out_round h bbs c).0 b) ≡ true
            → mem r ((live_out_round h bbs c).0 b).live_out ≡ true)
  unfolding live_out_round mem
  round_quiet [] h c w inv e = (e, λ p r m. m, λ b r mb. cc)
  round_quiet (b ∷ bbs) h c w inv e =
      let inv1 = step-Inv h b (head_in b bbs w) inv in
      let (c', down, closed) =
        round_quiet bbs (compute_live_out h b) (flag h b c) (tail_in b bbs w) inv1 e in
      let (inv2, up) = round-Inv bbs (compute_live_out h b) (flag h b c) (tail_in b bbs w) inv1 in
      let eq : sets_equal (h b).live_out (compute_live_out h b b).live_out ≡ true = ground arith in
      let back = step_quiet h b inv eq in
      let h2 = (live_out_round (compute_live_out h b) bbs (flag h b c)).0 in
      let same : (p : ℕ) → SameShape h2 h p =
        λ p. SameShape-trans h2 _ h p (SameShape-sym _ h2 p (inv2.shape p)) (inv.shape p) in
      let down2 : Grows h2 h = λ p r m. back p r (down p r m) in
      (
        ground arith,
        down2,
        λ d r md m. elim (Bool-cases (d == b)) [
          | inl e2 ↦
              let q : d ≡ b = ground arith in
              let m1 : mem r (next_live_out h2 b) ≡ true = rw q at m in
              let m2 = next_live_out_mono h2 h same down2 b r m1 in
              let m3 : mem r (compute_live_out h b b).live_out ≡ true =
                rw (compute_live_out_self h b) m2 in
              rw q (up b r m3)
          | inr e2 ↦ closed d r (ground arith) m
        ],
      )

  round_loud :
      (bbs : List ℕ) (h : BlockHeap) (c : Bool)
      → Within bbs
      → Inv h0 all h
      → (live_out_round h bbs c).1 ≡ true
      → (c ≡ true) ⊎ (total all h whole < total all (live_out_round h bbs c).0 whole)
  unfolding live_out_round
  round_loud [] h c w inv e = inl e
  round_loud (b ∷ bbs) h c w inv e =
      let inv1 = step-Inv h b (head_in b bbs w) inv in
      let (inv2, up) = round-Inv bbs (compute_live_out h b) (flag h b c) (tail_in b bbs w) inv1 in
      let first = total_mono all h (compute_live_out h b) whole (compute-Grows h0 all h inv b) in
      let later =
        total_mono all (compute_live_out h b)
          (live_out_round (compute_live_out h b) bbs (flag h b c)).0 whole up in
      elim (Bool-cases (sets_equal (h b).live_out (compute_live_out h b b).live_out)) [
        | inl same ↦
            ⊎_elim (λ p. inl (rw same at p)) (λ p. inr (omega arith))
              (round_loud bbs (compute_live_out h b) (flag h b c) (tail_in b bbs w) inv1 e)
        | inr diff ↦ let grown = step_loud h b (head_in b bbs w) inv diff in inr (omega arith)
      ]

  -- With fuel for every register that may still come in, the loop ends where all equations hold.
  pub loop_ends :
      (fuel : ℕ) (h : BlockHeap)
      → Inv h0 all h
      → length whole * length all < fuel + total all h whole
      → (g : BlockHeap) × (compute_live_outs fuel h whole ≡ some g)
        × Inv h0 all g
        × ((b r : ℕ)
            → mem b whole ≡ true
            → mem r (next_live_out g b) ≡ true
            → mem r (g b).live_out ≡ true)
  unfolding compute_live_outs
  loop_ends zero h inv lt = absurd (omega (arith, total-le all h whole))
  loop_ends (suc fuel) h inv lt =
      let next = (live_out_round h whole false).0 in
      let (inv', up) = round-Inv whole h false (λ b m. m) inv in
      elim (Bool-cases (live_out_round h whole false).1) [
        | inl loud ↦
            let grown : total all h whole < total all next whole =
              ⊎_elim (λ p. cc) (λ p. p) (round_loud whole h false (λ b m. m) inv loud) in
            let (g, e, after, closed) = loop_ends fuel next inv' (omega arith) in
            (g, rw loud e, after, closed)
        | inr quiet ↦
            let (c, down, closed) = round_quiet whole h false (λ b m. m) inv quiet in
            (next, rw quiet refl, inv', closed)
      ]
