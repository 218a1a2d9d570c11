-- ===== src/Dominators/Solution.antt =====
-- The iteration of `computeDominators`: its rounds and its end.
use jerryscript_optimizer.Prelude.{
  ℕ, zero, suc, ◌<◌, ◌≡◌, ◌⊎◌, refl, Bool, true, false, List, [], ◌∷◌, ◌==◌, arith, Bool-cases, inl,
  inr, ⊎_elim,
}
use jerryscript_optimizer.Prelude.Sets.{mem, subset, mem-cons, mem_nil}
use jerryscript_optimizer.Prelude.Totals.{Grows, total, total_mono}
use jerryscript_optimizer.Blocks.{BlockHeap}
use jerryscript_optimizer.Dominators.{step, done}
use jerryscript_optimizer.Dominators.Clean.{clean_round, clean_loop}
use jerryscript_optimizer.Dominators.Round.{next_set}
use jerryscript_optimizer.Dominators.Steps.{doms, IsConnected, Inv, step_result}

module _ (h0 : BlockHeap) (entry : ℕ) (bbs : List ℕ) (shape : IsConnected h0 entry bbs) where
  -- What a round that reports no change leaves true of the blocks it went through.
  abbrev pub Quiet : List ℕ → BlockHeap → Type 0
  Quiet bs h = (b : ℕ) → mem b bs ≡ true → subset (doms h b) (next_set h b) ≡ true

  record RoundEnds (bs : List ℕ) (h : BlockHeap) (c : Bool) (g : BlockHeap) (c' : Bool)
      : Type 0 where
    inv : Inv h0 entry bbs g
    less : Grows (doms g) (doms h)
    quiet : c' ≡ false → (c ≡ false) × (g ≡ h) × Quiet bs h
    loud :
        c' ≡ true
        → (c ≡ true) ⊎ (total (entry ∷ bbs) (doms g) bbs < total (entry ∷ bbs) (doms h) bbs)

  round_ends :
      (bs : List ℕ) (h : BlockHeap) (c : Bool)
      → ((b : ℕ) → mem b bs ≡ true → mem b bbs ≡ true)
      → Inv h0 entry bbs h
      → (g : BlockHeap) × (c' : Bool) × (clean_round h bs c ≡ step g c') × RoundEnds bs h c g c'
  unfolding clean_round
  round_ends [] h c w inv = (
    h,
    c,
    refl,
    record {
      inv = inv;
      less = λ p d m. m;
      quiet = λ e. (e, refl, λ b mb. cc (mem_nil b, mb));
      loud = λ e. inl e;
    },
  )
  round_ends (b ∷ bs) h c w inv =
      let mb = w b (ground (arith, mem-cons b b bs)) in
      let w' = λ (x : ℕ) (m : mem x bs ≡ true). w x (ground (arith, mem-cons x b bs)) in
      elim (step_result h0 entry bbs shape h b inv mb) [
        | inl (e, sub) ↦
            let (g, c', run, ends) = round_ends bs h c w' inv in
            (
              g,
              c',
              rw (e, clean_round) run,
              record {
                inv = ends.inv;
                less = ends.less;
                quiet = λ q.
                    let (c0, same, still) = ends.quiet q in
                    (
                      c0,
                      same,
                      λ x mx. elim (Bool-cases (x == b)) [
                        | inl s ↦ let s' : x ≡ b = ground arith in rw s' sub
                        | inr s ↦ still x (ground (arith, mem-cons x b bs))
                      ],
                    );
                loud = ends.loud;
              },
            )
        | inr (h1, e, inv1, less1, lt) ↦
            let (g, c', run, ends) = round_ends bs h1 true w' inv1 in
            let mono = total_mono (entry ∷ bbs) (doms g) (doms h1) bbs ends.less in
            (
              g,
              c',
              rw (e, clean_round) run,
              record {
                inv = ends.inv;
                less = λ p d m. less1 p d (ends.less p d m);
                quiet = λ q. let (c0, same, still) = ends.quiet q in absurd (ground arith);
                loud = λ q. inr (omega arith);
              },
            )
      ]

  -- With fuel for every entry that may still go, the loop ends where the equations hold.
  pub loop_ends :
      (fuel : ℕ) (h : BlockHeap)
      → Inv h0 entry bbs h
      → total (entry ∷ bbs) (doms h) bbs < fuel
      → (g : BlockHeap) × (clean_loop fuel h bbs ≡ done g) × Inv h0 entry bbs g × Quiet bbs g
  unfolding clean_loop
  loop_ends zero h inv lt = absurd (omega arith)
  loop_ends (suc fuel) h inv lt =
      let (g, c', run, ends) = round_ends bbs h false (λ b m. m) inv in
      elim (Bool-cases c') [
        | inl loud ↦
            let less : total (entry ∷ bbs) (doms g) bbs < total (entry ∷ bbs) (doms h) bbs =
              ⊎_elim (λ p. cc) (λ p. p) (ends.loud loud) in
            let (k, e, inv', still) = loop_ends fuel g ends.inv (omega arith) in
            (k, rw (run, clean_loop) (rw (loud, clean_loop) e), inv', still)
        | inr quiet ↦
            let (c0, same, still) = ends.quiet quiet in
            (g, rw (run, clean_loop) (rw (quiet, clean_loop) refl), ends.inv, rw same still)
      ]
