-- ===== src/Dominators/Immediate/Examples.antt =====
-- The theorems on immediate dominators at a diamond, where block 0 goes to 1 and 2,
-- which both go to 3, and at a chain.
use jerryscript_optimizer.Prelude.{
  ℕ, ◌≡◌, refl, true, false, none, some, ◌≢◌, inl, inr, List, [], ◌∷◌, ◌==◌, if◌then◌else◌, arith,
}
use jerryscript_optimizer.Prelude.Sets.{mem, IsNodup}
use jerryscript_optimizer.Prelude.Count.{All-mem}
use jerryscript_optimizer.Blocks.{BlockHeap}
use jerryscript_optimizer.Dominators.{dominated_by, undefined, compute_dominators}
use jerryscript_optimizer.Dominators.Walked.{HasJoin, compute_dominators_correct}
use jerryscript_optimizer.Dominators.Steps.{Walk, here, onward, IsConnected}
use jerryscript_optimizer.Dominators.Immediate.{closest, run}
use jerryscript_optimizer.Dominators.Immediate.Closest.{AreApart, closest_endless}
use jerryscript_optimizer.Dominators.Immediate.Analysis.{IsImmediate, run-IsImmediate}

abbrev diamond : BlockHeap
diamond p = record {
  id = p;
  invalid = false;
  found = true;
  insts = [];
  predecessors = if p == 0 then [] else if p == 3 then 1 ∷ 2 ∷ [] else 0 ∷ [];
  successors = [];
  idom = none;
  dominators = p ∷ [];
  ue = [];
  kill = [];
  live_out = [];
}

-- Block 0 goes to 1, and that to 2.
abbrev chain : BlockHeap
chain p = record (diamond p) {
  predecessors = if p == 0 then [] else if p == 1 then 0 ∷ [] else 1 ∷ [];
}

abbrev later_blocks : List ℕ
later_blocks = 1 ∷ 2 ∷ []

chain-IsConnected : IsConnected chain 0 later_blocks
unfolding mem
chain-IsConnected = record {
  apart = refl;
  entered = λ b mb e. ground arith;
  closed = λ b p mb mp. ground arith;
}

chain-IsNodup : IsNodup (0 ∷ later_blocks)
unfolding mem
chain-IsNodup = (refl, (refl, (refl, tt)))

to_one : Walk chain 0 1
unfolding mem
to_one = onward 0 here refl

chain_reached : (n : ℕ) → mem n later_blocks ≡ true → Walk chain 0 n
unfolding mem
chain_reached n m = All-mem (Walk chain 0) later_blocks n (to_one, (onward 1 to_one refl, tt)) m

no_join : HasJoin chain later_blocks → ⊥
unfolding mem
no_join (b, mb, (first, p, rest, e)) = ground arith

chain_walks : compute_dominators 7 chain 0 later_blocks ≢ undefined
chain_walks bad =
    elim (compute_dominators_correct chain 0 later_blocks 7 chain-IsConnected (omega arith)) [
      | inl (g, run, exact) ↦ cc (run, bad)
      | inr (stop, join) ↦ no_join join
    ]

run-IsImmediate_example :
    (k : BlockHeap) × (run 7 3 chain 0 later_blocks ≡ some k)
    × ((n : ℕ) → mem n later_blocks ≡ true → IsImmediate chain 0 later_blocks n (k n).idom)
run-IsImmediate_example =
    run-IsImmediate 7 3 chain 0 later_blocks chain-IsConnected chain-IsNodup chain_reached
      (omega arith) (omega arith) chain_walks

branches-AreApart : AreApart diamond (1 ∷ 2 ∷ [])
unfolding dominated_by mem
branches-AreApart = (((refl, refl), tt), (tt, tt))

closest_endless_example : closest 7 diamond (1 ∷ 2 ∷ []) ≡ none
closest_endless_example = closest_endless 7 diamond (1 ∷ 2 ∷ []) branches-AreApart (λ e. cc)
