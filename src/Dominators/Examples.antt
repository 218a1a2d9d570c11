-- ===== src/Dominators/Examples.antt =====
-- The theorems on `computeDominators` at a diamond: block 0 goes to 1 and 2, which both go to 3.
use jerryscript_optimizer.Prelude.{
  ℕ, ◌≡◌, ◌⊎◌, refl, true, false, none, List, [], ◌∷◌, ◌==◌, if◌then◌else◌, arith,
}
use jerryscript_optimizer.Prelude.Sets.{mem}
use jerryscript_optimizer.Blocks.{BlockHeap}
use jerryscript_optimizer.Dominators.{done, undefined, compute_dominators}
use jerryscript_optimizer.Dominators.Steps.{onward, here, Visits, Dominates, IsConnected}
use jerryscript_optimizer.Dominators.Walked.{
  IsExact, HasJoin, compute_dominators_correct, compute_dominators_undefined,
}
use jerryscript_optimizer.Dominators.Chain.{ends_there}

abbrev edges_into : ℕ → List ℕ
edges_into p = if p == 0 then [] else if p == 3 then 1 ∷ 2 ∷ [] else 0 ∷ []

abbrev diamond : BlockHeap
diamond p = record {
  id = p;
  invalid = false;
  found = true;
  insts = [];
  predecessors = edges_into p;
  successors = [];
  idom = none;
  dominators = [];
  ue = [];
  kill = [];
  live_out = [];
}

abbrev inner_blocks : List ℕ
inner_blocks = 1 ∷ 2 ∷ 3 ∷ []

diamond-IsConnected : IsConnected diamond 0 inner_blocks
unfolding mem
diamond-IsConnected = record {
  apart = refl;
  entered = λ b mb e. ground arith;
  closed = λ b p mb mp. ground arith;
}

compute_dominators_correct_example :
    ((g : BlockHeap) × (compute_dominators 13 diamond 0 inner_blocks ≡ done g)
      × IsExact diamond 0 inner_blocks g)
    ⊎ ((compute_dominators 13 diamond 0 inner_blocks ≡ undefined) × HasJoin diamond inner_blocks)
compute_dominators_correct_example =
    compute_dominators_correct diamond 0 inner_blocks 13 diamond-IsConnected (omega arith)

-- The way to 2 does not pass 1.
not_by_one : Dominates diamond 0 1 2 → ⊥
unfolding Visits mem
not_by_one all = ground (arith, all (onward 0 here refl))

by_itself : Dominates diamond 0 1 1
unfolding Visits
by_itself w = ends_there diamond 0 w

listed : mem 1 (0 ∷ inner_blocks) ≡ true
unfolding mem
listed = refl

join_listed : mem 3 inner_blocks ≡ true
unfolding mem
join_listed = refl

second_branch : mem 2 (2 ∷ []) ≡ true
unfolding mem
second_branch = refl

compute_dominators_undefined_example : compute_dominators 13 diamond 0 inner_blocks ≡ undefined
compute_dominators_undefined_example =
    compute_dominators_undefined diamond 0 inner_blocks 13 diamond-IsConnected (omega arith) 3 1 2 1
      (2 ∷ []) join_listed refl second_branch listed by_itself not_by_one
