-- ===== src/Edges/Examples.antt =====
-- The theorems on src/basic-block.cpp at a block without instructions between two others.
use jerryscript_optimizer.Prelude.{
  ℕ, ◌*◌, ◌+◌, ◌≡◌, refl, true, false, none, some, [], ◌∷◌, ◌==◌, if◌then◌else◌, arith,
}
use jerryscript_optimizer.Prelude.Times.{times_nil, times-cons}
use jerryscript_optimizer.Blocks.{BlockHeap}
use jerryscript_optimizer.Prelude.Sets.{mem}
use jerryscript_optimizer.Edges.{remove, remove_empty}
use jerryscript_optimizer.Edges.Counts.{leaving, bare}
use jerryscript_optimizer.Edges.Removal.{IsGraph, Detached, remove_ends}
use jerryscript_optimizer.Edges.Bridge.{remove_empty_doubles}

-- Block 0 goes to block 1, and that to block 2.
abbrev line : BlockHeap
line p = record {
  id = p;
  invalid = false;
  found = false;
  insts = [];
  predecessors = if p == 1 then 0 ∷ [] else if p == 2 then 1 ∷ [] else [];
  successors = if p == 0 then 1 ∷ [] else if p == 1 then 2 ∷ [] else [];
  idom = none;
  dominators = [];
  ue = [];
  kill = [];
  live_out = [];
}

line-IsGraph : IsGraph line
line-IsGraph = record {
  ids = λ p. refl;
  symmetric = λ a b. ground (
    arith,
    times_nil a,
    times_nil b,
    times-cons a 0 [],
    times-cons a 1 [],
    times-cons b 1 [],
    times-cons b 2 [],
  );
}

remove_ends_example : (g : BlockHeap) × (remove 2 line 1 ≡ some g) × Detached true true line 1 g
remove_ends_example = remove_ends 2 line 1 line-IsGraph (omega arith) (omega arith)

unlisted : (p x : ℕ) → (p == x) ≡ false → mem p (x ∷ []) ≡ false
unfolding mem
unlisted p x e = ground arith

remove_empty_doubles_example :
    (g : BlockHeap) × (remove_empty 2 line 1 ≡ some g)
    × IsGraph g
    × ((p : ℕ) → bare (g p) ≡ bare (line p))
    × ((a b : ℕ)
        → leaving g a b ≡ (
            if a == 1
            then 0
            else if b == 1
            then 0
            else leaving line a b + 2 * (leaving line a 1 * leaving line 1 b)))
remove_empty_doubles_example =
    remove_empty_doubles 2 line 1 line-IsGraph refl (unlisted 1 0 refl) (unlisted 1 2 refl)
      (omega arith) (omega arith)
