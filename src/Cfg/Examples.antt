-- ===== src/Cfg/Examples.antt =====
-- The theorems on src/control-flow-analysis.cpp at a function with a loop.
use jerryscript_optimizer.Prelude.{
  not, false, leb, if◌then◌else◌, arith, ℕ, ◌≡◌, refl, Option, none, some, List, [], ◌∷◌, ◌==◌,
  ◌||◌, map,
}
use jerryscript_optimizer.Prelude.Sets.{mem, insert, keep}
use jerryscript_optimizer.Prelude.Times.{times_nil, times-cons}
use jerryscript_optimizer.Edges.{is_empty}
use jerryscript_optimizer.Edges.Counts.{leaving}
use jerryscript_optimizer.Edges.Removal.{IsGraph}
use jerryscript_optimizer.Cfg.Split.{split}
use jerryscript_optimizer.Cfg.Split.Doubles.{relinked, split_doubles}
use jerryscript_optimizer.Edges.{add_successor}
use jerryscript_optimizer.Cfg.{
  fresh_block, Graph, run, find_leaders, collect_leaders, ins_leaders, jump_leaders, sort_offsets,
  insert_offset, build_blocks, fill_blocks, first_blocks, last_block, new_bb, place, add_ins,
  connect_blocks, connect_block, connect_at, connect_jump, connect_branch, connect_next, first_jump,
  ends_flow,
}
use jerryscript_optimizer.Cfg.Leaders.{Ascending, marked, find_leaders_correct}
use jerryscript_optimizer.Cfg.Sample.{
  no_blocks, loop_code, loop_rest, loop_code-HasOffsets, loop_code-JumpsInside,
}

-- The edges that leave the blocks 0 to 4, and the instructions of these.
picture : Option Graph → List (List ℕ × List ℕ)
picture none = []
picture (some g) = map (λ p. ((g.blocks p).insts, (g.blocks p).successors)) (0 ∷ 1 ∷ 2 ∷ 3 ∷ 4 ∷ [])

loop_picture :
    picture (run no_blocks loop_code (0 ∷ loop_rest))
    ≡ ([], 1 ∷ [])
      ∷ (0 ∷ 2 ∷ [], 2 ∷ 3 ∷ [])
      ∷ (4 ∷ 5 ∷ [], 1 ∷ [])
      ∷ (6 ∷ [], 4 ∷ [])
      ∷ ([], [])
      ∷ []
unfolding picture run find_leaders collect_leaders ins_leaders jump_leaders sort_offsets
    insert_offset build_blocks fill_blocks first_blocks last_block new_bb place add_ins
    connect_blocks connect_block connect_at connect_jump connect_branch connect_next first_jump
    add_successor mem insert ends_flow
loop_picture = refl

find_leaders_correct_example :
    (l : List ℕ) × (find_leaders loop_code (0 ∷ loop_rest) ≡ some l)
    × Ascending l
    × ((x : ℕ) → mem x l ≡ (x == 0 || marked loop_code loop_rest x))
find_leaders_correct_example =
    find_leaders_correct loop_code 0 loop_rest loop_code-HasOffsets loop_code-JumpsInside

-- Block 0 holds the instructions at 0 and 2 and goes to block 1.
abbrev two_blocks : Graph
two_blocks = record {
  blocks = λ p. record (fresh_block p false) {
    insts = if p == 0 then 0 ∷ 2 ∷ [] else [];
    predecessors = if p == 1 then 0 ∷ [] else [];
    successors = if p == 0 then 1 ∷ [] else [];
  };
  insns = loop_code;
  bbs = 0 ∷ 1 ∷ 2 ∷ [];
  bb_id = 3;
}

two_blocks-IsGraph : IsGraph two_blocks.blocks
two_blocks-IsGraph = record {
  ids = λ p. refl;
  symmetric = λ a b. ground (arith, times_nil a, times_nil b, times-cons a 0 [], times-cons b 1 []);
}

no_loop : mem 0 (1 ∷ []) ≡ false
unfolding mem
no_loop = refl

split_doubles_example :
    (k : Graph) × (split 2 two_blocks 0 2 2 ≡ some k)
    × IsGraph k.blocks
    × ((k.blocks 0).insts ≡ keep (λ i. not (leb 2 i)) (0 ∷ 2 ∷ []))
    × ((k.blocks 2).insts ≡ keep (λ i. leb 2 i) (0 ∷ 2 ∷ []))
    × ((i : ℕ) → (k.insns i).bb ≡ (if mem i (keep (λ j. leb 2 j) (0 ∷ 2 ∷ [])) then 2 else 0))
    × ((a b : ℕ)
        → leaving k.blocks a b ≡ (
            if is_empty (keep (λ i. leb 2 i) (0 ∷ 2 ∷ []))
            then leaving two_blocks.blocks a b
            else relinked two_blocks.blocks 0 2 a b))
split_doubles_example =
    split_doubles 2 two_blocks 0 2 2 two_blocks-IsGraph (λ e. omega arith) no_loop (omega arith)
