-- ===== src/Cfg/Split.antt =====
-- src/basic-block.cpp, `split`: the instructions from an offset on go to another block, and with them
-- the edges that leave the first. What is said of it excludes the block as its own target.
pub mod Doubles
use jerryscript_optimizer.Prelude.{
  ℕ, zero, suc, ◌+◌, ◌*◌, ◌<◌, ◌≡◌, ◌≢◌, refl, ◌∙◌, sym, ap, Bool, true, false, not, ◌&&◌, ◌||◌,
  Option, none, some, List, [], ◌∷◌, ◌++◌, ◌==◌, leb, if◌then◌else◌, arith, length, and_then,
  Bool-cases, inl, inr,
}
use mathlib.Core.Path.{fun_ext}
use mathlib.Core.List.{append_assoc, append-nil}
use jerryscript_optimizer.Prelude.Sets.{mem, keep}
use jerryscript_optimizer.Prelude.Times.{times}
use jerryscript_optimizer.Blocks.{BasicBlock, BlockHeap, update}
use jerryscript_optimizer.Edges.{
  bridge, remove_all_successors, add_successor, add_predecessor, is_empty,
}
use jerryscript_optimizer.Edges.Counts.{
  leaving, entering, bare, bare-add_successor, bare-add_predecessor, add_successor_edges,
  add_predecessor_edges,
}
use jerryscript_optimizer.Edges.Removal.{IsGraph, Detached, remove_all_successors_ends}
use jerryscript_optimizer.Edges.Bridge.{
  Bridged, bridge-Bridged, add_successor-IsGraph, add_predecessor-IsGraph,
}
use jerryscript_optimizer.Cfg.{Graph, InsHeap, add_ins}

-- The first loop, and `copied_anything`.
pub move_insts : Graph → ℕ → ℕ → List ℕ → Graph × Bool
move_insts g into offset [] = (g, false)
move_insts g into offset (i ∷ rest) =
    let late = leb offset (g.insns i).offset in
    let moved = move_insts (if late then add_ins g into i else g) into offset rest in
    (moved.0, late || moved.1)

-- The second `if`.
pub relink : ℕ → BlockHeap → ℕ → ℕ → Option BlockHeap
relink fuel h from into =
    and_then (remove_all_successors fuel (bridge h into (h from).successors) from)
      (λ h'. some (add_successor (add_predecessor h' into from) from into))

-- The block that is split keeps its earlier instructions.
pub cut : Graph → ℕ → (ℕ → Bool) → Graph
cut g from late = record g {
  blocks =
      update g.blocks from
        (record (g.blocks from) { insts = keep (λ i. not (late i)) (g.blocks from).insts });
}

pub split : ℕ → Graph → ℕ → ℕ → ℕ → Option Graph
split fuel g from into offset =
    let moved = move_insts g into offset (g.blocks from).insts in
    let g' = cut moved.0 from (λ i. leb offset (moved.0.insns i).offset) in
    if moved.1
    then and_then (relink fuel g'.blocks from into) (λ h. some (record g' { blocks = h }))
    else some g'
