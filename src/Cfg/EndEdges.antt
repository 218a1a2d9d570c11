-- ===== src/Cfg/EndEdges.antt =====
-- The edges that `buildBlocks` adds.
use jerryscript_optimizer.Prelude.{
  ℕ, suc, ◌≡◌, refl, ◌∙◌, ap, Bool, true, false, ◌||◌, List, [], ◌∷◌, arith, Bool-cases, inl, inr,
  last,
}
use jerryscript_optimizer.Prelude.Times.{times_nil}
use jerryscript_optimizer.Blocks.{BlockHeap}
use jerryscript_optimizer.Edges.Counts.{leaving, add_successor_edges}
use jerryscript_optimizer.Cfg.{
  Graph, InsHeap, new_bb, place, leads, behind, ends_flow, fill_blocks, first_blocks, last_block,
}
use jerryscript_optimizer.Cfg.Shape.{IsBuilt, new_bb-IsBuilt, new_bb-edges}
use jerryscript_optimizer.Cfg.Fill.{place_blocks, place-Filled, new_bb-Filled}
use jerryscript_optimizer.Cfg.Build.{IsEmptyMemory, start, start-IsBuilt, first_blocks-Filled}
use jerryscript_optimizer.Cfg.Flow.{count}

-- Filling blocks adds no edge.
place-edges :
    (g : Graph) (bb : ℕ) (found : Bool) (i a b : ℕ)
    → leaving (place g bb found i).blocks a b ≡ leaving g.blocks a b
place-edges g bb found i a b =
    let (blocks, bbs, bb_id) = place_blocks g bb found i in ground (arith, blocks)

pub fill_blocks-edges :
    (g : Graph) (bb : ℕ) (leaders : List ℕ) (found : Bool) (is : List ℕ) (a b : ℕ)
    → IsBuilt g
    → g.bb_id ≡ suc bb
    → (leaving (fill_blocks g bb leaders found is).0.blocks a b ≡ leaving g.blocks a b)
      × IsBuilt (fill_blocks g bb leaders found is).0
      × ((fill_blocks g bb leaders found is).0.bb_id ≡ suc (fill_blocks g bb leaders found is).1)
unfolding fill_blocks
fill_blocks-edges g bb leaders found [] a b built last = (refl, built, last)
fill_blocks-edges g bb leaders found (i ∷ rest) a b built last =
    elim (Bool-cases (leads leaders i)) [
      | inl e ↦
          let g1 = new_bb false g in
          let new = new_bb-Filled false g built in
          let put = place-Filled g1 g.bb_id false i new.built new.last in
          let (same, built', last') =
            fill_blocks-edges (place g1 g.bb_id false i) g.bb_id (behind leaders)
              (false || ends_flow (g.insns i)) rest a b put.built put.last in
          rw (e, fill_blocks)
            (
              same ∙ place-edges g1 g.bb_id false i a b ∙ (new_bb-edges false g a b built).0,
              built',
              last',
            )
      | inr e ↦
          let put = place-Filled g bb found i built last in
          let (same, built', last') =
            fill_blocks-edges (place g bb found i) bb leaders (found || ends_flow (g.insns i)) rest
              a b put.built put.last in
          rw (e, fill_blocks) (same ∙ place-edges g bb found i a b, built', last')
    ]

-- The edges of the graph that `buildBlocks` returns: the first and the last.
pub built-edges :
    (h : BlockHeap) (insns : InsHeap) (ls order : List ℕ) (a b : ℕ)
    → IsEmptyMemory h
    → let filled = fill_blocks (first_blocks (start h insns)) 1 ls false order in
      ((last_block filled.0 filled.1).bb_id ≡ suc (suc filled.1))
      × (leaving (last_block filled.0 filled.1).blocks a b
          ≡ count a b ((0, 1) ∷ (filled.1, suc filled.1) ∷ []))
unfolding last_block first_blocks new_bb count
built-edges h insns ls order a b empty =
    let g0 = start h insns in
    let g1 = new_bb true g0 in
    let g2 = new_bb false g1 in
    let built0 = start-IsBuilt h insns empty in
    let built1 = new_bb-IsBuilt true g0 built0 in
    let first = first_blocks-Filled g0 built0 in
    let filled = fill_blocks (first_blocks g0) 1 ls false order in
    let nothing : leaving g0.blocks a b ≡ 0 = rw (empty.clear a).no_successors (times_nil b) in
    let one = add_successor_edges g2.blocks 0 1 a b in
    let (fill, built, last) =
      fill_blocks-edges (first_blocks g0) 1 ls false order a b first.built first.last in
    let two = add_successor_edges (new_bb true filled.0).blocks filled.1 filled.0.bb_id a b in
    let end = new_bb-edges true filled.0 a b built in
    let begin1 = new_bb-edges true g0 a b built0 in
    let begin2 = new_bb-edges false g1 a b built1 in
    let sum : leaving (last_block filled.0 filled.1).blocks a b
        ≡ count a b ((0, 1) ∷ (filled.1, filled.0.bb_id) ∷ []) =
      omega (arith, nothing, one.0, fill, two.0, end.0, begin1.0, begin2.0) in
    (ap suc last, sum ∙ ap (λ n. count a b ((0, 1) ∷ (filled.1, n) ∷ [])) last)
