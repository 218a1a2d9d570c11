-- ===== src/Pipeline.antt =====
-- The passes one after another: src/control-flow-analysis.cpp on the instructions that
-- src/bytecode.cpp builds, and on its graph src/liveness-analysis.cpp.
pub mod Passes
mod Examples
use mathlib.Core.Path.{subst}
use jerryscript_optimizer.Prelude.{
  ℕ, ◌^◌, ◌*◌, ◌<◌, ◌≤◌, ◌≡◌, ◌↔◌, refl, sym, ◌∙◌, ap, Bool, true, false, some, List, [], ◌∷◌, ◌==◌,
  ltb, arith, map, length, Bool-cases, inl, inr,
}
use jerryscript_optimizer.Prelude.Sets.{mem, mem_nil}
use jerryscript_optimizer.Prelude.Times.{times, times_nil, mem-times}
use jerryscript_optimizer.Inst.{Ins}
use jerryscript_optimizer.Blocks.{BlockHeap}
use jerryscript_optimizer.Bytecode.{BytecodeArguments}
use jerryscript_optimizer.Bytecode.Arguments.{IsOrdered}
use jerryscript_optimizer.Edges.Counts.{leaving, entering}
use jerryscript_optimizer.Cfg.{Graph, InsHeap, run}
use jerryscript_optimizer.Cfg.Leaders.{HasOffsets, JumpsInside, Ascending}
use jerryscript_optimizer.Cfg.Shape.{below, mem-below, below-mem, IsBuilt}
use jerryscript_optimizer.Cfg.Build.{IsEmptyMemory}
use jerryscript_optimizer.Cfg.Flow.{IsFlow}
use jerryscript_optimizer.Cfg.Run.{IsCfg, run_correct}
use jerryscript_optimizer.Liveness.{compute_kill_ue, compute_live_outs}
use jerryscript_optimizer.Liveness.KillUe.{
  exposed_by, killed_by, compute_kill_ue_correct, compute_kill_ue-keeps,
}
use jerryscript_optimizer.Liveness.Rounds.{LiveOut, own, flow}
use jerryscript_optimizer.Liveness.Measure.{exposed}
use jerryscript_optimizer.Liveness.Correct.{IsFresh, IsClosed, compute_live_outs_correct}
use jerryscript_optimizer.Stream.{Tables, Unset, Built, build_instructions}
use jerryscript_optimizer.Stream.Memory.{at_offset, offsets}
use jerryscript_optimizer.Stream.Graph.{HasTargets, built-IsCode}

-- Every edge leads to a listed block.
built-IsClosed : (g : Graph) → IsBuilt g → IsClosed g.blocks g.bbs
built-IsClosed g built b s mb ms = elim (Bool-cases (ltb s g.bb_id)) [
  | inl e ↦ ap (mem s) built.listed ∙ below-mem s g.bb_id (ground arith)
  | inr e ↦
      let clear = built.above s (ground arith) in
      let none_in : entering g.blocks b s ≡ 0 = ap (times b) clear.no_predecessors ∙ times_nil b in
      absurd (ground (arith, built.graph.symmetric b s, mem-times s (g.blocks b).successors))
]

-- The instructions of a graph, in the order of the code.
abbrev pub code : Graph → List ℕ → List Ins
code g order = map g.insns order

-- `computeKillUe` on the graph.
abbrev pub with_sets : Graph → List ℕ → BlockHeap
with_sets g order = compute_kill_ue g.blocks (code g order)

-- What the analysis takes for live at the end of a block, in terms of the edges and of the
-- instructions: what a block with a successor reads before it writes it, and what is live at the end
-- of a successor no instruction of which writes it.
pub data Live (g : Graph) (order : List ℕ) (r : ℕ) : ℕ → Type 0 where
  reads_first :
      {p : ℕ} (s : ℕ)
      → mem s (g.blocks p).successors ≡ true
      → exposed_by p (code g order) r ≡ true
      → Live g order r p
  passes :
      {p : ℕ} (s : ℕ)
      → mem s (g.blocks p).successors ≡ true
      → killed_by s (code g order) r ≡ false
      → Live g order r s
      → Live g order r p

module _ (g : Graph) (order : List ℕ) (built : IsBuilt g) where
  same_edges : (p s : ℕ) → mem s (with_sets g order p).successors ≡ mem s (g.blocks p).successors
  same_edges p s = ap (mem s) (compute_kill_ue-keeps g.blocks (code g order) p).0

  sets_of :
      (p r : ℕ)
      → (mem r (with_sets g order p).ue ≡ exposed_by p (code g order) r)
        × (mem r (with_sets g order p).kill ≡ killed_by p (code g order) r)
  sets_of p r =
      let (live, ue, kill) = built.fresh p in
      compute_kill_ue_correct g.blocks (code g order) p ue kill r

  with_sets-IsFresh : IsFresh (with_sets g order)
  with_sets-IsFresh p = (compute_kill_ue-keeps g.blocks (code g order) p).1 ∙ (built.fresh p).0

  with_sets-IsClosed : IsClosed (with_sets g order) g.bbs
  with_sets-IsClosed b s mb ms = built-IsClosed g built b s mb (sym (same_edges b s) ∙ ms)

  to-Live : (r : ℕ) {p : ℕ} → LiveOut (with_sets g order) r p → Live g order r p
  to-Live r {p} (own s ms mr) = reads_first s (sym (same_edges p s) ∙ ms) (sym (sets_of p r).0 ∙ mr)
  to-Live r {p} (flow s ms mk live) =
      passes s (sym (same_edges p s) ∙ ms) (sym (sets_of s r).1 ∙ mk) (to-Live r live)

  from-Live : (r : ℕ) {p : ℕ} → Live g order r p → LiveOut (with_sets g order) r p
  from-Live r {p} (reads_first s ms mr) = own s (same_edges p s ∙ ms) ((sets_of p r).0 ∙ mr)
  from-Live r {p} (passes s ms mk live) =
      flow s (same_edges p s ∙ ms) ((sets_of s r).1 ∙ mk) (from-Live r live)

-- On code as the control flow analysis takes it, with fuel for every pair of a block and a register
-- that is read, `computeKillUe` and `computeLiveOuts` on the graph that the analysis returns give the
-- registers that are live at the end of each block, by the edges and the instructions of the graph
-- that the code asks for.
pub run-compute_live_outs :
    (h : BlockHeap) (insns : InsHeap) (first : ℕ) (rest : List ℕ) (g : Graph) (fuel : ℕ)
    → IsEmptyMemory h
    → HasOffsets insns
    → Ascending (first ∷ rest)
    → JumpsInside insns (first ∷ rest) rest
    → ((i : ℕ) → mem i (first ∷ rest) ≡ true → IsFlow insns (first ∷ rest) i)
    → run h insns (first ∷ rest) ≡ some g
    → length g.bbs * length (exposed (with_sets g (first ∷ rest)) g.bbs) < fuel
    → IsCfg insns first rest g
      × ((k : BlockHeap) × (compute_live_outs fuel (with_sets g (first ∷ rest)) g.bbs ≡ some k)
          × ((b r : ℕ)
              → mem b g.bbs ≡ true
              → (mem r (k b).live_out ≡ true) ↔ Live g (first ∷ rest) r b))
run-compute_live_outs h insns first rest g fuel empty off up inside all_flow ran enough =
    let order = first ∷ rest in
    let (g', ran', cfg') = run_correct h insns first rest empty off up inside all_flow in
    let same : g' ≡ g = cc in
    let cfg = subst (IsCfg insns first rest) same cfg' in
    let (k, done, shape, exact) =
      compute_live_outs_correct (with_sets g order) g.bbs fuel (with_sets-IsFresh g order cfg.built)
        (with_sets-IsClosed g order cfg.built) enough in
    (
      cfg,
      (
        k,
        done,
        λ b r mb.
            let both = exact b r mb in
            (
              λ m. to-Live g order cfg.built r (both.0 m),
              λ l. both.1 (from-Live g order cfg.built r l),
            ),
      ),
    )

-- From the bytes: where the ends are in order, the memory of a new instruction holds 0 at its size
-- and the code is smaller than 2 ^ 32 bytes, from an empty memory of blocks and the instructions that
-- `buildInstructions` builds, if each jump goes to an instruction, no conditional jump stands last
-- and each `try` ends at a `catch` with an instruction in front, then on the graph that `run` returns,
-- with fuel for every pair of a block and a register that is read, `computeKillUe` and
-- `computeLiveOuts` give for each block the registers that the equation of the code makes live: those
-- that the block itself reads before it writes them, if it has a successor, and those that its
-- successors pass on.
pub build_instructions-compute_live_outs :
    (t : Tables) (args : BytecodeArguments) (unset : ℕ → Unset) (code : List ℕ) (h : BlockHeap)
    (i : Ins) (rest : List Ins) (g : Graph) (fuel : ℕ)
    → IsOrdered args
    → ((n : ℕ) → (unset n).size ≡ 0)
    → length code < 2 ^ 32
    → build_instructions t args unset code ≡ Built.built (i ∷ rest)
    → ((x : ℕ)
        → mem x (offsets (i ∷ rest)) ≡ true
        → HasTargets (at_offset unset (i ∷ rest)) (offsets (i ∷ rest)) x)
    → IsEmptyMemory h
    → run h (at_offset unset (i ∷ rest)) (offsets (i ∷ rest)) ≡ some g
    → length g.bbs * length (exposed (with_sets g (offsets (i ∷ rest))) g.bbs) < fuel
    → IsCfg (at_offset unset (i ∷ rest)) i.offset (offsets rest) g
      × ((k : BlockHeap) × (compute_live_outs fuel (with_sets g (offsets (i ∷ rest))) g.bbs
            ≡ some k)
          × ((b r : ℕ)
              → mem b g.bbs ≡ true
              → (mem r (k b).live_out ≡ true) ↔ Live g (offsets (i ∷ rest)) r b))
build_instructions-compute_live_outs t args unset bytes h i rest g fuel o clean small e targets
      empty ran enough =
    let c = built-IsCode t args unset bytes o clean small i rest e targets in
    run-compute_live_outs h (at_offset unset (i ∷ rest)) i.offset (offsets rest) g fuel empty
      c.stands c.ascends c.inside c.flows ran enough
