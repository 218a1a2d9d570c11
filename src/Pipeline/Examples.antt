-- ===== src/Pipeline/Examples.antt =====
-- The theorem on the two passes at functions with a loop.
use jerryscript_optimizer.Prelude.{
  ℕ, suc, ◌*◌, ◌≡◌, ◌↔◌, true, ◌⊎◌, some, List, [], ◌∷◌, refl, length, arith,
}
use jerryscript_optimizer.Prelude.Sets.{mem}
use jerryscript_optimizer.Blocks.{BlockHeap}
use jerryscript_optimizer.Cfg.{Graph}
use jerryscript_optimizer.Cfg.Run.{IsCfg, run_correct}
use jerryscript_optimizer.Cfg.Sample.{
  no_blocks, no_blocks-IsEmptyMemory, loop_code, loop_rest, loop_code-HasOffsets,
  loop_code-Ascending, loop_code-JumpsInside, loop-IsFlow,
}
use jerryscript_optimizer.Liveness.{compute_live_outs}
use jerryscript_optimizer.Liveness.Measure.{exposed}
use jerryscript_optimizer.Inst.{Ins}
use jerryscript_optimizer.Bytecode.{BytecodeArguments}
use jerryscript_optimizer.Cfg.Shape.{IsBuilt}
use jerryscript_optimizer.LiveRanges.{Ranges}
use jerryscript_optimizer.LiveRanges.Chain.{AreChains}
use jerryscript_optimizer.Optimizer.{PassKind, value, is_succeeded}
use jerryscript_optimizer.Pipeline.Passes.{
  liveness_run, regalloc_run, IsSaved, liveness_run-regalloc_run,
}
use jerryscript_optimizer.Pipeline.{code, with_sets, Live, build_instructions-compute_live_outs}
use jerryscript_optimizer.Stream.Memory.{at_offset, offsets}
use jerryscript_optimizer.Stream.Graph.{built-run}
use jerryscript_optimizer.Stream.Sample.{
  no_memory, sample_tables, sample_ends, sample_ends-IsOrdered, sample_code, sample_first,
  sample_rest, sample_insns, sample_code-Built, sample-HasTargets,
}

abbrev loop_graph : Graph
loop_graph =
    (run_correct no_blocks loop_code 0 loop_rest no_blocks-IsEmptyMemory loop_code-HasOffsets
      loop_code-Ascending loop_code-JumpsInside loop-IsFlow).0

abbrev loop_fuel : ℕ
loop_fuel =
    suc (
      length loop_graph.bbs
      * length (exposed (with_sets loop_graph (0 ∷ loop_rest)) loop_graph.bbs))

abbrev bytes_graph : Graph
bytes_graph =
    (built-run sample_tables sample_ends no_memory sample_code sample_ends-IsOrdered (λ n. refl)
      (omega arith) no_blocks sample_first sample_rest no_blocks-IsEmptyMemory sample_code-Built
      sample-HasTargets).0

abbrev bytes_fuel : ℕ
bytes_fuel = suc (
    length bytes_graph.bbs
    * length (exposed (with_sets bytes_graph (offsets sample_insns)) bytes_graph.bbs))

build_instructions-compute_live_outs_example :
    IsCfg (at_offset no_memory sample_insns) 0 (3 ∷ 5 ∷ []) bytes_graph
    × ((k : BlockHeap) × (compute_live_outs bytes_fuel
            (with_sets bytes_graph (offsets sample_insns))
            bytes_graph.bbs
          ≡ some k)
        × ((b r : ℕ)
            → mem b bytes_graph.bbs ≡ true
            → (mem r (k b).live_out ≡ true) ↔ Live bytes_graph (offsets sample_insns) r b))
build_instructions-compute_live_outs_example =
    build_instructions-compute_live_outs sample_tables sample_ends no_memory sample_code no_blocks
      sample_first sample_rest bytes_graph bytes_fuel sample_ends-IsOrdered (λ n. refl)
      (omega arith) sample_code-Built sample-HasTargets no_blocks-IsEmptyMemory
      (built-run sample_tables sample_ends no_memory sample_code sample_ends-IsOrdered (λ n. refl)
        (omega arith) no_blocks sample_first sample_rest no_blocks-IsEmptyMemory sample_code-Built
        sample-HasTargets).1
      (omega arith)

abbrev two_registers : BytecodeArguments
two_registers = record {
  argument_end = 0;
  register_end = 2;
  ident_end = 2;
  const_literal_end = 2;
  literal_end = 2;
  encoding_limit = 255;
  encoding_delta = 0xfe01;
  one_byte_limit = 254;
  stack_limit = 1;
  realm_value = 0;
  size = 6;
}

loop_graph-IsBuilt : IsBuilt loop_graph
loop_graph-IsBuilt =
    (run_correct no_blocks loop_code 0 loop_rest no_blocks-IsEmptyMemory loop_code-HasOffsets
      loop_code-Ascending loop_code-JumpsInside loop-IsFlow).2.built

-- 3 stands for the control flow and the dominator analysis.
dominators_done : is_succeeded 3 PassKind.dominator_analysis ≡ true
unfolding is_succeeded value
dominators_done = refl

liveness_done : is_succeeded 3 PassKind.liveness_analysis ≡ true
unfolding is_succeeded value
liveness_done = refl

liveness_run-regalloc_run_example :
    (k : BlockHeap) × (ranges : Ranges) × (args' : BytecodeArguments) × (insns' : List Ins)
    × (liveness_run 3 loop_fuel two_registers loop_graph.blocks loop_graph.bbs loop_graph.insns
          (0 ∷ loop_rest)
        ≡ some (k, ranges))
    × AreChains ranges
    × (regalloc_run 3 ranges two_registers (code loop_graph (0 ∷ loop_rest)) ≡ some (args', insns'))
    × (((args' ≡ two_registers) × (insns' ≡ code loop_graph (0 ∷ loop_rest)))
        ⊎ IsSaved ranges two_registers args' (code loop_graph (0 ∷ loop_rest)) insns')
liveness_run-regalloc_run_example =
    liveness_run-regalloc_run loop_graph (0 ∷ loop_rest) loop_graph-IsBuilt 3 3 loop_fuel
      two_registers dominators_done liveness_done (omega arith) (omega arith)
