-- ===== src/Pipeline/Passes.antt =====
-- `LivenessAnalysis::run` of src/liveness-analysis.cpp and `RegallocLinearScan::run` of
-- src/regalloc-linear-scan.cpp, one after the other: the ranges of the first are what the second
-- allocates. `done` holds the passes that have finished; the outer `none` is a failed assertion, a
-- lack of fuel or undefined behaviour.
use jerryscript_optimizer.Prelude.{
  ℕ, ◌+◌, ◌-◌, ◌*◌, ◌%◌, ◌^◌, ◌<◌, ◌≡◌, ◌⊎◌, inl, inr, refl, true, Option, none, some, List, [],
  ◌==◌, leb, Bool-cases, and_then, map, length, All, Pairs, arith, if◌then◌else◌,
}
use jerryscript_optimizer.Inst.{Ins}
use jerryscript_optimizer.Blocks.{BlockHeap}
use jerryscript_optimizer.Bytecode.{BytecodeArguments, move_reg_index}
use jerryscript_optimizer.Bytecode.Arguments.{minus}
use jerryscript_optimizer.Cfg.{Graph, InsHeap}
use jerryscript_optimizer.Cfg.Shape.{IsBuilt}
use jerryscript_optimizer.Liveness.{compute_kill_ue, compute_live_outs}
use jerryscript_optimizer.Liveness.Measure.{exposed}
use jerryscript_optimizer.Liveness.Correct.{compute_live_outs_correct}
use jerryscript_optimizer.LiveRanges.{Ranges, build_live_ranges}
use jerryscript_optimizer.LiveRanges.Chain.{AreChains, AreChains-nil, build_live_ranges-AreChains}
use jerryscript_optimizer.Optimizer.{PassKind, is_succeeded}
use jerryscript_optimizer.Regalloc.{RegLiveInterval, sort_intervals, compute_register_mapping}
use jerryscript_optimizer.Regalloc.Mapping.{
  SameIntervals, NoClash, FitsIn, compute_register_mapping_correct,
}
use jerryscript_optimizer.Regalloc.Update.{update_instructions, rename_all, move_literals}
use jerryscript_optimizer.Pipeline.{code, with_sets, with_sets-IsFresh, with_sets-IsClosed}

-- `LivenessAnalysis::run` on the blocks, the memory of instructions and their order: the blocks with
-- their sets, and the ranges, of which a function has none before.
pub liveness_run :
    ℕ → ℕ → BytecodeArguments → BlockHeap → List ℕ → InsHeap → List ℕ → Option (BlockHeap × Ranges)
liveness_run done fuel args h bbs insns order =
    let sets = compute_live_outs fuel (compute_kill_ue h (map insns order)) bbs in
    if is_succeeded done PassKind.dominator_analysis
    then if args.register_end == 0
      then some (h, [])
      else and_then sets (λ k.
        some (k, build_live_ranges args.argument_end [] (map (λ bb. map insns (h bb).insts) bbs)))
    else none

-- `RegallocLinearScan::run` on the ranges: the argument block and the instructions behind it.
pub regalloc_run : ℕ → Ranges → BytecodeArguments → List Ins → Option (BytecodeArguments × List Ins)
regalloc_run done ranges args insns =
    let mapping = compute_register_mapping args.register_end (sort_intervals ranges) in
    if is_succeeded done PassKind.liveness_analysis
    then if args.register_end == 0
      then some (args, insns)
      else and_then mapping
          (λ (ivs, count). some (update_instructions args.register_end count ivs args insns))
    else none

-- Registers were saved: of any two intervals that overlap and are not empty the new registers differ,
-- each lies below the new count, and the ends and the literals go down by the number saved.
pub record IsSaved (ranges : Ranges) (args args' : BytecodeArguments) (insns insns' : List Ins)
    : Type 0 where
  pub out : List RegLiveInterval
  pub count : ℕ
  pub fewer : count < args.register_end
  pub same : SameIntervals (sort_intervals ranges) out
  pub apart : Pairs NoClash out
  pub within : All (FitsIn count) out
  pub ends : args' ≡ move_reg_index args (minus (args.register_end - count))
  pub renamed :
      insns'
      ≡ map
          (λ ins. move_literals args (minus (args.register_end - count)) (rename_all out ins))
          insns

regalloc_run-ends :
    (done : ℕ) (ranges : Ranges) (args : BytecodeArguments) (insns : List Ins)
    → is_succeeded done PassKind.liveness_analysis ≡ true
    → args.register_end < 2 ^ 16
    → (args' : BytecodeArguments) × (insns' : List Ins) × (regalloc_run done ranges args insns
        ≡ some (args', insns'))
      × (((args' ≡ args) × (insns' ≡ insns)) ⊎ IsSaved ranges args args' insns insns')
unfolding regalloc_run update_instructions
regalloc_run-ends done ranges args insns ok small = elim (Bool-cases (args.register_end == 0)) [
  | inl e ↦ (args, insns, rw (ok, e) refl, inl (refl, refl))
  | inr e ↦
      let (out, count, run, same, le, good) =
        compute_register_mapping_correct args.register_end ranges in
      elim (Bool-cases (leb args.register_end count)) [
        | inl full ↦ (args, insns, rw (ok, e, run, full) refl, inl (refl, refl))
        | inr saved ↦
            let fewer : count < args.register_end = ground arith in
            let offset : (count + 2 ^ 32 - args.register_end) % 2 ^ 32
                ≡ 2 ^ 32 - (args.register_end - count) =
              omega arith in
            (
              _,
              _,
              rw (ok, e, run, saved, offset) refl,
              inr (record {
                out = out;
                count = count;
                fewer = fewer;
                same = same;
                apart = (good fewer).0;
                within = (good fewer).1;
                ends = refl;
                renamed = refl;
              }),
            )
      ]
]

-- On a graph as the control flow analysis builds it, where the pass before each has succeeded, the
-- function has fewer than 2 ^ 16 registers and the fuel covers every pair of a block and a register
-- that is read, both passes return: the intervals of each register form a chain, and either the
-- function stays as it is or registers are saved.
pub liveness_run-regalloc_run :
    (g : Graph) (order : List ℕ) (built : IsBuilt g) (done done' fuel : ℕ)
    (args : BytecodeArguments)
    → is_succeeded done PassKind.dominator_analysis ≡ true
    → is_succeeded done' PassKind.liveness_analysis ≡ true
    → args.register_end < 2 ^ 16
    → length g.bbs * length (exposed (with_sets g order) g.bbs) < fuel
    → (k : BlockHeap) × (ranges : Ranges) × (args' : BytecodeArguments) × (insns' : List Ins)
      × (liveness_run done fuel args g.blocks g.bbs g.insns order ≡ some (k, ranges))
      × AreChains ranges
      × (regalloc_run done' ranges args (code g order) ≡ some (args', insns'))
      × (((args' ≡ args) × (insns' ≡ code g order))
          ⊎ IsSaved ranges args args' (code g order) insns')
unfolding liveness_run
liveness_run-regalloc_run g order built done done' fuel args ok ok' small enough =
    elim (Bool-cases (args.register_end == 0)) [
      | inl e ↦
          let (args', insns', run, good) =
            regalloc_run-ends done' [] args (code g order) ok' small in
          (g.blocks, [], args', insns', rw (ok, e) refl, AreChains-nil, run, good)
      | inr e ↦
          let (k, sets, shape, exact) =
            compute_live_outs_correct (with_sets g order) g.bbs fuel
              (with_sets-IsFresh g order built) (with_sets-IsClosed g order built) enough in
          let ranges =
            build_live_ranges args.argument_end []
              (map (λ bb. map g.insns (g.blocks bb).insts) g.bbs) in
          let (args', insns', run, good) =
            regalloc_run-ends done' ranges args (code g order) ok' small in
          (
            k,
            ranges,
            args',
            insns',
            rw (ok, e, sets) refl,
            build_live_ranges-AreChains args.argument_end _,
            run,
            good,
          )
    ]
