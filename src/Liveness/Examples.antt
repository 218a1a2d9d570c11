-- ===== src/Liveness/Examples.antt =====
-- The theorems on src/liveness-analysis.cpp at two blocks that jump to each other, the second of
-- which reads register 5 and writes it afterwards.
use jerryscript_optimizer.Prelude.{
  ℕ, ◌<◌, ◌*◌, ◌≡◌, ◌↔◌, refl, true, false, none, some, [], ◌∷◌, ◌==◌, length, if◌then◌else◌, arith,
}
use jerryscript_optimizer.Prelude.Sets.{mem, mem_nil}
use jerryscript_optimizer.Inst.{Ins, no_flags, OperandType}
use jerryscript_optimizer.Blocks.{BlockHeap}
use jerryscript_optimizer.Liveness.{compute_live_outs, compute_kill_ue}
use jerryscript_optimizer.Liveness.Equation.{SameShape}
use jerryscript_optimizer.Liveness.Rounds.{LiveOut}
use jerryscript_optimizer.Liveness.Measure.{exposed}
use jerryscript_optimizer.Liveness.Correct.{
  IsFresh, IsClosed, Needed, compute_live_outs_correct, compute_live_outs_misses,
}
use jerryscript_optimizer.Liveness.KillUe.{compute_kill_ue_correct, exposed_by, killed_by}

abbrev two_blocks : BlockHeap
two_blocks p = record {
  id = p;
  invalid = false;
  found = true;
  insts = [];
  predecessors = if p == 0 then 1 ∷ [] else 0 ∷ [];
  successors = if p == 0 then 1 ∷ [] else 0 ∷ [];
  idom = none;
  dominators = [];
  ue = if p == 0 then [] else 5 ∷ [];
  kill = if p == 0 then [] else 5 ∷ [];
  live_out = [];
}

two_blocks-IsFresh : IsFresh two_blocks
two_blocks-IsFresh p = refl

two_blocks-IsClosed : IsClosed two_blocks (0 ∷ 1 ∷ [])
unfolding mem
two_blocks-IsClosed b s mb ms = ground arith

two_blocks-fuel : 2 * length (exposed two_blocks (0 ∷ 1 ∷ [])) < 3
unfolding exposed
two_blocks-fuel = omega arith

compute_live_outs_correct_example :
    (g : BlockHeap) × (compute_live_outs 3 two_blocks (0 ∷ 1 ∷ []) ≡ some g)
    × ((p : ℕ) → SameShape two_blocks g p)
    × ((b r : ℕ)
        → mem b (0 ∷ 1 ∷ []) ≡ true
        → (mem r (g b).live_out ≡ true) ↔ LiveOut two_blocks r b)
compute_live_outs_correct_example =
    compute_live_outs_correct two_blocks (0 ∷ 1 ∷ []) 3 two_blocks-IsFresh two_blocks-IsClosed
      two_blocks-fuel

fives : mem 5 (5 ∷ []) ≡ true
unfolding mem
fives = refl

listed : mem 0 (0 ∷ 1 ∷ []) ≡ true
unfolding mem
listed = refl

next_listed : mem 1 (1 ∷ []) ≡ true
unfolding mem
next_listed = refl

next_kills : (t : ℕ) → mem t (1 ∷ []) ≡ true → mem 5 (two_blocks t).kill ≡ true
unfolding mem
next_kills t h = ground arith

compute_live_outs_misses_example :
    Needed two_blocks 5 0
    × ((g : BlockHeap) × (compute_live_outs 3 two_blocks (0 ∷ 1 ∷ []) ≡ some g)
        × (mem 5 (g 0).live_out ≡ false))
compute_live_outs_misses_example =
    compute_live_outs_misses two_blocks (0 ∷ 1 ∷ []) 3 two_blocks-IsFresh two_blocks-IsClosed
      two_blocks-fuel 0 1 5 listed next_listed fives (mem_nil 5) next_kills

nodup_ab : mem 3 (4 ∷ []) ≡ false
unfolding mem
nodup_ab = refl

nodup_ba : mem 4 (3 ∷ []) ≡ false
unfolding mem
nodup_ba = refl

-- `r6 = r5` in block 1.
abbrev copy : Ins
copy = record {
  opcode = 0;
  argument = record {
    operands = OperandType.no_operand;
    branch_offset = 0;
    line_info = 0;
    byte_arg = none;
    literals = [];
  };
  flags = record no_flags { read_reg = true; write_reg = true };
  offset = 4;
  size = 2;
  bb = 1;
  read_regs = 5 ∷ [];
  write_reg = 6;
}

abbrev no_sets : BlockHeap
no_sets p = record (two_blocks p) { ue = []; kill = [] }

compute_kill_ue_correct_example :
    (mem 5 (compute_kill_ue no_sets (copy ∷ []) 1).ue ≡ exposed_by 1 (copy ∷ []) 5)
    × (mem 5 (compute_kill_ue no_sets (copy ∷ []) 1).kill ≡ killed_by 1 (copy ∷ []) 5)
compute_kill_ue_correct_example = compute_kill_ue_correct no_sets (copy ∷ []) 1 refl refl 5
