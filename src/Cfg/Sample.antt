-- ===== src/Cfg/Sample.antt =====
-- A function with a loop, for the tests: at 0 a read of register 1, at 2 a conditional jump to 6, at
-- 4 a write of register 1, at 5 a jump back to 0, and at 6 a return.
use jerryscript_optimizer.Prelude.{
  ℕ, ◌≡◌, refl, true, false, none, List, [], ◌∷◌, ◌==◌, if◌then◌else◌, arith,
}
use jerryscript_optimizer.Prelude.Sets.{mem}
use jerryscript_optimizer.Inst.{FlagSet, no_flags, OperandType}
use jerryscript_optimizer.Blocks.{BlockHeap}
use jerryscript_optimizer.Cfg.{InsHeap, fresh_block}
use jerryscript_optimizer.Cfg.Leaders.{HasOffsets, JumpsInside, Ascending}
use jerryscript_optimizer.Cfg.Build.{IsEmptyMemory}
use jerryscript_optimizer.Cfg.Flow.{IsFlow}
use jerryscript_optimizer.Prelude.Count.{All-mem}

abbrev pub no_blocks : BlockHeap
no_blocks p = fresh_block p false

abbrev pub no_blocks-IsEmptyMemory : IsEmptyMemory no_blocks
no_blocks-IsEmptyMemory = record {
  ids = λ p. refl;
  clear = λ p. record { no_successors = refl; no_predecessors = refl; no_insts = refl };
  fresh = λ p. (refl, refl, refl);
}

abbrev flags_at : ℕ → FlagSet
flags_at i =
    if i == 0
    then record no_flags { read_reg = true }
    else if i == 2
    then record no_flags { jump = true; conditional_jump = true }
    else if i == 4
    then record no_flags { write_reg = true }
    else if i == 5
    then record no_flags { jump = true }
    else no_flags

-- A jump back by 5 bytes, as an unsigned word.
abbrev branch_at : ℕ → ℕ
branch_at i = if i == 2 then 4 else if i == 5 then 4294967291 else 0

abbrev size_at : ℕ → ℕ
size_at i = if i == 0 then 2 else if i == 2 then 2 else 1

abbrev pub loop_code : InsHeap
loop_code i = record {
  opcode = 0;
  argument = record {
    operands = OperandType.no_operand;
    branch_offset = branch_at i;
    line_info = 0;
    byte_arg = none;
    literals = [];
  };
  flags = flags_at i;
  offset = i;
  size = size_at i;
  bb = 0;
  read_regs = 1 ∷ [];
  write_reg = 1;
}

abbrev pub loop_rest : List ℕ
loop_rest = 2 ∷ 4 ∷ 5 ∷ 6 ∷ []

pub loop_code-HasOffsets : HasOffsets loop_code
loop_code-HasOffsets i = refl

pub loop_code-Ascending : Ascending (0 ∷ loop_rest)
loop_code-Ascending = ground arith

pub loop_code-JumpsInside : JumpsInside loop_code (0 ∷ loop_rest) loop_rest
unfolding mem
loop_code-JumpsInside = (
  λ e. refl,
  λ e no_rest. cc,
  (
    λ e. absurd (cc),
    λ e. absurd (cc),
    (λ e. refl, λ e. absurd (cc), (λ e. absurd (cc), λ e. absurd (cc), tt)),
  ),
)

pub loop-IsFlow : (i : ℕ) → mem i (0 ∷ loop_rest) ≡ true → IsFlow loop_code (0 ∷ loop_rest) i
unfolding mem
loop-IsFlow i m =
    All-mem (IsFlow loop_code (0 ∷ loop_rest)) (0 ∷ loop_rest) i
      (
        (λ e. absurd (cc), λ e. absurd (cc), λ e. refl, λ e. absurd (cc)),
        (
          (λ e. refl, λ e. refl, λ e. refl, λ e. absurd (cc)),
          (
            (λ e. absurd (cc), λ e. absurd (cc), λ e. refl, λ e. absurd (cc)),
            (
              (λ e. refl, λ e. absurd (cc), λ e. refl, λ e. absurd (cc)),
              ((λ e. absurd (cc), λ e. absurd (cc), λ e. absurd (cc), λ e. absurd (cc)), tt),
            ),
          ),
        ),
      )
      m
