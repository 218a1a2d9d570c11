-- ===== src/LiveRanges/Examples.antt =====
-- The theorems on `buildLiveRanges` at a block that copies register 5 to register 6.
use jerryscript_optimizer.Prelude.{true, none, [], ◌∷◌}
use jerryscript_optimizer.Inst.{Ins, no_flags, OperandType}
use jerryscript_optimizer.LiveRanges.{build_live_ranges}
use jerryscript_optimizer.LiveRanges.Chain.{AreChains, build_live_ranges-AreChains}

abbrev copy_register : Ins
copy_register = record {
  opcode = 0;
  argument = record {
    operands = OperandType.no_operand;
    branch_offset = 0;
    line_info = 0;
    byte_arg = none;
    literals = [];
  };
  flags = record no_flags { read_reg = true; write_reg = true };
  offset = 4;
  size = 2;
  bb = 1;
  read_regs = 5 ∷ [];
  write_reg = 6;
}

build_live_ranges-AreChains_example : AreChains (build_live_ranges 2 [] ((copy_register ∷ []) ∷ []))
build_live_ranges-AreChains_example = build_live_ranges-AreChains 2 ((copy_register ∷ []) ∷ [])
