-- ===== src/Regalloc/Examples.antt =====
-- The theorems on src/regalloc-linear-scan.cpp at small inputs: two registers, of which the second
-- is born when the first is read last.
use jerryscript_optimizer.Prelude.Times.{times}
use jerryscript_optimizer.Prelude.{
  ℕ, ◌+◌, ◌≤◌, ◌<◌, ◌≡◌, refl, true, none, some, List, [], ◌∷◌, ◌++◌, length, All, Pairs, arith,
}
use jerryscript_optimizer.Inst.{Ins, no_flags, OperandType}
use jerryscript_optimizer.LiveRanges.{Ranges}
use jerryscript_optimizer.Bytecode.{BytecodeArguments}
use jerryscript_optimizer.Regalloc.{
  RegLiveInterval, sort_intervals, expire_old_intervals, compute_register_mapping,
}
use jerryscript_optimizer.Regalloc.Sort.{held}
use jerryscript_optimizer.Regalloc.Expire.{expire_returns}
use jerryscript_optimizer.Regalloc.Mapping.{
  SameIntervals, NoClash, FitsIn, compute_register_mapping_correct,
}
use jerryscript_optimizer.Regalloc.Update.{rename_all, renamed_twice}

abbrev ranges : Ranges
ranges =
    (0, record { start = 0; end = 4 } ∷ [])
    ∷ (1, record { start = 4; end = 9 } ∷ [])
    ∷ (2, record { start = 2; end = 3 } ∷ [])
    ∷ []

compute_register_mapping_correct_example :
    (out : List RegLiveInterval) × (new_count : ℕ) × (compute_register_mapping 3
        (sort_intervals ranges)
      ≡ some (out, new_count))
    × SameIntervals (sort_intervals ranges) out
    × (new_count ≤ 3)
    × (new_count < 3 → Pairs NoClash out × All (FitsIn new_count) out)
compute_register_mapping_correct_example = compute_register_mapping_correct 3 ranges

abbrev first : RegLiveInterval
first = record { reg = 0; mapped = 1; start = 0; end = 4 }

abbrev second : RegLiveInterval
second = record { reg = 1; mapped = 2; start = 4; end = 9 }

abbrev third : RegLiveInterval
third = record { reg = 7; mapped = 8; start = 6; end = 9 }

expire_returns_example :
    (freed : List ℕ) × ((expire_old_intervals (first ∷ second ∷ []) (0 ∷ []) third).1
      ≡ freed ++ (0 ∷ []))
    × ((r : ℕ)
        → held r (expire_old_intervals (first ∷ second ∷ []) (0 ∷ []) third).0 + times r freed
          ≡ held r (first ∷ second ∷ []))
    × (length (expire_old_intervals (first ∷ second ∷ []) (0 ∷ []) third).0 + length freed ≡ 2)
expire_returns_example = expire_returns (first ∷ second ∷ []) (0 ∷ []) third

abbrev assignment : Ins
assignment = record {
  opcode = 3;
  argument = record {
    operands = OperandType.literal;
    branch_offset = 0;
    line_info = 0;
    byte_arg = none;
    literals = [];
  };
  flags = record no_flags { write_reg = true };
  offset = 4;
  size = 2;
  bb = 1;
  read_regs = [];
  write_reg = 0;
}

renamed_twice_example : (rename_all (first ∷ second ∷ third ∷ []) assignment).write_reg ≡ 2
renamed_twice_example =
    renamed_twice (third ∷ []) first second assignment refl refl refl (omega arith, tt)

abbrev arguments : BytecodeArguments
arguments = record {
  argument_end = 1;
  register_end = 4;
  ident_end = 6;
  const_literal_end = 7;
  literal_end = 8;
  encoding_limit = 255;
  encoding_delta = 0xfe01;
  one_byte_limit = 254;
  stack_limit = 3;
  realm_value = 0;
  size = 16;
}
