-- ===== src/Bytecode/Examples.antt =====
-- The theorems on src/bytecode.h at a function with two arguments and three more registers.
use jerryscript_optimizer.Prelude.{ℕ, ◌+◌, ◌≤◌, ◌<◌, ◌≡◌, arith}
use jerryscript_optimizer.Inst.{Literal, LiteralType, move_index}
use jerryscript_optimizer.Bytecode.{
  BytecodeArguments, move_reg_index, set_literal_pool, literal_address, LiteralPool,
}
use jerryscript_optimizer.Bytecode.Arguments.{IsOrdered, minus}
use jerryscript_optimizer.Bytecode.Pool.{literal_address_moved}

abbrev pub five_registers : BytecodeArguments
five_registers = record {
  argument_end = 2;
  register_end = 5;
  ident_end = 7;
  const_literal_end = 9;
  literal_end = 10;
  encoding_limit = 255;
  encoding_delta = 0xfe01;
  one_byte_limit = 254;
  stack_limit = 3;
  realm_value = 0;
  size = 14;
}

pub five_registers-IsOrdered : IsOrdered five_registers
five_registers-IsOrdered = record {
  registers = omega arith;
  idents = omega arith;
  constants = omega arith;
  literals = omega arith;
  fits = omega arith;
}

abbrev lowered : BytecodeArguments
lowered = move_reg_index five_registers (minus 3)

abbrev name : Literal
name = record { kind = LiteralType.ident; index = 6 }

abbrev pool_at : ℕ → BytecodeArguments → LiteralPool
pool_at start args = (set_literal_pool start args).0

literal_address_moved_example :
    (literal_address (pool_at 20 lowered) (move_index name (minus 3)).index
      ≡ literal_address (pool_at 20 five_registers) 6)
    × ((pool_at 20 lowered).size ≡ (pool_at 20 five_registers).size)
    × (20 ≤ literal_address (pool_at 20 five_registers) 6)
    × (literal_address (pool_at 20 five_registers) 6 < 20 + (pool_at 20 five_registers).size)
literal_address_moved_example =
    literal_address_moved five_registers 20 3 name five_registers-IsOrdered (omega arith)
      (omega arith) (omega arith) (omega arith)
