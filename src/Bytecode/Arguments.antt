-- ===== src/Bytecode/Arguments.antt =====
-- The argument block across `moveRegIndex`, emission and reading again.
use jerryscript_optimizer.Prelude.{ℕ, ◌+◌, ◌-◌, ◌%◌, ◌^◌, ◌≤◌, ◌<◌, ◌≡◌, arith}
use jerryscript_optimizer.Bytecode.{
  BytecodeArguments, set_arguments, to_u8args, to_u16args, move_reg_index,
}

-- The ends are in order and are 16-bit words.
pub record IsOrdered (a : BytecodeArguments) : Type 0 where
  pub registers : a.argument_end ≤ a.register_end
  pub idents : a.register_end ≤ a.ident_end
  pub constants : a.ident_end ≤ a.const_literal_end
  pub literals : a.const_literal_end ≤ a.literal_end
  pub fits : a.literal_end < 2 ^ 16

-- The pattern of `-k` as an int32_t.
abbrev pub minus : ℕ → ℕ
minus k = 2 ^ 32 - k

-- Lowering the ends by `k` keeps them in order, as long as `k` registers above the arguments go.
pub move_reg_index-IsOrdered :
    (a : BytecodeArguments) (k : ℕ)
    → IsOrdered a
    → a.argument_end + k ≤ a.register_end
    → IsOrdered (move_reg_index a (minus k))
      × ((move_reg_index a (minus k)).register_end + k ≡ a.register_end)
      × ((move_reg_index a (minus k)).literal_end + k ≡ a.literal_end)
unfolding move_reg_index
move_reg_index-IsOrdered a k o h = (
  record {
    registers = omega arith;
    idents = omega arith;
    constants = omega arith;
    literals = omega arith;
    fits = omega arith;
  },
  omega arith,
  omega arith,
)

-- Where the ends are in order and fit one byte, as does the stack limit, what `toU8args` writes
-- after the ends were lowered by `k` registers is read back by `setArguments` as the lowered block.
pub set_arguments-to_u8args :
    (a : BytecodeArguments) (k struct_size : ℕ)
    → IsOrdered a
    → a.literal_end < 2 ^ 8
    → a.stack_limit < 2 ^ 8
    → a.argument_end + k ≤ a.register_end
    → a.size ≡ struct_size % 2 ^ 16
    → set_arguments a (to_u8args (move_reg_index a (minus k))) struct_size
      ≡ move_reg_index a (minus k)
unfolding set_arguments to_u8args move_reg_index
set_arguments-to_u8args a k struct_size o lit stack h size = ground arith

-- The wide block is read back as it was written, whatever the ends are.
pub set_arguments-to_u16args :
    (a : BytecodeArguments) (offset struct_size : ℕ)
    → a.size ≡ struct_size % 2 ^ 16
    → set_arguments a (to_u16args (move_reg_index a offset)) struct_size ≡ move_reg_index a offset
unfolding set_arguments to_u16args move_reg_index
set_arguments-to_u16args a offset struct_size size = ground arith
