-- ===== src/Inst.antt =====
-- src/inst.h: literals, arguments and instructions, with the flags that the decoder sets.
-- Words are native numbers: `branch_offset`, an int32_t, is its 32-bit pattern.
-- The abstract values (`string_literal_`, `literal_value_`, `stack_snapshot_`) are not kept here:
-- every operation of src/stack.cpp that would read them back is commented out in the source.
use jerryscript_optimizer.Prelude.{ℕ, ◌+◌, ◌%◌, ◌^◌, Bool, true, false, ◌||◌, Option, List}

pub data LiteralType : Type 0 where
  argument register ident constant template : LiteralType

pub data OperandType : Type 0 where
  no_operand branch stack stack_stack literal literal_literal stack_literal this_literal :
      OperandType

pub record Literal : Type 0 where
  pub kind : LiteralType
  pub index : ℕ

-- `static_cast<LiteralIndex>(index_ + offset)`: 2 ^ 16 divides 2 ^ 32, so the pattern of `offset` does.
unfoldable pub move_index : Literal → ℕ → Literal
move_index lit offset = record lit { index = (lit.index + offset) % 2 ^ 16 }

-- `byte_arg` is absent where the source holds UINT32_MAX.
pub record Argument : Type 0 where
  pub operands : OperandType
  pub branch_offset : ℕ
  pub line_info : ℕ
  pub byte_arg : Option ℕ
  pub literals : List Literal

pub data InstFlags : Type 0 where
  jump conditional_jump try_start try_catch try_finally write_reg read_reg dead : InstFlags

-- `flags_` has one bit for each constructor of `InstFlags`.
pub record FlagSet : Type 0 where
  pub jump : Bool
  pub conditional_jump : Bool
  pub try_start : Bool
  pub try_catch : Bool
  pub try_finally : Bool
  pub write_reg : Bool
  pub read_reg : Bool
  pub dead : Bool

abbrev pub no_flags : FlagSet
no_flags = record {
  jump = false;
  conditional_jump = false;
  try_start = false;
  try_catch = false;
  try_finally = false;
  write_reg = false;
  read_reg = false;
  dead = false;
}

abbrev pub flag_of : FlagSet → InstFlags → Bool
flag_of s InstFlags.jump = s.jump
flag_of s InstFlags.conditional_jump = s.conditional_jump
flag_of s InstFlags.try_start = s.try_start
flag_of s InstFlags.try_catch = s.try_catch
flag_of s InstFlags.try_finally = s.try_finally
flag_of s InstFlags.write_reg = s.write_reg
flag_of s InstFlags.read_reg = s.read_reg
flag_of s InstFlags.dead = s.dead

abbrev pub with_flag : FlagSet → InstFlags → FlagSet
with_flag s InstFlags.jump = record s { jump = true }
with_flag s InstFlags.conditional_jump = record s { conditional_jump = true }
with_flag s InstFlags.try_start = record s { try_start = true }
with_flag s InstFlags.try_catch = record s { try_catch = true }
with_flag s InstFlags.try_finally = record s { try_finally = true }
with_flag s InstFlags.write_reg = record s { write_reg = true }
with_flag s InstFlags.read_reg = record s { read_reg = true }
with_flag s InstFlags.dead = record s { dead = true }

-- `bb` is the pointer to the block that the instruction stands in, and `opcode` is `cbc_opcode_`.
pub record Ins : Type 0 where
  pub opcode : ℕ
  pub argument : Argument
  pub flags : FlagSet
  pub offset : ℕ
  pub size : ℕ
  pub bb : ℕ
  pub read_regs : List ℕ
  pub write_reg : ℕ

abbrev pub has_flag : Ins → InstFlags → Bool
has_flag ins f = flag_of ins.flags f

abbrev pub add_flag : Ins → InstFlags → Ins
add_flag ins f = record ins { flags = with_flag ins.flags f }

abbrev pub is_jump : Ins → Bool
is_jump ins = has_flag ins InstFlags.jump

abbrev pub is_conditional_jump : Ins → Bool
is_conditional_jump ins = has_flag ins InstFlags.conditional_jump

abbrev pub is_try_start : Ins → Bool
is_try_start ins = has_flag ins InstFlags.try_start

abbrev pub is_try_context : Ins → Bool
is_try_context ins =
    has_flag ins InstFlags.try_start
    || has_flag ins InstFlags.try_catch
    || has_flag ins InstFlags.try_finally

-- `offset() + jumpOffset()`, as an unsigned word.
abbrev pub jump_target : Ins → ℕ
jump_target ins = (ins.offset + ins.argument.branch_offset) % 2 ^ 32
