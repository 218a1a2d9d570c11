-- ===== src/Stream/Sample.antt =====
-- A function with a loop, as bytes: an assignment of one register to another, a conditional jump
-- back to it, a return, and the end mark. The tables are cut down to these opcodes.
use jerryscript_optimizer.Prelude.{
  ℕ, ◌≡◌, refl, none, ◌==◌, true, false, arith, List, [], ◌∷◌, if◌then◌else◌,
}
use jerryscript_optimizer.Prelude.Count.{All-mem}
use jerryscript_optimizer.Prelude.Sets.{mem}
use jerryscript_optimizer.Inst.{LiteralType, OperandType, Argument, Ins, no_flags}
use jerryscript_optimizer.Bytecode.{BytecodeArguments, CbcMacros}
use jerryscript_optimizer.Bytecode.Arguments.{IsOrdered}
use jerryscript_optimizer.Codec.{
  two_bytes, decode_literal_index, literal_type, shift_in, read_offset, decode_branch,
}
use jerryscript_optimizer.Decoder.{
  OpcodeData, mark, add_literal, push_read_reg, store_write_reg, read_literal_index, literal_at,
  decode_literal, set_write_reg, process_put_ident, process_put, store_branch_offset, read_branch,
  fresh_argument, one_literal, decode_operands, decode_arguments,
}
use jerryscript_optimizer.Decoder.Opcode.{OpcodeMarks, decode_extended, decode_cbc_opcode}
use jerryscript_optimizer.Decoder.Group.{
  GroupOpcode, OpcodeNumbers, names_group, class_group, iterator_group, access_group, branch_group,
  operator_group, decode_group_opcode, mark_condition,
}
use jerryscript_optimizer.Stream.{
  Tables, Unset, Built, set_previous_size, decode_body, instruction_of, decode_behind, decode_ins,
  finish, after_turn, build_loop, build_instructions,
}
use jerryscript_optimizer.Stream.Memory.{at_offset, offsets}
use jerryscript_optimizer.Stream.Graph.{HasTargets}

abbrev pub sample_macros : CbcMacros
sample_macros = record {
  small_literal_encoding_limit = 255;
  small_literal_encoding_delta = 0xfe01;
  full_literal_encoding_limit = 128;
  full_literal_encoding_delta = 0x8000;
  maximum_byte_value = 255;
  maximum_small_value = 510;
  maximum_full_value = 32767;
  lower_seven_bit_mask = 0x7f;
  highest_bit_mask = 0x80;
}

abbrev pub sample_numbers : OpcodeNumbers
sample_numbers = record {
  create_var_func_eval = 20;
  ext_create_var_func_eval = 21;
  ext_finalize_named_class = 22;
  ext_set_function_name = 23;
  ext_set_class_name = 24;
  call0 = 200;
  new0 = 230;
  pre_incr = 90;
  cbc_end = 250;
}

abbrev pub sample_ends : BytecodeArguments
sample_ends = record {
  argument_end = 2;
  register_end = 5;
  ident_end = 7;
  const_literal_end = 9;
  literal_end = 10;
  encoding_limit = 255;
  encoding_delta = 0xfe01;
  one_byte_limit = 254;
  stack_limit = 3;
  realm_value = 0;
  size = 14;
}

pub sample_ends-IsOrdered : IsOrdered sample_ends
sample_ends-IsOrdered = record {
  registers = omega arith;
  idents = omega arith;
  constants = omega arith;
  literals = omega arith;
  fits = omega arith;
}

abbrev sample_table : ℕ → OpcodeData GroupOpcode
sample_table opcode =
    if opcode == 100
    then record {
      operands = OperandType.literal;
      group = GroupOpcode.assign;
      is_put_ident = true;
      is_backward_branch = false;
      branch_offset_length = 0;
    }
    else if opcode == 110
    then record {
      operands = OperandType.branch;
      group = GroupOpcode.branch_if_true;
      is_put_ident = false;
      is_backward_branch = true;
      branch_offset_length = 1;
    }
    else record {
      operands = OperandType.no_operand;
      group = GroupOpcode.return;
      is_put_ident = false;
      is_backward_branch = false;
      branch_offset_length = 0;
    }

abbrev pub no_memory : ℕ → Unset
no_memory n = record { operands = OperandType.no_operand; size = 0; bb = 0; write_reg = 0 }

abbrev pub sample_marks : OpcodeMarks
sample_marks = record { cbc_end = 250; ext_opcode = 1; ext_nop = 0 }

abbrev pub sample_tables : Tables
sample_tables = record {
  macros = sample_macros;
  codes = sample_numbers;
  marks = sample_marks;
  decode_table = sample_table;
}

-- 0: r3 = r4; 3: if (...) jump to 0; 5: return; 6: the end mark
abbrev pub sample_code : List ℕ
sample_code = 100 ∷ 4 ∷ 3 ∷ 110 ∷ 3 ∷ 120 ∷ 1 ∷ 0 ∷ []

abbrev assign_ins : Ins
assign_ins = record {
  opcode = 100;
  argument = record {
    operands = OperandType.literal;
    branch_offset = 0;
    line_info = 0;
    byte_arg = none;
    literals =
        record { kind = LiteralType.register; index = 4 }
        ∷ record { kind = LiteralType.register; index = 3 }
        ∷ [];
  };
  flags = record no_flags { write_reg = true; read_reg = true };
  offset = 0;
  size = 3;
  bb = 0;
  read_regs = 4 ∷ 3 ∷ [];
  write_reg = 3;
}

abbrev empty_argument : Argument
empty_argument = record {
  operands = OperandType.no_operand;
  branch_offset = 0;
  line_info = 0;
  byte_arg = none;
  literals = [];
}

-- A jump back by 3 bytes, as an unsigned word.
abbrev branch_ins : Ins
branch_ins = record {
  opcode = 110;
  argument = record empty_argument { operands = OperandType.branch; branch_offset = 4294967293 };
  flags = record no_flags { jump = true; conditional_jump = true };
  offset = 3;
  size = 2;
  bb = 0;
  read_regs = [];
  write_reg = 0;
}

abbrev return_ins : Ins
return_ins = record {
  opcode = 120;
  argument = empty_argument;
  flags = no_flags;
  offset = 5;
  size = 1;
  bb = 0;
  read_regs = [];
  write_reg = 0;
}

abbrev pub sample_first : Ins
sample_first = assign_ins

abbrev pub sample_rest : List Ins
sample_rest = branch_ins ∷ return_ins ∷ []

abbrev pub sample_insns : List Ins
sample_insns = sample_first ∷ sample_rest

pub sample_code-Built :
    build_instructions sample_tables sample_ends no_memory sample_code ≡ Built.built sample_insns
unfolding build_instructions build_loop after_turn set_previous_size finish decode_ins decode_behind
    decode_body instruction_of decode_cbc_opcode decode_extended decode_arguments fresh_argument
    decode_operands one_literal decode_literal read_literal_index decode_literal_index two_bytes
    literal_at literal_type add_literal mark push_read_reg store_write_reg set_write_reg process_put
    process_put_ident read_branch store_branch_offset decode_branch read_offset shift_in
    decode_group_opcode names_group class_group iterator_group access_group branch_group
    operator_group mark_condition
sample_code-Built = refl

pub sample-HasTargets :
    (x : ℕ)
    → mem x (offsets sample_insns) ≡ true
    → HasTargets (at_offset no_memory sample_insns) (offsets sample_insns) x
unfolding at_offset mem
sample-HasTargets x m =
    All-mem (HasTargets (at_offset no_memory sample_insns) (offsets sample_insns))
      (offsets sample_insns) x
      (
        record {
          jumps = λ e. absurd (cc);
          conditions = λ e. absurd (cc);
          tries = λ e. absurd (cc);
        },
        (
          record { jumps = λ e. refl; conditions = λ e. refl; tries = λ e. absurd (cc) },
          (
            record {
              jumps = λ e. absurd (cc);
              conditions = λ e. absurd (cc);
              tries = λ e. absurd (cc);
            },
            tt,
          ),
        ),
      )
      m
