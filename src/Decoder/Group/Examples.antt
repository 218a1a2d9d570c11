-- ===== src/Decoder/Group/Examples.antt =====
-- The theorems on the decoder at an assignment of one register to another: the operand names
-- register 4, and the result is put into register 3.
use jerryscript_optimizer.Prelude.{
  ℕ, ◌≡◌, refl, true, false, Option, none, some, List, [], ◌∷◌, ◌++◌, arith,
}
use jerryscript_optimizer.Inst.{Literal, LiteralType, OperandType, no_flags, Argument}
use jerryscript_optimizer.Bytecode.{BytecodeArguments, CbcMacros, AreDocumented, set_encoding}
use jerryscript_optimizer.Bytecode.Arguments.{IsOrdered}
use jerryscript_optimizer.Codec.{literal_type, decode_literal_index, emit_argument}
use jerryscript_optimizer.Decoder.{
  Decoding, ◌>>◌, mark, add_literal, push_read_reg, store_write_reg, OpcodeData, read_literal_index,
  literal_at, decode_literal, set_write_reg, process_put_ident, process_put, fresh_argument,
  one_literal, decode_operands, decode_arguments,
}
use jerryscript_optimizer.Decoder.Group.{
  GroupOpcode, OpcodeNumbers, access_group, class_group, decode_group_opcode, iterator_group,
  names_group,
}
use jerryscript_optimizer.Decoder.RoundTrip.{IsEncodable, decode_arguments-emit_argument}

abbrev table_macros : CbcMacros
table_macros = record {
  small_literal_encoding_limit = 255;
  small_literal_encoding_delta = 0xfe01;
  full_literal_encoding_limit = 128;
  full_literal_encoding_delta = 0x8000;
  maximum_byte_value = 255;
  maximum_small_value = 510;
  maximum_full_value = 32767;
  lower_seven_bit_mask = 0x7f;
  highest_bit_mask = 0x80;
}

abbrev numbers : OpcodeNumbers
numbers = record {
  create_var_func_eval = 20;
  ext_create_var_func_eval = 21;
  ext_finalize_named_class = 22;
  ext_set_function_name = 23;
  ext_set_class_name = 24;
  call0 = 200;
  new0 = 230;
  pre_incr = 90;
  cbc_end = 250;
}

abbrev ends : BytecodeArguments
ends = record {
  argument_end = 2;
  register_end = 5;
  ident_end = 7;
  const_literal_end = 9;
  literal_end = 10;
  encoding_limit = 255;
  encoding_delta = 0xfe01;
  one_byte_limit = 254;
  stack_limit = 3;
  realm_value = 0;
  size = 14;
}

ends-IsOrdered : IsOrdered ends
ends-IsOrdered = record {
  registers = omega arith;
  idents = omega arith;
  constants = omega arith;
  literals = omega arith;
  fits = omega arith;
}

abbrev assign_register : OpcodeData GroupOpcode
assign_register = record {
  operands = OperandType.literal;
  group = GroupOpcode.assign;
  is_put_ident = true;
  is_backward_branch = false;
  branch_offset_length = 0;
}

abbrev behind_opcode : Decoding
behind_opcode = record {
  ins = record {
    opcode = 100;
    argument = record {
      operands = OperandType.no_operand;
      branch_offset = 0;
      line_info = 0;
      byte_arg = none;
      literals = [];
    };
    flags = no_flags;
    offset = 0;
    size = 0;
    bb = 0;
    read_regs = [];
    write_reg = 0;
  };
  bytes = 4 ∷ 3 ∷ [];
}

abbrev code : List ℕ
code = 100 ∷ 4 ∷ 3 ∷ []

abbrev decoded : Option ((Unit {0}) × Decoding)
decoded =
    (decode_arguments ends assign_register
        >> decode_group_opcode table_macros numbers ends code true GroupOpcode.assign)
      behind_opcode

abbrev registers_of : Option ((Unit {0}) × Decoding) → Option (List ℕ × ℕ × List ℕ)
registers_of none = none
registers_of (some (u, s)) = some (s.ins.read_regs, s.ins.write_reg, s.bytes)

-- The register that is written is among those read.
decoded_registers : registers_of decoded ≡ some (4 ∷ 3 ∷ [], 3, [])
unfolding decode_literal_index decode_group_opcode names_group class_group iterator_group
    access_group decode_arguments fresh_argument decode_operands one_literal decode_literal
    read_literal_index literal_at mark add_literal push_read_reg store_write_reg set_write_reg
    process_put process_put_ident
decoded_registers = refl

table_macros-AreDocumented : AreDocumented table_macros
table_macros-AreDocumented = record {
  small_limit = refl;
  small_delta = refl;
  full_limit = refl;
  full_delta = refl;
  byte_max = refl;
  small_max = refl;
  full_max = refl;
  seven_bits = refl;
  top_bit = refl;
}

abbrev small_ends : BytecodeArguments
small_ends = set_encoding table_macros false ends

abbrev argument_one : Literal
argument_one = record { kind = LiteralType.argument; index = 1 }

abbrev name_six : Literal
name_six = record { kind = LiteralType.ident; index = 6 }

argument_one-IsEncodable : IsEncodable table_macros table_macros-AreDocumented ends argument_one
unfolding literal_type set_encoding
argument_one-IsEncodable = (omega arith, omega arith, refl)

name_six-IsEncodable : IsEncodable table_macros table_macros-AreDocumented ends name_six
unfolding literal_type set_encoding
name_six-IsEncodable = (omega arith, omega arith, refl)

abbrev two_operands : Argument
two_operands = record {
  operands = OperandType.literal_literal;
  branch_offset = 0;
  line_info = 0;
  byte_arg = none;
  literals = argument_one ∷ name_six ∷ [];
}

abbrev takes_two : OpcodeData GroupOpcode
takes_two = record assign_register { operands = OperandType.literal_literal }

decode_arguments-emit_argument_example :
    (bytes : List ℕ) × (emit_argument table_macros small_ends two_operands ≡ some bytes)
    × (s' : Decoding) × (decode_arguments small_ends takes_two
          (record behind_opcode { bytes = bytes ++ (9 ∷ []) })
        ≡ some (tt, s'))
    × (s'.bytes ≡ 9 ∷ [])
    × (s'.ins.argument.literals ≡ argument_one ∷ name_six ∷ [])
decode_arguments-emit_argument_example =
    decode_arguments-emit_argument table_macros table_macros-AreDocumented ends takes_two
      two_operands argument_one name_six (9 ∷ []) behind_opcode refl refl refl refl
      argument_one-IsEncodable name_six-IsEncodable
