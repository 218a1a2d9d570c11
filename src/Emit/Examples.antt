-- ===== src/Emit/Examples.antt =====
-- The theorem on writing at a function of two instructions, the second a line number.
use jerryscript_optimizer.Prelude.{
  ℕ, ◌+◌, ◌*◌, ◌/◌, ◌<◌, ◌≡◌, refl, false, none, some, List, [], ◌∷◌, ◌++◌, arith, All,
}
use jerryscript_optimizer.Inst.{Ins, no_flags, OperandType}
use jerryscript_optimizer.Bytecode.{
  CbcMacros, CbcArguments, AreDocumented, BytecodeArguments, to_u8args, set_encoding, end_info,
}
use jerryscript_optimizer.Bytecode.Header.{FlagBits, Structures, decode_header}
use jerryscript_optimizer.Codec.{emit_line, emit_argument, emit_literals}
use jerryscript_optimizer.Decoder.Opcode.{OpcodeMarks, emit_opcode}
use jerryscript_optimizer.Emit.{
  Memory, Compiled, emit, emit_instructions, emit_ins, emit_header, finish_buffer, zeros, take,
}
use jerryscript_optimizer.Emit.Layout.{RoundsUp, AreZero, HasWords, IsLaidOut, emit-IsLaidOut}
use jerryscript_optimizer.Emit.Header.{ReadsBack, Fits, byte_code, decode_header-emit}

abbrev macros : CbcMacros
macros = record {
  small_literal_encoding_limit = 255;
  small_literal_encoding_delta = 0xfe01;
  full_literal_encoding_limit = 128;
  full_literal_encoding_delta = 0x8000;
  maximum_byte_value = 255;
  maximum_small_value = 510;
  maximum_full_value = 32767;
  lower_seven_bit_mask = 0x7f;
  highest_bit_mask = 0x80;
}

macros-AreDocumented : AreDocumented macros
macros-AreDocumented = record {
  small_limit = refl;
  small_delta = refl;
  full_limit = refl;
  full_delta = refl;
  byte_max = refl;
  small_max = refl;
  full_max = refl;
  seven_bits = refl;
  top_bit = refl;
}

abbrev marks : OpcodeMarks
marks = record { cbc_end = 0xba; ext_opcode = 0; ext_nop = 0 }

marks-AreZero : AreZero marks
marks-AreZero = record { prefix_zero = refl; nop_zero = refl }

abbrev block : CbcArguments → List ℕ
block a =
    a.stack_limit ∷ a.argument_end ∷ a.register_end ∷ a.ident_end ∷ a.const_literal_end
    ∷ a.literal_end ∷ a.realm_value ∷ []

abbrev memory : Memory
memory = record {
  u8_bytes = block;
  u16_bytes = block;
  align_up = λ n. (n + 7) / 8 * 8;
  alignment_log = 3;
}

memory-RoundsUp : RoundsUp memory
memory-RoundsUp = record {
  above = λ n. omega arith;
  near = λ n. omega arith;
  multiple = λ n. omega arith;
}

abbrev args : BytecodeArguments
args = record {
  argument_end = 1;
  register_end = 2;
  ident_end = 3;
  const_literal_end = 3;
  literal_end = 3;
  encoding_limit = 255;
  encoding_delta = 0xfe01;
  one_byte_limit = 254;
  stack_limit = 4;
  realm_value = 77;
  size = 7;
}

abbrev ins : ℕ → ℕ → Ins
ins opcode line = record {
  opcode = opcode;
  argument = record {
    operands = OperandType.no_operand;
    branch_offset = 0;
    line_info = line;
    byte_arg = none;
    literals = [];
  };
  flags = no_flags;
  offset = 0;
  size = 1;
  bb = 0;
  read_regs = [];
  write_reg = 0;
}

abbrev insns : List Ins
insns = ins 5 0 ∷ ins 300 17 ∷ []

words : All HasWords insns
words = ground arith

abbrev old : List ℕ
old = 1 ∷ 2 ∷ 3 ∷ 4 ∷ 5 ∷ 6 ∷ []

emit-IsLaidOut_example :
    (e : Compiled) × (emit macros marks 44 memory false args (7 ∷ 8 ∷ []) 4 old insns ≡ some e)
    × IsLaidOut macros marks 44 memory false args (7 ∷ 8 ∷ []) 4 old insns e
emit-IsLaidOut_example =
    emit-IsLaidOut macros marks 44 memory false args (7 ∷ 8 ∷ []) 4 old insns macros-AreDocumented
      marks-AreZero memory-RoundsUp (omega arith) words

-- Reading it back: a pool of one entry of 4 bytes, and flags of which only the name asks for an end.
abbrev bits : FlagBits
bits = record {
  has_extended_info = 1;
  has_tagged_literals = 2;
  uint16_arguments = 4;
  full_literal_encoding = 8;
  mapped_arguments_needed = 16;
  function_get_type = λ flags. 0;
  function_constructor = 1;
}

abbrev no_arguments : CbcArguments
no_arguments = record {
  argument_end = 0;
  register_end = 0;
  ident_end = 0;
  const_literal_end = 0;
  literal_end = 0;
  stack_limit = 0;
  realm_value = 0;
}

abbrev read : List ℕ → CbcArguments
read (stack ∷ argument ∷ register ∷ ident ∷ const_literal ∷ literal ∷ realm ∷ rest) = record {
  argument_end = argument;
  register_end = register;
  ident_end = ident;
  const_literal_end = const_literal;
  literal_end = literal;
  stack_limit = stack;
  realm_value = realm;
}
read _ = no_arguments

abbrev structures : Structures
structures = record {
  u8_arguments = read;
  u16_arguments = read;
  u8_size = 7;
  u16_size = 7;
  value_size = 4;
  alignment_log = 3;
}

structures-ReadsBack : ReadsBack memory structures
structures-ReadsBack = record {
  u8_back = λ a rest small. refl;
  u16_back = λ a rest small. refl;
  u8_length = λ a. refl;
  u16_length = λ a. refl;
  same_log = refl;
  alignment = refl;
}

args-Fits : Fits structures false args
args-Fits = record {
  ordered = record {
    registers = omega arith;
    idents = omega arith;
    constants = omega arith;
    literals = omega arith;
    fits = omega arith;
  };
  sized = refl;
  small = omega arith;
  stack = omega arith;
  realm = omega arith;
  narrow = λ e. (omega arith, omega arith);
}

abbrev pool : List ℕ
pool = 7 ∷ 8 ∷ 9 ∷ 10 ∷ []

abbrev written : Compiled
written = record {
  bytes =
      4 ∷ 1 ∷ 2 ∷ 3 ∷ 3 ∷ 3 ∷ 77 ∷ 7 ∷ 8 ∷ 9 ∷ 10 ∷ 5 ∷ 0 ∷ 44 ∷ 17 ∷ 0 ∷ 0 ∷ 0 ∷ 0 ∷ 0 ∷ 3 ∷ 4 ∷ 5
      ∷ 6 ∷ [];
  size = 3;
}

emit-written : emit macros marks 44 memory false args pool 4 old insns ≡ some written
unfolding emit emit_instructions emit_ins emit_header finish_buffer zeros take to_u8args emit_line
    emit_argument emit_literals emit_opcode
emit-written = refl

decode_header-emit_example :
    let h = decode_header bits structures macros args 0 written.size written.bytes in
    (h.args ≡ set_encoding macros false args)
    × (h.literal_pool_size ≡ 1)
    × ((code : List ℕ) × (pad : ℕ) × (emit_instructions macros marks 44 args insns ≡ some code)
        × (pad < 8)
        × (byte_code h written.bytes ≡ code ++ zeros pad))
unfolding end_info
decode_header-emit_example =
    decode_header-emit bits structures macros marks 44 memory 0 args args pool old insns written
      structures-ReadsBack marks-AreZero memory-RoundsUp args-Fits refl (omega arith) emit-written
      (omega arith)
