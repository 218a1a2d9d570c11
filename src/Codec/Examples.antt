-- ===== src/Codec/Examples.antt =====
-- The theorems on the byte code of operands, at the macros' documented values.
use jerryscript_optimizer.Prelude.{
  ℕ, ◌%◌, ◌*◌, ◌+◌, ◌-◌, ◌/◌, ◌^◌, ◌≤◌, ◌≡◌, ◌↔◌, refl, true, false, some, List, [], ◌∷◌, ◌++◌,
  length, arith,
}
use jerryscript_optimizer.Inst.{Literal, LiteralType, move_index}
use jerryscript_optimizer.Bytecode.{
  BytecodeArguments, CbcMacros, AreDocumented, set_encoding, move_reg_index,
}
use jerryscript_optimizer.Bytecode.Arguments.{IsOrdered, minus}
use jerryscript_optimizer.Codec.{
  decode_literal_index, literal_type, emit_literal, emit_offset, offset_fuel, decode_branch,
  decode_line, emit_line,
}
use jerryscript_optimizer.Codec.Literals.{
  decode_literal_index-emit_small, decode_literal_index-emit_full, decode_literal_index-emit_gap,
  literal_type-moved, literal_type-moved_too_far,
}
use jerryscript_optimizer.Codec.Branches.{decode_branch-emit_offset_two, emit_offset_backward}
use jerryscript_optimizer.Codec.Lines.{decode_line-emit_line}

abbrev macros : CbcMacros
macros = record {
  small_literal_encoding_limit = 255;
  small_literal_encoding_delta = 0xfe01;
  full_literal_encoding_limit = 128;
  full_literal_encoding_delta = 0x8000;
  maximum_byte_value = 255;
  maximum_small_value = 510;
  maximum_full_value = 32767;
  lower_seven_bit_mask = 0x7f;
  highest_bit_mask = 0x80;
}

macros-AreDocumented : AreDocumented macros
macros-AreDocumented = record {
  small_limit = refl;
  small_delta = refl;
  full_limit = refl;
  full_delta = refl;
  byte_max = refl;
  small_max = refl;
  full_max = refl;
  seven_bits = refl;
  top_bit = refl;
}

abbrev args : BytecodeArguments
args = record {
  argument_end = 2;
  register_end = 5;
  ident_end = 700;
  const_literal_end = 900;
  literal_end = 1000;
  encoding_limit = 255;
  encoding_delta = 0xfe01;
  one_byte_limit = 254;
  stack_limit = 3;
  realm_value = 0;
  size = 14;
}

args-IsOrdered : IsOrdered args
args-IsOrdered = record {
  registers = omega arith;
  idents = omega arith;
  constants = omega arith;
  literals = omega arith;
  fits = omega arith;
}

abbrev small_args : BytecodeArguments
small_args = set_encoding macros false args

abbrev full_args : BytecodeArguments
full_args = set_encoding macros true args

decode_literal_index-emit_small_example :
    (bytes : List ℕ) × (emit_literal macros small_args 300 ≡ some bytes)
    × (decode_literal_index small_args (bytes ++ (9 ∷ [])) ≡ some (300, 9 ∷ []))
decode_literal_index-emit_small_example =
    decode_literal_index-emit_small macros macros-AreDocumented args 300 (9 ∷ []) (omega arith)

decode_literal_index-emit_full_example :
    (bytes : List ℕ) × (emit_literal macros full_args 600 ≡ some bytes)
    × (decode_literal_index full_args (bytes ++ (9 ∷ [])) ≡ some (600, 9 ∷ []))
decode_literal_index-emit_full_example =
    decode_literal_index-emit_full macros macros-AreDocumented args 600 (9 ∷ []) (omega arith)
      (λ h. omega arith)

decode_literal_index-emit_gap_example :
    (bytes : List ℕ) × (emit_literal macros full_args 300 ≡ some bytes)
    × (got : ℕ) × (decode_literal_index full_args (bytes ++ (9 ∷ [])) ≡ some (got, 9 ∷ []))
    × (32512 ≤ got)
decode_literal_index-emit_gap_example =
    decode_literal_index-emit_gap macros macros-AreDocumented args 300 (9 ∷ []) (omega arith)
      (omega arith)

abbrev ident : Literal
ident = record { kind = LiteralType.ident; index = 6 }

literal_type-moved_example :
    literal_type (move_reg_index args (minus 3)) (move_index ident (minus 3)).index
    ≡ literal_type args 6
literal_type-moved_example =
    literal_type-moved args 3 ident args-IsOrdered (omega arith) (omega arith) (omega arith)

literal_type-moved_too_far_example :
    literal_type (move_reg_index args (minus 5)) (move_index ident (minus 5)).index
    ≡ LiteralType.argument
literal_type-moved_too_far_example =
    literal_type-moved_too_far args 5 ident args-IsOrdered (omega arith) (omega arith) (omega arith)

decode_branch-emit_offset_two_example :
    (bytes : List ℕ) × (emit_offset offset_fuel 300 ≡ some bytes)
    × (decode_branch 2 false (bytes ++ (9 ∷ [])) ≡ some (300 % 256 * 256 + 300 / 256, 9 ∷ []))
    × ((decode_branch 2 false (bytes ++ (9 ∷ [])) ≡ some (300, 9 ∷ [])) ↔ (300 % 256 ≡ 300 / 256))
decode_branch-emit_offset_two_example =
    decode_branch-emit_offset_two 300 (9 ∷ []) (omega arith) (omega arith)

emit_offset_backward_example :
    (bytes : List ℕ) × (emit_offset offset_fuel ((2 ^ 32 - 12) % 2 ^ 32) ≡ some bytes)
    × (length bytes ≡ 4)
emit_offset_backward_example = emit_offset_backward 12 (omega arith) (omega arith)

decode_line-emit_line_example :
    (bytes : List ℕ) × (emit_line macros 2 300 ≡ some bytes)
    × (decode_line macros (bytes ++ (9 ∷ [])) 0 ≡ some (300 % 128, 9 ∷ []))
decode_line-emit_line_example =
    decode_line-emit_line macros macros-AreDocumented 1 300 (9 ∷ []) (omega arith)
