-- ===== src/Decoder/Examples.antt =====
-- The theorems on opcodes and operands at a small table of opcodes.
use jerryscript_optimizer.Prelude.{◌≡◌, refl, some, [], ◌∷◌, ◌++◌, inr, arith}
use jerryscript_optimizer.Decoder.Opcode.{
  OpcodeMarks, AreBytes, decode_cbc_opcode, emit_opcode, decode_cbc_opcode-emit_opcode,
  emit_opcode-decode_cbc_opcode, decode_extended,
}

abbrev marks : OpcodeMarks
marks = record { cbc_end = 250; ext_opcode = 0; ext_nop = 0 }

marks-AreBytes : AreBytes marks
marks-AreBytes = record { plain_prefix = omega arith; one_byte = omega arith }

decode_cbc_opcode-emit_opcode_example :
    decode_cbc_opcode marks (emit_opcode marks 300 ++ (7 ∷ [])) ≡ some (some 300, 7 ∷ [])
decode_cbc_opcode-emit_opcode_example =
    decode_cbc_opcode-emit_opcode marks 300 (7 ∷ []) marks-AreBytes
      (inr (omega arith, omega arith, λ e. omega (arith, e)))

extended : decode_cbc_opcode marks (0 ∷ 44 ∷ 7 ∷ []) ≡ some (some 300, 7 ∷ [])
unfolding decode_cbc_opcode decode_extended
extended = refl

emit_opcode-decode_cbc_opcode_example : emit_opcode marks 300 ++ (7 ∷ []) ≡ 0 ∷ 44 ∷ 7 ∷ []
emit_opcode-decode_cbc_opcode_example =
    emit_opcode-decode_cbc_opcode marks 0 (44 ∷ 7 ∷ []) 300 (7 ∷ []) marks-AreBytes (omega arith)
      (omega arith, (omega arith, tt)) extended
