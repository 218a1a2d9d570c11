-- ===== src/Codec/Literals.antt =====
-- Reading back what `Literal::emit` wrote, in the two encodings.
use jerryscript_optimizer.Prelude.{
  ℕ, ◌+◌, ◌-◌, ◌*◌, ◌/◌, ◌%◌, ◌^◌, ◌≤◌, ◌<◌, ◌≡◌, refl, true, false, some, List, [], ◌∷◌, ◌++◌, leb,
  arith, Bool-cases, inl, inr,
}
use jerryscript_optimizer.Prelude.Bits.{bit_or_byte, bit_or_top, bit_and_byte}
use jerryscript_optimizer.Inst.{Literal, LiteralType, move_index}
use jerryscript_optimizer.Bytecode.{
  BytecodeArguments, CbcMacros, AreDocumented, set_encoding, move_reg_index,
}
use jerryscript_optimizer.Bytecode.Arguments.{IsOrdered, minus}
use jerryscript_optimizer.Codec.{two_bytes, decode_literal_index, literal_type, emit_literal}

two_bytes_sum :
    (args : BytecodeArguments) (a b : ℕ)
    → b < 256
    → two_bytes args a b ≡ (a * 256 + b + 2 ^ 16 - args.encoding_delta) % 2 ^ 16
unfolding two_bytes
two_bytes_sum args a b h = rw (bit_or_byte a b h) refl

module _ (m : CbcMacros) (doc : AreDocumented m) (args : BytecodeArguments) where
  abbrev small : BytecodeArguments
  small = set_encoding m false args

  abbrev full : BytecodeArguments
  full = set_encoding m true args

  -- Under the small encoding every index up to 510 is read back as it was written, and nothing
  -- behind it is touched.
  pub decode_literal_index-emit_small :
      (index : ℕ) (rest : List ℕ)
      → index ≤ 510
      → (bytes : List ℕ) × (emit_literal m small index ≡ some bytes)
        × (decode_literal_index small (bytes ++ rest) ≡ some (index, rest))
  unfolding decode_literal_index emit_literal set_encoding
  decode_literal_index-emit_small index rest h = elim (Bool-cases (leb index 254)) [
    | inl e ↦ (index % 2 ^ 8 ∷ [], ground (arith, doc.byte_max), ground (arith, doc.small_limit))
    | inr e ↦ (
      255 ∷ ((index + 2 ^ 32 - 255) % 2 ^ 8) ∷ [],
      ground (arith, doc.byte_max, doc.small_max),
      ground (arith, doc.small_limit, doc.small_delta, two_bytes_sum small 255 (index - 255)),
    )
  ]

  -- Under the full encoding every index that fits one byte, and every index from 511 to 32767, is
  -- read back as it was written.
  pub decode_literal_index-emit_full :
      (index : ℕ) (rest : List ℕ)
      → index ≤ 32767
      → (127 < index → 510 < index)
      → (bytes : List ℕ) × (emit_literal m full index ≡ some bytes)
        × (decode_literal_index full (bytes ++ rest) ≡ some (index, rest))
  unfolding decode_literal_index emit_literal set_encoding
  decode_literal_index-emit_full index rest h gap = elim (Bool-cases (leb index 127)) [
    | inl e ↦ (index ∷ [], ground (arith, doc.seven_bits), ground (arith, doc.full_limit))
    | inr e ↦ (
      (index / 256 + 128) ∷ (index % 256) ∷ [],
      ground (
        arith,
        doc.small_max,
        doc.full_max,
        doc.seven_bits,
        doc.top_bit,
        bit_or_top (index / 256),
        bit_and_byte index,
      ),
      ground (
        arith,
        doc.full_limit,
        doc.full_delta,
        two_bytes_sum full (index / 256 + 128) (index % 256),
      ),
    )
  ]

  -- Under the full encoding no index from 128 to 510 is read back: the two bytes written are those
  -- of the small encoding.
  pub decode_literal_index-emit_gap :
      (index : ℕ) (rest : List ℕ)
      → 127 < index
      → index ≤ 510
      → (bytes : List ℕ) × (emit_literal m full index ≡ some bytes)
        × (got : ℕ) × (decode_literal_index full (bytes ++ rest) ≡ some (got, rest))
        × (32512 ≤ got)
  unfolding decode_literal_index emit_literal set_encoding
  decode_literal_index-emit_gap index rest lo hi =
      let second = (index + 1) % 256 in
      (
        255 ∷ second ∷ [],
        ground (arith, doc.byte_max, doc.small_max, doc.seven_bits),
        32512 + second,
        ground (arith, doc.full_limit, doc.full_delta, two_bytes_sum full 255 ((index + 1) % 256)),
        omega arith,
      )

-- Lowering the ends and an index by the registers saved keeps the range that the index lies in,
-- as long as no end falls below the arguments.
pub literal_type-moved :
    (args : BytecodeArguments) (k : ℕ) (lit : Literal)
    → IsOrdered args
    → args.argument_end + k ≤ args.register_end
    → args.register_end ≤ lit.index
    → lit.index < 2 ^ 16
    → literal_type (move_reg_index args (minus k)) (move_index lit (minus k)).index
      ≡ literal_type args lit.index
unfolding literal_type move_reg_index move_index
literal_type-moved args k lit o h lo hi = ground arith

-- Where more registers are saved than stand above the arguments, a literal right above the
-- registers is taken for an argument.
pub literal_type-moved_too_far :
    (args : BytecodeArguments) (k : ℕ) (lit : Literal)
    → IsOrdered args
    → k ≤ args.register_end
    → args.register_end ≤ lit.index
    → lit.index < args.argument_end + k
    → literal_type (move_reg_index args (minus k)) (move_index lit (minus k)).index
      ≡ LiteralType.argument
unfolding literal_type move_reg_index move_index
literal_type-moved_too_far args k lit o h lo hi = ground arith

-- The ranges of identifiers and of template literals.
pub literal_type-ident :
    (args : BytecodeArguments) (index : ℕ)
    → IsOrdered args
    → args.register_end ≤ index
    → index < args.ident_end
    → literal_type args index ≡ LiteralType.ident
unfolding literal_type
literal_type-ident args index o lo hi = ground (arith, o.registers)

pub literal_type-template :
    (args : BytecodeArguments) (index : ℕ)
    → IsOrdered args
    → args.const_literal_end ≤ index
    → literal_type args index ≡ LiteralType.template
unfolding literal_type
literal_type-template args index o lo = ground (arith, o.registers, o.idents, o.constants)
