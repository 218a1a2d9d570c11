-- ===== src/Codec.antt =====
-- src/inst.cpp: reading and writing of an instruction's operands. A byte stream is a list of bytes;
-- reading takes from its front, and `none` stands for `next()` with nothing left, which is an
-- assertion failure in the source.
pub mod Literals
pub mod Branches
pub mod Lines
pub mod Rests
mod Examples
use jerryscript_optimizer.Prelude.{
  ℕ, zero, suc, ◌+◌, ◌-◌, ◌*◌, ◌/◌, ◌%◌, ◌^◌, Bool, true, false, Option, and_then, none, some, List,
  [], ◌∷◌, ◌++◌, ◌==◌, ltb, leb, bit_and, bit_or, if◌then◌else◌,
}
use jerryscript_optimizer.Inst.{Literal, LiteralType, Argument, OperandType}
use jerryscript_optimizer.Bytecode.{BytecodeArguments, CbcMacros}

-- The value of a successful read and the bytes behind it.
abbrev pub Read : Type 0
Read = Option (ℕ × List ℕ)

abbrev pub next : List ℕ → Read
next [] = none
next (b ∷ rest) = some (b, rest)

-- `((index << 8) | next()) - delta`, as a uint16_t.
unfoldable pub two_bytes : BytecodeArguments → ℕ → ℕ → ℕ
two_bytes args first second =
    (bit_or (first * 2 ^ 8) second + 2 ^ 16 - args.encoding_delta) % 2 ^ 16

unfoldable pub decode_literal_index : BytecodeArguments → List ℕ → Read
decode_literal_index args [] = none
decode_literal_index args (first ∷ rest) =
    if leb args.encoding_limit first
    then elim rest [ [] ↦ none | second ∷ rest' ↦ some (two_bytes args first second, rest') ]
    else some (first, rest)

-- `Ins::decodeLiteral(index)`: which of the five ranges an index lies in.
unfoldable pub literal_type : BytecodeArguments → ℕ → LiteralType
literal_type args index =
    if ltb index args.argument_end
    then LiteralType.argument
    else if ltb index args.register_end
    then LiteralType.register
    else if ltb index args.ident_end
    then LiteralType.ident
    else if ltb index args.const_literal_end
    then LiteralType.constant
    else LiteralType.template

-- `Literal::emit`; `none` is for its assertion. A cast to uint8_t is a remainder; the subtraction is
-- made on int.
unfoldable pub emit_literal : CbcMacros → BytecodeArguments → ℕ → Option (List ℕ)
emit_literal m args index =
    if leb index args.one_byte_limit
    then some (index % 2 ^ 8 ∷ [])
    else if leb index m.maximum_small_value
    then some
        (m.maximum_byte_value % 2 ^ 8 ∷ ((index + 2 ^ 32 - m.maximum_byte_value) % 2 ^ 8) ∷ [])
    else if leb index m.maximum_full_value
    then some (bit_or (index / 2 ^ 8) m.highest_bit_mask % 2 ^ 8 ∷ bit_and index 0xff % 2 ^ 8 ∷ [])
    else none

-- `while (offset != 0) { push(offset & 0xFF); offset >>= 8; }` on fuel.
pub emit_offset : ℕ → ℕ → Option (List ℕ)
emit_offset zero offset = none
emit_offset (suc fuel) offset =
    let rest = emit_offset fuel (offset / 2 ^ 8) in
    if offset == 0
    then some []
    else elim rest [ none ↦ none | some bytes ↦ some (bit_and offset 0xff ∷ bytes) ]

-- A 32-bit word has four bytes.
abbrev pub offset_fuel : ℕ
offset_fuel = 5

-- `offset <<= 8; offset |= next()`
unfoldable pub shift_in : ℕ → ℕ → ℕ
shift_in offset byte = bit_or (offset * 2 ^ 8) byte

-- `count` bytes, the highest first.
unfoldable pub read_offset : ℕ → ℕ → List ℕ → Read
read_offset zero offset bytes = some (offset, bytes)
read_offset (suc count) offset [] = none
read_offset (suc count) offset (b ∷ rest) = read_offset count (shift_in offset b) rest

-- The BRANCH case of `decodeArguments`: one byte at least, and no more than three. A backward
-- offset is negated, as a 32-bit pattern.
unfoldable pub decode_branch : ℕ → Bool → List ℕ → Read
decode_branch offset_length backward bytes =
    let count = if ltb 1 offset_length then offset_length else 1 in
    let result = read_offset count 0 bytes in
    if ltb 3 offset_length then none else elim result [
      | none ↦ none
      | some (offset, rest) ↦ some ((if backward then (2 ^ 32 - offset) % 2 ^ 32 else offset), rest)
    ]

-- `do { byte = next(); value = (value << 7) | (byte & 0x7f) } while (byte & 0x80)`; a round takes
-- a byte, so the recursion is on the bytes.
pub decode_line : CbcMacros → List ℕ → ℕ → Read
decode_line m [] value = none
decode_line m (byte ∷ rest) value =
    let value' = bit_or (value * 2 ^ 7 % 2 ^ 32) (bit_and byte m.lower_seven_bit_mask) in
    let more = decode_line m rest value' in
    if bit_and byte m.highest_bit_mask == 0 then some (value', rest) else more

-- `do { push(line & 0x7f); line >>= 7; } while (line & 0x80)` on fuel.
unfoldable pub emit_line : CbcMacros → ℕ → ℕ → Option (List ℕ)
emit_line m zero line = none
emit_line m (suc fuel) line =
    let byte = bit_and line m.lower_seven_bit_mask in
    let line' = line / 2 ^ 7 in
    let rest = emit_line m fuel line' in
    if bit_and line' m.highest_bit_mask == 0
    then some (byte ∷ [])
    else elim rest [ none ↦ none | some bytes ↦ some (byte ∷ bytes) ]

unfoldable pub emit_literals : CbcMacros → BytecodeArguments → List Literal → Option (List ℕ)
emit_literals m args [] = some []
emit_literals m args (lit ∷ lits) =
    and_then (emit_literal m args lit.index)
      (λ first. and_then (emit_literals m args lits) (λ rest. some (first ++ rest)))

-- `Argument::emit`
unfoldable pub emit_argument : CbcMacros → BytecodeArguments → Argument → Option (List ℕ)
emit_argument m args arg = elim arg.operands [
  | OperandType.branch ↦ emit_offset offset_fuel arg.branch_offset
  | _ ↦
      let byte : List ℕ = elim arg.byte_arg [ none ↦ [] | some b ↦ b % 2 ^ 8 ∷ [] ] in
      and_then (emit_literals m args arg.literals) (λ bytes. some (bytes ++ byte))
]
