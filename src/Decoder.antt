-- ===== src/Decoder.antt =====
-- src/inst.cpp: decoding of one instruction. The reader is the rest of the byte code; `none` is a
-- failed assertion, of `next()` or of a literal's range.
-- The abstract values and their stack are left out: nothing reads them (see src/stack.h), and of the
-- stack's assertions only the one on the index of a register is not commented out.
-- `ENABLED (JERRY_ESNEXT)`, the debugger and the line information are taken to be on.
pub mod Group
pub mod Typed
pub mod Operands
pub mod Registers
pub mod Opcode
pub mod RoundTrip
mod Examples
use jerryscript_optimizer.Prelude.{
  ℕ, zero, suc, ◌+◌, ◌-◌, ◌%◌, ◌^◌, Bool, true, false, ◌&&◌, ◌||◌, Option, none, some, List, [],
  ◌∷◌, ◌++◌, ◌==◌, ltb, leb, drop, if◌then◌else◌,
}
use jerryscript_optimizer.Inst.{
  Literal, LiteralType, Argument, OperandType, Ins, InstFlags, no_flags, add_flag,
}
use jerryscript_optimizer.Bytecode.{BytecodeArguments, CbcMacros}
use jerryscript_optimizer.Codec.{
  Read, next, decode_literal_index, literal_type, decode_branch, decode_line,
}

-- The instruction that is being decoded and the bytes still to be read.
pub record Decoding : Type 0 where
  pub ins : Ins
  pub bytes : List ℕ

abbrev pub M : Type 0 → Type 0
M A = Decoding → Option (A × Decoding)

infixl 5 ◌>>=◌ ◌>>◌
abbrev pub after : {A B : Type 0} → Option (A × Decoding) → (A → M B) → Option (B × Decoding)
after none f = none
after (some (a, s)) f = f a s

abbrev pub ◌>>=◌ : {A B : Type 0} → M A → (A → M B) → M B
◌>>=◌ m f s = after (m s) f

abbrev pub ◌>>◌ : {B : Type 0} → M (Unit {0}) → M B → M B
◌>>◌ m k s = after (m s) (λ u. k)

abbrev pub return : {A : Type 0} → A → M A
return a s = some (a, s)

abbrev pub done : M (Unit {0})
done s = some (tt, s)

abbrev pub assert : Bool → M (Unit {0})
assert true s = some (tt, s)
assert false s = none

-- A value that was read, with the bytes behind it.
abbrev pub take_from : Read → M ℕ
take_from none s = none
take_from (some (value, rest)) s = some (value, record s { bytes = rest })

-- `byteCode()->next()`
unfoldable pub next_byte : M ℕ
next_byte s = take_from (next s.bytes) s

unfoldable pub mark : InstFlags → M (Unit {0})
mark f s = some (tt, record s { ins = add_flag s.ins f })

unfoldable pub add_literal : Literal → M (Unit {0})
add_literal lit s =
    let arg = s.ins.argument in
    some (
      tt,
      record s {
        ins = record (s.ins) { argument = record arg { literals = arg.literals ++ (lit ∷ []) } };
      },
    )

unfoldable pub push_read_reg : ℕ → M (Unit {0})
push_read_reg r s =
    some (tt, record s { ins = record (s.ins) { read_regs = s.ins.read_regs ++ (r ∷ []) } })

unfoldable pub store_write_reg : ℕ → M (Unit {0})
store_write_reg r s = some (tt, record s { ins = record (s.ins) { write_reg = r } })

unfoldable pub store_byte_arg : ℕ → M (Unit {0})
store_byte_arg b s = some (
  tt,
  record s { ins = record (s.ins) { argument = record (s.ins.argument) { byte_arg = some b } } },
)

-- `byte = byteCode()->next(); argument_.setByteArg(byte)`
unfoldable pub read_byte_arg : M (Unit {0})
read_byte_arg = do b ← next_byte; store_byte_arg b

-- The part of JerryScript's decode table that the decoder reads: the operands, the group, the bits
-- of the result, and for a branch its direction and the number of its bytes.
pub record OpcodeData (G : Type 0) : Type 0 where
  pub operands : OperandType
  pub group : G
  pub is_put_ident : Bool
  pub is_backward_branch : Bool
  pub branch_offset_length : ℕ

module _ (args : BytecodeArguments) where
  unfoldable pub read_literal_index : M ℕ
  read_literal_index s = take_from (decode_literal_index args s.bytes) s

  unfoldable pub decode_template_literal : M Literal
  decode_template_literal = do
    index ← read_literal_index
    assert (leb args.const_literal_end index && ltb index args.literal_end)
    return (record { kind = LiteralType.template; index = index })

  unfoldable pub decode_string_literal : M Literal
  decode_string_literal = do
    index ← read_literal_index
    assert (leb args.register_end index && ltb index args.ident_end)
    return (record { kind = LiteralType.ident; index = index })

  -- `decodeLiteral(index)`: a register among the literals counts as read.
  unfoldable pub literal_at : ℕ → M Literal
  literal_at index = do
    assert (ltb index args.const_literal_end || ltb index args.literal_end)
    let lit : Literal = record { kind = literal_type args index; index = index }
    (if ltb index args.register_end
        then (do mark InstFlags.read_reg; push_read_reg index)
        else done)
    add_literal lit
    return lit

  unfoldable pub decode_literal : M Literal
  decode_literal = do index ← read_literal_index; literal_at index

  unfoldable pub set_write_reg : ℕ → M (Unit {0})
  set_write_reg index = do
    mark InstFlags.write_reg
    store_write_reg index
    lit ← literal_at index
    done

  unfoldable pub add_read_reg : ℕ → M (Unit {0})
  add_read_reg index = do mark InstFlags.read_reg; push_read_reg index; lit ← literal_at index; done

  -- `setStringLiteral(index)`
  pub set_string_literal_index : ℕ → M (Unit {0})
  set_string_literal_index index = do
    assert (leb args.register_end index && ltb index args.ident_end)
    add_literal (record { kind = LiteralType.ident; index = index })

  -- `setStringLiteral()`
  pub set_string_literal : M (Unit {0})
  set_string_literal = do lit ← decode_string_literal; add_literal lit

  -- `processPut`. `base->type()` is never INTERNAL, since `pop` returns a value of type ANY; so a
  -- put by reference records nothing.
  unfoldable pub process_put_ident : M (Unit {0})
  process_put_ident = do
    index ← read_literal_index
    (if ltb index args.register_end then set_write_reg index else (do lit ← literal_at index; done))

  unfoldable pub process_put : Bool → M (Unit {0})
  process_put is_put_ident = if is_put_ident then process_put_ident else done

  unfoldable pub store_branch_offset : ℕ → M (Unit {0})
  store_branch_offset offset s = some (
    tt,
    record s {
      ins = record (s.ins) { argument = record (s.ins.argument) { branch_offset = offset } };
    },
  )

  unfoldable pub read_branch : ℕ → Bool → M ℕ
  read_branch len backward s = take_from (decode_branch len backward s.bytes) s

  -- `Argument argument(operands)`
  unfoldable pub fresh_argument : OperandType → M (Unit {0})
  fresh_argument kind s = some (
    tt,
    record s {
      ins = record (s.ins) {
        argument = record {
          operands = kind;
          branch_offset = 0;
          line_info = 0;
          byte_arg = none;
          literals = [];
        };
      };
    },
  )

  unfoldable pub one_literal : M (Unit {0})
  one_literal = do lit ← decode_literal; done

  unfoldable pub decode_operands : OperandType → ℕ → Bool → M (Unit {0})
  decode_operands OperandType.no_operand len backward = done
  decode_operands OperandType.branch len backward = do
    offset ← read_branch len backward
    store_branch_offset offset
  decode_operands OperandType.stack len backward = done
  decode_operands OperandType.stack_stack len backward = done
  decode_operands OperandType.literal len backward = one_literal
  decode_operands OperandType.literal_literal len backward = do one_literal; one_literal
  decode_operands OperandType.stack_literal len backward = one_literal
  decode_operands OperandType.this_literal len backward = one_literal

  unfoldable pub decode_arguments : {G : Type 0} → OpcodeData G → M (Unit {0})
  decode_arguments op = do
    fresh_argument op.operands
    decode_operands op.operands op.branch_offset_length op.is_backward_branch
