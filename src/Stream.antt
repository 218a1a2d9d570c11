-- ===== src/Stream.antt =====
-- src/bytecode.cpp, `buildInstructions`, with `setOffset` and `setSize` of src/inst.h: the loop that
-- reads the instructions of a function, one behind the other. The list of instructions is kept with
-- the newest in front, and is turned round at the end.
-- JerryScript's decode table is a parameter, and so is what the memory of a new instruction holds
-- where its constructor stores nothing.
pub mod Decode
pub mod Chain
pub mod Tiling
pub mod Typed
pub mod Memory
pub mod Graph
pub mod Sample
mod Examples
use jerryscript_optimizer.Prelude.{
  ℕ, zero, suc, ◌+◌, ◌-◌, ◌%◌, ◌^◌, Option, none, some, List, [], ◌∷◌, ◌==◌, ltb, length,
  if◌then◌else◌,
}
use jerryscript_optimizer.Inst.{OperandType, Ins, no_flags}
use jerryscript_optimizer.Bytecode.{BytecodeArguments, CbcMacros}
use jerryscript_optimizer.Decoder.{Decoding, OpcodeData, after, decode_arguments, ◌>>◌}
use jerryscript_optimizer.Decoder.Opcode.{OpcodeMarks, decode_cbc_opcode}
use jerryscript_optimizer.Decoder.Group.{GroupOpcode, OpcodeNumbers, decode_group_opcode}

-- JerryScript's numbers and its decode table.
pub record Tables : Type 0 where
  pub macros : CbcMacros
  pub codes : OpcodeNumbers
  pub marks : OpcodeMarks
  pub decode_table : ℕ → OpcodeData GroupOpcode

-- What a new instruction holds where the constructor `Ins` stores nothing. `operands` stands for
-- OPERAND_TYPE__COUNT, the type of its first argument, which `decodeArguments` replaces.
pub record Unset : Type 0 where
  pub operands : OperandType
  pub size : ℕ
  pub bb : ℕ
  pub write_reg : ℕ

-- `Ins(byte_code)`
abbrev pub new_ins : Unset → Ins
new_ins u = record {
  opcode = 0;
  argument = record {
    operands = u.operands;
    branch_offset = 0;
    line_info = 0;
    byte_arg = none;
    literals = [];
  };
  flags = no_flags;
  offset = 0;
  size = u.size;
  bb = u.bb;
  read_regs = [];
  write_reg = u.write_reg;
}

-- `decode_table[opcode]`, and `decode_table[cbc_op + CBC_END + 1]` for an extended one, which is
-- kept as `cbc_op + 256`.
abbrev pub opcode_data : Tables → ℕ → OpcodeData GroupOpcode
opcode_data t opcode =
    if ltb opcode 256
    then t.decode_table opcode
    else t.decode_table (opcode - 256 + t.codes.cbc_end + 1)

-- `setOffset` at the instruction before the new one.
pub set_previous_size : ℕ → List Ins → List Ins
set_previous_size offset [] = []
set_previous_size offset (previous ∷ older) =
    record previous { size = (offset + 2 ^ 32 - previous.offset) % 2 ^ 32 } ∷ older

pub data Built : Type 0 where
  built : List Ins → Built
  -- an assertion failed
  failed : Built
  -- `back()` of no instructions
  undefined : Built
  out_of_fuel : Built

abbrev pub reverse_onto : List Ins → List Ins → List Ins
reverse_onto acc [] = acc
reverse_onto acc (i ∷ newer) = reverse_onto (i ∷ acc) newer

module _ (t : Tables) (args : BytecodeArguments) (unset : ℕ → Unset) (code : List ℕ) where
  -- `offset()`
  abbrev pub offset_of : List ℕ → ℕ
  offset_of bytes = (length code - length bytes) % 2 ^ 32

  -- `decodeArguments` and `decodeGroupOpcode`, when `decodeCBCOpcode` returned true.
  pub decode_body : ℕ → ℕ → List ℕ → Option ((Unit {0}) × Decoding)
  decode_body offset opcode bytes =
      let op = opcode_data t opcode in
      let fresh = new_ins (unset offset) in
      (decode_arguments args op
          >> decode_group_opcode t.macros t.codes args code op.is_put_ident op.group)
        (record { ins = record fresh { opcode = opcode; offset = offset }; bytes = bytes })

  pub instruction_of : Option ((Unit {0}) × Decoding) → Option (Option Ins × List ℕ)
  instruction_of none = none
  instruction_of (some (u, s)) = some (some s.ins, s.bytes)

  pub decode_behind : ℕ → Option (Option ℕ × List ℕ) → Option (Option Ins × List ℕ)
  decode_behind offset none = none
  decode_behind offset (some (none, rest)) = some (none, rest)
  decode_behind offset (some (some opcode, rest)) = instruction_of (decode_body offset opcode rest)

  -- One turn of the loop, at the bytes from `offset` on: `some (none, _)` is the end mark.
  pub decode_ins : ℕ → List ℕ → Option (Option Ins × List ℕ)
  decode_ins offset bytes = decode_behind offset (decode_cbc_opcode t.marks bytes)

  -- What stands behind the loop.
  pub finish : List Ins → List ℕ → Built
  finish [] bytes = Built.undefined
  finish (last ∷ older) bytes =
      let sized = record last { size = (offset_of bytes + 2 ^ 32 - last.offset) % 2 ^ 32 } in
      Built.built (reverse_onto [] ((if last.size == 0 then sized else last) ∷ older))

  -- `k` is the rest of the loop.
  pub after_turn : List Ins → Option (Option Ins × List ℕ) → (List Ins → List ℕ → Built) → Built
  after_turn made none k = Built.failed
  after_turn made (some (none, rest)) k = finish made rest
  after_turn made (some (some ins, rest)) k = k (ins ∷ made) rest

  pub build_loop : ℕ → List Ins → List ℕ → Built
  build_loop zero made bytes = Built.out_of_fuel
  build_loop (suc fuel) made [] = finish made []
  build_loop (suc fuel) made (b ∷ bytes) =
      let offset = offset_of (b ∷ bytes) in
      after_turn (set_previous_size offset made) (decode_ins offset (b ∷ bytes)) (build_loop fuel)

  -- Each turn takes a byte at least.
  pub build_instructions : Built
  build_instructions = build_loop (suc (length code)) [] code
