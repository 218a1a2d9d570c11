-- ===== src/Emit.antt =====
-- src/bytecode.cpp and src/inst.cpp: writing a function's code back. The layout of JerryScript's
-- structures and the macro that rounds a size up are parameters.
pub mod Layout
pub mod Header
mod Examples
use jerryscript_optimizer.Prelude.{
  ℕ, zero, suc, ◌+◌, ◌-◌, ◌*◌, ◌/◌, ◌%◌, ◌^◌, Bool, true, false, Option, none, some, List, [], ◌∷◌,
  ◌++◌, ◌==◌, length, drop, and_then, if◌then◌else◌,
}
use jerryscript_optimizer.Inst.{Ins, Argument}
use jerryscript_optimizer.Bytecode.{
  CbcMacros, CbcArguments, BytecodeArguments, to_u8args, to_u16args,
}
use jerryscript_optimizer.Codec.{emit_line, emit_argument}
use jerryscript_optimizer.Decoder.Opcode.{OpcodeMarks, emit_opcode}

-- A word of 32 bits has at most five groups of seven.
abbrev pub line_fuel : ℕ
line_fuel = 5

-- `Ins::emit`; `ext_line` is `CBC_EXT_LINE`.
pub emit_ins : CbcMacros → OpcodeMarks → ℕ → BytecodeArguments → Ins → Option (List ℕ)
emit_ins m k ext_line args ins =
    if ins.opcode == ext_line + 256
    then and_then (emit_line m line_fuel ins.argument.line_info)
        (λ bytes. some (k.ext_opcode % 2 ^ 8 ∷ (ext_line % 2 ^ 8) ∷ bytes))
    else and_then (emit_argument m args ins.argument)
        (λ bytes. some (emit_opcode k ins.opcode ++ bytes))

-- `emitInstructions`
pub emit_instructions : CbcMacros → OpcodeMarks → ℕ → BytecodeArguments → List Ins → Option (List ℕ)
emit_instructions m k ext_line args [] = some []
emit_instructions m k ext_line args (ins ∷ insns) =
    and_then (emit_ins m k ext_line args ins)
      (λ bytes. and_then (emit_instructions m k ext_line args insns) (λ rest. some (bytes ++ rest)))

-- What JerryScript fixes: the bytes of the two argument blocks, `JERRY_ALIGNUP` at
-- `JMEM_ALIGNMENT`, and the logarithm of the latter.
pub record Memory : Type 0 where
  pub u8_bytes : CbcArguments → List ℕ
  pub u16_bytes : CbcArguments → List ℕ
  pub align_up : ℕ → ℕ
  pub alignment_log : ℕ

-- `emitHeader`: the argument block and the literal pool. The block is as long as `args_.size()`,
-- which `setArguments` took from the same structure.
pub emit_header : Memory → Bool → BytecodeArguments → List ℕ → List ℕ
emit_header memory uint16 args pool =
    (if uint16 then memory.u16_bytes (to_u16args args) else memory.u8_bytes (to_u8args args))
    ++ pool

unfoldable pub zeros : ℕ → List ℕ
zeros zero = []
zeros (suc n) = 0 ∷ zeros n

unfoldable pub take : ℕ → List ℕ → List ℕ
take zero xs = []
take (suc n) [] = []
take (suc n) (x ∷ xs) = x ∷ take n xs

-- The new compiled code, and its field `size`, which counts units of the alignment in 16 bits.
pub record Compiled : Type 0 where
  pub bytes : List ℕ
  pub size : ℕ

-- `buffer.resize(total)`, `memset`, and the end of the old code copied to the end of the new one.
pub finish_buffer : Memory → ℕ → List ℕ → List ℕ → Compiled
finish_buffer memory end_info old buffer =
    let total = memory.align_up (length buffer + end_info) in
    let padded = buffer ++ zeros (total - length buffer) in
    record {
      bytes =
          if end_info == 0
          then padded
          else take (total - end_info) padded ++ drop (length old - end_info) old;
      size = total / 2 ^ memory.alignment_log % 2 ^ 16;
    }

-- `emit`, up to the pointers that are set to the new code.
pub emit :
    CbcMacros
    → OpcodeMarks
    → ℕ
    → Memory
    → Bool
    → BytecodeArguments
    → List ℕ
    → ℕ
    → List ℕ
    → List Ins
    → Option Compiled
emit m k ext_line memory uint16 args pool end_info old insns =
    and_then (emit_instructions m k ext_line args insns) (λ bytes.
      some (finish_buffer memory end_info old (emit_header memory uint16 args pool ++ bytes)))
