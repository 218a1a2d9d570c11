-- ===== src/Bytecode/Header.antt =====
-- src/bytecode.cpp, `decodeHeader`: what is read from the front of a function's compiled code, and
-- where its byte code starts and ends. The macros on the flags and the layout of the two argument
-- blocks are parameters; offsets count bytes from the start of the compiled code.
use jerryscript_optimizer.Prelude.{ℕ, ◌+◌, ◌*◌, ◌^◌, Bool, true, false, not, List, ◌==◌, bit_and}
use jerryscript_optimizer.Bytecode.{
  CbcMacros, CbcArguments, BytecodeArguments, BytecodeFlags, set_arguments, set_encoding,
  set_literal_pool, byte_code_end,
}

-- The bits of `status_flags`, and the macro that gives the type of a function.
pub record FlagBits : Type 0 where
  pub has_extended_info : ℕ
  pub has_tagged_literals : ℕ
  pub uint16_arguments : ℕ
  pub full_literal_encoding : ℕ
  pub mapped_arguments_needed : ℕ
  pub function_get_type : ℕ → ℕ
  pub function_constructor : ℕ

-- The two blocks of arguments: how they are read and their `sizeof`; and `sizeof(ecma_value_t)` and
-- `JMEM_ALIGNMENT_LOG`.
pub record Structures : Type 0 where
  pub u8_arguments : List ℕ → CbcArguments
  pub u16_arguments : List ℕ → CbcArguments
  pub u8_size : ℕ
  pub u16_size : ℕ
  pub value_size : ℕ
  pub alignment_log : ℕ

abbrev pub has_bit : ℕ → ℕ → Bool
has_bit flags bit = not (bit_and flags bit == 0)

abbrev pub uint16_arguments : FlagBits → ℕ → Bool
uint16_arguments bits flags = has_bit flags bits.uint16_arguments

abbrev pub full_literal_encoding : FlagBits → ℕ → Bool
full_literal_encoding bits flags = has_bit flags bits.full_literal_encoding

-- The flags that decide what stands behind the byte code.
abbrev pub end_flags : FlagBits → ℕ → BytecodeFlags
end_flags bits flags = record {
  mapped_arguments_needed = has_bit flags bits.mapped_arguments_needed;
  has_extended_info = has_bit flags bits.has_extended_info;
  has_name = not (bits.function_get_type flags == bits.function_constructor);
  has_tagged_template_literals = has_bit flags bits.has_tagged_literals;
}

-- Both overloads of `setArguments`, by the flag for the wide block.
abbrev pub struct_size : Structures → Bool → ℕ
struct_size s true = s.u16_size
struct_size s false = s.u8_size

abbrev pub read_block : Structures → Bool → List ℕ → CbcArguments
read_block s true bytes = s.u16_arguments bytes
read_block s false bytes = s.u8_arguments bytes

pub record Header : Type 0 where
  pub args : BytecodeArguments
  pub literal_pool_size : ℕ
  pub byte_code_start : ℕ
  pub byte_code_end : ℕ

-- `decodeHeader` on the flags, the size in units of the alignment, and the bytes of the code; `blank`
-- is what `args_` held before.
unfoldable pub decode_header :
    FlagBits → Structures → CbcMacros → BytecodeArguments → ℕ → ℕ → List ℕ → Header
decode_header bits s m blank flags size bytes =
    let wide = uint16_arguments bits flags in
    let read = set_arguments blank (read_block s wide bytes) (struct_size s wide) in
    let args = set_encoding m (full_literal_encoding bits flags) read in
    let count = (set_literal_pool read.register_end read).0.size in
    record {
      args = args;
      literal_pool_size = count;
      byte_code_start = struct_size s wide + count * s.value_size;
      byte_code_end =
          byte_code_end s.value_size (size * 2 ^ s.alignment_log) (end_flags bits flags) args;
    }
