-- ===== src/Bytecode.antt =====
-- src/bytecode.h and the header part of src/bytecode.cpp: the argument block of a function, the
-- literal pool and the encoding of literals. All numbers are words of the width that the source
-- gives them. The macros and the sizes of JerryScript's structures are parameters.
pub mod Arguments
pub mod Pool
pub mod Header
mod Examples
use jerryscript_optimizer.Prelude.{
  ℕ, ◌+◌, ◌-◌, ◌*◌, ◌/◌, ◌%◌, ◌^◌, ◌≡◌, Bool, true, false, if◌then◌else◌,
}

-- The macros of JerryScript's byte-code.h that the codec uses.
pub record CbcMacros : Type 0 where
  pub small_literal_encoding_limit : ℕ
  pub small_literal_encoding_delta : ℕ
  pub full_literal_encoding_limit : ℕ
  pub full_literal_encoding_delta : ℕ
  pub maximum_byte_value : ℕ
  pub maximum_small_value : ℕ
  pub maximum_full_value : ℕ
  pub lower_seven_bit_mask : ℕ
  pub highest_bit_mask : ℕ

-- Their documented values.
pub record AreDocumented (m : CbcMacros) : Type 0 where
  pub small_limit : m.small_literal_encoding_limit ≡ 255
  pub small_delta : m.small_literal_encoding_delta ≡ 0xfe01
  pub full_limit : m.full_literal_encoding_limit ≡ 128
  pub full_delta : m.full_literal_encoding_delta ≡ 0x8000
  pub byte_max : m.maximum_byte_value ≡ 255
  pub small_max : m.maximum_small_value ≡ 510
  pub full_max : m.maximum_full_value ≡ 32767
  pub seven_bits : m.lower_seven_bit_mask ≡ 0x7f
  pub top_bit : m.highest_bit_mask ≡ 0x80

-- The fields that `cbc_uint8_arguments_t` and `cbc_uint16_arguments_t` have in common, with the value
-- of the realm, as in a build with `JERRY_BUILTIN_REALMS`.
pub record CbcArguments : Type 0 where
  pub argument_end : ℕ
  pub register_end : ℕ
  pub ident_end : ℕ
  pub const_literal_end : ℕ
  pub literal_end : ℕ
  pub stack_limit : ℕ
  pub realm_value : ℕ

pub record BytecodeArguments : Type 0 where
  pub argument_end : ℕ
  pub register_end : ℕ
  pub ident_end : ℕ
  pub const_literal_end : ℕ
  pub literal_end : ℕ
  pub encoding_limit : ℕ
  pub encoding_delta : ℕ
  pub one_byte_limit : ℕ
  pub stack_limit : ℕ
  pub realm_value : ℕ
  pub size : ℕ

-- Both `setArguments`: the fields are copied, widened to uint16_t in the case of the small block.
-- `struct_size` is the block's `sizeof`.
unfoldable pub set_arguments : BytecodeArguments → CbcArguments → ℕ → BytecodeArguments
set_arguments self args struct_size = record self {
  argument_end = args.argument_end;
  register_end = args.register_end;
  ident_end = args.ident_end;
  const_literal_end = args.const_literal_end;
  literal_end = args.literal_end;
  stack_limit = args.stack_limit;
  realm_value = args.realm_value;
  size = struct_size % 2 ^ 16;
}

unfoldable pub to_u8args : BytecodeArguments → CbcArguments
to_u8args self = record {
  argument_end = self.argument_end % 2 ^ 8;
  register_end = self.register_end % 2 ^ 8;
  ident_end = self.ident_end % 2 ^ 8;
  const_literal_end = self.const_literal_end % 2 ^ 8;
  literal_end = self.literal_end % 2 ^ 8;
  stack_limit = self.stack_limit % 2 ^ 8;
  realm_value = self.realm_value;
}

unfoldable pub to_u16args : BytecodeArguments → CbcArguments
to_u16args self = record {
  argument_end = self.argument_end;
  register_end = self.register_end;
  ident_end = self.ident_end;
  const_literal_end = self.const_literal_end;
  literal_end = self.literal_end;
  stack_limit = self.stack_limit;
  realm_value = self.realm_value;
}

-- `static_cast<uint16_t>(x + offset)`; 2 ^ 16 divides 2 ^ 32, so the pattern of `offset` serves.
unfoldable pub move_reg_index : BytecodeArguments → ℕ → BytecodeArguments
move_reg_index self offset = record self {
  register_end = (self.register_end + offset) % 2 ^ 16;
  ident_end = (self.ident_end + offset) % 2 ^ 16;
  const_literal_end = (self.const_literal_end + offset) % 2 ^ 16;
  literal_end = (self.literal_end + offset) % 2 ^ 16;
}

unfoldable pub set_encoding : CbcMacros → Bool → BytecodeArguments → BytecodeArguments
set_encoding m full self =
    if full
    then record self {
      encoding_limit = m.full_literal_encoding_limit;
      encoding_delta = m.full_literal_encoding_delta;
      one_byte_limit = m.lower_seven_bit_mask;
    }
    else record self {
      encoding_limit = m.small_literal_encoding_limit;
      encoding_delta = m.small_literal_encoding_delta;
      one_byte_limit = m.maximum_byte_value - 1;
    }

-- `size_` and `end_` count entries; the pool's entries stand from `literal_pool_start` on, and
-- `literal_start` is the address that index 0 would have, `register_end` entries below. Addresses
-- count entries too.
pub record LiteralPool : Type 0 where
  pub literal_pool_start : ℕ
  pub literal_start : ℕ
  pub size : ℕ
  pub end : ℕ

-- The new pool and the address behind it, where the byte code starts.
unfoldable pub set_literal_pool : ℕ → BytecodeArguments → LiteralPool × ℕ
set_literal_pool start args =
    let count = (args.literal_end + 2 ^ 16 - args.register_end) % 2 ^ 16 in
    (
      record {
        literal_pool_start = start;
        literal_start = start - args.register_end;
        size = count;
        end = args.literal_end;
      },
      start + count,
    )

-- `literalStart()[index]`, as an address.
unfoldable pub literal_address : LiteralPool → ℕ → ℕ
literal_address pool index = pool.literal_start + index

-- The flags of a function that decide what stands behind its instructions.
pub record BytecodeFlags : Type 0 where
  pub mapped_arguments_needed : Bool
  pub has_extended_info : Bool
  pub has_name : Bool
  pub has_tagged_template_literals : Bool

-- `end_info`: the bytes behind the instructions; `value_size` is `sizeof(ecma_value_t)`.
unfoldable pub end_info : ℕ → BytecodeFlags → BytecodeArguments → ℕ
end_info value_size flags args =
    let mapped = if flags.mapped_arguments_needed then args.argument_end * value_size else 0 in
    let extended = if flags.has_extended_info then value_size else 0 in
    let name = if flags.has_name then value_size else 0 in
    let tagged = if flags.has_tagged_template_literals then value_size else 0 in
    mapped + extended + name + tagged

-- The offset of `byte_code_end_` in the compiled code of `size` bytes.
unfoldable pub byte_code_end : ℕ → ℕ → BytecodeFlags → BytecodeArguments → ℕ
byte_code_end value_size size flags args = size - end_info value_size flags args
