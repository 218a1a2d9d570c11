-- ===== src/Emit/Header.antt =====
-- Reading of what `Bytecode::emit` wrote: `decodeHeader` on the new code.
use mathlib.Core.List.{append_assoc, append-nil}
use jerryscript_optimizer.Prelude.{
  ℕ, ◌+◌, ◌-◌, ◌*◌, ◌/◌, ◌%◌, ◌^◌, ◌≤◌, ◌<◌, ◌≡◌, some, refl, sym, ap, ◌∙◌, Bool, true, false, List,
  ◌++◌, length, length-append, drop, drop-append, arith,
}
use jerryscript_optimizer.Inst.{Ins}
use jerryscript_optimizer.Bytecode.{
  CbcMacros, CbcArguments, BytecodeArguments, BytecodeFlags, set_arguments, to_u8args, to_u16args,
  set_encoding, set_literal_pool, end_info, byte_code_end,
}
use jerryscript_optimizer.Bytecode.Arguments.{IsOrdered}
use jerryscript_optimizer.Bytecode.Header.{
  FlagBits, Structures, Header, struct_size, read_block, uint16_arguments, full_literal_encoding,
  end_flags, decode_header,
}
use jerryscript_optimizer.Decoder.Opcode.{OpcodeMarks}
use jerryscript_optimizer.Emit.{Memory, Compiled, emit_header, emit_instructions, emit, take, zeros}
use jerryscript_optimizer.Emit.Layout.{
  RoundsUp, AreZero, emitted-IsLaidOut, IsLaidOut, take-append, length-zeros,
}

-- The bytes from `byteCodeStart()` on to the end that `hasNext()` tests.
pub byte_code : Header → List ℕ → List ℕ
byte_code h bytes = take (h.byte_code_end - h.byte_code_start) (drop h.byte_code_start bytes)

-- The fields are below a bound, and the value of the realm is a word of 32 bits.
abbrev pub IsBelow : ℕ → CbcArguments → Type 0
IsBelow n a =
    (a.argument_end < n)
    × (a.register_end < n)
    × (a.ident_end < n)
    × (a.const_literal_end < n)
    × (a.literal_end < n)
    × (a.stack_limit < n)
    × (a.realm_value < 2 ^ 32)

-- The blocks are read as they were written, and have the length of their structures.
pub record ReadsBack (memory : Memory) (s : Structures) : Type 0 where
  pub u8_back :
      (a : CbcArguments) (rest : List ℕ)
      → IsBelow (2 ^ 8) a
      → s.u8_arguments (memory.u8_bytes a ++ rest) ≡ a
  pub u16_back :
      (a : CbcArguments) (rest : List ℕ)
      → IsBelow (2 ^ 16) a
      → s.u16_arguments (memory.u16_bytes a ++ rest) ≡ a
  pub u8_length : (a : CbcArguments) → length (memory.u8_bytes a) ≡ s.u8_size
  pub u16_length : (a : CbcArguments) → length (memory.u16_bytes a) ≡ s.u16_size
  pub same_log : memory.alignment_log ≡ 3
  pub alignment : s.alignment_log ≡ 3

-- The ends are in order and fit the block, and the size is the block's.
pub record Fits (s : Structures) (wide : Bool) (a : BytecodeArguments) : Type 0 where
  pub ordered : IsOrdered a
  pub sized : a.size ≡ struct_size s wide
  pub small : struct_size s wide < 2 ^ 16
  pub stack : a.stack_limit < 2 ^ 16
  pub realm : a.realm_value < 2 ^ 32
  pub narrow : wide ≡ false → (a.literal_end < 2 ^ 8) × (a.stack_limit < 2 ^ 8)

-- What the two encodings do not set.
abbrev pub with_encoding : BytecodeArguments → BytecodeArguments → BytecodeArguments
with_encoding blank a = record a {
  encoding_limit = blank.encoding_limit;
  encoding_delta = blank.encoding_delta;
  one_byte_limit = blank.one_byte_limit;
}

set_encoding-with_encoding :
    (m : CbcMacros) (full : Bool) (blank a : BytecodeArguments)
    → set_encoding m full (with_encoding blank a) ≡ set_encoding m full a
unfolding set_encoding
set_encoding-with_encoding m true blank a = refl
set_encoding-with_encoding m false blank a = refl

module _ (memory : Memory) (s : Structures) (back : ReadsBack memory s)
    (blank a : BytecodeArguments) (pool rest : List ℕ) where
  arguments_back :
      (wide : Bool)
      → Fits s wide a
      → set_arguments blank
          (read_block s wide (emit_header memory wide a pool ++ rest))
          (struct_size s wide)
        ≡ with_encoding blank a
  unfolding emit_header set_arguments to_u8args to_u16args
  arguments_back true fits =
      let o = fits.ordered in
      let below : IsBelow (2 ^ 16) (to_u16args a) = (
        omega (arith, o.registers, o.idents, o.constants, o.literals, o.fits),
        omega (arith, o.idents, o.constants, o.literals, o.fits),
        omega (arith, o.constants, o.literals, o.fits),
        omega (arith, o.literals, o.fits),
        o.fits,
        fits.stack,
        fits.realm,
      ) in
      let split = append_assoc (memory.u16_bytes (to_u16args a)) pool rest in
      let read : s.u16_arguments (emit_header memory true a pool ++ rest) ≡ to_u16args a =
        ap s.u16_arguments split ∙ back.u16_back (to_u16args a) (pool ++ rest) below in
      let filled : set_arguments blank (to_u16args a) s.u16_size ≡ with_encoding blank a =
        ground (arith, fits.sized, fits.small) in
      ap (λ x. set_arguments blank x s.u16_size) read ∙ filled
  arguments_back false fits =
      let o = fits.ordered in
      let (low, low_stack) = fits.narrow refl in
      let below : IsBelow (2 ^ 8) (to_u8args a) = ground (arith, fits.realm) in
      let split = append_assoc (memory.u8_bytes (to_u8args a)) pool rest in
      let read : s.u8_arguments (emit_header memory false a pool ++ rest) ≡ to_u8args a =
        ap s.u8_arguments split ∙ back.u8_back (to_u8args a) (pool ++ rest) below in
      let filled : set_arguments blank (to_u8args a) s.u8_size ≡ with_encoding blank a = ground (
        arith, fits.sized, fits.small, o.registers, o.idents, o.constants, o.literals, low,
        low_stack,
      ) in
      ap (λ x. set_arguments blank x s.u8_size) read ∙ filled

length-header :
    (memory : Memory) (s : Structures) (wide : Bool) (a : BytecodeArguments) (pool : List ℕ)
    → ReadsBack memory s
    → length (emit_header memory wide a pool) ≡ struct_size s wide + length pool
unfolding emit_header
length-header memory s true a pool back =
    omega
      (arith, length-append (memory.u16_bytes (to_u16args a)) pool, back.u16_length (to_u16args a))
length-header memory s false a pool back =
    omega (arith, length-append (memory.u8_bytes (to_u8args a)) pool, back.u8_length (to_u8args a))

end_info_same :
    (v : ℕ) (flags : BytecodeFlags) (m : CbcMacros) (full : Bool) (a : BytecodeArguments)
    → end_info v flags (set_encoding m full a) ≡ end_info v flags a
unfolding end_info set_encoding
end_info_same v flags m true a = refl
end_info_same v flags m false a = refl

-- A part of a list, behind what stands in front of it.
slice :
    (front code back : List ℕ) (n : ℕ)
    → n ≡ length code
    → take n (drop (length front) (front ++ (code ++ back))) ≡ code
unfolding take
slice front code back n e =
    let cut = ap (take n) (drop-append front (code ++ back)) in
    let more : n ≡ length code + 0 = omega arith in
    cut ∙ take-append code back 0 n more ∙ append-nil code

-- What `decodeHeader` makes of code that is laid out.
header_back :
    (bits : FlagBits) (s : Structures) (m : CbcMacros) (k : OpcodeMarks) (ext_line : ℕ)
    (memory : Memory) (flags : ℕ) (blank a : BytecodeArguments) (pool old : List ℕ)
    (insns : List Ins) (e : Compiled)
    → ReadsBack memory s
    → Fits s (uint16_arguments bits flags) a
    → length pool ≡ (a.literal_end - a.register_end) * s.value_size
    → length e.bytes < 2 ^ 19
    → (l : IsLaidOut m k ext_line memory
        (uint16_arguments bits flags)
        a
        pool
        (end_info s.value_size (end_flags bits flags) a)
        old
        insns
        e)
    → let h = decode_header bits s m blank flags e.size e.bytes in
      (h.args ≡ set_encoding m (full_literal_encoding bits flags) a)
      × (h.literal_pool_size ≡ a.literal_end - a.register_end)
      × (byte_code h e.bytes ≡ l.code ++ zeros l.pad)
unfolding decode_header byte_code byte_code_end set_literal_pool
header_back bits s m k ext_line memory flags blank a pool old insns e back fits sized few l =
    let wide = uint16_arguments bits flags in
    let full = full_literal_encoding bits flags in
    let end = end_info s.value_size (end_flags bits flags) a in
    let header = emit_header memory wide a pool in
    let tail = drop (length old - end) old in
    let rest : List ℕ = l.code ++ (zeros l.pad ++ tail) in
    let parts : e.bytes ≡ header ++ rest =
      l.parts ∙ append_assoc header l.code (zeros l.pad ++ tail) in
    let read : set_arguments blank (read_block s wide e.bytes) (struct_size s wide)
        ≡ with_encoding blank a =
      ap (λ bytes. set_arguments blank (read_block s wide bytes) (struct_size s wide)) parts
      ∙ arguments_back memory s back blank a pool rest wide fits in
    let args = ap (set_encoding m full) read ∙ set_encoding-with_encoding m full blank a in
    let o = fits.ordered in
    let count_read =
      ap (λ (x : BytecodeArguments). (x.literal_end + 2 ^ 16 - x.register_end) % 2 ^ 16) read in
    let count : (a.literal_end + 2 ^ 16 - a.register_end) % 2 ^ 16
        ≡ a.literal_end - a.register_end =
      omega (arith, o.fits, o.literals, o.constants, o.idents) in
    let start = length-header memory s wide a pool back ∙ ap (λ n. struct_size s wide + n) sized in
    let units : e.size ≡ length e.bytes / 2 ^ 3 % 2 ^ 16 = rw back.same_log at l.units in
    let whole : length e.bytes % 2 ^ 3 ≡ 0 = rw back.same_log at l.whole in
    let size : e.size * 2 ^ 3 ≡ length e.bytes = omega (arith, units, whole, few) in
    let both = length-append l.code (zeros l.pad) in
    let pads = length-zeros l.pad in
    let room : e.size * 2 ^ 3 - end - length header ≡ length (l.code ++ zeros l.pad) =
      omega (arith, size, l.total, both, pads) in
    let shape : e.bytes ≡ header ++ ((l.code ++ zeros l.pad) ++ tail) =
      parts ∙ ap (λ x. header ++ x) (sym (append_assoc l.code (zeros l.pad) tail)) in
    let cut =
      ap (λ bytes. take (e.size * 2 ^ 3 - end - length header) (drop (length header) bytes)) shape
      ∙ slice header (l.code ++ zeros l.pad) tail (e.size * 2 ^ 3 - end - length header) room in
    let ends =
      ap (end_info s.value_size (end_flags bits flags)) args
      ∙ end_info_same s.value_size (end_flags bits flags) m full a in
    (args, count_read ∙ count, rw (ends, count_read, count, sym start, back.alignment) cut)

-- Where the blocks are read as they were written and the alignment is 8 bytes: when the ends are in
-- order and fit the block that the flags ask for, the pool has an entry for each literal behind the
-- registers, the end is as long as the flags say, and `emit` returned code of fewer than 2 ^ 16
-- units, `decodeHeader` on that code gives the block back, the value of the realm included, with the
-- encoding of the flags; and the byte code that is read next is the bytes of the instructions and
-- fewer zeros than the alignment.
pub decode_header-emit :
    (bits : FlagBits) (s : Structures) (m : CbcMacros) (k : OpcodeMarks) (ext_line : ℕ)
    (memory : Memory) (flags : ℕ) (blank a : BytecodeArguments) (pool old : List ℕ)
    (insns : List Ins) (e : Compiled)
    → ReadsBack memory s
    → AreZero k
    → RoundsUp memory
    → Fits s (uint16_arguments bits flags) a
    → length pool ≡ (a.literal_end - a.register_end) * s.value_size
    → end_info s.value_size (end_flags bits flags) a ≤ length old
    → emit m k ext_line memory
        (uint16_arguments bits flags)
        a
        pool
        (end_info s.value_size (end_flags bits flags) a)
        old
        insns
      ≡ some e
    → length e.bytes < 2 ^ 19
    → let h = decode_header bits s m blank flags e.size e.bytes in
      (h.args ≡ set_encoding m (full_literal_encoding bits flags) a)
      × (h.literal_pool_size ≡ a.literal_end - a.register_end)
      × ((code : List ℕ) × (pad : ℕ) × (emit_instructions m k ext_line a insns ≡ some code)
          × (pad < 8)
          × (byte_code h e.bytes ≡ code ++ zeros pad))
decode_header-emit bits s m k ext_line memory flags blank a pool old insns e back marks up fits
      sized enough run few =
    let end = end_info s.value_size (end_flags bits flags) a in
    let l =
      emitted-IsLaidOut m k ext_line memory (uint16_arguments bits flags) a pool end old insns e
        marks up enough run in
    let (args, count, read) =
      header_back bits s m k ext_line memory flags blank a pool old insns e back fits sized few l in
    let short : l.pad < 8 = rw back.same_log at l.short in
    (args, count, (l.code, l.pad, l.written, short, read))
