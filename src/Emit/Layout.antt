-- ===== src/Emit/Layout.antt =====
-- What `emit` writes: the parts of the new code, their sizes, and what the reader makes of the
-- padding.
use mathlib.Core.Path.{subst}
use mathlib.Core.List.{append_assoc, append-nil}
use jerryscript_optimizer.Prelude.{
  ℕ, zero, suc, ◌+◌, ◌-◌, ◌/◌, ◌%◌, ◌^◌, ◌≤◌, ◌<◌, ◌≡◌, ◌⊎◌, inl, inr, refl, sym, ◌∙◌, ap, Bool,
  Option, none, some, List, [], ◌∷◌, ◌++◌, ◌==◌, leb, true, arith, length, length-append,
  length-drop, drop, drop_all, All, Bool-cases,
}
use jerryscript_optimizer.Inst.{Ins, Literal, Argument, OperandType}
use jerryscript_optimizer.Bytecode.{CbcMacros, AreDocumented, BytecodeArguments}
use jerryscript_optimizer.Codec.{emit_literal, emit_literals, emit_argument}
use jerryscript_optimizer.Codec.Branches.{emit_offset_lem}
use jerryscript_optimizer.Codec.Lines.{emit_line_ends}
use jerryscript_optimizer.Decoder.Opcode.{
  OpcodeMarks, emit_opcode, decode_cbc_opcode, decode_extended,
}
use jerryscript_optimizer.Emit.{
  emit_ins, emit_instructions, Memory, emit_header, zeros, take, Compiled, finish_buffer, emit,
}

-- The macro rounds up to the next multiple of the alignment.
pub record RoundsUp (memory : Memory) : Type 0 where
  pub above : (n : ℕ) → n ≤ memory.align_up n
  pub near : (n : ℕ) → memory.align_up n < n + 2 ^ memory.alignment_log
  pub multiple : (n : ℕ) → memory.align_up n % 2 ^ memory.alignment_log ≡ 0

-- The prefix of extended opcodes and the end mark behind it are both 0.
pub record AreZero (k : OpcodeMarks) : Type 0 where
  pub prefix_zero : k.ext_opcode ≡ 0
  pub nop_zero : k.ext_nop ≡ 0

-- The operands that `emit` writes digit by digit are words, and the literals have an encoding.
abbrev pub HasWords : Ins → Type 0
HasWords ins =
    (ins.argument.branch_offset < 2 ^ 32)
    × (ins.argument.line_info < 2 ^ 32)
    × All (λ lit. lit.index ≤ 32767) ins.argument.literals

pub length-zeros : (n : ℕ) → length (zeros n) ≡ n
unfolding zeros
length-zeros zero = refl
length-zeros (suc n) = omega (arith, length-zeros n)

pub take-append :
    (xs ys : List ℕ) (n k : ℕ) → k ≡ length xs + n → take k (xs ++ ys) ≡ xs ++ take n ys
unfolding take
take-append [] ys n k e = let same : k ≡ n = omega arith in ap (λ j. take j ys) same
take-append (x ∷ xs) ys n zero e = absurd (omega arith)
take-append (x ∷ xs) ys n (suc k) e = ap (λ l. x ∷ l) (take-append xs ys n k (omega arith))

take-zeros : (n k : ℕ) → n ≤ k → take n (zeros k) ≡ zeros n
unfolding take zeros
take-zeros zero k le = refl
take-zeros (suc n) zero le = absurd (omega arith)
take-zeros (suc n) (suc k) le = ap (λ l. 0 ∷ l) (take-zeros n k (omega arith))

-- The padding between the instructions and the end.
finish_buffer_lem :
    (memory : Memory) (end_info : ℕ) (old buffer : List ℕ) (pad : ℕ)
    → memory.align_up (length buffer + end_info) ≡ length buffer + pad + end_info
    → (finish_buffer memory end_info old buffer).bytes
      ≡ buffer ++ (zeros pad ++ drop (length old - end_info) old)
unfolding finish_buffer
finish_buffer_lem memory end_info old buffer pad total = elim (Bool-cases (end_info == 0)) [
  | inl e ↦
      let none_left : drop (length old - end_info) old ≡ [] =
        ap (λ n. drop n old) (ground arith) ∙ drop_all (length old) old (omega arith) in
      let same : memory.align_up (length buffer + end_info) - length buffer ≡ pad = ground arith in
      rw (e, none_left, same, append-nil (zeros pad)) refl
  | inr e ↦
      let all = memory.align_up (length buffer + end_info) in
      let cut =
        take-append buffer (zeros (all - length buffer)) pad (all - end_info)
          (omega (arith, total)) in
      let blank = take-zeros pad (all - length buffer) (omega (arith, total)) in
      let tail = drop (length old - end_info) old in
      rw e (
        ap (λ l. l ++ tail) (cut ∙ ap (λ l. buffer ++ l) blank)
        ∙ append_assoc buffer (zeros pad) tail)
]

emit_literal_ends :
    (m : CbcMacros) (args : BytecodeArguments) (index : ℕ)
    → AreDocumented m
    → index ≤ 32767
    → (bytes : List ℕ) × (emit_literal m args index ≡ some bytes)
unfolding emit_literal
emit_literal_ends m args index doc le =
    let fits : leb index m.maximum_full_value ≡ true = ground (arith, doc.full_max) in
    elim (Bool-cases (leb index args.one_byte_limit)) [
      | inl e ↦ rw e (_, refl)
      | inr e ↦ elim (Bool-cases (leb index m.maximum_small_value)) [
        | inl f ↦ rw (e, f) (_, refl)
        | inr f ↦ rw (e, f, fits) (_, refl)
      ]
    ]

emit_literals_ends :
    (m : CbcMacros) (args : BytecodeArguments) (lits : List Literal)
    → AreDocumented m
    → All (λ lit. lit.index ≤ 32767) lits
    → (bytes : List ℕ) × (emit_literals m args lits ≡ some bytes)
unfolding emit_literals
emit_literals_ends m args [] doc small = ([], refl)
emit_literals_ends m args (lit ∷ lits) doc (le, small) =
    let (first, run) = emit_literal_ends m args lit.index doc le in
    let (rest, runs) = emit_literals_ends m args lits doc small in
    (first ++ rest, rw (run, runs) refl)

emit_argument_ends :
    (m : CbcMacros) (args : BytecodeArguments) (a : Argument)
    → AreDocumented m
    → All (λ lit. lit.index ≤ 32767) a.literals
    → a.branch_offset < 2 ^ 32
    → (bytes : List ℕ) × (emit_argument m args a ≡ some bytes)
unfolding emit_argument
emit_argument_ends m args a doc small lt = by_kind a.operands refl
  where
    by_kind :
        (o : OperandType)
        → a.operands ≡ o
        → (bytes : List ℕ) × (emit_argument m args a ≡ some bytes)
    by_kind OperandType.branch e =
        let written = emit_offset_lem a.branch_offset lt in
        (written.0, rw (e, emit_argument) written.1)
    by_kind _ e =
        let (bytes, run) = emit_literals_ends m args a.literals doc small in
        rw (e, emit_argument, run) (_, refl)

emit_ins_ends :
    (m : CbcMacros) (k : OpcodeMarks) (ext_line : ℕ) (args : BytecodeArguments) (ins : Ins)
    → AreDocumented m
    → HasWords ins
    → (bytes : List ℕ) × (emit_ins m k ext_line args ins ≡ some bytes)
unfolding emit_ins
emit_ins_ends m k ext_line args ins doc (offset, line, small) =
    elim (Bool-cases (ins.opcode == ext_line + 256)) [
      | inl e ↦
          let (bytes, run, small, some_byte, len) =
            emit_line_ends m doc 4 ins.argument.line_info (omega (arith, line)) in
          (k.ext_opcode % 2 ^ 8 ∷ (ext_line % 2 ^ 8) ∷ bytes, rw (e, run) refl)
      | inr e ↦
          let (bytes, run) = emit_argument_ends m args ins.argument doc small offset in
          (emit_opcode k ins.opcode ++ bytes, rw (e, run) refl)
    ]

emit_instructions_ends :
    (m : CbcMacros) (k : OpcodeMarks) (ext_line : ℕ) (args : BytecodeArguments) (insns : List Ins)
    → AreDocumented m
    → All HasWords insns
    → (bytes : List ℕ) × (emit_instructions m k ext_line args insns ≡ some bytes)
unfolding emit_instructions
emit_instructions_ends m k ext_line args [] doc words = ([], refl)
emit_instructions_ends m k ext_line args (ins ∷ insns) doc (word, words) =
    let (bytes, run) = emit_ins_ends m k ext_line args ins doc word in
    let (rest, runs) = emit_instructions_ends m k ext_line args insns doc words in
    (bytes ++ rest, rw (run, runs) refl)

-- The zeros behind the last instruction are read as the end of the instructions.
padding_ends :
    (k : OpcodeMarks) (n : ℕ)
    → AreZero k
    → decode_cbc_opcode k (zeros (suc n)) ≡ some (none, zeros (n - 1))
unfolding decode_cbc_opcode decode_extended zeros
padding_ends k zero z = ground (arith, z.prefix_zero)
padding_ends k (suc n) z = ground (arith, z.prefix_zero, z.nop_zero)

module _ (m : CbcMacros) (k : OpcodeMarks) (ext_line : ℕ) (memory : Memory) (uint16 : Bool)
    (args : BytecodeArguments) (pool : List ℕ) (end_info : ℕ) (old : List ℕ)
    (insns : List Ins) where
  abbrev header : List ℕ
  header = emit_header memory uint16 args pool

  -- What is written: the header, the instructions, padding, and the end of the old code.
  pub record IsLaidOut (e : Compiled) : Type 0 where
    pub code : List ℕ
    pub pad : ℕ
    pub written : emit_instructions m k ext_line args insns ≡ some code
    pub parts : e.bytes ≡ (header ++ code) ++ (zeros pad ++ drop (length old - end_info) old)
    pub short : pad < 2 ^ memory.alignment_log
    pub total : length e.bytes ≡ length header + length code + pad + end_info
    pub whole : length e.bytes % 2 ^ memory.alignment_log ≡ 0
    pub units : e.size ≡ length e.bytes / 2 ^ memory.alignment_log % 2 ^ 16
    pub ends : (pad ≡ 0) ⊎ (decode_cbc_opcode k (zeros pad) ≡ some (none, zeros (pad - 2)))

  laid_out :
      (code : List ℕ)
      → emit_instructions m k ext_line args insns ≡ some code
      → AreZero k
      → RoundsUp memory
      → end_info ≤ length old
      → IsLaidOut (finish_buffer memory end_info old (header ++ code))
  unfolding finish_buffer
  laid_out code written zero_marks up enough =
      let buffer = header ++ code in
      let size = length buffer + end_info in
      let pad = memory.align_up size - size in
      let e = finish_buffer memory end_info old buffer in
      let tail = drop (length old - end_info) old in
      let parts : e.bytes ≡ buffer ++ (zeros pad ++ tail) =
        finish_buffer_lem memory end_info old buffer pad (omega (arith, up.above size)) in
      let total : length e.bytes ≡ memory.align_up size =
        ap length parts
        ∙ omega (
          arith,
          length-append buffer (zeros pad ++ tail),
          length-append (zeros pad) tail,
          length-zeros pad,
          length-drop (length old - end_info) old,
          up.above size,
          enough,
        ) in
      record {
        code = code;
        pad = pad;
        written = written;
        parts = parts;
        short = omega (arith, up.near size, up.above size);
        total = omega (arith, total, length-append header code, up.above size);
        whole = ap (λ n. n % 2 ^ memory.alignment_log) total ∙ up.multiple size;
        units = size_lem buffer ∙ ap (λ n. n / 2 ^ memory.alignment_log % 2 ^ 16) (sym total);
        ends = padding pad zero_marks;
      }
    where
      size_lem :
          (buffer : List ℕ)
          → (finish_buffer memory end_info old buffer).size
            ≡ memory.align_up (length buffer + end_info) / 2 ^ memory.alignment_log % 2 ^ 16
      size_lem buffer = refl

      padding :
          (n : ℕ)
          → AreZero k
          → (n ≡ 0) ⊎ (decode_cbc_opcode k (zeros n) ≡ some (none, zeros (n - 2)))
      padding zero z = inl refl
      padding (suc n) z = inr (padding_ends k n z ∙ ap (λ j. some (none, zeros j)) (omega arith))

  -- Whatever `emit` returned is laid out.
  pub emitted-IsLaidOut :
      (e : Compiled)
      → AreZero k
      → RoundsUp memory
      → end_info ≤ length old
      → emit m k ext_line memory uint16 args pool end_info old insns ≡ some e
      → IsLaidOut e
  unfolding emit
  emitted-IsLaidOut e zero_marks up enough run =
      by_code (emit_instructions m k ext_line args insns) refl
    where
      by_code : (o : Option (List ℕ)) → emit_instructions m k ext_line args insns ≡ o → IsLaidOut e
      by_code none written = let bad : none ≡ some e = rw written at run in absurd (cc)
      by_code (some code) written =
          let same : some (finish_buffer memory end_info old (header ++ code)) ≡ some e =
            rw written at run in
          let same' : finish_buffer memory end_info old (header ++ code) ≡ e = cc same in
          subst IsLaidOut same' (laid_out code written zero_marks up enough)

  -- For instructions whose operands are words and whose literals have indices up to 32767, `emit`
  -- returns: the header and the instructions, then
  -- fewer zeros than the alignment, and the bytes behind the old instructions. The size is a
  -- multiple of the alignment, the field for it holds its quotient by that in 16 bits, and the
  -- zeros, if there are any, are read as the end of the instructions.
  pub emit-IsLaidOut :
      AreDocumented m
      → AreZero k
      → RoundsUp memory
      → end_info ≤ length old
      → All HasWords insns
      → (e : Compiled) × (emit m k ext_line memory uint16 args pool end_info old insns ≡ some e)
        × IsLaidOut e
  unfolding emit
  emit-IsLaidOut doc zero_marks up enough words =
      let (code, written) = emit_instructions_ends m k ext_line args insns doc words in
      (
        finish_buffer memory end_info old (header ++ code),
        rw written refl,
        laid_out code written zero_marks up enough,
      )
