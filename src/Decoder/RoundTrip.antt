-- ===== src/Decoder/RoundTrip.antt =====
-- `decodeArguments` reads back the literals that `Argument::emit` wrote.
use jerryscript_optimizer.Prelude.{
  ℕ, ◌<◌, ◌≤◌, ◌≡◌, refl, ap, true, false, ◌||◌, none, some, List, [], ◌∷◌, ◌++◌, ltb, arith,
  if◌then◌else◌, Bool-cases, inl, inr,
}
use jerryscript_optimizer.Inst.{Literal, Argument, OperandType, InstFlags, with_flag}
use jerryscript_optimizer.Bytecode.{BytecodeArguments, CbcMacros, AreDocumented, set_encoding}
use jerryscript_optimizer.Codec.{literal_type, emit_literal, emit_literals, emit_argument}
use jerryscript_optimizer.Codec.Literals.{decode_literal_index-emit_small}
use jerryscript_optimizer.Decoder.{
  Decoding, mark, add_literal, push_read_reg, OpcodeData, read_literal_index, literal_at,
  decode_literal, fresh_argument, one_literal, decode_operands, decode_arguments,
}

-- What `decodeLiteral` records for a literal.
abbrev noted : BytecodeArguments → ℕ → Decoding → Decoding
noted args index s =
    let register = ltb index args.register_end in
    record s {
      ins = record (s.ins) {
        flags = if register then with_flag s.ins.flags InstFlags.read_reg else s.ins.flags;
        read_regs = if register then s.ins.read_regs ++ (index ∷ []) else s.ins.read_regs;
        argument = record (s.ins.argument) {
          literals =
              s.ins.argument.literals
              ++ (record { kind = literal_type args index; index = index } ∷ []);
        };
      };
    }

literal_at_lem :
    (args : BytecodeArguments) (index : ℕ) (s : Decoding)
    → index < args.literal_end
    → literal_at args index s
      ≡ some (record { kind = literal_type args index; index = index }, noted args index s)
unfolding literal_at mark push_read_reg add_literal
literal_at_lem args index s lt =
    let known : (ltb index args.const_literal_end || ltb index args.literal_end) ≡ true =
      ground arith in
    elim (Bool-cases (ltb index args.register_end)) [
      | inl e ↦ rw (known, e) refl
      | inr e ↦ rw (known, e) refl
    ]

module _ (m : CbcMacros) (doc : AreDocumented m) (ends : BytecodeArguments) where
  abbrev args : BytecodeArguments
  args = set_encoding m false ends

  -- One literal that the small encoding has room for.
  one_literal_lem :
      (index : ℕ) (rest : List ℕ) (s : Decoding)
      → index ≤ 510
      → index < args.literal_end
      → (bytes : List ℕ) × (emit_literal m args index ≡ some bytes)
        × (one_literal args (record s { bytes = bytes ++ rest })
            ≡ some (tt, noted args index (record s { bytes = rest })))
  unfolding one_literal decode_literal read_literal_index
  one_literal_lem index rest s small lt =
      let (bytes, sent, read) = decode_literal_index-emit_small m doc ends index rest small in
      let note = literal_at_lem args index (record s { bytes = rest }) lt in
      (bytes, sent, rw (read, note) refl)

  -- A literal that the encoding has room for, of the type that its index says.
  abbrev pub IsEncodable : Literal → Type 0
  IsEncodable lit =
      (lit.index ≤ 510) × (lit.index < args.literal_end) × (lit.kind ≡ literal_type args lit.index)

  -- Under the small encoding, what is written for an argument of two encodable literals and no byte
  -- is read back by an opcode with two literals: decoding succeeds, the instruction has the same
  -- literals, and the bytes behind are left.
  pub decode_arguments-emit_argument :
      {G : Type 0} (op : OpcodeData G) (arg : Argument) (a b : Literal) (rest : List ℕ)
      (s : Decoding)
      → op.operands ≡ OperandType.literal_literal
      → arg.operands ≡ OperandType.literal_literal
      → arg.byte_arg ≡ none
      → arg.literals ≡ a ∷ b ∷ []
      → IsEncodable a
      → IsEncodable b
      → (bytes : List ℕ) × (emit_argument m args arg ≡ some bytes)
        × (s' : Decoding) × (decode_arguments args op (record s { bytes = bytes ++ rest })
            ≡ some (tt, s'))
        × (s'.bytes ≡ rest)
        × (s'.ins.argument.literals ≡ arg.literals)
  unfolding decode_arguments fresh_argument decode_operands emit_argument emit_literals
  decode_arguments-emit_argument op arg a b rest s eo ea eb el ha hb =
      let fresh : Decoding = started op s in
      let mid : Decoding = noted args a.index fresh in
      let (y, sent_b, two) = one_literal_lem b.index rest mid hb.0 hb.1 in
      let s2 : Decoding = noted args b.index (record mid { bytes = rest }) in
      let (x, sent_a, one) = one_literal_lem a.index (y ++ rest) fresh ha.0 ha.1 in
      let joined = joined_lem x y rest in
      (
        (x ++ (y ++ [])) ++ [],
        rw (ea, eb, el, sent_a, sent_b) refl,
        s2,
        rw (joined, eo, one, two) refl,
        refl,
        rw (el, ha.2, hb.2) refl,
      )
    where
      started : {G : Type 0} → OpcodeData G → Decoding → Decoding
      started op s = record s {
        ins = record (s.ins) {
          argument = record {
            operands = OperandType.literal_literal;
            branch_offset = 0;
            line_info = 0;
            byte_arg = none;
            literals = [];
          };
        };
      }

      joined_lem : (x y rest : List ℕ) → ((x ++ (y ++ [])) ++ []) ++ rest ≡ x ++ (y ++ rest)
      joined_lem [] [] rest = refl
      joined_lem [] (b ∷ y) rest = ap (λ l. b ∷ l) (joined_lem [] y rest)
      joined_lem (b ∷ x) y rest = ap (λ l. b ∷ l) (joined_lem x y rest)
