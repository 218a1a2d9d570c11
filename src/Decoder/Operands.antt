-- ===== src/Decoder/Operands.antt =====
-- Decoding of an instruction's operands and literals keeps what each read and each store keeps.
use jerryscript_optimizer.Prelude.{ℕ, List, ◌<◌, ◌≤◌, ◌≡◌, sym, Bool, true, ◌&&◌, ltb, leb, arith}
use jerryscript_optimizer.Inst.{Literal, LiteralType, OperandType}
use jerryscript_optimizer.Bytecode.{BytecodeArguments}
use jerryscript_optimizer.Bytecode.Arguments.{IsOrdered}
use jerryscript_optimizer.Codec.{decode_branch}
use jerryscript_optimizer.Codec.Literals.{literal_type-ident, literal_type-template}
use jerryscript_optimizer.Codec.Rests.{decode_branch-IsRest}
use jerryscript_optimizer.Decoder.{
  Decoding, M, ◌>>=◌, OpcodeData, add_literal, read_literal_index, decode_template_literal,
  decode_string_literal, decode_literal, set_string_literal_index, set_string_literal,
  store_branch_offset, read_branch, fresh_argument, one_literal, decode_operands, decode_arguments,
}
use jerryscript_optimizer.Decoder.Typed.{
  IsStable, HasItsType, Keeps, KeepsTyped, bind-Keeps, then-Keeps, assert-Keeps, done-Keeps,
  return-Keeps, add_literal-Keeps, take_from-Keeps, read_literal_index-Keeps, decode_literal-Keeps,
  forget-Keeps,
}

module _ (args : BytecodeArguments) (o : IsOrdered args) where
  ident_type :
      (index : ℕ)
      → (leb args.register_end index && ltb index args.ident_end) ≡ true
      → HasItsType args (record { kind = LiteralType.ident; index = index })
  ident_type index h =
      let at_index = literal_type-ident args index o in
      let lo : args.register_end ≤ index = ground arith in
      let hi : index < args.ident_end = ground arith in sym (at_index lo hi)

  template_type :
      (index : ℕ)
      → (leb args.const_literal_end index && ltb index args.literal_end) ≡ true
      → HasItsType args (record { kind = LiteralType.template; index = index })
  template_type index h =
      let lo : args.const_literal_end ≤ index = ground arith in
      sym (literal_type-template args index o lo)

module _ (args : BytecodeArguments) (o : IsOrdered args) {code : List ℕ} {Holds : Decoding → Type 0}
    (l : IsStable args code Holds) where
  pub decode_template_literal-Keeps : Keeps l (HasItsType args) (decode_template_literal args)
  unfolding decode_template_literal
  decode_template_literal-Keeps =
      bind-Keeps l (λ index. Unit {0}) (HasItsType args) (read_literal_index args) _
        (read_literal_index-Keeps l)
        (λ index t.
          assert-Keeps l (HasItsType args) _ _
            (λ h. return-Keeps l (HasItsType args) _ (template_type args o index h)))

  pub decode_string_literal-Keeps : Keeps l (HasItsType args) (decode_string_literal args)
  unfolding decode_string_literal
  decode_string_literal-Keeps =
      bind-Keeps l (λ index. Unit {0}) (HasItsType args) (read_literal_index args) _
        (read_literal_index-Keeps l)
        (λ index t.
          assert-Keeps l (HasItsType args) _ _
            (λ h. return-Keeps l (HasItsType args) _ (ident_type args o index h)))

  pub set_string_literal_index-Keeps :
      (index : ℕ) → KeepsTyped l (set_string_literal_index args index)
  unfolding set_string_literal_index
  set_string_literal_index-Keeps index =
      assert-Keeps l (λ u. Unit {0}) _ _ (λ h. add_literal-Keeps l _ (ident_type args o index h))

  pub add_decoded-Keeps :
      (m : M Literal) → Keeps l (HasItsType args) m → KeepsTyped l (m >>= add_literal)
  add_decoded-Keeps m hm =
      bind-Keeps l (HasItsType args) (λ u. Unit {0}) m add_literal hm (add_literal-Keeps l)

  pub set_string_literal-Keeps : KeepsTyped l (set_string_literal args)
  unfolding set_string_literal
  set_string_literal-Keeps =
      add_decoded-Keeps (decode_string_literal args) decode_string_literal-Keeps

  one_literal-Keeps : KeepsTyped l (one_literal args)
  unfolding one_literal
  one_literal-Keeps = forget-Keeps l (decode_literal args) (decode_literal-Keeps l)

  pub decode_operands-Keeps :
      (kind : OperandType) (len : ℕ) (backward : Bool)
      → KeepsTyped l (decode_operands args kind len backward)
  unfolding decode_operands read_branch store_branch_offset
  decode_operands-Keeps OperandType.no_operand len backward = done-Keeps l
  decode_operands-Keeps OperandType.branch len backward =
      bind-Keeps l (λ n. Unit {0}) (λ u. Unit {0}) (read_branch args len backward)
        (store_branch_offset args)
        (λ s ok.
          take_from-Keeps l (decode_branch len backward s.bytes) s
            (decode_branch-IsRest len backward s.bytes) ok)
        (λ n t s ok. (tt, l.branches n s ok))
  decode_operands-Keeps OperandType.stack len backward = done-Keeps l
  decode_operands-Keeps OperandType.stack_stack len backward = done-Keeps l
  decode_operands-Keeps OperandType.literal len backward = one_literal-Keeps
  decode_operands-Keeps OperandType.literal_literal len backward =
      then-Keeps l (λ u. Unit {0}) (one_literal args) (one_literal args) one_literal-Keeps
        one_literal-Keeps
  decode_operands-Keeps OperandType.stack_literal len backward = one_literal-Keeps
  decode_operands-Keeps OperandType.this_literal len backward = one_literal-Keeps

  pub decode_arguments-Keeps :
      {G : Type 0} (op : OpcodeData G) → KeepsTyped l (decode_arguments args op)
  unfolding decode_arguments fresh_argument
  decode_arguments-Keeps op =
      then-Keeps l (λ u. Unit {0}) (fresh_argument args op.operands) _
        (λ s ok. (tt, l.fresh op.operands s ok))
        (decode_operands-Keeps op.operands op.branch_offset_length op.is_backward_branch)
