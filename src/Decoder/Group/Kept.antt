-- ===== src/Decoder/Group/Kept.antt =====
-- The parts of `decodeGroupOpcode` keep what each read and each store keeps.
use jerryscript_optimizer.Prelude.{ℕ, Bool, List, ltb, leb, if◌then◌else◌, Bool-cases, inl, inr}
use jerryscript_optimizer.Inst.{InstFlags}
use jerryscript_optimizer.Bytecode.{BytecodeArguments, CbcMacros}
use jerryscript_optimizer.Bytecode.Arguments.{IsOrdered}
use jerryscript_optimizer.Codec.{decode_line}
use jerryscript_optimizer.Codec.Rests.{decode_line-IsRest}
use jerryscript_optimizer.Decoder.{
  Decoding, M, ◌>>=◌, done, mark, read_literal_index, decode_template_literal,
  decode_string_literal, set_write_reg, add_read_reg, set_string_literal_index, set_string_literal,
}
use jerryscript_optimizer.Decoder.Typed.{
  IsStable, KeepsTyped, bind-Keeps, then-Keeps, if-KeepsTyped, assert-Keeps, done-Keeps, mark-Keeps,
  take_from-Keeps, read_byte_arg-Keeps, read_literal_index-Keeps, forget-Keeps, set_write_reg-Keeps,
  add_read_reg-Keeps, process_put-Keeps,
}
use jerryscript_optimizer.Decoder.Operands.{
  decode_template_literal-Keeps, decode_string_literal-Keeps, set_string_literal_index-Keeps,
  set_string_literal-Keeps, add_decoded-Keeps,
}
use jerryscript_optimizer.Decoder.Group.{
  OpcodeNumbers, store_line, mark_condition, is_opcode, eval_binding, create_arguments_group,
  init_arg_or_func_group, finalize_class_group, set_function_name_group, read_register_operand,
  mov_ident_group, argument_count, rewind, update_again, property_update, skip_literal_index,
  read_line_number, read_line,
}

module _ (macros : CbcMacros) (codes : OpcodeNumbers) (args : BytecodeArguments) (code : List ℕ)
    (is_put_ident : Bool) (o : IsOrdered args) {Holds : Decoding → Type 0}
    (l : IsStable args code Holds) where
  abbrev Any : {A : Type 0} → A → Type 0
  Any a = Unit {0}

  index_then :
      (f : ℕ → M (Unit {0}))
      → ((index : ℕ) → KeepsTyped l (f index))
      → KeepsTyped l (read_literal_index args >>= f)
  index_then f hf =
      bind-Keeps l Any Any (read_literal_index args) f (read_literal_index-Keeps l)
        (λ index t. hf index)

  opcode_then :
      (number : ℕ) (f : Bool → M (Unit {0}))
      → ((b : Bool) → KeepsTyped l (f b))
      → KeepsTyped l (is_opcode macros codes args code is_put_ident number >>= f)
  unfolding is_opcode
  opcode_then number f hf s ok = hf _ s ok

  pub mark_condition-Keeps : KeepsTyped l mark_condition
  unfolding mark_condition
  mark_condition-Keeps =
      then-Keeps l Any (mark InstFlags.jump) (mark InstFlags.conditional_jump)
        (mark-Keeps l InstFlags.jump) (mark-Keeps l InstFlags.conditional_jump)

  pub eval_binding-Keeps :
      (number : ℕ) → KeepsTyped l (eval_binding macros codes args code is_put_ident number)
  unfolding eval_binding
  eval_binding-Keeps number = opcode_then number _ (λ b.
      then-Keeps l Any _ (set_string_literal args)
        (if-KeepsTyped l b _ done
          (λ h.
            add_decoded-Keeps args o l (decode_template_literal args)
              (decode_template_literal-Keeps args o l))
          (done-Keeps l))
        (set_string_literal-Keeps args o l))

  write_or_name :
      (index : ℕ)
      → KeepsTyped l (
          if ltb index args.register_end
          then set_write_reg args index
          else set_string_literal_index args index)
  write_or_name index =
      if-KeepsTyped l (ltb index args.register_end) (set_write_reg args index) _
        (λ h. set_write_reg-Keeps l index) (set_string_literal_index-Keeps args o l index)

  read_if_register :
      (index : ℕ)
      → KeepsTyped l (if ltb index args.register_end then add_read_reg args index else done)
  read_if_register index =
      if-KeepsTyped l (ltb index args.register_end) (add_read_reg args index) done
        (add_read_reg-Keeps l index) (done-Keeps l)

  pub create_arguments-Keeps :
      KeepsTyped l (create_arguments_group macros codes args code is_put_ident)
  unfolding create_arguments_group
  create_arguments-Keeps = index_then _ write_or_name

  pub init_arg_or_func-Keeps :
      KeepsTyped l (init_arg_or_func_group macros codes args code is_put_ident)
  unfolding init_arg_or_func_group
  init_arg_or_func-Keeps = index_then _ (λ index.
      index_then _
        (λ value_index. then-Keeps l Any _ _ (read_if_register value_index) (write_or_name index)))

  pub finalize_class-Keeps : KeepsTyped l (finalize_class_group macros codes args code is_put_ident)
  unfolding finalize_class_group
  finalize_class-Keeps = opcode_then codes.ext_finalize_named_class _ (λ b.
      if-KeepsTyped l b _ done
        (λ h. forget-Keeps l (decode_string_literal args) (decode_string_literal-Keeps args o l))
        (done-Keeps l))

  pub set_function_name-Keeps :
      KeepsTyped l (set_function_name_group macros codes args code is_put_ident)
  unfolding set_function_name_group
  set_function_name-Keeps = opcode_then codes.ext_set_function_name _ (λ plain.
      opcode_then codes.ext_set_class_name _ (λ class_name.
        if-KeepsTyped l plain done _ (λ h. done-Keeps l)
          (if-KeepsTyped l class_name (set_string_literal args) done
            (λ h. set_string_literal-Keeps args o l) (done-Keeps l))))

  pub read_register_operand-Keeps :
      KeepsTyped l (read_register_operand macros codes args code is_put_ident)
  unfolding read_register_operand
  read_register_operand-Keeps = index_then _ read_if_register

  pub mov_ident-Keeps : KeepsTyped l (mov_ident_group macros codes args code is_put_ident)
  unfolding mov_ident_group
  mov_ident-Keeps = index_then _ (λ index.
      then-Keeps l Any (set_write_reg args index) _ (set_write_reg-Keeps l index)
        (assert-Keeps l Any (ltb index args.register_end) done (λ h. done-Keeps l)))

  pub argument_count-Keeps :
      (number : ℕ) → KeepsTyped l (argument_count macros codes args code is_put_ident number)
  unfolding argument_count
  argument_count-Keeps number s ok = elim (Bool-cases (leb number s.ins.opcode)) [
    | inl e ↦ rw e (tt, ok)
    | inr e ↦ rw e (read_byte_arg-Keeps l s ok)
  ]

  pub update_again-Keeps : KeepsTyped l (update_again macros codes args code is_put_ident)
  unfolding update_again rewind
  update_again-Keeps =
      then-Keeps l Any (rewind macros codes args code is_put_ident) _ (λ s ok. (tt, l.rewinds s ok))
        (process_put-Keeps l is_put_ident)

  pub property_update-Keeps : KeepsTyped l (property_update macros codes args code is_put_ident)
  unfolding property_update
  property_update-Keeps s ok = elim (Bool-cases (ltb s.ins.opcode codes.pre_incr)) [
    | inl e ↦ rw e (process_put-Keeps l is_put_ident s ok)
    | inr e ↦ rw e (update_again-Keeps s ok)
  ]

  pub skip_literal_index-Keeps :
      KeepsTyped l (skip_literal_index macros codes args code is_put_ident)
  unfolding skip_literal_index
  skip_literal_index-Keeps = index_then _ (λ index. done-Keeps l)

  pub read_line-Keeps : KeepsTyped l (read_line macros codes args code is_put_ident)
  unfolding read_line read_line_number store_line
  read_line-Keeps =
      bind-Keeps l Any Any (read_line_number macros codes args code is_put_ident) store_line
        (λ s ok.
          take_from-Keeps l (decode_line macros s.bytes 0) s (decode_line-IsRest macros s.bytes 0)
            ok)
        (λ n t s ok. (tt, l.lines n s ok))
