-- ===== src/Decoder/Group/Switch.antt =====
-- `decodeGroupOpcode` keeps what each read and each store keeps, whatever the group is, so an
-- instruction stays typed.
use jerryscript_optimizer.Prelude.{ℕ, Bool, List}
use jerryscript_optimizer.Inst.{InstFlags}
use jerryscript_optimizer.Bytecode.{BytecodeArguments, CbcMacros}
use jerryscript_optimizer.Bytecode.Arguments.{IsOrdered}
use jerryscript_optimizer.Decoder.{
  Decoding, M, ◌>>◌, done, mark, OpcodeData, decode_arguments, decode_literal,
}
use jerryscript_optimizer.Decoder.Typed.{
  Yields, IsStable, IsTyped, IsTyped-IsStable, KeepsTyped, then-Keeps, done-Keeps, mark-Keeps,
  read_byte_arg-Keeps, decode_literal-Keeps, forget-Keeps, process_put-Keeps,
}
use jerryscript_optimizer.Decoder.Operands.{set_string_literal-Keeps, decode_arguments-Keeps}
use jerryscript_optimizer.Decoder.Group.{
  GroupOpcode, OpcodeNumbers, names_group, class_group, iterator_group, access_group, branch_group,
  operator_group, decode_group_opcode,
}
use jerryscript_optimizer.Decoder.Group.Kept.{
  mark_condition-Keeps, eval_binding-Keeps, create_arguments-Keeps, init_arg_or_func-Keeps,
  finalize_class-Keeps, set_function_name-Keeps, read_register_operand-Keeps, mov_ident-Keeps,
  argument_count-Keeps, update_again-Keeps, property_update-Keeps, skip_literal_index-Keeps,
  read_line-Keeps,
}

module _ (macros : CbcMacros) (codes : OpcodeNumbers) (args : BytecodeArguments) (code : List ℕ)
    (is_put_ident : Bool) (o : IsOrdered args) {Holds : Decoding → Type 0}
    (l : IsStable args code Holds) where
  names_group-Keeps :
      (g : GroupOpcode) (otherwise : M (Unit {0}))
      → KeepsTyped l otherwise
      → KeepsTyped l (names_group macros codes args code is_put_ident g otherwise)
  unfolding names_group
  names_group-Keeps GroupOpcode.push_three otherwise h =
      forget-Keeps l (decode_literal args) (decode_literal-Keeps l)
  names_group-Keeps GroupOpcode.push_pos_byte otherwise h = read_byte_arg-Keeps l
  names_group-Keeps GroupOpcode.push_neg_byte otherwise h = read_byte_arg-Keeps l
  names_group-Keeps GroupOpcode.push_lit_pos_byte otherwise h = read_byte_arg-Keeps l
  names_group-Keeps GroupOpcode.push_lit_neg_byte otherwise h = read_byte_arg-Keeps l
  names_group-Keeps GroupOpcode.create_binding otherwise h = set_string_literal-Keeps args o l
  names_group-Keeps GroupOpcode.var_eval otherwise h =
      eval_binding-Keeps macros codes args code is_put_ident o l codes.create_var_func_eval
  names_group-Keeps GroupOpcode.ext_var_eval otherwise h =
      eval_binding-Keeps macros codes args code is_put_ident o l codes.ext_create_var_func_eval
  names_group-Keeps GroupOpcode.create_arguments otherwise h =
      create_arguments-Keeps macros codes args code is_put_ident o l
  names_group-Keeps GroupOpcode.init_arg_or_func otherwise h =
      init_arg_or_func-Keeps macros codes args code is_put_ident o l
  names_group-Keeps _ otherwise h = search h

  class_group-Keeps :
      (g : GroupOpcode) (otherwise : M (Unit {0}))
      → KeepsTyped l otherwise
      → KeepsTyped l (class_group macros codes args code is_put_ident g otherwise)
  unfolding class_group
  class_group-Keeps GroupOpcode.check_var otherwise h = set_string_literal-Keeps args o l
  class_group-Keeps GroupOpcode.check_let otherwise h = set_string_literal-Keeps args o l
  class_group-Keeps GroupOpcode.assign_let_const otherwise h = set_string_literal-Keeps args o l
  class_group-Keeps GroupOpcode.init_binding otherwise h = set_string_literal-Keeps args o l
  class_group-Keeps GroupOpcode.copy_to_global otherwise h = set_string_literal-Keeps args o l
  class_group-Keeps GroupOpcode.copy_from_arg otherwise h = set_string_literal-Keeps args o l
  class_group-Keeps GroupOpcode.local_eval otherwise h = read_byte_arg-Keeps l
  class_group-Keeps GroupOpcode.super_call otherwise h = read_byte_arg-Keeps l
  class_group-Keeps GroupOpcode.push_class_environment otherwise h =
      set_string_literal-Keeps args o l
  class_group-Keeps GroupOpcode.finalize_class otherwise h =
      finalize_class-Keeps macros codes args code is_put_ident o l
  class_group-Keeps GroupOpcode.set_next_computed_field otherwise h =
      process_put-Keeps l is_put_ident
  class_group-Keeps GroupOpcode.set_function_name otherwise h =
      set_function_name-Keeps macros codes args code is_put_ident o l
  class_group-Keeps _ otherwise h = search h

  iterator_group-Keeps :
      (g : GroupOpcode) (otherwise : M (Unit {0}))
      → KeepsTyped l otherwise
      → KeepsTyped l (iterator_group macros codes args code is_put_ident g otherwise)
  unfolding iterator_group
  iterator_group-Keeps GroupOpcode.spread_arguments otherwise h = read_byte_arg-Keeps l
  iterator_group-Keeps _ otherwise h = search h

  access_group-Keeps :
      (g : GroupOpcode) (otherwise : M (Unit {0}))
      → KeepsTyped l otherwise
      → KeepsTyped l (access_group macros codes args code is_put_ident g otherwise)
  unfolding access_group
  access_group-Keeps GroupOpcode.append_array otherwise h = read_byte_arg-Keeps l
  access_group-Keeps GroupOpcode.ident_reference otherwise h =
      read_register_operand-Keeps macros codes args code is_put_ident o l
  access_group-Keeps GroupOpcode.prop_reference otherwise h =
      property_update-Keeps macros codes args code is_put_ident o l
  access_group-Keeps GroupOpcode.prop_pre_incr otherwise h =
      property_update-Keeps macros codes args code is_put_ident o l
  access_group-Keeps GroupOpcode.prop_pre_decr otherwise h =
      property_update-Keeps macros codes args code is_put_ident o l
  access_group-Keeps GroupOpcode.prop_post_incr otherwise h =
      property_update-Keeps macros codes args code is_put_ident o l
  access_group-Keeps GroupOpcode.prop_post_decr otherwise h =
      property_update-Keeps macros codes args code is_put_ident o l
  access_group-Keeps GroupOpcode.pre_incr otherwise h =
      update_again-Keeps macros codes args code is_put_ident o l
  access_group-Keeps GroupOpcode.pre_decr otherwise h =
      update_again-Keeps macros codes args code is_put_ident o l
  access_group-Keeps GroupOpcode.post_incr otherwise h =
      update_again-Keeps macros codes args code is_put_ident o l
  access_group-Keeps GroupOpcode.post_decr otherwise h =
      update_again-Keeps macros codes args code is_put_ident o l
  access_group-Keeps GroupOpcode.assign otherwise h = process_put-Keeps l is_put_ident
  access_group-Keeps GroupOpcode.mov_ident otherwise h =
      mov_ident-Keeps macros codes args code is_put_ident o l
  access_group-Keeps GroupOpcode.assign_prop otherwise h = process_put-Keeps l is_put_ident
  access_group-Keeps GroupOpcode.assign_prop_this otherwise h = process_put-Keeps l is_put_ident
  access_group-Keeps GroupOpcode.call otherwise h =
      argument_count-Keeps macros codes args code is_put_ident o l codes.call0
  access_group-Keeps GroupOpcode.new otherwise h =
      argument_count-Keeps macros codes args code is_put_ident o l codes.new0
  access_group-Keeps GroupOpcode.delete otherwise h =
      skip_literal_index-Keeps macros codes args code is_put_ident o l
  access_group-Keeps _ otherwise h = search h

  branch_group-Keeps :
      (g : GroupOpcode) (otherwise : M (Unit {0}))
      → KeepsTyped l otherwise
      → KeepsTyped l (branch_group macros codes args code is_put_ident g otherwise)
  unfolding branch_group
  branch_group-Keeps GroupOpcode.jump otherwise h = mark-Keeps l InstFlags.jump
  branch_group-Keeps GroupOpcode.branch_if_strict_equal otherwise h =
      mark_condition-Keeps macros codes args code is_put_ident o l
  branch_group-Keeps GroupOpcode.branch_if_true otherwise h =
      mark_condition-Keeps macros codes args code is_put_ident o l
  branch_group-Keeps GroupOpcode.branch_if_false otherwise h =
      mark_condition-Keeps macros codes args code is_put_ident o l
  branch_group-Keeps GroupOpcode.branch_if_logical_true otherwise h =
      mark_condition-Keeps macros codes args code is_put_ident o l
  branch_group-Keeps GroupOpcode.branch_if_logical_false otherwise h =
      mark_condition-Keeps macros codes args code is_put_ident o l
  branch_group-Keeps GroupOpcode.branch_if_nullish otherwise h =
      mark-Keeps l InstFlags.conditional_jump
  branch_group-Keeps GroupOpcode.typeof_ident otherwise h =
      read_register_operand-Keeps macros codes args code is_put_ident o l
  branch_group-Keeps _ otherwise h = search h

  jump_and : (f : InstFlags) → KeepsTyped l (mark InstFlags.jump >> mark f)
  jump_and f =
      then-Keeps l (λ u. Unit {0}) (mark InstFlags.jump) (mark f) (mark-Keeps l InstFlags.jump)
        (mark-Keeps l f)

  operator_group-Keeps :
      (g : GroupOpcode) (otherwise : M (Unit {0}))
      → KeepsTyped l otherwise
      → KeepsTyped l (operator_group macros codes args code is_put_ident g otherwise)
  unfolding operator_group
  operator_group-Keeps GroupOpcode.for_in_init otherwise h =
      mark_condition-Keeps macros codes args code is_put_ident o l
  operator_group-Keeps GroupOpcode.for_in_has_next otherwise h =
      mark_condition-Keeps macros codes args code is_put_ident o l
  operator_group-Keeps GroupOpcode.for_of_init otherwise h =
      mark_condition-Keeps macros codes args code is_put_ident o l
  operator_group-Keeps GroupOpcode.for_of_has_next otherwise h =
      mark_condition-Keeps macros codes args code is_put_ident o l
  operator_group-Keeps GroupOpcode.for_await_of_init otherwise h =
      mark_condition-Keeps macros codes args code is_put_ident o l
  operator_group-Keeps GroupOpcode.try otherwise h = jump_and InstFlags.try_start
  operator_group-Keeps GroupOpcode.catch otherwise h = jump_and InstFlags.try_catch
  operator_group-Keeps GroupOpcode.finally otherwise h = jump_and InstFlags.try_finally
  operator_group-Keeps GroupOpcode.jump_and_exit_context otherwise h = mark-Keeps l InstFlags.jump
  operator_group-Keeps GroupOpcode.line otherwise h =
      read_line-Keeps macros codes args code is_put_ident o l
  operator_group-Keeps _ otherwise h = search h

  -- Decoding of the operands and of the group of an instruction.
  pub decode_ins-Keeps :
      (op : OpcodeData GroupOpcode)
      → KeepsTyped l (
          decode_arguments args op
          >> decode_group_opcode macros codes args code is_put_ident op.group)
  unfolding decode_group_opcode
  decode_ins-Keeps op =
      let g = op.group in
      then-Keeps l (λ u. Unit {0}) (decode_arguments args op) _ (decode_arguments-Keeps args o l op)
        (names_group-Keeps g _ (
          class_group-Keeps g _ (
            iterator_group-Keeps g _ (
              access_group-Keeps g _
                (branch_group-Keeps g _ (operator_group-Keeps g done (done-Keeps l)))))))

-- Where the ends are in order, decoding of the operands and of the group of an instruction, if no
-- assertion fails, leaves it typed when it was typed before: each literal that it records has the
-- type of the range that its index lies in, and each register that it reads lies below the
-- registers' end.
pub decode_group_opcode-IsTyped :
    (macros : CbcMacros) (codes : OpcodeNumbers) (args : BytecodeArguments) (code : List ℕ)
    (is_put_ident : Bool) (o : IsOrdered args) (op : OpcodeData GroupOpcode) (s : Decoding)
    → IsTyped args s
    → Yields
        (λ u s'. (Unit {0}) × IsTyped args s')
        ((decode_arguments args op
            >> decode_group_opcode macros codes args code is_put_ident op.group)
          s)
decode_group_opcode-IsTyped macros codes args code is_put_ident o op s ok =
    decode_ins-Keeps macros codes args code is_put_ident o (IsTyped-IsStable args code) op s ok
