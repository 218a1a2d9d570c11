-- ===== src/Decoder/Group.antt =====
-- src/inst.cpp, `decodeGroupOpcode`: what each group of opcodes adds to the instruction. The cases
-- that only move abstract values do nothing here. The switch is cut into pieces, in its order.
pub mod Kept
pub mod Switch
mod Examples
use jerryscript_optimizer.Prelude.{
  ℕ, ◌+◌, ◌%◌, ◌^◌, Bool, none, some, List, ◌==◌, ltb, leb, drop, if◌then◌else◌,
}
use jerryscript_optimizer.Inst.{Literal, InstFlags}
use jerryscript_optimizer.Bytecode.{BytecodeArguments, CbcMacros}
use jerryscript_optimizer.Codec.{decode_line}
use jerryscript_optimizer.Decoder.{
  Decoding, M, ◌>>=◌, ◌>>◌, done, assert, mark, next_byte, add_literal,
}
use jerryscript_optimizer.Decoder

-- `vm_oc_types`, without the prefix `VM_OC_`.
pub data GroupOpcode : Type 0 where
  pop pop_block push push_two push_three push_undefined push_true push_false : GroupOpcode
  push_null push_this push_0 push_pos_byte push_neg_byte push_lit_0 : GroupOpcode
  push_lit_pos_byte push_lit_neg_byte push_object push_named_func_expr : GroupOpcode
  create_binding var_eval ext_var_eval create_arguments set_bytecode_ptr : GroupOpcode
  init_arg_or_func : GroupOpcode
  check_var check_let assign_let_const init_binding throw_const_error : GroupOpcode
  throw_syntax_error copy_to_global copy_from_arg clone_context set_proto : GroupOpcode
  push_static_field_func add_computed_field copy_data_properties : GroupOpcode
  set_computed_property set_property push_array local_eval super_call : GroupOpcode
  push_class_environment push_implicit_ctor init_class finalize_class : GroupOpcode
  set_field_init run_field_init run_static_field_init set_next_computed_field : GroupOpcode
  push_super_constructor resolve_lexical_this object_literal_home_env : GroupOpcode
  set_home_object super_reference set_function_name : GroupOpcode
  push_spread_element push_rest_object get_iterator iterator_step iterator_close : GroupOpcode
  default_initializer rest_initializer initializer_push_list initializer_push_rest : GroupOpcode
  initializer_push_name initializer_push_prop move spread_arguments : GroupOpcode
  create_generator yield async_yield async_yield_iterator await generator_await : GroupOpcode
  ext_return async_exit string_concat get_template_object push_new_target : GroupOpcode
  require_object_coercible assign_super : GroupOpcode
  push_elison append_array ident_reference prop_get prop_reference prop_pre_incr : GroupOpcode
  prop_pre_decr prop_post_incr prop_post_decr pre_incr pre_decr post_incr : GroupOpcode
  post_decr assign mov_ident assign_prop assign_prop_this return throw : GroupOpcode
  throw_reference_error eval call new error resolve_base_for_call prop_delete : GroupOpcode
  delete : GroupOpcode
  jump branch_if_strict_equal branch_if_true branch_if_false : GroupOpcode
  branch_if_logical_true branch_if_logical_false branch_if_nullish plus minus : GroupOpcode
  negate bit_not void typeof_ident typeof : GroupOpcode
  add sub mul div exp remainder equal not_equal strict_equal strict_not_equal : GroupOpcode
  bit_or bit_xor bit_and left_shift right_shift uns_right_shift less greater : GroupOpcode
  less_equal greater_equal in_object instanceof block_create_context with : GroupOpcode
  for_in_init for_in_get_next for_in_has_next for_of_init for_of_get_next : GroupOpcode
  for_of_has_next for_await_of_init for_await_of_has_next try catch finally : GroupOpcode
  context_end jump_and_exit_context breakpoint_enabled breakpoint_disabled line : GroupOpcode
  nothing : GroupOpcode

-- The opcodes that the switch compares with.
pub record OpcodeNumbers : Type 0 where
  pub create_var_func_eval : ℕ
  pub ext_create_var_func_eval : ℕ
  pub ext_finalize_named_class : ℕ
  pub ext_set_function_name : ℕ
  pub ext_set_class_name : ℕ
  pub call0 : ℕ
  pub new0 : ℕ
  pub pre_incr : ℕ
  pub cbc_end : ℕ

pub store_line : ℕ → M (Unit {0})
store_line value s = some (
  tt,
  record s { ins = record (s.ins) { argument = record (s.ins.argument) { line_info = value } } },
)

-- A jump whose target is not always taken.
unfoldable pub mark_condition : M (Unit {0})
mark_condition = do mark InstFlags.jump; mark InstFlags.conditional_jump

module _ (macros : CbcMacros) (codes : OpcodeNumbers) (args : BytecodeArguments) (code : List ℕ)
    (is_put_ident : Bool) where
  -- The bound parts of the decoder, at this function's arguments.
  abbrev decode_literal : M Literal
  decode_literal = Decoder.decode_literal args

  abbrev set_string_literal : M (Unit {0})
  set_string_literal = Decoder.set_string_literal args

  abbrev process_put : M (Unit {0})
  process_put = Decoder.process_put args is_put_ident

  abbrev read_byte_arg : M (Unit {0})
  read_byte_arg = Decoder.read_byte_arg

  -- `opcode().is(code)`: an extended opcode is compared without its 256.
  pub is_opcode : ℕ → M Bool
  is_opcode number s =
      let wanted = if ltb codes.cbc_end s.ins.opcode then (number + 256) % 2 ^ 16 else number in
      some (s.ins.opcode == wanted, s)

  pub eval_binding : ℕ → M (Unit {0})
  eval_binding number = do
    with_function ← is_opcode number
    (if with_function
        then (do lit ← Decoder.decode_template_literal args; add_literal lit)
        else done)
    set_string_literal

  pub create_arguments_group : M (Unit {0})
  create_arguments_group = do
    index ← Decoder.read_literal_index args
    (if ltb index args.register_end
        then Decoder.set_write_reg args index
        else Decoder.set_string_literal_index args index)

  pub init_arg_or_func_group : M (Unit {0})
  init_arg_or_func_group = do
    index ← Decoder.read_literal_index args
    value_index ← Decoder.read_literal_index args
    (if ltb value_index args.register_end then Decoder.add_read_reg args value_index else done)
    (if ltb index args.register_end
        then Decoder.set_write_reg args index
        else Decoder.set_string_literal_index args index)

  pub finalize_class_group : M (Unit {0})
  finalize_class_group = do
    named ← is_opcode codes.ext_finalize_named_class
    (if named then (do lit ← Decoder.decode_string_literal args; done) else done)

  pub set_function_name_group : M (Unit {0})
  set_function_name_group = do
    plain ← is_opcode codes.ext_set_function_name
    class_name ← is_opcode codes.ext_set_class_name
    (if plain then done else if class_name then set_string_literal else done)

  -- IDENT_REFERENCE and TYPEOF_IDENT
  pub read_register_operand : M (Unit {0})
  read_register_operand = do
    index ← Decoder.read_literal_index args
    (if ltb index args.register_end then Decoder.add_read_reg args index else done)

  -- MOV_IDENT does not test the index, but `Stack::setRegister` asserts that it is a register.
  pub mov_ident_group : M (Unit {0})
  mov_ident_group = do
    index ← Decoder.read_literal_index args
    Decoder.set_write_reg args index
    assert (ltb index args.register_end)
    done

  -- CALL and NEW: the opcodes from `first` on have their count in the opcode.
  pub argument_count : ℕ → M (Unit {0})
  argument_count first s = if leb first s.ins.opcode then done s else read_byte_arg s

  -- `byteCodeCurrent() = byteCodeStart() + offset() + 1`
  pub rewind : M (Unit {0})
  rewind s = some (tt, record s { bytes = drop (s.ins.offset + 1) code })

  pub update_again : M (Unit {0})
  update_again = do rewind; process_put

  pub property_update : M (Unit {0})
  property_update s = if ltb s.ins.opcode codes.pre_incr then process_put s else update_again s

  pub skip_literal_index : M (Unit {0})
  skip_literal_index = do index ← Decoder.read_literal_index args; done

  pub read_line_number : M ℕ
  read_line_number s = Decoder.take_from (decode_line macros s.bytes 0) s

  pub read_line : M (Unit {0})
  read_line = do value ← read_line_number; store_line value

  unfoldable pub names_group : GroupOpcode → M (Unit {0}) → M (Unit {0})
  names_group GroupOpcode.pop otherwise = done
  names_group GroupOpcode.pop_block otherwise = done
  names_group GroupOpcode.push otherwise = done
  names_group GroupOpcode.push_two otherwise = done
  names_group GroupOpcode.push_three otherwise = do lit ← decode_literal; done
  names_group GroupOpcode.push_undefined otherwise = done
  names_group GroupOpcode.push_true otherwise = done
  names_group GroupOpcode.push_false otherwise = done
  names_group GroupOpcode.push_null otherwise = done
  names_group GroupOpcode.push_this otherwise = done
  names_group GroupOpcode.push_0 otherwise = done
  names_group GroupOpcode.push_pos_byte otherwise = read_byte_arg
  names_group GroupOpcode.push_neg_byte otherwise = read_byte_arg
  names_group GroupOpcode.push_lit_0 otherwise = done
  names_group GroupOpcode.push_lit_pos_byte otherwise = read_byte_arg
  names_group GroupOpcode.push_lit_neg_byte otherwise = read_byte_arg
  names_group GroupOpcode.push_object otherwise = done
  names_group GroupOpcode.push_named_func_expr otherwise = done
  names_group GroupOpcode.create_binding otherwise = set_string_literal
  names_group GroupOpcode.var_eval otherwise = eval_binding codes.create_var_func_eval
  names_group GroupOpcode.ext_var_eval otherwise = eval_binding codes.ext_create_var_func_eval
  names_group GroupOpcode.create_arguments otherwise = create_arguments_group
  names_group GroupOpcode.set_bytecode_ptr otherwise = done
  names_group GroupOpcode.init_arg_or_func otherwise = init_arg_or_func_group
  names_group _ otherwise = otherwise

  unfoldable pub class_group : GroupOpcode → M (Unit {0}) → M (Unit {0})
  class_group GroupOpcode.check_var otherwise = set_string_literal
  class_group GroupOpcode.check_let otherwise = set_string_literal
  class_group GroupOpcode.assign_let_const otherwise = set_string_literal
  class_group GroupOpcode.init_binding otherwise = set_string_literal
  class_group GroupOpcode.throw_const_error otherwise = done
  class_group GroupOpcode.throw_syntax_error otherwise = done
  class_group GroupOpcode.copy_to_global otherwise = set_string_literal
  class_group GroupOpcode.copy_from_arg otherwise = set_string_literal
  class_group GroupOpcode.clone_context otherwise = done
  class_group GroupOpcode.set_proto otherwise = done
  class_group GroupOpcode.push_static_field_func otherwise = done
  class_group GroupOpcode.add_computed_field otherwise = done
  class_group GroupOpcode.copy_data_properties otherwise = done
  class_group GroupOpcode.set_computed_property otherwise = done
  class_group GroupOpcode.set_property otherwise = done
  class_group GroupOpcode.push_array otherwise = done
  class_group GroupOpcode.local_eval otherwise = read_byte_arg
  class_group GroupOpcode.super_call otherwise = read_byte_arg
  class_group GroupOpcode.push_class_environment otherwise = set_string_literal
  class_group GroupOpcode.push_implicit_ctor otherwise = done
  class_group GroupOpcode.init_class otherwise = done
  class_group GroupOpcode.finalize_class otherwise = finalize_class_group
  class_group GroupOpcode.set_field_init otherwise = done
  class_group GroupOpcode.run_field_init otherwise = done
  class_group GroupOpcode.run_static_field_init otherwise = done
  class_group GroupOpcode.set_next_computed_field otherwise = process_put
  class_group GroupOpcode.push_super_constructor otherwise = done
  class_group GroupOpcode.resolve_lexical_this otherwise = done
  class_group GroupOpcode.object_literal_home_env otherwise = done
  class_group GroupOpcode.set_home_object otherwise = done
  class_group GroupOpcode.super_reference otherwise = done
  class_group GroupOpcode.set_function_name otherwise = set_function_name_group
  class_group _ otherwise = otherwise

  unfoldable pub iterator_group : GroupOpcode → M (Unit {0}) → M (Unit {0})
  iterator_group GroupOpcode.push_spread_element otherwise = done
  iterator_group GroupOpcode.push_rest_object otherwise = done
  iterator_group GroupOpcode.get_iterator otherwise = done
  iterator_group GroupOpcode.iterator_step otherwise = done
  iterator_group GroupOpcode.iterator_close otherwise = done
  iterator_group GroupOpcode.default_initializer otherwise = done
  iterator_group GroupOpcode.rest_initializer otherwise = done
  iterator_group GroupOpcode.initializer_push_list otherwise = done
  iterator_group GroupOpcode.initializer_push_rest otherwise = done
  iterator_group GroupOpcode.initializer_push_name otherwise = done
  iterator_group GroupOpcode.initializer_push_prop otherwise = done
  iterator_group GroupOpcode.move otherwise = done
  iterator_group GroupOpcode.spread_arguments otherwise = read_byte_arg
  iterator_group GroupOpcode.create_generator otherwise = done
  iterator_group GroupOpcode.yield otherwise = done
  iterator_group GroupOpcode.async_yield otherwise = done
  iterator_group GroupOpcode.async_yield_iterator otherwise = done
  iterator_group GroupOpcode.await otherwise = done
  iterator_group GroupOpcode.generator_await otherwise = done
  iterator_group GroupOpcode.ext_return otherwise = done
  iterator_group GroupOpcode.async_exit otherwise = done
  iterator_group GroupOpcode.string_concat otherwise = done
  iterator_group GroupOpcode.get_template_object otherwise = done
  iterator_group GroupOpcode.push_new_target otherwise = done
  iterator_group GroupOpcode.require_object_coercible otherwise = done
  iterator_group GroupOpcode.assign_super otherwise = done
  iterator_group _ otherwise = otherwise

  unfoldable pub access_group : GroupOpcode → M (Unit {0}) → M (Unit {0})
  access_group GroupOpcode.push_elison otherwise = done
  access_group GroupOpcode.append_array otherwise = read_byte_arg
  access_group GroupOpcode.ident_reference otherwise = read_register_operand
  access_group GroupOpcode.prop_get otherwise = done
  access_group GroupOpcode.prop_reference otherwise = property_update
  access_group GroupOpcode.prop_pre_incr otherwise = property_update
  access_group GroupOpcode.prop_pre_decr otherwise = property_update
  access_group GroupOpcode.prop_post_incr otherwise = property_update
  access_group GroupOpcode.prop_post_decr otherwise = property_update
  access_group GroupOpcode.pre_incr otherwise = update_again
  access_group GroupOpcode.pre_decr otherwise = update_again
  access_group GroupOpcode.post_incr otherwise = update_again
  access_group GroupOpcode.post_decr otherwise = update_again
  access_group GroupOpcode.assign otherwise = process_put
  access_group GroupOpcode.mov_ident otherwise = mov_ident_group
  access_group GroupOpcode.assign_prop otherwise = process_put
  access_group GroupOpcode.assign_prop_this otherwise = process_put
  access_group GroupOpcode.return otherwise = done
  access_group GroupOpcode.throw otherwise = done
  access_group GroupOpcode.throw_reference_error otherwise = done
  access_group GroupOpcode.eval otherwise = done
  access_group GroupOpcode.call otherwise = argument_count codes.call0
  access_group GroupOpcode.new otherwise = argument_count codes.new0
  access_group GroupOpcode.error otherwise = done
  access_group GroupOpcode.resolve_base_for_call otherwise = done
  access_group GroupOpcode.prop_delete otherwise = done
  access_group GroupOpcode.delete otherwise = skip_literal_index
  access_group _ otherwise = otherwise

  unfoldable pub branch_group : GroupOpcode → M (Unit {0}) → M (Unit {0})
  branch_group GroupOpcode.jump otherwise = mark InstFlags.jump
  branch_group GroupOpcode.branch_if_strict_equal otherwise = mark_condition
  branch_group GroupOpcode.branch_if_true otherwise = mark_condition
  branch_group GroupOpcode.branch_if_false otherwise = mark_condition
  branch_group GroupOpcode.branch_if_logical_true otherwise = mark_condition
  branch_group GroupOpcode.branch_if_logical_false otherwise = mark_condition
  branch_group GroupOpcode.branch_if_nullish otherwise = mark InstFlags.conditional_jump
  branch_group GroupOpcode.plus otherwise = done
  branch_group GroupOpcode.minus otherwise = done
  branch_group GroupOpcode.negate otherwise = done
  branch_group GroupOpcode.bit_not otherwise = done
  branch_group GroupOpcode.void otherwise = done
  branch_group GroupOpcode.typeof_ident otherwise = read_register_operand
  branch_group GroupOpcode.typeof otherwise = done
  branch_group _ otherwise = otherwise

  unfoldable pub operator_group : GroupOpcode → M (Unit {0}) → M (Unit {0})
  operator_group GroupOpcode.add otherwise = done
  operator_group GroupOpcode.sub otherwise = done
  operator_group GroupOpcode.mul otherwise = done
  operator_group GroupOpcode.div otherwise = done
  operator_group GroupOpcode.exp otherwise = done
  operator_group GroupOpcode.remainder otherwise = done
  operator_group GroupOpcode.equal otherwise = done
  operator_group GroupOpcode.not_equal otherwise = done
  operator_group GroupOpcode.strict_equal otherwise = done
  operator_group GroupOpcode.strict_not_equal otherwise = done
  operator_group GroupOpcode.bit_or otherwise = done
  operator_group GroupOpcode.bit_xor otherwise = done
  operator_group GroupOpcode.bit_and otherwise = done
  operator_group GroupOpcode.left_shift otherwise = done
  operator_group GroupOpcode.right_shift otherwise = done
  operator_group GroupOpcode.uns_right_shift otherwise = done
  operator_group GroupOpcode.less otherwise = done
  operator_group GroupOpcode.greater otherwise = done
  operator_group GroupOpcode.less_equal otherwise = done
  operator_group GroupOpcode.greater_equal otherwise = done
  operator_group GroupOpcode.in_object otherwise = done
  operator_group GroupOpcode.instanceof otherwise = done
  operator_group GroupOpcode.block_create_context otherwise = done
  operator_group GroupOpcode.with otherwise = done
  operator_group GroupOpcode.for_in_init otherwise = mark_condition
  operator_group GroupOpcode.for_in_get_next otherwise = done
  operator_group GroupOpcode.for_in_has_next otherwise = mark_condition
  operator_group GroupOpcode.for_of_init otherwise = mark_condition
  operator_group GroupOpcode.for_of_get_next otherwise = done
  operator_group GroupOpcode.for_of_has_next otherwise = mark_condition
  operator_group GroupOpcode.for_await_of_init otherwise = mark_condition
  operator_group GroupOpcode.for_await_of_has_next otherwise = done
  operator_group GroupOpcode.try otherwise = do mark InstFlags.jump; mark InstFlags.try_start
  operator_group GroupOpcode.catch otherwise = do mark InstFlags.jump; mark InstFlags.try_catch
  operator_group GroupOpcode.finally otherwise = do mark InstFlags.jump; mark InstFlags.try_finally
  operator_group GroupOpcode.context_end otherwise = done
  operator_group GroupOpcode.jump_and_exit_context otherwise = mark InstFlags.jump
  operator_group GroupOpcode.breakpoint_enabled otherwise = done
  operator_group GroupOpcode.breakpoint_disabled otherwise = done
  operator_group GroupOpcode.line otherwise = read_line
  operator_group GroupOpcode.nothing otherwise = done
  operator_group _ otherwise = otherwise

  -- The whole switch; what no piece names falls to `default`.
  unfoldable pub decode_group_opcode : GroupOpcode → M (Unit {0})
  decode_group_opcode g =
      names_group g
        (class_group g (iterator_group g (access_group g (branch_group g (operator_group g done)))))
