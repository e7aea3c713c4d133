-- ===== src/Expression/OpClass.antt =====
-- The table of operators and classes of compiler/src/dmd/expression.d.
use dmd.Prelude.{Option, none, some}
use dmd.Expression.Op
use dmd.Expression.Op.{Exp, same_op}
use dmd.Visitor.Expressions.{
  ExpressionClass, declaration_exp, integer_exp, new_anon_class_exp, is_exp, real_exp, null_exp,
  typeid_exp, traits_exp, string_exp, interp_exp, new_exp, assoc_array_literal_exp,
  array_literal_exp, mixin_exp, func_exp, interval_exp, type_exp, scope_exp, identifier_exp,
  default_init_exp, dsymbol_exp, template_exp, tuple_exp, this_exp, generic_exp, var_exp,
  dollar_exp, super_exp, addr_exp, pre_exp, ptr_exp, neg_exp, u_add_exp, not_exp, com_exp,
  delete_exp, cast_exp, call_exp, dot_id_exp, assert_exp, throw_exp, import_exp,
  dot_template_instance_exp, array_exp, comma_exp, post_exp, pow_exp, mul_exp, div_exp, mod_exp,
  add_exp, min_exp, cat_exp, shl_exp, shr_exp, ushr_exp, equal_exp, in_exp, identity_exp, cmp_exp,
  and_exp, xor_exp, or_exp, logical_exp, cond_exp, assign_exp, add_assign_exp, min_assign_exp,
  mul_assign_exp, div_assign_exp, mod_assign_exp, pow_assign_exp, and_assign_exp, or_assign_exp,
  xor_assign_exp, shl_assign_exp, shr_assign_exp, ushr_assign_exp, cat_assign_exp,
  cat_elem_assign_exp, cat_dchar_assign_exp, error_exp, complex_exp, struct_literal_exp,
  compound_literal_exp, objc_class_reference_exp, sym_off_exp, over_exp, halt_exp, dot_template_exp,
  dot_var_exp, delegate_exp, dot_type_exp, vector_exp, vector_array_exp, slice_exp,
  array_length_exp, delegate_ptr_exp, delegate_funcptr_exp, dot_exp, index_exp, construct_exp,
  blit_exp, remove_exp, class_reference_exp, void_init_exp, thrown_exception_exp,
  lowered_assign_exp,
}

-- `ExpOpTypePairs`: the class of the nodes with an operator. That of `CTFEExp`, which no visitor
-- knows, is left out.
unfoldable pub class_of_op : Exp → Option ExpressionClass
class_of_op Op.negate = some neg_exp
class_of_op Op.cast_ = some cast_exp
class_of_op Op.null_ = some null_exp
class_of_op Op.assert_ = some assert_exp
class_of_op Op.array = some array_exp
class_of_op Op.call = some call_exp
class_of_op Op.address = some addr_exp
class_of_op Op.type = some type_exp
class_of_op Op.throw_ = some throw_exp
class_of_op Op.new_ = some new_exp
class_of_op Op.delete_ = some delete_exp
class_of_op Op.star = some ptr_exp
class_of_op Op.symbol_offset = some sym_off_exp
class_of_op Op.variable = some var_exp
class_of_op Op.dot_variable = some dot_var_exp
class_of_op Op.dot_identifier = some dot_id_exp
class_of_op Op.dot_template_instance = some dot_template_instance_exp
class_of_op Op.dot_type = some dot_type_exp
class_of_op Op.slice = some slice_exp
class_of_op Op.array_length = some array_length_exp
class_of_op Op.dollar = some dollar_exp
class_of_op Op.template_ = some template_exp
class_of_op Op.dot_template_declaration = some dot_template_exp
class_of_op Op.declaration = some declaration_exp
class_of_op Op.d_symbol = some dsymbol_exp
class_of_op Op.typeid_ = some typeid_exp
class_of_op Op.uadd = some u_add_exp
class_of_op Op.remove = some remove_exp
class_of_op Op.new_anonymous_class = some new_anon_class_exp
class_of_op Op.array_literal = some array_literal_exp
class_of_op Op.assoc_array_literal = some assoc_array_literal_exp
class_of_op Op.struct_literal = some struct_literal_exp
class_of_op Op.class_reference = some class_reference_exp
class_of_op Op.thrown_exception = some thrown_exception_exp
class_of_op Op.delegate_pointer = some delegate_ptr_exp
class_of_op Op.delegate_function_pointer = some delegate_funcptr_exp
class_of_op Op.less_than = some cmp_exp
class_of_op Op.greater_than = some cmp_exp
class_of_op Op.less_or_equal = some cmp_exp
class_of_op Op.greater_or_equal = some cmp_exp
class_of_op Op.equal = some equal_exp
class_of_op Op.not_equal = some equal_exp
class_of_op Op.identity = some identity_exp
class_of_op Op.not_identity = some identity_exp
class_of_op Op.index = some index_exp
class_of_op Op.is_ = some is_exp
class_of_op Op.left_shift = some shl_exp
class_of_op Op.right_shift = some shr_exp
class_of_op Op.left_shift_assign = some shl_assign_exp
class_of_op Op.right_shift_assign = some shr_assign_exp
class_of_op Op.unsigned_right_shift = some ushr_exp
class_of_op Op.unsigned_right_shift_assign = some ushr_assign_exp
class_of_op Op.concatenate = some cat_exp
class_of_op Op.concatenate_assign = some cat_assign_exp
class_of_op Op.concatenate_elem_assign = some cat_elem_assign_exp
class_of_op Op.concatenate_dchar_assign = some cat_dchar_assign_exp
class_of_op Op.add = some add_exp
class_of_op Op.min = some min_exp
class_of_op Op.add_assign = some add_assign_exp
class_of_op Op.min_assign = some min_assign_exp
class_of_op Op.mul = some mul_exp
class_of_op Op.div = some div_exp
class_of_op Op.mod_ = some mod_exp
class_of_op Op.mul_assign = some mul_assign_exp
class_of_op Op.div_assign = some div_assign_exp
class_of_op Op.mod_assign = some mod_assign_exp
class_of_op Op.and_ = some and_exp
class_of_op Op.or_ = some or_exp
class_of_op Op.xor_ = some xor_exp
class_of_op Op.and_assign = some and_assign_exp
class_of_op Op.or_assign = some or_assign_exp
class_of_op Op.xor_assign = some xor_assign_exp
class_of_op Op.assign = some assign_exp
class_of_op Op.not_ = some not_exp
class_of_op Op.tilde = some com_exp
class_of_op Op.plus_plus = some post_exp
class_of_op Op.minus_minus = some post_exp
class_of_op Op.construct = some construct_exp
class_of_op Op.blit = some blit_exp
class_of_op Op.dot = some dot_exp
class_of_op Op.comma = some comma_exp
class_of_op Op.question = some cond_exp
class_of_op Op.and_and = some logical_exp
class_of_op Op.or_or = some logical_exp
class_of_op Op.pre_plus_plus = some pre_exp
class_of_op Op.pre_minus_minus = some pre_exp
class_of_op Op.identifier = some identifier_exp
class_of_op Op.string_ = some string_exp
class_of_op Op.interpolated = some interp_exp
class_of_op Op.this_ = some this_exp
class_of_op Op.super_ = some super_exp
class_of_op Op.halt = some halt_exp
class_of_op Op.tuple = some tuple_exp
class_of_op Op.error = some error_exp
class_of_op Op.void_ = some void_init_exp
class_of_op Op.int64 = some integer_exp
class_of_op Op.float64 = some real_exp
class_of_op Op.complex80 = some complex_exp
class_of_op Op.import_ = some import_exp
class_of_op Op.delegate_ = some delegate_exp
class_of_op Op.function_ = some func_exp
class_of_op Op.mixin_ = some mixin_exp
class_of_op Op.in_ = some in_exp
class_of_op Op.scope_ = some scope_exp
class_of_op Op.traits = some traits_exp
class_of_op Op.overload_set = some over_exp
class_of_op Op.default_init = some default_init_exp
class_of_op Op.pow = some pow_exp
class_of_op Op.pow_assign = some pow_assign_exp
class_of_op Op.vector = some vector_exp
class_of_op Op.objc_class_reference = some objc_class_reference_exp
class_of_op Op.vector_array = some vector_array_exp
class_of_op Op.compound_literal = some compound_literal_exp
class_of_op Op.generic = some generic_exp
class_of_op Op.interval = some interval_exp
class_of_op Op.lowered_assign_exp = some lowered_assign_exp
class_of_op _ = none
