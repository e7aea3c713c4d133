-- ===== src/Expression/Casts.antt =====
-- The down-casts of `Expression` (compiler/include/dmd/expression.h): tests of the operator of a
-- node, in compiler/src/dmd/expression.d.
pub mod Exact
pub mod Derived
use dmd.Prelude.{Bool, true, false, ◌||◌, Option, none, some, List, [], ◌∷◌}
use dmd.Expression.Op
use dmd.Expression.Op.{Exp, same_op}
use dmd.Visitor.Expressions.{
  ExpressionClass, declaration_exp, integer_exp, new_anon_class_exp, is_exp, real_exp, null_exp,
  typeid_exp, traits_exp, string_exp, interp_exp, new_exp, assoc_array_literal_exp,
  array_literal_exp, mixin_exp, func_exp, interval_exp, type_exp, scope_exp, identifier_exp,
  default_init_exp, dsymbol_exp, template_exp, tuple_exp, this_exp, generic_exp, var_exp,
  dollar_exp, super_exp, addr_exp, pre_exp, ptr_exp, neg_exp, u_add_exp, not_exp, com_exp,
  delete_exp, cast_exp, call_exp, dot_id_exp, assert_exp, throw_exp, import_exp,
  dot_template_instance_exp, array_exp, comma_exp, post_exp, pow_exp, mul_exp, div_exp, mod_exp,
  add_exp, min_exp, cat_exp, shl_exp, shr_exp, ushr_exp, equal_exp, in_exp, identity_exp, cmp_exp,
  and_exp, xor_exp, or_exp, logical_exp, cond_exp, assign_exp, add_assign_exp, min_assign_exp,
  mul_assign_exp, div_assign_exp, mod_assign_exp, pow_assign_exp, and_assign_exp, or_assign_exp,
  xor_assign_exp, shl_assign_exp, shr_assign_exp, ushr_assign_exp, cat_assign_exp,
  cat_elem_assign_exp, cat_dchar_assign_exp, error_exp, complex_exp, struct_literal_exp,
  compound_literal_exp, objc_class_reference_exp, sym_off_exp, over_exp, halt_exp, dot_template_exp,
  dot_var_exp, delegate_exp, dot_type_exp, vector_exp, vector_array_exp, slice_exp,
  array_length_exp, delegate_ptr_exp, delegate_funcptr_exp, dot_exp, index_exp, construct_exp,
  blit_exp, remove_exp, class_reference_exp, void_init_exp, thrown_exception_exp,
  lowered_assign_exp,
}

-- The operator is one of a list.
unfoldable pub one_of : Exp → List Exp → Bool
one_of op [] = false
one_of op (x ∷ xs) = same_op op x || one_of op xs

-- The operators at which the down-cast to a class, such as `isCallExp()`, gives the node.
unfoldable pub cast_ops : ExpressionClass → List Exp
cast_ops declaration_exp = Op.declaration ∷ []
cast_ops integer_exp = Op.int64 ∷ []
cast_ops new_anon_class_exp = Op.new_anonymous_class ∷ []
cast_ops is_exp = Op.is_ ∷ []
cast_ops real_exp = Op.float64 ∷ []
cast_ops null_exp = Op.null_ ∷ []
cast_ops typeid_exp = Op.typeid_ ∷ []
cast_ops traits_exp = Op.traits ∷ []
cast_ops string_exp = Op.string_ ∷ []
cast_ops interp_exp = Op.interpolated ∷ []
cast_ops new_exp = Op.new_ ∷ []
cast_ops assoc_array_literal_exp = Op.assoc_array_literal ∷ []
cast_ops array_literal_exp = Op.array_literal ∷ []
cast_ops mixin_exp = Op.mixin_ ∷ []
cast_ops func_exp = Op.function_ ∷ []
cast_ops interval_exp = Op.interval ∷ []
cast_ops type_exp = Op.type ∷ []
cast_ops scope_exp = Op.scope_ ∷ []
cast_ops identifier_exp = Op.identifier ∷ []
cast_ops default_init_exp = Op.default_init ∷ []
cast_ops dsymbol_exp = Op.d_symbol ∷ []
cast_ops template_exp = Op.template_ ∷ []
cast_ops tuple_exp = Op.tuple ∷ []
cast_ops this_exp = Op.this_ ∷ []
cast_ops generic_exp = Op.generic ∷ []
cast_ops var_exp = Op.variable ∷ []
cast_ops dollar_exp = Op.dollar ∷ []
cast_ops super_exp = Op.super_ ∷ []
cast_ops addr_exp = Op.address ∷ []
cast_ops pre_exp = Op.pre_plus_plus ∷ Op.pre_minus_minus ∷ []
cast_ops ptr_exp = Op.star ∷ []
cast_ops neg_exp = Op.negate ∷ []
cast_ops u_add_exp = Op.uadd ∷ []
cast_ops not_exp = Op.not_ ∷ []
cast_ops com_exp = Op.tilde ∷ []
cast_ops delete_exp = Op.delete_ ∷ []
cast_ops cast_exp = Op.cast_ ∷ []
cast_ops call_exp = Op.call ∷ []
cast_ops dot_id_exp = Op.dot_identifier ∷ []
cast_ops assert_exp = Op.assert_ ∷ []
cast_ops throw_exp = Op.throw_ ∷ []
cast_ops import_exp = Op.import_ ∷ []
cast_ops dot_template_instance_exp = Op.dot_template_instance ∷ []
cast_ops array_exp = Op.array ∷ []
cast_ops comma_exp = Op.comma ∷ []
cast_ops post_exp = Op.plus_plus ∷ Op.minus_minus ∷ []
cast_ops pow_exp = Op.pow ∷ []
cast_ops mul_exp = Op.mul ∷ []
cast_ops div_exp = Op.div ∷ []
cast_ops mod_exp = Op.mod_ ∷ []
cast_ops add_exp = Op.add ∷ []
cast_ops min_exp = Op.min ∷ []
cast_ops cat_exp = Op.concatenate ∷ []
cast_ops shl_exp = Op.left_shift ∷ []
cast_ops shr_exp = Op.right_shift ∷ []
cast_ops ushr_exp = Op.unsigned_right_shift ∷ []
cast_ops equal_exp = Op.equal ∷ Op.not_equal ∷ []
cast_ops in_exp = Op.in_ ∷ []
cast_ops identity_exp = Op.identity ∷ Op.not_identity ∷ []
cast_ops and_exp = Op.and_ ∷ []
cast_ops xor_exp = Op.xor_ ∷ []
cast_ops or_exp = Op.or_ ∷ []
cast_ops logical_exp = Op.and_and ∷ Op.or_or ∷ []
cast_ops cond_exp = Op.question ∷ []
cast_ops assign_exp = Op.assign ∷ []
cast_ops add_assign_exp = Op.add_assign ∷ []
cast_ops min_assign_exp = Op.min_assign ∷ []
cast_ops mul_assign_exp = Op.mul_assign ∷ []
cast_ops div_assign_exp = Op.div_assign ∷ []
cast_ops mod_assign_exp = Op.mod_assign ∷ []
cast_ops pow_assign_exp = Op.pow_assign ∷ []
cast_ops and_assign_exp = Op.and_assign ∷ []
cast_ops or_assign_exp = Op.or_assign ∷ []
cast_ops xor_assign_exp = Op.xor_assign ∷ []
cast_ops shl_assign_exp = Op.left_shift_assign ∷ []
cast_ops shr_assign_exp = Op.right_shift_assign ∷ []
cast_ops ushr_assign_exp = Op.unsigned_right_shift_assign ∷ []
cast_ops cat_assign_exp = Op.concatenate_assign ∷ []
cast_ops cat_elem_assign_exp = Op.concatenate_elem_assign ∷ []
cast_ops cat_dchar_assign_exp = Op.concatenate_dchar_assign ∷ []
cast_ops error_exp = Op.error ∷ []
cast_ops complex_exp = Op.complex80 ∷ []
cast_ops struct_literal_exp = Op.struct_literal ∷ []
cast_ops compound_literal_exp = Op.compound_literal ∷ []
cast_ops objc_class_reference_exp = Op.objc_class_reference ∷ []
cast_ops sym_off_exp = Op.symbol_offset ∷ []
cast_ops over_exp = Op.overload_set ∷ []
cast_ops halt_exp = Op.halt ∷ []
cast_ops dot_template_exp = Op.dot_template_declaration ∷ []
cast_ops dot_var_exp = Op.dot_variable ∷ []
cast_ops delegate_exp = Op.delegate_ ∷ []
cast_ops dot_type_exp = Op.dot_type ∷ []
cast_ops vector_exp = Op.vector ∷ []
cast_ops vector_array_exp = Op.vector_array ∷ []
cast_ops slice_exp = Op.slice ∷ []
cast_ops array_length_exp = Op.array_length ∷ []
cast_ops delegate_ptr_exp = Op.delegate_pointer ∷ []
cast_ops delegate_funcptr_exp = Op.delegate_function_pointer ∷ []
cast_ops dot_exp = Op.dot ∷ []
cast_ops index_exp = Op.index ∷ []
cast_ops construct_exp = Op.construct ∷ []
cast_ops blit_exp = Op.blit ∷ []
cast_ops remove_exp = Op.remove ∷ []
cast_ops class_reference_exp = Op.class_reference ∷ []
cast_ops void_init_exp = Op.void_ ∷ []
cast_ops thrown_exception_exp = Op.thrown_exception ∷ []
cast_ops lowered_assign_exp = Op.lowered_assign_exp ∷ []
cast_ops _ = []

-- Whether the down-cast to a class gives a node with the operator, and not null.
unfoldable pub down_cast : ExpressionClass → Exp → Bool
unfolding one_of cast_ops
down_cast c op = one_of op (cast_ops c)

-- `Eunary`, `Ebinary` and `EbinaryAssign`
abbrev pub e_unary : List Exp
e_unary =
    Op.import_ ∷ Op.assert_ ∷ Op.throw_ ∷ Op.dot_identifier ∷ Op.dot_template_declaration
    ∷ Op.dot_variable ∷ Op.dot_template_instance ∷ Op.delegate_ ∷ Op.dot_type ∷ Op.call ∷ Op.address
    ∷ Op.star ∷ Op.negate ∷ Op.uadd ∷ Op.tilde ∷ Op.not_ ∷ Op.delete_ ∷ Op.cast_ ∷ Op.vector
    ∷ Op.vector_array ∷ Op.slice ∷ Op.array_length ∷ Op.array ∷ Op.delegate_pointer
    ∷ Op.delegate_function_pointer ∷ Op.pre_minus_minus ∷ Op.pre_plus_plus ∷ []

abbrev pub e_binary : List Exp
e_binary =
    Op.dot ∷ Op.comma ∷ Op.index ∷ Op.minus_minus ∷ Op.plus_plus ∷ Op.assign ∷ Op.add ∷ Op.min
    ∷ Op.concatenate ∷ Op.mul ∷ Op.div ∷ Op.mod_ ∷ Op.pow ∷ Op.left_shift ∷ Op.right_shift
    ∷ Op.unsigned_right_shift ∷ Op.and_ ∷ Op.or_ ∷ Op.xor_ ∷ Op.and_and ∷ Op.or_or ∷ Op.less_than
    ∷ Op.less_or_equal ∷ Op.greater_than ∷ Op.greater_or_equal ∷ Op.in_ ∷ Op.remove ∷ Op.equal
    ∷ Op.not_equal ∷ Op.identity ∷ Op.not_identity ∷ Op.question ∷ Op.construct ∷ Op.blit ∷ []

abbrev pub e_binary_assign : List Exp
e_binary_assign =
    Op.add_assign ∷ Op.min_assign ∷ Op.mul_assign ∷ Op.div_assign ∷ Op.mod_assign ∷ Op.and_assign
    ∷ Op.or_assign ∷ Op.xor_assign ∷ Op.pow_assign ∷ Op.left_shift_assign ∷ Op.right_shift_assign
    ∷ Op.unsigned_right_shift_assign ∷ Op.concatenate_assign ∷ Op.concatenate_elem_assign
    ∷ Op.concatenate_dchar_assign ∷ []

-- `isUnaExp()`, `isBinExp()` and `isBinAssignExp()`, by the flags of `exptab`.
unfoldable pub is_una_exp : Exp → Bool
unfolding one_of
is_una_exp op = one_of op e_unary || (one_of op e_binary || one_of op e_binary_assign)

unfoldable pub is_bin_exp : Exp → Bool
unfolding one_of
is_bin_exp op = one_of op e_binary || one_of op e_binary_assign

unfoldable pub is_bin_assign_exp : Exp → Bool
unfolding one_of
is_bin_assign_exp op = one_of op e_binary_assign
