-- ===== src/Expression/NodeClass.antt =====
-- The class of a node of the tree of expressions: compiler/include/dmd/expression.h.
use dmd.Visitor.Expressions.{ExpressionClass}
use dmd.Expression.Tree.{
  Expression, leaf, cat_exp, cat_assign_exp, equal_exp, assert_exp, call_exp, array_exp, slice_exp,
  array_literal_exp, assoc_array_literal_exp, struct_literal_exp, tuple_exp, new_exp,
  new_anon_class_exp, typeid_exp, cond_exp, declaration_exp, Leaf, Unary, Binary, CatAssign,
  cat_assign, cat_elem_assign, cat_dchar_assign, una_exp, bin_exp, integer_exp, error_exp, real_exp,
  complex_exp, identifier_exp, dollar_exp, dsymbol_exp, this_exp, super_exp, null_exp, string_exp,
  interp_exp, type_exp, scope_exp, template_exp, sym_off_exp, var_exp, over_exp, func_exp,
  traits_exp, halt_exp, is_exp, mixin_exp, interval_exp, generic_exp, default_init_exp,
  objc_class_reference_exp, import_exp, throw_exp, addr_exp, ptr_exp, neg_exp, u_add_exp, com_exp,
  delete_exp, vector_array_exp, array_length_exp, delegate_ptr_exp, delegate_funcptr_exp, pre_exp,
  dot_id_exp, dot_template_exp, dot_var_exp, dot_template_instance_exp, delegate_exp, dot_type_exp,
  not_exp, cast_exp, vector_exp, dot_exp, post_exp, add_assign_exp, min_assign_exp, mul_assign_exp,
  div_assign_exp, mod_assign_exp, and_assign_exp, or_assign_exp, xor_assign_exp, pow_assign_exp,
  shl_assign_exp, shr_assign_exp, ushr_assign_exp, add_exp, min_exp, mul_exp, div_exp, mod_exp,
  pow_exp, shl_exp, shr_exp, ushr_exp, and_exp, or_exp, xor_exp, logical_exp, cmp_exp, in_exp,
  remove_exp, identity_exp, comma_exp, index_exp, assign_exp, construct_exp, lowered_assign_exp,
  blit_exp,
}

-- The class of a node.
unfoldable pub leaf_class : Leaf → ExpressionClass
leaf_class (integer_exp _) = ExpressionClass.integer_exp
leaf_class error_exp = ExpressionClass.error_exp
leaf_class (real_exp _) = ExpressionClass.real_exp
leaf_class (complex_exp _) = ExpressionClass.complex_exp
leaf_class (identifier_exp _) = ExpressionClass.identifier_exp
leaf_class (dollar_exp _) = ExpressionClass.dollar_exp
leaf_class (dsymbol_exp _) = ExpressionClass.dsymbol_exp
leaf_class (this_exp _) = ExpressionClass.this_exp
leaf_class (super_exp _) = ExpressionClass.super_exp
leaf_class null_exp = ExpressionClass.null_exp
leaf_class (string_exp _) = ExpressionClass.string_exp
leaf_class (interp_exp _) = ExpressionClass.interp_exp
leaf_class type_exp = ExpressionClass.type_exp
leaf_class (scope_exp _) = ExpressionClass.scope_exp
leaf_class (template_exp _) = ExpressionClass.template_exp
leaf_class (sym_off_exp _ _) = ExpressionClass.sym_off_exp
leaf_class (var_exp _ _) = ExpressionClass.var_exp
leaf_class (over_exp _) = ExpressionClass.over_exp
leaf_class (func_exp _) = ExpressionClass.func_exp
leaf_class (traits_exp _) = ExpressionClass.traits_exp
leaf_class halt_exp = ExpressionClass.halt_exp
leaf_class (is_exp _) = ExpressionClass.is_exp
leaf_class (mixin_exp _) = ExpressionClass.mixin_exp
leaf_class (interval_exp _) = ExpressionClass.interval_exp
leaf_class (generic_exp _) = ExpressionClass.generic_exp
leaf_class (default_init_exp _) = ExpressionClass.default_init_exp
leaf_class (objc_class_reference_exp _) = ExpressionClass.objc_class_reference_exp

unfoldable pub unary_class : Unary → ExpressionClass
unary_class import_exp = ExpressionClass.import_exp
unary_class throw_exp = ExpressionClass.throw_exp
unary_class addr_exp = ExpressionClass.addr_exp
unary_class ptr_exp = ExpressionClass.ptr_exp
unary_class neg_exp = ExpressionClass.neg_exp
unary_class u_add_exp = ExpressionClass.u_add_exp
unary_class com_exp = ExpressionClass.com_exp
unary_class delete_exp = ExpressionClass.delete_exp
unary_class vector_array_exp = ExpressionClass.vector_array_exp
unary_class array_length_exp = ExpressionClass.array_length_exp
unary_class delegate_ptr_exp = ExpressionClass.delegate_ptr_exp
unary_class delegate_funcptr_exp = ExpressionClass.delegate_funcptr_exp
unary_class pre_exp = ExpressionClass.pre_exp
unary_class (dot_id_exp _) = ExpressionClass.dot_id_exp
unary_class (dot_template_exp _) = ExpressionClass.dot_template_exp
unary_class (dot_var_exp _) = ExpressionClass.dot_var_exp
unary_class (dot_template_instance_exp _) = ExpressionClass.dot_template_instance_exp
unary_class (delegate_exp _) = ExpressionClass.delegate_exp
unary_class (dot_type_exp _) = ExpressionClass.dot_type_exp
unary_class (not_exp _) = ExpressionClass.not_exp
unary_class (cast_exp _ _) = ExpressionClass.cast_exp
unary_class (vector_exp _) = ExpressionClass.vector_exp

unfoldable pub binary_class : Binary → ExpressionClass
binary_class dot_exp = ExpressionClass.dot_exp
binary_class post_exp = ExpressionClass.post_exp
binary_class add_assign_exp = ExpressionClass.add_assign_exp
binary_class min_assign_exp = ExpressionClass.min_assign_exp
binary_class mul_assign_exp = ExpressionClass.mul_assign_exp
binary_class div_assign_exp = ExpressionClass.div_assign_exp
binary_class mod_assign_exp = ExpressionClass.mod_assign_exp
binary_class and_assign_exp = ExpressionClass.and_assign_exp
binary_class or_assign_exp = ExpressionClass.or_assign_exp
binary_class xor_assign_exp = ExpressionClass.xor_assign_exp
binary_class pow_assign_exp = ExpressionClass.pow_assign_exp
binary_class shl_assign_exp = ExpressionClass.shl_assign_exp
binary_class shr_assign_exp = ExpressionClass.shr_assign_exp
binary_class ushr_assign_exp = ExpressionClass.ushr_assign_exp
binary_class add_exp = ExpressionClass.add_exp
binary_class min_exp = ExpressionClass.min_exp
binary_class mul_exp = ExpressionClass.mul_exp
binary_class div_exp = ExpressionClass.div_exp
binary_class mod_exp = ExpressionClass.mod_exp
binary_class pow_exp = ExpressionClass.pow_exp
binary_class shl_exp = ExpressionClass.shl_exp
binary_class shr_exp = ExpressionClass.shr_exp
binary_class ushr_exp = ExpressionClass.ushr_exp
binary_class and_exp = ExpressionClass.and_exp
binary_class or_exp = ExpressionClass.or_exp
binary_class xor_exp = ExpressionClass.xor_exp
binary_class logical_exp = ExpressionClass.logical_exp
binary_class cmp_exp = ExpressionClass.cmp_exp
binary_class in_exp = ExpressionClass.in_exp
binary_class remove_exp = ExpressionClass.remove_exp
binary_class identity_exp = ExpressionClass.identity_exp
binary_class (comma_exp _) = ExpressionClass.comma_exp
binary_class (index_exp _) = ExpressionClass.index_exp
binary_class (assign_exp _) = ExpressionClass.assign_exp
binary_class (construct_exp _ _) = ExpressionClass.construct_exp
binary_class (lowered_assign_exp _ _) = ExpressionClass.lowered_assign_exp
binary_class (blit_exp _) = ExpressionClass.blit_exp

unfoldable pub cat_assign_class : CatAssign → ExpressionClass
cat_assign_class cat_assign = ExpressionClass.cat_assign_exp
cat_assign_class cat_elem_assign = ExpressionClass.cat_elem_assign_exp
cat_assign_class cat_dchar_assign = ExpressionClass.cat_dchar_assign_exp

unfoldable pub class_of : Expression → ExpressionClass
class_of (leaf _ f) = leaf_class f
class_of (una_exp _ f _) = unary_class f
class_of (bin_exp _ f _ _) = binary_class f
class_of (cat_exp _ _ _ _) = ExpressionClass.cat_exp
class_of (cat_assign_exp _ f _ _ _) = cat_assign_class f
class_of (equal_exp _ _ _ _) = ExpressionClass.equal_exp
class_of (assert_exp _ _ _ _) = ExpressionClass.assert_exp
class_of (call_exp _ _ _ _ _) = ExpressionClass.call_exp
class_of (array_exp _ _ _ _) = ExpressionClass.array_exp
class_of (slice_exp _ _ _ _ _) = ExpressionClass.slice_exp
class_of (array_literal_exp _ _ _ _) = ExpressionClass.array_literal_exp
class_of (assoc_array_literal_exp _ _ _ _) = ExpressionClass.assoc_array_literal_exp
class_of (struct_literal_exp _ _ _) = ExpressionClass.struct_literal_exp
class_of (tuple_exp _ _ _) = ExpressionClass.tuple_exp
class_of (new_exp _ _ _ _ _ _) = ExpressionClass.new_exp
class_of (new_anon_class_exp _ _ _ _ _) = ExpressionClass.new_anon_class_exp
class_of (typeid_exp _ _) = ExpressionClass.typeid_exp
class_of (cond_exp _ _ _ _) = ExpressionClass.cond_exp
class_of (declaration_exp _ _) = ExpressionClass.declaration_exp
