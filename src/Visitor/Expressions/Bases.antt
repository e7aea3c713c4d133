-- ===== src/Visitor/Expressions/Bases.antt =====
-- The base classes that the headers of compiler/include/dmd declare in the family
-- of Expressions.
use dmd.Prelude.{Option, none, some}
use dmd.Visitor.Expressions.{
  ExpressionClass, expression, declaration_exp, integer_exp, new_anon_class_exp, is_exp, real_exp,
  null_exp, typeid_exp, traits_exp, string_exp, interp_exp, new_exp, assoc_array_literal_exp,
  array_literal_exp, mixin_exp, func_exp, interval_exp, type_exp, scope_exp, identifier_exp,
  una_exp, default_init_exp, bin_exp, dsymbol_exp, template_exp, symbol_exp, tuple_exp, this_exp,
  generic_exp, var_exp, dollar_exp, super_exp, addr_exp, pre_exp, ptr_exp, neg_exp, u_add_exp,
  not_exp, com_exp, delete_exp, cast_exp, call_exp, dot_id_exp, assert_exp, throw_exp, import_exp,
  dot_template_instance_exp, array_exp, comma_exp, post_exp, pow_exp, mul_exp, div_exp, mod_exp,
  add_exp, min_exp, cat_exp, shl_exp, shr_exp, ushr_exp, equal_exp, in_exp, identity_exp, cmp_exp,
  and_exp, xor_exp, or_exp, logical_exp, cond_exp, assign_exp, bin_assign_exp, add_assign_exp,
  min_assign_exp, mul_assign_exp, div_assign_exp, mod_assign_exp, pow_assign_exp, and_assign_exp,
  or_assign_exp, xor_assign_exp, shl_assign_exp, shr_assign_exp, ushr_assign_exp, cat_assign_exp,
  cat_elem_assign_exp, cat_dchar_assign_exp, error_exp, complex_exp, struct_literal_exp,
  objc_class_reference_exp, sym_off_exp, over_exp, halt_exp, dot_template_exp, dot_var_exp,
  delegate_exp, dot_type_exp, vector_exp, vector_array_exp, slice_exp, array_length_exp,
  delegate_ptr_exp, delegate_funcptr_exp, dot_exp, index_exp, construct_exp, blit_exp, remove_exp,
  class_reference_exp, void_init_exp, thrown_exception_exp, lowered_assign_exp,
}

-- The base classes in compiler/include/dmd/ctfe.h.
base_in_ctfe : ExpressionClass → Option ExpressionClass
base_in_ctfe class_reference_exp = some expression
base_in_ctfe void_init_exp = some expression
base_in_ctfe thrown_exception_exp = some expression
base_in_ctfe _ = none

-- The base class of a class, those of compiler/include/dmd/expression.h first; `none` for a
-- root of the family, and for a class that no header defines.
unfoldable pub base : ExpressionClass → Option ExpressionClass
unfolding base_in_ctfe
base declaration_exp = some expression
base integer_exp = some expression
base new_anon_class_exp = some expression
base is_exp = some expression
base real_exp = some expression
base null_exp = some expression
base typeid_exp = some expression
base traits_exp = some expression
base string_exp = some expression
base interp_exp = some expression
base new_exp = some expression
base assoc_array_literal_exp = some expression
base array_literal_exp = some expression
base mixin_exp = some una_exp
base func_exp = some expression
base interval_exp = some expression
base type_exp = some expression
base scope_exp = some expression
base identifier_exp = some expression
base una_exp = some expression
base default_init_exp = some expression
base bin_exp = some expression
base dsymbol_exp = some expression
base template_exp = some expression
base symbol_exp = some expression
base tuple_exp = some expression
base this_exp = some expression
base generic_exp = some expression
base var_exp = some symbol_exp
base dollar_exp = some identifier_exp
base super_exp = some this_exp
base addr_exp = some una_exp
base pre_exp = some una_exp
base ptr_exp = some una_exp
base neg_exp = some una_exp
base u_add_exp = some una_exp
base not_exp = some una_exp
base com_exp = some una_exp
base delete_exp = some una_exp
base cast_exp = some una_exp
base call_exp = some una_exp
base dot_id_exp = some una_exp
base assert_exp = some una_exp
base throw_exp = some una_exp
base import_exp = some una_exp
base dot_template_instance_exp = some una_exp
base array_exp = some una_exp
base comma_exp = some bin_exp
base post_exp = some bin_exp
base pow_exp = some bin_exp
base mul_exp = some bin_exp
base div_exp = some bin_exp
base mod_exp = some bin_exp
base add_exp = some bin_exp
base min_exp = some bin_exp
base cat_exp = some bin_exp
base shl_exp = some bin_exp
base shr_exp = some bin_exp
base ushr_exp = some bin_exp
base equal_exp = some bin_exp
base in_exp = some bin_exp
base identity_exp = some bin_exp
base cmp_exp = some bin_exp
base and_exp = some bin_exp
base xor_exp = some bin_exp
base or_exp = some bin_exp
base logical_exp = some bin_exp
base cond_exp = some bin_exp
base assign_exp = some bin_exp
base bin_assign_exp = some bin_exp
base add_assign_exp = some bin_assign_exp
base min_assign_exp = some bin_assign_exp
base mul_assign_exp = some bin_assign_exp
base div_assign_exp = some bin_assign_exp
base mod_assign_exp = some bin_assign_exp
base pow_assign_exp = some bin_assign_exp
base and_assign_exp = some bin_assign_exp
base or_assign_exp = some bin_assign_exp
base xor_assign_exp = some bin_assign_exp
base shl_assign_exp = some bin_assign_exp
base shr_assign_exp = some bin_assign_exp
base ushr_assign_exp = some bin_assign_exp
base cat_assign_exp = some bin_assign_exp
base cat_elem_assign_exp = some cat_assign_exp
base cat_dchar_assign_exp = some cat_assign_exp
base error_exp = some expression
base complex_exp = some expression
base struct_literal_exp = some expression
base objc_class_reference_exp = some expression
base sym_off_exp = some symbol_exp
base over_exp = some expression
base halt_exp = some expression
base dot_template_exp = some una_exp
base dot_var_exp = some una_exp
base delegate_exp = some una_exp
base dot_type_exp = some una_exp
base vector_exp = some una_exp
base vector_array_exp = some una_exp
base slice_exp = some una_exp
base array_length_exp = some una_exp
base delegate_ptr_exp = some una_exp
base delegate_funcptr_exp = some una_exp
base dot_exp = some bin_exp
base index_exp = some bin_exp
base construct_exp = some assign_exp
base blit_exp = some assign_exp
base remove_exp = some bin_exp
base lowered_assign_exp = some assign_exp
base c = base_in_ctfe c
