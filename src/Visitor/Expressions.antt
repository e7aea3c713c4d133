-- ===== src/Visitor/Expressions.antt =====
-- The classes derived from `Expression`, and the class that each forwards
-- an unhandled `visit` to in compiler/include/dmd/visitor.h.
pub mod Bases
use dmd.Prelude.{Option, none, some}

pub data ExpressionClass : Type 0 where
  expression declaration_exp integer_exp new_anon_class_exp is_exp real_exp null_exp typeid_exp
        traits_exp string_exp interp_exp new_exp assoc_array_literal_exp array_literal_exp mixin_exp
        func_exp interval_exp type_exp scope_exp identifier_exp una_exp default_init_exp bin_exp
        dsymbol_exp template_exp symbol_exp tuple_exp this_exp generic_exp var_exp dollar_exp
        super_exp addr_exp pre_exp ptr_exp neg_exp u_add_exp not_exp com_exp delete_exp cast_exp
        call_exp dot_id_exp assert_exp throw_exp import_exp dot_template_instance_exp array_exp
        comma_exp post_exp pow_exp mul_exp div_exp mod_exp add_exp min_exp cat_exp shl_exp shr_exp
        ushr_exp equal_exp in_exp identity_exp cmp_exp and_exp xor_exp or_exp logical_exp cond_exp
        assign_exp bin_assign_exp add_assign_exp min_assign_exp mul_assign_exp div_assign_exp
        mod_assign_exp pow_assign_exp and_assign_exp or_assign_exp xor_assign_exp shl_assign_exp
        shr_assign_exp ushr_assign_exp cat_assign_exp cat_elem_assign_exp cat_dchar_assign_exp
        error_exp complex_exp struct_literal_exp compound_literal_exp objc_class_reference_exp
        sym_off_exp over_exp halt_exp dot_template_exp dot_var_exp delegate_exp dot_type_exp
        vector_exp vector_array_exp slice_exp array_length_exp delegate_ptr_exp delegate_funcptr_exp
        dot_exp index_exp construct_exp blit_exp remove_exp class_reference_exp void_init_exp
        thrown_exception_exp lowered_assign_exp :
      ExpressionClass

-- The overloads that `Visitor` adds.
late_forward : ExpressionClass → Option ExpressionClass
late_forward error_exp = some expression
late_forward complex_exp = some expression
late_forward struct_literal_exp = some expression
late_forward compound_literal_exp = some expression
late_forward objc_class_reference_exp = some expression
late_forward sym_off_exp = some symbol_exp
late_forward over_exp = some expression
late_forward halt_exp = some expression
late_forward dot_template_exp = some una_exp
late_forward dot_var_exp = some una_exp
late_forward delegate_exp = some una_exp
late_forward dot_type_exp = some una_exp
late_forward vector_exp = some una_exp
late_forward vector_array_exp = some una_exp
late_forward slice_exp = some una_exp
late_forward array_length_exp = some una_exp
late_forward delegate_ptr_exp = some una_exp
late_forward delegate_funcptr_exp = some una_exp
late_forward dot_exp = some bin_exp
late_forward index_exp = some bin_exp
late_forward construct_exp = some assign_exp
late_forward blit_exp = some assign_exp
late_forward remove_exp = some bin_exp
late_forward class_reference_exp = some expression
late_forward void_init_exp = some expression
late_forward thrown_exception_exp = some expression
late_forward lowered_assign_exp = some assign_exp
late_forward _ = none

-- `visit(C *)` of a visitor that does not override it calls `visit` at this class; `none` is the
-- assertion of a root's overload.
unfoldable pub forward : ExpressionClass → Option ExpressionClass
unfolding late_forward
forward declaration_exp = some expression
forward integer_exp = some expression
forward new_anon_class_exp = some expression
forward is_exp = some expression
forward real_exp = some expression
forward null_exp = some expression
forward typeid_exp = some expression
forward traits_exp = some expression
forward string_exp = some expression
forward interp_exp = some expression
forward new_exp = some expression
forward assoc_array_literal_exp = some expression
forward array_literal_exp = some expression
forward mixin_exp = some expression
forward func_exp = some expression
forward interval_exp = some expression
forward type_exp = some expression
forward scope_exp = some expression
forward identifier_exp = some expression
forward una_exp = some expression
forward default_init_exp = some expression
forward bin_exp = some expression
forward dsymbol_exp = some expression
forward template_exp = some expression
forward symbol_exp = some expression
forward tuple_exp = some expression
forward this_exp = some expression
forward generic_exp = some expression
forward var_exp = some symbol_exp
forward dollar_exp = some identifier_exp
forward super_exp = some this_exp
forward addr_exp = some una_exp
forward pre_exp = some una_exp
forward ptr_exp = some una_exp
forward neg_exp = some una_exp
forward u_add_exp = some una_exp
forward not_exp = some una_exp
forward com_exp = some una_exp
forward delete_exp = some una_exp
forward cast_exp = some una_exp
forward call_exp = some una_exp
forward dot_id_exp = some una_exp
forward assert_exp = some una_exp
forward throw_exp = some una_exp
forward import_exp = some una_exp
forward dot_template_instance_exp = some una_exp
forward array_exp = some una_exp
forward comma_exp = some bin_exp
forward post_exp = some bin_exp
forward pow_exp = some bin_exp
forward mul_exp = some bin_exp
forward div_exp = some bin_exp
forward mod_exp = some bin_exp
forward add_exp = some bin_exp
forward min_exp = some bin_exp
forward cat_exp = some bin_exp
forward shl_exp = some bin_exp
forward shr_exp = some bin_exp
forward ushr_exp = some bin_exp
forward equal_exp = some bin_exp
forward in_exp = some bin_exp
forward identity_exp = some bin_exp
forward cmp_exp = some bin_exp
forward and_exp = some bin_exp
forward xor_exp = some bin_exp
forward or_exp = some bin_exp
forward logical_exp = some bin_exp
forward cond_exp = some bin_exp
forward assign_exp = some bin_exp
forward bin_assign_exp = some bin_exp
forward add_assign_exp = some bin_assign_exp
forward min_assign_exp = some bin_assign_exp
forward mul_assign_exp = some bin_assign_exp
forward div_assign_exp = some bin_assign_exp
forward mod_assign_exp = some bin_assign_exp
forward pow_assign_exp = some bin_assign_exp
forward and_assign_exp = some bin_assign_exp
forward or_assign_exp = some bin_assign_exp
forward xor_assign_exp = some bin_assign_exp
forward shl_assign_exp = some bin_assign_exp
forward shr_assign_exp = some bin_assign_exp
forward ushr_assign_exp = some bin_assign_exp
forward cat_assign_exp = some bin_assign_exp
forward cat_elem_assign_exp = some cat_assign_exp
forward cat_dchar_assign_exp = some cat_assign_exp
forward c = late_forward c
