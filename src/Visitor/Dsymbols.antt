-- ===== src/Visitor/Dsymbols.antt =====
-- The classes derived from `Dsymbol`, and the class that each forwards
-- an unhandled `visit` to in compiler/include/dmd/visitor.h.
pub mod Bases
use dmd.Prelude.{Option, none, some}

pub data DsymbolClass : Type 0 where
  dsymbol alias_this declaration scope_dsymbol import_ attrib_declaration static_assert debug_symbol
        version_symbol alias_assign c_asm_declaration package_ enum_declaration
        aggregate_declaration template_declaration template_instance nspace var_declaration
        func_declaration alias_declaration tuple_declaration func_literal_declaration
        post_blit_declaration ctor_declaration dtor_declaration invariant_declaration
        unit_test_declaration new_declaration static_ctor_declaration static_dtor_declaration
        shared_static_ctor_declaration shared_static_dtor_declaration mixin_declaration
        user_attribute_declaration link_declaration anon_declaration align_declaration
        cpp_mangle_declaration cpp_namespace_declaration visibility_declaration pragma_declaration
        storage_class_declaration conditional_declaration static_foreach_declaration
        unpack_declaration deprecated_declaration static_if_declaration enum_member module_
        struct_declaration union_declaration class_declaration interface_declaration template_mixin
        bit_field_declaration overload_set label_dsymbol with_scope_symbol array_scope_symbol
        over_declaration symbol_declaration forwarding_attrib_declaration this_declaration
        type_info_declaration type_info_struct_declaration type_info_class_declaration
        type_info_interface_declaration type_info_pointer_declaration type_info_array_declaration
        type_info_static_array_declaration type_info_associative_array_declaration
        type_info_enum_declaration type_info_function_declaration type_info_delegate_declaration
        type_info_tuple_declaration type_info_const_declaration type_info_invariant_declaration
        type_info_shared_declaration type_info_wild_declaration type_info_vector_declaration
        func_alias_declaration :
      DsymbolClass

-- The overloads that `Visitor` adds.
late_forward : DsymbolClass → Option DsymbolClass
late_forward overload_set = some dsymbol
late_forward label_dsymbol = some dsymbol
late_forward with_scope_symbol = some scope_dsymbol
late_forward array_scope_symbol = some scope_dsymbol
late_forward over_declaration = some declaration
late_forward symbol_declaration = some declaration
late_forward forwarding_attrib_declaration = some attrib_declaration
late_forward this_declaration = some var_declaration
late_forward type_info_declaration = some var_declaration
late_forward type_info_struct_declaration = some type_info_declaration
late_forward type_info_class_declaration = some type_info_declaration
late_forward type_info_interface_declaration = some type_info_declaration
late_forward type_info_pointer_declaration = some type_info_declaration
late_forward type_info_array_declaration = some type_info_declaration
late_forward type_info_static_array_declaration = some type_info_declaration
late_forward type_info_associative_array_declaration = some type_info_declaration
late_forward type_info_enum_declaration = some type_info_declaration
late_forward type_info_function_declaration = some type_info_declaration
late_forward type_info_delegate_declaration = some type_info_declaration
late_forward type_info_tuple_declaration = some type_info_declaration
late_forward type_info_const_declaration = some type_info_declaration
late_forward type_info_invariant_declaration = some type_info_declaration
late_forward type_info_shared_declaration = some type_info_declaration
late_forward type_info_wild_declaration = some type_info_declaration
late_forward type_info_vector_declaration = some type_info_declaration
late_forward func_alias_declaration = some func_declaration
late_forward _ = none

-- `visit(C *)` of a visitor that does not override it calls `visit` at this class; `none` is the
-- assertion of a root's overload.
unfoldable pub forward : DsymbolClass → Option DsymbolClass
unfolding late_forward
forward alias_this = some dsymbol
forward declaration = some dsymbol
forward scope_dsymbol = some dsymbol
forward import_ = some dsymbol
forward attrib_declaration = some dsymbol
forward static_assert = some dsymbol
forward debug_symbol = some dsymbol
forward version_symbol = some dsymbol
forward alias_assign = some dsymbol
forward c_asm_declaration = some dsymbol
forward package_ = some scope_dsymbol
forward enum_declaration = some scope_dsymbol
forward aggregate_declaration = some scope_dsymbol
forward template_declaration = some scope_dsymbol
forward template_instance = some scope_dsymbol
forward nspace = some scope_dsymbol
forward var_declaration = some declaration
forward func_declaration = some declaration
forward alias_declaration = some declaration
forward tuple_declaration = some declaration
forward func_literal_declaration = some func_declaration
forward post_blit_declaration = some func_declaration
forward ctor_declaration = some func_declaration
forward dtor_declaration = some func_declaration
forward invariant_declaration = some func_declaration
forward unit_test_declaration = some func_declaration
forward new_declaration = some func_declaration
forward static_ctor_declaration = some func_declaration
forward static_dtor_declaration = some func_declaration
forward shared_static_ctor_declaration = some static_ctor_declaration
forward shared_static_dtor_declaration = some static_dtor_declaration
forward mixin_declaration = some attrib_declaration
forward user_attribute_declaration = some attrib_declaration
forward link_declaration = some attrib_declaration
forward anon_declaration = some attrib_declaration
forward align_declaration = some attrib_declaration
forward cpp_mangle_declaration = some attrib_declaration
forward cpp_namespace_declaration = some attrib_declaration
forward visibility_declaration = some attrib_declaration
forward pragma_declaration = some attrib_declaration
forward storage_class_declaration = some attrib_declaration
forward conditional_declaration = some attrib_declaration
forward static_foreach_declaration = some attrib_declaration
forward unpack_declaration = some attrib_declaration
forward deprecated_declaration = some storage_class_declaration
forward static_if_declaration = some conditional_declaration
forward enum_member = some var_declaration
forward module_ = some package_
forward struct_declaration = some aggregate_declaration
forward union_declaration = some struct_declaration
forward class_declaration = some aggregate_declaration
forward interface_declaration = some class_declaration
forward template_mixin = some template_instance
forward bit_field_declaration = some var_declaration
forward c = late_forward c
