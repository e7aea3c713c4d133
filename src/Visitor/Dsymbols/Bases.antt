-- ===== src/Visitor/Dsymbols/Bases.antt =====
-- The base classes that the headers of compiler/include/dmd declare in the family
-- of Dsymbols.
use dmd.Prelude.{Option, none, some}
use dmd.Visitor.Dsymbols.{
  DsymbolClass, dsymbol, alias_this, declaration, scope_dsymbol, import_, attrib_declaration,
  static_assert, debug_symbol, version_symbol, c_asm_declaration, package_, enum_declaration,
  aggregate_declaration, template_declaration, template_instance, nspace, var_declaration,
  func_declaration, alias_declaration, tuple_declaration, func_literal_declaration,
  post_blit_declaration, ctor_declaration, dtor_declaration, invariant_declaration,
  unit_test_declaration, new_declaration, static_ctor_declaration, static_dtor_declaration,
  shared_static_ctor_declaration, shared_static_dtor_declaration, mixin_declaration,
  user_attribute_declaration, link_declaration, anon_declaration, align_declaration,
  cpp_mangle_declaration, cpp_namespace_declaration, visibility_declaration, pragma_declaration,
  storage_class_declaration, conditional_declaration, static_foreach_declaration,
  unpack_declaration, deprecated_declaration, static_if_declaration, enum_member, module_,
  struct_declaration, union_declaration, class_declaration, interface_declaration, template_mixin,
  bit_field_declaration, overload_set, label_dsymbol, with_scope_symbol, array_scope_symbol,
  over_declaration, symbol_declaration, forwarding_attrib_declaration, this_declaration,
  type_info_declaration, type_info_struct_declaration, type_info_class_declaration,
  type_info_interface_declaration, type_info_pointer_declaration, type_info_array_declaration,
  type_info_static_array_declaration, type_info_associative_array_declaration,
  type_info_enum_declaration, type_info_function_declaration, type_info_delegate_declaration,
  type_info_tuple_declaration, type_info_const_declaration, type_info_invariant_declaration,
  type_info_shared_declaration, type_info_wild_declaration, type_info_vector_declaration,
  func_alias_declaration,
}

-- The base classes in compiler/include/dmd/aliasthis.h.
base_in_aliasthis : DsymbolClass → Option DsymbolClass
base_in_aliasthis alias_this = some dsymbol
base_in_aliasthis _ = none

-- The base classes in compiler/include/dmd/version.h.
base_in_version : DsymbolClass → Option DsymbolClass
unfolding base_in_aliasthis
base_in_version debug_symbol = some dsymbol
base_in_version version_symbol = some dsymbol
base_in_version c = base_in_aliasthis c

-- The base classes in compiler/include/dmd/staticassert.h.
base_in_staticassert : DsymbolClass → Option DsymbolClass
unfolding base_in_version
base_in_staticassert static_assert = some dsymbol
base_in_staticassert c = base_in_version c

-- The base classes in compiler/include/dmd/nspace.h.
base_in_nspace : DsymbolClass → Option DsymbolClass
unfolding base_in_staticassert
base_in_nspace nspace = some scope_dsymbol
base_in_nspace c = base_in_staticassert c

-- The base classes in compiler/include/dmd/import.h.
base_in_import : DsymbolClass → Option DsymbolClass
unfolding base_in_nspace
base_in_import import_ = some dsymbol
base_in_import c = base_in_nspace c

-- The base classes in compiler/include/dmd/enum.h.
base_in_enum : DsymbolClass → Option DsymbolClass
unfolding base_in_import
base_in_enum enum_declaration = some scope_dsymbol
base_in_enum enum_member = some var_declaration
base_in_enum c = base_in_import c

-- The base classes in compiler/include/dmd/module.h.
base_in_module : DsymbolClass → Option DsymbolClass
unfolding base_in_enum
base_in_module package_ = some scope_dsymbol
base_in_module module_ = some package_
base_in_module c = base_in_enum c

-- The base classes in compiler/include/dmd/statement.h.
base_in_statement : DsymbolClass → Option DsymbolClass
unfolding base_in_module
base_in_statement label_dsymbol = some dsymbol
base_in_statement c = base_in_module c

-- The base classes in compiler/include/dmd/template.h.
base_in_template : DsymbolClass → Option DsymbolClass
unfolding base_in_statement
base_in_template template_declaration = some scope_dsymbol
base_in_template template_instance = some scope_dsymbol
base_in_template template_mixin = some template_instance
base_in_template c = base_in_statement c

-- The base classes in compiler/include/dmd/attrib.h.
base_in_attrib : DsymbolClass → Option DsymbolClass
unfolding base_in_template
base_in_attrib attrib_declaration = some dsymbol
base_in_attrib mixin_declaration = some attrib_declaration
base_in_attrib user_attribute_declaration = some attrib_declaration
base_in_attrib link_declaration = some attrib_declaration
base_in_attrib anon_declaration = some attrib_declaration
base_in_attrib align_declaration = some attrib_declaration
base_in_attrib cpp_mangle_declaration = some attrib_declaration
base_in_attrib cpp_namespace_declaration = some attrib_declaration
base_in_attrib visibility_declaration = some attrib_declaration
base_in_attrib pragma_declaration = some attrib_declaration
base_in_attrib storage_class_declaration = some attrib_declaration
base_in_attrib conditional_declaration = some attrib_declaration
base_in_attrib static_foreach_declaration = some attrib_declaration
base_in_attrib unpack_declaration = some attrib_declaration
base_in_attrib deprecated_declaration = some storage_class_declaration
base_in_attrib static_if_declaration = some conditional_declaration
base_in_attrib forwarding_attrib_declaration = some attrib_declaration
base_in_attrib c = base_in_template c

-- The base classes in compiler/include/dmd/aggregate.h.
base_in_aggregate : DsymbolClass → Option DsymbolClass
unfolding base_in_attrib
base_in_aggregate aggregate_declaration = some scope_dsymbol
base_in_aggregate struct_declaration = some aggregate_declaration
base_in_aggregate union_declaration = some struct_declaration
base_in_aggregate class_declaration = some aggregate_declaration
base_in_aggregate interface_declaration = some class_declaration
base_in_aggregate c = base_in_attrib c

-- The base classes in compiler/include/dmd/declaration.h.
base_in_declaration : DsymbolClass → Option DsymbolClass
unfolding base_in_aggregate
base_in_declaration declaration = some dsymbol
base_in_declaration var_declaration = some declaration
base_in_declaration func_declaration = some declaration
base_in_declaration alias_declaration = some declaration
base_in_declaration tuple_declaration = some declaration
base_in_declaration func_literal_declaration = some func_declaration
base_in_declaration post_blit_declaration = some func_declaration
base_in_declaration ctor_declaration = some func_declaration
base_in_declaration dtor_declaration = some func_declaration
base_in_declaration invariant_declaration = some func_declaration
base_in_declaration unit_test_declaration = some func_declaration
base_in_declaration new_declaration = some func_declaration
base_in_declaration static_ctor_declaration = some func_declaration
base_in_declaration static_dtor_declaration = some func_declaration
base_in_declaration shared_static_ctor_declaration = some static_ctor_declaration
base_in_declaration shared_static_dtor_declaration = some static_dtor_declaration
base_in_declaration bit_field_declaration = some var_declaration
base_in_declaration over_declaration = some declaration
base_in_declaration symbol_declaration = some declaration
base_in_declaration this_declaration = some var_declaration
base_in_declaration type_info_declaration = some var_declaration
base_in_declaration type_info_struct_declaration = some type_info_declaration
base_in_declaration type_info_class_declaration = some type_info_declaration
base_in_declaration type_info_interface_declaration = some type_info_declaration
base_in_declaration type_info_pointer_declaration = some type_info_declaration
base_in_declaration type_info_array_declaration = some type_info_declaration
base_in_declaration type_info_static_array_declaration = some type_info_declaration
base_in_declaration type_info_associative_array_declaration = some type_info_declaration
base_in_declaration type_info_enum_declaration = some type_info_declaration
base_in_declaration type_info_function_declaration = some type_info_declaration
base_in_declaration type_info_delegate_declaration = some type_info_declaration
base_in_declaration type_info_tuple_declaration = some type_info_declaration
base_in_declaration type_info_const_declaration = some type_info_declaration
base_in_declaration type_info_invariant_declaration = some type_info_declaration
base_in_declaration type_info_shared_declaration = some type_info_declaration
base_in_declaration type_info_wild_declaration = some type_info_declaration
base_in_declaration type_info_vector_declaration = some type_info_declaration
base_in_declaration func_alias_declaration = some func_declaration
base_in_declaration c = base_in_aggregate c

-- The base class of a class, those of compiler/include/dmd/dsymbol.h first; `none` for a
-- root of the family, and for a class that no header defines.
unfoldable pub base : DsymbolClass → Option DsymbolClass
unfolding base_in_declaration
base scope_dsymbol = some dsymbol
base c_asm_declaration = some dsymbol
base overload_set = some dsymbol
base with_scope_symbol = some scope_dsymbol
base array_scope_symbol = some scope_dsymbol
base c = base_in_declaration c
