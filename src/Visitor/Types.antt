-- ===== src/Visitor/Types.antt =====
-- The classes derived from `Type`, and the class that each forwards
-- an unhandled `visit` to in compiler/include/dmd/visitor.h.
pub mod Bases
use dmd.Prelude.{Option, none, some}

pub data TypeClass : Type 0 where
  type_ type_basic type_error type_null type_noreturn type_vector type_enum type_tuple type_class
        type_struct type_next type_qualified type_traits type_mixin type_tag type_reference
        type_slice type_delegate type_pointer type_function type_array type_d_array type_a_array
        type_s_array type_identifier type_return type_typeof type_instance :
      TypeClass

-- `visit(C *)` of a visitor that does not override it calls `visit` at this class; `none` is the
-- assertion of a root's overload.
unfoldable pub forward : TypeClass → Option TypeClass
forward type_basic = some type_
forward type_error = some type_
forward type_null = some type_
forward type_noreturn = some type_
forward type_vector = some type_
forward type_enum = some type_
forward type_tuple = some type_
forward type_class = some type_
forward type_struct = some type_
forward type_next = some type_
forward type_qualified = some type_
forward type_traits = some type_
forward type_mixin = some type_
forward type_tag = some type_
forward type_reference = some type_next
forward type_slice = some type_next
forward type_delegate = some type_next
forward type_pointer = some type_next
forward type_function = some type_next
forward type_array = some type_next
forward type_d_array = some type_array
forward type_a_array = some type_array
forward type_s_array = some type_array
forward type_identifier = some type_qualified
forward type_return = some type_qualified
forward type_typeof = some type_qualified
forward type_instance = some type_qualified
forward _ = none
