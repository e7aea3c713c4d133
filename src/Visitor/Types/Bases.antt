-- ===== src/Visitor/Types/Bases.antt =====
-- The base classes that the headers of compiler/include/dmd declare in the family
-- of Types.
use dmd.Prelude.{Option, none, some}
use dmd.Visitor.Types.{
  TypeClass, type_, type_basic, type_error, type_null, type_noreturn, type_vector, type_enum,
  type_tuple, type_class, type_struct, type_next, type_qualified, type_traits, type_mixin, type_tag,
  type_reference, type_slice, type_delegate, type_pointer, type_function, type_array, type_d_array,
  type_a_array, type_s_array, type_identifier, type_return, type_typeof, type_instance,
}

-- The base class of a class, those of compiler/include/dmd/mtype.h first; `none` for a
-- root of the family, and for a class that no header defines.
unfoldable pub base : TypeClass → Option TypeClass
base type_basic = some type_
base type_error = some type_
base type_null = some type_
base type_noreturn = some type_
base type_vector = some type_
base type_enum = some type_
base type_tuple = some type_
base type_class = some type_
base type_struct = some type_
base type_next = some type_
base type_qualified = some type_
base type_traits = some type_
base type_mixin = some type_
base type_tag = some type_
base type_reference = some type_next
base type_slice = some type_next
base type_delegate = some type_next
base type_pointer = some type_next
base type_function = some type_next
base type_array = some type_next
base type_d_array = some type_array
base type_a_array = some type_array
base type_s_array = some type_array
base type_identifier = some type_qualified
base type_return = some type_qualified
base type_typeof = some type_qualified
base type_instance = some type_qualified
base _ = none
