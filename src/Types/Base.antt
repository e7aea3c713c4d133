-- ===== src/Types/Base.antt =====
-- `toBasetype`, `nextOf`, `baseElemOf` (compiler/include/dmd/mtype.h, compiler/src/dmd/typesem.d)
-- and `getMemtype` (compiler/src/dmd/enumsem.d) of types whose semantic analysis is done.
pub mod Elements
use dmd.Prelude.{Bool, true, false, ◌&&◌, ◌||◌, not, Option, none, some, ◌>>=◌, if◌then◌else◌}
use dmd.Types.Ty.{tint32}
use dmd.Types.Fields.{TypeBasic, EnumSymbol, TypeSArray, TypeFunction}
use dmd.Types.Tree.{
  TypeNode, NullableType, EnumDeclaration, StructDeclaration, ClassDeclaration, no_type, the_type,
  enum_declaration, type_error, type_basic, type_vector, type_sarray, type_darray, type_aarray,
  type_pointer, type_reference, type_function, type_delegate, type_enum, type_struct, type_class,
  type_slice,
}

-- `Type.tint32`
abbrev pub int32 : TypeNode
int32 = type_basic tint32 (record { dstring = 0; flags = 1 })

-- `getMemtype` of an enumeration with no base type; `Type.terror` comes with a message.
unfoldable pub default_memtype : EnumSymbol → TypeNode
default_memtype e =
    if not e.is_anonymous && (e.has_members || e.semantic_done) then int32 else type_error

unfoldable mutual
  unfolding default_memtype

  -- `toBasetype`; an enumeration with neither members nor a base type is its own.
  pub to_basetype : TypeNode → TypeNode
  to_basetype (type_enum e) = to_basetype2 e
  to_basetype t = t

  -- `toBasetype2`
  pub to_basetype2 : EnumDeclaration → TypeNode
  to_basetype2 (enum_declaration e no_type) =
      if e.has_members then default_memtype e else type_enum (enum_declaration e no_type)
  to_basetype2 (enum_declaration e (the_type t)) = to_basetype t

-- `isTypeNext`, and its `next`.
unfoldable mutual
  unfolding default_memtype

  -- `nextOf`
  pub next_of : TypeNode → NullableType
  next_of (type_sarray n _) = the_type n
  next_of (type_darray n) = the_type n
  next_of (type_aarray n _ _) = the_type n
  next_of (type_pointer n) = the_type n
  next_of (type_reference n) = the_type n
  next_of (type_function n _) = n
  next_of (type_delegate n) = the_type n
  next_of (type_slice n _) = the_type n
  next_of (type_enum e) = next_of_memtype e
  next_of _ = no_type

  -- `te.memType().nextOf()`; a default base type has no next type.
  pub next_of_memtype : EnumDeclaration → NullableType
  next_of_memtype (enum_declaration e no_type) = no_type
  next_of_memtype (enum_declaration e (the_type t)) = next_of t

-- `baseElemOf`, its loop as a recursion into the element type.
unfoldable mutual
  unfolding default_memtype

  pub base_elem_of : TypeNode → TypeNode
  base_elem_of (type_sarray n _) = base_elem_of n
  base_elem_of (type_enum e) = base_elem_of_enum e
  base_elem_of t = t

  pub base_elem_of_enum : EnumDeclaration → TypeNode
  base_elem_of_enum (enum_declaration e no_type) =
      if e.has_members then default_memtype e else type_enum (enum_declaration e no_type)
  base_elem_of_enum (enum_declaration e (the_type t)) = base_elem_of t

-- `isTypeFunction`
unfoldable pub is_type_function : TypeNode → Option TypeFunction
is_type_function (type_function _ f) = some f
is_type_function _ = none

-- `isTypeStruct`, and its symbol.
unfoldable pub is_type_struct : TypeNode → Option StructDeclaration
is_type_struct (type_struct s _) = some s
is_type_struct _ = none

-- `isClassHandle`
unfoldable pub is_class_handle : TypeNode → Option ClassDeclaration
is_class_handle (type_class c _) = some c
is_class_handle _ = none

-- `t.toBasetype().ty == Tsarray`
unfoldable pub is_sarray : TypeNode → Bool
is_sarray (type_sarray _ _) = true
is_sarray _ = false

unfoldable pub is_function_type : NullableType → Option TypeFunction
unfolding is_type_function
is_function_type no_type = none
is_function_type (the_type t) = is_type_function t

-- The function type of a function or a delegate, as `calledFunctionType` finds it; `none` also
-- where it is null.
unfoldable pub function_type_of : TypeNode → Option TypeFunction
unfolding is_function_type
function_type_of (type_function _ f) = some f
function_type_of (type_delegate n) = is_function_type (the_type n)
function_type_of _ = none
