-- ===== src/Types/Tree.antt =====
-- The types of compiler/include/dmd/mtype.h, as the tree that they make: a constructor for each
-- class, with its members and the types and declarations in it. The modifiers of a type are left
-- out: see Modifiers.
use dmd.Prelude.{Bool}
use dmd.Types.Ty.{
  Ty, terror, tvector, tsarray, tarray, taarray, tpointer, treference, tfunction, tdelegate,
  ttraits, tmixin, tident, tinstance, ttypeof, treturn, tstruct, tenum, tclass, ttuple, tslice,
  tnull, tnoreturn,
}
use dmd.Types.Fields.{
  TypeBasic, TypeSArray, TypeAArray, TypeFunction, TypeTraits, TypeMixin, TypeQualified,
  TypeIdentifier, TypeInstance, TypeTypeof, TypeStruct, TypeClass, TypeTuple, TypeSlice,
  FuncDeclaration, EnumSymbol, Ptr,
}

mutual
  pub data TypeNode : Type 0 where
    type_error : TypeNode
    type_basic : Ty → TypeBasic → TypeNode
    type_vector : (basetype : TypeNode) → TypeNode
    type_sarray : (next : TypeNode) → TypeSArray → TypeNode
    type_darray : (next : TypeNode) → TypeNode
    type_aarray : (next index : TypeNode) → TypeAArray → TypeNode
    type_pointer : (next : TypeNode) → TypeNode
    type_reference : (next : TypeNode) → TypeNode
    type_function : (next : NullableType) → TypeFunction → TypeNode
    type_delegate : (next : TypeNode) → TypeNode
    type_traits : TypeTraits → TypeNode
    type_mixin : TypeMixin → TypeNode
    type_identifier : TypeQualified → TypeIdentifier → TypeNode
    type_instance : TypeQualified → TypeInstance → TypeNode
    type_typeof : TypeQualified → TypeTypeof → TypeNode
    type_return : TypeQualified → TypeNode
    type_struct : StructDeclaration → TypeStruct → TypeNode
    type_enum : EnumDeclaration → TypeNode
    type_class : ClassDeclaration → TypeClass → TypeNode
    type_tuple : TypeTuple → TypeNode
    type_slice : (next : TypeNode) → TypeSlice → TypeNode
    type_null : TypeNode
    type_noreturn : TypeNode

  -- A pointer to a type.
  pub data NullableType : Type 0 where
    no_type : NullableType
    the_type : TypeNode → NullableType

  -- A struct, with its postblit.
  pub data StructDeclaration : Type 0 where
    struct_declaration : Ptr → (postblit : NullableFunction) → StructDeclaration

  -- A class, with the test of whether it is derived from `Error`, and its destructor.
  pub data ClassDeclaration : Type 0 where
    class_declaration :
        Ptr → (is_error_exception : Bool) → (dtor : NullableFunction) → ClassDeclaration

  -- An enumeration, with its base type.
  pub data EnumDeclaration : Type 0 where
    enum_declaration : EnumSymbol → (memtype : NullableType) → EnumDeclaration

  -- A pointer to a function declaration, with its type.
  pub data NullableFunction : Type 0 where
    no_function : NullableFunction
    the_function : FuncDeclaration → TypeNode → NullableFunction

-- `ty`, as the constructors of the classes set it.
unfoldable pub ty : TypeNode → Ty
ty type_error = terror
ty (type_basic t _) = t
ty (type_vector _) = tvector
ty (type_sarray _ _) = tsarray
ty (type_darray _) = tarray
ty (type_aarray _ _ _) = taarray
ty (type_pointer _) = tpointer
ty (type_reference _) = treference
ty (type_function _ _) = tfunction
ty (type_delegate _) = tdelegate
ty (type_traits _) = ttraits
ty (type_mixin _) = tmixin
ty (type_identifier _ _) = tident
ty (type_instance _ _) = tinstance
ty (type_typeof _ _) = ttypeof
ty (type_return _) = treturn
ty (type_struct _ _) = tstruct
ty (type_enum _) = tenum
ty (type_class _ _) = tclass
ty (type_tuple _) = ttuple
ty (type_slice _ _) = tslice
ty type_null = tnull
ty type_noreturn = tnoreturn
