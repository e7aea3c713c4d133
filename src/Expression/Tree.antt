-- ===== src/Expression/Tree.antt =====
-- The expressions of compiler/include/dmd/expression.h, as the tree that they make: a constructor
-- for each class whose parts differ, and for the others a constructor of `Leaf`, `Unary` or
-- `Binary`. A null pointer to an expression is `null`.
use dmd.Prelude.{ℕ}
use dmd.Types.Tree.{TypeNode, NullableType, NullableFunction}
use dmd.Expression.Op.{Exp}
use dmd.Expression.Fields.{
  Ptr, Loc, IntegerExp, RealExp, ComplexExp, IdentifierExp, DsymbolExp, ThisExp, StringExp,
  InterpExp, ArrayLiteralExp, AssocArrayLiteralExp, StructLiteralExp, ScopeExp, TemplateExp, NewExp,
  NewAnonClassExp, SymbolExp, SymOffExp, VarExp, OverExp, FuncExp, TraitsExp, IsExp, AssertExp,
  DotIdExp, DotTemplateExp, DotVarExp, DotTemplateInstanceExp, DelegateExp, DotTypeExp, CallExp,
  NotExp, CastExp, VectorExp, SliceExp, IntervalExp, ArrayExp, CommaExp, IndexExp, AssignExp,
  ConstructExp, LoweredAssignExp, GenericExp, DefaultInitExp, ObjcClassReferenceExp, VarDeclaration,
}

-- The members of `Expression`.
pub record Head : Type 0 where
  pub type_ : NullableType
  pub loc : Loc
  pub op : Exp
  pub bit_fields : ℕ

-- The classes with no expression in them.
pub data Leaf : Type 0 where
  integer_exp : IntegerExp → Leaf
  error_exp : Leaf
  real_exp : RealExp → Leaf
  complex_exp : ComplexExp → Leaf
  identifier_exp : IdentifierExp → Leaf
  dollar_exp : IdentifierExp → Leaf
  dsymbol_exp : DsymbolExp → Leaf
  this_exp : ThisExp → Leaf
  super_exp : ThisExp → Leaf
  null_exp : Leaf
  string_exp : StringExp → Leaf
  interp_exp : InterpExp → Leaf
  type_exp : Leaf
  scope_exp : ScopeExp → Leaf
  template_exp : TemplateExp → Leaf
  sym_off_exp : SymbolExp → SymOffExp → Leaf
  var_exp : SymbolExp → VarExp → Leaf
  over_exp : OverExp → Leaf
  func_exp : FuncExp → Leaf
  traits_exp : TraitsExp → Leaf
  halt_exp : Leaf
  is_exp : IsExp → Leaf
  mixin_exp : (exps : Ptr) → Leaf
  interval_exp : IntervalExp → Leaf
  generic_exp : GenericExp → Leaf
  default_init_exp : DefaultInitExp → Leaf
  objc_class_reference_exp : ObjcClassReferenceExp → Leaf

-- The classes derived from `UnaExp` whose only expression is `e1`.
pub data Unary : Type 0 where
  import_exp throw_exp addr_exp ptr_exp neg_exp u_add_exp com_exp delete_exp vector_array_exp
        array_length_exp delegate_ptr_exp delegate_funcptr_exp pre_exp :
      Unary
  dot_id_exp : DotIdExp → Unary
  dot_template_exp : DotTemplateExp → Unary
  dot_var_exp : DotVarExp → Unary
  dot_template_instance_exp : DotTemplateInstanceExp → Unary
  delegate_exp : DelegateExp → Unary
  dot_type_exp : DotTypeExp → Unary
  not_exp : NotExp → Unary
  cast_exp : CastExp → (to : TypeNode) → Unary
  vector_exp : VectorExp → Unary

-- The classes derived from `BinExp` whose only expressions are `e1` and `e2`.
pub data Binary : Type 0 where
  dot_exp post_exp add_assign_exp min_assign_exp mul_assign_exp div_assign_exp mod_assign_exp
        and_assign_exp or_assign_exp xor_assign_exp pow_assign_exp shl_assign_exp shr_assign_exp
        ushr_assign_exp add_exp min_exp mul_exp div_exp mod_exp pow_exp shl_exp shr_exp ushr_exp
        and_exp or_exp xor_exp logical_exp cmp_exp in_exp remove_exp identity_exp :
      Binary
  comma_exp : CommaExp → Binary
  index_exp : IndexExp → Binary
  assign_exp : AssignExp → Binary
  construct_exp : AssignExp → ConstructExp → Binary
  lowered_assign_exp : AssignExp → LoweredAssignExp → Binary
  blit_exp : AssignExp → Binary

-- `CatAssignExp` and the classes derived from it.
pub data CatAssign : Type 0 where
  cat_assign cat_elem_assign cat_dchar_assign : CatAssign

mutual
  pub data Expression : Type 0 where
    leaf : Head → Leaf → Expression
    una_exp : Head → Unary → (e1 : Expression) → Expression
    bin_exp : Head → Binary → (e1 e2 : Expression) → Expression
    cat_exp : Head → (lowering : Nullable) → (e1 e2 : Expression) → Expression
    cat_assign_exp : Head → CatAssign → (lowering : Nullable) → (e1 e2 : Expression) → Expression
    equal_exp : Head → (lowering : Nullable) → (e1 e2 : Expression) → Expression
    assert_exp : Head → AssertExp → (e1 : Expression) → (msg : Nullable) → Expression
    call_exp :
        Head
        → CallExp
        → (f : NullableFunction) → (e1 : Expression) → (arguments : Expressions) → Expression
    array_exp : Head → ArrayExp → (e1 : Expression) → (arguments : Expressions) → Expression
    slice_exp : Head → SliceExp → (e1 : Expression) → (upr lwr : Nullable) → Expression
    array_literal_exp :
        Head → ArrayLiteralExp → (basis : Nullable) → (elements : Expressions) → Expression
    assoc_array_literal_exp : Head → AssocArrayLiteralExp → (keys values : Expressions) → Expression
    struct_literal_exp : Head → StructLiteralExp → (elements : Expressions) → Expression
    tuple_exp : Head → (e0 : Nullable) → (exps : Expressions) → Expression
    new_exp :
        Head
        → NewExp
        → (member : NullableFunction) → (thisexp placement : Nullable) → (arguments : Expressions)
        → Expression
    new_anon_class_exp :
        Head
        → NewAnonClassExp
        → (thisexp placement : Nullable) → (arguments : Expressions) → Expression
    -- `obj`, if it is an expression
    typeid_exp : Head → (obj : Nullable) → Expression
    cond_exp : Head → (econd e1 e2 : Expression) → Expression
    declaration_exp : Head → (declaration : Dsymbol) → Expression

  -- A pointer to an expression.
  pub data Nullable : Type 0 where
    null : Nullable
    node : Expression → Nullable

  -- `Expressions`, an array of pointers; a null pointer to an array is an empty one.
  pub data Expressions : Type 0 where
    nil : Expressions
    cons : Nullable → Expressions → Expressions

  -- A symbol that an expression declares.
  pub data Dsymbol : Type 0 where
    -- with the expression of an `ExpInitializer`, and the destructor call
    var_declaration : VarDeclaration → (init edtor : Nullable) → Dsymbol
    -- a variable whose `toAlias()` is another symbol
    aliased_var_declaration : VarDeclaration → (alias_sym : Dsymbol) → Dsymbol
    -- with the members that `include` gives
    attrib_declaration : Dsymbols → Dsymbol
    template_mixin : Dsymbols → Dsymbol
    -- with the variables in it
    tuple_declaration : Dsymbols → Dsymbol
    other_symbol : Ptr → Dsymbol

  pub data Dsymbols : Type 0 where
    no_symbols : Dsymbols
    symbol_cons : Dsymbol → Dsymbols → Dsymbols

-- `op`, `type` and the other members of `Expression`.
unfoldable pub head : Expression → Head
head (leaf h _) = h
head (una_exp h _ _) = h
head (bin_exp h _ _ _) = h
head (cat_exp h _ _ _) = h
head (cat_assign_exp h _ _ _ _) = h
head (equal_exp h _ _ _) = h
head (assert_exp h _ _ _) = h
head (call_exp h _ _ _ _) = h
head (array_exp h _ _ _) = h
head (slice_exp h _ _ _ _) = h
head (array_literal_exp h _ _ _) = h
head (assoc_array_literal_exp h _ _ _) = h
head (struct_literal_exp h _ _) = h
head (tuple_exp h _ _) = h
head (new_exp h _ _ _ _ _) = h
head (new_anon_class_exp h _ _ _ _) = h
head (typeid_exp h _) = h
head (cond_exp h _ _ _) = h
head (declaration_exp h _) = h
