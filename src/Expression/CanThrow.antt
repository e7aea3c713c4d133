-- ===== src/Expression/CanThrow.antt =====
-- `canThrow` of compiler/src/dmd/canthrow.d, where no messages are wanted: what ThrowRules finds at the
-- expressions of the walk.
pub mod Visited
pub mod Raises
use dmd.Prelude.{
  ℕ, Bool, true, false, ◌&&◌, ◌||◌, not, Option, none, some, ◌>>=◌, if◌then◌else◌, ◌==◌,
}
use dmd.Types.Fields.{FuncDeclaration, TypeFunction}
use dmd.Types.Tree.{
  TypeNode, NullableType, NullableFunction, StructDeclaration, ClassDeclaration, no_type, the_type,
  struct_declaration, class_declaration, no_function, the_function,
}
use dmd.Types.Base.{
  to_basetype, next_of, base_elem_of, is_type_function, is_type_struct, is_class_handle, is_sarray,
  function_type_of,
}
use dmd.Types.Flags.{is_nothrow, get_flag}
use dmd.Expression.Op.{same_op, blit}
use dmd.Expression.Fields.{Ptr, VarDeclaration, CallExp}
use dmd.Expression.Tree.{
  Head, Expression, Nullable, Expressions, Dsymbol, Dsymbols, null, node, nil, cons, leaf, una_exp,
  bin_exp, cat_exp, cat_assign_exp, equal_exp, assert_exp, call_exp, array_exp, slice_exp,
  array_literal_exp, assoc_array_literal_exp, struct_literal_exp, tuple_exp, new_exp,
  new_anon_class_exp, typeid_exp, cond_exp, declaration_exp, var_declaration,
  aliased_var_declaration, attrib_declaration, template_mixin, tuple_declaration, other_symbol,
  no_symbols, symbol_cons, head, Unary, throw_exp, delete_exp, Binary, assign_exp, construct_exp,
  lowered_assign_exp, blit_exp,
}
use dmd.Expression.ThrowRules.{Ct, no_throw, ◌∪◌, Context, visit_node}

-- `canThrow`: what the walk finds below an expression, and at it. See Visited for the walk.
unfoldable mutual
  pub can_throw : Context → Expression → Option Ct
  can_throw c (leaf h f) = visit_node c (leaf h f)
  can_throw c (una_exp h f a) = can_throw c a ∪ visit_node c (una_exp h f a)
  can_throw c (bin_exp h f a b) = can_throw c a ∪ can_throw c b ∪ visit_node c (bin_exp h f a b)
  can_throw c (cat_exp h null a b) = can_throw c a ∪ can_throw c b
  can_throw c (cat_exp h (node l) a b) = can_throw c l
  can_throw c (cat_assign_exp h f null a b) = can_throw c a ∪ can_throw c b
  can_throw c (cat_assign_exp h f (node l) a b) = can_throw c l
  can_throw c (equal_exp h null a b) = can_throw c a ∪ can_throw c b
  can_throw c (equal_exp h (node l) a b) = can_throw c l
  can_throw c (assert_exp h f a m) = can_throw c a ∪ can_throw_pointer c m
  can_throw c (call_exp h f g a args) =
      can_throw c a ∪ can_throw_all c args ∪ visit_node c (call_exp h f g a args)
  can_throw c (array_exp h f a args) = can_throw c a ∪ can_throw_all c args
  can_throw c (slice_exp h f a u l) = can_throw c a ∪ can_throw_pointer c l ∪ can_throw_pointer c u
  can_throw c (array_literal_exp h f b es) = can_throw_pointer c b ∪ can_throw_all c es
  can_throw c (assoc_array_literal_exp h f ks vs) = can_throw_all c ks ∪ can_throw_all c vs
  can_throw c (struct_literal_exp h f es) = elim f.applying [
    | true ↦ some no_throw
    | false ↦ can_throw_all c es
  ]
  can_throw c (tuple_exp h e0 es) = can_throw_pointer c e0 ∪ can_throw_all c es
  can_throw c (new_exp h f m t p args) =
      can_throw_pointer c p
      ∪ can_throw_pointer c t
      ∪ can_throw_all c args
      ∪ visit_node c (new_exp h f m t p args)
  can_throw c (new_anon_class_exp h f t p args) =
      can_throw_pointer c p
      ∪ can_throw_pointer c t
      ∪ can_throw_all c args
      ∪ visit_node c (new_anon_class_exp h f t p args)
  can_throw c (typeid_exp h o) = can_throw_pointer c o
  can_throw c (cond_exp h e a b) = can_throw c e ∪ can_throw c a ∪ can_throw c b
  can_throw c (declaration_exp h d) = dsymbol_can_throw c d

  pub can_throw_pointer : Context → Nullable → Option Ct
  can_throw_pointer c null = some no_throw
  can_throw_pointer c (node e) = can_throw c e

  pub can_throw_all : Context → Expressions → Option Ct
  can_throw_all c nil = some no_throw
  can_throw_all c (cons e es) = can_throw_pointer c e ∪ can_throw_all c es

  -- `Dsymbol_canThrow`
  pub dsymbol_can_throw : Context → Dsymbol → Option Ct
  dsymbol_can_throw c (var_declaration v i d) =
      let init = can_throw_pointer c i in
      let dtor = can_throw_pointer c d in
      if v.is_manifest || v.is_global
      then some no_throw
      else if v.is_nodtor
      then init
      else init ∪ dtor
  dsymbol_can_throw c (aliased_var_declaration v s) = dsymbol_can_throw c s
  dsymbol_can_throw c (attrib_declaration ds) = dsymbols_can_throw c ds
  dsymbol_can_throw c (template_mixin ds) = dsymbols_can_throw c ds
  dsymbol_can_throw c (tuple_declaration ds) = dsymbols_can_throw c ds
  dsymbol_can_throw c (other_symbol _) = some no_throw

  pub dsymbols_can_throw : Context → Dsymbols → Option Ct
  dsymbols_can_throw c no_symbols = some no_throw
  dsymbols_can_throw c (symbol_cons d ds) = dsymbol_can_throw c d ∪ dsymbols_can_throw c ds
