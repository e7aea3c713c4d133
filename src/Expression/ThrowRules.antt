-- ===== src/Expression/ThrowRules.antt =====
-- What the visitor of `canThrow` (compiler/src/dmd/canthrow.d) finds at one expression, with the
-- `checkThrow` of compiler/src/dmd/blockexit.d, where no messages are wanted. `none` is a failed
-- assertion or a null pointer that is read.
use dmd.Prelude.{Bool, true, false, ◌&&◌, ◌||◌, not, Option, none, some, ◌>>=◌, if◌then◌else◌, ◌==◌}
use dmd.Types.Fields.{FuncDeclaration, TypeFunction}
use dmd.Types.Tree.{
  TypeNode, NullableType, NullableFunction, no_type, the_type, struct_declaration,
  class_declaration, no_function, the_function,
}
use dmd.Types.Base.{
  to_basetype, next_of, base_elem_of, is_type_function, is_type_struct, is_class_handle, is_sarray,
  function_type_of,
}
use dmd.Types.Flags.{is_nothrow, get_flag}
use dmd.Expression.Op.{same_op, blit}
use dmd.Expression.Fields.{Ptr}
use dmd.Expression.Tree.{
  Head, Expression, Nullable, Expressions, null, node, nil, cons, una_exp, bin_exp, call_exp,
  slice_exp, new_exp, new_anon_class_exp, head, Unary, throw_exp, delete_exp, Binary, assign_exp,
  construct_exp, lowered_assign_exp, blit_exp,
}

-- `CT`, the flags of what may be thrown.
pub record Ct : Type 0 where
  pub exception : Bool
  pub error : Bool

abbrev pub no_throw : Ct
no_throw = record { exception = false; error = false }

abbrev pub an_exception : Ct
an_exception = record { exception = true; error = false }

abbrev pub an_error : Ct
an_error = record { exception = false; error = true }

-- `result |= c`
infixl 30 ◌∪◌
unfoldable pub ◌∪◌ : Option Ct → Option Ct → Option Ct
none ∪ d = none
some c ∪ none = none
some c ∪ some d =
    some (record { exception = c.exception || d.exception; error = c.error || d.error })

-- What `canThrow` reads beside the expression.
pub record Context : Type 0 where
  -- the function that the expression stands in
  pub func : Option Ptr
  -- `global.errors`
  pub errors : Bool
  -- `isLvalue()`
  pub is_lvalue : Expression → Bool

abbrev pub type_of : NullableType → Option TypeNode
type_of no_type = none
type_of (the_type t) = some t

-- `(*ce.arguments)[0]`, where there is a first argument.
abbrev pub first_argument : Expressions → Option Nullable
first_argument nil = none
first_argument (cons e es) = some e

-- `checkFuncThrows`
unfoldable pub check_func_throws : FuncDeclaration → TypeNode → Ct
check_func_throws f t = elim (is_type_function (to_basetype t)) [
  | none ↦ no_throw
  | some tf ↦ if get_flag is_nothrow tf.bit_fields then no_throw else an_exception
]

abbrev pub check_function : NullableFunction → Ct
check_function no_function = no_throw
check_function (the_function f t) = check_func_throws f t

-- The type of a node is read, and must not be null.
abbrev pub node_type : Nullable → Option TypeNode
node_type null = none
node_type (node e) = type_of (head e).type_

-- The postblit of a struct that the elements of a type are.
abbrev pub postblit_of : TypeNode → NullableFunction
postblit_of t = elim (is_type_struct (base_elem_of t)) [
  | none ↦ no_function
  | some (struct_declaration _ p) ↦ p
]

abbrev pub postblit_behind : NullableType → NullableFunction
postblit_behind no_type = no_function
postblit_behind (the_type t) = postblit_of t

-- The postblit that a call of an array construction hook runs: that of the elements of its first
-- argument.
unfoldable pub hook_postblit : FuncDeclaration → Expressions → Option NullableFunction
hook_postblit f args = elim (first_argument args) [
  | none ↦ some no_function
  | some a ↦ do
    t ← node_type a
    some
        (if f.is_array_construction then postblit_behind (next_of (to_basetype t)) else no_function)
]

-- `calledFunctionType`
abbrev pub called_function_type : Expression → Option TypeFunction
called_function_type e1 = elim (type_of (head e1).type_) [
  | none ↦ none
  | some t ↦ function_type_of (to_basetype t)
]

abbrev pub called_nothrow : Expression → Bool
called_nothrow e1 = elim (called_function_type e1) [
  | none ↦ false
  | some tf ↦ get_flag is_nothrow tf.bit_fields
]

abbrev pub has_type : Expression → Bool
has_type e = elim (type_of (head e).type_) [ none ↦ false | some _ ↦ true ]

abbrev pub is_function : FuncDeclaration → Option Ptr → Bool
is_function f none = false
is_function f (some g) = f.address == g

-- `visit(CallExp)` from the test of the called function on.
unfoldable pub visit_call : Context → NullableFunction → Expression → Expressions → Option Ct
visit_call c no_function e1 args = some (if called_nothrow e1 then no_throw else an_exception)
visit_call c (the_function f t) e1 args = do
  p ← hook_postblit f args
  elim p [
    | the_function g u ↦ some (check_func_throws g u)
    | no_function ↦
        if is_function f c.func || called_nothrow e1
        then some no_throw
        else some (check_func_throws f t) ∪ some an_exception
  ]

-- `visit(DeleteExp)`
unfoldable pub visit_delete : Expression → Option Ct
visit_delete e1 = do
  t ← type_of (head e1).type_
  d ← is_class_handle (to_basetype t)
  elim d [ class_declaration _ _ dtor ↦ some (check_function dtor) ]

-- The `e1` of a `SliceExp`.
abbrev pub sliced : Expression → Option Expression
sliced (slice_exp _ _ a _ _) = some a
sliced _ = none

-- `visit(AssignExp)`
unfoldable pub visit_assign : Context → Head → Expression → Expression → Option Ct
visit_assign c h e1 e2 =
    if same_op h.op blit
    then some no_throw
    else (type_of h.type_ >>= λ t.
        if is_sarray (to_basetype t)
        then some (if c.is_lvalue e2 then check_function (postblit_of t) else no_throw)
        else elim (sliced e1) [
          | none ↦ some no_throw
          | some a ↦ do u ← type_of (head a).type_; some (check_function (postblit_of u))
        ])

-- `checkThrow`, as flags of `CT`.
unfoldable pub check_throw : Expression → Option Ct
check_throw e1 = do
  t ← type_of (head e1).type_
  d ← is_class_handle (to_basetype t)
  elim d [ class_declaration _ is_error _ ↦ some (if is_error then an_error else an_exception) ]

unfoldable pub visit_una : Unary → Expression → Option Ct
visit_una delete_exp a = visit_delete a
visit_una throw_exp a = check_throw a
visit_una _ a = some no_throw

unfoldable pub visit_bin : Context → Head → Binary → Expression → Expression → Option Ct
visit_bin c h (assign_exp _) a b = visit_assign c h a b
visit_bin c h (construct_exp _ _) a b = visit_assign c h a b
visit_bin c h (lowered_assign_exp _ _) a b = visit_assign c h a b
visit_bin c h (blit_exp _) a b = visit_assign c h a b
visit_bin c h _ a b = some no_throw

-- What the visitor `CanThrow` adds at an expression that declares nothing.
unfoldable pub visit_node : Context → Expression → Option Ct
visit_node c (una_exp h f a) = visit_una f a
visit_node c (bin_exp h f a b) = visit_bin c h f a b
visit_node c (call_exp h f g e1 args) =
    if f.in_debug_statement || (c.errors && not (has_type e1))
    then some no_throw
    else visit_call c g e1 args
visit_node c (new_exp h f m t p args) = some (check_function m)
visit_node c (new_anon_class_exp h f t p args) = none
visit_node c e = some no_throw
