-- ===== src/Expression/SideEffect.antt =====
-- `hasSideEffect` and `isTrivialExp` of compiler/src/dmd/sideeffect.d. `none` is a null pointer that
-- is read, or a cast to a class that the node is not of.
pub mod Trivial
use dmd.Prelude.{
  ℕ, Bool, true, false, ◌&&◌, ◌||◌, not, ◌==◌, Option, none, some, ◌>>=◌, if◌then◌else◌, List, [],
  ◌∷◌,
}
use dmd.Types.Fields.{FuncDeclaration}
use dmd.Types.Tree.{
  TypeNode, NullableFunction, no_function, the_function, type_noreturn, type_delegate,
  type_function, type_class,
}
use dmd.Types.Base.{to_basetype}
use dmd.Expression.Op
use dmd.Expression.Op.{Exp, same_op}
use dmd.Expression.Casts.{one_of}
use dmd.Expression.Tree.{Expression, Unary, head, call_exp, una_exp, cast_exp, leaf}
use dmd.Expression.ThrowRules.{type_of}
use dmd.Expression.Walk.{Visitor, walk}
use dmd.Expression.Answers.{is_type_noreturn}

-- The operators that are cases of `lambdaHasSideEffect` with `return true`.
abbrev pub effect_ops : List Exp
effect_ops =
    Op.assign ∷ Op.plus_plus ∷ Op.minus_minus ∷ Op.declaration ∷ Op.construct ∷ Op.blit
    ∷ Op.add_assign ∷ Op.min_assign ∷ Op.concatenate_assign ∷ Op.concatenate_elem_assign
    ∷ Op.concatenate_dchar_assign ∷ Op.mul_assign ∷ Op.div_assign ∷ Op.mod_assign
    ∷ Op.left_shift_assign ∷ Op.right_shift_assign ∷ Op.unsigned_right_shift_assign ∷ Op.and_assign
    ∷ Op.or_assign ∷ Op.xor_assign ∷ Op.pow_assign ∷ Op.in_ ∷ Op.remove ∷ Op.assert_ ∷ Op.halt
    ∷ Op.throw_ ∷ Op.delete_ ∷ Op.new_ ∷ Op.new_anonymous_class ∷ Op.lowered_assign_exp ∷ []

abbrev pub is_class_type : TypeNode → Bool
is_class_type (type_class _ _) = true
is_class_type _ = false

-- `t.ty == Tfunction`, of the type that a delegate is of.
unfoldable pub is_callable : TypeNode → Bool
is_callable (type_function _ _) = true
is_callable (type_delegate (type_function _ _)) = true
is_callable _ = false

-- `level_of` is `callSideEffectLevel(Type)`.
module _ (level_of : TypeNode → ℕ) where
  -- The side-effect level of a call is 0.
  unfoldable pub call_has_effect : NullableFunction → TypeNode → Bool
  unfolding is_callable
  call_has_effect f t =
      not (is_callable (to_basetype t))
      || elim f [ no_function ↦ level_of t == 0 | the_function g _ ↦ g.side_effect_level == 0 ]

  unfoldable pub call_effect : Bool → Expression → Option Bool
  unfolding call_has_effect is_type_noreturn
  call_effect assume_impure (call_exp h _ f e1 _) = some (
      assume_impure
      || (elim (type_of h.type_) [ none ↦ false | some t ↦ is_type_noreturn t ]
          || elim (type_of (head e1).type_) [ none ↦ false | some t ↦ call_has_effect f t ]))
  call_effect assume_impure (leaf _ _) = none
  call_effect assume_impure _ = none

  unfoldable pub cast_effect : Expression → Option Bool
  cast_effect (una_exp h (cast_exp _ to) e1) =
      if is_class_type to && same_op (head e1).op Op.call
      then (do t ← type_of (head e1).type_; some (is_class_type t))
      else some false
  cast_effect (leaf _ _) = none
  cast_effect _ = none

  -- `lambdaHasSideEffect`
  unfoldable pub lambda_has_side_effect : Bool → Expression → Option Bool
  unfolding one_of
  lambda_has_side_effect assume_impure e =
      if one_of (head e).op effect_ops
      then some true
      else if same_op (head e).op Op.call
      then call_effect assume_impure e
      else if same_op (head e).op Op.cast_
      then cast_effect e
      else some false

-- A visitor that stops by the answer of a test; its state tells that the test failed.
unfoldable pub stopper : (Expression → Option Bool) → Visitor Bool
stopper t e failed = elim (t e) [ none ↦ (true, true) | some b ↦ (failed, b) ]

abbrev pub verdict : Bool × Bool → Option Bool
verdict (true, _) = none
verdict (false, stop) = some stop

-- `walkPostorder(e, v)` with such a visitor.
unfoldable pub asked : (Expression → Option Bool) → Expression → Option Bool
asked t e = verdict (walk (stopper t) e false)

-- `hasSideEffect`
unfoldable pub has_side_effect : (TypeNode → ℕ) → Bool → Expression → Option Bool
has_side_effect level_of assume_impure e = asked (lambda_has_side_effect level_of assume_impure) e

-- `visit` of `IsTrivialExp`
unfoldable pub stops_trivial : (TypeNode → ℕ) → Expression → Option Bool
stops_trivial level_of e =
    if same_op (head e).op Op.call then some true else lambda_has_side_effect level_of false e

-- `isTrivialExp`
unfoldable pub is_trivial_exp : (TypeNode → ℕ) → Expression → Option Bool
is_trivial_exp level_of e = do stop ← asked (stops_trivial level_of) e; some (not stop)
