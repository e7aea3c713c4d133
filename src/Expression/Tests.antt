-- ===== src/Expression/Tests.antt =====
-- Examples of what is asked of expressions (compiler/include/dmd/expression.h).
use dmd.Prelude.{ℕ, Bool, true, false, Option, none, some, [], ◌∷◌, ◌++◌, ◌≡◌, ◌≢◌, ◌↔◌, ◌⊎◌, refl}
use dmd.Types.Tree.{TypeNode, the_type, the_function, type_function}
use dmd.Types.Fields.{VarArg, Trust, Pure}
use dmd.Types.Base.{function_type_of, is_class_handle, int32, to_basetype}
use dmd.Types.Flags.{get_flag, get, shift}
use dmd.Expression.Op
use dmd.Expression.Op.{Exp, same_op, value}
use dmd.Expression.Tree.{
  Head, Expression, leaf, integer_exp, bin_exp, call_exp, node, nil, cons, add_exp, head, null_exp,
}
use dmd.Expression.NodeClass.{class_of, binary_class}
use dmd.Expression.Walk.{walk, ◌⊳◌}
use dmd.Expression.Walk.Order.{postorder, run, walk-eq-run}
use dmd.Expression.Walk.Dispatch.{Overload, overrides, visited_by, seen, postorder-accept}
use dmd.Expression.ThrowRules.{
  ◌∪◌, visit_node, visit_call, hook_postblit, visit_bin, check_func_throws, Context, no_throw,
  an_exception,
}
use dmd.Expression.CanThrow.{can_throw}
use dmd.Expression.CanThrow.Visited.{collect, can_throw-eq-walk}
use dmd.Expression.CanThrow.Raises.{exception_kind, has, Raises, can_throw-iff-Raises}
use dmd.Expression.Answers.{is_noreturn, has_code, throws_an_error, answers, is_assert_false}
use dmd.Expression.Answers.Exits.{exit_of, exit-iff-Raises}
use dmd.Expression.SideEffect.{
  lambda_has_side_effect, has_side_effect, is_trivial_exp, stopper, asked, stops_trivial,
}
use dmd.Expression.SideEffect.Trivial.{Passes, has_side_effect-iff-Passes, trivial-has_side_effect}
use dmd.Expression.OpClass.{class_of_op}
use dmd.Expression.Casts.{down_cast, is_una_exp, is_bin_exp, is_bin_assign_exp}
use dmd.Expression.Casts.Exact.{down_cast-iff-class_of}
use dmd.Expression.Casts.Derived.{tests-iff-Above}
use dmd.Visitor.Expressions.{ExpressionClass, forward}
use dmd.Visitor.Dispatch.{Above, handled}
use dmd.Visitor.Nodes.{of_expression, accept}
use dmd.Statement.Tree.{Expression as Answered}
use dmd.Statement.ExitMasks.{exp_exit}

abbrev typed : Exp → Head
typed o = record { type_ = the_type int32; loc = 0; op = o; bit_fields = 0 }

-- The literal `1`.
abbrev one : Expression
one = leaf (typed Op.int64) (integer_exp (record { value = 1 }))

-- `int f()`, not `nothrow`.
abbrev function_type : TypeNode
function_type = type_function (the_type int32) (record {
  parameter_list = record {
    parameters = 0;
    stc = 0;
    varargs = VarArg.varargs_none;
    has_identifier_list = false;
  };
  bit_fields = 0;
  linkage = 0;
  trust = Trust.trust_default;
  purity = Pure.impure;
  inuse = 0;
  inference_arguments = 0;
})

-- The call `f(1)`.
abbrev call : Expression
call =
    call_exp (typed Op.call)
      (record {
        names = 0;
        directcall = false;
        in_debug_statement = false;
        ignore_attributes = false;
        is_ufcs_rewrite = false;
        from_op_overload = false;
        from_op_assignment = false;
        vthis2 = 0;
        lowered_from = none;
      })
      (the_function (record { address = 7; is_array_construction = false; side_effect_level = 0 })
        function_type)
      (leaf (record { type_ = the_type function_type; loc = 0; op = Op.null_; bit_fields = 0 })
        null_exp)
      (cons (node one) nil)

-- `1 + f(1)`
abbrev sum : Expression
sum = bin_exp (typed Op.add) add_exp one call

-- `1 + 1`
abbrev plain : Expression
plain = bin_exp (typed Op.add) add_exp one one

-- In a function other than `f`.
abbrev elsewhere : Context
elsewhere = record { func = some 3; errors = false; is_lvalue = λ e. false }

abbrev unknown : Expression → Option Bool
unknown e = none

abbrev level : TypeNode → ℕ
level t = 0

sum-run : can_throw elsewhere sum ≡ some an_exception
unfolding can_throw ◌∪◌ visit_node visit_call hook_postblit head function_type_of to_basetype
    get_flag get shift visit_bin check_func_throws
sum-run = refl

walk-eq-run_example :
    walk (collect elsewhere) sum (some no_throw)
    ≡ run (collect elsewhere) (postorder sum) (some no_throw)
walk-eq-run_example = walk-eq-run (collect elsewhere) sum (some no_throw)

postorder-accept_example :
    (o : Overload) × (accept overrides (of_expression (class_of sum)) ≡ handled o)
    × (postorder sum ≡ visited_by o sum ++ seen sum ∷ [])
postorder-accept_example = postorder-accept sum refl

can_throw-eq-walk_example :
    walk (collect elsewhere) sum (some no_throw) ≡ (can_throw elsewhere sum, false)
can_throw-eq-walk_example = can_throw-eq-walk elsewhere sum

can_throw-iff-Raises_example :
    (has exception_kind an_exception ≡ true) ↔ Raises elsewhere exception_kind (postorder sum)
can_throw-iff-Raises_example =
    can_throw-iff-Raises elsewhere exception_kind sum an_exception sum-run

abbrev sum_answers : Answered
sum_answers = record {
  is_halt = false;
  is_assert_false = false;
  is_noreturn = false;
  to_bool = none;
  has_code = true;
  throws_exception = true;
  throws_error = false;
  is_error_exception = false;
}

sum-answers : answers elsewhere unknown sum ≡ some sum_answers
unfolding answers can_throw same_op value is_assert_false is_noreturn has_code throws_an_error
    is_class_handle ◌∪◌ visit_node visit_call hook_postblit head function_type_of to_basetype
    get_flag get shift visit_bin check_func_throws
sum-answers = refl

exit-iff-Raises_example : (exp_exit (some sum_answers) (exit_of exception_kind) ≡ true) ↔ (
    (same_op (head sum).op Op.halt ≡ false)
    × (is_assert_false unknown sum ≡ false)
    × Raises elsewhere exception_kind (postorder sum))
exit-iff-Raises_example =
    exit-iff-Raises elsewhere unknown sum exception_kind sum_answers sum-answers

has_side_effect-iff-Passes_example :
    (has_side_effect level true plain ≡ some false)
    ↔ Passes (lambda_has_side_effect level true) (postorder plain)
has_side_effect-iff-Passes_example = has_side_effect-iff-Passes level true plain

plain-trivial : is_trivial_exp level plain ≡ some true
unfolding is_trivial_exp asked stopper stops_trivial walk lambda_has_side_effect head same_op value
    ◌⊳◌
plain-trivial = refl

trivial-has_side_effect_example : has_side_effect level true plain ≡ some false
trivial-has_side_effect_example = trivial-has_side_effect level true plain plain-trivial

call-not_cmp_exp : ExpressionClass.call_exp ≢ ExpressionClass.cmp_exp
call-not_cmp_exp e = cc

sum-typed : class_of_op (head sum).op ≡ some (class_of sum)
unfolding class_of_op head class_of binary_class
sum-typed = refl

down_cast-iff-class_of_example :
    (down_cast ExpressionClass.call_exp (head sum).op ≡ true)
    ↔ (class_of sum ≡ ExpressionClass.call_exp)
down_cast-iff-class_of_example =
    down_cast-iff-class_of sum ExpressionClass.call_exp sum-typed call-not_cmp_exp

add-class : class_of_op Op.add ≡ some ExpressionClass.add_exp
unfolding class_of_op
add-class = refl

tests-iff-Above_example :
    ((is_bin_exp Op.add ≡ true) ↔ (
      Above forward ExpressionClass.add_exp ExpressionClass.bin_exp
      × (ExpressionClass.add_exp ≢ ExpressionClass.lowered_assign_exp)))
    × ((is_bin_assign_exp Op.add ≡ true) ↔ (
        Above forward ExpressionClass.add_exp ExpressionClass.bin_assign_exp
        × (ExpressionClass.add_exp ≢ ExpressionClass.lowered_assign_exp)))
    × ((is_una_exp Op.add ≡ true) ↔ (
        (Above forward ExpressionClass.add_exp ExpressionClass.una_exp
          ⊎ Above forward ExpressionClass.add_exp ExpressionClass.bin_exp)
        × (ExpressionClass.add_exp ≢ ExpressionClass.lowered_assign_exp)))
tests-iff-Above_example = tests-iff-Above Op.add ExpressionClass.add_exp add-class
