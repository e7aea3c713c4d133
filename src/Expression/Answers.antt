-- ===== src/Expression/Answers.antt =====
-- What `blockExit` (compiler/src/dmd/blockexit.d) asks of an expression, answered from the tree of
-- the expression.
pub mod Exits
use dmd.Prelude.{Bool, true, false, ◌||◌, not, Option, none, some, ◌>>=◌}
use dmd.Types.Tree.{TypeNode, type_noreturn, class_declaration}
use dmd.Types.Base.{to_basetype, is_class_handle}
use dmd.Expression.Op
use dmd.Expression.Op.{same_op}
use dmd.Expression.Tree.{
  Expression, Dsymbol, head, assert_exp, declaration_exp, leaf, var_declaration,
  aliased_var_declaration, other_symbol,
}
use dmd.Expression.CanThrow.{can_throw}
use dmd.Expression.ThrowRules.{Context, type_of, Ct}
use dmd.Statement.Tree.{Expression as Answers}
use dmd.Statement.ExitMasks.{has_value}

-- `isTypeNoreturn`
unfoldable pub is_type_noreturn : TypeNode → Bool
is_type_noreturn type_noreturn = true
is_type_noreturn _ = false

-- `e.type && e.type.toBasetype().isTypeNoreturn()`
unfoldable pub is_noreturn : Option TypeNode → Bool
unfolding is_type_noreturn
is_noreturn none = false
is_noreturn (some t) = is_type_noreturn (to_basetype t)

-- `isVarDeclaration()` of a declared symbol, with the test of its storage class.
unfoldable pub symbol_has_code : Dsymbol → Bool
symbol_has_code (var_declaration v _ _) = not (v.is_manifest || v.is_static_storage)
symbol_has_code (aliased_var_declaration v _) = not (v.is_manifest || v.is_static_storage)
symbol_has_code _ = false

-- `hasCode()` of an expression.
unfoldable pub has_code : Expression → Bool
unfolding symbol_has_code
has_code (declaration_exp _ d) = symbol_has_code d
has_code (leaf _ _) = true
has_code _ = true

-- `isAssertExp()`, with an operand that `toBool` finds to be false.
unfoldable pub is_assert_false : (Expression → Option Bool) → Expression → Bool
unfolding has_value
is_assert_false to_bool (assert_exp _ _ a _) = has_value (to_bool a) false
is_assert_false to_bool (leaf _ _) = false
is_assert_false to_bool _ = false

-- `isErrorException()` of the class of the value, as `checkThrow` asks it.
unfoldable pub throws_an_error : Option TypeNode → Bool
throws_an_error none = false
throws_an_error (some t) = elim (is_class_handle (to_basetype t)) [
  | none ↦ false
  | some (class_declaration _ e _) ↦ e
]

-- The answers; `none` where `canThrow` fails. `to_bool` is `toBool()`.
unfoldable pub answers : Context → (Expression → Option Bool) → Expression → Option Answers
answers c to_bool e = do
  r ← can_throw c e
  some (record {
    is_halt = same_op (head e).op Op.halt;
    is_assert_false = is_assert_false to_bool e;
    is_noreturn = is_noreturn (type_of (head e).type_);
    to_bool = to_bool e;
    has_code = has_code e;
    throws_exception = r.exception;
    throws_error = r.error;
    is_error_exception = throws_an_error (type_of (head e).type_);
  })
