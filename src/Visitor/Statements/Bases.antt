-- ===== src/Visitor/Statements/Bases.antt =====
-- The base classes that the headers of compiler/include/dmd declare in the family
-- of Statements.
use dmd.Prelude.{Option, none, some}
use dmd.Visitor.Statements.{
  StatementClass, statement, import_statement, scope_statement, return_statement, label_statement,
  static_assert_statement, mixin_statement, while_statement, for_statement, do_statement,
  foreach_range_statement, foreach_statement, if_statement, scope_guard_statement,
  conditional_statement, static_foreach_statement, pragma_statement, switch_statement,
  case_range_statement, case_statement, default_statement, break_statement, continue_statement,
  goto_default_statement, goto_case_statement, goto_statement, synchronized_statement,
  with_statement, try_catch_statement, try_finally_statement, throw_statement, asm_statement,
  exp_statement, compound_statement, compound_declaration_statement, compound_asm_statement,
  inline_asm_statement, gcc_asm_statement, error_statement, peel_statement, unrolled_loop_statement,
  switch_error_statement, debug_statement, dtor_exp_statement, forwarding_statement,
}

-- The base class of a class, those of compiler/include/dmd/statement.h first; `none` for a
-- root of the family, and for a class that no header defines.
unfoldable pub base : StatementClass → Option StatementClass
base import_statement = some statement
base scope_statement = some statement
base return_statement = some statement
base label_statement = some statement
base static_assert_statement = some statement
base mixin_statement = some statement
base while_statement = some statement
base for_statement = some statement
base do_statement = some statement
base foreach_range_statement = some statement
base foreach_statement = some statement
base if_statement = some statement
base scope_guard_statement = some statement
base conditional_statement = some statement
base static_foreach_statement = some statement
base pragma_statement = some statement
base switch_statement = some statement
base case_range_statement = some statement
base case_statement = some statement
base default_statement = some statement
base break_statement = some statement
base continue_statement = some statement
base goto_default_statement = some statement
base goto_case_statement = some statement
base goto_statement = some statement
base synchronized_statement = some statement
base with_statement = some statement
base try_catch_statement = some statement
base try_finally_statement = some statement
base throw_statement = some statement
base asm_statement = some statement
base exp_statement = some statement
base compound_statement = some statement
base compound_declaration_statement = some compound_statement
base compound_asm_statement = some compound_statement
base inline_asm_statement = some asm_statement
base gcc_asm_statement = some asm_statement
base error_statement = some statement
base peel_statement = some statement
base unrolled_loop_statement = some statement
base switch_error_statement = some statement
base debug_statement = some statement
base dtor_exp_statement = some exp_statement
base forwarding_statement = some statement
base _ = none
