-- ===== src/Visitor/Statements.antt =====
-- The classes derived from `Statement`, and the class that each forwards
-- an unhandled `visit` to in compiler/include/dmd/visitor.h.
pub mod Bases
use dmd.Prelude.{Option, none, some}

pub data StatementClass : Type 0 where
  statement import_statement scope_statement return_statement label_statement
        static_assert_statement mixin_statement while_statement for_statement do_statement
        foreach_range_statement foreach_statement if_statement scope_guard_statement
        conditional_statement static_foreach_statement pragma_statement switch_statement
        case_range_statement case_statement default_statement break_statement continue_statement
        goto_default_statement goto_case_statement goto_statement synchronized_statement
        with_statement try_catch_statement try_finally_statement throw_statement asm_statement
        exp_statement compound_statement compound_declaration_statement compound_asm_statement
        inline_asm_statement gcc_asm_statement error_statement peel_statement
        unrolled_loop_statement switch_error_statement debug_statement dtor_exp_statement
        forwarding_statement :
      StatementClass

-- The overloads that `Visitor` adds.
late_forward : StatementClass → Option StatementClass
late_forward error_statement = some statement
late_forward peel_statement = some statement
late_forward unrolled_loop_statement = some statement
late_forward switch_error_statement = some statement
late_forward debug_statement = some statement
late_forward dtor_exp_statement = some exp_statement
late_forward forwarding_statement = some statement
late_forward _ = none

-- `visit(C *)` of a visitor that does not override it calls `visit` at this class; `none` is the
-- assertion of a root's overload.
unfoldable pub forward : StatementClass → Option StatementClass
unfolding late_forward
forward import_statement = some statement
forward scope_statement = some statement
forward return_statement = some statement
forward label_statement = some statement
forward static_assert_statement = some statement
forward mixin_statement = some statement
forward while_statement = some statement
forward for_statement = some statement
forward do_statement = some statement
forward foreach_range_statement = some statement
forward foreach_statement = some statement
forward if_statement = some statement
forward scope_guard_statement = some statement
forward conditional_statement = some statement
forward static_foreach_statement = some statement
forward pragma_statement = some statement
forward switch_statement = some statement
forward case_range_statement = some statement
forward case_statement = some statement
forward default_statement = some statement
forward break_statement = some statement
forward continue_statement = some statement
forward goto_default_statement = some statement
forward goto_case_statement = some statement
forward goto_statement = some statement
forward synchronized_statement = some statement
forward with_statement = some statement
forward try_catch_statement = some statement
forward try_finally_statement = some statement
forward throw_statement = some statement
forward asm_statement = some statement
forward exp_statement = some statement
forward compound_statement = some statement
forward compound_declaration_statement = some compound_statement
forward compound_asm_statement = some compound_statement
forward inline_asm_statement = some asm_statement
forward gcc_asm_statement = some asm_statement
forward c = late_forward c
