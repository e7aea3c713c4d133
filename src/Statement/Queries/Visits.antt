-- ===== src/Statement/Queries/Visits.antt =====
-- The statements that `walkPostorder` of compiler/src/dmd/visitor/postorder.d visits.
use dmd.Prelude.{Option}
use dmd.Statement.Fields
use dmd.Statement.Tree.{
  Expression, Statement, Nullable, node, Statements, cons, Catches, catch_cons, peel_statement,
  compound_statement, compound_declaration_statement, compound_asm_statement,
  unrolled_loop_statement, scope_statement, while_statement, do_statement, for_statement,
  foreach_statement, foreach_range_statement, if_statement, pragma_statement, switch_statement,
  case_statement, default_statement, synchronized_statement, with_statement, try_catch_statement,
  try_finally_statement, scope_guard_statement, debug_statement, label_statement,
}

mutual
  -- `u` is visited on the walk of a statement: the statement itself, or one in a part of it.
  pub data Visits (u : Statement) : Statement → Type 0 where
    itself : Visits u u
    in_peel : {p : Nullable} → VisitsIn u p → Visits u (peel_statement p)
    in_compound : {p : Statements} → VisitsAll u p → Visits u (compound_statement p)
    in_compound_declaration :
        {p : Statements} → VisitsAll u p → Visits u (compound_declaration_statement p)
    in_compound_asm :
        {f : Fields.CompoundAsmStatement} {p : Statements}
        → VisitsAll u p
        → Visits u (compound_asm_statement f p)
    in_unrolled_loop : {p : Statements} → VisitsAll u p → Visits u (unrolled_loop_statement p)
    in_scope :
        {f : Fields.ScopeStatement} {p : Nullable} → VisitsIn u p → Visits u (scope_statement f p)
    in_while :
        {f : Fields.WhileStatement} {c : Expression} {p : Nullable}
        → VisitsIn u p
        → Visits u (while_statement f c p)
    in_do :
        {f : Fields.DoStatement} {p : Nullable} {c : Expression}
        → VisitsIn u p
        → Visits u (do_statement f p c)
    in_for_first :
        {f : Fields.ForStatement} {p : Nullable} {c : Option Expression} {n : Option Expression}
        {q : Nullable}
        → VisitsIn u p
        → Visits u (for_statement f p c n q)
    in_for_second :
        {f : Fields.ForStatement} {p : Nullable} {c : Option Expression} {n : Option Expression}
        {q : Nullable}
        → VisitsIn u q
        → Visits u (for_statement f p c n q)
    in_foreach :
        {f : Fields.ForeachStatement} {c : Expression} {p : Nullable}
        → VisitsIn u p
        → Visits u (foreach_statement f c p)
    in_foreach_range :
        {f : Fields.ForeachRangeStatement} {c : Expression} {d : Expression} {p : Nullable}
        → VisitsIn u p
        → Visits u (foreach_range_statement f c d p)
    in_if_first :
        {f : Fields.IfStatement} {c : Expression} {p : Nullable} {q : Nullable}
        → VisitsIn u p
        → Visits u (if_statement f c p q)
    in_if_second :
        {f : Fields.IfStatement} {c : Expression} {p : Nullable} {q : Nullable}
        → VisitsIn u q
        → Visits u (if_statement f c p q)
    in_pragma :
        {f : Fields.PragmaStatement} {p : Nullable} → VisitsIn u p → Visits u (pragma_statement f p)
    in_switch :
        {f : Fields.SwitchStatement} {c : Expression} {p : Nullable}
        → VisitsIn u p
        → Visits u (switch_statement f c p)
    in_case :
        {f : Fields.CaseStatement} {c : Expression} {p : Nullable}
        → VisitsIn u p
        → Visits u (case_statement f c p)
    in_default :
        {f : Fields.DefaultStatement} {p : Nullable}
        → VisitsIn u p
        → Visits u (default_statement f p)
    in_synchronized :
        {c : Option Expression} {p : Nullable}
        → VisitsIn u p
        → Visits u (synchronized_statement c p)
    in_with :
        {f : Fields.WithStatement} {c : Expression} {p : Nullable}
        → VisitsIn u p
        → Visits u (with_statement f c p)
    in_try_catch_first :
        {f : Fields.TryCatchStatement} {p : Nullable} {q : Catches}
        → VisitsIn u p
        → Visits u (try_catch_statement f p q)
    in_try_catch_second :
        {f : Fields.TryCatchStatement} {p : Nullable} {q : Catches}
        → VisitsHandlers u q
        → Visits u (try_catch_statement f p q)
    in_try_finally_first :
        {f : Fields.TryFinallyStatement} {p : Nullable} {q : Nullable}
        → VisitsIn u p
        → Visits u (try_finally_statement f p q)
    in_try_finally_second :
        {f : Fields.TryFinallyStatement} {p : Nullable} {q : Nullable}
        → VisitsIn u q
        → Visits u (try_finally_statement f p q)
    in_scope_guard :
        {f : Fields.ScopeGuardStatement} {p : Nullable}
        → VisitsIn u p
        → Visits u (scope_guard_statement f p)
    in_debug : {p : Nullable} → VisitsIn u p → Visits u (debug_statement p)
    in_label :
        {f : Fields.LabelStatement} {p : Nullable} → VisitsIn u p → Visits u (label_statement f p)

  pub data VisitsIn (u : Statement) : Nullable → Type 0 where
    in_node : {s : Statement} → Visits u s → VisitsIn u (node s)

  pub data VisitsAll (u : Statement) : Statements → Type 0 where
    in_head : {p : Nullable} {ss : Statements} → VisitsIn u p → VisitsAll u (cons p ss)
    in_tail : {p : Nullable} {ss : Statements} → VisitsAll u ss → VisitsAll u (cons p ss)

  pub data VisitsHandlers (u : Statement) : Catches → Type 0 where
    in_handler :
        {c : Fields.Catch} {p : Nullable} {cs : Catches}
        → VisitsIn u p
        → VisitsHandlers u (catch_cons c p cs)
    in_later :
        {c : Fields.Catch} {p : Nullable} {cs : Catches}
        → VisitsHandlers u cs
        → VisitsHandlers u (catch_cons c p cs)
