-- ===== src/Statement/Tree.antt =====
-- The statements of compiler/include/dmd/statement.h, as the tree that they make: a constructor
-- for each class, with its members, the statements and the expressions in it. A null pointer to a
-- statement is `null`.
use dmd.Prelude.{Bool, Option}
use dmd.Statement.Fields.{
  CompoundAsmStatement, DtorExpStatement, MixinStatement, ScopeStatement, ForwardingStatement,
  WhileStatement, DoStatement, ForStatement, ForeachStatement, ForeachRangeStatement, IfStatement,
  ConditionalStatement, StaticForeachStatement, PragmaStatement, StaticAssertStatement,
  SwitchStatement, CaseStatement, DefaultStatement, GotoDefaultStatement, GotoCaseStatement,
  ReturnStatement, BreakStatement, ContinueStatement, WithStatement, TryCatchStatement, Catch,
  TryFinallyStatement, ScopeGuardStatement, ThrowStatement, GotoStatement, LabelStatement,
  AsmStatement, InlineAsmStatement, GccAsmStatement, ImportStatement,
}

-- What the analysis of statements asks of an expression.
pub record Expression : Type 0 where
  -- `op == EXP.halt`
  pub is_halt : Bool
  -- `isAssertExp()`, and its operand is false
  pub is_assert_false : Bool
  -- the type is `noreturn`
  pub is_noreturn : Bool
  -- `toBool()`
  pub to_bool : Option Bool
  -- `hasCode()`
  pub has_code : Bool
  -- the flags of `canThrow`
  pub throws_exception : Bool
  pub throws_error : Bool
  -- the class of the value is derived from `Error`
  pub is_error_exception : Bool

mutual
  pub data Statement : Type 0 where
    error_statement : Statement
    peel_statement : Nullable → Statement
    exp_statement : Option Expression → Statement
    dtor_exp_statement : DtorExpStatement → Option Expression → Statement
    mixin_statement : MixinStatement → Statement
    compound_statement : Statements → Statement
    compound_declaration_statement : Statements → Statement
    compound_asm_statement : CompoundAsmStatement → Statements → Statement
    unrolled_loop_statement : Statements → Statement
    scope_statement : ScopeStatement → Nullable → Statement
    forwarding_statement : ForwardingStatement → Nullable → Statement
    while_statement : WhileStatement → Expression → Nullable → Statement
    do_statement : DoStatement → Nullable → Expression → Statement
    for_statement :
        ForStatement
        → (init : Nullable) → (condition increment : Option Expression) → (body : Nullable)
        → Statement
    foreach_statement : ForeachStatement → (aggr : Expression) → Nullable → Statement
    foreach_range_statement : ForeachRangeStatement → (lwr upr : Expression) → Nullable → Statement
    if_statement : IfStatement → (condition : Expression) → (ifbody elsebody : Nullable) → Statement
    conditional_statement : ConditionalStatement → (ifbody elsebody : Nullable) → Statement
    static_foreach_statement : StaticForeachStatement → Statement
    pragma_statement : PragmaStatement → Nullable → Statement
    static_assert_statement : StaticAssertStatement → Statement
    switch_statement : SwitchStatement → (condition : Expression) → Nullable → Statement
    case_statement : CaseStatement → Expression → Nullable → Statement
    case_range_statement : (first last : Expression) → Nullable → Statement
    default_statement : DefaultStatement → Nullable → Statement
    goto_default_statement : GotoDefaultStatement → Statement
    goto_case_statement : GotoCaseStatement → Option Expression → Statement
    switch_error_statement : Option Expression → Statement
    return_statement : ReturnStatement → Option Expression → Statement
    break_statement : BreakStatement → Statement
    continue_statement : ContinueStatement → Statement
    synchronized_statement : Option Expression → Nullable → Statement
    with_statement : WithStatement → Expression → Nullable → Statement
    try_catch_statement : TryCatchStatement → Nullable → Catches → Statement
    try_finally_statement : TryFinallyStatement → (body finalbody : Nullable) → Statement
    scope_guard_statement : ScopeGuardStatement → Nullable → Statement
    throw_statement : ThrowStatement → Expression → Statement
    debug_statement : Nullable → Statement
    goto_statement : GotoStatement → Statement
    label_statement : LabelStatement → Nullable → Statement
    asm_statement : AsmStatement → Statement
    inline_asm_statement : InlineAsmStatement → Statement
    gcc_asm_statement : GccAsmStatement → Statement
    import_statement : ImportStatement → Statement

  -- A pointer to a statement.
  pub data Nullable : Type 0 where
    null : Nullable
    node : Statement → Nullable

  -- `Statements`, an array of pointers.
  pub data Statements : Type 0 where
    nil : Statements
    cons : Nullable → Statements → Statements

  -- `Catches`: each with the statement that handles it.
  pub data Catches : Type 0 where
    no_catch : Catches
    catch_cons : Catch → (handler : Nullable) → Catches → Catches
