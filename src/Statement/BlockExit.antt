-- ===== src/Statement/BlockExit.antt =====
-- `blockExit` of compiler/src/dmd/blockexit.d: the mask of the ways that a statement can exit.
-- `errors` is whether `global.errors` is not zero, `sink` whether there is an error sink; `none` is
-- a failed assertion. The messages for the sink are left out.
pub mod Executions
pub mod Masks
pub mod Regular
pub mod Covers
pub mod Loops
pub mod Steps
pub mod Sound
pub mod Gaps
pub mod Total
pub mod Jumps
mod Tests
use dmd.Prelude.{Bool, true, false, ◌&&◌, ◌||◌, not, Option, none, some, ◌>>=◌, if◌then◌else◌}
use dmd.Statement.Fields.{Ptr, Catch, CatchType, terror, object, throwable, exception, other_class}
use dmd.Statement.Tree
use dmd.Statement.Tree.{
  Expression, Statement, error_statement, exp_statement, dtor_exp_statement, mixin_statement,
  compound_statement, compound_asm_statement, unrolled_loop_statement, scope_statement,
  while_statement, do_statement, for_statement, foreach_statement, foreach_range_statement,
  if_statement, conditional_statement, pragma_statement, static_assert_statement, switch_statement,
  case_statement, default_statement, goto_default_statement, goto_case_statement,
  switch_error_statement, return_statement, break_statement, continue_statement,
  synchronized_statement, with_statement, try_catch_statement, try_finally_statement,
  scope_guard_statement, throw_statement, goto_statement, label_statement, import_statement,
  Nullable, null, node, Statements, nil, cons, Catches, no_catch, catch_cons,
}
use dmd.Statement.Queries.{come_from}
use dmd.Statement.Mask.{
  Exit, fallthru, throw_, return_, goto_, halt, break_, continue_, errthrow, Mask, no_exit, only,
  union, minus, mask_eq,
}
unfoldable pub use dmd.Statement.ExitMasks.{
  has_value, can_throw, can_throw_option, exp_exit, do_exit, for_body_exit, for_condition,
  for_enters, for_exit, foreach_exit, if_exit, switch_exit, try_finally_exit, unrolled_step, caught,
  catch_body_exit, handler_exit, is_terror, throw_exit, asm_exit, after_errors, break_exit,
  continue_exit,
}

module _ (errors : Bool) where
  mutual
    unfolding break_exit continue_exit exp_exit do_exit for_exit foreach_exit if_exit switch_exit
        try_finally_exit unrolled_step catch_body_exit handler_exit is_terror throw_exit asm_exit
        after_errors can_throw can_throw_option only

    -- `blockExit` of a statement: the method of `VisitStatement` for its class.
    pub statement_exit : Bool → Statement → Option Mask
    statement_exit sink error_statement = some no_exit
    statement_exit sink (exp_statement e) = some (exp_exit e)
    statement_exit sink (dtor_exp_statement _ e) = some (exp_exit e)
    statement_exit sink (mixin_statement _) = after_errors errors
    statement_exit sink (compound_statement ss) = compound_exit sink ss (only fallthru)
    statement_exit sink (unrolled_loop_statement ss) = unrolled_exit sink ss (only fallthru)
    statement_exit sink (scope_statement _ s) = block_exit sink s
    statement_exit sink (while_statement _ _ _) = after_errors errors
    statement_exit sink (do_statement _ b c) = do r ← block_exit sink b; some (do_exit c r)
    statement_exit sink (for_statement _ i c n b) = do
      m ← block_exit sink i
      for_exit c n (block_exit sink b) m
    statement_exit sink (foreach_statement _ a b) = do
      r ← block_exit sink b
      some (foreach_exit a r)
    statement_exit sink (foreach_range_statement _ _ _ _) = after_errors errors
    statement_exit sink (if_statement _ c a b) = if_exit c (block_exit sink a) (block_exit sink b)
    statement_exit sink (conditional_statement _ a null) = block_exit sink a
    statement_exit sink (conditional_statement _ a (node b)) = do
      r ← block_exit sink a
      q ← statement_exit sink b
      some (union r q)
    statement_exit sink (pragma_statement _ _) = some (only fallthru)
    statement_exit sink (static_assert_statement _) = some (only fallthru)
    statement_exit sink (switch_statement _ c b) = do r ← block_exit sink b; some (switch_exit c r)
    statement_exit sink (case_statement _ _ s) = block_exit sink s
    statement_exit sink (default_statement _ s) = block_exit sink s
    statement_exit sink (goto_default_statement _) = some (only goto_)
    statement_exit sink (goto_case_statement _ _) = some (only goto_)
    statement_exit sink (switch_error_statement _) = some (only halt)
    statement_exit sink (return_statement _ e) = some (union (only return_) (can_throw_option e))
    statement_exit sink (break_statement f) = some (break_exit f.ident)
    statement_exit sink (continue_statement f) = some (continue_exit f.ident)
    statement_exit sink (synchronized_statement _ b) = block_exit sink b
    statement_exit sink (with_statement _ e b) = do
      r ← block_exit sink b
      some (union (can_throw e) r)
    statement_exit sink (try_catch_statement _ null cs) = none
    statement_exit sink (try_catch_statement _ (node b) cs) = do
      r ← statement_exit false b
      catches_exit sink cs r no_exit
    statement_exit sink (try_finally_statement _ b f) = do
      r ← block_exit false b
      q ← block_exit false f
      some (try_finally_exit r q)
    statement_exit sink (scope_guard_statement _ _) = some (only fallthru)
    statement_exit sink (throw_statement f e) = some (throw_exit f.internal_throw e)
    statement_exit sink (goto_statement _) = some (only goto_)
    statement_exit sink (label_statement f s) = do
      r ← block_exit sink s
      some (if f.breaks then union r (only fallthru) else r)
    statement_exit sink (compound_asm_statement f _) = some (asm_exit sink f.stc_nothrow)
    statement_exit sink (import_statement _) = some (only fallthru)
    statement_exit sink _ = none

    -- `blockExit`
    pub block_exit : Bool → Nullable → Option Mask
    block_exit sink null = some (only fallthru)
    block_exit sink (node s) = statement_exit sink s

    -- The loop of `visitCompound`, from the mask so far.
    pub compound_exit : Bool → Statements → Mask → Option Mask
    compound_exit sink nil m = some m
    compound_exit sink (cons null ss) m = compound_exit sink ss m
    compound_exit sink (cons (node s) ss) m =
        if m fallthru || come_from s
        then (do
          r ← statement_exit sink s
          compound_exit sink ss (union (minus m (only fallthru)) r))
        else compound_exit sink ss m

    -- The loop of `visitUnrolledLoop`.
    pub unrolled_exit : Bool → Statements → Mask → Option Mask
    unrolled_exit sink nil m = some m
    unrolled_exit sink (cons null ss) m = unrolled_exit sink ss m
    unrolled_exit sink (cons (node s) ss) m = do
      r ← statement_exit sink s
      unrolled_exit sink ss (unrolled_step m r)

    -- The loop of `visitTryCatch`: `m` is the mask of the body so far, `k` that of the handlers.
    pub catches_exit : Bool → Catches → Mask → Mask → Option Mask
    catches_exit sink no_catch m k = some (union m k)
    catches_exit sink (catch_cons c h cs) m k =
        let rest = catches_exit sink cs in
        if is_terror c.type_
        then rest m k
        else (do r ← block_exit sink h; rest (catch_body_exit c r m) (union k (handler_exit c r)))
