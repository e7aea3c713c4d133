-- ===== src/Statement/BlockExit/Regular.antt =====
-- The statements that `blockExit` (compiler/src/dmd/blockexit.d) gets right: all but the `do`
-- loops and unrolled loops whose `break` or labelled `continue` it forgets, and those where a jump can come into a part
-- that it takes for unreachable.
use dmd.Prelude.{Bool, true, false, ◌&&◌, ◌||◌, not, Option, none, some}
use dmd.Statement.Tree.{
  Expression, Statement, compound_statement, unrolled_loop_statement, scope_statement, do_statement,
  for_statement, foreach_statement, if_statement, conditional_statement, switch_statement,
  case_statement, default_statement, synchronized_statement, with_statement, try_catch_statement,
  try_finally_statement, label_statement, Nullable, null, node, Statements, nil, cons, Catches,
  no_catch, catch_cons,
}
use dmd.Statement.Mask.{Mask, fallthru, goto_, break_, continue_, only, mask_eq}
use dmd.Statement.BlockExit.{statement_exit, block_exit, has_value, for_enters}
use dmd.Statement.BlockExit.Executions.{targeted, targeted_all, continued}

-- A loop can be left through `break` in no case, in every case, or it can also go on.
abbrev pub kept_break : Mask → Bool
kept_break r = not (r break_) || (mask_eq r (only break_) || (r fallthru || r continue_))

abbrev pub goes_on : Mask → Bool
goes_on r = r fallthru || (r continue_ || r break_)

abbrev pub of_mask : (Mask → Bool) → Option Mask → Bool
of_mask t none = true
of_mask t (some r) = t r

abbrev pub no_break : Mask → Bool
no_break r = not (r break_)

-- Where a `goto_` may be a labelled `continue` of the loop, the iteration can end otherwise as well.
abbrev pub continue_kept : Nullable → Mask → Bool
continue_kept b r = not (continued b && r goto_) || (r fallthru || r continue_)

abbrev pub falls_through : Mask → Bool
falls_through r = r fallthru

-- No jump comes into a branch that a constant condition skips.
abbrev pub no_skipped_target : Expression → Nullable → Nullable → Bool
no_skipped_target c a b =
    not (has_value c.to_bool true && targeted b) && not (has_value c.to_bool false && targeted a)

-- No jump comes into the body of a `for` loop that is skipped.
abbrev pub loop_reached : Option Mask → Option Expression → Nullable → Bool
loop_reached i c b = not (targeted b) || (of_mask falls_through i && for_enters c)

module _ (errors : Bool) where
  -- Every one of the statements can end its iteration.
  unfoldable pub all_go_on : Statements → Bool
  all_go_on nil = true
  all_go_on (cons null ss) = all_go_on ss
  all_go_on (cons (node s) ss) = of_mask goes_on (statement_exit errors false s) && all_go_on ss

  unfoldable mutual
    unfolding all_go_on

    pub regular : Statement → Bool
    regular (compound_statement ss) = all_regular ss
    regular (unrolled_loop_statement ss) = unrolled_regular ss
    regular (scope_statement _ s) = regular_pointer s
    regular (do_statement _ b _) =
        (of_mask kept_break (block_exit errors false b)
          && of_mask (continue_kept b) (block_exit errors false b))
        && regular_pointer b
    regular (for_statement _ i c _ b) =
        loop_reached (block_exit errors false i) c b && (regular_pointer i && regular_pointer b)
    regular (foreach_statement _ _ b) = regular_pointer b
    regular (if_statement _ c a b) =
        no_skipped_target c a b && (regular_pointer a && regular_pointer b)
    regular (conditional_statement _ a b) = regular_pointer a && regular_pointer b
    regular (switch_statement _ _ b) = regular_pointer b
    regular (case_statement _ _ s) = regular_pointer s
    regular (default_statement _ s) = regular_pointer s
    regular (synchronized_statement _ b) = regular_pointer b
    regular (with_statement _ _ b) = regular_pointer b
    regular (try_catch_statement _ b cs) = regular_pointer b && regular_handlers cs
    regular (try_finally_statement _ b f) = regular_pointer b && regular_pointer f
    regular (label_statement _ s) = regular_pointer s
    regular _ = true

    pub regular_pointer : Nullable → Bool
    regular_pointer null = true
    regular_pointer (node s) = regular s

    pub all_regular : Statements → Bool
    all_regular nil = true
    all_regular (cons s ss) = regular_pointer s && all_regular ss

    -- No statement that can break stands before one that ends every iteration otherwise, and none
    -- that ends every iteration stands before a target.
    pub unrolled_regular : Statements → Bool
    unrolled_regular nil = true
    unrolled_regular (cons null ss) = unrolled_regular ss
    unrolled_regular (cons (node s) ss) =
        (of_mask no_break (statement_exit errors false s) || all_go_on ss)
        && ((regular s && unrolled_regular ss)
            && ((not (targeted_all ss) || of_mask goes_on (statement_exit errors false s))
                && of_mask (continue_kept (node s)) (statement_exit errors false s)))

    pub regular_handlers : Catches → Bool
    regular_handlers no_catch = true
    regular_handlers (catch_cons _ h cs) = regular_pointer h && regular_handlers cs
