-- ===== src/Statement/BlockExit/Tests.antt =====
-- Runs of `blockExit` (compiler/src/dmd/blockexit.d) on small statements, and examples of what is
-- proved of it.
use dmd.Prelude.{ℕ, ◌≡◌, ◌≢◌, refl, true, false, Option, none, some}
use dmd.Statement.Fields.{LabelStatement}
use dmd.Statement.Tree.{
  Expression, Statement, compound_statement, do_statement, if_statement, return_statement,
  break_statement, continue_statement, goto_statement, label_statement, unrolled_loop_statement,
  Nullable, null, node, nil, cons,
}
use dmd.Statement.Queries.{has_break, walk, walk_pointer, is_target}
use dmd.Statement.Mask.{fallthru, return_, break_, Mask, only, union, goto_, value}
use dmd.Statement.BlockExit.{
  statement_exit, block_exit, do_exit, can_throw, can_throw_option, has_value, break_exit,
  continue_exit,
}
use dmd.Statement.BlockExit.Executions.{
  Ends, ran, Exits, if_true, breaks, returned, continues_label, do_passes, do_continued, jumps,
  is_labelled_continue,
}
use dmd.Statement.BlockExit.Regular.{regular_pointer}
use dmd.Statement.BlockExit.Gaps.{do_forgets_break, unrolled_forgets_break, if_forgets_label}
use dmd.Statement.BlockExit.Total.{block_exit_total, pointer_lowered}
use dmd.Statement.BlockExit.Jumps.{init_lacks, has_break_lem}

-- A condition that is not constant and cannot throw.
abbrev condition : Expression
condition = record {
  is_halt = false;
  is_assert_false = false;
  is_noreturn = false;
  to_bool = none;
  has_code = true;
  throws_exception = false;
  throws_error = false;
  is_error_exception = false;
}

abbrev leave : Statement
leave = return_statement (record { case_dim = 0; fes_func = 0; scope_ = 0 }) none

abbrev break_out : Statement
break_out = break_statement (record { ident = none })

abbrev next_one : Statement
next_one = continue_statement (record { ident = none })

-- `if (condition) break; else return;`
abbrev branch : Statement
branch = if_statement (record { param = 0; endloc = 0 }) condition (node break_out) (node leave)

-- `if (condition) break;`
abbrev maybe_break : Statement
maybe_break = if_statement (record { param = 0; endloc = 0 }) condition (node break_out) null

abbrev loop : Nullable → Statement
loop b = do_statement (record { endloc = 0 }) b condition

abbrev number : Option Mask → ℕ
number none = 0
number (some m) = value m

-- `{ return; return; }`: the second statement is not reached.
block-run :
    number (
      block_exit false false
        (node (compound_statement (cons (node leave) (cons (node next_one) nil)))))
    ≡ 4
unfolding block_exit value walk is_target
block-run = refl

-- `do { continue; } while (condition);`
loop-run : number (block_exit false false (node (loop (node next_one)))) ≡ 1
unfolding block_exit value
loop-run = refl

not_constant : condition.to_bool ≢ some true
not_constant e = cc

not_false : condition.to_bool ≢ some false
not_false e = cc

loop_mask :
    block_exit false false (node (loop (node next_one)))
    ≡ some (do_exit condition (continue_exit none))
unfolding block_exit
loop_mask = refl

loop_lowered : pointer_lowered false (node (loop (node next_one))) ≡ true
unfolding pointer_lowered
loop_lowered = refl

block_exit_total_example :
    (m : Mask) × (block_exit false true (node (loop (node next_one))) ≡ some m)
block_exit_total_example = block_exit_total false true (node (loop (node next_one))) loop_lowered

abbrev branch_mask : Mask
branch_mask =
    union (union (can_throw condition) (break_exit none))
      (union (only return_) (can_throw_option none))

branch_exits : block_exit false false (node branch) ≡ some branch_mask
unfolding block_exit
branch_exits = refl

branch_breaks : Ends (node branch) break_
branch_breaks = ran (if_true not_false (ran (breaks refl)))

do_forgets_break_example :
    (r : Mask) × (statement_exit false false (loop (node branch)) ≡ some r)
    × (r fallthru ≡ false)
    × Exits (loop (node branch)) fallthru
unfolding only break_exit can_throw can_throw_option
do_forgets_break_example =
    do_forgets_break false (record { endloc = 0 }) condition branch_mask branch_exits refl refl
      branch_breaks

abbrev maybe_mask : Mask
maybe_mask = union (union (can_throw condition) (break_exit none)) (only fallthru)

maybe_exits : statement_exit false false maybe_break ≡ some maybe_mask
unfolding block_exit
maybe_exits = refl

leave_exits : statement_exit false false leave ≡ some (union (only return_) (can_throw_option none))
unfolding block_exit
leave_exits = refl

unrolled_forgets_break_example :
    (r : Mask) × (statement_exit false false
        (unrolled_loop_statement (cons (node maybe_break) (cons (node leave) nil)))
      ≡ some r)
    × (r fallthru ≡ false)
    × Exits (unrolled_loop_statement (cons (node maybe_break) (cons (node leave) nil))) fallthru
unfolding only can_throw_option
unrolled_forgets_break_example =
    unrolled_forgets_break false maybe_mask (union (only return_) (can_throw_option none))
      maybe_exits leave_exits refl (if_true not_false (ran (breaks refl)))

-- `do { do { continue label; } while (true); } while (condition);`, where the label is that of the
-- outer loop: it can fall through, and its mask is `BE.goto_` alone.
abbrev always : Expression
always = record {
  is_halt = false;
  is_assert_false = false;
  is_noreturn = false;
  to_bool = some true;
  has_code = true;
  throws_exception = false;
  throws_error = false;
  is_error_exception = false;
}

abbrev next_outer : Statement
next_outer = continue_statement (record { ident = some 1 })

abbrev inner_loop : Statement
inner_loop = do_statement (record { endloc = 0 }) (node next_outer) always

outer_loop-run : number (block_exit false false (node (loop (node inner_loop)))) ≡ 8
unfolding block_exit value has_value only
outer_loop-run = refl

label_given : ◌≢◌ {A = Option ℕ} (some 1) none
label_given e = cc

inner_jumps : Ends (node inner_loop) goto_
inner_jumps = ran (do_passes jumps (ran (continues_label label_given)))

outer_loop-Exits : Exits (loop (node inner_loop)) fallthru
unfolding walk_pointer is_labelled_continue
outer_loop-Exits = do_continued refl inner_jumps not_constant

-- `if (0) { label: return; } else { goto label; }`
abbrev never : Expression
never = record {
  is_halt = false;
  is_assert_false = false;
  is_noreturn = false;
  to_bool = some false;
  has_code = true;
  throws_exception = false;
  throws_error = false;
  is_error_exception = false;
}

abbrev back : Statement
back = goto_statement (record {
  ident = 0;
  label = 0;
  try_body = 0;
  tf = 0;
  os = 0;
  last_var = 0;
  in_ctfe_block = false;
})

abbrev label_fields : LabelStatement
label_fields = record {
  ident = 0;
  try_body = 0;
  tf = 0;
  os = 0;
  last_var = 0;
  goto_target = 0;
  extra = 0;
  breaks = false;
  in_ctfe_block = false;
}

abbrev marked : Statement
marked = label_statement label_fields (node leave)

abbrev skipped_label : Statement
skipped_label = if_statement (record { param = 0; endloc = 0 }) never (node marked) (node back)

skipped_label-run : number (block_exit false false (node skipped_label)) ≡ 8
unfolding block_exit value
skipped_label-run = refl

skipped_label-irregular : regular_pointer false (node skipped_label) ≡ false
unfolding regular_pointer walk is_target has_value
skipped_label-irregular = refl

if_forgets_label_example :
    (r : Mask) × (statement_exit false false skipped_label ≡ some r)
    × (r return_ ≡ false)
    × Exits skipped_label return_
unfolding only can_throw block_exit
if_forgets_label_example =
    if_forgets_label false (record { param = 0; endloc = 0 }) label_fields never (only goto_) refl
      refl refl (ran returned)

has_break_lem_example : do_exit condition (continue_exit none) break_ ≡ false
unfolding has_break init_lacks statement_exit block_exit
has_break_lem_example =
    has_break_lem false false (loop (node next_one)) (do_exit condition (continue_exit none)) refl
      refl loop_mask
