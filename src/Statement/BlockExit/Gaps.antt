-- ===== src/Statement/BlockExit/Gaps.antt =====
-- The statements that `blockExit` (compiler/src/dmd/blockexit.d) gets wrong: `visitDo` and
-- `visitUnrolledLoop` forget a `break`, and `visitIf` a label in a branch that its condition skips.
use dmd.Prelude.{◌≡◌, refl, Bool, true, false, ◌||◌, some, arith}
use dmd.Statement.Fields.{DoStatement, IfStatement, LabelStatement}
use dmd.Statement.Tree.{
  Expression, Statement, do_statement, unrolled_loop_statement, if_statement, label_statement,
  Nullable, node, nil, cons,
}
use dmd.Statement.Mask.{Exit, fallthru, break_, continue_, Mask, only, union, mask_eq}
use dmd.Statement.BlockExit.{
  statement_exit, block_exit, unrolled_step, do_exit, if_exit, can_throw, has_value,
}
use dmd.Statement.Queries.{walk, is_target}
use dmd.Statement.BlockExit.Executions.{
  Ends, Exits, do_breaks, unrolled_loop, broken, targeted, label_, ran, if_true_entered,
}
use dmd.Statement.BlockExit.Regular.{goes_on}

-- A `do` loop whose body has a mask with `break`, with no `fallthru` and no `continue`, and not
-- `break` alone, and can end in `break`: the loop can fall through, and its mask has no `fallthru`.
pub do_forgets_break :
    (errors : Bool) (f : DoStatement) {b : Nullable} (c : Expression) (m : Mask)
    → block_exit errors false b ≡ some m
    → (m fallthru || m continue_) ≡ false
    → mask_eq m (only break_) ≡ false
    → Ends b break_
    → (r : Mask) × (statement_exit errors false (do_statement f b c) ≡ some r)
      × (r fallthru ≡ false)
      × Exits (do_statement f b c) fallthru
unfolding statement_exit do_exit only
do_forgets_break errors f c m e g n d = (do_exit c m, rw e refl, ground arith, do_breaks d)

-- An unrolled loop of an iteration that can end in `break`, and one whose mask has neither
-- `fallthru`, `continue` nor `break`: the loop can fall through, and its mask has no `fallthru`.
pub unrolled_forgets_break :
    (errors : Bool) {s t : Statement} (m n : Mask)
    → statement_exit errors false s ≡ some m
    → statement_exit errors false t ≡ some n
    → goes_on n ≡ false
    → Exits s break_
    → (r : Mask) × (statement_exit errors false
          (unrolled_loop_statement (cons (node s) (cons (node t) nil)))
        ≡ some r)
      × (r fallthru ≡ false)
      × Exits (unrolled_loop_statement (cons (node s) (cons (node t) nil))) fallthru
unfolding statement_exit unrolled_step only
unrolled_forgets_break errors m n e k g d = (
  unrolled_step (unrolled_step (only fallthru) m) n,
  rw (e, k) refl,
  ground arith,
  unrolled_loop (broken d),
)

label_targeted : (g : LabelStatement) (s : Nullable) → targeted (node (label_statement g s)) ≡ true
unfolding walk is_target
label_targeted g s = ground arith

-- An `if` whose condition is constantly false, over a labelled statement that can end in an exit
-- that neither the `else` branch nor the condition has: from the label on, the `if` can end in it,
-- and its mask leaves it out.
pub if_forgets_label :
    (errors : Bool) (f : IfStatement) (g : LabelStatement) (c : Expression) {s b : Nullable}
    {x : Exit} (m : Mask)
    → c.to_bool ≡ some false
    → block_exit errors false b ≡ some m
    → (can_throw c x || m x) ≡ false
    → Ends s x
    → (r : Mask) × (statement_exit errors false (if_statement f c (node (label_statement g s)) b)
        ≡ some r)
      × (r x ≡ false)
      × Exits (if_statement f c (node (label_statement g s)) b) x
unfolding statement_exit if_exit has_value
if_forgets_label errors f g c {s = s} m z e n d = (
  union (can_throw c) m,
  rw (z, e) refl,
  n,
  if_true_entered (label_targeted g s) (ran (label_ d)),
)
