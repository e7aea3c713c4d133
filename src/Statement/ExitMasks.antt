-- ===== src/Statement/ExitMasks.antt =====
-- The masks of `blockExit` (compiler/src/dmd/blockexit.d), kind by kind: what a method for a class of
-- statements makes of the masks of its parts.
use dmd.Prelude.{Bool, true, false, ◌&&◌, ◌||◌, not, Option, none, some, ◌>>=◌, if◌then◌else◌}
use dmd.Statement.Fields.{Ptr, Catch, CatchType, terror, object, throwable, exception}
use dmd.Statement.Tree.{Expression}
use dmd.Statement.Mask.{
  fallthru, throw_, return_, goto_, halt, break_, continue_, errthrow, Mask, no_exit, only, union,
  minus, mask_eq,
}

-- `toBool().hasValue(b)`
unfoldable pub has_value : Option Bool → Bool → Bool
has_value none b = false
has_value (some true) b = b
has_value (some false) b = not b

-- `canThrow`
unfoldable pub can_throw : Expression → Mask
can_throw e throw_ = e.throws_exception
can_throw e errthrow = e.throws_error
can_throw e _ = false

unfoldable pub can_throw_option : Option Expression → Mask
can_throw_option none = no_exit
can_throw_option (some e) = can_throw e

-- `visitExp`
unfoldable pub exp_exit : Option Expression → Mask
unfolding can_throw only
exp_exit none = only fallthru
exp_exit (some e) =
    if e.is_halt
    then only halt
    else if e.is_assert_false
    then only halt
    else union (if e.is_noreturn then only halt else only fallthru) (can_throw e)

-- `visitDo`, from the mask of the body.
unfoldable pub do_exit : Expression → Mask → Mask
unfolding has_value can_throw only
do_exit c r =
    if mask_eq r (only break_)
    then only fallthru
    else minus (condition (if r continue_ then union r (only fallthru) else r)) jumps
  where
    jumps : Mask
    jumps = union (only break_) (only continue_)

    endless : Mask → Bool
    endless m = not (m break_) && has_value c.to_bool true

    condition : Mask → Mask
    condition m =
        if m fallthru
        then (let t = union m (can_throw c) in if endless t then minus t (only fallthru) else t)
        else m

-- The part of `visitFor` behind the condition: `m` is the mask so far, `r` that of the body.
unfoldable pub for_body_exit : Option Expression → Mask → Mask → Mask
unfolding can_throw_option only
for_body_exit increment m r = union (union ended (minus r left)) (can_throw_option increment)
  where
    ended : Mask
    ended = if r break_ || r goto_ then union m (only fallthru) else m

    left : Mask
    left = union (only fallthru) (union (only break_) (only continue_))

-- `visitFor`: the mask behind the condition.
unfoldable pub for_condition : Option Expression → Mask → Mask
unfolding has_value can_throw only
for_condition none m = minus m (only fallthru)
for_condition (some c) m =
    let t = union m (can_throw c) in if has_value c.to_bool true then minus t (only fallthru) else t

-- `visitFor`: the condition is not constantly false.
unfoldable pub for_enters : Option Expression → Bool
unfolding has_value
for_enters none = true
for_enters (some c) = has_value c.to_bool true || not (has_value c.to_bool false)

-- `visitFor`, from the masks of the initialisation and of the body.
unfoldable pub for_exit : Option Expression → Option Expression → Option Mask → Mask → Option Mask
unfolding for_condition for_enters for_body_exit
for_exit condition increment body m =
    if not (m fallthru)
    then some m
    else if for_enters condition
    then (do r ← body; some (for_body_exit increment (for_condition condition m) r))
    else some (for_condition condition m)

-- `visitForeach`, from the mask of the body.
unfoldable pub foreach_exit : Expression → Mask → Mask
unfolding can_throw only
foreach_exit aggr r =
    union (union (only fallthru) (can_throw aggr)) (minus r (union (only break_) (only continue_)))

-- `visitIf`, from the masks of the branches.
unfoldable pub if_exit : Expression → Option Mask → Option Mask → Option Mask
unfolding has_value can_throw
if_exit c a b =
    if has_value c.to_bool true
    then (do r ← a; some (union (can_throw c) r))
    else if has_value c.to_bool false
    then (do r ← b; some (union (can_throw c) r))
    else (do r ← a; q ← b; some (union (union (can_throw c) r) q))

-- `visitSwitch`, from the mask of the body.
unfoldable pub switch_exit : Expression → Mask → Mask
unfolding can_throw only
switch_exit c r =
    let m = union (can_throw c) r in
    if m break_ then minus (union m (only fallthru)) (only break_) else m

-- `visitTryFinally`, from the masks of the body and of the `finally` block.
unfoldable pub try_finally_exit : Mask → Mask → Mask
unfolding only
try_finally_exit b f =
    let f' = if mask_eq b (only halt) then no_exit else f in
    let b' = if mask_eq f' (only halt) then no_exit else b in
    union (if f' fallthru then b' else minus b' (only fallthru)) (minus f' (only fallthru))

-- An iteration of the loop of `visitUnrolledLoop`: `m` is the mask so far, `r` that of a statement.
unfoldable pub unrolled_step : Mask → Mask → Mask
unfolding only
unrolled_step m r =
    let t = union m (minus r (union (only break_) (union (only continue_) (only fallthru)))) in
    if r fallthru || (r continue_ || r break_) then t else minus t (only fallthru)

-- A catch of the class takes its exceptions out of the mask.
unfoldable pub caught : CatchType → Mask → Mask
unfolding only
caught object m = minus m (union (only throw_) (only errthrow))
caught throwable m = minus m (union (only throw_) (only errthrow))
caught exception m = minus m (only throw_)
caught _ m = m

-- An iteration of the loop of `visitTryCatch`: what the mask of the body becomes.
unfoldable pub catch_body_exit : Catch → Mask → Mask → Mask
unfolding caught
catch_body_exit c handler m = if c.internal_catch && handler fallthru then m else caught c.type_ m

-- What a handler adds.
unfoldable pub handler_exit : Catch → Mask → Mask
unfolding only
handler_exit c handler =
    if c.internal_catch && handler fallthru then minus handler (only fallthru) else handler

unfoldable pub is_terror : CatchType → Bool
is_terror terror = true
is_terror _ = false

-- `visitThrow` and `checkThrow`
unfoldable pub throw_exit : Bool → Expression → Mask
unfolding only
throw_exit internal e =
    if internal then only fallthru else if e.is_error_exception then only errthrow else only throw_

-- `visitCompoundAsm`
unfoldable pub asm_exit : Bool → Bool → Mask
unfolding only
asm_exit sink nothrow_ = if nothrow_ || sink then worst else union worst (only throw_)
  where
    worst : Mask
    worst = union (only fallthru) (union (only return_) (union (only goto_) (only halt)))

-- `visitWhile`, `visitForeachRange` and `visitMixin`: nothing but errors leaves such a statement.
unfoldable pub after_errors : Bool → Option Mask
unfolding only
after_errors errors = if errors then some (only fallthru) else none

-- `visitBreak`
unfoldable pub break_exit : Option Ptr → Mask
unfolding only
break_exit none = only break_
break_exit (some _) = only goto_

-- `visitContinue`
unfoldable pub continue_exit : Option Ptr → Mask
unfolding only
continue_exit none = only continue_
continue_exit (some _) = union (only continue_) (only goto_)
