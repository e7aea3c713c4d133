-- ===== src/Statement/BlockExit/Total.antt =====
-- Where `blockExit` (compiler/src/dmd/blockexit.d) meets none of its assertions.
use dmd.Prelude.{
  ◌≡◌, refl, Bool, true, false, ◌&&◌, ◌||◌, not, Option, some, ◌>>=◌, if◌then◌else◌, &&-left,
  &&-right,
}
use dmd.Statement.Tree.{
  Expression, Statement, error_statement, exp_statement, dtor_exp_statement, mixin_statement,
  compound_statement, compound_asm_statement, unrolled_loop_statement, scope_statement,
  while_statement, do_statement, for_statement, foreach_statement, foreach_range_statement,
  if_statement, conditional_statement, pragma_statement, static_assert_statement, switch_statement,
  case_statement, default_statement, goto_default_statement, goto_case_statement,
  switch_error_statement, return_statement, break_statement, continue_statement,
  synchronized_statement, with_statement, try_catch_statement, try_finally_statement,
  scope_guard_statement, throw_statement, goto_statement, label_statement, import_statement,
  Nullable, null, node, Statements, nil, cons, Catches, no_catch, catch_cons,
}
use dmd.Statement.Queries.{come_from}
use dmd.Statement.Mask.{fallthru, Mask, no_exit, only}
use dmd.Statement.BlockExit.{
  statement_exit, block_exit, compound_exit, unrolled_exit, catches_exit, after_errors, for_exit,
  if_exit, is_terror, has_value, for_enters, unrolled_step,
}

module _ (errors : Bool) where
  -- What is left after semantic analysis without errors; with errors, also the loops and mixins
  -- that it could not lower. A `try` has a body.
  unfoldable mutual
    pub lowered : Statement → Bool
    lowered error_statement = true
    lowered (exp_statement _) = true
    lowered (dtor_exp_statement _ _) = true
    lowered (mixin_statement _) = errors
    lowered (compound_statement ss) = all_lowered ss
    lowered (compound_asm_statement _ _) = true
    lowered (unrolled_loop_statement ss) = all_lowered ss
    lowered (scope_statement _ s) = pointer_lowered s
    lowered (while_statement _ _ _) = errors
    lowered (do_statement _ b _) = pointer_lowered b
    lowered (for_statement _ i _ _ b) = pointer_lowered i && pointer_lowered b
    lowered (foreach_statement _ _ b) = pointer_lowered b
    lowered (foreach_range_statement _ _ _ _) = errors
    lowered (if_statement _ _ a b) = pointer_lowered a && pointer_lowered b
    lowered (conditional_statement _ a b) = pointer_lowered a && pointer_lowered b
    lowered (pragma_statement _ _) = true
    lowered (static_assert_statement _) = true
    lowered (switch_statement _ _ b) = pointer_lowered b
    lowered (case_statement _ _ s) = pointer_lowered s
    lowered (default_statement _ s) = pointer_lowered s
    lowered (goto_default_statement _) = true
    lowered (goto_case_statement _ _) = true
    lowered (switch_error_statement _) = true
    lowered (return_statement _ _) = true
    lowered (break_statement _) = true
    lowered (continue_statement _) = true
    lowered (synchronized_statement _ b) = pointer_lowered b
    lowered (with_statement _ _ b) = pointer_lowered b
    lowered (try_catch_statement _ null _) = false
    lowered (try_catch_statement _ (node b) cs) = lowered b && handlers_lowered cs
    lowered (try_finally_statement _ b f) = pointer_lowered b && pointer_lowered f
    lowered (scope_guard_statement _ _) = true
    lowered (throw_statement _ _) = true
    lowered (goto_statement _) = true
    lowered (label_statement _ s) = pointer_lowered s
    lowered (import_statement _) = true
    lowered _ = false

    pub pointer_lowered : Nullable → Bool
    pointer_lowered null = true
    pointer_lowered (node s) = lowered s

    pub all_lowered : Statements → Bool
    all_lowered nil = true
    all_lowered (cons s ss) = pointer_lowered s && all_lowered ss

    pub handlers_lowered : Catches → Bool
    handlers_lowered no_catch = true
    handlers_lowered (catch_cons _ h cs) = pointer_lowered h && handlers_lowered cs

-- There is a mask.
abbrev Gives : Option Mask → Type 0
Gives o = (m : Mask) × (o ≡ some m)

Gives-bind :
    {o : Option Mask} {k : Mask → Option Mask}
    → ((m : Mask) → Gives (k m))
    → Gives o
    → Gives (o >>= λ m. k m)
Gives-bind g (m, e) = rw e (g m)

Gives-if : (b : Bool) {o p : Option Mask} → Gives o → Gives p → Gives (if b then o else p)
Gives-if true g h = g
Gives-if false g h = h

for_exit-Gives :
    (c n : Option Expression) {o : Option Mask} (m : Mask) → Gives o → Gives (for_exit c n o m)
unfolding for_exit
for_exit-Gives c n m g =
    Gives-if (not (m fallthru)) (m, refl)
      (Gives-if (for_enters c) (Gives-bind (λ r. (_, refl)) g) (_, refl))

if_exit-Gives : (c : Expression) {o p : Option Mask} → Gives o → Gives p → Gives (if_exit c o p)
unfolding if_exit
if_exit-Gives c g h = Gives-if (has_value c.to_bool true) (Gives-bind (λ r. (_, refl)) g) (
    Gives-if (has_value c.to_bool false) (Gives-bind (λ r. (_, refl)) h)
      (Gives-bind (λ r. Gives-bind (λ q. (_, refl)) h) g))

after_errors-Gives : (errors : Bool) → errors ≡ true → Gives (after_errors errors)
unfolding after_errors
after_errors-Gives true h = (_, refl)
after_errors-Gives false h = cc

module _ (errors : Bool) where
  mutual
    unfolding statement_exit lowered

    statement_exit-Gives :
        (s : Statement) (sink : Bool)
        → lowered errors s ≡ true
        → Gives (statement_exit errors sink s)
    statement_exit-Gives error_statement sink k = (_, refl)
    statement_exit-Gives (mixin_statement _) sink k = after_errors-Gives errors k
    statement_exit-Gives (compound_statement ss) sink k =
        compound_exit-Gives ss sink (only fallthru) k
    statement_exit-Gives (unrolled_loop_statement ss) sink k =
        unrolled_exit-Gives ss sink (only fallthru) k
    statement_exit-Gives (scope_statement _ s) sink k = block_exit-Gives s sink k
    statement_exit-Gives (while_statement _ _ _) sink k = after_errors-Gives errors k
    statement_exit-Gives (do_statement _ b _) sink k =
        Gives-bind (λ r. (_, refl)) (block_exit-Gives b sink k)
    statement_exit-Gives (for_statement _ i c n b) sink k =
        let body = block_exit-Gives b sink (&&-right _ _ k) in
        Gives-bind (λ m. for_exit-Gives c n m body) (block_exit-Gives i sink (&&-left _ _ k))
    statement_exit-Gives (foreach_statement _ _ b) sink k =
        Gives-bind (λ r. (_, refl)) (block_exit-Gives b sink k)
    statement_exit-Gives (foreach_range_statement _ _ _ _) sink k = after_errors-Gives errors k
    statement_exit-Gives (if_statement _ c a b) sink k =
        if_exit-Gives c (block_exit-Gives a sink (&&-left _ _ k))
          (block_exit-Gives b sink (&&-right _ _ k))
    statement_exit-Gives (conditional_statement _ a null) sink k =
        block_exit-Gives a sink (&&-left _ _ k)
    statement_exit-Gives (conditional_statement _ a (node b)) sink k =
        let other_branch = statement_exit-Gives b sink (&&-right _ _ k) in
        Gives-bind (λ r. Gives-bind (λ q. (_, refl)) other_branch)
          (block_exit-Gives a sink (&&-left _ _ k))
    statement_exit-Gives (switch_statement _ _ b) sink k =
        Gives-bind (λ r. (_, refl)) (block_exit-Gives b sink k)
    statement_exit-Gives (case_statement _ _ s) sink k = block_exit-Gives s sink k
    statement_exit-Gives (default_statement _ s) sink k = block_exit-Gives s sink k
    statement_exit-Gives (synchronized_statement _ b) sink k = block_exit-Gives b sink k
    statement_exit-Gives (with_statement _ _ b) sink k =
        Gives-bind (λ r. (_, refl)) (block_exit-Gives b sink k)
    statement_exit-Gives (try_catch_statement _ null cs) sink k = cc
    statement_exit-Gives (try_catch_statement _ (node b) cs) sink k =
        let handlers = catches_exit-Gives cs sink (&&-right _ _ k) in
        Gives-bind (λ r. handlers r no_exit) (statement_exit-Gives b false (&&-left _ _ k))
    statement_exit-Gives (try_finally_statement _ b f) sink k =
        let after = block_exit-Gives f false (&&-right _ _ k) in
        Gives-bind (λ r. Gives-bind (λ q. (_, refl)) after)
          (block_exit-Gives b false (&&-left _ _ k))
    statement_exit-Gives (label_statement _ s) sink k =
        Gives-bind (λ r. (_, refl)) (block_exit-Gives s sink k)
    statement_exit-Gives (exp_statement _) sink k = (_, refl)
    statement_exit-Gives (dtor_exp_statement _ _) sink k = (_, refl)
    statement_exit-Gives (compound_asm_statement _ _) sink k = (_, refl)
    statement_exit-Gives (pragma_statement _ _) sink k = (_, refl)
    statement_exit-Gives (static_assert_statement _) sink k = (_, refl)
    statement_exit-Gives (goto_default_statement _) sink k = (_, refl)
    statement_exit-Gives (goto_case_statement _ _) sink k = (_, refl)
    statement_exit-Gives (switch_error_statement _) sink k = (_, refl)
    statement_exit-Gives (return_statement _ _) sink k = (_, refl)
    statement_exit-Gives (break_statement _) sink k = (_, refl)
    statement_exit-Gives (continue_statement _) sink k = (_, refl)
    statement_exit-Gives (scope_guard_statement _ _) sink k = (_, refl)
    statement_exit-Gives (throw_statement _ _) sink k = (_, refl)
    statement_exit-Gives (goto_statement _) sink k = (_, refl)
    statement_exit-Gives (import_statement _) sink k = (_, refl)
    statement_exit-Gives _ sink k = cc

    block_exit-Gives :
        (p : Nullable) (sink : Bool)
        → pointer_lowered errors p ≡ true
        → Gives (block_exit errors sink p)
    block_exit-Gives null sink k = (_, refl)
    block_exit-Gives (node s) sink k = statement_exit-Gives s sink k

    compound_exit-Gives :
        (ss : Statements) (sink : Bool) (m : Mask)
        → all_lowered errors ss ≡ true
        → Gives (compound_exit errors sink ss m)
    compound_exit-Gives nil sink m k = (m, refl)
    compound_exit-Gives (cons null ss) sink m k = compound_exit-Gives ss sink m k
    compound_exit-Gives (cons (node s) ss) sink m k =
        Gives-if (m fallthru || come_from s)
          (Gives-bind (λ r. compound_exit-Gives ss sink _ (&&-right _ _ k))
            (statement_exit-Gives s sink (&&-left _ _ k)))
          (compound_exit-Gives ss sink m (&&-right _ _ k))

    unrolled_exit-Gives :
        (ss : Statements) (sink : Bool) (m : Mask)
        → all_lowered errors ss ≡ true
        → Gives (unrolled_exit errors sink ss m)
    unrolled_exit-Gives nil sink m k = (m, refl)
    unrolled_exit-Gives (cons null ss) sink m k = unrolled_exit-Gives ss sink m k
    unrolled_exit-Gives (cons (node s) ss) sink m k =
        Gives-bind (λ r. unrolled_exit-Gives ss sink (unrolled_step m r) (&&-right _ _ k))
          (statement_exit-Gives s sink (&&-left _ _ k))

    catches_exit-Gives :
        (cs : Catches) (sink : Bool)
        → handlers_lowered errors cs ≡ true
        → (m t : Mask) → Gives (catches_exit errors sink cs m t)
    catches_exit-Gives no_catch sink k m t = (_, refl)
    catches_exit-Gives (catch_cons c h cs) sink k m t =
        let rest = catches_exit-Gives cs sink (&&-right _ _ k) in
        Gives-if (is_terror c.type_) (rest m t)
          (Gives-bind (λ r. rest _ _) (block_exit-Gives h sink (&&-left _ _ k)))

-- `blockExit` gives a mask for each statement of the kinds that semantic analysis leaves, with and
-- without a sink for errors.
pub block_exit_total :
    (errors sink : Bool) (p : Nullable)
    → pointer_lowered errors p ≡ true
    → (m : Mask) × (block_exit errors sink p ≡ some m)
block_exit_total errors sink p k = block_exit-Gives errors p sink k
