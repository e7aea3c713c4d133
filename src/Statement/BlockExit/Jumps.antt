-- ===== src/Statement/BlockExit/Jumps.antt =====
-- `hasBreak` and `hasContinue` of compiler/src/dmd/statement.d against `blockExit` of
-- compiler/src/dmd/blockexit.d.
use dmd.Prelude.{
  ◌≡◌, refl, subst, Bool, true, false, not, Option, none, some, ◌>>=◌, if◌then◌else◌, arith,
}
use dmd.Statement.Tree.{
  Expression, Statement, unrolled_loop_statement, scope_statement, while_statement, do_statement,
  for_statement, foreach_statement, foreach_range_statement, switch_statement, Nullable, null, node,
  Statements, nil, cons,
}
use dmd.Statement.Queries.{has_break, has_continue, has_break_pointer, has_continue_pointer}
use dmd.Statement.Mask.{Exit, fallthru, break_, continue_, Mask, only}
use dmd.Statement.BlockExit.{
  statement_exit, block_exit, unrolled_exit, unrolled_step, do_exit, for_exit, for_body_exit,
  for_condition, for_enters, foreach_exit, switch_exit, can_throw, can_throw_option, after_errors,
}
use dmd.Statement.BlockExit.Masks.{only-ne}
use dmd.Statement.BlockExit.Regular.{of_mask}

-- The mask, if there is one, has not the flag `x`.
data Lacks (x : Exit) : Option Mask → Type 0 where
  lacks : {m : Mask} → m x ≡ false → Lacks x (some m)
  no_mask : Lacks x none

Lacks-bind :
    {x : Exit} (o : Option Mask) {k : Mask → Option Mask}
    → ((m : Mask) → Lacks x (k m))
    → Lacks x (o >>= λ m. k m)
Lacks-bind none g = no_mask
Lacks-bind (some m) g = g m

-- The part of the mask that is known to lack the flag.
Lacks-then :
    {x : Exit} {o : Option Mask} {k : Mask → Option Mask}
    → ((m : Mask) → m x ≡ false → Lacks x (k m))
    → Lacks x o
    → Lacks x (o >>= λ m. k m)
Lacks-then g (lacks {m} h) = g m h
Lacks-then g no_mask = no_mask

Lacks-if :
    {x : Exit} (b : Bool) {o p : Option Mask} → Lacks x o → Lacks x p → Lacks x (if b then o else p)
Lacks-if true g h = g
Lacks-if false g h = h

Lacks-lem : {x : Exit} {o : Option Mask} (m : Mask) → Lacks x o → o ≡ some m → m x ≡ false
Lacks-lem {x} m (lacks h) e =
    subst (λ (o : Option Mask). elim o [ none ↦ true | some r ↦ r x ] ≡ false) e h
Lacks-lem m no_mask e = cc

-- The two flags that a loop takes.
data Jump : Exit → Type 0 where
  breaking : Jump break_
  continuing : Jump continue_

do_exit-Jump : {x : Exit} (c : Expression) (r : Mask) → Jump x → do_exit c r x ≡ false
unfolding do_exit only
do_exit-Jump c r breaking = ground arith
do_exit-Jump c r continuing = ground arith

foreach_exit-Jump : {x : Exit} (a : Expression) (r : Mask) → Jump x → foreach_exit a r x ≡ false
unfolding foreach_exit only can_throw
foreach_exit-Jump a r breaking = ground arith
foreach_exit-Jump a r continuing = ground arith

for_condition-Jump :
    {x : Exit} (c : Option Expression) (m : Mask)
    → Jump x
    → m x ≡ false
    → for_condition c m x ≡ false
unfolding for_condition can_throw
for_condition-Jump none m breaking h = ground arith
for_condition-Jump none m continuing h = ground arith
for_condition-Jump (some c) m breaking h = ground arith
for_condition-Jump (some c) m continuing h = ground arith

can_throw_option-Jump : {x : Exit} (n : Option Expression) → Jump x → can_throw_option n x ≡ false
unfolding can_throw_option can_throw
can_throw_option-Jump none j = refl
can_throw_option-Jump (some n) breaking = refl
can_throw_option-Jump (some n) continuing = refl

for_body_exit-Jump :
    {x : Exit} (n : Option Expression) (m r : Mask)
    → Jump x
    → m x ≡ false
    → for_body_exit n m r x ≡ false
unfolding for_body_exit only
for_body_exit-Jump n m r breaking h = ground (arith, can_throw_option-Jump n breaking)
for_body_exit-Jump n m r continuing h = ground (arith, can_throw_option-Jump n continuing)

for_exit-Jump :
    {x : Exit} (c n : Option Expression) (o : Option Mask) (m : Mask)
    → Jump x
    → m x ≡ false
    → Lacks x (for_exit c n o m)
unfolding for_exit
for_exit-Jump c n o m j h =
    let t = for_condition-Jump c m j h in
    Lacks-if (not (m fallthru)) (lacks h)
      (Lacks-if (for_enters c) (Lacks-bind o (λ r. lacks (for_body_exit-Jump n _ r j t))) (lacks t))

unrolled_step-Jump : {x : Exit} (m r : Mask) → Jump x → m x ≡ false → unrolled_step m r x ≡ false
unfolding unrolled_step only
unrolled_step-Jump m r breaking h = ground arith
unrolled_step-Jump m r continuing h = ground arith

switch_exit-Jump : (c : Expression) (r : Mask) → switch_exit c r break_ ≡ false
unfolding switch_exit only can_throw
switch_exit-Jump c r = ground arith

after_errors-Jump : {x : Exit} (errors : Bool) → Jump x → Lacks x (after_errors errors)
unfolding after_errors only
after_errors-Jump true breaking = lacks refl
after_errors-Jump true continuing = lacks refl
after_errors-Jump false j = no_mask

module _ (errors sink : Bool) where
  unrolled_exit-Jump :
      {x : Exit} (ss : Statements) (m : Mask)
      → Jump x
      → m x ≡ false
      → Lacks x (unrolled_exit errors sink ss m)
  unfolding unrolled_exit
  unrolled_exit-Jump nil m j h = lacks h
  unrolled_exit-Jump (cons null ss) m j h = unrolled_exit-Jump ss m j h
  unrolled_exit-Jump (cons (node s) ss) m j h =
      Lacks-bind (statement_exit errors sink s)
        (λ r. unrolled_exit-Jump ss (unrolled_step m r) j (unrolled_step-Jump m r j h))

  -- The initialisation of a `for` loop, which stands outside the loop, lacks the flag.
  unfoldable mutual
    pub init_lacks : Exit → Statement → Bool
    init_lacks x (scope_statement _ s) = init_lacks_pointer x s
    init_lacks x (for_statement _ i _ _ _) = of_mask (λ m. not (m x)) (block_exit errors sink i)
    init_lacks x _ = true

    pub init_lacks_pointer : Exit → Nullable → Bool
    init_lacks_pointer x null = true
    init_lacks_pointer x (node s) = init_lacks x s

  Lacks-of_mask : {x : Exit} (o : Option Mask) → of_mask (λ m. not (m x)) o ≡ true → Lacks x o
  Lacks-of_mask none h = no_mask
  Lacks-of_mask (some m) h = lacks (ground arith)

  mutual
    unfolding statement_exit has_break init_lacks

    break-Lacks :
        (s : Statement)
        → has_break s ≡ true
        → init_lacks break_ s ≡ true
        → Lacks break_ (statement_exit errors sink s)
    break-Lacks (unrolled_loop_statement ss) h q =
        unrolled_exit-Jump ss _ breaking (only-ne fallthru break_ (λ (e : break_ ≡ fallthru). cc))
    break-Lacks (scope_statement _ s) h q = break-Lacks_pointer s h q
    break-Lacks (while_statement _ _ _) h q = after_errors-Jump errors breaking
    break-Lacks (do_statement _ b c) h q =
        Lacks-bind (block_exit errors sink b) (λ r. lacks (do_exit-Jump c r breaking))
    break-Lacks (for_statement _ i c n b) h q =
        Lacks-then (λ m t. for_exit-Jump c n _ m breaking t)
          (Lacks-of_mask (block_exit errors sink i) q)
    break-Lacks (foreach_statement _ a b) h q =
        Lacks-bind (block_exit errors sink b) (λ r. lacks (foreach_exit-Jump a r breaking))
    break-Lacks (foreach_range_statement _ _ _ _) h q = after_errors-Jump errors breaking
    break-Lacks (switch_statement _ c b) h q =
        Lacks-bind (block_exit errors sink b) (λ r. lacks (switch_exit-Jump c r))
    break-Lacks _ h q = cc

    break-Lacks_pointer :
        (p : Nullable)
        → has_break_pointer p ≡ true
        → init_lacks_pointer break_ p ≡ true
        → Lacks break_ (block_exit errors sink p)
    break-Lacks_pointer null h q = cc
    break-Lacks_pointer (node s) h q = break-Lacks s h q

  mutual
    unfolding statement_exit has_continue init_lacks

    continue-Lacks :
        (s : Statement)
        → has_continue s ≡ true
        → init_lacks continue_ s ≡ true
        → Lacks continue_ (statement_exit errors sink s)
    continue-Lacks (unrolled_loop_statement ss) h q =
        unrolled_exit-Jump ss _ continuing
          (only-ne fallthru continue_ (λ (e : continue_ ≡ fallthru). cc))
    continue-Lacks (scope_statement _ s) h q = continue-Lacks_pointer s h q
    continue-Lacks (while_statement _ _ _) h q = after_errors-Jump errors continuing
    continue-Lacks (do_statement _ b c) h q =
        Lacks-bind (block_exit errors sink b) (λ r. lacks (do_exit-Jump c r continuing))
    continue-Lacks (for_statement _ i c n b) h q =
        Lacks-then (λ m t. for_exit-Jump c n _ m continuing t)
          (Lacks-of_mask (block_exit errors sink i) q)
    continue-Lacks (foreach_statement _ a b) h q =
        Lacks-bind (block_exit errors sink b) (λ r. lacks (foreach_exit-Jump a r continuing))
    continue-Lacks (foreach_range_statement _ _ _ _) h q = after_errors-Jump errors continuing
    continue-Lacks _ h q = cc

    continue-Lacks_pointer :
        (p : Nullable)
        → has_continue_pointer p ≡ true
        → init_lacks_pointer continue_ p ≡ true
        → Lacks continue_ (block_exit errors sink p)
    continue-Lacks_pointer null h q = cc
    continue-Lacks_pointer (node s) h q = continue-Lacks s h q

  -- Where `hasBreak` holds of a statement, its mask has no `break`, provided that the
  -- initialisation of its `for` loop, if it is one, has none.
  pub has_break_lem :
      (s : Statement) (m : Mask)
      → has_break s ≡ true
      → init_lacks break_ s ≡ true
      → statement_exit errors sink s ≡ some m
      → m break_ ≡ false
  has_break_lem s m h q e = Lacks-lem m (break-Lacks s h q) e

  -- Where `hasContinue` holds of a statement, its mask has no `continue`, provided that the
  -- initialisation of its `for` loop, if it is one, has none.
  pub has_continue_lem :
      (s : Statement) (m : Mask)
      → has_continue s ≡ true
      → init_lacks continue_ s ≡ true
      → statement_exit errors sink s ≡ some m
      → m continue_ ≡ false
  has_continue_lem s m h q e = Lacks-lem m (continue-Lacks s h q) e
