-- ===== src/Statement/BlockExit/Loops.antt =====
-- The loops of `visitCompound`, `visitUnrolledLoop` and `visitTryCatch` in
-- compiler/src/dmd/blockexit.d: what later iterations keep of a mask.
use dmd.Prelude.{◌≡◌, ◌≢◌, Bool, true, false, ◌||◌, &&-left, &&-right, arith}
use dmd.Statement.Tree.{Nullable, null, node, Statements, nil, cons, Catches, no_catch, catch_cons}
use dmd.Statement.Queries.{come_from}
use dmd.Statement.Mask.{Exit, fallthru, Mask, union}
use dmd.Statement.BlockExit.{
  statement_exit, block_exit, compound_exit, unrolled_exit, catches_exit, unrolled_step,
  catch_body_exit, handler_exit, is_terror,
}
use dmd.Statement.BlockExit.Executions.{Thrown, Misses, none_left, missed}
use dmd.Statement.BlockExit.Masks.{
  only-ne, unrolled_keeps_lem, unrolled_falls_lem, catch_keeps_lem, catch_misses_lem,
}
use dmd.Statement.BlockExit.Regular.{all_go_on, goes_on, of_mask}
use dmd.Statement.BlockExit.Covers.{Covers, gave, Covers-any, Covers-if, Covers-of_mask}

module _ (errors : Bool) where
  pub compound_exit-later :
      (s : Nullable) (ss : Statements) (m : Mask) (x : Exit)
      → ((t : Mask) → Covers x (compound_exit errors false ss t))
      → Covers x (compound_exit errors false (cons s ss) m)
  unfolding compound_exit
  compound_exit-later null ss m x g = g m
  compound_exit-later (node s) ss m x g =
      Covers-if (m fallthru || come_from s)
        (λ _. Covers-any (statement_exit errors false s) (λ r. g _)) (λ _. g m)

  pub compound_exit-keeps :
      (ss : Statements) (m : Mask) (x : Exit)
      → x ≢ fallthru
      → m x ≡ true
      → Covers x (compound_exit errors false ss m)
  unfolding compound_exit
  compound_exit-keeps nil m x ne h = gave h
  compound_exit-keeps (cons null ss) m x ne h = compound_exit-keeps ss m x ne h
  compound_exit-keeps (cons (node s) ss) m x ne h =
      Covers-if (m fallthru || come_from s)
        (λ _.
          Covers-any (statement_exit errors false s)
            (λ r. compound_exit-keeps ss _ x ne (ground (arith, only-ne fallthru x ne))))
        (λ _. compound_exit-keeps ss m x ne h)

  pub unrolled_exit-keeps :
      (ss : Statements) (m : Mask) (x : Exit)
      → x ≢ fallthru
      → m x ≡ true
      → Covers x (unrolled_exit errors false ss m)
  unfolding unrolled_exit
  unrolled_exit-keeps nil m x ne h = gave h
  unrolled_exit-keeps (cons null ss) m x ne h = unrolled_exit-keeps ss m x ne h
  unrolled_exit-keeps (cons (node s) ss) m x ne h =
      Covers-any (statement_exit errors false s)
        (λ r. unrolled_exit-keeps ss (unrolled_step m r) x ne (unrolled_keeps_lem m r x ne h))

  -- After iterations that can all end, so can the loop.
  pub unrolled_exit-falls :
      (ss : Statements) (m : Mask)
      → all_go_on errors ss ≡ true
      → m fallthru ≡ true
      → Covers fallthru (unrolled_exit errors false ss m)
  unfolding unrolled_exit all_go_on
  unrolled_exit-falls nil m g h = gave h
  unrolled_exit-falls (cons null ss) m g h = unrolled_exit-falls ss m g h
  unrolled_exit-falls (cons (node s) ss) m g h =
      Covers-of_mask goes_on (statement_exit errors false s) (&&-left _ _ g) (λ r k.
        unrolled_exit-falls ss (unrolled_step m r)
          (&&-right (of_mask goes_on (statement_exit errors false s)) _ g)
          (unrolled_falls_lem m r h k))

  pub catches_exit-handlers :
      (cs : Catches) (m k : Mask) (x : Exit)
      → k x ≡ true
      → Covers x (catches_exit errors false cs m k)
  unfolding catches_exit
  catches_exit-handlers no_catch m k x h = gave (ground arith)
  catches_exit-handlers (catch_cons c p cs) m k x h =
      Covers-if (is_terror c.type_) (λ _. catches_exit-handlers cs m k x h)
        (λ _.
          Covers-any (block_exit errors false p)
            (λ r. catches_exit-handlers cs _ (union k (handler_exit c r)) x (ground arith)))

  -- An exit of the body that is no exception stays.
  pub catches_exit-keeps :
      (cs : Catches) (m k : Mask) (x : Exit)
      → ¬ Thrown x
      → m x ≡ true
      → Covers x (catches_exit errors false cs m k)
  unfolding catches_exit
  catches_exit-keeps no_catch m k x n h = gave (ground arith)
  catches_exit-keeps (catch_cons c p cs) m k x n h =
      Covers-if (is_terror c.type_) (λ _. catches_exit-keeps cs m k x n h)
        (λ _.
          Covers-any (block_exit errors false p) (λ r.
            catches_exit-keeps cs (catch_body_exit c r m) _ x n (catch_keeps_lem c r m x n h)))

  -- So does an exception that every handler can miss.
  pub catches_exit-Misses :
      (m k : Mask) {cs : Catches} {x : Exit}
      → Misses cs x
      → m x ≡ true
      → Covers x (catches_exit errors false cs m k)
  unfolding catches_exit
  catches_exit-Misses m k none_left h = gave (ground arith)
  catches_exit-Misses m k {x = x} (missed {c} {h = p} n d) h =
      Covers-if (is_terror c.type_) (λ _. catches_exit-Misses m k d h)
        (λ _.
          Covers-any (block_exit errors false p)
            (λ r. catches_exit-Misses (catch_body_exit c r m) _ d (catch_misses_lem c r m x n h)))
