-- ===== src/Statement/Queries/Walk.antt =====
-- `walkPostorder` of compiler/src/dmd/visitor/postorder.d against the statements that it visits.
use dmd.Prelude.{◌≡◌, ◌↔◌, refl, Bool, true, false, ◌||◌, arith}
use dmd.Statement.Tree.{
  Statement, Nullable, null, node, Statements, nil, cons, Catches, no_catch, catch_cons,
  error_statement, peel_statement, compound_statement, compound_declaration_statement,
  compound_asm_statement, unrolled_loop_statement, scope_statement, while_statement, do_statement,
  for_statement, foreach_statement, foreach_range_statement, if_statement, pragma_statement,
  switch_statement, case_statement, default_statement, synchronized_statement, with_statement,
  try_catch_statement, try_finally_statement, scope_guard_statement, debug_statement,
  label_statement,
}
use dmd.Statement.Queries.{walk, walk_pointer, walk_all, walk_catches}
use dmd.Statement.Queries.Visits.{
  Visits, VisitsIn, VisitsAll, VisitsHandlers, itself, in_peel, in_compound,
  in_compound_declaration, in_compound_asm, in_unrolled_loop, in_scope, in_while, in_do,
  in_for_first, in_for_second, in_foreach, in_foreach_range, in_if_first, in_if_second, in_pragma,
  in_switch, in_case, in_default, in_synchronized, in_with, in_try_catch_first, in_try_catch_second,
  in_try_finally_first, in_try_finally_second, in_scope_guard, in_debug, in_label, in_node, in_head,
  in_tail, in_handler, in_later,
}

or_elim : {C : Type 0} (a b : Bool) → (a || b) ≡ true → (a ≡ true → C) → (b ≡ true → C) → C
or_elim true b h f g = f refl
or_elim false b h f g = g h

or_left : (a b : Bool) → a ≡ true → (a || b) ≡ true
or_left a b h = ground arith

or_right : (a b : Bool) → b ≡ true → (a || b) ≡ true
or_right a b h = ground arith

-- A visited statement at which the visitor stops.
abbrev Stops : (Statement → Bool) → (Statement → Type 0) → Type 0
Stops t P = (u : Statement) × P u × (t u ≡ true)

inside :
    {t : Statement → Bool} {P Q : Statement → Type 0}
    → ((u : Statement) → P u → Q u)
    → Stops t P
    → Stops t Q
inside g (u, v, e) = (u, g u v, e)

module _ (t : Statement → Bool) where
  mutual
    unfolding walk

    visited : (s : Statement) → walk t s ≡ true → Stops t (λ u. Visits u s)
    visited (peel_statement p) h =
        or_elim _ _ h (λ e. inside (λ _ v. in_peel v) (visited_in p e))
          (λ e. (peel_statement p, itself, e))
    visited (compound_statement p) h =
        or_elim _ _ h (λ e. inside (λ _ v. in_compound v) (visited_all p e))
          (λ e. (compound_statement p, itself, e))
    visited (compound_declaration_statement p) h =
        or_elim _ _ h (λ e. inside (λ _ v. in_compound_declaration v) (visited_all p e))
          (λ e. (compound_declaration_statement p, itself, e))
    visited (compound_asm_statement f p) h =
        or_elim _ _ h (λ e. inside (λ _ v. in_compound_asm v) (visited_all p e))
          (λ e. (compound_asm_statement f p, itself, e))
    visited (unrolled_loop_statement p) h =
        or_elim _ _ h (λ e. inside (λ _ v. in_unrolled_loop v) (visited_all p e))
          (λ e. (unrolled_loop_statement p, itself, e))
    visited (scope_statement f p) h =
        or_elim _ _ h (λ e. inside (λ _ v. in_scope v) (visited_in p e))
          (λ e. (scope_statement f p, itself, e))
    visited (while_statement f c p) h =
        or_elim _ _ h (λ e. inside (λ _ v. in_while v) (visited_in p e))
          (λ e. (while_statement f c p, itself, e))
    visited (do_statement f p c) h =
        or_elim _ _ h (λ e. inside (λ _ v. in_do v) (visited_in p e))
          (λ e. (do_statement f p c, itself, e))
    visited (for_statement f p c n q) h =
        or_elim _ _ h (λ e. inside (λ _ v. in_for_first v) (visited_in p e))
          (λ k.
            or_elim _ _ k (λ e. inside (λ _ v. in_for_second v) (visited_in q e))
              (λ e. (for_statement f p c n q, itself, e)))
    visited (foreach_statement f c p) h =
        or_elim _ _ h (λ e. inside (λ _ v. in_foreach v) (visited_in p e))
          (λ e. (foreach_statement f c p, itself, e))
    visited (foreach_range_statement f c d p) h =
        or_elim _ _ h (λ e. inside (λ _ v. in_foreach_range v) (visited_in p e))
          (λ e. (foreach_range_statement f c d p, itself, e))
    visited (if_statement f c p q) h =
        or_elim _ _ h (λ e. inside (λ _ v. in_if_first v) (visited_in p e))
          (λ k.
            or_elim _ _ k (λ e. inside (λ _ v. in_if_second v) (visited_in q e))
              (λ e. (if_statement f c p q, itself, e)))
    visited (pragma_statement f p) h =
        or_elim _ _ h (λ e. inside (λ _ v. in_pragma v) (visited_in p e))
          (λ e. (pragma_statement f p, itself, e))
    visited (switch_statement f c p) h =
        or_elim _ _ h (λ e. inside (λ _ v. in_switch v) (visited_in p e))
          (λ e. (switch_statement f c p, itself, e))
    visited (case_statement f c p) h =
        or_elim _ _ h (λ e. inside (λ _ v. in_case v) (visited_in p e))
          (λ e. (case_statement f c p, itself, e))
    visited (default_statement f p) h =
        or_elim _ _ h (λ e. inside (λ _ v. in_default v) (visited_in p e))
          (λ e. (default_statement f p, itself, e))
    visited (synchronized_statement c p) h =
        or_elim _ _ h (λ e. inside (λ _ v. in_synchronized v) (visited_in p e))
          (λ e. (synchronized_statement c p, itself, e))
    visited (with_statement f c p) h =
        or_elim _ _ h (λ e. inside (λ _ v. in_with v) (visited_in p e))
          (λ e. (with_statement f c p, itself, e))
    visited (try_catch_statement f p q) h =
        or_elim _ _ h (λ e. inside (λ _ v. in_try_catch_first v) (visited_in p e))
          (λ k.
            or_elim _ _ k (λ e. inside (λ _ v. in_try_catch_second v) (visited_handlers q e))
              (λ e. (try_catch_statement f p q, itself, e)))
    visited (try_finally_statement f p q) h =
        or_elim _ _ h (λ e. inside (λ _ v. in_try_finally_first v) (visited_in p e))
          (λ k.
            or_elim _ _ k (λ e. inside (λ _ v. in_try_finally_second v) (visited_in q e))
              (λ e. (try_finally_statement f p q, itself, e)))
    visited (scope_guard_statement f p) h =
        or_elim _ _ h (λ e. inside (λ _ v. in_scope_guard v) (visited_in p e))
          (λ e. (scope_guard_statement f p, itself, e))
    visited (debug_statement p) h =
        or_elim _ _ h (λ e. inside (λ _ v. in_debug v) (visited_in p e))
          (λ e. (debug_statement p, itself, e))
    visited (label_statement f p) h =
        or_elim _ _ h (λ e. inside (λ _ v. in_label v) (visited_in p e))
          (λ e. (label_statement f p, itself, e))
    visited error_statement h = (error_statement, itself, h)
    visited s h = (s, itself, h)

    visited_in : (p : Nullable) → walk_pointer t p ≡ true → Stops t (λ u. VisitsIn u p)
    visited_in null h = cc
    visited_in (node s) h = inside (λ _ v. in_node v) (visited s h)

    visited_all : (ss : Statements) → walk_all t ss ≡ true → Stops t (λ u. VisitsAll u ss)
    visited_all nil h = cc
    visited_all (cons p ss) h =
        or_elim _ _ h (λ e. inside (λ _ v. in_head v) (visited_in p e))
          (λ e. inside (λ _ v. in_tail v) (visited_all ss e))

    visited_handlers :
        (cs : Catches) → walk_catches t cs ≡ true → Stops t (λ u. VisitsHandlers u cs)
    visited_handlers no_catch h = cc
    visited_handlers (catch_cons c p cs) h =
        or_elim _ _ h (λ e. inside (λ _ v. in_handler v) (visited_in p e))
          (λ e. inside (λ _ v. in_later v) (visited_handlers cs e))

  walk_self : (s : Statement) → t s ≡ true → walk t s ≡ true
  unfolding walk
  walk_self (peel_statement p) h = or_right _ _ h
  walk_self (compound_statement p) h = or_right _ _ h
  walk_self (compound_declaration_statement p) h = or_right _ _ h
  walk_self (compound_asm_statement f p) h = or_right _ _ h
  walk_self (unrolled_loop_statement p) h = or_right _ _ h
  walk_self (scope_statement f p) h = or_right _ _ h
  walk_self (while_statement f c p) h = or_right _ _ h
  walk_self (do_statement f p c) h = or_right _ _ h
  walk_self (for_statement f p c n q) h = or_right _ _ (or_right _ _ h)
  walk_self (foreach_statement f c p) h = or_right _ _ h
  walk_self (foreach_range_statement f c d p) h = or_right _ _ h
  walk_self (if_statement f c p q) h = or_right _ _ (or_right _ _ h)
  walk_self (pragma_statement f p) h = or_right _ _ h
  walk_self (switch_statement f c p) h = or_right _ _ h
  walk_self (case_statement f c p) h = or_right _ _ h
  walk_self (default_statement f p) h = or_right _ _ h
  walk_self (synchronized_statement c p) h = or_right _ _ h
  walk_self (with_statement f c p) h = or_right _ _ h
  walk_self (try_catch_statement f p q) h = or_right _ _ (or_right _ _ h)
  walk_self (try_finally_statement f p q) h = or_right _ _ (or_right _ _ h)
  walk_self (scope_guard_statement f p) h = or_right _ _ h
  walk_self (debug_statement p) h = or_right _ _ h
  walk_self (label_statement f p) h = or_right _ _ h
  walk_self error_statement h = h
  walk_self _ h = h

  mutual
    unfolding walk

    reached : {u s : Statement} → Visits u s → t u ≡ true → walk t s ≡ true
    reached {s = s} itself e = walk_self s e
    reached (in_peel v) e = or_left _ _ (reached_in v e)
    reached (in_compound v) e = or_left _ _ (reached_all v e)
    reached (in_compound_declaration v) e = or_left _ _ (reached_all v e)
    reached (in_compound_asm v) e = or_left _ _ (reached_all v e)
    reached (in_unrolled_loop v) e = or_left _ _ (reached_all v e)
    reached (in_scope v) e = or_left _ _ (reached_in v e)
    reached (in_while v) e = or_left _ _ (reached_in v e)
    reached (in_do v) e = or_left _ _ (reached_in v e)
    reached (in_for_first v) e = or_left _ _ (reached_in v e)
    reached (in_for_second v) e = or_right _ _ (or_left _ _ (reached_in v e))
    reached (in_foreach v) e = or_left _ _ (reached_in v e)
    reached (in_foreach_range v) e = or_left _ _ (reached_in v e)
    reached (in_if_first v) e = or_left _ _ (reached_in v e)
    reached (in_if_second v) e = or_right _ _ (or_left _ _ (reached_in v e))
    reached (in_pragma v) e = or_left _ _ (reached_in v e)
    reached (in_switch v) e = or_left _ _ (reached_in v e)
    reached (in_case v) e = or_left _ _ (reached_in v e)
    reached (in_default v) e = or_left _ _ (reached_in v e)
    reached (in_synchronized v) e = or_left _ _ (reached_in v e)
    reached (in_with v) e = or_left _ _ (reached_in v e)
    reached (in_try_catch_first v) e = or_left _ _ (reached_in v e)
    reached (in_try_catch_second v) e = or_right _ _ (or_left _ _ (reached_handlers v e))
    reached (in_try_finally_first v) e = or_left _ _ (reached_in v e)
    reached (in_try_finally_second v) e = or_right _ _ (or_left _ _ (reached_in v e))
    reached (in_scope_guard v) e = or_left _ _ (reached_in v e)
    reached (in_debug v) e = or_left _ _ (reached_in v e)
    reached (in_label v) e = or_left _ _ (reached_in v e)

    reached_in :
        {u : Statement} {p : Nullable} → VisitsIn u p → t u ≡ true → walk_pointer t p ≡ true
    reached_in (in_node v) e = reached v e

    reached_all :
        {u : Statement} {ss : Statements} → VisitsAll u ss → t u ≡ true → walk_all t ss ≡ true
    reached_all (in_head v) e = or_left _ _ (reached_in v e)
    reached_all (in_tail v) e = or_right _ _ (reached_all v e)

    reached_handlers :
        {u : Statement} {cs : Catches} → VisitsHandlers u cs → t u ≡ true → walk_catches t cs ≡ true
    reached_handlers (in_handler v) e = or_left _ _ (reached_in v e)
    reached_handlers (in_later v) e = or_right _ _ (reached_handlers v e)

-- The walk over a statement stops exactly if it visits a statement at which the visitor stops.
pub walk-iff-Visits :
    (t : Statement → Bool) (s : Statement)
    → (walk t s ≡ true) ↔ ((u : Statement) × Visits u s × (t u ≡ true))
walk-iff-Visits t s = (visited t s, λ (u, v, e). reached t v e)
