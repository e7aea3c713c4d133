-- ===== src/Statement/Queries.antt =====
-- The questions that a statement answers about its tree: `last`, `endsWithReturnStatement`,
-- `hasBreak`, `hasContinue` (compiler/include/dmd/statement.h, compiler/src/dmd/statement.d), and
-- those that walk it in postorder (compiler/src/dmd/visitor/postorder.d): `comeFrom`, `usesEH` and
-- `hasCode`.
pub mod Visits
pub mod Walk
pub mod Last
mod Tests
use dmd.Prelude.{Bool, true, false, ◌||◌, Option, none, some}
use dmd.Statement.Tree.{
  Expression, Statement, peel_statement, exp_statement, dtor_exp_statement, compound_statement,
  compound_declaration_statement, compound_asm_statement, unrolled_loop_statement, scope_statement,
  while_statement, do_statement, for_statement, foreach_statement, foreach_range_statement,
  if_statement, pragma_statement, switch_statement, case_statement, default_statement,
  return_statement, synchronized_statement, with_statement, try_catch_statement,
  try_finally_statement, scope_guard_statement, debug_statement, label_statement, asm_statement,
  inline_asm_statement, gcc_asm_statement, import_statement, Nullable, null, node, Statements, nil,
  cons, Catches, no_catch, catch_cons,
}

-- `walkPostorder(s, v)`: children first; `t` tells whether the visitor stops at a statement.
unfoldable mutual
  pub walk : (Statement → Bool) → Statement → Bool
  walk t (peel_statement s) = walk_pointer t s || t (peel_statement s)
  walk t (compound_statement ss) = walk_all t ss || t (compound_statement ss)
  walk t (compound_declaration_statement ss) =
      walk_all t ss || t (compound_declaration_statement ss)
  walk t (compound_asm_statement f ss) = walk_all t ss || t (compound_asm_statement f ss)
  walk t (unrolled_loop_statement ss) = walk_all t ss || t (unrolled_loop_statement ss)
  walk t (scope_statement f s) = walk_pointer t s || t (scope_statement f s)
  walk t (while_statement f c b) = walk_pointer t b || t (while_statement f c b)
  walk t (do_statement f b c) = walk_pointer t b || t (do_statement f b c)
  walk t (for_statement f i c n b) =
      walk_pointer t i || (walk_pointer t b || t (for_statement f i c n b))
  walk t (foreach_statement f a b) = walk_pointer t b || t (foreach_statement f a b)
  walk t (foreach_range_statement f l u b) = walk_pointer t b || t (foreach_range_statement f l u b)
  walk t (if_statement f c a b) = walk_pointer t a || (walk_pointer t b || t (if_statement f c a b))
  walk t (pragma_statement f b) = walk_pointer t b || t (pragma_statement f b)
  walk t (switch_statement f c b) = walk_pointer t b || t (switch_statement f c b)
  walk t (case_statement f e s) = walk_pointer t s || t (case_statement f e s)
  walk t (default_statement f s) = walk_pointer t s || t (default_statement f s)
  walk t (synchronized_statement e b) = walk_pointer t b || t (synchronized_statement e b)
  walk t (with_statement f e b) = walk_pointer t b || t (with_statement f e b)
  walk t (try_catch_statement f b c) =
      walk_pointer t b || (walk_catches t c || t (try_catch_statement f b c))
  walk t (try_finally_statement f b n) =
      walk_pointer t b || (walk_pointer t n || t (try_finally_statement f b n))
  walk t (scope_guard_statement f s) = walk_pointer t s || t (scope_guard_statement f s)
  walk t (debug_statement s) = walk_pointer t s || t (debug_statement s)
  walk t (label_statement f s) = walk_pointer t s || t (label_statement f s)
  walk t s = t s

  pub walk_pointer : (Statement → Bool) → Nullable → Bool
  walk_pointer t null = false
  walk_pointer t (node s) = walk t s

  pub walk_all : (Statement → Bool) → Statements → Bool
  walk_all t nil = false
  walk_all t (cons s ss) = walk_pointer t s || walk_all t ss

  pub walk_catches : (Statement → Bool) → Catches → Bool
  walk_catches t no_catch = false
  walk_catches t (catch_cons c h cs) = walk_pointer t h || walk_catches t cs

-- The visitor of `comeFrom`.
unfoldable pub is_target : Statement → Bool
is_target (case_statement _ _ _) = true
is_target (default_statement _ _) = true
is_target (label_statement _ _) = true
is_target (asm_statement _) = true
is_target (inline_asm_statement _) = true
is_target (gcc_asm_statement _) = true
is_target _ = false

-- `comeFrom()`
abbrev pub come_from : Statement → Bool
come_from s = walk is_target s

-- The visitor of `usesEH`.
unfoldable pub handles_exceptions : Statement → Bool
handles_exceptions (try_catch_statement _ _ _) = true
handles_exceptions (try_finally_statement _ _ _) = true
handles_exceptions (scope_guard_statement _ _) = true
handles_exceptions (synchronized_statement _ _) = true
handles_exceptions _ = false

-- `usesEH()`
abbrev pub uses_eh : Statement → Bool
uses_eh s = walk handles_exceptions s

expression_has_code : Option Expression → Bool
expression_has_code none = false
expression_has_code (some e) = e.has_code

-- The visitor of `hasCode`.
unfoldable pub is_code : Statement → Bool
unfolding expression_has_code
is_code (exp_statement e) = expression_has_code e
is_code (dtor_exp_statement _ e) = expression_has_code e
is_code (compound_statement _) = false
is_code (compound_declaration_statement _) = false
is_code (compound_asm_statement _ _) = false
is_code (scope_statement _ _) = false
is_code (import_statement _) = false
is_code (case_statement _ _ _) = false
is_code (default_statement _ _) = false
is_code (label_statement _ _) = false
is_code _ = true

-- `hasCode()`
abbrev pub has_code : Statement → Bool
has_code s = walk is_code s

-- `last()`: the last statement of the last part that has one.
or_else : Nullable → Nullable → Nullable
or_else null b = b
or_else (node s) _ = node s

unfoldable mutual
  unfolding or_else

  pub last : Statement → Nullable
  last (compound_statement ss) = last_of ss
  last (compound_declaration_statement ss) = last_of ss
  last (compound_asm_statement _ ss) = last_of ss
  last s = node s

  pub last_pointer : Nullable → Nullable
  last_pointer null = null
  last_pointer (node s) = last s

  pub last_of : Statements → Nullable
  last_of nil = null
  last_of (cons s ss) = or_else (last_of ss) (last_pointer s)

-- `endsWithReturnStatement()`
unfoldable mutual
  unfolding or_else

  pub ends_with_return_statement : Statement → Nullable
  ends_with_return_statement (return_statement f e) = node (return_statement f e)
  ends_with_return_statement (compound_statement ss) = first_return ss
  ends_with_return_statement (compound_declaration_statement ss) = first_return ss
  ends_with_return_statement (compound_asm_statement _ ss) = first_return ss
  ends_with_return_statement (scope_statement _ s) = return_pointer s
  ends_with_return_statement _ = null

  pub return_pointer : Nullable → Nullable
  return_pointer null = null
  return_pointer (node s) = ends_with_return_statement s

  pub first_return : Statements → Nullable
  first_return nil = null
  first_return (cons s ss) = or_else (return_pointer s) (first_return ss)

-- `hasBreak()`
unfoldable mutual
  pub has_break : Statement → Bool
  has_break (unrolled_loop_statement _) = true
  has_break (scope_statement _ s) = has_break_pointer s
  has_break (while_statement _ _ _) = true
  has_break (do_statement _ _ _) = true
  has_break (for_statement _ _ _ _ _) = true
  has_break (foreach_statement _ _ _) = true
  has_break (foreach_range_statement _ _ _ _) = true
  has_break (switch_statement _ _ _) = true
  has_break _ = false

  pub has_break_pointer : Nullable → Bool
  has_break_pointer null = false
  has_break_pointer (node s) = has_break s

-- `hasContinue()`
unfoldable mutual
  pub has_continue : Statement → Bool
  has_continue (unrolled_loop_statement _) = true
  has_continue (scope_statement _ s) = has_continue_pointer s
  has_continue (while_statement _ _ _) = true
  has_continue (do_statement _ _ _) = true
  has_continue (for_statement _ _ _ _ _) = true
  has_continue (foreach_statement _ _ _) = true
  has_continue (foreach_range_statement _ _ _ _) = true
  has_continue _ = false

  pub has_continue_pointer : Nullable → Bool
  has_continue_pointer null = false
  has_continue_pointer (node s) = has_continue s
