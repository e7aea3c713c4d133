-- ===== src/Statement/Queries/Tests.antt =====
-- An example of the walk over a statement (compiler/src/dmd/visitor/postorder.d).
use dmd.Prelude.{none, ◌≡◌, ◌↔◌, refl, true, false}
use dmd.Statement.Tree.{
  Statement, scope_statement, label_statement, return_statement, compound_statement, null, node,
  nil, cons,
}
use dmd.Statement.Queries.{walk, is_target, come_from}
use dmd.Statement.Queries.Visits.{Visits}
use dmd.Statement.Queries.Walk.{walk-iff-Visits}

-- A label in a scope.
abbrev target : Statement
target =
    scope_statement (record { endloc = 0 })
      (node (
        label_statement
          (record {
            ident = 1;
            try_body = 0;
            tf = 0;
            os = 0;
            last_var = 0;
            goto_target = 0;
            extra = 0;
            breaks = false;
            in_ctfe_block = false;
          })
          null))

target-run : come_from target ≡ true
unfolding walk is_target
target-run = refl

walk-iff-Visits_example :
    (walk is_target target ≡ true) ↔ ((u : Statement) × Visits u target × (is_target u ≡ true))
walk-iff-Visits_example = walk-iff-Visits is_target target

abbrev leave : Statement
leave = return_statement (record { case_dim = 0; fes_func = 0; scope_ = 0 }) none

-- The label, and a return statement in a block.
abbrev block : Statement
block = compound_statement (cons (node target) (cons null (cons (node leave) nil)))
