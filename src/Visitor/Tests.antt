-- ===== src/Visitor/Tests.antt =====
-- A visitor of compiler/include/dmd/visitor.h with a few overrides, and examples of what is proved
-- of the dispatch.
use dmd.Prelude.{ℕ, Option, none, some, ◌≡◌, ◌≢◌, ◌↔◌, refl}
use dmd.Visitor.Dispatch.{visit, handled, Nearest}
use dmd.Visitor.Expressions.{expression, una_exp, mixin_exp, add_exp, bin_exp, compound_literal_exp}
use dmd.Visitor.Expressions
use dmd.Visitor.Statements.{statement}
use dmd.Visitor.Types.{type_}
use dmd.Visitor.Dsymbols.{dsymbol, alias_assign, func_declaration}
use dmd.Visitor.Parts.{parameter, template_parameter, condition, initializer}
use dmd.Visitor.Expressions.Bases.{base as expression_base}
use dmd.Visitor.Nodes.{
  NodeClass, of_expression, of_statement, of_type, of_dsymbol, of_part, forward, accept, base,
  OverridesRoots, accept_total, accept-mixin_exp, accept-agree, forward-eq-base,
}
use dmd.Visitor.Nearest.{differs, accept-iff-Nearest}

-- The overrides of the eight roots, and of two more classes.
abbrev numbered : NodeClass → Option ℕ
numbered (of_expression expression) = some 0
numbered (of_expression una_exp) = some 10
numbered (of_expression bin_exp) = some 11
numbered (of_statement statement) = some 1
numbered (of_type type_) = some 2
numbered (of_dsymbol dsymbol) = some 3
numbered (of_part parameter) = some 4
numbered (of_part template_parameter) = some 5
numbered (of_part condition) = some 6
numbered (of_part initializer) = some 7
numbered _ = none

-- No override at all.
abbrev bare : NodeClass → Option ℕ
bare _ = none

add_exp-run : accept numbered (of_expression add_exp) ≡ handled 11
unfolding accept visit forward Expressions.forward
add_exp-run = refl

numbered-OverridesRoots : OverridesRoots numbered
numbered-OverridesRoots = record {
  at_expression = (0, refl);
  at_statement = (1, refl);
  at_type = (2, refl);
  at_dsymbol = (3, refl);
  at_parameter = (4, refl);
  at_template_parameter = (5, refl);
  at_condition = (6, refl);
  at_initializer = (7, refl);
}

accept-iff-Nearest_example :
    (accept numbered (of_expression add_exp) ≡ handled 11)
    ↔ ((a : NodeClass) × Nearest base numbered (of_expression add_exp) a 11)
unfolding differs
accept-iff-Nearest_example = accept-iff-Nearest numbered (of_expression add_exp) 11 refl

accept_total_example : (h : ℕ) × (accept numbered (of_dsymbol func_declaration) ≡ handled h)
accept_total_example = accept_total numbered numbered-OverridesRoots (of_dsymbol func_declaration)

accept-mixin_exp_example :
    (accept numbered (of_expression mixin_exp) ≡ accept numbered (of_expression expression))
    × (expression_base mixin_exp ≡ some una_exp)
accept-mixin_exp_example = accept-mixin_exp numbered refl

accept-agree_example : accept bare (of_expression add_exp) ≡ accept bare (of_expression add_exp)
accept-agree_example = accept-agree bare bare (of_expression add_exp) (λ a r. refl)

not_mixin_exp : of_expression add_exp ≢ of_expression mixin_exp
not_mixin_exp e = cc

not_compound_literal_exp : of_expression add_exp ≢ of_expression compound_literal_exp
not_compound_literal_exp e = cc

not_alias_assign : of_expression add_exp ≢ of_dsymbol alias_assign
not_alias_assign e = cc

forward-eq-base_example : forward (of_expression add_exp) ≡ base (of_expression add_exp)
forward-eq-base_example =
    forward-eq-base (of_expression add_exp) not_mixin_exp not_compound_literal_exp not_alias_assign
