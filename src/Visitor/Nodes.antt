-- ===== src/Visitor/Nodes.antt =====
-- `accept` of any node (compiler/include/dmd/ast_node.h and the class headers): the call
-- `v->visit(this)`, dispatched over the five families of classes by
-- compiler/include/dmd/visitor.h.
use dmd.Prelude.{
  ℕ, zero, suc, Option-cases, inl, inr, true, Option, none, some, ◌≡◌, ◌≢◌, refl, ◌∙◌, sym, ap,
  arith, ◌↔◌,
}
use dmd.Visitor.Dispatch.{
  Outcome, handled, assertion, visit, climbs, climbs-root, climbs-some, climbs-Above, Above,
  visit-assertion, visit-some, visit-agree,
}
use dmd.Visitor.Expressions
use dmd.Visitor.Expressions.{ExpressionClass, expression, mixin_exp, una_exp, compound_literal_exp}
use dmd.Visitor.Expressions.Bases.{base as expression_base}
use dmd.Visitor.Statements
use dmd.Visitor.Statements.Bases.{base as statement_base}
use dmd.Visitor.Statements.{StatementClass, statement}
use dmd.Visitor.Types
use dmd.Visitor.Types.Bases.{base as type_base}
use dmd.Visitor.Types.{TypeClass, type_}
use dmd.Visitor.Dsymbols
use dmd.Visitor.Dsymbols.Bases.{base as dsymbol_base}
use dmd.Visitor.Dsymbols.{DsymbolClass, dsymbol, alias_assign}
use dmd.Visitor.Parts
use dmd.Visitor.Parts.Bases.{base as part_base}
use dmd.Visitor.Parts.{PartClass, parameter, template_parameter, condition, initializer}
use dmd.Visitor.Hierarchy.{
  expression_climbs, statement_climbs, type_climbs, dsymbol_climbs, part_climbs, expression_root,
  statement_root, type_root, dsymbol_root, expression_forward-eq-base, statement_forward-eq-base,
  type_forward-eq-base, dsymbol_forward-eq-base, part_forward-eq-base,
}

pub data NodeClass : Type 0 where
  of_expression : ExpressionClass → NodeClass
  of_statement : StatementClass → NodeClass
  of_type : TypeClass → NodeClass
  of_dsymbol : DsymbolClass → NodeClass
  of_part : PartClass → NodeClass

unfoldable pub lift : {C : Type 0} → (C → NodeClass) → Option C → Option NodeClass
lift f none = none
lift f (some c) = some (f c)

lift-none : {C : Type 0} (f : C → NodeClass) (o : Option C) → lift f o ≡ none → o ≡ none
unfolding lift
lift-none f none h = refl
lift-none f (some c) h = cc

-- The overload that the overload of a class calls.
unfoldable pub forward : NodeClass → Option NodeClass
unfolding lift
forward (of_expression c) = lift of_expression (Expressions.forward c)
forward (of_statement c) = lift of_statement (Statements.forward c)
forward (of_type c) = lift of_type (Types.forward c)
forward (of_dsymbol c) = lift of_dsymbol (Dsymbols.forward c)
forward (of_part c) = lift of_part (Parts.forward c)

-- `node->accept(v)` of a node of the class; five calls of `visit` are enough.
unfoldable pub accept : {H : Type 0} → (NodeClass → Option H) → NodeClass → Outcome H
accept overrides c = visit forward 5 overrides c

-- One family among the nodes.
module _ {C : Type 0} (f : C → Option C) (g : C → NodeClass) where
  Embeds : Type 0
  Embeds = (c : C) → forward (g c) ≡ lift g (f c)

  climbs-lift : Embeds → (n : ℕ) (c : C) → climbs f n c ≡ true → climbs forward n (g c) ≡ true
  unfolding lift climbs Embeds
  climbs-lift agree zero c k = k
  climbs-lift agree (suc n) c k = elim (Option-cases (f c)) [
    | inl e ↦ climbs-root forward n (g c) (agree c ∙ ap (lift g) e)
    | inr (d, e) ↦
        climbs-some forward n (g c) (agree c ∙ ap (lift g) e)
        ∙ climbs-lift agree n d (sym (climbs-some f n c e) ∙ k)
  ]

-- The casts of every overload end at a root within five calls.
pub forward-climbs : (c : NodeClass) → climbs forward 5 c ≡ true
unfolding forward Embeds
forward-climbs (of_expression c) =
    climbs-lift Expressions.forward of_expression (λ _. refl) 5 c (expression_climbs c)
forward-climbs (of_statement c) =
    climbs-lift Statements.forward of_statement (λ _. refl) 5 c (statement_climbs c)
forward-climbs (of_type c) = climbs-lift Types.forward of_type (λ _. refl) 5 c (type_climbs c)
forward-climbs (of_dsymbol c) =
    climbs-lift Dsymbols.forward of_dsymbol (λ _. refl) 5 c (dsymbol_climbs c)
forward-climbs (of_part c) = climbs-lift Parts.forward of_part (λ _. refl) 5 c (part_climbs c)

module _ {H : Type 0} (overrides : NodeClass → Option H) where
  -- The visitor overrides the overload of every root.
  pub record OverridesRoots : Type 0 where
    pub at_expression : (h : H) × (overrides (of_expression expression) ≡ some h)
    pub at_statement : (h : H) × (overrides (of_statement statement) ≡ some h)
    pub at_type : (h : H) × (overrides (of_type type_) ≡ some h)
    pub at_dsymbol : (h : H) × (overrides (of_dsymbol dsymbol) ≡ some h)
    pub at_parameter : (h : H) × (overrides (of_part parameter) ≡ some h)
    pub at_template_parameter : (h : H) × (overrides (of_part template_parameter) ≡ some h)
    pub at_condition : (h : H) × (overrides (of_part condition) ≡ some h)
    pub at_initializer : (h : H) × (overrides (of_part initializer) ≡ some h)

  at_part :
      OverridesRoots
      → (c : PartClass) → Parts.forward c ≡ none
      → (h : H) × (overrides (of_part c) ≡ some h)
  unfolding Parts.forward
  at_part o parameter e = o.at_parameter
  at_part o template_parameter e = o.at_template_parameter
  at_part o condition e = o.at_condition
  at_part o initializer e = o.at_initializer
  at_part o _ e = cc

  at_root : OverridesRoots → (r : NodeClass) → forward r ≡ none → (h : H) × (overrides r ≡ some h)
  unfolding forward
  at_root o (of_expression c) e =
      rw (expression_root c (lift-none of_expression (Expressions.forward c) e)) o.at_expression
  at_root o (of_statement c) e =
      rw (statement_root c (lift-none of_statement (Statements.forward c) e)) o.at_statement
  at_root o (of_type c) e = rw (type_root c (lift-none of_type (Types.forward c) e)) o.at_type
  at_root o (of_dsymbol c) e =
      rw (dsymbol_root c (lift-none of_dsymbol (Dsymbols.forward c) e)) o.at_dsymbol
  at_root o (of_part c) e = at_part o c (lift-none of_part (Parts.forward c) e)

  -- A visitor that overrides the overloads of the eight roots handles every node.
  pub accept_total : OverridesRoots → (c : NodeClass) → (h : H) × (accept overrides c ≡ handled h)
  unfolding accept
  accept_total o c =
      let (r, above, root) = climbs-Above forward 5 c (forward-climbs c) in
      let (h, e) = at_root o r root in visit-some forward overrides 5 (forward-climbs c) above e

  -- The assertion of a root fails exactly when no class above that of the node is overridden.
  pub accept-assertion :
      (c : NodeClass)
      → (accept overrides c ≡ assertion)
        ↔ ((a : NodeClass) → Above forward c a → overrides a ≡ none)
  unfolding accept
  accept-assertion c = (
    λ e a r. elim (Option-cases (overrides a)) [
      | inl o ↦ o
      | inr (h, o) ↦ cc (e, (visit-some forward overrides 5 (forward-climbs c) r o).1)
    ],
    visit-assertion forward overrides 5 c (forward-climbs c),
  )

  -- With no override for `MixinExp`, a visitor does at a node of it what it does at an
  -- `Expression`, though the header declares `UnaExp` as the base class of `MixinExp`.
  pub accept-mixin_exp :
      overrides (of_expression mixin_exp) ≡ none
      → (accept overrides (of_expression mixin_exp) ≡ accept overrides (of_expression expression))
        × (expression_base mixin_exp ≡ some una_exp)
  unfolding accept forward lift Expressions.forward expression_base visit
  accept-mixin_exp h = ground arith

-- What a visitor does at a node depends on its overrides of the classes above only.
pub accept-agree :
    {H : Type 0} (v w : NodeClass → Option H) (c : NodeClass)
    → ((a : NodeClass) → Above forward c a → v a ≡ w a)
    → accept v c ≡ accept w c
unfolding accept
accept-agree v w c same = visit-agree forward v w 5 c same

-- The base class of a class, by the class headers. The roots of the families derive from `ASTNode`,
-- for which `visit` has no overload.
unfoldable pub base : NodeClass → Option NodeClass
unfolding lift
base (of_expression c) = lift of_expression (expression_base c)
base (of_statement c) = lift of_statement (statement_base c)
base (of_type c) = lift of_type (type_base c)
base (of_dsymbol c) = lift of_dsymbol (dsymbol_base c)
base (of_part c) = lift of_part (part_base c)

-- `visit` forwards a class to its base class in the class headers, and a root to none; left out are
-- `MixinExp`, and `CompoundLiteralExp` and `AliasAssign`, which the headers do not define.
pub forward-eq-base :
    (c : NodeClass)
    → c ≢ of_expression mixin_exp
    → c ≢ of_expression compound_literal_exp
    → c ≢ of_dsymbol alias_assign
    → forward c ≡ base c
unfolding forward base
forward-eq-base (of_expression c) h k _ =
    ap (lift of_expression)
      (expression_forward-eq-base c (λ e. h (ap of_expression e)) (λ e. k (ap of_expression e)))
forward-eq-base (of_statement c) _ _ _ = ap (lift of_statement) (statement_forward-eq-base c)
forward-eq-base (of_type c) _ _ _ = ap (lift of_type) (type_forward-eq-base c)
forward-eq-base (of_dsymbol c) _ _ h =
    ap (lift of_dsymbol) (dsymbol_forward-eq-base c (λ e. h (ap of_dsymbol e)))
forward-eq-base (of_part c) _ _ _ = ap (lift of_part) (part_forward-eq-base c)
