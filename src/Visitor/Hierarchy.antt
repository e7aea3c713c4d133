-- ===== src/Visitor/Hierarchy.antt =====
-- What the default overloads of compiler/include/dmd/visitor.h agree with: the inheritance that
-- the class headers declare. Every chain of casts has at most five classes.
use dmd.Prelude.{true, none, ◌≡◌, ◌≢◌, refl}
use dmd.Visitor.Dispatch.{climbs}
use dmd.Visitor.Expressions
use dmd.Visitor.Expressions.{ExpressionClass, expression, mixin_exp, compound_literal_exp, una_exp}
use dmd.Visitor.Expressions.Bases.{base as expression_base}
use dmd.Visitor.Statements
use dmd.Visitor.Statements.{StatementClass, statement}
use dmd.Visitor.Statements.Bases.{base as statement_base}
use dmd.Visitor.Types
use dmd.Visitor.Types.{TypeClass, type_}
use dmd.Visitor.Types.Bases.{base as type_base}
use dmd.Visitor.Dsymbols
use dmd.Visitor.Dsymbols.{DsymbolClass, dsymbol, alias_assign}
use dmd.Visitor.Dsymbols.Bases.{base as dsymbol_base}
use dmd.Visitor.Parts
use dmd.Visitor.Parts.{PartClass, parameter}
use dmd.Visitor.Parts.Bases.{base as part_base}

pub expression_climbs : (c : ExpressionClass) → climbs Expressions.forward 5 c ≡ true
unfolding climbs Expressions.forward
expression_climbs expression = refl
expression_climbs _ = refl

pub expression_root : (c : ExpressionClass) → Expressions.forward c ≡ none → c ≡ expression
unfolding Expressions.forward
expression_root expression h = refl
expression_root _ h = cc

pub expression_forward-eq-base :
    (c : ExpressionClass)
    → c ≢ mixin_exp
    → c ≢ compound_literal_exp
    → Expressions.forward c ≡ expression_base c
unfolding Expressions.forward expression_base
expression_forward-eq-base mixin_exp h _ = absurd (h refl)
expression_forward-eq-base compound_literal_exp _ h = absurd (h refl)
expression_forward-eq-base _ _ _ = refl

pub statement_climbs : (c : StatementClass) → climbs Statements.forward 5 c ≡ true
unfolding climbs Statements.forward
statement_climbs statement = refl
statement_climbs _ = refl

pub statement_root : (c : StatementClass) → Statements.forward c ≡ none → c ≡ statement
unfolding Statements.forward
statement_root statement h = refl
statement_root _ h = cc

pub statement_forward-eq-base : (c : StatementClass) → Statements.forward c ≡ statement_base c
unfolding Statements.forward statement_base
statement_forward-eq-base statement = refl
statement_forward-eq-base _ = refl

pub type_climbs : (c : TypeClass) → climbs Types.forward 5 c ≡ true
unfolding climbs Types.forward
type_climbs type_ = refl
type_climbs _ = refl

pub type_root : (c : TypeClass) → Types.forward c ≡ none → c ≡ type_
unfolding Types.forward
type_root type_ h = refl
type_root _ h = cc

pub type_forward-eq-base : (c : TypeClass) → Types.forward c ≡ type_base c
unfolding Types.forward type_base
type_forward-eq-base type_ = refl
type_forward-eq-base _ = refl

pub dsymbol_climbs : (c : DsymbolClass) → climbs Dsymbols.forward 5 c ≡ true
unfolding climbs Dsymbols.forward
dsymbol_climbs dsymbol = refl
dsymbol_climbs _ = refl

pub dsymbol_root : (c : DsymbolClass) → Dsymbols.forward c ≡ none → c ≡ dsymbol
unfolding Dsymbols.forward
dsymbol_root dsymbol h = refl
dsymbol_root _ h = cc

pub dsymbol_forward-eq-base :
    (c : DsymbolClass) → c ≢ alias_assign → Dsymbols.forward c ≡ dsymbol_base c
unfolding Dsymbols.forward dsymbol_base
dsymbol_forward-eq-base alias_assign h = absurd (h refl)
dsymbol_forward-eq-base _ _ = refl

pub part_climbs : (c : PartClass) → climbs Parts.forward 5 c ≡ true
unfolding climbs Parts.forward
part_climbs parameter = refl
part_climbs _ = refl

pub part_forward-eq-base : (c : PartClass) → Parts.forward c ≡ part_base c
unfolding Parts.forward part_base
part_forward-eq-base parameter = refl
part_forward-eq-base _ = refl
