-- ===== src/Visitor/Nearest.antt =====
-- `accept` of any node against the inheritance that the class headers of compiler/include/dmd declare:
-- the override that runs is that of the nearest class.
use dmd.Prelude.{Bool, true, false, Option, none, some, ◌≡◌, ◌≢◌, refl, ◌∙◌, sym, ap, ◌↔◌}
use dmd.Visitor.Dispatch.{handled, own, inherited, Nearest, visit-Nearest, Nearest-visit}
use dmd.Visitor.Expressions.{expression, mixin_exp, compound_literal_exp}
use dmd.Visitor.Expressions.Bases.{base as expression_base}
use dmd.Visitor.Statements.Bases.{base as statement_base}
use dmd.Visitor.Statements.{statement}
use dmd.Visitor.Types.Bases.{base as type_base}
use dmd.Visitor.Types.{type_}
use dmd.Visitor.Dsymbols.Bases.{base as dsymbol_base}
use dmd.Visitor.Dsymbols.{dsymbol, alias_assign}
use dmd.Visitor.Parts.Bases.{base as part_base}
use dmd.Visitor.Parts.{parameter}
use dmd.Visitor.Nodes.{
  NodeClass, of_expression, of_statement, of_type, of_dsymbol, of_part, lift, forward, base, accept,
  forward-climbs, forward-eq-base,
}

-- The classes at which the headers and `visit` differ.
unfoldable pub differs : NodeClass → Bool
differs (of_expression mixin_exp) = true
differs (of_expression compound_literal_exp) = true
differs (of_dsymbol alias_assign) = true
differs _ = false

ne_of_differs : (c d : NodeClass) → differs c ≡ false → differs d ≡ true → c ≢ d
ne_of_differs c d h k e = cc (h, k, ap differs e)

forward-base : (c : NodeClass) → differs c ≡ false → forward c ≡ base c
unfolding differs
forward-base c h =
    forward-eq-base c (ne_of_differs c (of_expression mixin_exp) h refl)
      (ne_of_differs c (of_expression compound_literal_exp) h refl)
      (ne_of_differs c (of_dsymbol alias_assign) h refl)

-- No class derives from one of them.
same_base : Option NodeClass → Bool
same_base none = false
same_base (some d) = differs d

base-same : (c : NodeClass) → same_base (base c) ≡ false
unfolding same_base base lift differs expression_base statement_base type_base dsymbol_base
    part_base
base-same (of_expression expression) = refl
base-same (of_expression _) = refl
base-same (of_statement statement) = refl
base-same (of_statement _) = refl
base-same (of_type type_) = refl
base-same (of_type _) = refl
base-same (of_dsymbol dsymbol) = refl
base-same (of_dsymbol _) = refl
base-same (of_part parameter) = refl
base-same (of_part _) = refl

differs-base : (c d : NodeClass) → base c ≡ some d → differs d ≡ false
unfolding same_base
differs-base c d e = sym (ap same_base e) ∙ base-same c

module _ {H : Type 0} (overrides : NodeClass → Option H) where
  Nearest-base :
      {c a : NodeClass} {h : H}
      → differs c ≡ false
      → Nearest forward overrides c a h
      → Nearest base overrides c a h
  Nearest-base k (own o) = own o
  Nearest-base {c = c} k (inherited {d = d} o f s) =
      let e = sym (forward-base c k) ∙ f in inherited o e (Nearest-base (differs-base c d e) s)

  Nearest-forward :
      {c a : NodeClass} {h : H}
      → differs c ≡ false
      → Nearest base overrides c a h
      → Nearest forward overrides c a h
  Nearest-forward k (own o) = own o
  Nearest-forward {c = c} k (inherited {d = d} o e s) =
      inherited o (forward-base c k ∙ e) (Nearest-forward (differs-base c d e) s)

  -- At a node of a class other than `MixinExp`, `CompoundLiteralExp` and `AliasAssign`, `accept` runs
  -- an override exactly when it is that of the nearest class which the visitor overrides, among
  -- the class of the node and those that it derives from in the class headers.
  pub accept-iff-Nearest :
      (c : NodeClass) (h : H)
      → differs c ≡ false
      → (accept overrides c ≡ handled h) ↔ ((a : NodeClass) × Nearest base overrides c a h)
  unfolding accept
  accept-iff-Nearest c h k = (
    λ e. let (a, s) = visit-Nearest forward overrides 5 c h e in (a, Nearest-base k s),
    λ (a, s). Nearest-visit forward overrides 5 (forward-climbs c) (Nearest-forward k s),
  )
