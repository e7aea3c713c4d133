-- ===== src/Expression/Casts/Exact.antt =====
-- The down-casts of compiler/include/dmd/expression.h against the table `ExpOpTypePairs` of
-- compiler/src/dmd/expression.d.
use dmd.Prelude.{
  Bool, true, false, ◌&&◌, ◌||◌, Option, none, some, List, [], ◌∷◌, ◌≡◌, ◌≢◌, ◌↔◌, refl, sym, ap,
  ◌∙◌, &&-left, &&-right, arith, inl, inr, Bool-cases,
}
use dmd.Expression.Op.{Exp, reserved, same_op, same_op_sound, value}
use dmd.Expression.Tree.{Expression, head}
use dmd.Expression.NodeClass.{class_of}
use dmd.Expression.Casts.{one_of, cast_ops, down_cast}
use dmd.Expression.OpClass.{class_of_op}
use dmd.Visitor.Expressions.{ExpressionClass, expression, cmp_exp}
use dmd.Expression.Classes.{same_class, same_class_sound, class_number}

-- The table names the class for every operator of a list.
all_of_class : ExpressionClass → List Exp → Bool
all_of_class c [] = true
all_of_class c (op ∷ ops) =
    elim (class_of_op op) [ none ↦ false | some d ↦ same_class d c ] && all_of_class c ops

cast_ops-class : (c : ExpressionClass) → all_of_class c (cast_ops c) ≡ true
unfolding all_of_class cast_ops class_of_op same_class class_number
cast_ops-class expression = refl
cast_ops-class _ = refl

named :
    (c : ExpressionClass) (o : Option ExpressionClass)
    → elim o [ none ↦ false | some d ↦ same_class d c ] ≡ true
    → o ≡ some c
named c none h = cc
named c (some d) h = ap some (same_class_sound d c h)

or_false : (a b : Bool) → a ≡ false → (a || b) ≡ true → b ≡ true
or_false a b e h = ground arith

one_of-class :
    (c : ExpressionClass) (op : Exp) (ops : List Exp)
    → all_of_class c ops ≡ true
    → one_of op ops ≡ true
    → class_of_op op ≡ some c
unfolding one_of all_of_class
one_of-class c op [] t h = cc
one_of-class c op (x ∷ xs) t h = elim (Bool-cases (same_op op x)) [
  | inl e ↦ ap class_of_op (same_op_sound op x e) ∙ named c (class_of_op x) (&&-left _ _ t)
  | inr e ↦ one_of-class c op xs (&&-right _ _ t) (or_false _ _ e h)
]

-- The table's class has a down-cast that gives a node with the operator.
cast_at : Exp → Bool
cast_at op = elim (class_of_op op) [ none ↦ true | some c ↦ same_class c cmp_exp || down_cast c op ]

cast_everywhere : (op : Exp) → cast_at op ≡ true
unfolding cast_at class_of_op down_cast same_class class_number same_op value
cast_everywhere reserved = refl
cast_everywhere _ = refl

cast_for :
    (c : ExpressionClass) (op : Exp) (o : Option ExpressionClass)
    → o ≡ some c
    → elim o [ none ↦ true | some d ↦ same_class d cmp_exp || down_cast d op ] ≡ true
    → (same_class c cmp_exp || down_cast c op) ≡ true
cast_for c op none e h = cc
cast_for c op (some d) e h = ground arith

not_same : (c d : ExpressionClass) → c ≢ d → same_class c d ≡ false
not_same c d ne = elim (Bool-cases (same_class c d)) [
  | inl e ↦ absurd (ne (same_class_sound c d e))
  | inr e ↦ e
]

-- A down-cast other than to `CmpExp` gives a node, and not null, exactly if its class is the one that
-- the table of operators and classes names for the operator of the node.
pub down_cast-iff-class :
    (c : ExpressionClass) (op : Exp)
    → c ≢ cmp_exp
    → (down_cast c op ≡ true) ↔ (class_of_op op ≡ some c)
unfolding down_cast cast_at
down_cast-iff-class c op ne = (
  one_of-class c op (cast_ops c) (cast_ops-class c),
  λ e. or_false _ _ (not_same c cmp_exp ne) (cast_for c op (class_of_op op) e (cast_everywhere op)),
)

-- The table names the class of the node for its operator, as the constructors of the classes set it.
abbrev pub IsTyped : Expression → Type 0
IsTyped e = class_of_op (head e).op ≡ some (class_of e)

-- At a node whose operator is one of its class, a down-cast other than to `CmpExp` gives the node, and
-- not null, exactly if the node is of that class.
pub down_cast-iff-class_of :
    (e : Expression) (c : ExpressionClass)
    → IsTyped e
    → c ≢ cmp_exp
    → (down_cast c (head e).op ≡ true) ↔ (class_of e ≡ c)
down_cast-iff-class_of e c typed ne =
    let (to, back) = down_cast-iff-class c (head e).op ne in
    (λ h. some_inj (class_of e) c (sym typed ∙ to h), λ q. back (typed ∙ ap some q))
  where
    some_inj : (a b : ExpressionClass) → ◌≡◌ {A = Option ExpressionClass} (some a) (some b) → a ≡ b
    some_inj a b h = cc
