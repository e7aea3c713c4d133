-- ===== src/Expression/Casts/Derived.antt =====
-- `isUnaExp`, `isBinExp` and `isBinAssignExp` of compiler/src/dmd/expression.d against the classes
-- that the class of a node is derived from.
use dmd.Prelude.{
  Bool, true, false, ◌||◌, ◌&&◌, not, &&-left, &&-right, Option, none, some, ◌≡◌, ◌≢◌, ◌↔◌, ◌⊎◌,
  subst, refl, sym, ◌∙◌, arith, same, same_sound, inl, inr, Bool-cases,
}
use dmd.Expression.Op.{Exp, reserved, same_op, value}
use dmd.Expression.Classes.{same_class, same_class_sound, same_class_self, class_number}
use dmd.Expression.Casts.{is_una_exp, is_bin_exp, is_bin_assign_exp}
use dmd.Expression.OpClass.{class_of_op}
use dmd.Visitor.Expressions.{
  ExpressionClass, forward, una_exp, bin_exp, bin_assign_exp, lowered_assign_exp,
}
use dmd.Visitor.Dispatch.{Above}
use dmd.Visitor.Hierarchy.{expression_climbs}
use dmd.Visitor.Reaches.{reaches, reaches-Above, Above-reaches}

-- The class is derived from the wanted one.
derived : ExpressionClass → ExpressionClass → Bool
derived wanted c = reaches forward (λ a. same_class a wanted) 5 c

either_derived : ExpressionClass → Bool
unfolding derived
either_derived c = derived una_exp c || derived bin_exp c

-- A test at an operator agrees with the class that the table names, `LoweredAssignExp` apart.
agrees : (Exp → Bool) → (ExpressionClass → Bool) → Exp → Bool
agrees t d op = elim (class_of_op op) [
  | none ↦ true
  | some c ↦ same (t op) (d c && not (same_class c lowered_assign_exp))
]

bin_agrees : (op : Exp) → agrees is_bin_exp (derived bin_exp) op ≡ true
unfolding agrees is_bin_exp derived reaches class_of_op same_class class_number same_op value
    forward
bin_agrees reserved = refl
bin_agrees _ = refl

bin_assign_agrees : (op : Exp) → agrees is_bin_assign_exp (derived bin_assign_exp) op ≡ true
unfolding agrees is_bin_assign_exp derived reaches class_of_op same_class class_number same_op value
    forward
bin_assign_agrees reserved = refl
bin_assign_agrees _ = refl

una_agrees : (op : Exp) → agrees is_una_exp either_derived op ≡ true
unfolding agrees is_una_exp either_derived derived reaches class_of_op same_class class_number
    same_op value forward
una_agrees reserved = refl
una_agrees _ = refl

derived-iff-Above :
    (wanted c : ExpressionClass) → (derived wanted c ≡ true) ↔ Above forward c wanted
unfolding derived
derived-iff-Above wanted c = (
  λ r.
      let (a, p, e) = reaches-Above forward _ 5 c r in
      subst (Above forward c) (same_class_sound a wanted e) p,
  λ p. Above-reaches forward _ 5 (expression_climbs c) p (same_class_self wanted),
)

-- What a check of all operators says at one.
at_class :
    (o : Option ExpressionClass) (f : ExpressionClass → Bool) (c : ExpressionClass)
    → elim o [ none ↦ true | some d ↦ f d ] ≡ true
    → o ≡ some c
    → f c ≡ true
at_class none f c h e = cc
at_class (some d) f c h e = ground arith

-- The test gives true exactly if the class is derived as asked and is not `LoweredAssignExp`.
exactly :
    (c : ExpressionClass) (t d : Bool) {P : Type 0}
    → same t (d && not (same_class c lowered_assign_exp)) ≡ true
    → (d ≡ true) ↔ P
    → (t ≡ true) ↔ (P × (c ≢ lowered_assign_exp))
exactly c t d h (f, g) =
    let eq = same_sound t _ h in
    (
      λ k. (
        f (&&-left _ _ (sym eq ∙ k)),
        λ l. cc (
          subst (λ x. same_class x lowered_assign_exp ≡ true) (sym l) (same_class_self _),
          &&-right d _ (sym eq ∙ k),
        ),
      ),
      λ (p, ne). elim (Bool-cases (same_class c lowered_assign_exp)) [
        | inl e ↦ absurd (ne (same_class_sound c lowered_assign_exp e))
        | inr e ↦ let k = g p in eq ∙ ground arith
      ],
    )

either-iff-Above :
    (c : ExpressionClass)
    → (either_derived c ≡ true) ↔ (Above forward c una_exp ⊎ Above forward c bin_exp)
unfolding either_derived
either-iff-Above c = (
  λ h. elim (Bool-cases (derived una_exp c)) [
    | inl e ↦ inl ((derived-iff-Above una_exp c).0 e)
    | inr e ↦ inr ((derived-iff-Above bin_exp c).0 (or_false _ _ e h))
  ],
  elim [
    | inl p ↦ let k = (derived-iff-Above una_exp c).1 p in ground arith
    | inr p ↦ let k = (derived-iff-Above bin_exp c).1 p in ground arith
  ],
)
  where
    or_false : (a b : Bool) → a ≡ false → (a || b) ≡ true → b ≡ true
    or_false a b e h = ground arith

-- `isBinExp()` and `isBinAssignExp()` give a node, and not null, exactly if its class is derived from
-- `BinExp`, or from `BinAssignExp`, and is not `LoweredAssignExp`; `isUnaExp()` does exactly if it is
-- derived from `UnaExp` or from `BinExp`, and is not `LoweredAssignExp`.
pub tests-iff-Above :
    (op : Exp) (c : ExpressionClass)
    → class_of_op op ≡ some c
    → ((is_bin_exp op ≡ true) ↔ (Above forward c bin_exp × (c ≢ lowered_assign_exp)))
      × ((is_bin_assign_exp op ≡ true)
          ↔ (Above forward c bin_assign_exp × (c ≢ lowered_assign_exp)))
      × ((is_una_exp op ≡ true)
          ↔ ((Above forward c una_exp ⊎ Above forward c bin_exp) × (c ≢ lowered_assign_exp)))
unfolding agrees
tests-iff-Above op c e = (
  exactly c _ _ (at_class (class_of_op op) _ c (bin_agrees op) e) (derived-iff-Above bin_exp c),
  exactly c _ _ (at_class (class_of_op op) _ c (bin_assign_agrees op) e)
      (derived-iff-Above bin_assign_exp c),
  exactly c _ _ (at_class (class_of_op op) _ c (una_agrees op) e) (either-iff-Above c),
)
