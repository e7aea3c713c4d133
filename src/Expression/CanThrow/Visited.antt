-- ===== src/Expression/CanThrow/Visited.antt =====
-- `canThrow` of compiler/src/dmd/canthrow.d as the walk that it is: the flags of all that it
-- visits.
use dmd.Prelude.{
  Bool, false, Option, none, some, ◌≡◌, refl, sym, ap, ◌∙◌, List, [], ◌∷◌, Bool-cases, inl, inr,
  arith,
}
use dmd.Expression.Tree.{
  Expression, Nullable, Expressions, null, node, nil, cons, leaf, una_exp, bin_exp, cat_exp,
  cat_assign_exp, equal_exp, assert_exp, call_exp, array_exp, slice_exp, array_literal_exp,
  assoc_array_literal_exp, struct_literal_exp, tuple_exp, new_exp, new_anon_class_exp, typeid_exp,
  cond_exp, declaration_exp,
}
use dmd.Expression.Walk.{Visitor, ◌⊳◌, walk, do_cond, do_all}
use dmd.Expression.Walk.Order.{postorder, run, walk-eq-run}
use dmd.Expression.CanThrow.{can_throw, can_throw_pointer, can_throw_all, dsymbol_can_throw}
use dmd.Expression.ThrowRules.{Ct, no_throw, ◌∪◌, Context, visit_node}

-- What the visitor `CanThrow` adds at an expression.
unfoldable pub visit : Context → Expression → Option Ct
visit c (declaration_exp h d) = dsymbol_can_throw c d
visit c (leaf h f) = visit_node c (leaf h f)
visit c e = visit_node c e

-- The visitor: it never stops.
abbrev pub collect : Context → Visitor (Option Ct)
collect c e s = (s ∪ visit c e, false)

∪-assoc : (a b d : Option Ct) → (a ∪ b) ∪ d ≡ a ∪ (b ∪ d)
unfolding ◌∪◌
∪-assoc none b d = refl
∪-assoc (some x) none d = refl
∪-assoc (some x) (some y) none = refl
∪-assoc (some x) (some y) (some z) = ground arith

∪-no_throw : (a : Option Ct) → a ∪ some no_throw ≡ a
unfolding ◌∪◌
∪-no_throw none = refl
∪-no_throw (some x) = ground arith

no_throw-∪ : (a : Option Ct) → some no_throw ∪ a ≡ a
unfolding ◌∪◌
no_throw-∪ none = refl
no_throw-∪ (some x) = ground arith

go_on : {S : Type 0} (s : S) (k : S → S × Bool) → ((s, false) ⊳ k) ≡ k s
unfolding ◌⊳◌
go_on s k = refl

ruleset flags = (∪-assoc, ∪-no_throw, go_on)

module _ (c : Context) where
  mutual
    unfolding walk can_throw visit visit_node

    walk-collect :
        (e : Expression) (s : Option Ct) → walk (collect c) e s ≡ (s ∪ can_throw c e, false)
    walk-collect (leaf h f) s = refl
    walk-collect (una_exp h f a) s = simp (flags, walk-collect a)
    walk-collect (bin_exp h f a b) s = simp (flags, walk-collect a, walk-collect b)
    walk-collect (cat_exp h null a b) s = simp (flags, walk-collect a, walk-collect b)
    walk-collect (cat_exp h (node l) a b) s = simp (flags, walk-collect l)
    walk-collect (cat_assign_exp h f null a b) s = simp (flags, walk-collect a, walk-collect b)
    walk-collect (cat_assign_exp h f (node l) a b) s = simp (flags, walk-collect l)
    walk-collect (equal_exp h null a b) s = simp (flags, walk-collect a, walk-collect b)
    walk-collect (equal_exp h (node l) a b) s = simp (flags, walk-collect l)
    walk-collect (assert_exp h f a m) s = simp (flags, walk-collect a, cond-collect m)
    walk-collect (call_exp h f g a args) s = simp (flags, walk-collect a, all-collect args)
    walk-collect (array_exp h f a args) s = simp (flags, walk-collect a, all-collect args)
    walk-collect (slice_exp h f a u l) s =
        simp (flags, walk-collect a, cond-collect l, cond-collect u)
    walk-collect (array_literal_exp h f b es) s = simp (flags, cond-collect b, all-collect es)
    walk-collect (assoc_array_literal_exp h f ks vs) s =
        simp (flags, all-collect ks, all-collect vs)
    walk-collect (struct_literal_exp h f es) s = elim (Bool-cases f.applying) [
      | inl e ↦ rw e (simp flags)
      | inr e ↦ rw e (simp (flags, all-collect es))
    ]
    walk-collect (tuple_exp h e0 es) s = simp (flags, cond-collect e0, all-collect es)
    walk-collect (new_exp h f m t p args) s =
        simp (flags, cond-collect p, cond-collect t, all-collect args)
    walk-collect (new_anon_class_exp h f t p args) s =
        simp (flags, cond-collect p, cond-collect t, all-collect args)
    walk-collect (typeid_exp h o) s = simp (flags, cond-collect o)
    walk-collect (cond_exp h e a b) s = simp (flags, walk-collect e, walk-collect a, walk-collect b)
    walk-collect (declaration_exp h d) s = refl

    cond-collect :
        (e : Nullable) (s : Option Ct)
        → do_cond (collect c) e s ≡ (s ∪ can_throw_pointer c e, false)
    cond-collect null s = simp flags
    cond-collect (node e) s = walk-collect e s

    all-collect :
        (es : Expressions) (s : Option Ct)
        → do_all (collect c) es s ≡ (s ∪ can_throw_all c es, false)
    all-collect nil s = simp flags
    all-collect (cons e es) s = simp (flags, cond-collect e, all-collect es)

  -- The flags of all expressions of a list.
  unfoldable pub total : List Expression → Option Ct
  total [] = some no_throw
  total (e ∷ es) = visit c e ∪ total es

  run-collect :
      (es : List Expression) (s : Option Ct) → run (collect c) es s ≡ (s ∪ total es, false)
  unfolding run total
  run-collect [] s = simp flags
  run-collect (e ∷ es) s = simp (flags, run-collect es)

  pub can_throw-total : (e : Expression) → can_throw c e ≡ total (postorder e)
  can_throw-total e =
      sym (no_throw-∪ _)
      ∙ ap (λ r. r.0)
          (sym (walk-collect e (some no_throw))
            ∙ walk-eq-run (collect c) e (some no_throw)
            ∙ run-collect (postorder e) (some no_throw))
      ∙ no_throw-∪ _

  -- `canThrow` is the walk of the visitor that collects the flags, and never stops.
  pub can_throw-eq-walk :
      (e : Expression) → walk (collect c) e (some no_throw) ≡ (can_throw c e, false)
  can_throw-eq-walk e = simp (walk-collect e, no_throw-∪)
