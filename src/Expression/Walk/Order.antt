-- ===== src/Expression/Walk/Order.antt =====
-- The order of `walkPostorder` over an expression: the list of what it visits, and what it does
-- with a visitor.
use dmd.Prelude.{Bool, true, false, List, [], ◌∷◌, ◌++◌, ◌≡◌, refl, sym, inl, inr, Bool-cases}
use mathlib.Core.Path.{fun_ext}
use dmd.Expression.Tree.{
  Expression, Nullable, Expressions, null, node, nil, cons, leaf, una_exp, bin_exp, cat_exp,
  cat_assign_exp, equal_exp, assert_exp, call_exp, array_exp, slice_exp, array_literal_exp,
  assoc_array_literal_exp, struct_literal_exp, tuple_exp, new_exp, new_anon_class_exp, typeid_exp,
  cond_exp, declaration_exp,
}
use dmd.Expression.Walk.{Visitor, ◌⊳◌, entered, walk, do_cond, do_all}

-- The parts of an expression, each with what is below it, and then the expression.
unfoldable mutual
  pub postorder : Expression → List Expression
  postorder (leaf h f) = leaf h f ∷ []
  postorder (una_exp h f a) = postorder a ++ una_exp h f a ∷ []
  postorder (bin_exp h f a b) = postorder a ++ (postorder b ++ bin_exp h f a b ∷ [])
  postorder (cat_exp h null a b) = postorder a ++ (postorder b ++ cat_exp h null a b ∷ [])
  postorder (cat_exp h (node l) a b) = postorder l ++ cat_exp h (node l) a b ∷ []
  postorder (cat_assign_exp h f null a b) =
      postorder a ++ (postorder b ++ cat_assign_exp h f null a b ∷ [])
  postorder (cat_assign_exp h f (node l) a b) = postorder l ++ cat_assign_exp h f (node l) a b ∷ []
  postorder (equal_exp h null a b) = postorder a ++ (postorder b ++ equal_exp h null a b ∷ [])
  postorder (equal_exp h (node l) a b) = postorder l ++ equal_exp h (node l) a b ∷ []
  postorder (assert_exp h f a m) = postorder a ++ (pointed m ++ assert_exp h f a m ∷ [])
  postorder (call_exp h f g a args) = postorder a ++ (all_of args ++ call_exp h f g a args ∷ [])
  postorder (array_exp h f a args) = postorder a ++ (all_of args ++ array_exp h f a args ∷ [])
  postorder (slice_exp h f a u l) =
      postorder a ++ (pointed l ++ (pointed u ++ slice_exp h f a u l ∷ []))
  postorder (array_literal_exp h f b es) =
      pointed b ++ (all_of es ++ array_literal_exp h f b es ∷ [])
  postorder (assoc_array_literal_exp h f ks vs) =
      all_of ks ++ (all_of vs ++ assoc_array_literal_exp h f ks vs ∷ [])
  postorder (struct_literal_exp h f es) = elim f.applying [
    | true ↦ []
    | false ↦ all_of es ++ struct_literal_exp h (entered f) es ∷ []
  ]
  postorder (tuple_exp h e0 es) = pointed e0 ++ (all_of es ++ tuple_exp h e0 es ∷ [])
  postorder (new_exp h f m t p args) =
      pointed p ++ (pointed t ++ (all_of args ++ new_exp h f m t p args ∷ []))
  postorder (new_anon_class_exp h f t p args) =
      pointed p ++ (pointed t ++ (all_of args ++ new_anon_class_exp h f t p args ∷ []))
  postorder (typeid_exp h o) = pointed o ++ typeid_exp h o ∷ []
  postorder (cond_exp h c a b) =
      postorder c ++ (postorder a ++ (postorder b ++ cond_exp h c a b ∷ []))
  postorder (declaration_exp h d) = declaration_exp h d ∷ []

  pub pointed : Nullable → List Expression
  pointed null = []
  pointed (node e) = postorder e

  pub all_of : Expressions → List Expression
  all_of nil = []
  all_of (cons e es) = pointed e ++ all_of es

module _ {S : Type 0} (v : Visitor S) where
  -- The visitor on the expressions of a list, one after another, until it stops.
  unfoldable pub run : List Expression → S → S × Bool
  run [] s = (s, false)
  run (e ∷ es) s = v e s ⊳ run es

  ⊳-assoc : (r : S × Bool) (f g : S → S × Bool) → ((r ⊳ f) ⊳ g) ≡ (r ⊳ λ s. f s ⊳ g)
  unfolding ◌⊳◌
  ⊳-assoc (s, true) f g = refl
  ⊳-assoc (s, false) f g = refl

  ⊳-nil : (r : S × Bool) → (r ⊳ λ s. (s, false)) ≡ r
  unfolding ◌⊳◌
  ⊳-nil (s, true) = refl
  ⊳-nil (s, false) = refl

  run-append : (xs ys : List Expression) (s : S) → run (xs ++ ys) s ≡ (run xs s ⊳ run ys)
  unfolding run ◌⊳◌
  run-append [] ys s = refl
  run-append (x ∷ xs) ys s = simp (run-append xs ys, ⊳-assoc)

  run-parts : (xs ys : List Expression) → run (xs ++ ys) ≡ λ s. run xs s ⊳ run ys
  run-parts xs ys = fun_ext (run-append xs ys)

  run-nil : (s : S) → run [] s ≡ (s, false)
  unfolding run
  run-nil s = refl

  run_self : (e : Expression) (s : S) → run (e ∷ []) s ≡ v e s
  unfolding run
  run_self e s = ⊳-nil (v e s)

  run-one : (e : Expression) → run (e ∷ []) ≡ v e
  run-one e = fun_ext (run_self e)

  ruleset parts = (run-append, run-parts, run_self, run-one)

  mutual
    unfolding walk postorder

    walk-run : (e : Expression) (s : S) → walk v e s ≡ run (postorder e) s
    walk-run (leaf h f) s = sym (run_self _ s)
    walk-run (una_exp h f a) s = simp (parts, walk-run a)
    walk-run (bin_exp h f a b) s = simp (parts, walk-run a, walk-run b)
    walk-run (cat_exp h null a b) s = simp (parts, walk-run a, walk-run b)
    walk-run (cat_exp h (node l) a b) s = simp (parts, walk-run l)
    walk-run (cat_assign_exp h f null a b) s = simp (parts, walk-run a, walk-run b)
    walk-run (cat_assign_exp h f (node l) a b) s = simp (parts, walk-run l)
    walk-run (equal_exp h null a b) s = simp (parts, walk-run a, walk-run b)
    walk-run (equal_exp h (node l) a b) s = simp (parts, walk-run l)
    walk-run (assert_exp h f a m) s = simp (parts, walk-run a, cond-run m)
    walk-run (call_exp h f g a args) s = simp (parts, walk-run a, all-run args)
    walk-run (array_exp h f a args) s = simp (parts, walk-run a, all-run args)
    walk-run (slice_exp h f a u l) s = simp (parts, walk-run a, cond-run l, cond-run u)
    walk-run (array_literal_exp h f b es) s = simp (parts, cond-run b, all-run es)
    walk-run (assoc_array_literal_exp h f ks vs) s = simp (parts, all-run ks, all-run vs)
    walk-run (struct_literal_exp h f es) s = elim (Bool-cases f.applying) [
      | inl e ↦ rw e (sym (run-nil s))
      | inr e ↦ rw e (simp (parts, all-run es))
    ]
    walk-run (tuple_exp h e0 es) s = simp (parts, cond-run e0, all-run es)
    walk-run (new_exp h f m t p args) s = simp (parts, cond-run p, cond-run t, all-run args)
    walk-run (new_anon_class_exp h f t p args) s =
        simp (parts, cond-run p, cond-run t, all-run args)
    walk-run (typeid_exp h o) s = simp (parts, cond-run o)
    walk-run (cond_exp h c a b) s = simp (parts, walk-run c, walk-run a, walk-run b)
    walk-run (declaration_exp h d) s = sym (run_self _ s)

    cond-run : (e : Nullable) (s : S) → do_cond v e s ≡ run (pointed e) s
    cond-run null s = sym (run-nil s)
    cond-run (node e) s = walk-run e s

    all-run : (es : Expressions) (s : S) → do_all v es s ≡ run (all_of es) s
    all-run nil s = sym (run-nil s)
    all-run (cons e es) s =
        simp (cond-run e, all-run es) (sym (run-append (pointed e) (all_of es) s))

-- The walk with a visitor does what the visitor does on the postorder list, one expression after
-- another until it stops.
pub walk-eq-run :
    {S : Type 0} (v : Visitor S) (e : Expression) (s : S) → walk v e s ≡ run v (postorder e) s
walk-eq-run v e s = walk-run v e s
