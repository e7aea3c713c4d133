-- ===== src/Expression/Walk.antt =====
-- `walkPostorder` of an expression: `PostorderExpressionVisitor` of
-- compiler/src/dmd/visitor/postorder.d.
pub mod Order
pub mod Dispatch
use dmd.Prelude.{Bool, true, false, List, [], ◌∷◌, ◌++◌}
use dmd.Expression.Fields.{StructLiteralExp}
use dmd.Expression.Tree.{
  Expression, Nullable, Expressions, null, node, nil, cons, leaf, una_exp, bin_exp, cat_exp,
  cat_assign_exp, equal_exp, assert_exp, call_exp, array_exp, slice_exp, array_literal_exp,
  assoc_array_literal_exp, struct_literal_exp, tuple_exp, new_exp, new_anon_class_exp, typeid_exp,
  cond_exp, declaration_exp,
}

-- A `StoppableVisitor`: at an expression it goes to a new state, and may set `stop`.
abbrev pub Visitor : Type 0 → Type 0
Visitor S = Expression → S → S × Bool

-- `a || b`, where each part gives the state and `stop`.
infixr 30 ◌⊳◌
unfoldable pub ◌⊳◌ : {S : Type 0} → S × Bool → (S → S × Bool) → S × Bool
(s, true) ⊳ k = (s, true)
(s, false) ⊳ k = k s

-- The literal as `v` sees it, while the walk is in it.
abbrev pub entered : StructLiteralExp → StructLiteralExp
entered f = record f { applying = true }

module _ {S : Type 0} (v : Visitor S) where
  unfoldable mutual
    -- `e.accept(this)` of the walk, with `stop` not set.
    pub walk : Expression → S → S × Bool
    walk (leaf h f) s = v (leaf h f) s
    walk (una_exp h f a) s = walk a s ⊳ v (una_exp h f a)
    walk (bin_exp h f a b) s = walk a s ⊳ λ s. walk b s ⊳ v (bin_exp h f a b)
    walk (cat_exp h null a b) s = walk a s ⊳ λ s. walk b s ⊳ v (cat_exp h null a b)
    walk (cat_exp h (node l) a b) s = walk l s ⊳ v (cat_exp h (node l) a b)
    walk (cat_assign_exp h f null a b) s =
        walk a s ⊳ λ s. walk b s ⊳ v (cat_assign_exp h f null a b)
    walk (cat_assign_exp h f (node l) a b) s = walk l s ⊳ v (cat_assign_exp h f (node l) a b)
    walk (equal_exp h null a b) s = walk a s ⊳ λ s. walk b s ⊳ v (equal_exp h null a b)
    walk (equal_exp h (node l) a b) s = walk l s ⊳ v (equal_exp h (node l) a b)
    walk (assert_exp h f a m) s = walk a s ⊳ λ s. do_cond m s ⊳ v (assert_exp h f a m)
    walk (call_exp h f g a args) s = walk a s ⊳ λ s. do_all args s ⊳ v (call_exp h f g a args)
    walk (array_exp h f a args) s = walk a s ⊳ λ s. do_all args s ⊳ v (array_exp h f a args)
    walk (slice_exp h f a u l) s =
        walk a s ⊳ λ s. do_cond l s ⊳ λ s. do_cond u s ⊳ v (slice_exp h f a u l)
    walk (array_literal_exp h f b es) s =
        do_cond b s ⊳ λ s. do_all es s ⊳ v (array_literal_exp h f b es)
    walk (assoc_array_literal_exp h f ks vs) s =
        do_all ks s ⊳ λ s. do_all vs s ⊳ v (assoc_array_literal_exp h f ks vs)
    walk (struct_literal_exp h f es) s = elim f.applying [
      | true ↦ (s, false)
      | false ↦ do_all es s ⊳ v (struct_literal_exp h (entered f) es)
    ]
    walk (tuple_exp h e0 es) s = do_cond e0 s ⊳ λ s. do_all es s ⊳ v (tuple_exp h e0 es)
    walk (new_exp h f m t p args) s =
        do_cond p s ⊳ λ s. do_cond t s ⊳ λ s. do_all args s ⊳ v (new_exp h f m t p args)
    walk (new_anon_class_exp h f t p args) s =
        do_cond p s ⊳ λ s. do_cond t s ⊳ λ s. do_all args s ⊳ v (new_anon_class_exp h f t p args)
    walk (typeid_exp h o) s = do_cond o s ⊳ v (typeid_exp h o)
    walk (cond_exp h c a b) s = walk c s ⊳ λ s. walk a s ⊳ λ s. walk b s ⊳ v (cond_exp h c a b)
    walk (declaration_exp h d) s = v (declaration_exp h d) s

    -- `doCond(Expression)`
    pub do_cond : Nullable → S → S × Bool
    do_cond null s = (s, false)
    do_cond (node e) s = walk e s

    -- `doCond(Expression[])`
    pub do_all : Expressions → S → S × Bool
    do_all nil s = (s, false)
    do_all (cons e es) s = do_cond e s ⊳ do_all es
