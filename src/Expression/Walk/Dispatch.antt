-- ===== src/Expression/Walk/Dispatch.antt =====
-- Which overload of `PostorderExpressionVisitor` (compiler/src/dmd/visitor/postorder.d) the dispatch of
-- compiler/include/dmd/visitor.h runs at a node, and what that overload visits.
use dmd.Prelude.{Bool, false, Option, none, some, List, [], ◌∷◌, ◌++◌, ◌≡◌, refl, append_assoc}
use dmd.Visitor.Expressions.{ExpressionClass, forward}
use dmd.Visitor.Dispatch.{handled, visit}
use dmd.Visitor.Nodes.{NodeClass, of_expression, accept, forward as node_forward}
use dmd.Expression.Tree.{
  Expression, Nullable, Expressions, null, node, nil, leaf, cat_exp, cat_assign_exp, equal_exp,
  assert_exp, call_exp, array_exp, slice_exp, array_literal_exp, assoc_array_literal_exp,
  struct_literal_exp, tuple_exp, new_exp, new_anon_class_exp, typeid_exp, cond_exp, declaration_exp,
  Leaf, Unary, Binary, CatAssign, cat_assign, una_exp, bin_exp, error_exp, import_exp, dot_exp,
}
use dmd.Expression.Walk.{entered}
use dmd.Expression.Walk.Order.{postorder, pointed, all_of}
use dmd.Expression.NodeClass.{class_of, leaf_class, unary_class, binary_class, cat_assign_class}

-- The overloads of `PostorderExpressionVisitor`.
pub data Overload : Type 0 where
  visit_expression visit_new visit_new_anon_class visit_typeid visit_una visit_bin visit_cat
        visit_cat_assign visit_equal visit_assert visit_call visit_array visit_slice
        visit_array_literal visit_assoc_array_literal visit_struct_literal visit_tuple visit_cond :
      Overload

unfoldable pub overload : ExpressionClass → Option Overload
overload ExpressionClass.expression = some visit_expression
overload ExpressionClass.new_exp = some visit_new
overload ExpressionClass.new_anon_class_exp = some visit_new_anon_class
overload ExpressionClass.typeid_exp = some visit_typeid
overload ExpressionClass.una_exp = some visit_una
overload ExpressionClass.bin_exp = some visit_bin
overload ExpressionClass.cat_exp = some visit_cat
overload ExpressionClass.cat_assign_exp = some visit_cat_assign
overload ExpressionClass.equal_exp = some visit_equal
overload ExpressionClass.assert_exp = some visit_assert
overload ExpressionClass.call_exp = some visit_call
overload ExpressionClass.array_exp = some visit_array
overload ExpressionClass.slice_exp = some visit_slice
overload ExpressionClass.array_literal_exp = some visit_array_literal
overload ExpressionClass.assoc_array_literal_exp = some visit_assoc_array_literal
overload ExpressionClass.struct_literal_exp = some visit_struct_literal
overload ExpressionClass.tuple_exp = some visit_tuple
overload ExpressionClass.cond_exp = some visit_cond
overload _ = none

unfoldable pub overrides : NodeClass → Option Overload
unfolding overload
overrides (of_expression c) = overload c
overrides _ = none

-- The member `e1` of a class that has it.
unfoldable pub e1 : Expression → Nullable
e1 (una_exp _ _ a) = node a
e1 (bin_exp _ _ a _) = node a
e1 (cat_exp _ _ a _) = node a
e1 (cat_assign_exp _ _ _ a _) = node a
e1 (equal_exp _ _ a _) = node a
e1 (assert_exp _ _ a _) = node a
e1 (call_exp _ _ _ a _) = node a
e1 (array_exp _ _ a _) = node a
e1 (slice_exp _ _ a _ _) = node a
e1 (cond_exp _ _ a _) = node a
e1 _ = null

-- The member `e2` of a class that has it.
unfoldable pub e2 : Expression → Nullable
e2 (bin_exp _ _ _ b) = node b
e2 (cat_exp _ _ _ b) = node b
e2 (cat_assign_exp _ _ _ _ b) = node b
e2 (equal_exp _ _ _ b) = node b
e2 (cond_exp _ _ _ b) = node b
e2 _ = null

-- The member `lowering` of a class that has it.
unfoldable pub lowering : Expression → Nullable
lowering (cat_exp _ l _ _) = l
lowering (cat_assign_exp _ _ l _ _) = l
lowering (equal_exp _ l _ _) = l
lowering _ = null

-- The member `arguments` of a class that has it.
unfoldable pub arguments : Expression → Expressions
arguments (call_exp _ _ _ _ args) = args
arguments (array_exp _ _ _ args) = args
arguments (new_exp _ _ _ _ _ args) = args
arguments (new_anon_class_exp _ _ _ _ args) = args
arguments _ = nil

-- The member `placement` of a class that has it.
unfoldable pub placement : Expression → Nullable
placement (new_exp _ _ _ _ p _) = p
placement (new_anon_class_exp _ _ _ p _) = p
placement _ = null

-- The member `thisexp` of a class that has it.
unfoldable pub thisexp : Expression → Nullable
thisexp (new_exp _ _ _ t _ _) = t
thisexp (new_anon_class_exp _ _ t _ _) = t
thisexp _ = null

either_way : Nullable → List Expression → List Expression
either_way null parts = parts
either_way (node l) parts = postorder l

-- What an overload visits before the node itself, as lists.
unfoldable pub visited_by : Overload → Expression → List Expression
unfolding either_way e1 e2 lowering arguments placement thisexp
visited_by visit_expression e = []
visited_by visit_new e = pointed (placement e) ++ (pointed (thisexp e) ++ all_of (arguments e))
visited_by visit_new_anon_class e =
    pointed (placement e) ++ (pointed (thisexp e) ++ all_of (arguments e))
visited_by visit_typeid (typeid_exp _ o) = pointed o
visited_by visit_una e = pointed (e1 e)
visited_by visit_bin e = pointed (e1 e) ++ pointed (e2 e)
visited_by visit_cat e = either_way (lowering e) (pointed (e1 e) ++ pointed (e2 e))
visited_by visit_cat_assign e = either_way (lowering e) (pointed (e1 e) ++ pointed (e2 e))
visited_by visit_equal e = either_way (lowering e) (pointed (e1 e) ++ pointed (e2 e))
visited_by visit_assert (assert_exp _ _ a m) = postorder a ++ pointed m
visited_by visit_call e = pointed (e1 e) ++ all_of (arguments e)
visited_by visit_array e = pointed (e1 e) ++ all_of (arguments e)
visited_by visit_slice (slice_exp _ _ a u l) = postorder a ++ (pointed l ++ pointed u)
visited_by visit_array_literal (array_literal_exp _ _ b es) = pointed b ++ all_of es
visited_by visit_assoc_array_literal (assoc_array_literal_exp _ _ ks vs) = all_of ks ++ all_of vs
visited_by visit_struct_literal (struct_literal_exp _ _ es) = all_of es
visited_by visit_tuple (tuple_exp _ e0 es) = pointed e0 ++ all_of es
visited_by visit_cond (cond_exp _ c a b) = postorder c ++ (postorder a ++ postorder b)
visited_by _ e = []

-- The node as it is visited: a struct literal carries the flag of the walk then.
abbrev pub seen : Expression → Expression
seen (struct_literal_exp h f es) = struct_literal_exp h (entered f) es
seen e = e

-- A struct literal that a walk is in already.
abbrev pub is_applying : Expression → Bool
is_applying (struct_literal_exp h f es) = f.applying
is_applying _ = false

leaf_dispatch :
    (f : Leaf) → accept overrides (of_expression (leaf_class f)) ≡ handled visit_expression
unfolding accept visit overrides node_forward forward leaf_class
leaf_dispatch error_exp = refl
leaf_dispatch _ = refl

unary_dispatch : (f : Unary) → accept overrides (of_expression (unary_class f)) ≡ handled visit_una
unfolding accept visit overrides node_forward forward unary_class
unary_dispatch import_exp = refl
unary_dispatch _ = refl

binary_dispatch :
    (f : Binary) → accept overrides (of_expression (binary_class f)) ≡ handled visit_bin
unfolding accept visit overrides node_forward forward binary_class
binary_dispatch dot_exp = refl
binary_dispatch _ = refl

cat_assign_dispatch :
    (f : CatAssign)
    → accept overrides (of_expression (cat_assign_class f)) ≡ handled visit_cat_assign
unfolding accept visit overrides node_forward forward cat_assign_class
cat_assign_dispatch cat_assign = refl
cat_assign_dispatch _ = refl

-- At every node but a struct literal that a walk is in already, `accept` runs an overload of the
-- visitor, and the postorder list of the node is what that overload visits, and then the node.
pub postorder-accept :
    (e : Expression)
    → is_applying e ≡ false
    → (o : Overload) × (accept overrides (of_expression (class_of e)) ≡ handled o)
      × (postorder e ≡ visited_by o e ++ seen e ∷ [])
unfolding accept visit overrides node_forward forward class_of postorder visited_by
postorder-accept (leaf h f) _ = (visit_expression, leaf_dispatch f, refl)
postorder-accept (una_exp h f a) _ = (visit_una, unary_dispatch f, refl)
postorder-accept (bin_exp h f a b) _ = (visit_bin, binary_dispatch f, simp append_assoc)
postorder-accept (cat_exp h null a b) _ = (visit_cat, refl, simp append_assoc)
postorder-accept (cat_exp h (node l) a b) _ = (visit_cat, refl, refl)
postorder-accept (cat_assign_exp h f null a b) _ =
    (visit_cat_assign, cat_assign_dispatch f, simp append_assoc)
postorder-accept (cat_assign_exp h f (node l) a b) _ =
    (visit_cat_assign, cat_assign_dispatch f, refl)
postorder-accept (equal_exp h null a b) _ = (visit_equal, refl, simp append_assoc)
postorder-accept (equal_exp h (node l) a b) _ = (visit_equal, refl, refl)
postorder-accept (assert_exp h f a m) _ = (visit_assert, refl, simp append_assoc)
postorder-accept (call_exp h f g a args) _ = (visit_call, refl, simp append_assoc)
postorder-accept (array_exp h f a args) _ = (visit_array, refl, simp append_assoc)
postorder-accept (slice_exp h f a u l) _ = (visit_slice, refl, simp append_assoc)
postorder-accept (array_literal_exp h f b es) _ = (visit_array_literal, refl, simp append_assoc)
postorder-accept (assoc_array_literal_exp h f ks vs) _ =
    (visit_assoc_array_literal, refl, simp append_assoc)
postorder-accept (struct_literal_exp h f es) idle = (visit_struct_literal, refl, rw idle)
postorder-accept (tuple_exp h e0 es) _ = (visit_tuple, refl, simp append_assoc)
postorder-accept (new_exp h f m t p args) _ = (visit_new, refl, simp append_assoc)
postorder-accept (new_anon_class_exp h f t p args) _ =
    (visit_new_anon_class, refl, simp append_assoc)
postorder-accept (typeid_exp h o) _ = (visit_typeid, refl, refl)
postorder-accept (cond_exp h c a b) _ = (visit_cond, refl, simp append_assoc)
postorder-accept (declaration_exp h d) _ = (visit_expression, refl, refl)
