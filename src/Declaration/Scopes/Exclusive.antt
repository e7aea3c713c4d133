-- ===== src/Declaration/Scopes/Exclusive.antt =====
-- The storage classes of a scope stay exclusive.
use dmd.Prelude.{
  Bool, true, false, ◌&&◌, ◌||◌, not, ◌≡◌, refl, ap, ◌∙◌, arith, if◌then◌else◌, if_true, List, [],
  ◌∷◌, Bool-cases, inl, inr, &&-left, &&-right,
}
use dmd.Declaration.Storage.{
  Stc, StorageClass, stc_value, join, only, among, meets, without, safe_group,
}
use dmd.Declaration.Scopes.{
  extern_set, gshared_set, const_set, shared_set, clear, new_scope, nested_scope,
}

-- At most one flag of the set.
unfoldable pub lone : List Stc → StorageClass → Bool
unfolding meets
lone [] a = true
lone (s ∷ group) a = if a s then not (meets a group) else lone group a

-- The sets of flags that exclude one another.
pub data Exclusive : List Stc → Type 0 where
  of_extern : Exclusive extern_set
  of_gshared : Exclusive gshared_set
  of_const : Exclusive const_set
  of_shared : Exclusive shared_set
  of_safe : Exclusive safe_group

Sub : StorageClass → StorageClass → Type 0
Sub a b = (s : Stc) → a s ≡ true → b s ≡ true

misses-lone : (group : List Stc) (a : StorageClass) → meets a group ≡ false → lone group a ≡ true
unfolding lone meets
misses-lone [] a h = refl
misses-lone (s ∷ group) a h = ground (arith, misses-lone group a)

meets-Sub :
    (group : List Stc) (a b : StorageClass) → Sub a b → meets a group ≡ true → meets b group ≡ true
unfolding meets Sub
meets-Sub [] a b f h = h
meets-Sub (s ∷ group) a b f h = ground (arith, f s, meets-Sub group a b f)

misses-Sub :
    (group : List Stc) (a b : StorageClass)
    → Sub a b
    → meets b group ≡ false
    → meets a group ≡ false
misses-Sub group a b f h = ground (arith, meets-Sub group a b f)

lone-Sub :
    (group : List Stc) (a b : StorageClass) → Sub a b → lone group b ≡ true → lone group a ≡ true
unfolding lone Sub
lone-Sub [] a b f h = h
lone-Sub (s ∷ group) a b f h = elim (Bool-cases (a s)) [
  | inl e ↦ ground (arith, e, f s e, misses-Sub group a b f)
  | inr e ↦ elim (Bool-cases (b s)) [
    | inl d ↦ ground (arith, e, d, misses-Sub group a b f, misses-lone group a)
    | inr d ↦ ground (arith, e, d, lone-Sub group a b f)
  ]
]

meets-join :
    (group : List Stc) (a b : StorageClass)
    → meets (join a b) group ≡ (meets a group || meets b group)
unfolding meets join
meets-join [] a b = refl
meets-join (s ∷ group) a b = ground (arith, meets-join group a b)

lone-join_right :
    (group : List Stc) (a b : StorageClass)
    → meets a group ≡ false
    → lone group (join a b) ≡ lone group b
unfolding lone join meets
lone-join_right [] a b h = refl
lone-join_right (s ∷ group) a b h = ground (arith, meets-join group a b, lone-join_right group a b)

lone-join_left :
    (group : List Stc) (a b : StorageClass)
    → meets b group ≡ false
    → lone group (join a b) ≡ lone group a
unfolding lone join meets
lone-join_left [] a b h = refl
lone-join_left (s ∷ group) a b h = ground (arith, meets-join group a b, lone-join_left group a b)

clear-Sub : (group : List Stc) (stc a : StorageClass) → Sub (clear group stc a) a
unfolding clear without Sub
clear-Sub group stc a s h = ground arith

Sub-trans : (a b c : StorageClass) → Sub a b → Sub b c → Sub a c
unfolding Sub
Sub-trans a b c f g s h = g s (f s h)

meets-without :
    (group : List Stc)
    → Exclusive group
    → (a : StorageClass) → meets (without group a) group ≡ false
unfolding meets without among only stc_value
meets-without _ of_extern a = ground arith
meets-without _ of_gshared a = ground arith
meets-without _ of_const a = ground arith
meets-without _ of_shared a = ground arith
meets-without _ of_safe a = ground arith

meets-clear :
    (group : List Stc)
    → Exclusive group
    → (stc a : StorageClass) → meets stc group ≡ true
    → meets (clear group stc a) group ≡ false
unfolding clear
meets-clear group e stc a h =
    ap (λ c. meets c group) (if_true (without group a) a h) ∙ meets-without group e a

-- The stages of `new_scope`.
abbrev stage1 : StorageClass → StorageClass → StorageClass
stage1 stc a = clear extern_set stc a

abbrev stage2 : StorageClass → StorageClass → StorageClass
stage2 stc a = clear gshared_set stc (stage1 stc a)

abbrev stage3 : StorageClass → StorageClass → StorageClass
stage3 stc a = clear const_set stc (stage2 stc a)

abbrev stage4 : StorageClass → StorageClass → StorageClass
stage4 stc a = clear shared_set stc (stage3 stc a)

abbrev stage5 : StorageClass → StorageClass → StorageClass
stage5 stc a = clear safe_group stc (stage4 stc a)

stage5-stage4 : (stc a : StorageClass) → Sub (stage5 stc a) (stage4 stc a)
stage5-stage4 stc a = clear-Sub safe_group stc (stage4 stc a)

stage5-stage3 : (stc a : StorageClass) → Sub (stage5 stc a) (stage3 stc a)
stage5-stage3 stc a =
    Sub-trans _ _ _ (stage5-stage4 stc a) (clear-Sub shared_set stc (stage3 stc a))

stage5-stage2 : (stc a : StorageClass) → Sub (stage5 stc a) (stage2 stc a)
stage5-stage2 stc a = Sub-trans _ _ _ (stage5-stage3 stc a) (clear-Sub const_set stc (stage2 stc a))

stage5-stage1 : (stc a : StorageClass) → Sub (stage5 stc a) (stage1 stc a)
stage5-stage1 stc a =
    Sub-trans _ _ _ (stage5-stage2 stc a) (clear-Sub gshared_set stc (stage1 stc a))

stage5-Sub : (stc a : StorageClass) → Sub (stage5 stc a) a
stage5-Sub stc a = Sub-trans _ _ _ (stage5-stage1 stc a) (clear-Sub extern_set stc a)

meets-stage5 :
    (group : List Stc)
    → Exclusive group
    → (stc a : StorageClass) → meets stc group ≡ true
    → meets (stage5 stc a) group ≡ false
meets-stage5 g of_extern stc a h =
    misses-Sub g _ _ (stage5-stage1 stc a) (meets-clear g of_extern stc a h)
meets-stage5 g of_gshared stc a h =
    misses-Sub g _ _ (stage5-stage2 stc a) (meets-clear g of_gshared stc (stage1 stc a) h)
meets-stage5 g of_const stc a h =
    misses-Sub g _ _ (stage5-stage3 stc a) (meets-clear g of_const stc (stage2 stc a) h)
meets-stage5 g of_shared stc a h =
    misses-Sub g _ _ (stage5-stage4 stc a) (meets-clear g of_shared stc (stage3 stc a) h)
meets-stage5 g of_safe stc a h = meets-clear g of_safe stc (stage4 stc a) h

-- The flags of a set in a new scope: those of the declaration if it has any, else those of the
-- enclosing scope, or fewer.
lone-new_scope :
    (group : List Stc)
    → Exclusive group
    → (scstc stc : StorageClass) → lone group scstc ≡ true
    → lone group stc ≡ true
    → lone group (new_scope scstc stc) ≡ true
unfolding new_scope
lone-new_scope group e scstc stc g h = elim (Bool-cases (meets stc group)) [
  | inl m ↦ lone-join_right group _ stc (meets-stage5 group e stc scstc m) ∙ h
  | inr m ↦ lone-join_left group _ stc m ∙ lone-Sub group _ _ (stage5-Sub stc scstc) g
]

-- Each declaration has at most one flag of the set.
unfoldable pub all_lone : List Stc → List StorageClass → Bool
unfolding lone
all_lone group [] = true
all_lone group (stc ∷ stcs) = lone group stc && all_lone group stcs

-- In a scope inside declarations, at most one flag of a set of exclusive ones holds, if it is so in
-- the outermost scope and of each declaration.
pub lone-nested_scope :
    (group : List Stc)
    → Exclusive group
    → (scstc : StorageClass) (stcs : List StorageClass) → lone group scstc ≡ true
    → all_lone group stcs ≡ true
    → lone group (nested_scope scstc stcs) ≡ true
unfolding nested_scope all_lone
lone-nested_scope group e scstc [] g h = g
lone-nested_scope group e scstc (stc ∷ stcs) g h =
    lone-nested_scope group e (new_scope scstc stc) stcs
      (lone-new_scope group e scstc stc g (&&-left _ (all_lone group stcs) h))
      (&&-right (lone group stc) _ h)
