-- ===== src/Declaration/Parse/Keywords.antt =====
-- Storage classes that the parser adds one keyword after another.
use dmd.Prelude.{
  Bool, true, false, ◌&&◌, ◌||◌, not, Bool-cases, if◌then◌else◌, List, [], ◌∷◌, ◌++◌, ◌≡◌, ◌∙◌,
  refl, inl, inr, arith,
}
use dmd.Declaration.Storage.{
  Stc, stc_value, every_stc, StorageClass, only, join, meets, safe_group, const_, in_, ref_, scope_,
  immutable_, manifest, shared_, gshared, safe, trusted, system,
}
use dmd.Declaration.Parse.Groups.{
  at_least_two, several-const_group, several-shared_group, several-safe_group,
}
use dmd.Declaration.Parse.{
  Complaint, check_conflict_stc_group, common, const_group, shared_group, added_to_in, in_added_to,
  conflicts, complaints_of_new, append_storage_class,
}

-- The keyword does not go with the flags, for `-preview=in` or without.
abbrev pub rivals : Bool → Stc → StorageClass → Bool
rivals p const_ w = w immutable_ || w manifest || w in_
rivals p immutable_ w = w const_ || w manifest
rivals p manifest w = w const_ || w immutable_
rivals p gshared w = w shared_
rivals p shared_ w = w gshared
rivals p safe w = w trusted || w system
rivals p trusted w = w safe || w system
rivals p system w = w safe || w trusted
rivals p scope_ w = w in_
rivals p ref_ w = p && w in_
rivals p in_ w = w const_ || (if p then w scope_ || w ref_ else w scope_ && not (w ref_))
rivals _ _ _ = false

abbrev pub is_empty : List Complaint → Bool
is_empty [] = true
is_empty (_ ∷ _) = false

is_empty_cons_or : (b : Bool) (c : Complaint) → is_empty (if b then c ∷ [] else []) ≡ not b
is_empty_cons_or true c = refl
is_empty_cons_or false c = refl

pub is_empty-++ : (xs ys : List Complaint) → is_empty (xs ++ ys) ≡ (is_empty xs && is_empty ys)
is_empty-++ [] ys = refl
is_empty-++ (_ ∷ _) ys = refl

is_empty-conflicts :
    (a added : StorageClass)
    → is_empty (conflicts a added) ≡ (
        not (meets added const_group && at_least_two (a const_) (a immutable_) (a manifest))
        && not (meets added shared_group && (a gshared && a shared_))
        && not (meets added safe_group && at_least_two (a safe) (a trusted) (a system)))
unfolding conflicts check_conflict_stc_group
is_empty-conflicts a added =
    simp
      (is_empty-++, is_empty_cons_or, several-const_group, several-shared_group, several-safe_group)

is_empty-complaints_of_new :
    (p : Bool) (w : StorageClass) (k : Stc)
    → w k ≡ false
    → is_empty (complaints_of_new p (join w (only k)) (only k)) ≡ not (rivals p k w)
unfolding complaints_of_new join only stc_value meets added_to_in in_added_to at_least_two
is_empty-complaints_of_new p w const_ h =
    ground (arith, is_empty-conflicts (join w (only const_)) (only const_))
is_empty-complaints_of_new p w in_ h =
    ground (arith, is_empty-conflicts (join w (only in_)) (only in_))
is_empty-complaints_of_new p w k h = ground (arith, is_empty-conflicts (join w (only k)) (only k))

common-only : (w : StorageClass) (k : Stc) → common every_stc w (only k) ≡ w k
unfolding common only stc_value
common-only w const_ = ground arith
common-only w k = ground arith

-- One keyword more is accepted exactly if the flags do not have it, and it goes with them.
pub append_storage_class-accepts :
    (preview_in : Bool) (orig : StorageClass) (k : Stc)
    → is_empty (append_storage_class preview_in orig (only k)).1
      ≡ not (orig k || rivals preview_in k orig)
unfolding append_storage_class
append_storage_class-accepts p orig k = elim (Bool-cases (orig k)) [
  | inl e ↦ ground (arith, common-only orig k, e)
  | inr e ↦ ground (arith, common-only orig k, is_empty-complaints_of_new p orig k e)
]

-- Without `-preview=in`, `in` after `ref` and `scope` brings no complaint, and `scope` after `ref` and
-- `in` does, where neither `const` nor one of the three came before.
pub append_storage_class-ref_scope_in :
    (orig : StorageClass)
    → orig const_ ≡ false
    → orig in_ ≡ false
    → orig scope_ ≡ false
    → (is_empty
          (append_storage_class false (join (join orig (only ref_)) (only scope_)) (only in_)).1
        ≡ true)
      × (is_empty
            (append_storage_class false (join (join orig (only ref_)) (only in_)) (only scope_)).1
          ≡ false)
unfolding join only stc_value
append_storage_class-ref_scope_in orig c i s = (
  append_storage_class-accepts false (join (join orig (only ref_)) (only scope_)) in_
      ∙ ground arith,
  append_storage_class-accepts false (join (join orig (only ref_)) (only in_)) scope_
      ∙ ground arith,
)
