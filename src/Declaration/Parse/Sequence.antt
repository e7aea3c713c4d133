-- ===== src/Declaration/Parse/Sequence.antt =====
-- Storage classes that the parser adds one keyword after another.
use dmd.Prelude.{
  Bool, true, false, ◌&&◌, ◌||◌, not, ◌≡◌, refl, arith, List, [], ◌∷◌, Bool-cases, &&-left,
  &&-right, sym, ap, ◌∙◌, inl, inr,
}
use dmd.Declaration.Storage.{Stc, StorageClass, join, only}
use dmd.Declaration.Parse.{append_storage_class, append_all}
use dmd.Declaration.Parse.Keywords.{rivals, is_empty, append_storage_class-accepts, is_empty-++}
use dmd.Declaration.Parse.Steps.{at_most_one_each, step, step_iff, step_down}

result-∷ :
    (p : Bool) (w : StorageClass) (k : Stc) (ks : List Stc)
    → (append_all p w (k ∷ ks)).0 ≡ (append_all p (join w (only k)) ks).0
unfolding append_all append_storage_class
result-∷ p w k ks = refl

accepts-∷ :
    (p : Bool) (w : StorageClass) (k : Stc) (ks : List Stc)
    → is_empty (append_all p w (k ∷ ks)).1
      ≡ (not (w k || rivals p k w) && is_empty (append_all p (join w (only k)) ks).1)
unfolding append_all append_storage_class
accepts-∷ p w k ks =
    is_empty-++ (append_storage_class p w (only k)).1 (append_all p (join w (only k)) ks).1
    ∙ ap (◌&& is_empty (append_all p (join w (only k)) ks).1) (append_storage_class-accepts p w k)

result-[] : (p : Bool) (w : StorageClass) → (append_all p w []).0 ≡ w
unfolding append_all
result-[] p w = refl

accepts-[] : (p : Bool) (w : StorageClass) → is_empty (append_all p w []).1 ≡ true
unfolding append_all
accepts-[] p w = refl

start :
    (p : Bool) (w : StorageClass)
    → at_most_one_each p w ≡ true
    → at_most_one_each p (append_all p w []).0 ≡ true
start p w g = ap (at_most_one_each p) (result-[] p w) ∙ g

not_inj : (b : Bool) → not b ≡ true → b ≡ false
not_inj b h = ground arith

-- Where no keyword brings a complaint, the flags that they make have at most one of each group, and
-- no `in` beside what makes it redundant, if the flags at the start do.
pub append_all_sound :
    (preview_in : Bool) (orig : StorageClass) (keywords : List Stc)
    → at_most_one_each preview_in orig ≡ true
    → is_empty (append_all preview_in orig keywords).1 ≡ true
    → at_most_one_each preview_in (append_all preview_in orig keywords).0 ≡ true
append_all_sound p w [] g h = start p w g
append_all_sound p w (k ∷ ks) g h =
    ap (at_most_one_each p) (result-∷ p w k ks)
    ∙ append_all_sound p (join w (only k)) ks
        (step p w k (not_inj _ (&&-left _ _ (sym (accepts-∷ p w k ks) ∙ h))) g)
        (&&-right (not (w k || rivals p k w)) _ (sym (accepts-∷ p w k ks) ∙ h))

down :
    (w : StorageClass) (ks : List Stc)
    → at_most_one_each true (append_all true w ks).0 ≡ true
    → at_most_one_each true w ≡ true
down w [] g = sym (ap (at_most_one_each true) (result-[] true w)) ∙ g
down w (k ∷ ks) g =
    step_down w (only k)
      (down (join w (only k)) ks (sym (ap (at_most_one_each true) (result-∷ true w k ks)) ∙ g))

overruled :
    (w : StorageClass) (k : Stc) (ks : List Stc)
    → at_most_one_each true (join w (only k)) ≡ false
    → at_most_one_each true (append_all true w (k ∷ ks)).0 ≡ false
overruled w k ks h = elim (Bool-cases (at_most_one_each true (append_all true w (k ∷ ks)).0)) [
  | inl e ↦ absurd (
      ground (
        arith,
        h,
        down (join w (only k)) ks (sym (ap (at_most_one_each true) (result-∷ true w k ks)) ∙ e),
      ))
  | inr e ↦ e
]

-- The keywords are distinct, and not among the flags.
unfoldable pub are_new : StorageClass → List Stc → Bool
unfolding join only
are_new w [] = true
are_new w (k ∷ ks) = not (w k) && are_new (join w (only k)) ks

-- With `-preview=in`: no keyword brings a complaint exactly if they are new, and the flags that
-- they make have at most one of each group and no `in` beside what makes it redundant, if the
-- flags at the start do.
pub append_all-accepts :
    (orig : StorageClass) (keywords : List Stc)
    → at_most_one_each true orig ≡ true
    → is_empty (append_all true orig keywords).1
      ≡ (are_new orig keywords && at_most_one_each true (append_all true orig keywords).0)
unfolding are_new
append_all-accepts w [] g = accepts-[] true w ∙ sym (start true w g)
append_all-accepts w (k ∷ ks) g = elim (Bool-cases (w k)) [
  | inl e ↦ ground (arith, accepts-∷ true w k ks, e)
  | inr e ↦ elim (Bool-cases (rivals true k w)) [
    | inl r ↦
        ground (arith, accepts-∷ true w k ks, e, r, overruled w k ks (step_iff w k e g ∙ ap not r))
    | inr r ↦ ground (
      arith,
      accepts-∷ true w k ks,
      e,
      r,
      ap (at_most_one_each true) (result-∷ true w k ks),
      append_all-accepts (join w (only k)) ks (step_iff w k e g ∙ ap not r),
    )
  ]
]
