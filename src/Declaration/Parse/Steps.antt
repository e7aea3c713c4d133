-- ===== src/Declaration/Parse/Steps.antt =====
-- What one keyword more does to the conflicts of storage classes.
use dmd.Prelude.{Bool, true, false, ◌&&◌, ◌||◌, not, ◌≡◌, arith, Bool-cases, ◌∙◌, inl, inr}
use dmd.Declaration.Storage.{
  Stc, StorageClass, join, only, stc_value, const_, immutable_, manifest, gshared, shared_, safe,
  trusted, system, scope_, in_, ref_, safe_group,
}
use dmd.Declaration.Parse.{const_group, shared_group, several}
use dmd.Declaration.Parse.Keywords.{rivals}
use dmd.Declaration.Parse.Groups.{
  at_least_two, several-const_group, several-shared_group, several-safe_group,
}

-- At most one flag of each group of the conflict checks, and `in` without `const`; with
-- `-preview=in`, without `scope` and `ref` as well.
abbrev pub at_most_one_each : Bool → StorageClass → Bool
at_most_one_each preview_in w =
    not (several w const_group)
    && not (several w shared_group)
    && not (several w safe_group)
    && not (w in_ && (w const_ || (preview_in && (w scope_ || w ref_))))

two_const : StorageClass → Bool
two_const w = at_least_two (w const_) (w immutable_) (w manifest)

two_shared : StorageClass → Bool
two_shared w = w gshared && w shared_

two_safe : StorageClass → Bool
two_safe w = at_least_two (w safe) (w trusted) (w system)

two_in : Bool → StorageClass → Bool
two_in p w = w in_ && (w const_ || (p && (w scope_ || w ref_)))

at_most_one_each_lem :
    (p : Bool) (w : StorageClass)
    → at_most_one_each p w
      ≡ (not (two_const w) && not (two_shared w) && not (two_safe w) && not (two_in p w))
unfolding two_const two_shared two_safe two_in
at_most_one_each_lem p w =
    simp (several-const_group w, several-shared_group w, several-safe_group w)

const_step :
    (p : Bool) (w : StorageClass) (k : Stc)
    → (w k || rivals p k w) ≡ false
    → two_const w ≡ false
    → two_const (join w (only k)) ≡ false
unfolding two_const join only stc_value at_least_two
const_step p w const_ h g = ground arith
const_step p w k h g = ground arith

const_down : (w b : StorageClass) → two_const (join w b) ≡ false → two_const w ≡ false
unfolding two_const join at_least_two
const_down w b h = ground arith

shared_step :
    (p : Bool) (w : StorageClass) (k : Stc)
    → (w k || rivals p k w) ≡ false
    → two_shared w ≡ false
    → two_shared (join w (only k)) ≡ false
unfolding two_shared join only stc_value at_least_two
shared_step p w const_ h g = ground arith
shared_step p w k h g = ground arith

shared_down : (w b : StorageClass) → two_shared (join w b) ≡ false → two_shared w ≡ false
unfolding two_shared join at_least_two
shared_down w b h = ground arith

safe_step :
    (p : Bool) (w : StorageClass) (k : Stc)
    → (w k || rivals p k w) ≡ false
    → two_safe w ≡ false
    → two_safe (join w (only k)) ≡ false
unfolding two_safe join only stc_value at_least_two
safe_step p w const_ h g = ground arith
safe_step p w k h g = ground arith

safe_down : (w b : StorageClass) → two_safe (join w b) ≡ false → two_safe w ≡ false
unfolding two_safe join at_least_two
safe_down w b h = ground arith

in_step :
    (p : Bool) (w : StorageClass) (k : Stc)
    → (w k || rivals p k w) ≡ false
    → two_in p w ≡ false
    → two_in p (join w (only k)) ≡ false
unfolding two_in join only stc_value at_least_two
in_step p w const_ h g = ground arith
in_step p w k h g = ground arith

in_down : (p : Bool) (w b : StorageClass) → two_in p (join w b) ≡ false → two_in p w ≡ false
unfolding two_in join at_least_two
in_down p w b h = ground arith

pub step :
    (p : Bool) (w : StorageClass) (k : Stc)
    → (w k || rivals p k w) ≡ false
    → at_most_one_each p w ≡ true
    → at_most_one_each p (join w (only k)) ≡ true
step p w k h g = ground (
  arith,
  at_most_one_each_lem p w,
  at_most_one_each_lem p (join w (only k)),
  const_step p w k h,
  shared_step p w k h,
  safe_step p w k h,
  in_step p w k h,
)

const_rivals : (w : StorageClass) (k : Stc) → Bool
const_rivals w const_ = w immutable_ || w manifest
const_rivals w immutable_ = w const_ || w manifest
const_rivals w manifest = w const_ || w immutable_
const_rivals w _ = false

shared_rivals : (w : StorageClass) (k : Stc) → Bool
shared_rivals w gshared = w shared_
shared_rivals w shared_ = w gshared
shared_rivals w _ = false

safe_rivals : (w : StorageClass) (k : Stc) → Bool
safe_rivals w safe = w trusted || w system
safe_rivals w trusted = w safe || w system
safe_rivals w system = w safe || w trusted
safe_rivals w _ = false

in_rivals : (w : StorageClass) (k : Stc) → Bool
in_rivals w const_ = w in_
in_rivals w scope_ = w in_
in_rivals w ref_ = w in_
in_rivals w in_ = w const_ || (w scope_ || w ref_)
in_rivals w _ = false

rivals_parts :
    (w : StorageClass) (k : Stc)
    → rivals true k w ≡ (const_rivals w k || shared_rivals w k || safe_rivals w k || in_rivals w k)
unfolding const_rivals shared_rivals safe_rivals in_rivals
rivals_parts w const_ = ground arith
rivals_parts w k = ground arith

const_back :
    (w : StorageClass) (k : Stc) → two_const (join w (only k)) ≡ false → const_rivals w k ≡ false
unfolding two_const const_rivals join only stc_value at_least_two
const_back w const_ h = ground arith
const_back w k h = ground arith

shared_back :
    (w : StorageClass) (k : Stc) → two_shared (join w (only k)) ≡ false → shared_rivals w k ≡ false
unfolding two_shared shared_rivals join only stc_value at_least_two
shared_back w const_ h = ground arith
shared_back w k h = ground arith

safe_back :
    (w : StorageClass) (k : Stc) → two_safe (join w (only k)) ≡ false → safe_rivals w k ≡ false
unfolding two_safe safe_rivals join only stc_value at_least_two
safe_back w const_ h = ground arith
safe_back w k h = ground arith

in_back :
    (w : StorageClass) (k : Stc) → two_in true (join w (only k)) ≡ false → in_rivals w k ≡ false
unfolding two_in in_rivals join only stc_value at_least_two
in_back w const_ h = ground arith
in_back w k h = ground arith

pub step_iff :
    (w : StorageClass) (k : Stc)
    → w k ≡ false
    → at_most_one_each true w ≡ true
    → at_most_one_each true (join w (only k)) ≡ not (rivals true k w)
step_iff w k h g = elim (Bool-cases (rivals true k w)) [
  | inr r ↦ step true w k (ground arith) g ∙ ground arith
  | inl r ↦ ground (
    arith,
    at_most_one_each_lem true (join w (only k)),
    rivals_parts w k,
    const_back w k,
    shared_back w k,
    safe_back w k,
    in_back w k,
  )
]

pub step_down :
    (w b : StorageClass) → at_most_one_each true (join w b) ≡ true → at_most_one_each true w ≡ true
step_down w b g = ground (
  arith,
  at_most_one_each_lem true w,
  at_most_one_each_lem true (join w b),
  const_down w b,
  shared_down w b,
  safe_down w b,
  in_down true w b,
)
