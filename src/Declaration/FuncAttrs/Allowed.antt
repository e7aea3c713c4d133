-- ===== src/Declaration/FuncAttrs/Allowed.antt =====
-- The merged attributes are those that all the functions allow.
use dmd.Prelude.{
  Bool, true, false, ◌&&◌, ◌||◌, ◌≡◌, ap, ◌∙◌, refl, arith, List, [], ◌∷◌, Option, none, some,
}
use dmd.Types.Fields.{Trust, trust_default, trust_system, trust_trusted, trust_safe}
use dmd.Types.Flags.{get_flag, is_nothrow, is_nogc}
use dmd.Declaration.Storage.{
  StorageClass, stc_value, only, join, among, disable, pure_, nothrow_, nogc,
}
use dmd.Declaration.FuncAttrs.{
  FuncDeclaration, both, trust_stc, is_pure, attrs, merged_trust, merge_func_attrs, merge_all,
}

-- Every function has the attribute, as far as there is one.
abbrev pub all_have : (FuncDeclaration → Bool) → List (Option FuncDeclaration) → Bool
all_have t [] = true
all_have t (none ∷ fs) = all_have t fs
all_have t (some f ∷ fs) = t f && all_have t fs

abbrev pub one_has : (FuncDeclaration → Bool) → List (Option FuncDeclaration) → Bool
one_has t [] = false
one_has t (none ∷ fs) = one_has t fs
one_has t (some f ∷ fs) = t f || one_has t fs

kept : (a b t : Bool) → t ≡ false → ((((a && b) && true) || ((a || b) && false)) || t) ≡ (a && b)
kept a b t h = ground arith

either : (a b t : Bool) → t ≡ false → ((((a && b) && false) || ((a || b) && true)) || t) ≡ (a || b)
either a b t h = ground arith

trust_stc-nothrow : (t : Trust) → trust_stc t nothrow_ ≡ false
unfolding trust_stc only stc_value
trust_stc-nothrow trust_default = refl
trust_stc-nothrow trust_system = refl
trust_stc-nothrow trust_trusted = refl
trust_stc-nothrow trust_safe = refl

attrs-nothrow : (f : FuncDeclaration) → attrs f nothrow_ ≡ (get_flag is_nothrow f.type.bit_fields)
unfolding attrs both join only stc_value
attrs-nothrow f = ground (arith, trust_stc-nothrow f.type.trust)

merged_trust-nothrow : (sa so : StorageClass) → merged_trust sa so nothrow_ ≡ false
unfolding merged_trust only stc_value
merged_trust-nothrow sa so = ground arith

merge-nothrow :
    (s : StorageClass) (f : FuncDeclaration)
    → merge_func_attrs s (some f) nothrow_ ≡ (s nothrow_ && (get_flag is_nothrow f.type.bit_fields))
unfolding merge_func_attrs both join only stc_value among
merge-nothrow s f =
    kept (s nothrow_) (attrs f nothrow_) _
      (merged_trust-nothrow (both s (attrs f)) (join s (attrs f)))
    ∙ ap (λ b. s nothrow_ && b) (attrs-nothrow f)

merge_all-nothrow :
    (s : StorageClass) (fs : List (Option FuncDeclaration))
    → merge_all s fs nothrow_
      ≡ (s nothrow_ && all_have (λ f. get_flag is_nothrow f.type.bit_fields) fs)
unfolding merge_all
merge_all-nothrow s [] = ground arith
merge_all-nothrow s (none ∷ fs) = merge_all-nothrow s fs
merge_all-nothrow s (some f ∷ fs) =
    ground (arith, merge_all-nothrow (merge_func_attrs s (some f)) fs, merge-nothrow s f)

trust_stc-nogc : (t : Trust) → trust_stc t nogc ≡ false
unfolding trust_stc only stc_value
trust_stc-nogc trust_default = refl
trust_stc-nogc trust_system = refl
trust_stc-nogc trust_trusted = refl
trust_stc-nogc trust_safe = refl

attrs-nogc : (f : FuncDeclaration) → attrs f nogc ≡ (get_flag is_nogc f.type.bit_fields)
unfolding attrs both join only stc_value
attrs-nogc f = ground (arith, trust_stc-nogc f.type.trust)

merged_trust-nogc : (sa so : StorageClass) → merged_trust sa so nogc ≡ false
unfolding merged_trust only stc_value
merged_trust-nogc sa so = ground arith

merge-nogc :
    (s : StorageClass) (f : FuncDeclaration)
    → merge_func_attrs s (some f) nogc ≡ (s nogc && (get_flag is_nogc f.type.bit_fields))
unfolding merge_func_attrs both join only stc_value among
merge-nogc s f =
    kept (s nogc) (attrs f nogc) _ (merged_trust-nogc (both s (attrs f)) (join s (attrs f)))
    ∙ ap (λ b. s nogc && b) (attrs-nogc f)

merge_all-nogc :
    (s : StorageClass) (fs : List (Option FuncDeclaration))
    → merge_all s fs nogc ≡ (s nogc && all_have (λ f. get_flag is_nogc f.type.bit_fields) fs)
unfolding merge_all
merge_all-nogc s [] = ground arith
merge_all-nogc s (none ∷ fs) = merge_all-nogc s fs
merge_all-nogc s (some f ∷ fs) =
    ground (arith, merge_all-nogc (merge_func_attrs s (some f)) fs, merge-nogc s f)

trust_stc-pure : (t : Trust) → trust_stc t pure_ ≡ false
unfolding trust_stc only stc_value
trust_stc-pure trust_default = refl
trust_stc-pure trust_system = refl
trust_stc-pure trust_trusted = refl
trust_stc-pure trust_safe = refl

attrs-pure : (f : FuncDeclaration) → attrs f pure_ ≡ (is_pure f.type.purity)
unfolding attrs both join only stc_value
attrs-pure f = ground (arith, trust_stc-pure f.type.trust)

merged_trust-pure : (sa so : StorageClass) → merged_trust sa so pure_ ≡ false
unfolding merged_trust only stc_value
merged_trust-pure sa so = ground arith

merge-pure :
    (s : StorageClass) (f : FuncDeclaration)
    → merge_func_attrs s (some f) pure_ ≡ (s pure_ && (is_pure f.type.purity))
unfolding merge_func_attrs both join only stc_value among
merge-pure s f =
    kept (s pure_) (attrs f pure_) _ (merged_trust-pure (both s (attrs f)) (join s (attrs f)))
    ∙ ap (λ b. s pure_ && b) (attrs-pure f)

merge_all-pure :
    (s : StorageClass) (fs : List (Option FuncDeclaration))
    → merge_all s fs pure_ ≡ (s pure_ && all_have (λ f. is_pure f.type.purity) fs)
unfolding merge_all
merge_all-pure s [] = ground arith
merge_all-pure s (none ∷ fs) = merge_all-pure s fs
merge_all-pure s (some f ∷ fs) =
    ground (arith, merge_all-pure (merge_func_attrs s (some f)) fs, merge-pure s f)

trust_stc-disable : (t : Trust) → trust_stc t disable ≡ false
unfolding trust_stc only stc_value
trust_stc-disable trust_default = refl
trust_stc-disable trust_system = refl
trust_stc-disable trust_trusted = refl
trust_stc-disable trust_safe = refl

attrs-disable : (f : FuncDeclaration) → attrs f disable ≡ f.storage_class disable
unfolding attrs both join only stc_value
attrs-disable f = ground (arith, trust_stc-disable f.type.trust)

merged_trust-disable : (sa so : StorageClass) → merged_trust sa so disable ≡ false
unfolding merged_trust only stc_value
merged_trust-disable sa so = ground arith

merge-disable :
    (s : StorageClass) (f : FuncDeclaration)
    → merge_func_attrs s (some f) disable ≡ (s disable || f.storage_class disable)
unfolding merge_func_attrs both join only stc_value among
merge-disable s f =
    either (s disable) (attrs f disable) _
      (merged_trust-disable (both s (attrs f)) (join s (attrs f)))
    ∙ ap (λ b. s disable || b) (attrs-disable f)

merge_all-disable :
    (s : StorageClass) (fs : List (Option FuncDeclaration))
    → merge_all s fs disable ≡ (s disable || one_has (λ f. f.storage_class disable) fs)
unfolding merge_all
merge_all-disable s [] = ground arith
merge_all-disable s (none ∷ fs) = merge_all-disable s fs
merge_all-disable s (some f ∷ fs) =
    ground (arith, merge_all-disable (merge_func_attrs s (some f)) fs, merge-disable s f)

-- The merged attributes have `pure`, `nothrow` and `@nogc` where the first ones and all functions
-- do, and `@disable` where the first ones or a function does.
pub merge_all-attrs :
    (s : StorageClass) (fs : List (Option FuncDeclaration))
    → (merge_all s fs pure_ ≡ (s pure_ && all_have (λ f. is_pure f.type.purity) fs))
      × (merge_all s fs nothrow_
          ≡ (s nothrow_ && all_have (λ f. get_flag is_nothrow f.type.bit_fields) fs))
      × (merge_all s fs nogc ≡ (s nogc && all_have (λ f. get_flag is_nogc f.type.bit_fields) fs))
      × (merge_all s fs disable ≡ (s disable || one_has (λ f. f.storage_class disable) fs))
merge_all-attrs s fs =
    (merge_all-pure s fs, merge_all-nothrow s fs, merge_all-nogc s fs, merge_all-disable s fs)
