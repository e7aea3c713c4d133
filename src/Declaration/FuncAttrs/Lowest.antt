-- ===== src/Declaration/FuncAttrs/Lowest.antt =====
-- The merged level of trust is the lowest.
use dmd.Prelude.{
  ℕ, min, Bool, true, ◌&&◌, ◌||◌, not, ◌≡◌, refl, ap, ◌∙◌, arith, if◌then◌else◌, List, [], ◌∷◌,
  Option, none, some,
}
use dmd.Types.Fields.{Trust, trust_default, trust_system, trust_trusted, trust_safe}
use dmd.Declaration.Storage.{StorageClass, stc_value, only, join, among, safe, system, trusted}
use dmd.Declaration.FuncAttrs.{
  FuncDeclaration, both, trust_stc, attrs, merged_trust, merge_func_attrs, merge_all,
}

-- What a function may do unchecked, from all to nothing; an unmarked one counts as `@system` unless
-- `-preview=safer` checks it.
unfoldable pub level : Trust → ℕ
level trust_system = 0
level trust_default = 1
level trust_trusted = 2
level trust_safe = 3

unfoldable pub level_of : StorageClass → ℕ
unfolding level
level_of s =
    if s system
    then level trust_system
    else if s trusted
    then level trust_trusted
    else if s safe
    then level trust_safe
    else level trust_default

-- At most one of `@safe`, `@trusted` and `@system`.
abbrev pub one_trust : StorageClass → Bool
one_trust s = not (s system && (s trusted || s safe)) && not (s trusted && s safe)

attrs-system : (f : FuncDeclaration) → attrs f system ≡ trust_stc f.type.trust system
unfolding attrs both join only stc_value
attrs-system f = ground arith

attrs-trusted : (f : FuncDeclaration) → attrs f trusted ≡ trust_stc f.type.trust trusted
unfolding attrs both join only stc_value
attrs-trusted f = ground arith

attrs-safe : (f : FuncDeclaration) → attrs f safe ≡ trust_stc f.type.trust safe
unfolding attrs both join only stc_value
attrs-safe f = ground arith

merge-system :
    (s : StorageClass) (f : FuncDeclaration)
    → merge_func_attrs s (some f) system ≡ (s system || attrs f system)
unfolding merge_func_attrs merged_trust both join only stc_value among
merge-system s f = ground arith

merge-trusted :
    (s : StorageClass) (f : FuncDeclaration)
    → merge_func_attrs s (some f) trusted ≡ (
        not (s system || attrs f system)
        && ((s trusted && attrs f trusted)
            || ((s trusted || attrs f trusted) && (s safe || attrs f safe))))
unfolding merge_func_attrs merged_trust both join only stc_value among
merge-trusted s f = ground arith

merge-safe :
    (s : StorageClass) (f : FuncDeclaration)
    → merge_func_attrs s (some f) safe ≡ (
        not (s system || attrs f system)
        && not (s trusted && attrs f trusted)
        && not ((s trusted || attrs f trusted) && (s safe || attrs f safe))
        && (s safe && attrs f safe))
unfolding merge_func_attrs merged_trust both join only stc_value among
merge-safe s f = ground arith

-- The levels of the flags, by cases.
merged_level :
    (t : Trust) (s : StorageClass) (m : StorageClass)
    → one_trust s ≡ true
    → m system ≡ (s system || trust_stc t system)
    → m trusted ≡ (
        not (s system || trust_stc t system)
        && ((s trusted && trust_stc t trusted)
            || ((s trusted || trust_stc t trusted) && (s safe || trust_stc t safe))))
    → m safe ≡ (
        not (s system || trust_stc t system)
        && not (s trusted && trust_stc t trusted)
        && not ((s trusted || trust_stc t trusted) && (s safe || trust_stc t safe))
        && (s safe && trust_stc t safe))
    → (level_of m ≡ min (level_of s) (level t)) × (one_trust m ≡ true)
unfolding level_of level trust_stc only stc_value
merged_level trust_default s m h a b c = (ground arith, ground arith)
merged_level trust_system s m h a b c = (ground arith, ground arith)
merged_level trust_trusted s m h a b c = (ground arith, ground arith)
merged_level trust_safe s m h a b c = (ground arith, ground arith)

merge-trust :
    (s : StorageClass) (f : FuncDeclaration)
    → one_trust s ≡ true
    → (level_of (merge_func_attrs s (some f)) ≡ min (level_of s) (level f.type.trust))
      × (one_trust (merge_func_attrs s (some f)) ≡ true)
merge-trust s f h =
    merged_level f.type.trust s (merge_func_attrs s (some f)) h
      (ground (arith, merge-system s f, attrs-system f))
      (ground (arith, merge-trusted s f, attrs-system f, attrs-trusted f, attrs-safe f))
      (ground (arith, merge-safe s f, attrs-system f, attrs-trusted f, attrs-safe f))

-- The lowest level of the functions and a first one.
unfoldable pub lowest : ℕ → List (Option FuncDeclaration) → ℕ
unfolding level
lowest n [] = n
lowest n (none ∷ fs) = lowest n fs
lowest n (some f ∷ fs) = lowest (min n (level f.type.trust)) fs

-- Where the first attributes have at most one level of trust, the merged level is the lowest one.
pub merge_all-trust :
    (s : StorageClass) (fs : List (Option FuncDeclaration))
    → one_trust s ≡ true
    → level_of (merge_all s fs) ≡ lowest (level_of s) fs
unfolding merge_all lowest
merge_all-trust s [] h = refl
merge_all-trust s (none ∷ fs) h = merge_all-trust s fs h
merge_all-trust s (some f ∷ fs) h =
    merge_all-trust (merge_func_attrs s (some f)) fs (merge-trust s f h).1
    ∙ ap (λ n. lowest n fs) (merge-trust s f h).0
