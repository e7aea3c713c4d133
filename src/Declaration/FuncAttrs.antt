-- ===== src/Declaration/FuncAttrs.antt =====
-- The attributes of a function that the compiler generates, from those of the functions that it
-- calls: `mergeFuncAttrs` of compiler/src/dmd/clone.d.
pub mod Lowest
pub mod Allowed
use dmd.Prelude.{Bool, true, false, ◌&&◌, if◌then◌else◌, Option, none, some, List, [], ◌∷◌}
use dmd.Types.Fields.{
  TypeFunction, Trust, trust_default, trust_system, trust_trusted, trust_safe, Pure, impure,
}
use dmd.Types.Flags.{get_flag, is_nothrow, is_nogc}
use dmd.Declaration.Storage.{
  StorageClass, no_stc, only, join, among, disable, safe, system, trusted, pure_, nothrow_, nogc,
}

-- `f.storage_class` and `f.type`, a function type.
pub record FuncDeclaration : Type 0 where
  pub storage_class : StorageClass
  pub type : TypeFunction

-- `a & b`
unfoldable pub both : StorageClass → StorageClass → StorageClass
both a b s = a s && b s

unfoldable pub trust_stc : Trust → StorageClass
trust_stc trust_safe = only safe
trust_stc trust_system = only system
trust_stc trust_trusted = only trusted
trust_stc trust_default = no_stc

-- `tf.purity != PURE.impure`
unfoldable pub is_pure : Pure → Bool
is_pure impure = false
is_pure _ = true

-- The attributes of `f`: `s2`.
unfoldable pub attrs : FuncDeclaration → StorageClass
unfolding both trust_stc is_pure
attrs f =
    let tf = f.type in
    join (both f.storage_class (only disable)) (
      join (trust_stc tf.trust) (
        join (if is_pure tf.purity then only pure_ else no_stc) (
          join (if get_flag is_nothrow tf.bit_fields then only nothrow_ else no_stc)
            (if get_flag is_nogc tf.bit_fields then only nogc else no_stc))))

-- The merged level of trust: `sa` are the flags of both, `so` those of either.
unfoldable pub merged_trust : StorageClass → StorageClass → StorageClass
merged_trust sa so =
    if so system
    then only system
    else if sa trusted
    then only trusted
    else if so trusted && so safe
    then only trusted
    else if sa safe
    then only safe
    else no_stc

unfoldable pub merge_func_attrs : StorageClass → Option FuncDeclaration → StorageClass
unfolding both attrs merged_trust
merge_func_attrs s1 none = s1
merge_func_attrs s1 (some f) =
    let s2 = attrs f in
    let sa = both s1 s2 in
    let so = join s1 s2 in
    join (join (both sa (among (pure_ ∷ nothrow_ ∷ nogc ∷ []))) (both so (only disable)))
      (merged_trust sa so)

-- `mergeFuncAttrs` for one function after another.
unfoldable pub merge_all : StorageClass → List (Option FuncDeclaration) → StorageClass
unfolding merge_func_attrs
merge_all s1 [] = s1
merge_all s1 (f ∷ fs) = merge_all (merge_func_attrs s1 f) fs
