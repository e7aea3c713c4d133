-- ===== src/Declaration/Parse.antt =====
-- The storage classes of a declaration as the parser gathers them: `appendStorageClass` of
-- compiler/src/dmd/parse.d. What it reports is the list of its error messages.
pub mod Tokens
pub mod Groups
pub mod Keywords
pub mod Steps
pub mod Sequence
use Prim.Native.Nat.{bit_and}
use dmd.Prelude.{◌-◌, Bool, true, false, ◌&&◌, ◌||◌, not, ◌==◌, if◌then◌else◌, List, [], ◌∷◌, ◌++◌}
use dmd.Declaration.Storage.{
  Stc, every_stc, StorageClass, no_stc, only, join, among, meets, without, number, safe_group,
  static_, extern_, const_, final_, abstract_, parameter, field, override_, auto_, synchronized_,
  deprecated_, in_, out_, lazy_, foreach_, variadic, constscoperef, templateparameter, ref_, scope_,
  scopeinferred, return_, return_scope, return_ref, returninferred, immutable_, manifest, nodtor,
  nothrow_, pure_, tls, alias_, shared_, gshared, wild, property, safe, trusted, system, ctfe,
  disable, result, nodefaultctor, temp, rvalue, nogc, autoref, inference, exptemp, future, local,
  live, register, volatile_, ctfe_only,
}

-- Its messages.
pub data Complaint : Type 0 where
  redundant_attribute : StorageClass → Complaint
  const_redundant_with_in redundant_with_in scope_with_in : Complaint
  in_after_const in_after_ref_or_scope in_after_scope : Complaint
  -- of a group, with `@` or without
  conflicting : Bool → List Stc → Complaint

-- `a & group & ((a & group) - 1)`; a 0 stays one, whatever is subtracted.
unfoldable pub several : StorageClass → List Stc → Bool
unfolding number
several a group = let n = number a group in not (bit_and n (n - 1) == 0)

-- `checkConflictSTCGroup`
unfoldable pub check_conflict_stc_group :
    Bool → List Stc → StorageClass → StorageClass → List Complaint
unfolding meets several
check_conflict_stc_group at group orig added =
    if meets added group && several orig group then conflicting at group ∷ [] else []

-- `orig & added`
unfoldable pub common : List Stc → StorageClass → StorageClass → Bool
common [] orig added = false
common (s ∷ flags) orig added = (added s && orig s) || common flags orig added

abbrev pub redundant : List Stc
redundant = const_ ∷ scope_ ∷ ref_ ∷ []

-- `const`, `immutable` and `enum`; `__gshared` and `shared`.
abbrev pub const_group : List Stc
const_group = const_ ∷ immutable_ ∷ manifest ∷ []

abbrev pub shared_group : List Stc
shared_group = gshared ∷ shared_ ∷ []

-- `Redundant` added to `in`.
unfoldable pub added_to_in : Bool → StorageClass → List Complaint
added_to_in preview_in added =
    if added const_
    then const_redundant_with_in ∷ []
    else if preview_in
    then redundant_with_in ∷ []
    else if added ref_
    then []
    else scope_with_in ∷ []

-- `in` added to `Redundant`.
unfoldable pub in_added_to : Bool → StorageClass → List Complaint
in_added_to preview_in orig =
    if orig const_
    then in_after_const ∷ []
    else if preview_in
    then in_after_ref_or_scope ∷ []
    else if orig ref_
    then []
    else in_after_scope ∷ []

-- What is left to check after the tests of `in`.
unfoldable pub conflicts : StorageClass → StorageClass → List Complaint
unfolding check_conflict_stc_group
conflicts orig added =
    check_conflict_stc_group false const_group orig added
    ++ check_conflict_stc_group false shared_group orig added
    ++ check_conflict_stc_group true safe_group orig added

-- What it reports of flags that `orig` does not have; `orig` has them by now.
unfoldable pub complaints_of_new : Bool → StorageClass → StorageClass → List Complaint
unfolding meets added_to_in in_added_to conflicts
complaints_of_new preview_in orig added =
    if orig in_ && meets added redundant
    then added_to_in preview_in added
    else if added in_ && meets orig redundant
    then in_added_to preview_in orig
    else conflicts orig added

-- `appendStorageClass(orig, added)`, with `compileEnv.previewIn`.
unfoldable pub append_storage_class :
    Bool → StorageClass → StorageClass → StorageClass × List Complaint
unfolding join common complaints_of_new
append_storage_class preview_in orig added =
    let all = join orig added in
    (
      all,
      if common every_stc orig added
          then redundant_attribute added ∷ []
          else complaints_of_new preview_in all added,
    )

-- The loops that gather a storage class, such as that of `parseStorageClasses`, over keywords that
-- stand for one flag each: `appendStorageClass` for every keyword.
unfoldable pub append_all : Bool → StorageClass → List Stc → StorageClass × List Complaint
unfolding append_storage_class
append_all preview_in orig [] = (orig, [])
append_all preview_in orig (k ∷ keywords) =
    let step = append_storage_class preview_in orig (only k) in
    let rest = append_all preview_in step.0 keywords in (rest.0, step.1 ++ rest.1)
