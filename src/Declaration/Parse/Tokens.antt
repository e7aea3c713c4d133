-- ===== src/Declaration/Parse/Tokens.antt =====
-- The keywords of a declaration: the `switch` of `parseStorageClasses` in compiler/src/dmd/parse.d, for
-- keywords that stand as storage classes. Its other tokens (`@`, `extern`, `align`) and its look
-- ahead for type constructors and enumerations are left out.
use dmd.Prelude.{Bool, true, false, if◌then◌else◌, List, [], ◌∷◌, ◌++◌}
use dmd.Declaration.Storage
use dmd.Declaration.Storage.{StorageClass, no_stc, only, join}
use dmd.Declaration.Parse.{Complaint, append_storage_class}

pub data Token : Type 0 where
  const_ immutable_ shared_ inout_ static_ final_ auto_ scope_ override_ abstract_ synchronized_
        deprecated_ nothrow_ pure_ ref_ gshared enum_ :
      Token

-- `peekNext() == TOK.ref_`
unfoldable pub next_is_ref : List Token → Bool
next_is_ref (ref_ ∷ _) = true
next_is_ref _ = false

-- The storage class of a keyword, before a `ref` or not.
unfoldable pub stc_of : Token → Bool → StorageClass
unfolding join
stc_of const_ _ = only Storage.const_
stc_of immutable_ _ = only Storage.immutable_
stc_of shared_ _ = only Storage.shared_
stc_of inout_ _ = only Storage.wild
stc_of static_ _ = only Storage.static_
stc_of final_ _ = only Storage.final_
stc_of auto_ before_ref =
    join (only Storage.auto_) (if before_ref then only Storage.autoref else no_stc)
stc_of scope_ _ = only Storage.scope_
stc_of override_ _ = only Storage.override_
stc_of abstract_ _ = only Storage.abstract_
stc_of synchronized_ _ = only Storage.synchronized_
stc_of deprecated_ _ = only Storage.deprecated_
stc_of nothrow_ _ = only Storage.nothrow_
stc_of pure_ _ = only Storage.pure_
stc_of ref_ _ = only Storage.ref_
stc_of gshared _ = only Storage.gshared
stc_of enum_ _ = only Storage.manifest

-- `parseStorageClasses`, with `-preview=in` or without.
unfoldable pub parse_storage_classes :
    Bool → StorageClass → List Token → StorageClass × List Complaint
unfolding next_is_ref stc_of append_storage_class
parse_storage_classes preview_in storage_class [] = (storage_class, [])
parse_storage_classes preview_in storage_class (t ∷ tokens) =
    let step = append_storage_class preview_in storage_class (stc_of t (next_is_ref tokens)) in
    let rest = parse_storage_classes preview_in step.0 tokens in (rest.0, step.1 ++ rest.1)
