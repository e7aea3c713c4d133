-- ===== src/Declaration/Queries.antt =====
-- What a declaration answers about its storage class: the inline tests of `Declaration` in
-- compiler/include/dmd/declaration.h.
pub mod Written
use dmd.Prelude.{ℕ, Bool, List, [], ◌∷◌}
use dmd.Declaration.Storage.{
  Stc, StorageClass, meets, static_, final_, abstract_, const_, immutable_, wild, auto_, scope_,
  return_, synchronized_, parameter, deprecated_, override_, result, field, in_, out_, ref_, future,
}

abbrev pub Ptr : Type 0
Ptr = ℕ

-- The members of the class; a pointer is an address.
pub record Declaration : Type 0 where
  pub type : Ptr
  pub original_type : Ptr
  pub storage_class : StorageClass
  pub mangle_override : Ptr
  pub visibility : ℕ
  pub inuse : ℕ
  pub bit_fields : ℕ

-- `storage_class` is assigned.
abbrev pub with_storage_class : StorageClass → Declaration → Declaration
with_storage_class stc d = record {
  type = d.type;
  original_type = d.original_type;
  storage_class = stc;
  mangle_override = d.mangle_override;
  visibility = d.visibility;
  inuse = d.inuse;
  bit_fields = d.bit_fields;
}

-- `isStatic()` and the like.
pub data Test : Type 0 where
  is_static is_final is_abstract is_const is_immutable is_wild is_auto is_scope is_return
        is_synchronized is_parameter is_deprecated is_override is_result is_field is_in is_out
        is_ref is_reference is_future :
      Test

-- The flags that a test is about.
unfoldable pub tested : Test → List Stc
tested is_static = static_ ∷ []
tested is_final = final_ ∷ []
tested is_abstract = abstract_ ∷ []
tested is_const = const_ ∷ []
tested is_immutable = immutable_ ∷ []
tested is_wild = wild ∷ []
tested is_auto = auto_ ∷ []
tested is_scope = scope_ ∷ []
tested is_return = return_ ∷ []
tested is_synchronized = synchronized_ ∷ []
tested is_parameter = parameter ∷ []
tested is_deprecated = deprecated_ ∷ []
tested is_override = override_ ∷ []
tested is_result = result ∷ []
tested is_field = field ∷ []
tested is_in = in_ ∷ []
tested is_out = out_ ∷ []
tested is_ref = ref_ ∷ []
tested is_reference = ref_ ∷ out_ ∷ []
tested is_future = future ∷ []

-- `(storage_class & flags) != 0`
unfoldable pub answer : Test → Declaration → Bool
unfolding meets tested
answer test d = meets d.storage_class (tested test)
