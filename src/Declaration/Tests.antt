-- ===== src/Declaration/Tests.antt =====
-- Examples of storage classes and flags of declarations.
use dmd.Prelude.{◌<◌, ◌^◌, true, false, ◌&&◌, ◌||◌, ◌≡◌, ◌⊎◌, refl, arith, [], ◌∷◌, none, some}
use dmd.Types.Fields.{varargs_none, trust_trusted, weak}
use dmd.Types.Flags.{get_flag, is_nothrow, is_nogc}
use dmd.Declaration.Storage.{
  no_stc, only, among, join, stc_value, const_, immutable_, static_, in_, ref_, scope_, shared_,
  safe, system, trusted, pure_, nothrow_, nogc, disable, safe_group,
}
use dmd.Declaration.Parse.{append_storage_class, append_all, several}
use dmd.Declaration.Parse.Keywords.{is_empty, append_storage_class-ref_scope_in}
use dmd.Declaration.Parse.Steps.{at_most_one_each}
use dmd.Declaration.Parse.Sequence.{append_all_sound, are_new, append_all-accepts}
use dmd.Declaration.Scopes.{nested_scope}
use dmd.Declaration.Scopes.Exclusive.{lone, all_lone, of_safe, lone-nested_scope}
use dmd.Declaration.FuncAttrs.{FuncDeclaration, merge_all, is_pure}
use dmd.Declaration.FuncAttrs.Lowest.{level_of, lowest, merge_all-trust}
use dmd.Declaration.FuncAttrs.Allowed.{all_have, one_has, merge_all-attrs}
use dmd.Declaration.Bits.{get_func_flag, set_func_flag, is_naked, is_nrvo}
use dmd.Declaration.Bits.Accessors.{set_func_flag_lem}
use dmd.Declaration.Queries.{Declaration, with_storage_class, answer, is_reference}
use dmd.Declaration.Queries.Written.{mentions, answer-parse_storage_classes}
use dmd.Declaration.Parse.Tokens
use dmd.Declaration.Parse.Tokens.{parse_storage_classes}

-- `ref scope` and then `in`, without `-preview=in`, brings no complaint; `scope` and then `in` does.
ref_scope_in : is_empty (append_all false no_stc (ref_ ∷ scope_ ∷ in_ ∷ [])).1 ≡ true
unfolding append_all stc_value only several
ref_scope_in = refl

ref_in_scope : is_empty (append_all false no_stc (ref_ ∷ in_ ∷ scope_ ∷ [])).1 ≡ false
unfolding append_all stc_value only several
ref_in_scope = refl

append_storage_class-ref_scope_in_example :
    (is_empty
        (append_storage_class false (join (join no_stc (only ref_)) (only scope_)) (only in_)).1
      ≡ true)
    × (is_empty
          (append_storage_class false (join (join no_stc (only ref_)) (only in_)) (only scope_)).1
        ≡ false)
append_storage_class-ref_scope_in_example = append_storage_class-ref_scope_in no_stc refl refl refl

append_all_sound_example :
    at_most_one_each true (append_all true no_stc (static_ ∷ const_ ∷ shared_ ∷ [])).0 ≡ true
unfolding append_all stc_value only several
append_all_sound_example = append_all_sound true no_stc (static_ ∷ const_ ∷ shared_ ∷ []) refl refl

append_all-accepts_example : is_empty (append_all true no_stc (const_ ∷ immutable_ ∷ [])).1 ≡ (
    are_new no_stc (const_ ∷ immutable_ ∷ [])
    && at_most_one_each true (append_all true no_stc (const_ ∷ immutable_ ∷ [])).0)
unfolding several
append_all-accepts_example = append_all-accepts no_stc (const_ ∷ immutable_ ∷ []) refl

lone-nested_scope_example :
    lone safe_group (nested_scope (only safe) (only system ∷ only trusted ∷ [])) ≡ true
unfolding lone only stc_value all_lone
lone-nested_scope_example =
    lone-nested_scope safe_group of_safe (only safe) (only system ∷ only trusted ∷ []) refl refl

-- A `nothrow @trusted` function.
abbrev checked : FuncDeclaration
checked = record {
  storage_class = no_stc;
  type = record {
    parameter_list = record {
      parameters = 0;
      stc = 0;
      varargs = varargs_none;
      has_identifier_list = false;
    };
    bit_fields = 1;
    linkage = 0;
    trust = trust_trusted;
    purity = weak;
    inuse = 0;
    inference_arguments = 0;
  };
}

merge_all-trust_example :
    level_of (merge_all (among (safe ∷ nothrow_ ∷ [])) (none ∷ some checked ∷ []))
    ≡ lowest (level_of (among (safe ∷ nothrow_ ∷ []))) (none ∷ some checked ∷ [])
unfolding among only stc_value
merge_all-trust_example =
    merge_all-trust (among (safe ∷ nothrow_ ∷ [])) (none ∷ some checked ∷ []) refl

merge_all-attrs_example :
    (merge_all (only nothrow_) (some checked ∷ []) pure_
      ≡ (only nothrow_ pure_ && all_have (λ f. is_pure f.type.purity) (some checked ∷ [])))
    × (merge_all (only nothrow_) (some checked ∷ []) nothrow_ ≡ (
        only nothrow_ nothrow_
        && all_have (λ f. get_flag is_nothrow f.type.bit_fields) (some checked ∷ [])))
    × (merge_all (only nothrow_) (some checked ∷ []) nogc ≡ (
        only nothrow_ nogc
        && all_have (λ f. get_flag is_nogc f.type.bit_fields) (some checked ∷ [])))
    × (merge_all (only nothrow_) (some checked ∷ []) disable
        ≡ (only nothrow_ disable || one_has (λ f. f.storage_class disable) (some checked ∷ [])))
merge_all-attrs_example = merge_all-attrs (only nothrow_) (some checked ∷ [])

set_func_flag_lem_example :
    (get_func_flag is_naked (set_func_flag is_naked true 0x4000) ≡ true)
    × ((is_nrvo ≡ is_naked)
        ⊎ (get_func_flag is_nrvo (set_func_flag is_naked true 0x4000)
            ≡ get_func_flag is_nrvo 0x4000))
    × (set_func_flag is_naked true 0x4000 < 2 ^ 32)
set_func_flag_lem_example = set_func_flag_lem is_naked is_nrvo true 0x4000 (omega arith)

abbrev plain : Declaration
plain = record {
  type = 0;
  original_type = 0;
  storage_class = no_stc;
  mangle_override = 0;
  visibility = 0;
  inuse = 0;
  bit_fields = 0;
}

answer-parse_storage_classes_example :
    answer is_reference (
      with_storage_class
        (parse_storage_classes false no_stc (Tokens.auto_ ∷ Tokens.ref_ ∷ [])).0
        plain)
    ≡ (answer is_reference plain || mentions is_reference (Tokens.auto_ ∷ Tokens.ref_ ∷ []))
answer-parse_storage_classes_example =
    answer-parse_storage_classes false plain (Tokens.auto_ ∷ Tokens.ref_ ∷ []) is_reference
