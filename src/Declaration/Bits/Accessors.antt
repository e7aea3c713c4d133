-- ===== src/Declaration/Bits/Accessors.antt =====
-- What the accessors of the flags of `VarDeclaration` and `FuncDeclaration` do.
use dmd.Prelude.{
  ℕ, ◌<◌, ◌^◌, Bool, ◌≡◌, ◌⊎◌, refl, sym, ap, ◌∙◌, List, [], ◌∷◌, get_elem?, Option, some, inl, inr,
  arith,
}
use dmd.Types.Flags.Accessors.{get-set_same, get-set_other, set_word_bound}
use dmd.Declaration.Bits.{
  VarFlag, FuncFlag, var_shift, func_shift, get_var_flag, set_var_flag, get_func_flag,
  set_func_flag, isargptr, ctorinit, iscatchvar, isowner, set_in_ctor_only, onstack, overlapped,
  overlap_unsafe, maybe_scope, do_not_infer_return, is_arg_dtor_var, is_cmacro, dll_import,
  dll_export, system_inferred, purity_inprocess, safety_inprocess, nothrow_inprocess,
  nogc_inprocess, safer_d, scope_inprocess, inline_scanned, has_catches, skip_codegen,
  import_cinline_referenced, is_import_cinline_candidate, printf, scanf, noreturn, is_nrvo,
  is_naked, is_generated, is_introducing, has_semantic3_errors, has_no_eh, infer_ret_type,
  has_dual_context, has_always_inlines, is_crt_ctor, is_crt_dtor, has_escaping_siblings,
  computed_escaping_siblings, dll_import, dll_export, has_return_exp, has_inline_asm,
  has_multiple_return_exp,
}

abbrev var_members : List VarFlag
var_members =
    isargptr ∷ ctorinit ∷ iscatchvar ∷ isowner ∷ set_in_ctor_only ∷ onstack ∷ overlapped
    ∷ overlap_unsafe ∷ maybe_scope ∷ do_not_infer_return ∷ is_arg_dtor_var ∷ is_cmacro ∷ dll_import
    ∷ dll_export ∷ system_inferred ∷ []

var_shift-members : (f : VarFlag) → get_elem? var_members (var_shift f) ≡ some f
unfolding var_shift
var_shift-members isargptr = refl
var_shift-members _ = refl

var_some_inj : (f g : VarFlag) → ◌≡◌ {A = Option VarFlag} (some f) (some g) → f ≡ g
var_some_inj f g h = cc

var_shift_inj : (f g : VarFlag) → var_shift f ≡ var_shift g → f ≡ g
var_shift_inj f g h =
    var_some_inj f g
      (sym (var_shift-members f) ∙ ap (get_elem? var_members) h ∙ var_shift-members g)

var_shift_bound : (f : VarFlag) → var_shift f < 32
unfolding var_shift
var_shift_bound isargptr = omega arith
var_shift_bound _ = omega arith

abbrev func_members : List FuncFlag
func_members =
    purity_inprocess ∷ safety_inprocess ∷ nothrow_inprocess ∷ nogc_inprocess ∷ safer_d
    ∷ scope_inprocess ∷ inline_scanned ∷ has_catches ∷ skip_codegen ∷ import_cinline_referenced
    ∷ is_import_cinline_candidate ∷ printf ∷ scanf ∷ noreturn ∷ is_nrvo ∷ is_naked ∷ is_generated
    ∷ is_introducing ∷ has_semantic3_errors ∷ has_no_eh ∷ infer_ret_type ∷ has_dual_context
    ∷ has_always_inlines ∷ is_crt_ctor ∷ is_crt_dtor ∷ has_escaping_siblings
    ∷ computed_escaping_siblings ∷ dll_import ∷ dll_export ∷ has_return_exp ∷ has_inline_asm
    ∷ has_multiple_return_exp ∷ []

func_shift-members : (f : FuncFlag) → get_elem? func_members (func_shift f) ≡ some f
unfolding func_shift
func_shift-members purity_inprocess = refl
func_shift-members _ = refl

func_some_inj : (f g : FuncFlag) → ◌≡◌ {A = Option FuncFlag} (some f) (some g) → f ≡ g
func_some_inj f g h = cc

func_shift_inj : (f g : FuncFlag) → func_shift f ≡ func_shift g → f ≡ g
func_shift_inj f g h =
    func_some_inj f g
      (sym (func_shift-members f) ∙ ap (get_elem? func_members) h ∙ func_shift-members g)

func_shift_bound : (f : FuncFlag) → func_shift f < 32
unfolding func_shift
func_shift_bound purity_inprocess = omega arith
func_shift_bound _ = omega arith

-- After a flag of a variable is set in a 32-bit word, it reads as it was set, every other flag as
-- before, and the word has 32 bits.
pub set_var_flag_lem :
    (f g : VarFlag) (v : Bool) (w : ℕ)
    → w < 2 ^ 32
    → (get_var_flag f (set_var_flag f v w) ≡ v)
      × ((g ≡ f) ⊎ (get_var_flag g (set_var_flag f v w) ≡ get_var_flag g w))
      × (set_var_flag f v w < 2 ^ 32)
unfolding get_var_flag set_var_flag
set_var_flag_lem f g v w h = (
  get-set_same (var_shift f) v w,
  elim (get-set_other (var_shift g) (var_shift f) v w) [
    | inl e ↦ inl (var_shift_inj g f e)
    | inr e ↦ inr e
  ],
  set_word_bound (var_shift f) v w (var_shift_bound f) h,
)

-- After a flag of a function is set in a 32-bit word, it reads as it was set, every other flag as
-- before, and the word has 32 bits.
pub set_func_flag_lem :
    (f g : FuncFlag) (v : Bool) (w : ℕ)
    → w < 2 ^ 32
    → (get_func_flag f (set_func_flag f v w) ≡ v)
      × ((g ≡ f) ⊎ (get_func_flag g (set_func_flag f v w) ≡ get_func_flag g w))
      × (set_func_flag f v w < 2 ^ 32)
unfolding get_func_flag set_func_flag
set_func_flag_lem f g v w h = (
  get-set_same (func_shift f) v w,
  elim (get-set_other (func_shift g) (func_shift f) v w) [
    | inl e ↦ inl (func_shift_inj g f e)
    | inr e ↦ inr e
  ],
  set_word_bound (func_shift f) v w (func_shift_bound f) h,
)
