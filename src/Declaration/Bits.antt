-- ===== src/Declaration/Bits.antt =====
-- The flags of `VarDeclaration` and `FuncDeclaration` in compiler/include/dmd/declaration.h: bits of
-- one 32-bit word each, with the accessors that compiler/src/dmd/common/bitfields.d generates for the
-- members in compiler/src/dmd/declaration.d and compiler/src/dmd/func.d.
pub mod Accessors
use dmd.Prelude.{ℕ, Bool}
use dmd.Types.Flags.{get, set}

pub data VarFlag : Type 0 where
  isargptr ctorinit iscatchvar isowner set_in_ctor_only onstack overlapped overlap_unsafe
        maybe_scope do_not_infer_return is_arg_dtor_var is_cmacro dll_import dll_export
        system_inferred :
      VarFlag

-- The members of `BitFields`, in order from the lowest bit.
unfoldable pub var_shift : VarFlag → ℕ
var_shift isargptr = 0
var_shift ctorinit = 1
var_shift iscatchvar = 2
var_shift isowner = 3
var_shift set_in_ctor_only = 4
var_shift onstack = 5
var_shift overlapped = 6
var_shift overlap_unsafe = 7
var_shift maybe_scope = 8
var_shift do_not_infer_return = 9
var_shift is_arg_dtor_var = 10
var_shift is_cmacro = 11
var_shift dll_import = 12
var_shift dll_export = 13
var_shift system_inferred = 14

pub data FuncFlag : Type 0 where
  purity_inprocess safety_inprocess nothrow_inprocess nogc_inprocess safer_d scope_inprocess
        inline_scanned has_catches skip_codegen import_cinline_referenced
        is_import_cinline_candidate printf scanf noreturn is_nrvo is_naked is_generated
        is_introducing has_semantic3_errors has_no_eh infer_ret_type has_dual_context
        has_always_inlines is_crt_ctor is_crt_dtor has_escaping_siblings computed_escaping_siblings
        dll_import dll_export has_return_exp has_inline_asm has_multiple_return_exp :
      FuncFlag

-- The members of `FUNCFLAG`, in order from the lowest bit.
unfoldable pub func_shift : FuncFlag → ℕ
func_shift purity_inprocess = 0
func_shift safety_inprocess = 1
func_shift nothrow_inprocess = 2
func_shift nogc_inprocess = 3
func_shift safer_d = 4
func_shift scope_inprocess = 5
func_shift inline_scanned = 6
func_shift has_catches = 7
func_shift skip_codegen = 8
func_shift import_cinline_referenced = 9
func_shift is_import_cinline_candidate = 10
func_shift printf = 11
func_shift scanf = 12
func_shift noreturn = 13
func_shift is_nrvo = 14
func_shift is_naked = 15
func_shift is_generated = 16
func_shift is_introducing = 17
func_shift has_semantic3_errors = 18
func_shift has_no_eh = 19
func_shift infer_ret_type = 20
func_shift has_dual_context = 21
func_shift has_always_inlines = 22
func_shift is_crt_ctor = 23
func_shift is_crt_dtor = 24
func_shift has_escaping_siblings = 25
func_shift computed_escaping_siblings = 26
func_shift dll_import = 27
func_shift dll_export = 28
func_shift has_return_exp = 29
func_shift has_inline_asm = 30
func_shift has_multiple_return_exp = 31

-- The accessors, such as `isargptr()` and `isargptr(bool)`.
unfoldable pub get_var_flag : VarFlag → ℕ → Bool
get_var_flag f w = get (var_shift f) w

unfoldable pub set_var_flag : VarFlag → Bool → ℕ → ℕ
set_var_flag f v w = set (var_shift f) v w

unfoldable pub get_func_flag : FuncFlag → ℕ → Bool
get_func_flag f w = get (func_shift f) w

unfoldable pub set_func_flag : FuncFlag → Bool → ℕ → ℕ
set_func_flag f v w = set (func_shift f) v w
