-- ===== src/Types/Flags.antt =====
-- The flags of `TypeFunction` (compiler/include/dmd/mtype.h): bits of one 16-bit word, with the
-- accessors that compiler/src/dmd/common/bitfields.d generates for them, and their part of the
-- constructor and of `syntaxCopy` (compiler/src/dmd/mtype.d).
pub mod Accessors
use dmd.Prelude.{ℕ, zero, suc, ◌+◌, ◌*◌, ◌/◌, ◌%◌, Bool, true, false, ◌==◌, if◌then◌else◌}

-- The bit at a shift, `(word >>> shift) & 1`, by recursion on the shift.
unfoldable pub get : ℕ → ℕ → Bool
get zero w = w % 2 == 1
get (suc k) w = get k (w / 2)

-- `word &= ~(1 << shift); word |= v << shift`
unfoldable pub set : ℕ → Bool → ℕ → ℕ
set zero v w = 2 * (w / 2) + (if v then 1 else 0)
set (suc k) v w = 2 * set k v (w / 2) + w % 2

pub data Flag : Type 0 where
  is_nothrow is_nogc is_property is_ref is_return is_scope_qual is_return_inferred is_scope_inferred
        is_live incomplete is_in_out_param is_in_out_qual is_ctor is_return_scope is_rvalue
        is_ctfe_only :
      Flag

-- The members of `BitFields`, in order from the lowest bit.
unfoldable pub shift : Flag → ℕ
shift is_nothrow = 0
shift is_nogc = 1
shift is_property = 2
shift is_ref = 3
shift is_return = 4
shift is_scope_qual = 5
shift is_return_inferred = 6
shift is_scope_inferred = 7
shift is_live = 8
shift incomplete = 9
shift is_in_out_param = 10
shift is_in_out_qual = 11
shift is_ctor = 12
shift is_return_scope = 13
shift is_rvalue = 14
shift is_ctfe_only = 15

-- The accessors of a flag, such as `isNothrow()` and `isNothrow(bool)`.
unfoldable pub get_flag : Flag → ℕ → Bool
get_flag f w = get (shift f) w

unfoldable pub set_flag : Flag → Bool → ℕ → ℕ
set_flag f v w = set (shift f) v w

-- The flags that `syntaxCopy` gives to a new function type, in its order.
unfoldable pub copy_flags : ℕ → ℕ
copy_flags w = give is_ctfe_only (
    give is_ctor (
      give is_in_out_qual (
        give is_in_out_param (
          give is_rvalue (
            give is_scope_inferred (
              give is_return_inferred (
                give is_scope_qual (
                  give is_return_scope (
                    give is_return (
                      give is_ref (
                        give is_property
                          (give is_live (give is_nogc (give is_nothrow 0))))))))))))))
  where
    give : Flag → ℕ → ℕ
    give f c = set_flag f (get_flag f w) c
