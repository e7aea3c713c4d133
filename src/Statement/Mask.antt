-- ===== src/Statement/Mask.antt =====
-- The ways a statement can exit: `enum BE` of compiler/include/dmd/statement.h and
-- compiler/src/dmd/blockexit.d. A mask is the set of its flags; `value` is the number it stands for.
use dmd.Prelude.{ℕ, ◌+◌, Bool, false, ◌&&◌, ◌||◌, not, ◌==◌, if◌then◌else◌, same}

pub data Exit : Type 0 where
  fallthru throw_ return_ goto_ halt break_ continue_ errthrow : Exit

-- `enum BE`
unfoldable pub be : Exit → ℕ
be fallthru = 1
be throw_ = 2
be return_ = 4
be goto_ = 8
be halt = 0x10
be break_ = 0x20
be continue_ = 0x40
be errthrow = 0x80

abbrev pub Mask : Type 0
Mask = Exit → Bool

flag : Mask → Exit → ℕ
unfolding be
flag m e = if m e then be e else 0

-- The number of a mask.
unfoldable pub value : Mask → ℕ
unfolding flag
value m =
    flag m fallthru
    + flag m throw_
    + flag m return_
    + flag m goto_
    + flag m halt
    + flag m break_
    + flag m continue_
    + flag m errthrow

-- `BE.none`
abbrev pub no_exit : Mask
no_exit _ = false

unfoldable pub only : Exit → Mask
unfolding be
only e x = be x == be e

-- `m | n`
abbrev pub union : Mask → Mask → Mask
union m n x = m x || n x

-- `m & ~n`
abbrev pub minus : Mask → Mask → Mask
minus m n x = m x && not (n x)

-- `m == n`
abbrev pub mask_eq : Mask → Mask → Bool
mask_eq m n =
    same (m fallthru) (n fallthru)
    && (same (m throw_) (n throw_)
        && (same (m return_) (n return_)
            && (same (m goto_) (n goto_)
                && (same (m halt) (n halt)
                    && (same (m break_) (n break_)
                        && (same (m continue_) (n continue_) && same (m errthrow) (n errthrow)))))))
