-- ===== src/Prelude/Finite.antt =====
-- Checks of all values of a finite range by evaluation.
use Prim.Native.Nat.{ℕ, zero, suc, ◌<◌}
use mathlib.Core.Path.{◌≡◌, refl}
use mathlib.Core.Bool.{Bool, true, false, ◌&&◌, not}
use native.Mathlib.Omega.{arith}

pub &&-left : (a b : Bool) → (a && b) ≡ true → a ≡ true
&&-left a b h = ground arith

pub &&-right : (a b : Bool) → (a && b) ≡ true → b ≡ true
&&-right a b h = ground arith

-- The test holds of the numbers under a bound.
unfoldable pub holds_under : (ℕ → Bool) → ℕ → Bool
holds_under t zero = true
holds_under t (suc top) = holds_under t top && t top

pub holds_under_sound :
    (t : ℕ → Bool) {top : ℕ} → holds_under t top ≡ true → {m : ℕ} → m < top → t m ≡ true
unfolding holds_under
holds_under_sound t {top = zero} table lt = absurd (omega arith)
holds_under_sound t {top = suc top} table {m = m} lt =
    ground (arith, holds_under_sound t {top = top} (&&-left _ (t top) table) {m = m})

-- Equality of truth values.
abbrev pub same : Bool → Bool → Bool
same true b = b
same false b = not b

pub same_sound : (a b : Bool) → same a b ≡ true → a ≡ b
same_sound true true h = refl
same_sound true false h = cc
same_sound false true h = cc
same_sound false false h = refl
