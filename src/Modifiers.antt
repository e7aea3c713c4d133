-- ===== src/Modifiers.antt =====
-- Type modifiers: `MODFlags` and the tests of `Type` in compiler/include/dmd/mtype.h, and the
-- conversions over them in compiler/src/dmd/mtype.d and compiler/src/dmd/typesem.d.
pub mod Predicates
pub mod Conversion
pub mod Merge
mod Tests
use Prim.Native.Nat.{bit_and, bit_or}
use dmd.Prelude.{
  ℕ, ◌+◌, ◌-◌, ◌*◌, Bool, true, false, ◌&&◌, ◌||◌, not, Option, none, some, List, [], ◌∷◌, ◌==◌,
  if◌then◌else◌,
}

-- `enum MODFlags`
abbrev pub mod_none : ℕ
mod_none = 0

abbrev pub mod_const : ℕ
mod_const = 1

abbrev pub mod_immutable : ℕ
mod_immutable = 4

abbrev pub mod_shared : ℕ
mod_shared = 2

abbrev pub mod_wild : ℕ
mod_wild = 8

abbrev pub mod_wildconst : ℕ
mod_wildconst = bit_or mod_wild mod_const

abbrev pub mod_mutable : ℕ
mod_mutable = 0x10

-- The tests of `Type`, on its field `mod`.
pub is_const : ℕ → Bool
is_const m = not (bit_and m mod_const == 0)

pub is_immutable : ℕ → Bool
is_immutable m = not (bit_and m mod_immutable == 0)

pub is_mutable : ℕ → Bool
is_mutable m = bit_and m (bit_or (bit_or mod_const mod_immutable) mod_wild) == 0

pub is_shared : ℕ → Bool
is_shared m = not (bit_and m mod_shared == 0)

pub is_shared_const : ℕ → Bool
is_shared_const m = bit_and m (bit_or mod_shared mod_const) == bit_or mod_shared mod_const

pub is_wild : ℕ → Bool
is_wild m = not (bit_and m mod_wild == 0)

pub is_wild_const : ℕ → Bool
is_wild_const m = bit_and m mod_wildconst == mod_wildconst

pub is_shared_wild : ℕ → Bool
is_shared_wild m = bit_and m (bit_or mod_shared mod_wild) == bit_or mod_shared mod_wild

pub is_naked : ℕ → Bool
is_naked m = m == 0

-- The modifiers that a type can have: the cases of `MODtoString`.
pub data Qualifier : Type 0 where
  mutable immutable shared shared_const const shared_wild wild shared_wildconst wildconst :
      Qualifier

pub bits : Qualifier → ℕ
bits mutable = 0
bits immutable = mod_immutable
bits shared = mod_shared
bits shared_const = bit_or mod_shared mod_const
bits const = mod_const
bits shared_wild = bit_or mod_shared mod_wild
bits wild = mod_wild
bits shared_wildconst = bit_or mod_shared mod_wildconst
bits wildconst = mod_wildconst

-- `m & ~MODFlags.shared_` of an `unsigned char`
unshare : ℕ → ℕ
unshare m = bit_and m (255 - mod_shared)

-- `X(m, n)`: the pair of the two modifiers is a case of a switch.
any_case : List (ℕ × ℕ) → ℕ → ℕ → Bool
any_case [] m n = false
any_case ((p, q) ∷ cases) m n = (p == m && q == n) || any_case cases m n

-- `MODimplicitConv(modfrom, modto)`
pub mod_implicit_conv : ℕ → ℕ → Bool
unfolding unshare any_case
mod_implicit_conv modfrom modto =
    if modfrom == modto
    then true
    else if any_case same_sharing (unshare modfrom) (unshare modto)
    then bit_and modfrom mod_shared == bit_and modto mod_shared
    else any_case from_immutable (unshare modfrom) (unshare modto)
  where
    same_sharing : List (ℕ × ℕ)
    same_sharing =
        (0, mod_const)
        ∷ (mod_wild, mod_const)
        ∷ (mod_wild, mod_wildconst)
        ∷ (mod_wildconst, mod_const)
        ∷ []

    from_immutable : List (ℕ × ℕ)
    from_immutable = (mod_immutable, mod_const) ∷ (mod_immutable, mod_wildconst) ∷ []

-- `enum MATCH`
pub data Match : Type 0 where
  nomatch convert constant exact : Match

-- `MODmethodConv(modfrom, modto)`
pub mod_method_conv : ℕ → ℕ → Match
unfolding mod_implicit_conv any_case
mod_method_conv modfrom modto =
    if modfrom == modto
    then exact
    else if mod_implicit_conv modfrom modto
    then constant
    else if any_case to_wild modfrom modto
    then constant
    else nomatch
  where
    to_wild : List (ℕ × ℕ)
    to_wild =
        (0, mod_wild)
        ∷ (mod_immutable, mod_wild)
        ∷ (mod_const, mod_wild)
        ∷ (mod_wildconst, mod_wild)
        ∷ (mod_shared, bit_or mod_shared mod_wild)
        ∷ (bit_or mod_shared mod_immutable, bit_or mod_shared mod_wild)
        ∷ (bit_or mod_shared mod_const, bit_or mod_shared mod_wild)
        ∷ (bit_or mod_shared mod_wildconst, bit_or mod_shared mod_wild)
        ∷ []

-- The second half of `MODmerge`, on modifiers without `shared`; `none` is its assertion.
merge_unshared : ℕ → ℕ → ℕ → Option ℕ
merge_unshared result mod1 mod2 =
    if weak mod1 || weak mod2
    then some (bit_or result mod_const)
    else if not (bit_and mod1 mod_wild == 0) || not (bit_and mod2 mod_wild == 0)
    then some (bit_or result mod_wildconst)
    else none
  where
    weak : ℕ → Bool
    weak m = m == 0 || m == mod_mutable || m == mod_const

-- `MODmerge(mod1, mod2)`
pub mod_merge : ℕ → ℕ → Option ℕ
unfolding unshare merge_unshared
mod_merge mod1 mod2 =
    if mod1 == mod2
    then some mod1
    else if not (bit_and (bit_or mod1 mod2) mod_shared == 0)
    then merge_unshared mod_shared (unshare mod1) (unshare mod2)
    else merge_unshared 0 mod1 mod2

-- `addMod(type, m)`: the modifiers of its result, from those of `type`; `none` is its assertion.
pub add_mod : ℕ → ℕ → Option ℕ
unfolding is_immutable is_shared is_wild is_const
add_mod t m =
    if is_immutable t
    then some t
    else if m == 0
    then some t
    else if m == mod_const
    then some (
        if is_shared t
        then (if is_wild t then shared_wildconst_of else shared_const_of)
        else (if is_wild t then mod_wildconst else mod_const))
    else if m == mod_wild
    then some (
        if is_shared t
        then (if is_const t then shared_wildconst_of else shared_wild_of)
        else (if is_const t then mod_wildconst else mod_wild))
    else if m == mod_wildconst
    then some (if is_shared t then shared_wildconst_of else mod_wildconst)
    else if m == mod_shared
    then some (
        if is_wild t
        then (if is_const t then shared_wildconst_of else shared_wild_of)
        else (if is_const t then shared_const_of else mod_shared))
    else if m == bit_or mod_shared mod_const
    then some (if is_wild t then shared_wildconst_of else shared_const_of)
    else if m == bit_or mod_shared mod_wild
    then some (if is_const t then shared_wildconst_of else shared_wild_of)
    else if m == bit_or mod_shared mod_wildconst
    then some shared_wildconst_of
    else if m == mod_immutable
    then some mod_immutable
    else none
  where
    shared_const_of : ℕ
    shared_const_of = bit_or mod_shared mod_const

    shared_wild_of : ℕ
    shared_wild_of = bit_or mod_shared mod_wild

    shared_wildconst_of : ℕ
    shared_wildconst_of = bit_or mod_shared mod_wildconst
