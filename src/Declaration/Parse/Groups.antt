-- ===== src/Declaration/Parse/Groups.antt =====
-- Two flags of a group at once: what the bit test of `checkConflictSTCGroup` in
-- compiler/src/dmd/parse.d finds.
use Prim.Native.Nat.{bit_and}
use dmd.Prelude.{◌-◌, ◌+◌, Bool, true, false, ◌&&◌, ◌||◌, not, ◌==◌, if◌then◌else◌, ◌≡◌, refl}
use dmd.Declaration.Storage.{
  stc_value, StorageClass, number, safe_group, const_, immutable_, manifest, shared_, gshared, safe,
  trusted, system,
}
use dmd.Declaration.Parse.{several, const_group, shared_group}

unfoldable pub at_least_two : Bool → Bool → Bool → Bool
at_least_two true y z = y || z
at_least_two false y z = y && z

const_bits :
    (x y z : Bool)
    → (let n =
          ((if x then 0x4 else 0)
            + ((if y then 0x2000000 else 0) + ((if z then 0x8000000 else 0) + 0))) in
        not (bit_and n (n - 1) == 0))
      ≡ (at_least_two x y z)
unfolding at_least_two
const_bits true true true = refl
const_bits true true false = refl
const_bits true false true = refl
const_bits true false false = refl
const_bits false true true = refl
const_bits false true false = refl
const_bits false false true = refl
const_bits false false false = refl

pub several-const_group :
    (a : StorageClass)
    → several a const_group ≡ (at_least_two (a const_) (a immutable_) (a manifest))
unfolding several number stc_value
several-const_group a = const_bits (a const_) (a immutable_) (a manifest)

shared_bits :
    (x y : Bool)
    → (let n = ((if x then 0x400000000 else 0) + ((if y then 0x200000000 else 0) + 0)) in
        not (bit_and n (n - 1) == 0))
      ≡ (x && y)
unfolding at_least_two
shared_bits true true = refl
shared_bits true false = refl
shared_bits false true = refl
shared_bits false false = refl

pub several-shared_group : (a : StorageClass) → several a shared_group ≡ (a gshared && a shared_)
unfolding several number stc_value
several-shared_group a = shared_bits (a gshared) (a shared_)

safe_bits :
    (x y z : Bool)
    → (let n =
          ((if x then 0x2000000000 else 0)
            + ((if y then 0x4000000000 else 0) + ((if z then 0x8000000000 else 0) + 0))) in
        not (bit_and n (n - 1) == 0))
      ≡ (at_least_two x y z)
unfolding at_least_two
safe_bits true true true = refl
safe_bits true true false = refl
safe_bits true false true = refl
safe_bits true false false = refl
safe_bits false true true = refl
safe_bits false true false = refl
safe_bits false false true = refl
safe_bits false false false = refl

pub several-safe_group :
    (a : StorageClass) → several a safe_group ≡ (at_least_two (a safe) (a trusted) (a system))
unfolding several number stc_value
several-safe_group a = safe_bits (a safe) (a trusted) (a system)
