-- ===== src/Modifiers/Tests.antt =====
-- Examples of what is proved of the type modifiers of compiler/src/dmd/mtype.d and
-- compiler/src/dmd/typesem.d.
use Prim.Native.Nat.{bit_or}
use dmd.Prelude.{ℕ, ◌≡◌, refl, true, false, ◌||◌, some, ◌↔◌, if◌then◌else◌}
use dmd.Modifiers.{
  mutable, immutable, const, wild, shared_const, bits, mod_implicit_conv, mod_merge, add_mod,
  is_immutable, mod_immutable,
}
use dmd.Modifiers.Conversion.{Datum, admits, conv-iff-admits}
use dmd.Modifiers.Merge.{mod_merge-least, add_mod_lem}

conv-run : mod_implicit_conv (bits immutable) (bits shared_const) ≡ true
unfolding mod_implicit_conv bits
conv-run = refl

conv_mutable-run : mod_implicit_conv (bits const) (bits mutable) ≡ false
unfolding mod_implicit_conv bits
conv_mutable-run = refl

to_const : mod_implicit_conv (bits mutable) (bits const) ≡ true
unfolding mod_implicit_conv bits
to_const = refl

wild_to_const : mod_implicit_conv (bits wild) (bits const) ≡ true
unfolding mod_implicit_conv bits
wild_to_const = refl

conv-iff-admits_example :
    (mod_implicit_conv (bits mutable) (bits const) ≡ true)
    ↔ ((d : Datum) → admits mutable d ≡ true → admits const d ≡ true)
conv-iff-admits_example = conv-iff-admits mutable const

mod_merge-least_example :
    (m : ℕ) × (mod_merge (bits mutable) (bits wild) ≡ some m)
    × (mod_implicit_conv (bits mutable) m ≡ true)
    × (mod_implicit_conv (bits wild) m ≡ true)
    × (mod_implicit_conv m (bits const) ≡ true)
mod_merge-least_example = mod_merge-least mutable wild const to_const wild_to_const

add_mod_lem_example :
    add_mod (bits wild) (bits const)
    ≡ some (
        if is_immutable (bits wild) || is_immutable (bits const)
        then mod_immutable
        else bit_or (bits wild) (bits const))
add_mod_lem_example = add_mod_lem wild const
