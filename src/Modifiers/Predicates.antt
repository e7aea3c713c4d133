-- ===== src/Modifiers/Predicates.antt =====
-- The tests of `Type` (compiler/include/dmd/mtype.h) on every value of the byte `mod`, and on the
-- modifiers that a type can have.
use dmd.Prelude.{
  ℕ, ◌<◌, ◌≡◌, refl, Bool, true, ◌&&◌, ◌||◌, not, if◌then◌else◌, holds_under, holds_under_sound,
  same, arith,
}
use dmd.Modifiers.{
  is_const, is_immutable, is_mutable, is_shared, is_shared_const, is_wild, is_wild_const,
  is_shared_wild, is_naked, Qualifier, mutable, immutable, shared, shared_const, const, shared_wild,
  wild, shared_wildconst, wildconst, bits,
}

-- The tests of two bits, by the tests of one.
abbrev by_bits : ℕ → Bool
by_bits m =
    same (is_mutable m) (not (is_const m || (is_immutable m || is_wild m)))
    && (same (is_shared_const m) (is_shared m && is_const m)
        && (same (is_wild_const m) (is_wild m && is_const m)
            && same (is_shared_wild m) (is_shared m && is_wild m)))

by_bits_table : holds_under by_bits 256 ≡ true
unfolding holds_under is_const is_immutable is_mutable is_shared is_shared_const is_wild
    is_wild_const is_shared_wild
by_bits_table = refl

and_parts :
    (a b c d e f g h : Bool)
    → (same a b && (same c d && (same e f && same g h))) ≡ true
    → (a ≡ b) × (c ≡ d) × (e ≡ f) × (g ≡ h)
and_parts a b c d e f g h p = ground arith

-- For every byte of modifiers: a type is mutable exactly if it is neither const, immutable nor
-- wild, and the combined tests are the conjunctions of the single ones.
pub predicates_by_bits :
    (m : ℕ)
    → m < 256
    → (is_mutable m ≡ not (is_const m || (is_immutable m || is_wild m)))
      × (is_shared_const m ≡ (is_shared m && is_const m))
      × (is_wild_const m ≡ (is_wild m && is_const m))
      × (is_shared_wild m ≡ (is_shared m && is_wild m))
predicates_by_bits m h = and_parts _ _ _ _ _ _ _ _ (holds_under_sound by_bits by_bits_table h)

-- The qualifier that the tests tell.
unfoldable pub classify : ℕ → Qualifier
unfolding is_const is_immutable is_shared is_shared_const is_wild is_wild_const is_shared_wild
    is_naked
classify m =
    if is_immutable m
    then immutable
    else if is_naked m
    then mutable
    else if is_shared_wild m && is_wild_const m
    then shared_wildconst
    else if is_wild_const m
    then wildconst
    else if is_shared_wild m
    then shared_wild
    else if is_wild m
    then wild
    else if is_shared_const m
    then shared_const
    else if is_shared m
    then shared
    else const

-- The tests of `Type`, asked in order, tell the modifiers of types apart.
pub classify-bits : (q : Qualifier) → classify (bits q) ≡ q
unfolding bits classify
classify-bits mutable = refl
classify-bits _ = refl
