-- ===== src/Types/Flags/Accessors.antt =====
-- What the accessors of the flags of `TypeFunction` do: compiler/src/dmd/common/bitfields.d.
use dmd.Prelude.{
  ℕ, zero, suc, ◌*◌, ◌/◌, ◌^◌, ◌<◌, Bool, true, false, ◌&&◌, not, ◌==◌, if◌then◌else◌, ◌≡◌, ◌⊎◌,
  refl, sym, ap, arith, ==_iff, List, [], ◌∷◌, get_elem?, Option, some, ◌∙◌, if_true, if_false,
  Bool-cases, inl, inr,
}
use dmd.Types.Flags.{
  get, set, Flag, is_nothrow, is_nogc, is_property, is_ref, is_return, is_scope_qual,
  is_return_inferred, is_scope_inferred, is_live, incomplete, is_in_out_param, is_in_out_qual,
  is_ctor, is_return_scope, is_rvalue, is_ctfe_only, shift, get_flag, set_flag, copy_flags,
}

get-set : (k j : ℕ) (v : Bool) (w : ℕ) → get k (set j v w) ≡ (if k == j then v else get k w)
unfolding get set
get-set zero zero true w = ground arith
get-set zero zero false w = ground arith
get-set zero (suc j) v w = ground arith
get-set (suc k) zero true w = ground arith
get-set (suc k) zero false w = ground arith
get-set (suc k) (suc j) v w = ground (arith, get-set k j v (w / 2))

-- `2 ^ n`
power : ℕ → ℕ
power zero = 1
power (suc n) = 2 * power n

set_bound : (n k : ℕ) (v : Bool) (w : ℕ) → k < n → w < power n → set k v w < power n
unfolding set power
set_bound zero k v w h p = absurd (omega arith)
set_bound (suc n) zero true w h p = ground arith
set_bound (suc n) zero false w h p = ground arith
set_bound (suc n) (suc k) v w h p = ground (arith, set_bound n k v (w / 2))

-- The word of 32 bits of a declaration.
pub set_word_bound : (k : ℕ) (v : Bool) (w : ℕ) → k < 32 → w < 2 ^ 32 → set k v w < 2 ^ 32
unfolding power
set_word_bound k v w h b = set_bound 32 k v w h b

pub get-set_same : (k : ℕ) (v : Bool) (w : ℕ) → get k (set k v w) ≡ v
get-set_same k v w = get-set k k v w ∙ if_true _ _ ((==_iff k k).1 refl)

pub get-set_other : (k j : ℕ) (v : Bool) (w : ℕ) → (k ≡ j) ⊎ (get k (set j v w) ≡ get k w)
get-set_other k j v w = elim (Bool-cases (k == j)) [
  | inl e ↦ inl ((==_iff _ _).0 e)
  | inr e ↦ inr (get-set k j v w ∙ if_false _ _ e)
]

shift_bound : (f : Flag) → shift f < 16
unfolding shift
shift_bound is_nothrow = omega arith
shift_bound _ = omega arith

abbrev members : List Flag
members =
    is_nothrow ∷ is_nogc ∷ is_property ∷ is_ref ∷ is_return ∷ is_scope_qual ∷ is_return_inferred
    ∷ is_scope_inferred ∷ is_live ∷ incomplete ∷ is_in_out_param ∷ is_in_out_qual ∷ is_ctor
    ∷ is_return_scope ∷ is_rvalue ∷ is_ctfe_only ∷ []

shift-members : (f : Flag) → get_elem? members (shift f) ≡ some f
unfolding shift
shift-members is_nothrow = refl
shift-members _ = refl

some_inj : (f g : Flag) → ◌≡◌ {A = Option Flag} (some f) (some g) → f ≡ g
some_inj f g h = cc

shift_inj : (f g : Flag) → shift f ≡ shift g → f ≡ g
shift_inj f g h = some_inj f g (sym (shift-members f) ∙ ap (get_elem? members) h ∙ shift-members g)

-- After a flag is set, it reads as it was set, and every other flag as before.
pub get_flag-set_flag :
    (f g : Flag) (v : Bool) (w : ℕ)
    → (get_flag f (set_flag f v w) ≡ v) × ((g ≡ f) ⊎ (get_flag g (set_flag f v w) ≡ get_flag g w))
unfolding get_flag set_flag
get_flag-set_flag f g v w = (
  get-set (shift f) (shift f) v w ∙ if_true _ _ ((==_iff (shift f) (shift f)).1 refl),
  elim (Bool-cases (shift g == shift f)) [
    | inl e ↦ inl (shift_inj g f ((==_iff _ _).0 e))
    | inr e ↦ inr (get-set (shift g) (shift f) v w ∙ if_false _ _ e)
  ],
)

-- Setting a flag keeps the word within 16 bits.
pub set_flag_bound : (f : Flag) (v : Bool) (w : ℕ) → w < 2 ^ 16 → set_flag f v w < 2 ^ 16
unfolding set_flag power
set_flag_bound f v w h = set_bound 16 (shift f) v w (shift_bound f) h

abbrev pub is_incomplete : Flag → Bool
is_incomplete incomplete = true
is_incomplete _ = false

-- The copy of a function type has the flags of the original, less `incomplete`.
pub get_flag-copy_flags :
    (f : Flag) (w : ℕ) → get_flag f (copy_flags w) ≡ (not (is_incomplete f) && get_flag f w)
unfolding copy_flags get_flag set_flag shift get
get_flag-copy_flags is_nothrow w = simp (get-set)
get_flag-copy_flags incomplete w = simp (get-set)
get_flag-copy_flags _ w = simp (get-set)
