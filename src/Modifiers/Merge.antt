-- ===== src/Modifiers/Merge.antt =====
-- `MODmerge` (compiler/src/dmd/mtype.d) and `addMod` (compiler/src/dmd/typesem.d): the first gives
-- the least modifier that both convert to, the second joins the bits.
use Prim.Native.Nat.{bit_or}
use dmd.Prelude.{
  ℕ, ◌≡◌, refl, sym, ◌∙◌, Bool, true, false, ◌&&◌, ◌||◌, not, if◌then◌else◌, arith, ◌==◌, ==_iff,
  ap, Option, none, some, &&-left, &&-right,
}
use dmd.Modifiers.{
  Qualifier, bits, mod_implicit_conv, mod_merge, add_mod, is_immutable, mod_immutable,
}
use dmd.Modifiers.Predicates.{classify}
use dmd.Modifiers.Conversion.{all_qualifiers, all_qualifiers_sound, every_pair}

-- `m` is the least of the modifiers that `p` and `q` convert to, as far as `s` tells.
abbrev least_at : Qualifier → Qualifier → Qualifier → Option ℕ → Bool
least_at p q s none = false
least_at p q s (some m) =
    (mod_implicit_conv (bits p) m && mod_implicit_conv (bits q) m) && mod_implicit_conv m (bits s)

abbrev least : Qualifier → Qualifier → Qualifier → Bool
least p q s =
    not (mod_implicit_conv (bits p) (bits s) && mod_implicit_conv (bits q) (bits s))
    || least_at p q s (mod_merge (bits p) (bits q))

least_table : all_qualifiers (λ p. all_qualifiers (λ q. all_qualifiers (least p q))) ≡ true
unfolding mod_implicit_conv mod_merge bits
least_table = refl

least_lem : (p q s : Qualifier) → least p q s ≡ true
least_lem p q s =
    all_qualifiers_sound (least p q)
      (every_pair (λ p' q'. all_qualifiers (least p' q')) least_table p q) s

-- Where two modifiers of types convert to a common one, `MODmerge` gives a modifier that both
-- convert to, and that converts to the common one.
pub mod_merge-least :
    (p q s : Qualifier)
    → mod_implicit_conv (bits p) (bits s) ≡ true
    → mod_implicit_conv (bits q) (bits s) ≡ true
    → (m : ℕ) × (mod_merge (bits p) (bits q) ≡ some m)
      × (mod_implicit_conv (bits p) m ≡ true)
      × (mod_implicit_conv (bits q) m ≡ true)
      × (mod_implicit_conv m (bits s) ≡ true)
mod_merge-least p q s h k = go (mod_merge (bits p) (bits q)) refl
  where
    go :
        (o : Option ℕ)
        → mod_merge (bits p) (bits q) ≡ o
        → (m : ℕ) × (mod_merge (bits p) (bits q) ≡ some m)
          × (mod_implicit_conv (bits p) m ≡ true)
          × (mod_implicit_conv (bits q) m ≡ true)
          × (mod_implicit_conv m (bits s) ≡ true)
    go none e = absurd (ground (arith, least_lem p q s))
    go (some m) e = (
      m,
      e,
      ground (arith, least_lem p q s),
      ground (arith, least_lem p q s),
      ground (arith, least_lem p q s),
    )

-- `b` is the same modifier as `a`, and a modifier of types.
abbrev agreed : Option ℕ → Option ℕ → Bool
agreed (some m) (some n) = bits (classify m) == m && n == m
agreed _ _ = false

agreed_sound :
    (a b : Option ℕ)
    → agreed a b ≡ true
    → (r : Qualifier) × (a ≡ some (bits r)) × (b ≡ some (bits r))
agreed_sound none b h = cc
agreed_sound (some m) none h = cc
agreed_sound (some m) (some n) h =
    let e = (==_iff (bits (classify m)) m).0 (&&-left _ (n == m) h) in
    let f = (==_iff n m).0 (&&-right (bits (classify m) == m) _ h) in
    (classify m, ap some (sym e), ap some (f ∙ sym e))

abbrev merges_agree : Qualifier → Qualifier → Bool
merges_agree p q = agreed (mod_merge (bits p) (bits q)) (mod_merge (bits q) (bits p))

merge_table : all_qualifiers (λ p. all_qualifiers (merges_agree p)) ≡ true
unfolding mod_merge bits classify
merge_table = refl

-- `MODmerge` never meets its assertion on the modifiers of types, gives such a modifier again, and
-- does not depend on the order.
pub mod_merge_total :
    (p q : Qualifier)
    → (r : Qualifier) × (mod_merge (bits p) (bits q) ≡ some (bits r))
      × (mod_merge (bits q) (bits p) ≡ some (bits r))
mod_merge_total p q = agreed_sound _ _ (every_pair merges_agree merge_table p q)

abbrev joined_bits : Qualifier → Qualifier → ℕ
joined_bits p q =
    if is_immutable (bits p) || is_immutable (bits q)
    then mod_immutable
    else bit_or (bits p) (bits q)

abbrev joins : Option ℕ → ℕ → Bool
joins none n = false
joins (some m) n = m == n

joins_sound : (o : Option ℕ) (n : ℕ) → joins o n ≡ true → o ≡ some n
joins_sound none n h = cc
joins_sound (some m) n h = ap some ((==_iff m n).0 h)

abbrev add_test : Qualifier → Qualifier → Bool
add_test p q = joins (add_mod (bits p) (bits q)) (joined_bits p q)

add_table : all_qualifiers (λ p. all_qualifiers (add_test p)) ≡ true
unfolding add_mod bits is_immutable
add_table = refl

-- `addMod` on the modifiers of types joins the bits, except that immutable takes in all else.
pub add_mod_lem :
    (p q : Qualifier)
    → add_mod (bits p) (bits q)
      ≡ some (
          if is_immutable (bits p) || is_immutable (bits q)
          then mod_immutable
          else bit_or (bits p) (bits q))
add_mod_lem p q = joins_sound _ _ (every_pair add_test add_table p q)
