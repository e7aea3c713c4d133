-- ===== src/Visitor/Reaches.antt =====
-- A test of what a class is derived from: the casts of compiler/include/dmd/visitor.h, followed up
-- to a class that is asked for.
use dmd.Prelude.{
  ℕ, zero, suc, Bool, true, false, Option, none, some, ◌≡◌, arith, if◌then◌else◌, ◌∙◌, sym, inl,
  inr, Option-cases, Bool-cases,
}
use dmd.Visitor.Dispatch.{climbs, climbs-some, Above, here, up}

module _ {C : Type 0} (forward : C → Option C) (wanted : C → Bool) where
  -- A class above `c`, within `n` casts, is wanted.
  unfoldable pub reaches : ℕ → C → Bool
  reaches zero c = false
  reaches (suc n) c =
      if wanted c then true else elim (forward c) [ none ↦ false | some d ↦ reaches n d ]

  reaches-here : (n : ℕ) (c : C) → wanted c ≡ true → reaches (suc n) c ≡ true
  unfolding reaches
  reaches-here n c w = ground arith

  reaches-up :
      (n : ℕ) (c : C) {d : C}
      → wanted c ≡ false
      → forward c ≡ some d
      → reaches (suc n) c ≡ reaches n d
  unfolding reaches
  reaches-up n c w f = ground arith

  reaches-root : (n : ℕ) (c : C) → wanted c ≡ false → forward c ≡ none → reaches (suc n) c ≡ false
  unfolding reaches
  reaches-root n c w f = ground arith

  pub reaches-Above :
      (n : ℕ) (c : C) → reaches n c ≡ true → (a : C) × Above forward c a × (wanted a ≡ true)
  unfolding reaches
  reaches-Above zero c r = cc
  reaches-Above (suc n) c r = elim (Bool-cases (wanted c)) [
    | inl w ↦ (c, here, w)
    | inr w ↦ elim (Option-cases (forward c)) [
      | inl f ↦ cc (reaches-root n c w f)
      | inr (d, f) ↦
          let (a, p, e) = reaches-Above n d (sym (reaches-up n c w f) ∙ r) in (a, up f p, e)
    ]
  ]

  pub Above-reaches :
      (n : ℕ) {c a : C}
      → climbs forward n c ≡ true
      → Above forward c a
      → wanted a ≡ true
      → reaches n c ≡ true
  unfolding climbs
  Above-reaches zero k p w = cc
  Above-reaches (suc n) {c = c} k here w = reaches-here n c w
  Above-reaches (suc n) {c = c} k (up f p) w = elim (Bool-cases (wanted c)) [
    | inl own ↦ reaches-here n c own
    | inr other ↦ reaches-up n c other f ∙ Above-reaches n (sym (climbs-some forward n c f) ∙ k) p w
  ]
