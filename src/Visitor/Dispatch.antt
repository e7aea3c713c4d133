-- ===== src/Visitor/Dispatch.antt =====
-- The dispatch of compiler/include/dmd/visitor.h, over any classes: `visit(C *)` runs the override
-- of a visitor, or else calls `visit` at the class that the overload of `C` casts to.
use dmd.Prelude.{
  ℕ, zero, suc, Bool, true, false, Option, none, some, ◌≡◌, refl, arith, ◌∙◌, sym, inl, inr,
  Option-cases,
}

-- What a call of `visit` does: an override runs, or the assertion of a root's overload fails.
pub data Outcome (H : Type 0) : Type 0 where
  handled : H → Outcome H
  assertion : Outcome H
  out_of_fuel : Outcome H

module _ {C H : Type 0} (forward : C → Option C) where
  -- `visit`, with the overrides of the visitor; the fuel bounds the calls.
  unfoldable pub visit : ℕ → (C → Option H) → C → Outcome H
  visit zero overrides c = out_of_fuel
  visit (suc n) overrides c = elim (overrides c) [
    | some h ↦ handled h
    | none ↦ elim (forward c) [ none ↦ assertion | some d ↦ visit n overrides d ]
  ]

module _ {C : Type 0} (forward : C → Option C) where
  -- The casts from a class end at a root within `n` calls.
  unfoldable pub climbs : ℕ → C → Bool
  climbs zero c = false
  climbs (suc n) c = elim (forward c) [ none ↦ true | some d ↦ climbs n d ]

  -- A class and the classes that it forwards to, in any number of casts.
  pub data Above : C → C → Type 0 where
    here : {c : C} → Above c c
    up : {c d a : C} → forward c ≡ some d → Above d a → Above c a

  pub climbs-root : (n : ℕ) (c : C) → forward c ≡ none → climbs (suc n) c ≡ true
  unfolding climbs
  climbs-root n c f = ground arith

  pub climbs-some : (n : ℕ) (c : C) {d : C} → forward c ≡ some d → climbs (suc n) c ≡ climbs n d
  unfolding climbs
  climbs-some n c f = ground arith

  -- A chain of casts that ends, ends at a class with no further cast.
  pub climbs-Above : (n : ℕ) (c : C) → climbs n c ≡ true → (r : C) × Above c r × (forward r ≡ none)
  unfolding climbs
  climbs-Above zero c k = cc
  climbs-Above (suc n) c k = elim (Option-cases (forward c)) [
    | inl f ↦ (c, here, f)
    | inr (d, f) ↦ let (r, p, e) = climbs-Above n d (sym (climbs-some n c f) ∙ k) in (r, up f p, e)
  ]

  climbs-up :
      (n : ℕ) (c : C) {d : C} → forward c ≡ some d → climbs (suc n) c ≡ true → climbs n d ≡ true
  climbs-up n c f k = sym (climbs-some n c f) ∙ k

module _ {C H : Type 0} (forward : C → Option C) (overrides : C → Option H) where
  -- The nearest class above `c` that the visitor overrides.
  pub data Nearest : C → C → H → Type 0 where
    own : {c : C} {h : H} → overrides c ≡ some h → Nearest c c h
    inherited :
        {c d a : C} {h : H}
        → overrides c ≡ none
        → forward c ≡ some d
        → Nearest d a h
        → Nearest c a h

  visit-own :
      (n : ℕ) (c : C) {h : H} → overrides c ≡ some h → visit forward (suc n) overrides c ≡ handled h
  unfolding visit
  visit-own n c o = ground arith

  visit-up :
      (n : ℕ) (c : C) {d : C}
      → overrides c ≡ none
      → forward c ≡ some d
      → visit forward (suc n) overrides c ≡ visit forward n overrides d
  unfolding visit
  visit-up n c o f = ground arith

  visit-root :
      (n : ℕ) (c : C)
      → overrides c ≡ none
      → forward c ≡ none
      → visit forward (suc n) overrides c ≡ assertion
  unfolding visit
  visit-root n c o f = ground arith

  -- What runs is the override of the nearest class above.
  pub visit-Nearest :
      (n : ℕ) (c : C) (h : H) → visit forward n overrides c ≡ handled h → (a : C) × Nearest c a h
  unfolding visit
  visit-Nearest zero c h e = cc
  visit-Nearest (suc n) c h e = elim (Option-cases (overrides c)) [
    | inr (h', o) ↦ (c, own (o ∙ cc (visit-own n c o)))
    | inl o ↦ elim (Option-cases (forward c)) [
      | inl f ↦ cc (visit-root n c o f)
      | inr (d, f) ↦
          let (a, s) = visit-Nearest n d h (sym (visit-up n c o f) ∙ e) in (a, inherited o f s)
    ]
  ]

  -- The override of the nearest class above runs, given fuel for the casts.
  pub Nearest-visit :
      (n : ℕ) {c a : C} {h : H}
      → climbs forward n c ≡ true
      → Nearest c a h
      → visit forward n overrides c ≡ handled h
  unfolding climbs
  Nearest-visit zero k s = cc
  Nearest-visit (suc n) {c = c} k (own o) = visit-own n c o
  Nearest-visit (suc n) {c = c} k (inherited o f s) =
      visit-up n c o f ∙ Nearest-visit n (climbs-up forward n c f k) s

  -- With no override above, the assertion of the root fails.
  pub visit-assertion :
      (n : ℕ) (c : C)
      → climbs forward n c ≡ true
      → ((a : C) → Above forward c a → overrides a ≡ none)
      → visit forward n overrides c ≡ assertion
  unfolding climbs
  visit-assertion zero c k none_above = cc
  visit-assertion (suc n) c k none_above = elim (Option-cases (forward c)) [
    | inl f ↦ visit-root n c (none_above c here) f
    | inr (d, f) ↦
        visit-up n c (none_above c here) f
        ∙ visit-assertion n d (climbs-up forward n c f k) (λ a r. none_above a (up f r))
  ]

  -- An override above, at any distance, keeps the assertion from failing.
  pub visit-some :
      (n : ℕ) {c a : C} {h : H}
      → climbs forward n c ≡ true
      → Above forward c a
      → overrides a ≡ some h
      → (h' : H) × (visit forward n overrides c ≡ handled h')
  unfolding climbs
  visit-some zero k r o = cc
  visit-some (suc n) {c = c} {h = h} k here o = (h, visit-own n c o)
  visit-some (suc n) {c = c} k (up f r) o = elim (Option-cases (overrides c)) [
    | inr (h', o') ↦ (h', visit-own n c o')
    | inl o' ↦
        let (h', e) = visit-some n (climbs-up forward n c f k) r o in (h', visit-up n c o' f ∙ e)
  ]

-- Two visitors that agree on the classes above `c` do the same at `c`.
pub visit-agree :
    {C H : Type 0} (forward : C → Option C) (v w : C → Option H) (n : ℕ) (c : C)
    → ((a : C) → Above forward c a → v a ≡ w a)
    → visit forward n v c ≡ visit forward n w c
unfolding visit
visit-agree forward v w zero c same = refl
visit-agree forward v w (suc n) c same = elim (Option-cases (v c)) [
  | inr (h, o) ↦ visit-own forward v n c o ∙ sym (visit-own forward w n c (sym (same c here) ∙ o))
  | inl o ↦
      let o' = sym (same c here) ∙ o in
      elim (Option-cases (forward c)) [
        | inl f ↦ visit-root forward v n c o f ∙ sym (visit-root forward w n c o' f)
        | inr (d, f) ↦
            visit-up forward v n c o f
            ∙ visit-agree forward v w n d (λ a r. same a (up f r))
            ∙ sym (visit-up forward w n c o' f)
      ]
]
