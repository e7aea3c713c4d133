-- ===== src/Expression/CanThrow/Raises.antt =====
-- What the result of `canThrow` of compiler/src/dmd/canthrow.d tells of the expressions that are
-- visited.
use dmd.Prelude.{
  Bool, true, false, ◌||◌, Option, none, some, ◌≡◌, refl, sym, ◌∙◌, ◌↔◌, List, [], ◌∷◌, inl, inr,
  ◌⊎◌, arith,
}
use dmd.Expression.Tree.{Expression}
use dmd.Expression.Walk.Order.{postorder}
use dmd.Expression.CanThrow.{can_throw}
use dmd.Expression.ThrowRules.{Ct, no_throw, ◌∪◌, Context}
use dmd.Expression.CanThrow.Visited.{visit, total, can_throw-total}

-- The two flags.
pub data Kind : Type 0 where
  exception_kind error_kind : Kind

abbrev pub has : Kind → Ct → Bool
has exception_kind d = d.exception
has error_kind d = d.error

-- An expression of a list.
pub data Occurs (u : Expression) : List Expression → Type 0 where
  here : {es : List Expression} → Occurs u (u ∷ es)
  later : {e : Expression} {es : List Expression} → Occurs u es → Occurs u (e ∷ es)

-- An expression of the list at which the visitor adds the flag.
abbrev pub Raises : Context → Kind → List Expression → Type 0
Raises c k es =
    (u : Expression) × Occurs u es × ((d : Ct) × (visit c u ≡ some d) × (has k d ≡ true))

-- An expression of the list at which the visitor fails.
abbrev pub Fails : Context → List Expression → Type 0
Fails c es = (u : Expression) × Occurs u es × (visit c u ≡ none)

∪_some :
    (a b : Option Ct) {r : Ct}
    → a ∪ b ≡ some r
    → (x : Ct) × (y : Ct) × (a ≡ some x)
      × (b ≡ some y)
      × ((k : Kind) → has k r ≡ (has k x || has k y))
unfolding ◌∪◌
∪_some none b h = cc
∪_some (some x) none h = cc
∪_some (some x) (some y) h =
    (x, y, refl, refl, elim [ exception_kind ↦ ground arith | error_kind ↦ ground arith ])

∪_none : (a b : Option Ct) → a ∪ b ≡ none → (a ≡ none) ⊎ (b ≡ none)
unfolding ◌∪◌
∪_none none b h = inl refl
∪_none (some x) none h = inr refl
∪_none (some x) (some y) h = cc

none-∪ : (a b : Option Ct) → b ≡ none → a ∪ b ≡ none
unfolding ◌∪◌
none-∪ none b h = refl
none-∪ (some x) none h = refl
none-∪ (some x) (some y) h = cc

or_cases : (a b : Bool) → (a || b) ≡ true → (a ≡ true) ⊎ (b ≡ true)
or_cases true b h = inl refl
or_cases false b h = inr h

no_flag : (k : Kind) → has k no_throw ≡ false
no_flag exception_kind = refl
no_flag error_kind = refl

module _ (c : Context) where
  total-Raises :
      (k : Kind) (es : List Expression) (r : Ct)
      → total c es ≡ some r
      → has k r ≡ true
      → Raises c k es
  unfolding total
  total-Raises k [] r t h = cc (no_flag k)
  total-Raises k (e ∷ es) r t h =
      let (x, y, p, q, both) = ∪_some (visit c e) (total c es) t in
      elim (or_cases (has k x) (has k y) (sym (both k) ∙ h)) [
        | inl f ↦ (e, here, (x, p, f))
        | inr f ↦ let (u, o, d) = total-Raises k es y q f in (u, later o, d)
      ]

  Raises-total :
      (k : Kind) {u : Expression} {es : List Expression} (r : Ct)
      → Occurs u es
      → ((d : Ct) × (visit c u ≡ some d) × (has k d ≡ true))
      → total c es ≡ some r
      → has k r ≡ true
  unfolding total
  Raises-total k {u = u} r (here {es}) (d, v, f) t =
      let (x, y, p, q, both) = ∪_some (visit c u) (total c es) t in ground (arith, both k)
  Raises-total k {u = u} r (later {e} {es} o) w t =
      let (x, y, p, q, both) = ∪_some (visit c e) (total c es) t in
      let f = Raises-total k y o w q in ground (arith, both k)

  total-Fails : (es : List Expression) → total c es ≡ none → Fails c es
  unfolding total
  total-Fails [] t = cc
  total-Fails (e ∷ es) t = elim (∪_none (visit c e) (total c es) t) [
    | inl v ↦ (e, here, v)
    | inr q ↦ let (u, o, v) = total-Fails es q in (u, later o, v)
  ]

  Fails-total :
      {u : Expression} {es : List Expression} → Occurs u es → visit c u ≡ none → total c es ≡ none
  unfolding total ◌∪◌
  Fails-total (here {es}) v = rw v
  Fails-total (later {e} {es} o) v = none-∪ (visit c e) (total c es) (Fails-total o v)

-- Where `canThrow` gives flags, a flag is among them exactly if the visitor adds it at an expression
-- that the walk visits.
pub can_throw-iff-Raises :
    (c : Context) (k : Kind) (e : Expression) (r : Ct)
    → can_throw c e ≡ some r
    → (has k r ≡ true) ↔ Raises c k (postorder e)
can_throw-iff-Raises c k e r t =
    let t' = sym (can_throw-total c e) ∙ t in
    (total-Raises c k (postorder e) r t', λ (u, o, w). Raises-total c k r o w t')

-- `canThrow` fails exactly if the visitor fails at an expression that the walk visits.
pub can_throw-iff-Fails :
    (c : Context) (e : Expression) → (can_throw c e ≡ none) ↔ Fails c (postorder e)
can_throw-iff-Fails c e = (
  λ t. total-Fails c (postorder e) (sym (can_throw-total c e) ∙ t),
  λ (u, o, v). can_throw-total c e ∙ Fails-total c o v,
)
