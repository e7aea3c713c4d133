-- ===== src/Expression/SideEffect/Trivial.antt =====
-- What the walks of compiler/src/dmd/sideeffect.d find, and that a trivial expression has no side
-- effects.
use dmd.Prelude.{
  ℕ, Bool, true, false, Option, none, some, ◌≡◌, ◌↔◌, refl, sym, ap, ◌∙◌, List, [], ◌∷◌,
  Option-cases, inl, inr, arith,
}
use dmd.Types.Tree.{TypeNode}
use dmd.Expression.Tree.{Expression}
use dmd.Expression.Walk.{◌⊳◌}
use dmd.Expression.Walk.Order.{postorder, run, walk-eq-run}
use dmd.Expression.CanThrow.Raises.{Occurs, here, later}
use dmd.Expression.SideEffect.{
  stopper, verdict, asked, lambda_has_side_effect, has_side_effect, stops_trivial, is_trivial_exp,
}

-- Nothing on the list makes the test fail or stop.
abbrev pub Passes : (Expression → Option Bool) → List Expression → Type 0
Passes t es = (u : Expression) → Occurs u es → t u ≡ some false

module _ (t : Expression → Option Bool) where
  module _ (e : Expression) (es : List Expression) where
    run-none : t e ≡ none → run (stopper t) (e ∷ es) false ≡ (true, true)
    unfolding run stopper ◌⊳◌
    run-none h = ground arith

    run-stop : t e ≡ some true → run (stopper t) (e ∷ es) false ≡ (false, true)
    unfolding run stopper ◌⊳◌
    run-stop h = ground arith

    run-on : t e ≡ some false → run (stopper t) (e ∷ es) false ≡ run (stopper t) es false
    unfolding run stopper ◌⊳◌
    run-on h = ground arith

  run-cons :
      (e : Expression) (es : List Expression)
      → verdict (run (stopper t) (e ∷ es) false) ≡ some false
      → (t e ≡ some false) × (verdict (run (stopper t) es false) ≡ some false)
  run-cons e es h = elim (Option-cases (t e)) [
    | inl n ↦ cc (ap verdict (run-none e es n))
    | inr (true, y) ↦ cc (ap verdict (run-stop e es y))
    | inr (false, y) ↦ (y, ap verdict (sym (run-on e es y)) ∙ h)
  ]

  run-Passes :
      (u : Expression) {es : List Expression}
      → Occurs u es
      → verdict (run (stopper t) es false) ≡ some false
      → t u ≡ some false
  run-Passes u (here {es = rest}) h = (run-cons u rest h).0
  run-Passes u (later {e} {es = rest} o) h = run-Passes u o (run-cons e rest h).1

  Passes-run :
      (es : List Expression) → Passes t es → verdict (run (stopper t) es false) ≡ some false
  unfolding run
  Passes-run [] p = refl
  Passes-run (e ∷ es) p = ap verdict (run-on e es (p e here)) ∙ Passes-run es (λ u o. p u (later o))

  asked-Passes : (e : Expression) → (asked t e ≡ some false) ↔ Passes t (postorder e)
  unfolding asked
  asked-Passes e =
      let q = ap verdict (walk-eq-run (stopper t) e false) in
      (λ h u o. run-Passes u o (sym q ∙ h), λ p. q ∙ Passes-run (postorder e) p)

module _ (level_of : TypeNode → ℕ) where
  -- An expression has no side effect, and the walk does not fail, exactly if no visited expression has one
  -- by itself.
  pub has_side_effect-iff-Passes :
      (assume_impure : Bool) (e : Expression)
      → (has_side_effect level_of assume_impure e ≡ some false)
        ↔ Passes (lambda_has_side_effect level_of assume_impure) (postorder e)
  unfolding has_side_effect
  has_side_effect-iff-Passes assume_impure e =
      asked-Passes (lambda_has_side_effect level_of assume_impure) e

  not_call :
      (assume_impure : Bool) (u : Expression)
      → stops_trivial level_of u ≡ some false
      → lambda_has_side_effect level_of assume_impure u ≡ some false
  unfolding stops_trivial lambda_has_side_effect
  not_call assume_impure u h = ground arith

  stops-trivial :
      (e : Expression)
      → is_trivial_exp level_of e ≡ some true
      → asked (stops_trivial level_of) e ≡ some false
  unfolding is_trivial_exp
  stops-trivial e h = ground arith

  -- A trivial expression has no side effect, whether calls are assumed to be impure or not.
  pub trivial-has_side_effect :
      (assume_impure : Bool) (e : Expression)
      → is_trivial_exp level_of e ≡ some true
      → has_side_effect level_of assume_impure e ≡ some false
  trivial-has_side_effect assume_impure e h =
      let pass = (asked-Passes (stops_trivial level_of) e).0 (stops-trivial e h) in
      (has_side_effect-iff-Passes assume_impure e).1 (λ u o. not_call assume_impure u (pass u o))
