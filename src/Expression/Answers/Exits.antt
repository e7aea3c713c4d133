-- ===== src/Expression/Answers/Exits.antt =====
-- How an expression statement exits (compiler/src/dmd/blockexit.d), by the expressions that the walk
-- of `canThrow` (compiler/src/dmd/canthrow.d) visits.
use dmd.Prelude.{Bool, true, false, Option, some, ◌≡◌, ◌↔◌, sym, ◌∙◌, Option-cases, inl, inr, arith}
use dmd.Expression.Op
use dmd.Expression.Op.{same_op}
use dmd.Expression.Tree.{Expression, head}
use dmd.Expression.Walk.Order.{postorder}
use dmd.Expression.CanThrow.{can_throw}
use dmd.Expression.ThrowRules.{Context, Ct}
use dmd.Expression.CanThrow.Raises.{
  Kind, exception_kind, error_kind, has, Raises, can_throw-iff-Raises,
}
use dmd.Expression.Answers.{answers, is_assert_false}
use dmd.Statement.Tree.{Expression as Answers}
use dmd.Statement.Mask.{Exit, throw_, errthrow}
use dmd.Statement.ExitMasks.{exp_exit}

-- The exit of a flag of `canThrow`.
abbrev pub exit_of : Kind → Exit
exit_of exception_kind = throw_
exit_of error_kind = errthrow

answered :
    (c : Context) (b : Expression → Option Bool) (e : Expression) {d : Answers}
    → answers c b e ≡ some d
    → (r : Ct) × (can_throw c e ≡ some r)
      × (d.throws_exception ≡ r.exception)
      × (d.throws_error ≡ r.error)
      × (d.is_halt ≡ same_op (head e).op Op.halt)
      × (d.is_assert_false ≡ is_assert_false b e)
unfolding answers
answered c b e h = elim (Option-cases (can_throw c e)) [
  | inl n ↦ cc
  | inr (r, s) ↦ (r, s, ground arith, ground arith, ground arith, ground arith)
]

-- An exit by a flag of `canThrow`, from the answers.
exit_of-answers :
    (k : Kind) (r : Ct) (d : Answers)
    → d.throws_exception ≡ r.exception
    → d.throws_error ≡ r.error
    → (exp_exit (some d) (exit_of k) ≡ true)
      ↔ ((d.is_halt ≡ false) × (d.is_assert_false ≡ false) × (has k r ≡ true))
unfolding exp_exit
exit_of-answers exception_kind r d x y = (λ h. ground arith, λ h. ground arith)
exit_of-answers error_kind r d x y = (λ h. ground arith, λ h. ground arith)

-- An expression statement exits by an exception, or by an error, exactly if the expression is neither a
-- halt nor a failing assertion and the visitor `CanThrow` adds that flag at an expression that the
-- walk visits. This is under the answers of the tree, which are there where `canThrow` does not fail.
pub exit-iff-Raises :
    (c : Context) (b : Expression → Option Bool) (e : Expression) (k : Kind) (d : Answers)
    → answers c b e ≡ some d
    → (exp_exit (some d) (exit_of k) ≡ true) ↔ (
        (same_op (head e).op Op.halt ≡ false)
        × (is_assert_false b e ≡ false)
        × Raises c k (postorder e))
exit-iff-Raises c b e k d h =
    let (r, s, x, y, z, w) = answered c b e h in
    let (to, back) = exit_of-answers k r d x y in
    let (raise, flag) = can_throw-iff-Raises c k e r s in
    (
      λ q. let (i, a, f) = to q in (sym z ∙ i, sym w ∙ a, raise f),
      λ (i, a, f). back (z ∙ i, w ∙ a, flag f),
    )
