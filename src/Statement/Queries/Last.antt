-- ===== src/Statement/Queries/Last.antt =====
-- What `last` and `endsWithReturnStatement` of compiler/src/dmd/statement.d give.
use dmd.Prelude.{◌≡◌, refl, subst, Bool, true, false, ◌⊎◌, inl, inr}
use dmd.Statement.Tree.{
  Statement, compound_statement, compound_declaration_statement, compound_asm_statement,
  scope_statement, return_statement, error_statement, Nullable, null, node, Statements, nil, cons,
}
use dmd.Statement.Queries.{
  last, last_pointer, last_of, or_else, ends_with_return_statement, return_pointer, first_return,
}
use dmd.Statement.Queries.Visits.{
  Visits, VisitsIn, VisitsAll, itself, in_compound, in_compound_declaration, in_compound_asm,
  in_scope, in_node, in_head, in_tail,
}

unfoldable pub is_block : Statement → Bool
is_block (compound_statement _) = true
is_block (compound_declaration_statement _) = true
is_block (compound_asm_statement _ _) = true
is_block _ = false

unfoldable pub is_return : Statement → Bool
is_return (return_statement _ _) = true
is_return _ = false

node-injective : {s u : Statement} → node s ≡ node u → s ≡ u
node-injective h = cc

or_else-node : (a b : Nullable) {u : Statement} → or_else a b ≡ node u → (a ≡ node u) ⊎ (b ≡ node u)
unfolding or_else
or_else-node null b h = inr h
or_else-node (node s) b h = inl h

mutual
  unfolding last is_block

  last-found : (s : Statement) {u : Statement} → last s ≡ node u → Visits u s × (is_block u ≡ false)
  last-found (compound_statement ss) h = let (v, e) = last_of-found ss h in (in_compound v, e)
  last-found (compound_declaration_statement ss) h =
      let (v, e) = last_of-found ss h in (in_compound_declaration v, e)
  last-found (compound_asm_statement f ss) h =
      let (v, e) = last_of-found ss h in (in_compound_asm v, e)
  last-found error_statement {u} h =
      subst (λ w. Visits w error_statement × (is_block w ≡ false)) (node-injective h) (itself, refl)
  last-found s {u} h =
      subst (λ w. Visits w s × (is_block w ≡ false)) (node-injective h) (itself, refl)

  last_pointer-found :
      (p : Nullable) {u : Statement} → last_pointer p ≡ node u → VisitsIn u p × (is_block u ≡ false)
  last_pointer-found null h = cc
  last_pointer-found (node s) h = let (v, e) = last-found s h in (in_node v, e)

  last_of-found :
      (ss : Statements) {u : Statement}
      → last_of ss ≡ node u
      → VisitsAll u ss × (is_block u ≡ false)
  last_of-found nil h = cc
  last_of-found (cons p ss) {u} h =
      let later = λ (e : last_of ss ≡ node u). last_of-found ss e in
      let first = λ (e : last_pointer p ≡ node u). last_pointer-found p e in
      elim (or_else-node (last_of ss) (last_pointer p) h) [
        | inl e ↦ let (v, k) = later e in (in_tail v, k)
        | inr e ↦ let (v, k) = first e in (in_head v, k)
      ]

mutual
  unfolding ends_with_return_statement is_return

  return-found :
      (s : Statement) {u : Statement}
      → ends_with_return_statement s ≡ node u
      → Visits u s × (is_return u ≡ true)
  return-found (return_statement f e) {u} h =
      subst (λ w. Visits w (return_statement f e) × (is_return w ≡ true)) (node-injective h)
        (itself, refl)
  return-found (compound_statement ss) h =
      let (v, e) = first_return-found ss h in (in_compound v, e)
  return-found (compound_declaration_statement ss) h =
      let (v, e) = first_return-found ss h in (in_compound_declaration v, e)
  return-found (compound_asm_statement f ss) h =
      let (v, e) = first_return-found ss h in (in_compound_asm v, e)
  return-found (scope_statement f p) h = let (v, e) = return_pointer-found p h in (in_scope v, e)
  return-found _ h = cc

  return_pointer-found :
      (p : Nullable) {u : Statement}
      → return_pointer p ≡ node u
      → VisitsIn u p × (is_return u ≡ true)
  return_pointer-found null h = cc
  return_pointer-found (node s) h = let (v, e) = return-found s h in (in_node v, e)

  first_return-found :
      (ss : Statements) {u : Statement}
      → first_return ss ≡ node u
      → VisitsAll u ss × (is_return u ≡ true)
  first_return-found nil h = cc
  first_return-found (cons p ss) {u} h =
      let later = λ (e : first_return ss ≡ node u). first_return-found ss e in
      let first = λ (e : return_pointer p ≡ node u). return_pointer-found p e in
      elim (or_else-node (return_pointer p) (first_return ss) h) [
        | inl e ↦ let (v, k) = first e in (in_head v, k)
        | inr e ↦ let (v, k) = later e in (in_tail v, k)
      ]

-- What `last` gives is visited on the walk of the statement, and is no compound statement itself.
pub last_lem : (s : Statement) {u : Statement} → last s ≡ node u → Visits u s × (is_block u ≡ false)
last_lem s h = last-found s h

-- What `endsWithReturnStatement` gives is a return statement that is visited on the walk of the
-- statement.
pub ends_with_return_statement_lem :
    (s : Statement) {u : Statement}
    → ends_with_return_statement s ≡ node u
    → Visits u s × (is_return u ≡ true)
ends_with_return_statement_lem s h = return-found s h
