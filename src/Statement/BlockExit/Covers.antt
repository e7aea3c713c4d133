-- ===== src/Statement/BlockExit/Covers.antt =====
-- A mask that may not be there, and an exit that it holds if it is.
use dmd.Prelude.{
  ◌≡◌, ◌≢◌, refl, subst, Bool, true, false, Option, none, some, ◌>>=◌, if◌then◌else◌, arith,
  Bool-cases, inl, inr,
}
use dmd.Statement.Tree.{Expression, Nullable}
use dmd.Statement.Mask.{Exit, fallthru, Mask}
use dmd.Statement.BlockExit.{
  has_value, can_throw, for_body_exit, for_condition, for_enters, for_exit, if_exit,
}
use dmd.Statement.BlockExit.Executions.{Repeats, no_condition, not_false, entered, targeted}
use dmd.Statement.BlockExit.Regular.{of_mask, no_skipped_target, loop_reached}
use dmd.Statement.BlockExit.Masks.{
  only-ne, has_value-ne, for_keeps_lem, can_throw-Thrown, Thrown-ne_fallthru,
}

pub data Covers (x : Exit) : Option Mask → Type 0 where
  gave : {m : Mask} → m x ≡ true → Covers x (some m)
  failed : Covers x none

pub Covers-bind :
    {x y : Exit} {o : Option Mask} {k : Mask → Option Mask}
    → ((m : Mask) → m y ≡ true → Covers x (k m))
    → Covers y o
    → Covers x (o >>= λ m. k m)
Covers-bind g (gave {m} h) = g m h
Covers-bind g failed = failed

pub Covers-map :
    {x y : Exit} {o : Option Mask} (f : Mask → Mask)
    → ((m : Mask) → m y ≡ true → f m x ≡ true)
    → Covers y o
    → Covers x (o >>= λ m. some (f m))
Covers-map f g c = Covers-bind (λ m h. gave (g m h)) c

-- The other mask of two, of which nothing is known.
pub Covers-any :
    {x : Exit} (o : Option Mask) {k : Mask → Option Mask}
    → ((m : Mask) → Covers x (k m))
    → Covers x (o >>= λ m. k m)
Covers-any none g = failed
Covers-any (some m) g = g m

-- A mask that passes a test if it is there.
pub Covers-of_mask :
    {x : Exit} (t : Mask → Bool) (o : Option Mask) {k : Mask → Option Mask}
    → of_mask t o ≡ true
    → ((m : Mask) → t m ≡ true → Covers x (k m))
    → Covers x (o >>= λ m. k m)
Covers-of_mask t none h g = failed
Covers-of_mask t (some m) h g = g m h

pub Covers-tested :
    {x y : Exit} (t : Mask → Bool) {o : Option Mask} {k : Mask → Option Mask}
    → of_mask t o ≡ true
    → ((m : Mask) → t m ≡ true → m y ≡ true → Covers x (k m))
    → Covers y o
    → Covers x (o >>= λ m. k m)
Covers-tested t e g (gave {m} h) = g m e h
Covers-tested t e g failed = failed

pub Covers-if :
    {x : Exit} (b : Bool) {o p : Option Mask}
    → (b ≡ true → Covers x o)
    → (b ≡ false → Covers x p)
    → Covers x (if b then o else p)
Covers-if true f g = f refl
Covers-if false f g = g refl

pub Covers-lem : {x : Exit} {o : Option Mask} (m : Mask) → Covers x o → o ≡ some m → m x ≡ true
Covers-lem {x} m (gave h) e =
    subst (λ (o : Option Mask). elim o [ none ↦ false | some r ↦ r x ] ≡ true) e h
Covers-lem m failed e = cc

pub for_enters_lem :
    {c : Option Expression} {b : Nullable} (i : Option Mask)
    → loop_reached i c b ≡ true
    → Repeats c b
    → for_enters c ≡ true
unfolding for_enters
for_enters_lem i k no_condition = refl
for_enters_lem i k (not_false {c} ne) = ground (arith, has_value-ne c.to_bool false ne)
for_enters_lem i k (entered h) = ground arith

-- The mask of an initialisation before a body that a jump comes into.
pub Covers-loop_reached :
    (o : Option Mask) (c : Option Expression) (b : Nullable)
    → loop_reached o c b ≡ true
    → targeted b ≡ true
    → Covers fallthru o
Covers-loop_reached none c b k h = failed
Covers-loop_reached (some m) c b k h = gave (ground arith)

pub for_condition-keeps :
    (c : Option Expression) (m : Mask) (x : Exit)
    → x ≢ fallthru
    → m x ≡ true
    → for_condition c m x ≡ true
unfolding for_condition
for_condition-keeps none m x ne h = ground (arith, only-ne fallthru x ne)
for_condition-keeps (some c) m x ne h = ground (arith, only-ne fallthru x ne)

pub for_condition-throws :
    (c : Expression) (m : Mask) (x : Exit)
    → can_throw c x ≡ true
    → for_condition (some c) m x ≡ true
unfolding for_condition
for_condition-throws c m x h =
    ground (arith, only-ne fallthru x (Thrown-ne_fallthru (can_throw-Thrown c x h)))

pub for_condition-done :
    (c : Expression) (m : Mask)
    → m fallthru ≡ true
    → c.to_bool ≢ some true
    → for_condition (some c) m fallthru ≡ true
unfolding for_condition
for_condition-done c m h ne = ground (arith, has_value-ne c.to_bool true ne)

module _ (c n : Option Expression) (body : Option Mask) (m : Mask) (x : Exit) where
  -- What the condition leaves in the mask stays there.
  pub for_exit-condition :
      m fallthru ≡ true → for_condition c m x ≡ true → Covers x (for_exit c n body m)
  unfolding for_exit
  for_exit-condition f h = rw f (
      Covers-if (for_enters c)
        (λ _. Covers-any body (λ r. gave (for_keeps_lem n (for_condition c m) r x h)))
        (λ _. gave h))

  pub for_exit-keeps : x ≢ fallthru → m x ≡ true → Covers x (for_exit c n body m)
  unfolding for_exit
  for_exit-keeps ne h = elim (Bool-cases (m fallthru)) [
    | inl f ↦ for_exit-condition f (for_condition-keeps c m x ne h)
    | inr f ↦ rw f (gave h)
  ]

  -- What the body adds to the mask, where it is reached.
  pub for_exit-body :
      {y : Exit}
      → m fallthru ≡ true
      → for_enters c ≡ true
      → ((t r : Mask) → r y ≡ true → for_body_exit n t r x ≡ true)
      → Covers y body
      → Covers x (for_exit c n body m)
  unfolding for_exit
  for_exit-body f e g b =
      rw (f, e) (Covers-map (for_body_exit n (for_condition c m)) (g (for_condition c m)) b)

module _ (c : Expression) (a b : Option Mask) (x : Exit) where
  pub if_exit-throws : can_throw c x ≡ true → Covers x (if_exit c a b)
  unfolding if_exit
  if_exit-throws h =
      Covers-if (has_value c.to_bool true) (λ _. Covers-any a (λ r. gave (ground arith)))
        (λ _.
          Covers-if (has_value c.to_bool false) (λ _. Covers-any b (λ r. gave (ground arith)))
            (λ _. Covers-any a (λ r. Covers-any b (λ q. gave (ground arith)))))

  pub if_exit-reached_true :
      has_value c.to_bool false ≡ false → Covers x a → Covers x (if_exit c a b)
  unfolding if_exit
  if_exit-reached_true e h = rw e (
      Covers-if (has_value c.to_bool true) (λ _. Covers-bind (λ r k. gave (ground arith)) h)
        (λ _. Covers-bind (λ r k. Covers-any b (λ q. gave (ground arith))) h))

  pub if_exit-true : c.to_bool ≢ some false → Covers x a → Covers x (if_exit c a b)
  if_exit-true ne h = if_exit-reached_true (has_value-ne c.to_bool false ne) h

  pub if_exit-reached_false :
      has_value c.to_bool true ≡ false → Covers x b → Covers x (if_exit c a b)
  unfolding if_exit
  if_exit-reached_false e h = rw e (
      Covers-if (has_value c.to_bool false) (λ _. Covers-bind (λ r k. gave (ground arith)) h)
        (λ _. Covers-any a (λ r. Covers-bind (λ q k. gave (ground arith)) h)))

  pub if_exit-false : c.to_bool ≢ some true → Covers x b → Covers x (if_exit c a b)
  if_exit-false ne h = if_exit-reached_false (has_value-ne c.to_bool true ne) h

-- What is regular of the branches of an `if` with a target in them.
pub no_skipped_target-true :
    (c : Expression) (a b : Nullable)
    → no_skipped_target c a b ≡ true
    → targeted a ≡ true
    → has_value c.to_bool false ≡ false
no_skipped_target-true c a b k h = ground arith

pub no_skipped_target-false :
    (c : Expression) (a b : Nullable)
    → no_skipped_target c a b ≡ true
    → targeted b ≡ true
    → has_value c.to_bool true ≡ false
no_skipped_target-false c a b k h = ground arith
