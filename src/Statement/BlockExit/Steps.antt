-- ===== src/Statement/BlockExit/Steps.antt =====
-- Single steps of the proof that `blockExit` (compiler/src/dmd/blockexit.d) foresees every exit.
use dmd.Prelude.{
  ◌≡◌, ◌≢◌, refl, Bool, true, false, ◌&&◌, ◌||◌, not, Option, none, some, ◌>>=◌, arith, ◌⊎◌, inl,
  inr, Bool-cases,
}
use dmd.Statement.Fields.{Ptr, Catch, CatchType, terror, ConditionalStatement, TryCatchStatement}
use dmd.Statement.Tree.{
  Expression, Statement, conditional_statement, try_catch_statement, Nullable, null, node,
  Statements, nil, cons, Catches, no_catch, catch_cons,
}
use dmd.Statement.Queries.{come_from}
use dmd.Statement.Mask.{
  Exit, fallthru, throw_, return_, goto_, break_, continue_, errthrow, Mask, no_exit, only, union,
}
use dmd.Statement.BlockExit.{
  statement_exit, block_exit, catches_exit, do_exit, is_terror, can_throw, can_throw_option,
  asm_exit, break_exit, continue_exit,
}
use dmd.Statement.BlockExit.Executions.{
  GoesOn, falls, continues, Passes, throws, errs, continued, targeted_all,
}
use dmd.Statement.BlockExit.Masks
use dmd.Statement.BlockExit.Regular.{
  of_mask, kept_break, no_break, goes_on, continue_kept, regular, unrolled_regular, all_go_on,
}
use dmd.Statement.BlockExit.Covers.{Covers, gave, failed, Covers-bind, Covers-any, Covers-if}

-- The first statement of the block is reached.
abbrev pub reached : Statements → Mask → Bool
reached nil m = m fallthru
reached (cons null ss) m = m fallthru
reached (cons (node s) ss) m = m fallthru || come_from s

pub reached-fallthru : (ss : Statements) (m : Mask) → m fallthru ≡ true → reached ss m ≡ true
reached-fallthru nil m h = h
reached-fallthru (cons null ss) m h = h
reached-fallthru (cons (node s) ss) m h = ground arith

pub terror-is_terror : (t : CatchType) → t ≢ terror → is_terror t ≡ false
unfolding is_terror
terror-is_terror terror h = absurd (h refl)
terror-is_terror _ h = refl

pub break_label_lem : (o : Option Ptr) → o ≢ none → break_exit o goto_ ≡ true
unfolding break_exit only
break_label_lem none h = absurd (h refl)
break_label_lem (some _) h = refl

pub continue_label_lem : (o : Option Ptr) → o ≢ none → continue_exit o goto_ ≡ true
unfolding continue_exit only
continue_label_lem none h = absurd (h refl)
continue_label_lem (some _) h = refl

pub union_right : (m r : Mask) (x : Exit) → r x ≡ true → union m r x ≡ true
union_right m r x h = ground arith

pub return_throws_lem :
    (e : Expression) (x : Exit)
    → can_throw e x ≡ true
    → union (only return_) (can_throw_option (some e)) x ≡ true
unfolding can_throw_option
return_throws_lem e x h = ground arith

pub asm_falls_lem : (nothrow_ : Bool) → asm_exit false nothrow_ fallthru ≡ true
unfolding asm_exit only
asm_falls_lem true = refl
asm_falls_lem false = refl

pub Passes-ne_fallthru : {x : Exit} → Passes x → x ≢ fallthru
Passes-ne_fallthru throws e = cc
Passes-ne_fallthru _ e = cc

pub asm_passes_lem :
    (nothrow_ : Bool) {x : Exit}
    → Passes x
    → x ≢ errthrow
    → (nothrow_ ≡ true → x ≢ throw_)
    → asm_exit false nothrow_ x ≡ true
unfolding asm_exit only
asm_passes_lem true throws ne h = absurd (h refl refl)
asm_passes_lem false throws ne h = refl
asm_passes_lem n errs ne h = absurd (ne refl)
asm_passes_lem true _ ne h = refl
asm_passes_lem false _ ne h = refl

pub do_breaks-Covers :
    (c : Expression) {o : Option Mask}
    → of_mask kept_break o ≡ true
    → Covers break_ o
    → Covers fallthru (o >>= λ r. some (do_exit c r))
do_breaks-Covers c k (gave {m} h) = gave (Masks.do_breaks_lem c m h (ground arith))
do_breaks-Covers c k failed = failed

pub broken-Covers :
    (b : Bool) {x : Exit} {o : Option Mask} {k : Mask → Option Mask}
    → (of_mask no_break o || b) ≡ true
    → (b ≡ true → (r : Mask) → r break_ ≡ true → Covers x (k r))
    → Covers break_ o
    → Covers x (o >>= λ r. k r)
broken-Covers b e g (gave {m} h) = g (ground arith) m h
broken-Covers b e g failed = failed

pub GoesOn-goes_on : (r : Mask) {y : Exit} → GoesOn y → r y ≡ true → goes_on r ≡ true
GoesOn-goes_on r falls h = ground arith
GoesOn-goes_on r continues h = ground arith

module _ (errors : Bool) where
  pub conditional_if :
      (f : ConditionalStatement) (a b : Nullable) (x : Exit)
      → Covers x (block_exit errors false a)
      → Covers x (statement_exit errors false (conditional_statement f a b))
  unfolding statement_exit
  conditional_if f a null x h = h
  conditional_if f a (node s) x h =
      Covers-bind (λ r k. Covers-any (statement_exit errors false s) (λ q. gave (ground arith))) h

  pub try_body :
      (f : TryCatchStatement) (b : Nullable) (cs : Catches) (x y : Exit)
      → ((r : Mask) → r y ≡ true → Covers x (catches_exit errors false cs r no_exit))
      → Covers y (block_exit errors false b)
      → Covers x (statement_exit errors false (try_catch_statement f b cs))
  unfolding statement_exit
  try_body f null cs x y g h = failed
  try_body f (node s) cs x y g h = Covers-bind g h

  -- A handler that a jump comes into.
  pub try_entered :
      (f : TryCatchStatement) (b : Nullable) (cs : Catches) (x : Exit)
      → ((r : Mask) → Covers x (catches_exit errors false cs r no_exit))
      → Covers x (statement_exit errors false (try_catch_statement f b cs))
  unfolding statement_exit
  try_entered f null cs x g = failed
  try_entered f (node s) cs x g = Covers-any (statement_exit errors false s) g

  pub rethrows-Covers :
      (c : Catch) (p : Nullable) (r : Mask) (x : Exit)
      → c.internal_catch ≡ true
      → r x ≡ true
      → Covers fallthru (block_exit errors false p)
      → Covers x (catches_exit errors false (catch_cons c p no_catch) r no_exit)
  unfolding catches_exit
  rethrows-Covers c p r x i h d =
      Covers-if (is_terror c.type_) (λ _. gave (ground arith))
        (λ _. Covers-bind (λ q k. gave (ground (arith, Masks.catch_rethrows_lem c q r x i k h))) d)

pub entered_goes_on : (t b : Bool) → (not t || b) ≡ true → t ≡ true → b ≡ true
entered_goes_on t b k h = ground arith

-- A labelled `continue` of the loop goes on as an iteration of the mask does.
continues_somehow :
    (b : Nullable) (r : Mask)
    → continue_kept b r ≡ true
    → continued b ≡ true
    → r goto_ ≡ true
    → (r fallthru ≡ true) ⊎ (r continue_ ≡ true)
continues_somehow b r k c h = elim (Bool-cases (r fallthru)) [
  | inl f ↦ inl f
  | inr f ↦ inr (ground arith)
]

pub do_continued_throws_lem :
    (b : Nullable) (c : Expression) (r : Mask) (x : Exit)
    → continue_kept b r ≡ true
    → continued b ≡ true
    → r goto_ ≡ true
    → can_throw c x ≡ true
    → do_exit c r x ≡ true
do_continued_throws_lem b c r x k d h t = elim (continues_somehow b r k d h) [
  | inl f ↦ Masks.do_throws_lem c r x falls f t
  | inr f ↦ Masks.do_throws_lem c r x continues f t
]

pub do_continued_lem :
    (b : Nullable) (c : Expression) (r : Mask)
    → continue_kept b r ≡ true
    → continued b ≡ true
    → r goto_ ≡ true
    → c.to_bool ≢ some true
    → do_exit c r fallthru ≡ true
do_continued_lem b c r k d h ne = elim (continues_somehow b r k d h) [
  | inl f ↦ Masks.do_done_lem c r falls f ne
  | inr f ↦ Masks.do_done_lem c r continues f ne
]

pub continued-goes_on :
    (b : Nullable) (r : Mask)
    → continue_kept b r ≡ true
    → continued b ≡ true
    → r goto_ ≡ true
    → goes_on r ≡ true
continued-goes_on b r k d h = ground arith

pub break_goes_on : (r : Mask) → r break_ ≡ true → goes_on r ≡ true
break_goes_on r h = ground arith

last_of_four : (a b c d : Bool) → (a && (b && (c && d))) ≡ true → d ≡ true
last_of_four a b c d h = ground arith

pub unrolled_continue :
    (errors : Bool) (s : Statement) (ss : Statements)
    → unrolled_regular errors (cons (node s) ss) ≡ true
    → of_mask (continue_kept (node s)) (statement_exit errors false s) ≡ true
unfolding unrolled_regular
unrolled_continue errors s ss k =
    last_of_four (of_mask no_break (statement_exit errors false s) || all_go_on errors ss)
      (regular errors s && unrolled_regular errors ss)
      (not (targeted_all ss) || of_mask goes_on (statement_exit errors false s))
      (of_mask (continue_kept (node s)) (statement_exit errors false s)) k
