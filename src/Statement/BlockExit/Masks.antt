-- ===== src/Statement/BlockExit/Masks.antt =====
-- What the masks of compiler/src/dmd/blockexit.d hold: a lemma for each way that an exit gets into
-- the mask of a statement.
use dmd.Prelude.{
  ◌≡◌, ◌≢◌, refl, sym, ◌∙◌, subst, Bool, true, false, ◌||◌, Option, none, some, same_sound, arith,
}
use dmd.Statement.Fields.{Catch, CatchType, object, throwable, exception}
use dmd.Statement.Tree.{Expression}
use dmd.Statement.Mask.{
  Exit, fallthru, throw_, return_, goto_, halt, break_, continue_, errthrow, Mask, only, mask_eq,
}
use dmd.Statement.BlockExit.{
  has_value, can_throw, can_throw_option, exp_exit, do_exit, for_body_exit, foreach_exit,
  switch_exit, try_finally_exit, unrolled_step, caught, catch_body_exit, handler_exit,
}
use dmd.Statement.BlockExit.Executions.{
  GoesOn, falls, continues, Passes, throws, Thrown, an_exception, an_error, Takes, object_takes,
  throwable_takes, exception_takes, stops,
}

pub only_self : (e : Exit) → only e e ≡ true
unfolding only
only_self fallthru = refl
only_self _ = refl

pub only-ne : (e x : Exit) → x ≢ e → only e x ≡ false
unfolding only
only-ne fallthru fallthru h = absurd (h refl)
only-ne throw_ throw_ h = absurd (h refl)
only-ne return_ return_ h = absurd (h refl)
only-ne goto_ goto_ h = absurd (h refl)
only-ne halt halt h = absurd (h refl)
only-ne break_ break_ h = absurd (h refl)
only-ne continue_ continue_ h = absurd (h refl)
only-ne errthrow errthrow h = absurd (h refl)
only-ne _ _ h = refl

pub mask_eq_lem : (m n : Mask) → mask_eq m n ≡ true → (x : Exit) → m x ≡ n x
mask_eq_lem m n h fallthru = same_sound _ _ (ground arith)
mask_eq_lem m n h _ = same_sound _ _ (ground arith)

pub do_breaks_lem :
    (c : Expression) (m : Mask)
    → m break_ ≡ true
    → (mask_eq m (only break_) || (m fallthru || m continue_)) ≡ true
    → do_exit c m fallthru ≡ true
unfolding do_exit only
do_breaks_lem c m h ok = ground arith

pub do_passes_lem :
    (c : Expression) (m : Mask) {x : Exit} → Passes x → m x ≡ true → do_exit c m x ≡ true
unfolding do_exit only
do_passes_lem c m throws h = ground (arith, mask_eq_lem m (only break_))
do_passes_lem c m _ h = ground (arith, mask_eq_lem m (only break_))

pub has_value-ne : (o : Option Bool) (b : Bool) → o ≢ some b → has_value o b ≡ false
unfolding has_value
has_value-ne none b h = refl
has_value-ne (some true) true h = absurd (h refl)
has_value-ne (some true) false h = refl
has_value-ne (some false) true h = refl
has_value-ne (some false) false h = absurd (h refl)

-- What an expression throws is an exception or an error.
pub can_throw-Thrown : (e : Expression) (x : Exit) → can_throw e x ≡ true → Thrown x
unfolding can_throw
can_throw-Thrown e throw_ h = an_exception
can_throw-Thrown e errthrow h = an_error
can_throw-Thrown e _ h = cc

mask_eq_break :
    (m : Mask) → mask_eq m (only break_) ≡ true → (m fallthru ≡ false) × (m continue_ ≡ false)
unfolding only
mask_eq_break m h =
    (mask_eq_lem m (only break_) h fallthru, mask_eq_lem m (only break_) h continue_)

do_throws_at :
    (c : Expression) (m : Mask) {x y : Exit}
    → GoesOn y
    → m y ≡ true
    → Thrown x
    → can_throw c x ≡ true
    → do_exit c m x ≡ true
unfolding do_exit only can_throw
do_throws_at c m falls h an_exception t = ground (arith, mask_eq_break m)
do_throws_at c m falls h an_error t = ground (arith, mask_eq_break m)
do_throws_at c m continues h an_exception t = ground (arith, mask_eq_break m)
do_throws_at c m continues h an_error t = ground (arith, mask_eq_break m)

pub do_throws_lem :
    (c : Expression) (m : Mask) (x : Exit) {y : Exit}
    → GoesOn y
    → m y ≡ true
    → can_throw c x ≡ true
    → do_exit c m x ≡ true
do_throws_lem c m x g h t = do_throws_at c m g h (can_throw-Thrown c x t) t

pub do_done_lem :
    (c : Expression) (m : Mask) {y : Exit}
    → GoesOn y
    → m y ≡ true
    → c.to_bool ≢ some true
    → do_exit c m fallthru ≡ true
unfolding do_exit only can_throw
do_done_lem c m falls h ne = ground (arith, has_value-ne c.to_bool true ne)
do_done_lem c m continues h ne = ground (arith, has_value-ne c.to_bool true ne)

pub for_breaks_lem :
    (n : Option Expression) (m r : Mask) → r break_ ≡ true → for_body_exit n m r fallthru ≡ true
unfolding for_body_exit only
for_breaks_lem n m r h = ground arith

pub for_keeps_lem :
    (n : Option Expression) (m r : Mask) (x : Exit) → m x ≡ true → for_body_exit n m r x ≡ true
unfolding for_body_exit
for_keeps_lem n m r x h = ground arith

pub for_passes_lem :
    (n : Option Expression) (m r : Mask) {x : Exit}
    → Passes x
    → r x ≡ true
    → for_body_exit n m r x ≡ true
unfolding for_body_exit only
for_passes_lem n m r throws h = ground arith
for_passes_lem n m r _ h = ground arith

pub for_increment_lem :
    (n : Expression) (m r : Mask) (x : Exit)
    → can_throw n x ≡ true
    → for_body_exit (some n) m r x ≡ true
unfolding for_body_exit can_throw_option
for_increment_lem n m r x h = ground arith

pub foreach_passes_lem :
    (a : Expression) (r : Mask) {x : Exit} → Passes x → r x ≡ true → foreach_exit a r x ≡ true
unfolding foreach_exit only
foreach_passes_lem a r throws h = ground arith
foreach_passes_lem a r _ h = ground arith

pub foreach_done_lem : (a : Expression) (r : Mask) → foreach_exit a r fallthru ≡ true
unfolding foreach_exit only
foreach_done_lem a r = refl

pub foreach_throws_lem :
    (a : Expression) (r : Mask) (x : Exit) → can_throw a x ≡ true → foreach_exit a r x ≡ true
unfolding foreach_exit
foreach_throws_lem a r x h = ground arith

pub switch_breaks_lem :
    (c : Expression) (r : Mask) → r break_ ≡ true → switch_exit c r fallthru ≡ true
unfolding switch_exit only can_throw
switch_breaks_lem c r h = ground arith

pub switch_body_lem :
    (c : Expression) (r : Mask) (x : Exit) → x ≢ break_ → r x ≡ true → switch_exit c r x ≡ true
unfolding switch_exit
switch_body_lem c r x ne h = ground (arith, only-ne break_ x ne)

pub Thrown-ne_fallthru : {x : Exit} → Thrown x → x ≢ fallthru
Thrown-ne_fallthru an_exception e = cc
Thrown-ne_fallthru an_error e = cc

Thrown-ne_break : {x : Exit} → Thrown x → x ≢ break_
Thrown-ne_break an_exception e = cc
Thrown-ne_break an_error e = cc

pub switch_throws_lem :
    (c : Expression) (r : Mask) (x : Exit) → can_throw c x ≡ true → switch_exit c r x ≡ true
unfolding switch_exit
switch_throws_lem c r x h =
    ground (arith, only-ne break_ x (Thrown-ne_break (can_throw-Thrown c x h)))

pub exp_done_lem :
    (e : Expression) → stops e ≡ false → e.is_noreturn ≡ false → exp_exit (some e) fallthru ≡ true
unfolding exp_exit only
exp_done_lem e h k = ground arith

pub exp_stops_lem : (e : Expression) → stops e ≡ true → exp_exit (some e) halt ≡ true
unfolding exp_exit only
exp_stops_lem e h = ground arith

pub exp_noreturn_lem : (e : Expression) → e.is_noreturn ≡ true → exp_exit (some e) halt ≡ true
unfolding exp_exit only
exp_noreturn_lem e h = ground arith

pub exp_throws_lem :
    (e : Expression) (x : Exit)
    → stops e ≡ false
    → can_throw e x ≡ true
    → exp_exit (some e) x ≡ true
unfolding exp_exit
exp_throws_lem e x h k = ground arith

pub finally_halts_lem : (b f : Mask) → b halt ≡ true → try_finally_exit b f halt ≡ true
unfolding try_finally_exit only
finally_halts_lem b f h = ground arith

-- A mask that is only `halt` holds no other exit.
only_halt : (m : Mask) (x : Exit) → mask_eq m (only halt) ≡ true → x ≢ halt → m x ≡ false
only_halt m x h ne = mask_eq_lem m (only halt) h x ∙ only-ne halt x ne

pub finally_done_lem :
    (b f : Mask) (x : Exit)
    → x ≢ halt
    → b x ≡ true
    → f fallthru ≡ true
    → try_finally_exit b f x ≡ true
unfolding try_finally_exit only
finally_done_lem b f x ne h k = ground (arith, only_halt b x, only_halt f fallthru)

pub finally_replaces_lem :
    (b f : Mask) (x y : Exit)
    → y ≢ halt
    → b y ≡ true
    → x ≢ fallthru
    → f x ≡ true
    → try_finally_exit b f x ≡ true
unfolding try_finally_exit
finally_replaces_lem b f x y ne h nf k = ground (arith, only_halt b y, only-ne fallthru x nf)

-- What the mask of a loop holds, a further iteration keeps, as far as it is no `fallthru`.
pub unrolled_keeps_lem :
    (m r : Mask) (x : Exit) → x ≢ fallthru → m x ≡ true → unrolled_step m r x ≡ true
unfolding unrolled_step
unrolled_keeps_lem m r x ne h = ground (arith, only-ne fallthru x ne)

pub unrolled_falls_lem :
    (m r : Mask)
    → m fallthru ≡ true
    → (r fallthru || (r continue_ || r break_)) ≡ true
    → unrolled_step m r fallthru ≡ true
unfolding unrolled_step
unrolled_falls_lem m r h k = ground arith

pub unrolled_passes_lem :
    (m r : Mask) {x : Exit} → Passes x → r x ≡ true → unrolled_step m r x ≡ true
unfolding unrolled_step only
unrolled_passes_lem m r throws h = ground arith
unrolled_passes_lem m r _ h = ground arith

caught_keeps : (t : CatchType) (m : Mask) (x : Exit) → ¬ Thrown x → m x ≡ true → caught t m x ≡ true
unfolding caught only
caught_keeps t m throw_ n h = absurd (n an_exception)
caught_keeps t m errthrow n h = absurd (n an_error)
caught_keeps object m _ n h = ground arith
caught_keeps throwable m _ n h = ground arith
caught_keeps exception m _ n h = ground arith
caught_keeps _ m _ n h = h

caught_misses :
    (t : CatchType) (m : Mask) (x : Exit) → ¬ Takes t x → m x ≡ true → caught t m x ≡ true
unfolding caught
caught_misses object m x n h = absurd (n object_takes)
caught_misses throwable m x n h = absurd (n throwable_takes)
caught_misses exception m x n h =
    ground (arith, only-ne throw_ x (λ e. n (subst (Takes exception) (sym e) exception_takes)))
caught_misses _ m x n h = h

pub catch_keeps_lem :
    (c : Catch) (r m : Mask) (x : Exit) → ¬ Thrown x → m x ≡ true → catch_body_exit c r m x ≡ true
unfolding catch_body_exit
catch_keeps_lem c r m x n h = ground (arith, caught_keeps c.type_ m x n h)

pub catch_misses_lem :
    (c : Catch) (r m : Mask) (x : Exit)
    → ¬ Takes c.type_ x
    → m x ≡ true
    → catch_body_exit c r m x ≡ true
unfolding catch_body_exit
catch_misses_lem c r m x n h = ground (arith, caught_misses c.type_ m x n h)

-- A handler that rethrows leaves the mask of the body as it is.
pub catch_rethrows_lem :
    (c : Catch) (r m : Mask) (x : Exit)
    → c.internal_catch ≡ true
    → r fallthru ≡ true
    → m x ≡ true
    → catch_body_exit c r m x ≡ true
unfolding catch_body_exit
catch_rethrows_lem c r m x i f h = ground arith

pub handler_lem :
    (c : Catch) (r : Mask) (x : Exit)
    → (c.internal_catch ≡ true → x ≢ fallthru)
    → r x ≡ true
    → handler_exit c r x ≡ true
unfolding handler_exit
handler_lem c r x ne h =
    ground (arith, ne, λ (i : c.internal_catch ≡ true). only-ne fallthru x (ne i))
