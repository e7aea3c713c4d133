-- ===== src/Statement/BlockExit/Executions.antt =====
-- How the executions of a statement can end, which `blockExit` of compiler/src/dmd/blockexit.d is
-- to foresee: `Exits s x` has a derivation for each path through `s` that ends in the exit `x`.
-- Both ways of a condition are possible, unless it is constant. A `goto` and a labelled jump end
-- at `goto_`, also where their target is in `s`: the path from the target on is another one. So a
-- path may begin at any target in `s`, and in a part with a target the rules ask for nothing that
-- would keep an execution from its beginning out of it: neither the value of a condition, nor the
-- end of an initialisation, of earlier iterations or of a `try` body. A `goto` into a `finally`
-- block is an error, and semantic analysis leaves no conditional statement with a target and no
-- `pragma` statement with a body. An expression has a value or throws, and only one that is a
-- statement of its own can also stop the program.
use dmd.Prelude.{◌≡◌, ◌≢◌, Bool, true, false, ◌||◌, Option, none, some}
use dmd.Statement.Fields
use dmd.Statement.Fields.{Catch, CatchType, terror, object, throwable, exception}
use dmd.Statement.Tree.{
  Expression, Statement, exp_statement, dtor_exp_statement, compound_statement,
  compound_asm_statement, unrolled_loop_statement, scope_statement, do_statement, for_statement,
  foreach_statement, if_statement, conditional_statement, pragma_statement, static_assert_statement,
  switch_statement, case_statement, default_statement, goto_default_statement, goto_case_statement,
  switch_error_statement, return_statement, break_statement, continue_statement,
  synchronized_statement, with_statement, try_catch_statement, try_finally_statement,
  scope_guard_statement, throw_statement, goto_statement, label_statement, import_statement,
  Nullable, null, node, Statements, nil, cons, Catches, no_catch, catch_cons,
}
use dmd.Statement.Queries.{come_from, walk_pointer, walk_all, walk_catches, is_target}
use dmd.Statement.Mask.{Exit, fallthru, throw_, return_, goto_, halt, break_, continue_, errthrow}
use dmd.Statement.BlockExit.{can_throw}

-- An expression statement that stops the program: `halt` or `assert(0)`.
abbrev pub stops : Expression → Bool
stops e = e.is_halt || e.is_assert_false

-- The end of an iteration: the loop goes on.
pub data GoesOn : Exit → Type 0 where
  falls : GoesOn fallthru
  continues : GoesOn continue_

-- The exits that leave a loop for good, and pass through it.
pub data Passes : Exit → Type 0 where
  throws : Passes throw_
  returns : Passes return_
  jumps : Passes goto_
  halts : Passes halt
  errs : Passes errthrow

-- What an exception can be.
pub data Thrown : Exit → Type 0 where
  an_exception : Thrown throw_
  an_error : Thrown errthrow

-- The handlers of a class take an exception for certain.
pub data Takes : CatchType → Exit → Type 0 where
  object_takes : {x : Exit} → Takes object x
  throwable_takes : {x : Exit} → Takes throwable x
  exception_takes : Takes exception throw_

-- No handler takes the exception for certain.
pub data Misses : Catches → Exit → Type 0 where
  none_left : {x : Exit} → Misses no_catch x
  missed :
      {c : Catch} {h : Nullable} {cs : Catches} {x : Exit}
      → ¬ Takes c.type_ x
      → Misses cs x
      → Misses (catch_cons c h cs) x

-- A jump can come into the part: to a label, a `case` or a `default`.
abbrev pub targeted : Nullable → Bool
targeted p = walk_pointer is_target p

abbrev pub targeted_all : Statements → Bool
targeted_all ss = walk_all is_target ss

abbrev pub targeted_handlers : Catches → Bool
targeted_handlers cs = walk_catches is_target cs

-- The body of a `for` loop is reached: there is no condition, it is not constantly false, or a jump
-- comes into the body.
pub data Repeats : Option Expression → Nullable → Type 0 where
  no_condition : {b : Nullable} → Repeats none b
  not_false : {c : Expression} {b : Nullable} → c.to_bool ≢ some false → Repeats (some c) b
  entered : {c : Option Expression} {b : Nullable} → targeted b ≡ true → Repeats c b

-- The visitor that looks for a `continue` with a label.
unfoldable pub is_labelled_continue : Statement → Bool
is_labelled_continue (continue_statement f) = elim f.ident [ none ↦ false | some _ ↦ true ]
is_labelled_continue _ = false

-- A `goto_` at the end of the body may be a `continue` of this loop by its label.
abbrev pub continued : Nullable → Bool
continued p = walk_pointer is_labelled_continue p

mutual
  pub data Ends : Nullable → Exit → Type 0 where
    skipped : Ends null fallthru
    ran : {s : Statement} {x : Exit} → Exits s x → Ends (node s) x

  pub data Exits : Statement → Exit → Type 0 where
    exp_null : Exits (exp_statement none) fallthru
    exp_done :
        {e : Expression}
        → stops e ≡ false
        → e.is_noreturn ≡ false
        → Exits (exp_statement (some e)) fallthru
    exp_stops : {e : Expression} → stops e ≡ true → Exits (exp_statement (some e)) halt
    exp_noreturn : {e : Expression} → e.is_noreturn ≡ true → Exits (exp_statement (some e)) halt
    exp_throws :
        {e : Expression} {x : Exit}
        → stops e ≡ false
        → can_throw e x ≡ true
        → Exits (exp_statement (some e)) x
    dtor_exp :
        {f : Fields.DtorExpStatement} {e : Option Expression} {x : Exit}
        → Exits (exp_statement e) x
        → Exits (dtor_exp_statement f e) x
    compound : {ss : Statements} {x : Exit} → Runs ss x → Exits (compound_statement ss) x
    compound_entered : {ss : Statements} {x : Exit} → Enters ss x → Exits (compound_statement ss) x
    unrolled_loop :
        {ss : Statements} {x : Exit} → Iterates ss x → Exits (unrolled_loop_statement ss) x
    scope_ :
        {f : Fields.ScopeStatement} {s : Nullable} {x : Exit}
        → Ends s x
        → Exits (scope_statement f s) x
    do_breaks :
        {f : Fields.DoStatement} {b : Nullable} {c : Expression}
        → Ends b break_
        → Exits (do_statement f b c) fallthru
    do_passes :
        {f : Fields.DoStatement} {b : Nullable} {c : Expression} {x : Exit}
        → Passes x
        → Ends b x
        → Exits (do_statement f b c) x
    do_throws :
        {f : Fields.DoStatement} {b : Nullable} {c : Expression} {x y : Exit}
        → GoesOn y
        → Ends b y
        → can_throw c x ≡ true
        → Exits (do_statement f b c) x
    do_done :
        {f : Fields.DoStatement} {b : Nullable} {c : Expression} {y : Exit}
        → GoesOn y
        → Ends b y
        → c.to_bool ≢ some true
        → Exits (do_statement f b c) fallthru
    do_continued_throws :
        {f : Fields.DoStatement} {b : Nullable} {c : Expression} {x : Exit}
        → continued b ≡ true
        → Ends b goto_
        → can_throw c x ≡ true
        → Exits (do_statement f b c) x
    do_continued :
        {f : Fields.DoStatement} {b : Nullable} {c : Expression}
        → continued b ≡ true
        → Ends b goto_
        → c.to_bool ≢ some true
        → Exits (do_statement f b c) fallthru
    for_init :
        {f : Fields.ForStatement} {i b : Nullable} {c n : Option Expression} {x : Exit}
        → x ≢ fallthru
        → Ends i x
        → Exits (for_statement f i c n b) x
    for_throws :
        {f : Fields.ForStatement} {i b : Nullable} {c : Expression} {n : Option Expression}
        {x : Exit}
        → Starts i b
        → can_throw c x ≡ true
        → Exits (for_statement f i (some c) n b) x
    for_done :
        {f : Fields.ForStatement} {i b : Nullable} {c : Expression} {n : Option Expression}
        → Starts i b
        → c.to_bool ≢ some true
        → Exits (for_statement f i (some c) n b) fallthru
    for_breaks :
        {f : Fields.ForStatement} {i b : Nullable} {c n : Option Expression}
        → Starts i b
        → Repeats c b
        → Ends b break_
        → Exits (for_statement f i c n b) fallthru
    for_passes :
        {f : Fields.ForStatement} {i b : Nullable} {c n : Option Expression} {x : Exit}
        → Starts i b
        → Repeats c b
        → Passes x
        → Ends b x
        → Exits (for_statement f i c n b) x
    for_increment_throws :
        {f : Fields.ForStatement} {i b : Nullable} {c : Option Expression} {n : Expression}
        {x y : Exit}
        → Starts i b
        → Repeats c b
        → GoesOn y
        → Ends b y
        → can_throw n x ≡ true
        → Exits (for_statement f i c (some n) b) x
    for_continued :
        {f : Fields.ForStatement} {i b : Nullable} {c : Option Expression} {n : Expression}
        {x : Exit}
        → Starts i b
        → Repeats c b
        → continued b ≡ true
        → Ends b goto_
        → can_throw n x ≡ true
        → Exits (for_statement f i c (some n) b) x
    foreach_done :
        {f : Fields.ForeachStatement} {a : Expression} {b : Nullable}
        → Exits (foreach_statement f a b) fallthru
    foreach_throws :
        {f : Fields.ForeachStatement} {a : Expression} {b : Nullable} {x : Exit}
        → can_throw a x ≡ true
        → Exits (foreach_statement f a b) x
    foreach_passes :
        {f : Fields.ForeachStatement} {a : Expression} {b : Nullable} {x : Exit}
        → Passes x
        → Ends b x
        → Exits (foreach_statement f a b) x
    if_throws :
        {f : Fields.IfStatement} {c : Expression} {a b : Nullable} {x : Exit}
        → can_throw c x ≡ true
        → Exits (if_statement f c a b) x
    if_true :
        {f : Fields.IfStatement} {c : Expression} {a b : Nullable} {x : Exit}
        → c.to_bool ≢ some false
        → Ends a x
        → Exits (if_statement f c a b) x
    if_false :
        {f : Fields.IfStatement} {c : Expression} {a b : Nullable} {x : Exit}
        → c.to_bool ≢ some true
        → Ends b x
        → Exits (if_statement f c a b) x
    if_true_entered :
        {f : Fields.IfStatement} {c : Expression} {a b : Nullable} {x : Exit}
        → targeted a ≡ true
        → Ends a x
        → Exits (if_statement f c a b) x
    if_false_entered :
        {f : Fields.IfStatement} {c : Expression} {a b : Nullable} {x : Exit}
        → targeted b ≡ true
        → Ends b x
        → Exits (if_statement f c a b) x
    conditional_true :
        {f : Fields.ConditionalStatement} {a b : Nullable} {x : Exit}
        → Ends a x
        → Exits (conditional_statement f a b) x
    conditional_false :
        {f : Fields.ConditionalStatement} {a : Nullable} {s : Statement} {x : Exit}
        → Exits s x
        → Exits (conditional_statement f a (node s)) x
    pragma_ : {f : Fields.PragmaStatement} {b : Nullable} → Exits (pragma_statement f b) fallthru
    static_assert : {f : Fields.StaticAssertStatement} → Exits (static_assert_statement f) fallthru
    switch_throws :
        {f : Fields.SwitchStatement} {c : Expression} {b : Nullable} {x : Exit}
        → can_throw c x ≡ true
        → Exits (switch_statement f c b) x
    switch_breaks :
        {f : Fields.SwitchStatement} {c : Expression} {b : Nullable}
        → Ends b break_
        → Exits (switch_statement f c b) fallthru
    switch_body :
        {f : Fields.SwitchStatement} {c : Expression} {b : Nullable} {x : Exit}
        → x ≢ break_
        → Ends b x
        → Exits (switch_statement f c b) x
    case_ :
        {f : Fields.CaseStatement} {e : Expression} {s : Nullable} {x : Exit}
        → Ends s x
        → Exits (case_statement f e s) x
    default_ :
        {f : Fields.DefaultStatement} {s : Nullable} {x : Exit}
        → Ends s x
        → Exits (default_statement f s) x
    goto_default : {f : Fields.GotoDefaultStatement} → Exits (goto_default_statement f) goto_
    goto_case :
        {f : Fields.GotoCaseStatement} {e : Option Expression}
        → Exits (goto_case_statement f e) goto_
    switch_error : {e : Option Expression} → Exits (switch_error_statement e) halt
    returned :
        {f : Fields.ReturnStatement} {e : Option Expression} → Exits (return_statement f e) return_
    return_throws :
        {f : Fields.ReturnStatement} {e : Expression} {x : Exit}
        → can_throw e x ≡ true
        → Exits (return_statement f (some e)) x
    breaks : {f : Fields.BreakStatement} → f.ident ≡ none → Exits (break_statement f) break_
    breaks_label : {f : Fields.BreakStatement} → f.ident ≢ none → Exits (break_statement f) goto_
    continues_loop :
        {f : Fields.ContinueStatement} → f.ident ≡ none → Exits (continue_statement f) continue_
    continues_label :
        {f : Fields.ContinueStatement} → f.ident ≢ none → Exits (continue_statement f) goto_
    synchronized_ :
        {e : Option Expression} {b : Nullable} {x : Exit}
        → Ends b x
        → Exits (synchronized_statement e b) x
    with_throws :
        {f : Fields.WithStatement} {e : Expression} {b : Nullable} {x : Exit}
        → can_throw e x ≡ true
        → Exits (with_statement f e b) x
    with_ :
        {f : Fields.WithStatement} {e : Expression} {b : Nullable} {x : Exit}
        → Ends b x
        → Exits (with_statement f e b) x
    try_done :
        {f : Fields.TryCatchStatement} {b : Nullable} {cs : Catches} {x : Exit}
        → ¬ Thrown x
        → Ends b x
        → Exits (try_catch_statement f b cs) x
    try_misses :
        {f : Fields.TryCatchStatement} {b : Nullable} {cs : Catches} {x : Exit}
        → Thrown x
        → Misses cs x
        → Ends b x
        → Exits (try_catch_statement f b cs) x
    try_handled :
        {f : Fields.TryCatchStatement} {b : Nullable} {cs : Catches} {x y : Exit}
        → Thrown y
        → Ends b y
        → Handles cs x
        → Exits (try_catch_statement f b cs) x
    try_handler_entered :
        {f : Fields.TryCatchStatement} {b : Nullable} {cs : Catches} {x : Exit}
        → targeted_handlers cs ≡ true
        → Handles cs x
        → Exits (try_catch_statement f b cs) x
    try_rethrows :
        {f : Fields.TryCatchStatement} {b h : Nullable} {c : Catch} {x : Exit}
        → c.internal_catch ≡ true
        → Thrown x
        → Ends b x
        → Ends h fallthru
        → Exits (try_catch_statement f b (catch_cons c h no_catch)) x
    finally_halts :
        {f : Fields.TryFinallyStatement} {b n : Nullable}
        → Ends b halt
        → Exits (try_finally_statement f b n) halt
    finally_done :
        {f : Fields.TryFinallyStatement} {b n : Nullable} {x : Exit}
        → x ≢ halt
        → Ends b x
        → Ends n fallthru
        → Exits (try_finally_statement f b n) x
    finally_replaces :
        {f : Fields.TryFinallyStatement} {b n : Nullable} {x y : Exit}
        → y ≢ halt
        → Ends b y
        → x ≢ fallthru
        → Ends n x
        → Exits (try_finally_statement f b n) x
    scope_guard :
        {f : Fields.ScopeGuardStatement} {s : Nullable} → Exits (scope_guard_statement f s) fallthru
    throws_internal :
        {f : Fields.ThrowStatement} {e : Expression}
        → f.internal_throw ≡ true
        → Exits (throw_statement f e) fallthru
    throws_error :
        {f : Fields.ThrowStatement} {e : Expression}
        → f.internal_throw ≡ false
        → e.is_error_exception ≡ true
        → Exits (throw_statement f e) errthrow
    throws_exception :
        {f : Fields.ThrowStatement} {e : Expression}
        → f.internal_throw ≡ false
        → e.is_error_exception ≡ false
        → Exits (throw_statement f e) throw_
    goes : {f : Fields.GotoStatement} → Exits (goto_statement f) goto_
    label_ :
        {f : Fields.LabelStatement} {s : Nullable} {x : Exit}
        → Ends s x
        → Exits (label_statement f s) x
    label_broken :
        {f : Fields.LabelStatement} {s : Nullable}
        → f.breaks ≡ true
        → Exits (label_statement f s) fallthru
    asm_falls :
        {f : Fields.CompoundAsmStatement} {ss : Statements}
        → Exits (compound_asm_statement f ss) fallthru
    asm_passes :
        {f : Fields.CompoundAsmStatement} {ss : Statements} {x : Exit}
        → Passes x
        → x ≢ errthrow
        → (f.stc_nothrow ≡ true → x ≢ throw_)
        → Exits (compound_asm_statement f ss) x
    imports : {f : Fields.ImportStatement} → Exits (import_statement f) fallthru

  -- A block from its first statement on.
  pub data Runs : Statements → Exit → Type 0 where
    finished : Runs nil fallthru
    next_null : {ss : Statements} {x : Exit} → Runs ss x → Runs (cons null ss) x
    next :
        {s : Statement} {ss : Statements} {x : Exit}
        → Exits s fallthru
        → Runs ss x
        → Runs (cons (node s) ss) x
    stopped :
        {s : Statement} {ss : Statements} {x : Exit}
        → x ≢ fallthru
        → Exits s x
        → Runs (cons (node s) ss) x
    jumped : {s : Nullable} {ss : Statements} {x : Exit} → Enters ss x → Runs (cons s ss) x

  -- A block from a statement on that a jump can come to.
  pub data Enters : Statements → Exit → Type 0 where
    enters_here :
        {s : Statement} {ss : Statements} {x : Exit}
        → come_from s ≡ true
        → Runs (cons (node s) ss) x
        → Enters (cons (node s) ss) x
    enters_later : {s : Nullable} {ss : Statements} {x : Exit} → Enters ss x → Enters (cons s ss) x

  -- The iterations of an unrolled loop.
  pub data Iterates : Statements → Exit → Type 0 where
    exhausted : Iterates nil fallthru
    iterates_null : {ss : Statements} {x : Exit} → Iterates ss x → Iterates (cons null ss) x
    iterates :
        {s : Statement} {ss : Statements} {x y : Exit}
        → GoesOn y
        → Exits s y
        → Iterates ss x
        → Iterates (cons (node s) ss) x
    broken :
        {s : Statement} {ss : Statements} → Exits s break_ → Iterates (cons (node s) ss) fallthru
    passed :
        {s : Statement} {ss : Statements} {x : Exit}
        → Passes x
        → Exits s x
        → Iterates (cons (node s) ss) x
    iterates_continued :
        {s : Statement} {ss : Statements} {x : Exit}
        → continued (node s) ≡ true
        → Exits s goto_
        → Iterates ss x
        → Iterates (cons (node s) ss) x
    iterates_entered :
        {s : Nullable} {ss : Statements} {x : Exit}
        → targeted_all ss ≡ true
        → Iterates ss x
        → Iterates (cons s ss) x

  -- The ends of the handlers, less the one that rethrows for the compiler.
  pub data Handles : Catches → Exit → Type 0 where
    handled :
        {c : Catch} {h : Nullable} {cs : Catches} {x : Exit}
        → c.type_ ≢ terror
        → (c.internal_catch ≡ true → x ≢ fallthru)
        → Ends h x
        → Handles (catch_cons c h cs) x
    handled_later :
        {c : Catch} {h : Nullable} {cs : Catches} {x : Exit}
        → Handles cs x
        → Handles (catch_cons c h cs) x

  -- A `for` loop with the body is started: by its initialisation, or by a jump into the body.
  pub data Starts : Nullable → Nullable → Type 0 where
    initialised : {i b : Nullable} → Ends i fallthru → Starts i b
    jumped_into : {i b : Nullable} → targeted b ≡ true → Starts i b
