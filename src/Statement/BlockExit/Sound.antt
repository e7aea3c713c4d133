-- ===== src/Statement/BlockExit/Sound.antt =====
-- `blockExit` (compiler/src/dmd/blockexit.d) foresees every way that a statement can exit.
use dmd.Prelude.{◌≡◌, refl, Bool, true, false, Option, some, &&-left, &&-right, arith}
use dmd.Statement.Tree.{
  Expression, Statement, Nullable, null, node, Statements, Catches, no_catch, catch_cons,
}
use dmd.Statement.Mask.{Exit, fallthru, Mask, no_exit, only, union, minus}
use dmd.Statement.BlockExit.{
  statement_exit, block_exit, compound_exit, unrolled_exit, catches_exit, unrolled_step, do_exit,
  foreach_exit, switch_exit, handler_exit, is_terror, exp_exit, throw_exit, asm_exit, break_exit,
  continue_exit,
}
use dmd.Statement.BlockExit.Executions.{
  Ends, skipped, ran, Exits, exp_null, exp_done, exp_stops, exp_noreturn, exp_throws, dtor_exp,
  compound, compound_entered, unrolled_loop, scope_, do_breaks, do_passes, do_throws, do_done,
  do_continued_throws, do_continued, for_continued, iterates_continued, for_init, for_throws,
  for_done, for_breaks, for_passes, for_increment_throws, foreach_done, foreach_throws,
  foreach_passes, if_throws, if_true, if_false, if_true_entered, if_false_entered, conditional_true,
  conditional_false, pragma_, static_assert, switch_throws, switch_breaks, switch_body, case_,
  default_, goto_default, goto_case, switch_error, returned, return_throws, breaks, breaks_label,
  continues_loop, continues_label, synchronized_, with_throws, with_, try_done, try_misses,
  try_handled, try_handler_entered, try_rethrows, finally_halts, finally_done, finally_replaces,
  scope_guard, throws_internal, throws_error, throws_exception, goes, label_, label_broken,
  asm_falls, asm_passes, imports, Runs, finished, next_null, next, stopped, jumped, Enters,
  enters_here, enters_later, Iterates, exhausted, iterates_null, iterates, broken, passed, Handles,
  handled, handled_later, iterates_entered, Starts, initialised, jumped_into, targeted_all,
}
use dmd.Statement.BlockExit.Masks
use dmd.Statement.BlockExit.Regular.{
  regular, regular_pointer, all_regular, unrolled_regular, regular_handlers, all_go_on,
  loop_reached, goes_on, continue_kept,
}
use dmd.Statement.BlockExit.Covers.{
  Covers, gave, Covers-bind, Covers-map, Covers-any, Covers-if, for_exit-keeps, for_exit-condition,
  for_exit-body, for_condition-throws, for_condition-done, if_exit-throws, if_exit-true,
  if_exit-false, if_exit-reached_true, if_exit-reached_false, no_skipped_target-true,
  no_skipped_target-false, Covers-loop_reached, for_enters_lem, Covers-of_mask, Covers-tested,
}
use dmd.Statement.BlockExit.Loops.{
  compound_exit-later, compound_exit-keeps, unrolled_exit-keeps, unrolled_exit-falls,
  catches_exit-handlers, catches_exit-keeps, catches_exit-Misses,
}
use dmd.Statement.BlockExit.Steps.{
  reached, reached-fallthru, terror-is_terror, break_label_lem, continue_label_lem, asm_passes_lem,
  do_breaks-Covers, broken-Covers, GoesOn-goes_on, union_right, return_throws_lem, asm_falls_lem,
  Passes-ne_fallthru, conditional_if, try_body, try_entered, entered_goes_on,
  do_continued_throws_lem, do_continued_lem, continued-goes_on, break_goes_on, unrolled_continue,
  rethrows-Covers,
}

module _ (errors : Bool) where
  mutual
    unfolding statement_exit regular exp_exit throw_exit asm_exit break_exit continue_exit only

    Exits-Covers :
        {s : Statement} {x : Exit}
        → Exits s x
        → regular errors s ≡ true
        → Covers x (statement_exit errors false s)
    Exits-Covers exp_null k = gave refl
    Exits-Covers (exp_done {e} h n) k = gave (Masks.exp_done_lem e h n)
    Exits-Covers (exp_stops {e} h) k = gave (Masks.exp_stops_lem e h)
    Exits-Covers (exp_noreturn {e} h) k = gave (Masks.exp_noreturn_lem e h)
    Exits-Covers (exp_throws {e} {x} h t) k = gave (Masks.exp_throws_lem e x h t)
    Exits-Covers (dtor_exp d) k = Exits-Covers d refl
    Exits-Covers (compound {ss} d) k =
        Runs-Covers d k (only fallthru) (reached-fallthru ss (only fallthru) refl)
    Exits-Covers (compound_entered d) k = Enters-Covers d k (only fallthru)
    Exits-Covers (unrolled_loop d) k = Iterates-Covers d k (only fallthru) refl
    Exits-Covers (scope_ d) k = Ends-Covers d k
    Exits-Covers (do_breaks {c = c} d) k =
        do_breaks-Covers c (&&-left _ _ (&&-left _ _ k)) (Ends-Covers d (&&-right _ _ k))
    Exits-Covers (do_passes {c = c} p d) k =
        Covers-map (do_exit c) (λ r h. Masks.do_passes_lem c r p h) (Ends-Covers d (&&-right _ _ k))
    Exits-Covers (do_throws {c = c} {x = x} g d t) k =
        Covers-map (do_exit c) (λ r h. Masks.do_throws_lem c r x g h t)
          (Ends-Covers d (&&-right _ _ k))
    Exits-Covers (do_done {c = c} g d ne) k =
        Covers-map (do_exit c) (λ r h. Masks.do_done_lem c r g h ne)
          (Ends-Covers d (&&-right _ _ k))
    Exits-Covers (do_continued_throws {b = b} {c = c} {x = x} o d t) k =
        Covers-tested (continue_kept b) (&&-right _ _ (&&-left _ _ k))
          (λ r q h. gave (do_continued_throws_lem b c r x q o h t)) (Ends-Covers d (&&-right _ _ k))
    Exits-Covers (do_continued {b = b} {c = c} o d ne) k =
        Covers-tested (continue_kept b) (&&-right _ _ (&&-left _ _ k))
          (λ r q h. gave (do_continued_lem b c r q o h ne)) (Ends-Covers d (&&-right _ _ k))
    Exits-Covers (for_init {c = c} {n = n} {x = x} ne d) k =
        Covers-bind (λ m h. for_exit-keeps c n _ m x ne h)
          (Ends-Covers d (&&-left _ _ (&&-right _ _ k)))
    Exits-Covers (for_throws {c = c} {n = n} {x = x} d t) k =
        Covers-bind (λ m h. for_exit-condition (some c) n _ m x h (for_condition-throws c m x t))
          (Starts-Covers d (some c) (&&-left _ _ k) (&&-left _ _ (&&-right _ _ k)))
    Exits-Covers (for_done {c = c} {n = n} d ne) k =
        Covers-bind
          (λ m h. for_exit-condition (some c) n _ m fallthru h (for_condition-done c m h ne))
          (Starts-Covers d (some c) (&&-left _ _ k) (&&-left _ _ (&&-right _ _ k)))
    Exits-Covers (for_breaks {i = i} {c = c} {n = n} d r e) k =
        let body = Ends-Covers e (&&-right _ _ (&&-right _ _ k)) in
        let enters = for_enters_lem (block_exit errors false i) (&&-left _ _ k) r in
        Covers-bind (λ m h. for_exit-body c n _ m fallthru h enters (Masks.for_breaks_lem n) body)
          (Starts-Covers d c (&&-left _ _ k) (&&-left _ _ (&&-right _ _ k)))
    Exits-Covers (for_passes {i = i} {c = c} {n = n} {x = x} d r p e) k =
        let body = Ends-Covers e (&&-right _ _ (&&-right _ _ k)) in
        let enters = for_enters_lem (block_exit errors false i) (&&-left _ _ k) r in
        Covers-bind
          (λ m h. for_exit-body c n _ m x h enters (λ t q. Masks.for_passes_lem n t q p) body)
          (Starts-Covers d c (&&-left _ _ k) (&&-left _ _ (&&-right _ _ k)))
    Exits-Covers (for_increment_throws {i = i} {c = c} {n = n} {x = x} d r g e t) k =
        let body = Ends-Covers e (&&-right _ _ (&&-right _ _ k)) in
        let enters = for_enters_lem (block_exit errors false i) (&&-left _ _ k) r in
        Covers-bind
          (λ m h.
            for_exit-body c (some n) _ m x h enters (λ u q _. Masks.for_increment_lem n u q x t)
              body)
          (Starts-Covers d c (&&-left _ _ k) (&&-left _ _ (&&-right _ _ k)))
    Exits-Covers (for_continued {i = i} {c = c} {n = n} {x = x} d r _ e t) k =
        let body = Ends-Covers e (&&-right _ _ (&&-right _ _ k)) in
        let enters = for_enters_lem (block_exit errors false i) (&&-left _ _ k) r in
        Covers-bind
          (λ m h.
            for_exit-body c (some n) _ m x h enters (λ u q _. Masks.for_increment_lem n u q x t)
              body)
          (Starts-Covers d c (&&-left _ _ k) (&&-left _ _ (&&-right _ _ k)))
    Exits-Covers (foreach_done {a = a} {b = b}) k =
        Covers-any (block_exit errors false b) (λ r. gave (Masks.foreach_done_lem a r))
    Exits-Covers (foreach_throws {a = a} {b = b} {x = x} t) k =
        Covers-any (block_exit errors false b) (λ r. gave (Masks.foreach_throws_lem a r x t))
    Exits-Covers (foreach_passes {a = a} p d) k =
        Covers-map (foreach_exit a) (λ r h. Masks.foreach_passes_lem a r p h) (Ends-Covers d k)
    Exits-Covers (if_throws {c = c} {x = x} t) k = if_exit-throws c _ _ x t
    Exits-Covers (if_true {c = c} {x = x} ne d) k =
        if_exit-true c _ _ x ne (Ends-Covers d (&&-left _ _ (&&-right _ _ k)))
    Exits-Covers (if_false {c = c} {x = x} ne d) k =
        if_exit-false c _ _ x ne (Ends-Covers d (&&-right _ _ (&&-right _ _ k)))
    Exits-Covers (if_true_entered {c = c} {a = a} {b = b} {x = x} h d) k =
        if_exit-reached_true c _ _ x (no_skipped_target-true c a b (&&-left _ _ k) h)
          (Ends-Covers d (&&-left _ _ (&&-right _ _ k)))
    Exits-Covers (if_false_entered {c = c} {a = a} {b = b} {x = x} h d) k =
        if_exit-reached_false c _ _ x (no_skipped_target-false c a b (&&-left _ _ k) h)
          (Ends-Covers d (&&-right _ _ (&&-right _ _ k)))
    Exits-Covers (conditional_true {f} {a} {b} {x} d) k =
        conditional_if errors f a b x (Ends-Covers d (&&-left _ _ k))
    Exits-Covers (conditional_false {a = a} d) k =
        Covers-any (block_exit errors false a)
          (λ r. Covers-bind (λ q h. gave (ground arith)) (Exits-Covers d (&&-right _ _ k)))
    Exits-Covers pragma_ k = gave refl
    Exits-Covers static_assert k = gave refl
    Exits-Covers (switch_throws {c = c} {b = b} {x = x} t) k =
        Covers-any (block_exit errors false b) (λ r. gave (Masks.switch_throws_lem c r x t))
    Exits-Covers (switch_breaks {c = c} d) k =
        Covers-map (switch_exit c) (λ r h. Masks.switch_breaks_lem c r h) (Ends-Covers d k)
    Exits-Covers (switch_body {c = c} {x = x} ne d) k =
        Covers-map (switch_exit c) (λ r h. Masks.switch_body_lem c r x ne h) (Ends-Covers d k)
    Exits-Covers (case_ d) k = Ends-Covers d k
    Exits-Covers (default_ d) k = Ends-Covers d k
    Exits-Covers goto_default k = gave refl
    Exits-Covers goto_case k = gave refl
    Exits-Covers switch_error k = gave refl
    Exits-Covers returned k = gave refl
    Exits-Covers (return_throws {e = e} {x = x} t) k = gave (return_throws_lem e x t)
    Exits-Covers (breaks h) k = gave (rw h refl)
    Exits-Covers (breaks_label {f} ne) k = gave (break_label_lem f.ident ne)
    Exits-Covers (continues_loop h) k = gave (rw h refl)
    Exits-Covers (continues_label {f} ne) k = gave (continue_label_lem f.ident ne)
    Exits-Covers (synchronized_ d) k = Ends-Covers d k
    Exits-Covers (with_throws {b = b} t) k =
        Covers-any (block_exit errors false b) (λ r. gave (ground arith))
    Exits-Covers (with_ d) k = Covers-bind (λ r h. gave (ground arith)) (Ends-Covers d k)
    Exits-Covers (try_done {f} {b} {cs} {x} n d) k =
        try_body errors f b cs x x (λ r h. catches_exit-keeps errors cs r no_exit x n h)
          (Ends-Covers d (&&-left _ _ k))
    Exits-Covers (try_misses {f} {b} {cs} {x} _ ms d) k =
        try_body errors f b cs x x (λ r h. catches_exit-Misses errors r no_exit ms h)
          (Ends-Covers d (&&-left _ _ k))
    Exits-Covers (try_handled {f} {b} {cs} {x} {y} _ d e) k =
        let after = Handles-Covers e (&&-right _ _ k) in
        try_body errors f b cs x y (λ r _. after r no_exit) (Ends-Covers d (&&-left _ _ k))
    Exits-Covers (try_handler_entered {f} {b} {cs} {x} _ e) k =
        let after = Handles-Covers e (&&-right _ _ k) in
        try_entered errors f b cs x (λ r. after r no_exit)
    Exits-Covers (try_rethrows {f} {b} {h = p} {c} {x} i _ d e) k =
        let handler = Ends-Covers e (&&-left _ _ (&&-right _ _ k)) in
        try_body errors f b (catch_cons c p no_catch) x x
          (λ r h. rethrows-Covers errors c p r x i h handler) (Ends-Covers d (&&-left _ _ k))
    Exits-Covers (finally_halts {n = n} d) k =
        Covers-bind
          (λ r h.
            Covers-any (block_exit errors false n) (λ q. gave (Masks.finally_halts_lem r q h)))
          (Ends-Covers d (&&-left _ _ k))
    Exits-Covers (finally_done {x = x} ne d e) k =
        let after = Ends-Covers e (&&-right _ _ k) in
        Covers-bind (λ r h. Covers-bind (λ q t. gave (Masks.finally_done_lem r q x ne h t)) after)
          (Ends-Covers d (&&-left _ _ k))
    Exits-Covers (finally_replaces {x = x} {y = y} ne d nf e) k =
        let after = Ends-Covers e (&&-right _ _ k) in
        Covers-bind
          (λ r h. Covers-bind (λ q t. gave (Masks.finally_replaces_lem r q x y ne h nf t)) after)
          (Ends-Covers d (&&-left _ _ k))
    Exits-Covers scope_guard k = gave refl
    Exits-Covers (throws_internal i) k = gave (rw i refl)
    Exits-Covers (throws_error i e) k = gave (rw (i, e) refl)
    Exits-Covers (throws_exception i e) k = gave (rw (i, e) refl)
    Exits-Covers goes k = gave refl
    Exits-Covers (label_ d) k = Covers-bind (λ r h. gave (ground arith)) (Ends-Covers d k)
    Exits-Covers (label_broken {s = s} h) k =
        Covers-any (block_exit errors false s) (λ r. gave (ground arith))
    Exits-Covers (asm_falls {f}) k = gave (asm_falls_lem f.stc_nothrow)
    Exits-Covers (asm_passes {f} p ne nt) k = gave (asm_passes_lem f.stc_nothrow p ne nt)
    Exits-Covers imports k = gave refl

    Ends-Covers :
        {p : Nullable} {x : Exit}
        → Ends p x
        → regular_pointer errors p ≡ true
        → Covers x (block_exit errors false p)
    Ends-Covers skipped k = gave refl
    Ends-Covers (ran d) k = Exits-Covers d k

    Starts-Covers :
        {i b : Nullable}
        → Starts i b
        → (c : Option Expression) → loop_reached (block_exit errors false i) c b ≡ true
        → regular_pointer errors i ≡ true
        → Covers fallthru (block_exit errors false i)
    Starts-Covers (initialised d) c l k = Ends-Covers d k
    Starts-Covers (jumped_into {i} {b} h) c l k =
        Covers-loop_reached (block_exit errors false i) c b l h

    Runs-Covers :
        {ss : Statements} {x : Exit}
        → Runs ss x
        → all_regular errors ss ≡ true
        → (m : Mask) → reached ss m ≡ true
        → Covers x (compound_exit errors false ss m)
    Runs-Covers finished k m h = gave h
    Runs-Covers (next_null {ss} d) k m h = Runs-Covers d k m (reached-fallthru ss m h)
    Runs-Covers (next {s} {ss} d e) k m h =
        let later = Runs-Covers e (&&-right _ _ k) in
        let rest = minus m (only fallthru) in
        rw h (
          Covers-bind
            (λ r t.
              later (union rest r)
                (reached-fallthru ss (union rest r) (union_right rest r fallthru t)))
            (Exits-Covers d (&&-left _ _ k)))
    Runs-Covers (stopped {ss = ss} {x = x} ne d) k m h =
        let rest = minus m (only fallthru) in
        rw h (
          Covers-bind
            (λ r t. compound_exit-keeps errors ss (union rest r) x ne (union_right rest r x t))
            (Exits-Covers d (&&-left _ _ k)))
    Runs-Covers (jumped {s} {ss} {x} d) k m h =
        let later = Enters-Covers d (&&-right _ _ k) in compound_exit-later errors s ss m x later

    Enters-Covers :
        {ss : Statements} {x : Exit}
        → Enters ss x
        → all_regular errors ss ≡ true
        → (m : Mask) → Covers x (compound_exit errors false ss m)
    Enters-Covers (enters_here c d) k m = Runs-Covers d k m (ground arith)
    Enters-Covers (enters_later {s} {ss} {x} d) k m =
        let later = Enters-Covers d (&&-right _ _ k) in compound_exit-later errors s ss m x later

    Iterates-Covers :
        {ss : Statements} {x : Exit}
        → Iterates ss x
        → unrolled_regular errors ss ≡ true
        → (m : Mask) → m fallthru ≡ true
        → Covers x (unrolled_exit errors false ss m)
    Iterates-Covers exhausted k m h = gave h
    Iterates-Covers (iterates_null d) k m h = Iterates-Covers d k m h
    Iterates-Covers (iterates g d e) k m h =
        let later = Iterates-Covers e (&&-right _ _ (&&-left _ _ (&&-right _ _ k))) in
        Covers-bind
          (λ r t. later (unrolled_step m r) (Masks.unrolled_falls_lem m r h (GoesOn-goes_on r g t)))
          (Exits-Covers d (&&-left _ _ (&&-left _ _ (&&-right _ _ k))))
    Iterates-Covers (broken {ss = ss} d) k m h =
        broken-Covers (all_go_on errors ss) (&&-left _ _ k)
          (λ a r t.
            unrolled_exit-falls errors ss (unrolled_step m r) a
              (Masks.unrolled_falls_lem m r h (break_goes_on r t)))
          (Exits-Covers d (&&-left _ _ (&&-left _ _ (&&-right _ _ k))))
    Iterates-Covers (passed {ss = ss} {x = x} p d) k m h =
        Covers-bind
          (λ r t.
            unrolled_exit-keeps errors ss (unrolled_step m r) x (Passes-ne_fallthru p)
              (Masks.unrolled_passes_lem m r p t))
          (Exits-Covers d (&&-left _ _ (&&-left _ _ (&&-right _ _ k))))
    Iterates-Covers (iterates_continued {s} {ss} o d e) k m h =
        let later = Iterates-Covers e (&&-right _ _ (&&-left _ _ (&&-right _ _ k))) in
        Covers-tested (continue_kept (node s)) (unrolled_continue errors s ss k)
          (λ r q t.
            later (unrolled_step m r)
              (Masks.unrolled_falls_lem m r h (continued-goes_on (node s) r q o t)))
          (Exits-Covers d (&&-left _ _ (&&-left _ _ (&&-right _ _ k))))
    Iterates-Covers (iterates_entered {s = null} h d) k m f = Iterates-Covers d k m f
    Iterates-Covers (iterates_entered {s = node s} {ss = ss} h d) k m f =
        let later = Iterates-Covers d (&&-right _ _ (&&-left _ _ (&&-right _ _ k))) in
        let goes =
          entered_goes_on (targeted_all ss) _ (&&-left _ _ (&&-right _ _ (&&-right _ _ k))) h in
        Covers-of_mask goes_on (statement_exit errors false s) goes
          (λ r g. later (unrolled_step m r) (Masks.unrolled_falls_lem m r f g))

    Handles-Covers :
        {cs : Catches} {x : Exit}
        → Handles cs x
        → regular_handlers errors cs ≡ true
        → (m k : Mask) → Covers x (catches_exit errors false cs m k)
    Handles-Covers (handled {c} {cs = cs} {x = x} nt ne d) k m t =
        rw (terror-is_terror c.type_ nt) (
          Covers-bind
            (λ r h.
              catches_exit-handlers errors cs _ (union t (handler_exit c r)) x
                (ground (arith, Masks.handler_lem c r x ne h)))
            (Ends-Covers d (&&-left _ _ k)))
    Handles-Covers (handled_later {c} {h = p} d) k m t =
        let later = Handles-Covers d (&&-right _ _ k) in
        Covers-if (is_terror c.type_) (λ _. later m t)
          (λ _. Covers-any (block_exit errors false p) (λ r. later _ _))
