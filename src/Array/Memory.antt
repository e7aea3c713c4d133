-- ===== src/Array/Memory.antt =====
-- Blocks of memory cells, as `Array<T>` (compiler/include/dmd/root/array.h) uses them through
-- `mem.xmalloc`, `mem.xrealloc`, `memcpy` and `memmove`. A cell that nothing has written is `none`.
-- An access out of a block, and a `memcpy` whose ranges overlap, is undefined: the result is `none`.
use dmd.Prelude.{
  ℕ, ◌+◌, ◌-◌, ◌≤◌, ◌≡◌, ap, ◌∙◌, sym, subst, ◌||◌, Option, none, some, List, ◌++◌, ◌>>=◌, length,
  take, drop, replicate, leb, if◌then◌else◌, append_assoc, le→leb, length-append, length-take,
  length-drop, take-append-drop, take-length-append, drop-length-append, arith,
}

abbrev pub Cells {ℓ} : Type ℓ → Type ℓ
Cells A = List (Option A)

module _ {ℓ} {A : Type ℓ} where
  -- `mem.xmalloc(n * sizeof(T))`: a block of `n` cells with nothing in them.
  abbrev pub xmalloc : ℕ → Cells A
  xmalloc n = replicate n none

  -- `mem.xrealloc(p, n * sizeof(T))`: the old cells, cut off or filled up to `n`.
  abbrev pub xrealloc : Cells A → ℕ → Cells A
  xrealloc b n = take n b ++ replicate (n - length b) none

  -- The `n` cells from index `i` on.
  unfoldable pub read : ℕ → ℕ → Cells A → Option (Cells A)
  read i n b = if leb (i + n) (length b) then some (take n (drop i b)) else none

  -- Overwrites the cells from index `i` on.
  unfoldable pub write : ℕ → Cells A → Cells A → Option (Cells A)
  write i ys b =
      if leb (i + length ys) (length b)
      then some (take i b ++ (ys ++ drop (length ys) (drop i b)))
      else none

  -- `memmove(b + dst, b + src, n * sizeof(T))`
  unfoldable pub memmove : ℕ → ℕ → ℕ → Cells A → Option (Cells A)
  memmove dst src n b = do ys ← read src n b; write dst ys b

  -- `memcpy(b + dst, b + src, n * sizeof(T))` inside one block
  unfoldable pub memcpy_within : ℕ → ℕ → ℕ → Cells A → Option (Cells A)
  memcpy_within dst src n b =
      if leb (dst + n) src || leb (src + n) dst then memmove dst src n b else none

  pub read_lem : (p m s : Cells A) → read (length p) (length m) (p ++ (m ++ s)) ≡ some m
  unfolding read
  read_lem p m s =
      rw (le→leb (length p + length m) (length (p ++ (m ++ s))) fits)
        (ap some (rw (drop-length-append p (m ++ s)) (take-length-append m s)))
    where
      fits : length p + length m ≤ length (p ++ (m ++ s))
      fits = omega (arith, length-append p (m ++ s), length-append m s)

  pub write_lem :
      (p m s ys : Cells A)
      → length m ≡ length ys
      → write (length p) ys (p ++ (m ++ s)) ≡ some (p ++ (ys ++ s))
  unfolding write
  write_lem p m s ys h = rw (le→leb (length p + length ys) (length (p ++ (m ++ s))) fits) (
      rw
        (take-length-append p (m ++ s), drop-length-append p (m ++ s), ← h, drop-length-append m s))
    where
      fits : length p + length ys ≤ length (p ++ (m ++ s))
      fits = omega (arith, length-append p (m ++ s), length-append m s)

  -- A range of a block, cut at two lengths.
  pub split :
      (n : ℕ) (s : Cells A)
      → n ≤ length s
      → (s ≡ take n s ++ drop n s) × (length (take n s) ≡ n) × (length (drop n s) ≡ length s - n)
  split n s h = (sym (take-append-drop n s), omega (arith, length-take n s), length-drop n s)

  -- Opening a gap: `memmove` takes the cells `q` behind `p` up by the length of `ys`, and a write
  -- of `ys` fills the gap.
  pub gap_lem :
      (p q s ys : Cells A)
      → length ys ≤ length s
      → (b r : Cells A) × (memmove (length p + length ys) (length p) (length q) (p ++ (q ++ s))
          ≡ some b)
        × (write (length p) ys b ≡ some (p ++ (ys ++ (q ++ r))))
        × (length r + length ys ≡ length s)
  unfolding memmove
  gap_lem p q s ys h =
      let w1 = take (length ys) (q ++ s) in
      let w2 = drop (length ys) (q ++ s) in
      let m = take (length q) w2 in
      let r = drop (length q) w2 in
      let (ew, e1, e2) = split (length ys) (q ++ s) (omega (arith, length-append q s)) in
      let (em, e3, e4) = split (length q) w2 (omega (arith, e2, length-append q s)) in
      let cut : p ++ (q ++ s) ≡ (p ++ w1) ++ (m ++ r) =
        ap (λ z. p ++ z) (ew ∙ ap (λ z. w1 ++ z) em) ∙ sym (append_assoc p w1 (m ++ r)) in
      let at : length (p ++ w1) ≡ length p + length ys = omega (arith, length-append p w1, e1) in
      let moved : write (length p + length ys) q (p ++ (q ++ s)) ≡ some (p ++ (w1 ++ (q ++ r))) =
        subst (λ j. write j q (p ++ (q ++ s)) ≡ some (p ++ (w1 ++ (q ++ r)))) at
          (ap (write (length (p ++ w1)) q) cut
            ∙ write_lem (p ++ w1) m r q e3
            ∙ ap some (append_assoc p w1 (q ++ r))) in
      (
        p ++ (w1 ++ (q ++ r)),
        r,
        ap (λ o. o >>= λ ys'. write (length p + length ys) ys' (p ++ (q ++ s))) (read_lem p q s)
            ∙ moved,
        write_lem p w1 (q ++ r) ys e1,
        omega (arith, e4, e2, length-append q s),
      )
