-- ===== src/Array/Grow.antt =====
-- `Array<T>::reserve` (compiler/include/dmd/root/array.h): it makes room, keeps the elements, and
-- grows geometrically.
use dmd.Prelude.{
  ℕ, ◌+◌, ◌-◌, ◌/◌, ◌^◌, ◌≤◌, ◌<◌, ◌≡◌, ◌≢◌, refl, ap, ◌∙◌, sym, subst, true, false, Option, none,
  some, [], ◌++◌, length, take, replicate, leb, ◌==◌, if◌then◌else◌, le→leb, leb→le, leb-gt,
  length-eq-zero, ==_iff, ==_ne, replicate-append, take-append, gt→leb, lt→ltb, ge→ltb,
  length-append, length-replicate, arith, inl, inr, Bool-cases, max, append_assoc, length-take,
}
use native.Mathlib.Decide.{dec_le}
use dmd.Array.{
  Array, Storage, smallarray, ptr, cells, small_cells, ptr_cells, reserve, leave_small, regrow,
  from_zero, increment, u32, sub32,
}
use dmd.Array.Memory.{Cells, xmalloc, xrealloc, read_lem, write_lem}
use dmd.Array.Holds.{Holds}

module _ {ℓ} {A : Type ℓ} where
  -- No 32-bit sum of `reserve(n)` wraps.
  abbrev pub Fits : ℕ → Array A → Type 0
  Fits n a = a.length + max n (a.length / 2) < 2 ^ 32

  -- What `reserve(n)` gives: the same elements, and room for `n` more.
  pub record Reserved (n : ℕ) (a : Array A) (c : Cells A) (r : Array A) : Type ℓ where
    pub held : Holds r c
    pub more : a.length + n ≤ r.allocated
    pub grown : r.allocated ≢ a.allocated → a.length + a.length / 2 ≤ r.allocated

  cells-small : (a : Array A) → leb a.allocated 1 ≡ true → cells a ≡ small_cells a.storage
  unfolding cells
  cells-small a h = rw h

  cells-ptr : (a : Array A) → leb a.allocated 1 ≡ false → cells a ≡ ptr_cells a.storage
  unfolding cells
  cells-ptr a h = rw h

  -- A block of `k` cells, the first of which are `c`.
  block-Holds :
      {a : Array A} {c : Cells A} (k : ℕ) (rest : Cells A)
      → Holds a c
      → 1 < k
      → k < 2 ^ 32
      → length c + length rest ≡ k
      → Holds (record a { allocated = k; storage = ptr (c ++ rest) }) c
  unfolding cells ptr_cells
  block-Holds k rest v h w e = record {
    spare = rest;
    stored = rw (gt→leb k 1 h);
    len = v.len;
    cap = omega arith;
    room = omega arith;
    word = w;
  }

  leave_small-Holds :
      {a : Array A} {c : Cells A} (k : ℕ)
      → Holds a c
      → leb a.allocated 1 ≡ true
      → 1 < k
      → k < 2 ^ 32
      → (r : Array A) × (leave_small k a ≡ some r) × Holds r c × (r.allocated ≡ k)
  unfolding leave_small
  leave_small-Holds {a} {c} k v small h w = (
    record a { allocated = k; storage = ptr (c ++ rest) },
    rw
        (
          old,
          v.len,
          read_lem [] c v.spare,
          ← replicate-append {A = Option A} (length c) k none within,
        )
        (rw (write_lem [] (replicate (length c) none) rest c (length-replicate (length c) none))),
    block-Holds k rest v h w
        (omega (arith, within, length-replicate {A = Option A} (k - length c) none)),
    refl,
  )
    where
      rest : Cells A
      rest = replicate (k - length c) none

      within : length c ≤ k
      within = omega (arith, v.cap, leb→le a.allocated 1 small)

      old : small_cells a.storage ≡ some (c ++ v.spare)
      old = sym (cells-small a small) ∙ v.stored

  regrow-Holds :
      {a : Array A} {c : Cells A} (k : ℕ)
      → Holds a c
      → leb a.allocated 1 ≡ false
      → length c ≤ k
      → 1 < k
      → k < 2 ^ 32
      → (r : Array A) × (regrow k a ≡ some r) × Holds r c × (r.allocated ≡ k)
  unfolding regrow
  regrow-Holds {a} {c} k v large within h w = (
    record a { allocated = k; storage = ptr (c ++ rest) },
    rw (old, cut),
    block-Holds k rest v h w size,
    refl,
  )
    where
      rest : Cells A
      rest = take (k - length c) v.spare ++ replicate (k - length (c ++ v.spare)) none

      old : ptr_cells a.storage ≡ some (c ++ v.spare)
      old = sym (cells-ptr a large) ∙ v.stored

      cut : xrealloc (c ++ v.spare) k ≡ c ++ rest
      cut = rw (take-append k c v.spare within) (append_assoc c _ _)

      size : length c + length rest ≡ k
      size = omega (
        arith,
        length-append (take (k - length c) v.spare) (replicate (k - length (c ++ v.spare)) none),
        length-take (k - length c) v.spare,
        length-replicate {A = Option A} (k - length (c ++ v.spare)) none,
        length-append c v.spare,
      )

  small_cells-length : (s : Storage A) (b : Cells A) → small_cells s ≡ some b → length b ≡ 1
  unfolding small_cells
  small_cells-length (smallarray x) b h =
      ap (λ o. elim o [ none ↦ 1 | some b' ↦ length b' ]) (sym h)
  small_cells-length (ptr d) b h = cc

  from_zero-Holds :
      {a : Array A} {c : Cells A} (n : ℕ)
      → Holds a c
      → a.allocated ≡ 0
      → n < 2 ^ 32
      → Holds (from_zero n a) c × (n ≤ (from_zero n a).allocated)
  unfolding from_zero cells
  from_zero-Holds {a} {c} n v z w = elim (Bool-cases (leb n 1)) [
    | inl one ↦ rw one (
      record {
        spare = v.spare;
        stored = sym (cells-small a tiny) ∙ v.stored;
        len = v.len;
        cap = omega arith;
        room = omega (
          arith,
          length-append c v.spare,
          small_cells-length a.storage (c ++ v.spare) (sym (cells-small a tiny) ∙ v.stored),
        );
        word = omega arith;
      },
      leb→le n 1 one,
    )
    | inr more ↦ rw more (
      subst (Holds _) (sym none_yet) (
          block-Holds (u32 n) (xmalloc (u32 n)) (subst (Holds a) none_yet v)
            (omega (arith, leb-gt n 1 more)) (omega arith)
            (omega (arith, length-replicate {A = Option A} (u32 n) none))),
      omega arith,
    )
  ]
    where
      none_yet : c ≡ []
      none_yet = length-eq-zero c (omega (arith, v.cap))

      tiny : leb a.allocated 1 ≡ true
      tiny = le→leb a.allocated 1 (omega arith)

  reserve-enough :
      (a : Array A) (n : ℕ)
      → a.length + n ≤ a.allocated
      → a.allocated < 2 ^ 32
      → reserve n a ≡ some a
  unfolding reserve
  reserve-enough a n h w = rw (ge→ltb (sub32 a.allocated a.length) n (omega arith))

  reserve-more :
      (a : Array A) (n : ℕ)
      → a.length ≤ a.allocated
      → a.allocated < a.length + n
      → a.allocated < 2 ^ 32
      → reserve n a ≡ (
          if a.allocated == 0
          then some (from_zero n a)
          else if leb a.allocated 1
          then leave_small (u32 (a.length + n)) a
          else regrow (u32 (a.length + increment n a)) a)
  unfolding reserve
  reserve-more a n le h w = rw (lt→ltb (sub32 a.allocated a.length) n (omega arith))

  -- Half of the length or `n`, whichever is more, and no sum wraps.
  increment_lem :
      (a : Array A) (n : ℕ)
      → Fits n a
      → u32 (a.length + increment n a) ≡ a.length + max n (a.length / 2)
  unfolding increment
  increment_lem a n f = ground arith

  module _ {a : Array A} {c : Cells A} (n : ℕ) (v : Holds a c) (f : Fits n a)
      (short : a.allocated < a.length + n) where
    ordered : a.length ≤ a.allocated
    ordered = omega (arith, v.cap, v.len)

    reserve_zero :
        (a.allocated == 0) ≡ true → (r : Array A) × (reserve n a ≡ some r) × Reserved n a c r
    reserve_zero z =
        let z' = (==_iff a.allocated 0).0 z in
        let (held, more) = from_zero-Holds n v z' (omega arith) in
        (
          from_zero n a,
          reserve-more a n ordered short v.word ∙ rw z,
          record {
            held = held;
            more = omega (arith, ordered, more);
            grown = λ _. omega (arith, ordered);
          },
        )

    reserve_small :
        (a.allocated == 0) ≡ false
        → leb a.allocated 1 ≡ true
        → (r : Array A) × (reserve n a ≡ some r) × Reserved n a c r
    reserve_small nz small =
        let nz' = ==_ne a.allocated 0 nz in
        let le = leb→le a.allocated 1 small in
        let (r, e, held, k) =
          leave_small-Holds (u32 (a.length + n)) v small (omega arith) (omega arith) in
        (
          r,
          reserve-more a n ordered short v.word ∙ rw (nz, small) e,
          record { held = held; more = omega (arith, k); grown = λ _. omega (arith, ordered, k) },
        )

    reserve_large :
        (a.allocated == 0) ≡ false
        → leb a.allocated 1 ≡ false
        → (r : Array A) × (reserve n a ≡ some r) × Reserved n a c r
    reserve_large nz large =
        let sum = increment_lem a n f in
        let gt = leb-gt a.allocated 1 large in
        let (r, e, held, k) =
          regrow-Holds (u32 (a.length + increment n a)) v large (omega (arith, sum, v.len))
            (omega (arith, sum)) (omega arith) in
        (
          r,
          reserve-more a n ordered short v.word ∙ rw (nz, large) e,
          record { held = held; more = omega (arith, k, sum); grown = λ _. omega (arith, k, sum) },
        )

  -- `reserve(n)` on a valid array, where no 32-bit sum wraps: it succeeds, the elements stay, there
  -- is room for `n` more, and an array that is reallocated gets at least half as many cells again
  -- as it has elements.
  pub reserve-Reserved :
      {a : Array A} {c : Cells A} (n : ℕ)
      → Holds a c
      → Fits n a
      → (r : Array A) × (reserve n a ≡ some r) × Reserved n a c r
  reserve-Reserved {a} n v f = elim (dec_le (a.length + n) a.allocated) [
    | yes enough ↦ (
      a,
      reserve-enough a n enough v.word,
      record { held = v; more = enough; grown = λ ne. absurd (ne refl) },
    )
    | no short ↦ elim (Bool-cases (a.allocated == 0)) [
      | inl z ↦ reserve_zero n v f (omega arith) z
      | inr nz ↦ elim (Bool-cases (leb a.allocated 1)) [
        | inl small ↦ reserve_small n v f (omega arith) nz small
        | inr large ↦ reserve_large n v f (omega arith) nz large
      ]
    ]
  ]
