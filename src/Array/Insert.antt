-- ===== src/Array/Insert.antt =====
-- The members of `Array<T>` (compiler/include/dmd/root/array.h) that add elements: `push`,
-- `shift`, `insert` and `append`.
use dmd.Prelude.{
  ℕ, ◌+◌, ◌≤◌, ◌<◌, ◌≡◌, refl, ap, ◌∙◌, sym, subst, true, false, none, some, [], ◌∷◌, ◌++◌, length,
  take, drop, leb, ◌==◌, if◌then◌else◌, length-append, arith, append-nil, append_assoc, ==_iff,
  Bool-cases, >>=-none, if_true, if_false, ◌||◌, length-eq-zero, inl, inr, ◌≢◌,
}
use dmd.Array.{
  Array, Source, this, other, cells, put_cells, reserve, u32, sub64, push, insert, shift,
  insert_array, append, is_null, source_length, copy_source,
}
use dmd.Array.Memory.{Cells, write, memmove, memcpy_within, read_lem, write_lem, split, gap_lem}
use dmd.Array.Holds.{Holds, stored_back}
use dmd.Array.Grow.{Fits, reserve-Reserved}

module _ {ℓ} {A : Type ℓ} where
  -- Opening a gap behind `p` in a reserved array and filling it with `ys`.
  pub gap-Holds :
      {r : Array A} (p q ys : Cells A)
      → Holds r (p ++ q)
      → length p + length q + length ys ≤ r.allocated
      → (b b' b'' : Cells A) × (cells r ≡ some b)
        × (memmove (length p + length ys) (length p) (length q) b ≡ some b')
        × (write (length p) ys b' ≡ some b'')
        × Holds (record (put_cells r b'') { length = u32 (r.length + length ys) }) (p ++ (ys ++ q))
  gap-Holds {r} p q ys v h =
      let lens = length-append p q in
      let (b', s', moved, filled, size) = gap_lem p q v.spare ys (omega (arith, lens, v.room)) in
      let regroup : p ++ (ys ++ (q ++ s')) ≡ (p ++ (ys ++ q)) ++ s' =
        ap (λ z. p ++ z) (sym (append_assoc ys q s')) ∙ sym (append_assoc p (ys ++ q) s') in
      let whole : length (p ++ (ys ++ q)) ≡ length p + length ys + length q =
        omega (arith, length-append p (ys ++ q), length-append ys q) in
      (
        p ++ (q ++ v.spare),
        b',
        (p ++ (ys ++ q)) ++ s',
        v.stored ∙ ap some (append_assoc p q v.spare),
        moved,
        filled ∙ ap some regroup,
        stored_back v (p ++ (ys ++ q)) s' (u32 (r.length + length ys))
            (omega (arith, whole, lens, size)) (omega (arith, whole))
            (omega (arith, whole, lens, v.len, v.word)),
      )

  -- `insert(index, ptr)` on a valid array, at an index up to the length and where no sum wraps,
  -- succeeds, puts the element there, and moves the later ones up.
  pub insert-Holds :
      {a : Array A} (p q : Cells A) (x : A)
      → Holds a (p ++ q)
      → Fits 1 a
      → (r : Array A) × (insert (length p) x a ≡ some r) × Holds r (p ++ (some x ∷ q))
  unfolding insert
  insert-Holds {a} p q x v f =
      let (r, reserved, made) = reserve-Reserved 1 v f in
      let lens = length-append p q in
      let (b, b', b'', e1, e2, e3, held) =
        gap-Holds p q (some x ∷ []) made.held (omega (arith, lens, v.len, made.more)) in
      let count : sub64 r.length (length p) ≡ length q =
        omega (arith, lens, made.held.len, made.held.cap, made.held.word) in
      (
        record (put_cells r b'') { length = u32 (r.length + 1) },
        rw (reserved, e1, count, e2, e3),
        held,
      )

  -- `shift(ptr)` on a valid array, where no sum wraps, succeeds and puts the element in front.
  pub shift-Holds :
      {a : Array A} {c : Cells A} (x : A)
      → Holds a c
      → Fits 1 a
      → (r : Array A) × (shift x a ≡ some r) × Holds r (some x ∷ c)
  unfolding shift
  shift-Holds {a} {c} x v f =
      let (r, reserved, made) = reserve-Reserved 1 v f in
      let (b, b', b'', e1, e2, e3, held) =
        gap-Holds [] c (some x ∷ []) made.held (omega (arith, v.len, made.more)) in
      (
        record (put_cells r b'') { length = u32 (r.length + 1) },
        rw (reserved, e1, made.held.len, e2, e3),
        held,
      )

  -- Filling the spare cells behind the elements with `ys`.
  pub fill-Holds :
      {r : Array A} {c : Cells A} (ys : Cells A) (v : Holds r c)
      → length c + length ys ≤ r.allocated
      → (b' : Cells A) × (write (length c) ys (c ++ v.spare) ≡ some b')
        × Holds (record (put_cells r b') { length = u32 (r.length + length ys) }) (c ++ ys)
  fill-Holds {r} {c} ys v h =
      let (cut, e1, e2) = split (length ys) v.spare (omega (arith, v.room)) in
      let rest = drop (length ys) v.spare in
      let whole = length-append c ys in
      (
        (c ++ ys) ++ rest,
        ap (λ s. write (length c) ys (c ++ s)) cut
            ∙ write_lem c (take (length ys) v.spare) rest ys e1
            ∙ ap some (sym (append_assoc c ys rest)),
        stored_back v (c ++ ys) rest (u32 (r.length + length ys)) (omega (arith, whole, e2, v.room))
            (omega (arith, whole)) (omega (arith, whole, v.len, v.word)),
      )

  -- `push(ptr)` on a valid array, where no sum wraps, succeeds and puts the element behind the
  -- others.
  pub push-Holds :
      {a : Array A} {c : Cells A} (x : A)
      → Holds a c
      → Fits 1 a
      → (r : Array A) × (push x a ≡ some r) × Holds r (c ++ (some x ∷ []))
  unfolding push
  push-Holds {a} {c} x v f =
      let (r, reserved, made) = reserve-Reserved 1 v f in
      let (b', e3, held) = fill-Holds (some x ∷ []) made.held (omega (arith, v.len, made.more)) in
      (
        record (put_cells r b') { length = u32 (r.length + 1) },
        rw (reserved, made.held.stored, made.held.len, e3),
        held,
      )

  -- The steps of `insert(index, Array *a)`, one after the other.
  insert_array-step :
      (index d : ℕ) (s : Source A) (a : Array A) {r : Array A} {b b' b'' : Cells A}
      → is_null s ≡ false
      → source_length s a ≡ d
      → reserve d a ≡ some r
      → cells r ≡ some b
      → (if r.length == index then some b else memmove (index + d) index (sub64 r.length index) b)
        ≡ some b'
      → copy_source s index d b' ≡ some b''
      → insert_array index s a ≡ some (record (put_cells r b'') { length = u32 (r.length + d) })
  unfolding insert_array
  insert_array-step index d s a h1 h2 h3 h4 h5 h6 = rw (h1, h2, h3, h4, h5, h6)

  copy_source-other :
      {s : Array A} {ys : Cells A} (index : ℕ) (b : Cells A)
      → Holds s ys
      → copy_source (other s) index (length ys) b ≡ write index ys b
  unfolding copy_source
  copy_source-other {ys = ys} index b u = rw (u.stored, read_lem [] ys u.spare)

  copy_source-this :
      (c s : Cells A)
      → copy_source this (length c) (length c) (c ++ s) ≡ write (length c) c (c ++ s)
  unfolding copy_source memcpy_within memmove
  copy_source-this c s = rw (apart, read_lem [] c s)
    where
      apart : (leb (length c + length c) 0 || leb (0 + length c) (length c)) ≡ true
      apart = ground arith

  -- `insert(index, Array *a)` of another valid array, at an index up to the length and where no sum
  -- wraps, succeeds and puts the elements of `a` at that index.
  pub insert_array-Holds :
      {a s : Array A} (p q : Cells A) {ys : Cells A}
      → Holds a (p ++ q)
      → Holds s ys
      → Fits (length ys) a
      → (r : Array A) × (insert_array (length p) (other s) a ≡ some r) × Holds r (p ++ (ys ++ q))
  unfolding is_null source_length
  insert_array-Holds {a} {s} p q {ys} v u f =
      let (r, reserved, made) = reserve-Reserved (length ys) v f in
      let lens = length-append p q in
      let count : sub64 r.length (length p) ≡ length q =
        omega (arith, lens, made.held.len, made.held.cap, made.held.word) in
      elim (Bool-cases (r.length == length p)) [
        | inl end ↦
            let last : q ≡ [] =
              length-eq-zero q
                (omega (arith, lens, made.held.len, (==_iff r.length (length p)).0 end)) in
            let all : p ++ q ≡ p = ap (λ z. p ++ z) last ∙ append-nil p in
            let w = subst (Holds r) all made.held in
            let (b', e3, held) = fill-Holds ys w (omega (arith, lens, v.len, made.more)) in
            (
              record (put_cells r b') { length = u32 (r.length + length ys) },
              insert_array-step (length p) (length ys) (other s) a refl u.len reserved w.stored
                  (if_true _ _ end) (copy_source-other (length p) (p ++ w.spare) u ∙ e3),
              subst (Holds _) (ap (λ z. p ++ z) (sym (ap (λ z. ys ++ z) last ∙ append-nil ys)))
                  held,
            )
        | inr mid ↦
            let (b, b', b'', e1, e2, e3, held) =
              gap-Holds p q ys made.held (omega (arith, lens, v.len, made.more)) in
            (
              record (put_cells r b'') { length = u32 (r.length + length ys) },
              insert_array-step (length p) (length ys) (other s) a refl u.len reserved e1
                  (if_false _ _ mid
                    ∙ ap (λ k. memmove (length p + length ys) (length p) k b) count
                    ∙ e2)
                  (copy_source-other (length p) b' u ∙ e3),
              held,
            )
      ]

  -- `append(a)` of another valid array, where no sum wraps, succeeds and puts its elements behind
  -- the others.
  pub append-Holds :
      {a s : Array A} {c ys : Cells A}
      → Holds a c
      → Holds s ys
      → Fits (length ys) a
      → (r : Array A) × (append (other s) a ≡ some r) × Holds r (c ++ ys)
  unfolding append
  append-Holds {a} {s} {c} {ys} v u f =
      let (r, e, held) = insert_array-Holds c [] (subst (Holds a) (sym (append-nil c)) v) u f in
      (
        r,
        ap (λ k. insert_array k (other s) a) v.len ∙ e,
        subst (λ z. Holds r (c ++ z)) (append-nil ys) held,
      )

  -- `append(a)` of a valid array to itself, where no sum wraps, succeeds and doubles it.
  pub append_this-Holds :
      {a : Array A} {c : Cells A}
      → Holds a c
      → Fits (length c) a
      → (r : Array A) × (append this a ≡ some r) × Holds r (c ++ c)
  unfolding append is_null source_length
  append_this-Holds {a} {c} v f =
      let (r, reserved, made) = reserve-Reserved (length c) v f in
      let (b', e3, held) = fill-Holds c made.held (omega (arith, v.len, made.more)) in
      let same : (r.length == a.length) ≡ true =
        (==_iff r.length a.length).1 (made.held.len ∙ sym v.len) in
      (
        record (put_cells r b') { length = u32 (r.length + length c) },
        insert_array-step a.length (length c) this a refl v.len reserved made.held.stored
            (if_true _ _ same)
            (ap (λ k. copy_source this k (length c) (c ++ made.held.spare)) v.len
              ∙ copy_source-this c made.held.spare
              ∙ e3),
        held,
      )

  copy_source-overlap : (i n : ℕ) (b : Cells A) → i < n → copy_source this i n b ≡ none
  unfolding copy_source memcpy_within
  copy_source-overlap i n b h = rw together
    where
      together : (leb (i + n) 0 || leb (0 + n) i) ≡ false
      together = ground arith

  -- `insert(index, this)` on a valid array, at an index before the end, is undefined.
  pub insert_this-undefined :
      {a : Array A} (p q : Cells A)
      → Holds a (p ++ q)
      → q ≢ []
      → insert_array (length p) this a ≡ none
  unfolding insert_array is_null source_length
  insert_this-undefined {a} p q v ne = >>=-none (reserve a.length a) _ λ r.
      >>=-none (cells r) _ λ b.
        >>=-none (if r.length == length p then some b else _) _
          λ b'. rw (copy_source-overlap (length p) a.length b' inside)
    where
      inside : length p < a.length
      inside =
          omega (arith, length-append p q, v.len, λ (e : length q ≡ 0). ne (length-eq-zero q e))
