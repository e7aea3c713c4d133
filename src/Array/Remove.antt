-- ===== src/Array/Remove.antt =====
-- The members of `Array<T>` (compiler/include/dmd/root/array.h) that drop or overwrite elements:
-- `remove`, `pop`, `setDim`, `zero` and `copy`.
use dmd.Prelude.{
  ℕ, zero, suc, ◌+◌, ◌-◌, ◌^◌, ◌≤◌, ◌<◌, ◌≡◌, refl, ap, ◌∙◌, sym, subst, false, Option, some, [],
  ◌∷◌, ◌++◌, ◌>>=◌, length, take, drop, ◌==◌, length-append, arith, append-nil, append_assoc,
  ==_iff, Bool-cases, inl, inr, length-eq-zero, replicate, length-replicate, take-append-drop,
  length-take, lt→ltb, ge→ltb,
}
use dmd.Array.{
  Array, cells, put_cells, u32, sub32, sub64, remove, pop, set_dim, clear, copy, get, empty,
}
use dmd.Array.Memory.{Cells, read, write, memmove, read_lem, write_lem, split}
use dmd.Array.Holds.{Holds, stored_back, empty-Holds}
use dmd.Array.Grow.{Fits, reserve-Reserved}

module _ {ℓ} {A : Type ℓ} where
  -- Fewer elements in the same cells.
  shorter-Holds :
      {a : Array A} (c s : Cells A) (n : ℕ)
      → Holds a (c ++ s)
      → n ≡ length c
      → Holds (record a { length = n }) c
  unfolding cells
  shorter-Holds c s n v e = record {
    spare = s ++ v.spare;
    stored = v.stored ∙ ap some (append_assoc c s v.spare);
    len = e;
    cap = omega (arith, v.cap, length-append c s);
    room = omega (arith, v.room, length-append c s, length-append s v.spare);
    word = v.word;
  }

  -- More elements in the same cells.
  longer-Holds :
      {a : Array A} {c : Cells A} (v : Holds a c) (e s : Cells A) (n : ℕ)
      → c ++ v.spare ≡ (c ++ e) ++ s
      → n ≡ length (c ++ e)
      → length (c ++ e) ≤ a.allocated
      → Holds (record a { length = n }) (c ++ e)
  unfolding cells
  longer-Holds {c = c} v e s n cut en k = record {
    spare = s;
    stored = v.stored ∙ ap some cut;
    len = en;
    cap = k;
    room = omega (arith, v.room, ap length cut, length-append c v.spare, length-append (c ++ e) s);
    word = v.word;
  }

  memmove_down :
      (p q s : Cells A) (x : Option A)
      → (r : Cells A) × (memmove (length p) (length p + 1) (length q) (p ++ ((x ∷ q) ++ s))
          ≡ some (p ++ (q ++ r)))
        × (length r ≡ suc (length s))
  unfolding memmove
  memmove_down p q s x =
      let (cut, e1, e2) = split (length q) (x ∷ q) (omega arith) in
      let r0 = drop (length q) (x ∷ q) in
      let b = p ++ ((x ∷ q) ++ s) in
      let taken : read (length p + 1) (length q) b ≡ some q =
        subst (λ i. read i (length q) b ≡ some q) (length-append p (x ∷ []))
          (ap (read (length (p ++ (x ∷ []))) (length q)) (sym (append_assoc p (x ∷ []) (q ++ s)))
            ∙ read_lem (p ++ (x ∷ [])) q s) in
      (
        r0 ++ s,
        ap (λ o. o >>= λ ys. write (length p) ys b) taken
            ∙ ap (λ z. write (length p) q (p ++ z))
                (ap (λ z. z ++ s) cut ∙ append_assoc (take (length q) (x ∷ q)) r0 s)
            ∙ write_lem p (take (length q) (x ∷ q)) (r0 ++ s) q e1,
        omega (arith, length-append r0 s, e2),
      )

  remove-step :
      (i n : ℕ) (a : Array A) {b b' : Cells A}
      → sub64 (sub64 a.length i) 1 ≡ n
      → (n == 0) ≡ false
      → cells a ≡ some b
      → memmove i (i + 1) n b ≡ some b'
      → remove i a ≡ some (record (put_cells a b') { length = sub32 a.length 1 })
  unfolding remove
  remove-step i n a h1 h2 h3 h4 = rw (h1, h2, h3, h4)

  -- `remove(i)` on a valid array, at the index of an element, succeeds, takes it out, and moves the
  -- later ones down.
  pub remove-Holds :
      {a : Array A} (p q : Cells A) (x : Option A)
      → Holds a (p ++ (x ∷ q))
      → (r : Array A) × (remove (length p) a ≡ some r) × Holds r (p ++ q)
  unfolding remove
  remove-Holds {a} p q x v =
      let lens = length-append p (x ∷ q) in
      let count : sub64 (sub64 a.length (length p)) 1 ≡ length q =
        omega (arith, lens, v.len, v.cap, v.word) in
      elim (Bool-cases (length q == 0)) [
        | inl last ↦
            let nil : q ≡ [] = length-eq-zero q ((==_iff (length q) 0).0 last) in
            let r : Array A = record a { length = sub32 a.length 1 } in
            (
              r,
              rw (count, last),
              subst (λ z. Holds r (p ++ z)) (sym nil)
                  (subst (Holds r) (sym (append-nil p)) (
                    shorter-Holds p (x ∷ q) (sub32 a.length 1) v
                      (omega (arith, lens, v.len, v.cap, v.word, (==_iff (length q) 0).0 last)))),
            )
        | inr more ↦
            let (r, moved, size) = memmove_down p q v.spare x in
            let whole = length-append p q in
            (
              record (put_cells a ((p ++ q) ++ r)) { length = sub32 a.length 1 },
              remove-step (length p) (length q) a count more
                  (v.stored ∙ ap some (append_assoc p (x ∷ q) v.spare))
                  (moved ∙ ap some (sym (append_assoc p q r))),
              stored_back v (p ++ q) r (sub32 a.length 1) (omega (arith, whole, lens, size))
                  (omega (arith, whole, lens, v.cap))
                  (omega (arith, whole, lens, v.len, v.cap, v.word)),
            )
      ]

  -- `pop()` on a valid array with an element gives the last one and leaves the others.
  pub pop-Holds :
      {a : Array A} (c : Cells A) (x : A)
      → Holds a (c ++ (some x ∷ []))
      → (r : Array A) × (pop a ≡ some (x, r)) × Holds r c
  unfolding pop get
  pop-Holds {a} c x v =
      let at : sub32 a.length 1 ≡ length c =
        omega (arith, length-append c (some x ∷ []), v.len, v.cap, v.word) in
      (
        record a { length = sub32 a.length 1 },
        rw (at, v.stored, append_assoc c (some x ∷ []) v.spare, read_lem c (some x ∷ []) v.spare),
        shorter-Holds c (some x ∷ []) (sub32 a.length 1) v at,
      )

  -- `zero()` sets every element.
  pub clear-Holds :
      {a : Array A} {c : Cells A} (z : A)
      → Holds a c
      → (r : Array A) × (clear z a ≡ some r) × Holds r (replicate (length c) (some z))
  unfolding clear put_cells
  clear-Holds {a} {c} z v =
      let zs = replicate (length c) (some z) in
      let size = length-replicate (length c) (some z) in
      (
        put_cells a (zs ++ v.spare),
        rw (v.stored, v.len, write_lem [] c v.spare zs (sym size)),
        stored_back v zs v.spare a.length (omega (arith, size)) (omega (arith, size, v.cap))
            (omega (arith, size, v.len)),
      )

  -- `setDim(newdim)` of a valid array to no more elements succeeds and keeps the first ones.
  pub set_dim-shrink :
      {a : Array A} {c : Cells A} (n : ℕ)
      → Holds a c
      → n ≤ length c
      → (r : Array A) × (set_dim n a ≡ some r) × Holds r (take n c)
  unfolding set_dim
  set_dim-shrink {a} {c} n v h = (
    record a { length = u32 n },
    rw (ge→ltb a.length n (omega (arith, v.len))),
    shorter-Holds (take n c) (drop n c) (u32 n) (subst (Holds a) (sym (take-append-drop n c)) v)
        (omega (arith, length-take n c, v.cap, v.word)),
  )

  -- `setDim(newdim)` of a valid array to more elements, where no sum wraps, succeeds and keeps the
  -- old elements, with as many cells of any content behind them as are missing.
  pub set_dim-grow :
      {a : Array A} {c : Cells A} (n : ℕ)
      → Holds a c
      → length c < n
      → n < 2 ^ 32
      → Fits (n - length c) a
      → (r : Array A) × (e : Cells A) × (set_dim n a ≡ some r)
        × Holds r (c ++ e)
        × (length e ≡ n - length c)
  unfolding set_dim
  set_dim-grow {a} {c} n v h w f =
      let (r, reserved, made) = reserve-Reserved (n - length c) v f in
      let u = made.held in
      let e = take (n - length c) u.spare in
      let by : sub64 n a.length ≡ n - length c = omega (arith, v.len) in
      let size = length-take (n - length c) u.spare in
      let cut : c ++ u.spare ≡ (c ++ e) ++ drop (n - length c) u.spare =
        ap (λ z. c ++ z) (sym (take-append-drop (n - length c) u.spare))
        ∙ sym (append_assoc c e (drop (n - length c) u.spare)) in
      (
        record r { length = u32 n },
        e,
        rw (lt→ltb a.length n (omega (arith, v.len)), by, reserved),
        longer-Holds u e (drop (n - length c) u.spare) (u32 n) cut
            (omega (arith, length-append c e, size, made.more, v.len, u.room))
            (omega (arith, length-append c e, size, made.more, v.len, u.room)),
        omega (arith, size, made.more, v.len, u.room),
      )

  set_dim-empty :
      (n : ℕ)
      → n < 2 ^ 32
      → (r : Array A) × (e : Cells A) × (set_dim n empty ≡ some r) × Holds r e × (length e ≡ n)
  unfolding empty
  set_dim-empty zero w =
      let (r, e, h) = set_dim-shrink 0 empty-Holds (omega arith) in (r, [], e, h, refl)
  set_dim-empty (suc n) w =
      let (r, e, made, h, size) = set_dim-grow (suc n) empty-Holds (omega arith) w (omega arith) in
      (r, e, made, h, omega (arith, size))

  copy-step :
      (a : Array A) {r : Array A} {b ys d b' : Cells A}
      → set_dim a.length empty ≡ some r
      → cells a ≡ some b
      → read 0 a.length b ≡ some ys
      → cells r ≡ some d
      → write 0 ys d ≡ some b'
      → copy a ≡ some (put_cells r b')
  unfolding copy
  copy-step a h1 h2 h3 h4 h5 = rw (h1, h2, h3, h4, h5)

  -- `copy()` of a valid array succeeds and gives a valid array with the same elements.
  pub copy-Holds :
      {a : Array A} {c : Cells A} → Holds a c → (r : Array A) × (copy a ≡ some r) × Holds r c
  unfolding put_cells
  copy-Holds {a} {c} v =
      let (r, e, made, u, size) = set_dim-empty (length c) (omega (arith, v.cap, v.word)) in
      (
        put_cells r (c ++ u.spare),
        copy-step a (ap (λ n. set_dim n empty) v.len ∙ made) v.stored
            (ap (λ n. read 0 n (c ++ v.spare)) v.len ∙ read_lem [] c v.spare) u.stored
            (write_lem [] e u.spare c size),
        stored_back u c u.spare r.length (omega (arith, size)) (omega (arith, size, u.cap))
            (omega (arith, size, u.len)),
      )
