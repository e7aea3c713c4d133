-- ===== src/Array/Holds.antt =====
-- What an `Array<T>` (compiler/include/dmd/root/array.h) holds: the list of its first `length`
-- cells, in storage that agrees with `allocated`.
use dmd.Prelude.{
  ℕ, ◌+◌, ◌^◌, ◌≤◌, ◌<◌, ◌≡◌, refl, sym, subst, Bool, true, false, none, some, [], ◌∷◌, ◌++◌,
  length, leb, if◌then◌else◌, length-append, arith,
}
use dmd.Array.{
  Array, Storage, smallarray, ptr, cells, small_cells, ptr_cells, put_cells, store_cells, empty,
  small_array_cap,
}
use dmd.Array.Memory.{Cells}

module _ {ℓ} {A : Type ℓ} where
  -- The cells `c` are the elements, and `spare` the allocated cells behind them.
  pub record Holds (a : Array A) (c : Cells A) : Type ℓ where
    pub spare : Cells A
    pub stored : cells a ≡ some (c ++ spare)
    pub len : a.length ≡ length c
    pub cap : length c ≤ a.allocated
    pub room : a.allocated ≤ length c + length spare
    pub word : a.allocated < 2 ^ 32

  pub empty-Holds : Holds empty []
  unfolding empty cells
  empty-Holds = record {
    spare = none ∷ [];
    stored = refl;
    len = refl;
    cap = omega arith;
    room = omega arith;
    word = omega arith;
  }

  length-of_some : (b b' : Cells A) → some b ≡ some b' → length b ≡ length b'
  length-of_some b b' h = cc

  store_cells_lem :
      (t : Bool) (s : Storage A) (b b' : Cells A)
      → (if t then small_cells s else ptr_cells s) ≡ some b
      → length b' ≡ length b
      → (if t then small_cells (store_cells s b') else ptr_cells (store_cells s b')) ≡ some b'
  unfolding small_cells ptr_cells store_cells
  store_cells_lem true (smallarray c) b [] h e = absurd (omega (arith, length-of_some (c ∷ []) b h))
  store_cells_lem true (smallarray c) b (x ∷ []) h e = refl
  store_cells_lem true (smallarray c) b (x ∷ y ∷ z) h e =
      absurd (omega (arith, length-of_some (c ∷ []) b h))
  store_cells_lem true (ptr d) b b' h e = cc
  store_cells_lem false (smallarray c) b b' h e = cc
  store_cells_lem false (ptr d) b b' h e = refl

  -- Cells written back through `data()` are read through `data()`.
  pub cells-put_cells :
      (a : Array A) (b b' : Cells A) (n : ℕ)
      → cells a ≡ some b
      → length b' ≡ length b
      → cells (record (put_cells a b') { length = n }) ≡ some b'
  unfolding put_cells cells
  cells-put_cells a b b' n h e =
      store_cells_lem (leb a.allocated small_array_cap) a.storage b b' h e

  -- Elements written in place, or over spare cells.
  pub put_cells-Holds :
      {a : Array A} {c : Cells A} (v : Holds a c) (c' s' : Cells A)
      → length c' + length s' ≡ length c + length v.spare
      → length c' ≤ a.allocated
      → Holds (record (put_cells a (c' ++ s')) { length = length c' }) c'
  unfolding put_cells
  put_cells-Holds {a} {c} v c' s' e k = record {
    spare = s';
    stored =
        cells-put_cells a (c ++ v.spare) (c' ++ s') (length c') v.stored
          (omega (arith, length-append c' s', length-append c v.spare, e));
    len = refl;
    cap = k;
    room = omega (arith, v.room, e);
    word = v.word;
  }

  -- The cells `c'` and the rest of a block, written back into a reserved array.
  pub stored_back :
      {r : Array A} {c : Cells A} (v : Holds r c) (c' s' : Cells A) (n : ℕ)
      → length c' + length s' ≡ length c + length v.spare
      → length c' ≤ r.allocated
      → n ≡ length c'
      → Holds (record (put_cells r (c' ++ s')) { length = n }) c'
  stored_back {r} v c' s' n e k en =
      subst (λ m. Holds (record (put_cells r (c' ++ s')) { length = m }) c') (sym en)
        (put_cells-Holds v c' s' e k)
