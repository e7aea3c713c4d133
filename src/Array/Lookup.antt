-- ===== src/Array/Lookup.antt =====
-- The members of `Array<T>` (compiler/include/dmd/root/array.h) that read elements:
-- `operator[]`, `find` and `contains`.
use dmd.Prelude.{
  ℕ, zero, suc, ◌+◌, ◌^◌, ◌<◌, ◌≡◌, refl, ap, ◌∙◌, Bool, true, false, some, List, [], ◌∷◌, ◌++◌,
  ◌>>=◌, length, get_elem?, ◌==◌, arith, Bool-cases, inl, inr, ◌⊎◌, map, ◌||◌, not, append_assoc,
}
use dmd.Array.{Array, get, find, find_from, contains, size_max}
use dmd.Array.Memory.{Cells, read_lem}
use dmd.Array.Holds.{Holds}

-- Some element passes the test.
abbrev pub any {ℓ} : {A : Type ℓ} → (A → Bool) → List A → Bool
any t [] = false
any t (x ∷ xs) = t x || any t xs

module _ {ℓ} {A : Type ℓ} where
  -- The first element that passes the test `t` stands at `i`.
  pub record FirstAt (t : A → Bool) (xs : List A) (i : ℕ) : Type ℓ where
    pub value : A
    pub at : get_elem? xs i ≡ some value
    pub passes : t value ≡ true
    pub earlier : (j : ℕ) (y : A) → j < i → get_elem? xs j ≡ some y → t y ≡ false

  -- `operator[]` within the elements reads the element.
  pub get-Holds :
      {a : Array A} (p q : Cells A) (x : A)
      → Holds a (p ++ (some x ∷ q))
      → get (length p) a ≡ some x
  unfolding get
  get-Holds p q x v =
      rw (v.stored, append_assoc p (some x ∷ q) v.spare, read_lem p (some x ∷ []) (q ++ v.spare))

  find_from-none :
      (eq : A → A → Bool) (x : A) (xs : List A) (i : ℕ)
      → any (λ y. eq y x) xs ≡ false
      → find_from eq x i (map some xs) ≡ some size_max
  unfolding find_from
  find_from-none eq x [] i h = refl
  find_from-none eq x (y ∷ ys) i h = ground (arith, find_from-none eq x ys (i + 1))

  FirstAt-head : (t : A → Bool) (y : A) (ys : List A) → t y ≡ true → FirstAt t (y ∷ ys) 0
  FirstAt-head t y ys h = record {
    value = y;
    at = refl;
    passes = h;
    earlier = λ j z lt e. absurd (omega arith);
  }

  FirstAt-tail :
      (t : A → Bool) (y : A) (ys : List A) {k : ℕ}
      → t y ≡ false
      → FirstAt t ys k
      → FirstAt t (y ∷ ys) (suc k)
  FirstAt-tail t y ys {k} h f = record {
    value = f.value;
    at = f.at;
    passes = f.passes;
    earlier = before;
  }
    where
      before : (j : ℕ) (z : A) → j < suc k → get_elem? (y ∷ ys) j ≡ some z → t z ≡ false
      before zero z lt e = cc
      before (suc j) z lt e = f.earlier j z (omega arith) e

  find_from-some :
      (eq : A → A → Bool) (x : A) (xs : List A) (i : ℕ)
      → any (λ y. eq y x) xs ≡ true
      → (k : ℕ) × (find_from eq x i (map some xs) ≡ some (i + k))
        × (k < length xs)
        × FirstAt (λ y. eq y x) xs k
  unfolding find_from
  find_from-some eq x [] i h = cc
  find_from-some eq x (y ∷ ys) i h = elim (Bool-cases (eq y x)) [
    | inl hit ↦
        (0, rw hit (ap some (omega arith)), omega arith, FirstAt-head (λ z. eq z x) y ys hit)
    | inr miss ↦
        let (k, e, lt, f) = find_from-some eq x ys (i + 1) (ground arith) in
        (
          suc k,
          rw miss (e ∙ ap some (omega arith)),
          omega arith,
          FirstAt-tail (λ z. eq z x) y ys miss f,
        )
  ]

  find-eq-find_from :
      (eq : A → A → Bool) (x : A) {a : Array A} (xs : List A)
      → Holds a (map some xs)
      → find eq x a ≡ find_from eq x 0 (map some xs)
  unfolding find
  find-eq-find_from eq x xs v = rw (v.stored, v.len, read_lem [] (map some xs) v.spare)

  -- `find(ptr)` on a valid array of initialised elements gives the index of the first element equal
  -- to `ptr`, or `SIZE_MAX` if there is none.
  pub find_lem :
      (eq : A → A → Bool) (x : A) {a : Array A} (xs : List A)
      → Holds a (map some xs)
      → (i : ℕ) × (find eq x a ≡ some i)
        × (((any (λ y. eq y x) xs ≡ true) × (i < length xs) × FirstAt (λ y. eq y x) xs i)
            ⊎ ((any (λ y. eq y x) xs ≡ false) × (i ≡ size_max)))
  find_lem eq x xs v = elim (Bool-cases (any (λ y. eq y x) xs)) [
    | inl h ↦
        let (k, e, lt, f) = find_from-some eq x xs 0 h in
        (k, find-eq-find_from eq x xs v ∙ e ∙ ap some (omega arith), inl (h, lt, f))
    | inr h ↦ (size_max, find-eq-find_from eq x xs v ∙ find_from-none eq x xs 0 h, inr (h, refl))
  ]

  length-map : (xs : List A) → length (map some xs) ≡ length xs
  length-map [] = refl
  length-map (x ∷ xs) = ap suc (length-map xs)

  -- `contains(ptr)` on a valid array of initialised elements tells whether some element is equal to
  -- `ptr`.
  pub contains_lem :
      (eq : A → A → Bool) (x : A) {a : Array A} (xs : List A)
      → Holds a (map some xs)
      → contains eq x a ≡ some (any (λ y. eq y x) xs)
  unfolding contains
  contains_lem eq x {a} xs v = go (find_lem eq x xs v)
    where
      small : length xs < 2 ^ 32
      small = omega (arith, length-map xs, v.cap, v.word)

      go :
          ((i : ℕ) × (find eq x a ≡ some i)
            × (((any (λ y. eq y x) xs ≡ true) × (i < length xs) × FirstAt (λ y. eq y x) xs i)
                ⊎ ((any (λ y. eq y x) xs ≡ false) × (i ≡ size_max))))
          → (find eq x a >>= λ i. some (not (i == size_max))) ≡ some (any (λ y. eq y x) xs)
      go (i, e, inl (h, lt, f)) = rw (e, h) (ground (arith, small))
      go (i, e, inr (h, last)) = rw (e, h, last)
