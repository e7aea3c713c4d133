-- ===== src/Array/Text.antt =====
-- `Array<T>::toChars` (compiler/include/dmd/root/array.h): the text in brackets, and the size of
-- the block that it is written to.
use dmd.Prelude.{
  ℕ, suc, ◌+◌, ◌≡◌, refl, ap, ◌∙◌, sym, subst, false, Option, none, some, List, [], ◌∷◌, ◌++◌,
  ◌>>=◌, length, arith, map, length-append, append_assoc, replicate, length-replicate,
  replicate-append, append-nil, map-append,
}
use dmd.Array.{Array, text_size, put_bytes, put_strings, text_of, to_chars, strings}
use dmd.Array.Memory.{Cells, write, read_lem, write_lem}
use dmd.Array.Holds.{Holds}

-- Each string behind a comma.
tail_text : List (List ℕ) → List ℕ
tail_text [] = []
tail_text (s ∷ ss) = b',' ∷ (s ++ tail_text ss)

-- The strings with commas between them.
pub joined : List (List ℕ) → List ℕ
unfolding tail_text
joined [] = []
joined (s ∷ ss) = s ++ tail_text ss

length-map : (s : List ℕ) → length (map some s) ≡ length s
length-map [] = refl
length-map (x ∷ s) = ap suc (length-map s)

-- `done` is written, and `n` cells are left.
abbrev Stage : List ℕ → ℕ → Cells ℕ
Stage done n = map some done ++ replicate n none

-- The position behind `done`, and the block at that stage.
abbrev At : List ℕ → ℕ → ℕ × Cells ℕ
At done n = (length done, Stage done n)

write-Stage :
    (done s : List ℕ) (m : ℕ)
    → write (length done) (map some s) (Stage done (length s + m)) ≡ some (Stage (done ++ s) m)
write-Stage done s m =
    subst (λ i. write i ys (Stage done (length s + m)) ≡ some (Stage (done ++ s) m))
      (length-map done)
      (ap (λ z. write (length d) ys (d ++ z)) (sym cut)
        ∙ write_lem d (replicate (length s) none) (replicate m none) ys
            (length-replicate {A = Option ℕ} (length s) none ∙ sym (length-map s))
        ∙ ap some (sym (append_assoc d ys (replicate m none)))
        ∙ ap (λ z. some (z ++ replicate m none)) (sym (map-append some done s)))
  where
    d : Cells ℕ
    d = map some done

    ys : Cells ℕ
    ys = map some s

    cut :
        replicate (length s) none ++ replicate m none ≡ replicate {A = Option ℕ} (length s + m) none
    cut =
        ap (λ k. replicate (length s) none ++ replicate k none) (omega arith)
        ∙ replicate-append (length s) (length s + m) none (omega arith)

put_bytes_lem :
    (done s : List ℕ) (n m : ℕ)
    → n ≡ length s + m
    → put_bytes (length done) s (Stage done n) ≡ some (At (done ++ s) m)
unfolding put_bytes
put_bytes_lem done s n m e =
    rw (e, write-Stage done s m)
      (ap (λ k. some (k, Stage (done ++ s) m)) (sym (length-append done s)))

put_strings_lem :
    (done : List ℕ) (ss : List (List ℕ)) (n m : ℕ)
    → n ≡ length (tail_text ss) + m
    → put_strings false (length done) ss (Stage done n) ≡ some (At (done ++ tail_text ss) m)
unfolding put_strings tail_text
put_strings_lem done [] n m e =
    ap (λ k. some (At done k)) (omega arith) ∙ ap (λ d. some (At d m)) (sym (append-nil done))
put_strings_lem done (s ∷ ss) n m e =
    let rest = length (tail_text ss) + m in
    let comma = done ++ (b',' ∷ []) in
    rw
      (
        put_bytes_lem done (b',' ∷ []) n (length s + rest)
            (omega (arith, length-append s (tail_text ss))),
        put_bytes_lem comma s (length s + rest) rest refl,
        put_strings_lem (comma ++ s) ss rest m refl,
      )
      (ap (λ d. some (At d m))
        (append_assoc comma s (tail_text ss) ∙ append_assoc done (b',' ∷ []) (s ++ tail_text ss)))

text_size_lem : (ss : List (List ℕ)) → text_size ss ≡ length (tail_text ss) + 2
unfolding text_size tail_text
text_size_lem [] = refl
text_size_lem (s ∷ ss) = omega (arith, text_size_lem ss, length-append s (tail_text ss))

-- The text of at least one string fits its block exactly.
text_of-cons :
    (s : List ℕ) (ss : List (List ℕ))
    → text_of (s ∷ ss) ≡ some (map some ((b'[' ∷ joined (s ∷ ss)) ++ (b']' ∷ 0 ∷ [])))
unfolding text_of joined put_strings
text_of-cons s ss =
    let m = length (tail_text ss) in
    let open_ : List ℕ = b'[' ∷ [] in
    rw
      (
        put_bytes_lem [] open_ (text_size (s ∷ ss)) (length s + (m + 2))
            (omega (arith, text_size_lem ss)),
        put_bytes_lem open_ s (length s + (m + 2)) (m + 2) refl,
        put_strings_lem (open_ ++ s) ss (m + 2) 2 refl,
      )
      (closing (open_ ++ (s ++ tail_text ss)))
  where
    -- The closing bracket and the zero fill the two cells that are left.
    closing :
        (d : List ℕ)
        → (put_bytes (length d) (b']' ∷ []) (Stage d 2) >>= λ (r, str). write r (some 0 ∷ []) str)
          ≡ some (map some (d ++ (b']' ∷ 0 ∷ [])))
    closing d =
        ap (λ o. o >>= λ (r, str). write r (some 0 ∷ []) str) (put_bytes_lem d (b']' ∷ []) 2 1 refl)
        ∙ write-Stage (d ++ (b']' ∷ [])) (0 ∷ []) 0
        ∙ ap some (
            append-nil (map some ((d ++ (b']' ∷ [])) ++ (0 ∷ [])))
            ∙ ap (map some) (append_assoc d (b']' ∷ []) (0 ∷ [])))

text_of-nil : text_of [] ≡ none
unfolding text_of write
text_of-nil = refl

module _ {ℓ} {A : Type ℓ} (element : A → List ℕ) where
  strings_lem : (xs : List A) → strings element (map some xs) ≡ some (map element xs)
  unfolding strings
  strings_lem [] = refl
  strings_lem (x ∷ xs) = rw (strings_lem xs)

  to_chars-eq-text_of :
      {a : Array A} (xs : List A)
      → Holds a (map some xs)
      → to_chars element a ≡ text_of (map element xs)
  unfolding to_chars
  to_chars-eq-text_of xs v = rw (v.stored, v.len, read_lem [] (map some xs) v.spare, strings_lem xs)

  -- `toChars()` of a valid array with at least one element, all initialised: the strings of the
  -- elements, with commas between them, in brackets, and a terminating zero, which fill the block
  -- that is allocated for them.
  pub to_chars-cons :
      {a : Array A} (x : A) (xs : List A)
      → Holds a (map some (x ∷ xs))
      → to_chars element a
        ≡ some (map some ((b'[' ∷ joined (map element (x ∷ xs))) ++ (b']' ∷ 0 ∷ [])))
  to_chars-cons x xs v = to_chars-eq-text_of (x ∷ xs) v ∙ text_of-cons (element x) (map element xs)

  -- `toChars()` of a valid array with no elements is undefined: it writes behind the block that it
  -- allocates.
  pub to_chars-nil : {a : Array A} → Holds a [] → to_chars element a ≡ none
  to_chars-nil v = to_chars-eq-text_of [] v ∙ text_of-nil
