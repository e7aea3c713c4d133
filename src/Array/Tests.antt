-- ===== src/Array/Tests.antt =====
-- Runs of `Array<T>` (compiler/include/dmd/root/array.h) on small arrays, and examples of what is
-- proved of it.
use dmd.Prelude.{
  ℕ, ◌+◌, ◌<◌, ◌≡◌, ◌≢◌, refl, true, false, none, some, List, [], ◌∷◌, replicate, ◌==◌, ◌⊎◌, arith,
}
use dmd.Array.{
  Array, smallarray, ptr, null, this, other, cells, empty, reserve, push, insert_array, insert,
  remove, clear, find, to_chars, size_max, regrow, increment, leave_small,
}
use dmd.Array.Memory.{Cells, read, write}
use dmd.Array.Holds.{Holds, empty-Holds}
use dmd.Array.Grow.{Reserved, reserve-Reserved}
use dmd.Array.Insert.{insert-Holds, insert_array-Holds, insert_this-undefined}
use dmd.Array.Remove.{remove-Holds, clear-Holds}
use dmd.Array.Lookup.{any, FirstAt, find_lem}
use dmd.Array.Text.{to_chars-nil}

-- Two elements in a block of two cells.
abbrev pair : Array ℕ
pair = record { length = 2; allocated = 2; storage = ptr (some 7 ∷ some 9 ∷ []) }

abbrev pair_cells : Cells ℕ
pair_cells = some 7 ∷ some 9 ∷ []

pair-Holds : Holds pair pair_cells
unfolding cells
pair-Holds = record {
  spare = [];
  stored = refl;
  len = refl;
  cap = omega arith;
  room = omega arith;
  word = omega arith;
}

-- One element in the inline cell.
abbrev single : Array ℕ
single = record { length = 1; allocated = 1; storage = smallarray (some 5) }

single-Holds : Holds single (some 5 ∷ [])
unfolding cells
single-Holds = record {
  spare = [];
  stored = refl;
  len = refl;
  cap = omega arith;
  room = omega arith;
  word = omega arith;
}

abbrev digit : ℕ → List ℕ
digit n = (48 + n) ∷ []

-- The second element of a full block of two makes a block of three.
push-run :
    push 5 pair
    ≡ some record { length = 3; allocated = 3; storage = ptr (some 7 ∷ some 9 ∷ some 5 ∷ []) }
unfolding push reserve regrow cells increment write
push-run = refl

push_small-run :
    push 6 single ≡ some record { length = 2; allocated = 2; storage = ptr (some 5 ∷ some 6 ∷ []) }
unfolding push reserve leave_small read write cells
push_small-run = refl

null-run : insert_array 1 null pair ≡ some pair
unfolding insert_array
null-run = refl

find-run : find ◌==◌ 8 pair ≡ some size_max
unfolding find cells read
find-run = refl

reserve-Reserved_example : (r : Array ℕ) × (reserve 3 pair ≡ some r) × Reserved 3 pair pair_cells r
reserve-Reserved_example = reserve-Reserved 3 pair-Holds (omega arith)

insert_array-Holds_example :
    (r : Array ℕ) × (insert_array 1 (other single) pair ≡ some r)
    × Holds r (some 7 ∷ some 5 ∷ some 9 ∷ [])
insert_array-Holds_example =
    insert_array-Holds (some 7 ∷ []) (some 9 ∷ []) pair-Holds single-Holds (omega arith)

insert-Holds_example :
    (r : Array ℕ) × (insert 1 8 pair ≡ some r) × Holds r (some 7 ∷ some 8 ∷ some 9 ∷ [])
insert-Holds_example = insert-Holds (some 7 ∷ []) (some 9 ∷ []) 8 pair-Holds (omega arith)

not_nil : ◌≢◌ {A = Cells ℕ} (some 9 ∷ []) []
not_nil e = cc

insert_this-undefined_example : insert_array 1 this pair ≡ none
insert_this-undefined_example = insert_this-undefined (some 7 ∷ []) (some 9 ∷ []) pair-Holds not_nil

remove-Holds_example : (r : Array ℕ) × (remove 0 pair ≡ some r) × Holds r (some 9 ∷ [])
remove-Holds_example = remove-Holds [] (some 9 ∷ []) (some 7) pair-Holds

clear-Holds_example : (r : Array ℕ) × (clear 0 pair ≡ some r) × Holds r (replicate 2 (some 0))
clear-Holds_example = clear-Holds 0 pair-Holds

find_lem_example :
    (i : ℕ) × (find ◌==◌ 9 pair ≡ some i)
    × (((any (λ y. y == 9) (7 ∷ 9 ∷ []) ≡ true) × (i < 2) × FirstAt (λ y. y == 9) (7 ∷ 9 ∷ []) i)
        ⊎ ((any (λ y. y == 9) (7 ∷ 9 ∷ []) ≡ false) × (i ≡ size_max)))
find_lem_example = find_lem ◌==◌ 9 (7 ∷ 9 ∷ []) pair-Holds

to_chars-nil_example : to_chars digit empty ≡ none
to_chars-nil_example = to_chars-nil digit empty-Holds
