-- ===== src/Array.antt =====
-- `Array<T>` of compiler/include/dmd/root/array.h: the struct and its member functions. A member
-- that changes `*this` returns the new struct; `none` is undefined behaviour (an access out of the
-- allocated cells, overlapping `memcpy`, a read of the inactive union member).
pub mod Memory
pub mod Holds
pub mod Grow
pub mod Insert
pub mod Remove
pub mod Lookup
pub mod Text
mod Tests
use dmd.Prelude.{
  ℕ, zero, suc, ◌+◌, ◌-◌, ◌/◌, ◌%◌, ◌^◌, Bool, true, false, not, Option, none, some, List, [], ◌∷◌,
  ◌++◌, ◌>>=◌, length, take, drop, replicate, map, ltb, leb, ◌==◌, if◌then◌else◌,
}
use Memory.{Cells, xmalloc, xrealloc, read, write, memmove, memcpy_within}

-- `uint32_t` and `size_t` (64 bits) arithmetic.
abbrev pub u32 : ℕ → ℕ
u32 n = n % 2 ^ 32

abbrev pub sub32 : ℕ → ℕ → ℕ
sub32 a b = (a + 2 ^ 32 - b) % 2 ^ 32

abbrev pub sub64 : ℕ → ℕ → ℕ
sub64 a b = (a + 2 ^ 64 - b) % 2 ^ 64

abbrev pub size_max : ℕ
size_max = 2 ^ 64 - 1

-- `SMALLARRAYCAP`
abbrev pub small_array_cap : ℕ
small_array_cap = 1

-- The union of the inline cell and the pointer to a block.
pub data Storage {ℓ} (A : Type ℓ) : Type ℓ where
  smallarray : Option A → Storage A
  ptr : Cells A → Storage A

pub record Array {ℓ} (A : Type ℓ) : Type ℓ where
  pub length : ℕ
  pub allocated : ℕ
  pub storage : Storage A

-- What an `Array *` argument of a member points to: the receiver itself, or another array.
pub data Source {ℓ} (A : Type ℓ) : Type ℓ where
  null : Source A
  this : Source A
  other : Array A → Source A

module _ {ℓ} {A : Type ℓ} where
  small_cells : Storage A → Option (Cells A)
  small_cells (smallarray c) = some (c ∷ [])
  small_cells (ptr b) = none

  ptr_cells : Storage A → Option (Cells A)
  ptr_cells (smallarray c) = none
  ptr_cells (ptr b) = some b

  -- `data()`: the cells that the array stands in.
  pub cells : Array A → Option (Cells A)
  unfolding small_cells ptr_cells
  cells a = if leb a.allocated small_array_cap then small_cells a.storage else ptr_cells a.storage

  -- Cells written back through `data()`.
  store_cells : Storage A → Cells A → Storage A
  store_cells (smallarray c) [] = smallarray c
  store_cells (smallarray _) (c ∷ _) = smallarray c
  store_cells (ptr _) b = ptr b

  pub put_cells : Array A → Cells A → Array A
  unfolding store_cells
  put_cells a b = record a { storage = store_cells a.storage b }

  -- `Array()`
  pub empty : Array A
  empty = record { length = 0; allocated = small_array_cap; storage = smallarray none }

  -- The branch of `reserve` that leaves the inline storage for a block of `n` cells.
  pub leave_small : ℕ → Array A → Option (Array A)
  unfolding small_cells
  leave_small n a = do
    old ← small_cells a.storage
    kept ← read 0 a.length old
    b ← write 0 kept (xmalloc n)
    some (record a { allocated = n; storage = ptr b })

  -- The branch of `reserve` that reallocates the block to `n` cells.
  pub regrow : ℕ → Array A → Option (Array A)
  unfolding ptr_cells
  regrow n a = do
    old ← ptr_cells a.storage
    some (record a { allocated = n; storage = ptr (xrealloc old n) })

  -- The branch of `reserve` for a struct whose bytes are all zero.
  pub from_zero : ℕ → Array A → Array A
  from_zero nentries a =
      if leb nentries small_array_cap
      then record a { allocated = small_array_cap }
      else record a { allocated = u32 nentries; storage = ptr (xmalloc (u32 nentries)) }

  -- Half of the length, or more if that is not enough.
  pub increment : ℕ → Array A → ℕ
  increment nentries a = if ltb (a.length / 2) nentries then u32 nentries else a.length / 2

  -- `reserve(nentries)`; `nentries` is a `size_t`, the fields are 32 bits wide.
  pub reserve : ℕ → Array A → Option (Array A)
  reserve nentries a =
      if not (ltb (sub32 a.allocated a.length) nentries)
      then some a
      else if a.allocated == 0
      then some (from_zero nentries a)
      else if leb a.allocated small_array_cap
      then leave_small (u32 (a.length + nentries)) a
      else regrow (u32 (a.length + increment nentries a)) a

  -- `push(ptr)`
  pub push : A → Array A → Option (Array A)
  unfolding put_cells
  push x a = do
    r ← reserve 1 a
    b ← cells r
    b' ← write r.length (some x ∷ []) b
    some (record (put_cells r b') { length = u32 (r.length + 1) })

  source_length : Source A → Array A → ℕ
  source_length null a = 0
  source_length this a = a.length
  source_length (other s) a = s.length

  -- `memcpy(data() + index, a->data(), d * sizeof(T))` into the cells `b` of `*this`.
  copy_source : Source A → ℕ → ℕ → Cells A → Option (Cells A)
  copy_source null index d b = some b
  copy_source this index d b = memcpy_within index 0 d b
  copy_source (other s) index d b = do from ← cells s; ys ← read 0 d from; write index ys b

  is_null : Source A → Bool
  is_null null = true
  is_null this = false
  is_null (other s) = false

  -- `insert(index, Array *a)`
  pub insert_array : ℕ → Source A → Array A → Option (Array A)
  unfolding put_cells source_length copy_source is_null
  insert_array index s a = if is_null s then some a else inserted (source_length s a)
    where
      inserted : ℕ → Option (Array A)
      inserted d = do
        r ← reserve d a
        b ← cells r
        b' ←
            (if r.length == index
              then some b
              else memmove (index + d) index (sub64 r.length index) b)
        b'' ← copy_source s index d b'
        some (record (put_cells r b'') { length = u32 (r.length + d) })

  -- `append(a)`
  pub append : Source A → Array A → Option (Array A)
  unfolding insert_array
  append s a = insert_array a.length s a

  -- `insert(index, TYPE ptr)`
  pub insert : ℕ → A → Array A → Option (Array A)
  unfolding put_cells
  insert index x a = do
    r ← reserve 1 a
    b ← cells r
    b' ← memmove (index + 1) index (sub64 r.length index) b
    b'' ← write index (some x ∷ []) b'
    some (record (put_cells r b'') { length = u32 (r.length + 1) })

  -- `shift(ptr)`
  pub shift : A → Array A → Option (Array A)
  unfolding put_cells
  shift x a = do
    r ← reserve 1 a
    b ← cells r
    b' ← memmove 1 0 r.length b
    b'' ← write 0 (some x ∷ []) b'
    some (record (put_cells r b'') { length = u32 (r.length + 1) })

  -- `remove(i)`
  pub remove : ℕ → Array A → Option (Array A)
  unfolding put_cells
  remove i a =
      let rest = sub64 (sub64 a.length i) 1 in
      if rest == 0 then some (record a { length = sub32 a.length 1 }) else do
        b ← cells a
        b' ← memmove i (i + 1) rest b
        some (record (put_cells a b') { length = sub32 a.length 1 })

  -- `setDim(newdim)`
  pub set_dim : ℕ → Array A → Option (Array A)
  set_dim newdim a = do
    r ← (if ltb a.length newdim then reserve (sub64 newdim a.length) a else some a)
    some (record r { length = u32 newdim })

  first : Cells A → Option A
  first [] = none
  first (c ∷ _) = c

  -- `operator[]`, without the assertion of debug builds; `none` is also a cell never written.
  pub get : ℕ → Array A → Option A
  unfolding first
  get index a = do b ← cells a; c ← read index 1 b; first c

  -- `pop()`: the value, and the array with one element less.
  pub pop : Array A → Option (A × Array A)
  unfolding get
  pop a = do x ← get (sub32 a.length 1) a; some (x, record a { length = sub32 a.length 1 })

  -- `copy()`
  pub copy : Array A → Option (Array A)
  unfolding set_dim put_cells
  copy a = do
    r ← set_dim a.length empty
    from ← cells a
    ys ← read 0 a.length from
    b ← cells r
    b' ← write 0 ys b
    some (put_cells r b')

  -- `zero()`: `memset` to the value whose bytes are all zero.
  pub clear : A → Array A → Option (Array A)
  unfolding put_cells
  clear zeroed a = do
    b ← cells a
    b' ← write 0 (replicate a.length (some zeroed)) b
    some (put_cells a b')

  -- The loop of `find`, over the elements from index `i` on.
  find_from : (A → A → Bool) → A → ℕ → Cells A → Option ℕ
  find_from eq x i [] = some size_max
  find_from eq x i (none ∷ _) = none
  find_from eq x i (some y ∷ ys) =
      let rest = find_from eq x (i + 1) ys in if eq y x then some i else rest

  -- `find(ptr)`, by the `==` of the element type.
  pub find : (A → A → Bool) → A → Array A → Option ℕ
  unfolding find_from
  find eq x a = do b ← cells a; ys ← read 0 a.length b; find_from eq x 0 ys

  -- `contains(ptr)`
  pub contains : (A → A → Bool) → A → Array A → Option Bool
  unfolding find
  contains eq x a = do i ← find eq x a; some (not (i == size_max))

  -- The elements' strings, as `toChars` collects them in `buf`: none if a cell is not initialised.
  strings : (A → List ℕ) → Cells A → Option (List (List ℕ))
  strings to_chars [] = some []
  strings to_chars (none ∷ _) = none
  strings to_chars (some x ∷ xs) = do ss ← strings to_chars xs; some (to_chars x ∷ ss)

-- `len` of `toChars`: two, and for each string its length and one more.
text_size : List (List ℕ) → ℕ
text_size [] = 2
text_size (s ∷ ss) = length s + 1 + text_size ss

-- `*p++ = ch` and `memcpy(p, s, strlen(s))`, at the position `p` of the text.
put_bytes : ℕ → List ℕ → Cells ℕ → Option (ℕ × Cells ℕ)
put_bytes p s str = do str' ← write p (map some s) str; some (p + length s, str')

-- The second loop of `toChars`; a comma stands in front of each string but the first.
put_strings : Bool → ℕ → List (List ℕ) → Cells ℕ → Option (ℕ × Cells ℕ)
unfolding put_bytes
put_strings first p [] str = some (p, str)
put_strings first p (s ∷ ss) str =
    (if first then some (p, str) else put_bytes p (b',' ∷ []) str) >>= λ (q, str1).
    put_bytes q s str1 >>= λ (r, str2). put_strings false r ss str2

-- The text of `toChars`: a bracket, the strings with commas, a bracket and the terminating zero, in
-- a block of `text_size` cells.
text_of : List (List ℕ) → Option (Cells ℕ)
unfolding text_size put_strings put_bytes
text_of ss = put_bytes 0 (b'[' ∷ []) (xmalloc (text_size ss)) >>= λ (p, str).
    put_strings true p ss str >>= λ (q, str1).
    put_bytes q (b']' ∷ []) str1 >>= λ (r, str2). write r (some 0 ∷ []) str2

-- `toChars()`, with the `toChars` of the elements as an argument.
pub to_chars {ℓ} : {A : Type ℓ} → (A → List ℕ) → Array A → Option (Cells ℕ)
unfolding strings text_of
to_chars element a = do b ← cells a; ys ← read 0 a.length b; ss ← strings element ys; text_of ss
