-- ===== src/Modifiers/Conversion.antt =====
-- `MODimplicitConv` and `MODmethodConv` (compiler/src/dmd/mtype.d) against the data that a
-- reference with a modifier can refer to.
use dmd.Prelude.{
  ℕ, zero, suc, ◌≡◌, refl, sym, ◌∙◌, Bool, true, false, ◌&&◌, ◌||◌, not, ◌↔◌, if◌then◌else◌, same,
  same_sound, arith, ◌==◌, ==_iff, ap,
}
use dmd.Modifiers.{
  Qualifier, mutable, immutable, shared, shared_const, const, shared_wild, wild, shared_wildconst,
  wildconst, bits, mod_implicit_conv, is_wild, is_wild_const, is_shared, mod_method_conv, Match,
  nomatch, convert, constant, exact,
}
use dmd.Modifiers.Predicates.{classify, classify-bits}

-- What a reference can refer to: mutable data and `inout` data, of one thread or shared, and
-- immutable data.
pub data Datum : Type 0 where
  local_mutable shared_mutable local_inout shared_inout immutable_data : Datum

-- The data that a modifier admits.
pub admits : Qualifier → Datum → Bool
admits mutable local_mutable = true
admits immutable immutable_data = true
admits shared shared_mutable = true
admits shared_const shared_mutable = true
admits shared_const shared_inout = true
admits shared_const immutable_data = true
admits const local_mutable = true
admits const local_inout = true
admits const immutable_data = true
admits shared_wild shared_inout = true
admits wild local_inout = true
admits shared_wildconst shared_inout = true
admits shared_wildconst immutable_data = true
admits wildconst local_inout = true
admits wildconst immutable_data = true
admits _ _ = false

abbrev implies : Bool → Bool → Bool
implies true b = b
implies false _ = true

-- Every datum that `p` admits is admitted by `q`.
abbrev included : Qualifier → Qualifier → Bool
included p q =
    implies (admits p local_mutable) (admits q local_mutable)
    && (implies (admits p shared_mutable) (admits q shared_mutable)
        && (implies (admits p local_inout) (admits q local_inout)
            && (implies (admits p shared_inout) (admits q shared_inout)
                && implies (admits p immutable_data) (admits q immutable_data))))

pub conv : Qualifier → Qualifier → Bool
conv p q = mod_implicit_conv (bits p) (bits q)

abbrev pub all_qualifiers : (Qualifier → Bool) → Bool
all_qualifiers t =
    t mutable
    && (t immutable
        && (t shared
            && (t shared_const
                && (t const
                    && (t shared_wild && (t wild && (t shared_wildconst && t wildconst)))))))

pub all_qualifiers_sound :
    (t : Qualifier → Bool) → all_qualifiers t ≡ true → (q : Qualifier) → t q ≡ true
all_qualifiers_sound t h mutable = ground arith
all_qualifiers_sound t h _ = ground arith

pub every_pair :
    (t : Qualifier → Qualifier → Bool)
    → all_qualifiers (λ p. all_qualifiers (t p)) ≡ true
    → (p q : Qualifier) → t p q ≡ true
every_pair t h p q =
    all_qualifiers_sound (t p) (all_qualifiers_sound (λ p'. all_qualifiers (t p')) h p) q

conv_table : all_qualifiers (λ p. all_qualifiers (λ q. same (conv p q) (included p q))) ≡ true
unfolding conv mod_implicit_conv bits admits
conv_table = refl

conv-eq-included : (p q : Qualifier) → conv p q ≡ included p q
conv-eq-included p q =
    same_sound (conv p q) (included p q)
      (every_pair (λ p' q'. same (conv p' q') (included p' q')) conv_table p q)

implies-elim : (a b : Bool) → implies a b ≡ true → a ≡ true → b ≡ true
implies-elim true b h e = h
implies-elim false b h e = cc

included-elim :
    (p q : Qualifier) → included p q ≡ true → (d : Datum) → admits p d ≡ true → admits q d ≡ true
included-elim p q h local_mutable a = ground arith
included-elim p q h _ a = ground arith

implies-intro : (a b : Bool) → (a ≡ true → b ≡ true) → implies a b ≡ true
implies-intro true b h = h refl
implies-intro false b h = refl

and5 :
    (a b c d e : Bool)
    → a ≡ true
    → b ≡ true
    → c ≡ true
    → d ≡ true
    → e ≡ true
    → (a && (b && (c && (d && e)))) ≡ true
and5 a b c d e ha hb hc hd he = rw (ha, hb, hc, hd, he)

included-intro :
    (p q : Qualifier) → ((d : Datum) → admits p d ≡ true → admits q d ≡ true) → included p q ≡ true
included-intro p q h =
    and5 _ _ _ _ _ (implies-intro _ _ (h local_mutable)) (implies-intro _ _ (h shared_mutable))
      (implies-intro _ _ (h local_inout)) (implies-intro _ _ (h shared_inout))
      (implies-intro _ _ (h immutable_data))

-- A modifier of types converts to another exactly if the other admits all the data that it admits.
pub conv-iff-admits :
    (p q : Qualifier)
    → (mod_implicit_conv (bits p) (bits q) ≡ true)
      ↔ ((d : Datum) → admits p d ≡ true → admits q d ≡ true)
unfolding conv
conv-iff-admits p q = (
  λ h. included-elim p q (sym (conv-eq-included p q) ∙ h),
  λ h. conv-eq-included p q ∙ included-intro p q h,
)

abbrev mutual_equal : Qualifier → Qualifier → Bool
mutual_equal p q = implies (conv p q && conv q p) (bits p == bits q)

mutual_table : all_qualifiers (λ p. all_qualifiers (mutual_equal p)) ≡ true
unfolding conv mod_implicit_conv bits
mutual_table = refl

bits-injective : (p q : Qualifier) → bits p ≡ bits q → p ≡ q
bits-injective p q e = sym (classify-bits p) ∙ ap classify e ∙ classify-bits q

-- Implicit conversion of the modifiers of types is transitive, and two modifiers that convert to
-- one another are equal.
pub conv-order :
    (p q r : Qualifier)
    → mod_implicit_conv (bits p) (bits q) ≡ true
    → (mod_implicit_conv (bits q) (bits r) ≡ true → mod_implicit_conv (bits p) (bits r) ≡ true)
      × (mod_implicit_conv (bits q) (bits p) ≡ true → p ≡ q)
unfolding conv
conv-order p q r h = (
  λ k. (conv-iff-admits p r).1 (λ d a. (conv-iff-admits q r).0 k d ((conv-iff-admits p q).0 h d a)),
  λ k. bits-injective p q (
      (==_iff (bits p) (bits q)).0 (
        implies-elim (conv p q && conv q p) (bits p == bits q)
          (every_pair mutual_equal mutual_table p q) (rw (h, k)))),
)

-- The method's `this` is `inout` only, and both sides are shared or neither is.
abbrev pub to_inout : Qualifier → Qualifier → Bool
to_inout p q =
    (is_wild (bits q) && not (is_wild_const (bits q)))
    && same (is_shared (bits p)) (is_shared (bits q))

unrank : ℕ → Match
unrank zero = nomatch
unrank (suc zero) = convert
unrank (suc (suc zero)) = constant
unrank (suc (suc (suc _))) = exact

rank : Match → ℕ
rank nomatch = 0
rank convert = 1
rank constant = 2
rank exact = 3

unrank-rank : (m : Match) → unrank (rank m) ≡ m
unfolding unrank rank
unrank-rank nomatch = refl
unrank-rank _ = refl

abbrev by_inout : Qualifier → Qualifier → Match
by_inout p q =
    if bits p == bits q
    then exact
    else if mod_implicit_conv (bits p) (bits q) || to_inout p q
    then constant
    else nomatch

abbrev method_test : Qualifier → Qualifier → Bool
method_test p q = rank (mod_method_conv (bits p) (bits q)) == rank (by_inout p q)

method_table : all_qualifiers (λ p. all_qualifiers (method_test p)) ≡ true
unfolding rank mod_method_conv mod_implicit_conv bits is_wild is_wild_const is_shared
method_table = refl

-- `MODmethodConv` on the modifiers of types is exact on equal ones; else it is a conversion of
-- const where the modifier converts, or where the method is `inout` without const and both sides
-- agree on `shared`; else there is no match.
pub mod_method_conv_lem :
    (p q : Qualifier)
    → mod_method_conv (bits p) (bits q) ≡ (
        if bits p == bits q
        then exact
        else if mod_implicit_conv (bits p) (bits q) || to_inout p q
        then constant
        else nomatch)
mod_method_conv_lem p q =
    sym (unrank-rank (mod_method_conv (bits p) (bits q)))
    ∙ ap unrank ((==_iff _ _).0 (every_pair method_test method_table p q))
    ∙ unrank-rank (by_inout p q)
