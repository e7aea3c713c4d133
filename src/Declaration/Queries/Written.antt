-- ===== src/Declaration/Queries/Written.antt =====
-- What a declaration answers after the parser has read its keywords.
use dmd.Prelude.{Bool, true, false, ◌||◌, ◌≡◌, refl, ◌∙◌, arith, List, [], ◌∷◌}
use dmd.Declaration.Storage.{Stc, StorageClass, stc_value, only, join, meets}
use dmd.Declaration.Parse.{append_storage_class}
use dmd.Declaration.Parse.Tokens.{
  Token, const_, immutable_, inout_, static_, final_, auto_, scope_, override_, abstract_,
  synchronized_, deprecated_, ref_, next_is_ref, stc_of, parse_storage_classes,
}
use dmd.Declaration.Queries.{
  Declaration, with_storage_class, Test, tested, answer, is_static, is_final, is_abstract, is_const,
  is_immutable, is_wild, is_auto, is_scope, is_synchronized, is_deprecated, is_override, is_ref,
  is_reference,
}

-- The keyword that makes a declaration pass a test; for the tests of flags that semantic analysis
-- or a parameter list sets, there is none.
unfoldable pub spells : Test → Token → Bool
spells is_static static_ = true
spells is_final final_ = true
spells is_abstract abstract_ = true
spells is_const const_ = true
spells is_immutable immutable_ = true
spells is_wild inout_ = true
spells is_auto auto_ = true
spells is_scope scope_ = true
spells is_synchronized synchronized_ = true
spells is_deprecated deprecated_ = true
spells is_override override_ = true
spells is_ref ref_ = true
spells is_reference ref_ = true
spells _ _ = false

unfoldable pub mentions : Test → List Token → Bool
unfolding spells
mentions test [] = false
mentions test (t ∷ tokens) = spells test t || mentions test tokens

tested-stc_of :
    (test : Test) (t : Token) (before_ref : Bool)
    → meets (stc_of t before_ref) (tested test) ≡ spells test t
unfolding meets stc_of tested spells only stc_value
tested-stc_of is_static auto_ true = refl
tested-stc_of _ auto_ true = refl
tested-stc_of _ auto_ false = refl
tested-stc_of _ _ _ = refl

meets-join :
    (a b : StorageClass) (flags : List Stc)
    → meets (join a b) flags ≡ (meets a flags || meets b flags)
unfolding meets join
meets-join a b [] = refl
meets-join a b (s ∷ flags) = ground (arith, meets-join a b flags)

or_step : (a b c e t : Bool) → b ≡ (a || e) → e ≡ t → (b || c) ≡ (a || (t || c))
or_step a b c e t h k = ground arith

meets-parse_storage_classes :
    (preview_in : Bool) (a : StorageClass) (tokens : List Token) (test : Test)
    → meets (parse_storage_classes preview_in a tokens).0 (tested test)
      ≡ (meets a (tested test) || mentions test tokens)
unfolding parse_storage_classes append_storage_class mentions
meets-parse_storage_classes p a [] test = ground arith
meets-parse_storage_classes p a (t ∷ tokens) test =
    let b = stc_of t (next_is_ref tokens) in
    meets-parse_storage_classes p (join a b) tokens test
    ∙ or_step (meets a (tested test)) (meets (join a b) (tested test)) (mentions test tokens)
        (meets b (tested test)) (spells test t) (meets-join a b (tested test))
        (tested-stc_of test t (next_is_ref tokens))

-- A declaration whose keywords the parser has read, with complaints or without, passes a test
-- exactly if it did before, or the keyword that the test is named for is among them: `const` for
-- `isConst`, `inout` for `isWild`, `ref` for `isRef` and `isReference`, and so on; no keyword makes
-- it pass `isReturn`, `isParameter`, `isResult`, `isField`, `isIn`, `isOut` or `isFuture`.
pub answer-parse_storage_classes :
    (preview_in : Bool) (d : Declaration) (tokens : List Token) (test : Test)
    → answer test (with_storage_class (parse_storage_classes preview_in d.storage_class tokens).0 d)
      ≡ (answer test d || mentions test tokens)
unfolding answer
answer-parse_storage_classes p d tokens test =
    meets-parse_storage_classes p d.storage_class tokens test
