-- ===== src/Declaration/Scopes.antt =====
-- The storage classes of a scope inside `StorageClassDeclaration`s: `NewScopeVisitor` of
-- compiler/src/dmd/dsymbolsem.d, on the field `stc` of the scope.
pub mod Exclusive
use dmd.Prelude.{Bool, true, false, if◌then◌else◌, List, [], ◌∷◌}
use dmd.Declaration.Storage.{
  Stc, StorageClass, join, meets, without, safe_group, auto_, scope_, static_, extern_, manifest,
  gshared, const_, immutable_, shared_,
}

-- The sets of storage classes that are mutually exclusive; `safe_group` is another.
abbrev pub extern_set : List Stc
extern_set = auto_ ∷ scope_ ∷ static_ ∷ extern_ ∷ manifest ∷ []

abbrev pub gshared_set : List Stc
gshared_set = auto_ ∷ scope_ ∷ static_ ∷ manifest ∷ gshared ∷ []

abbrev pub const_set : List Stc
const_set = const_ ∷ immutable_ ∷ manifest ∷ []

abbrev pub shared_set : List Stc
shared_set = gshared ∷ shared_ ∷ []

-- `if (stc & group) scstc &= ~group`
unfoldable pub clear : List Stc → StorageClass → StorageClass → StorageClass
unfolding meets without
clear group stc scstc = if meets stc group then without group scstc else scstc

-- The storage class of the new scope: `visit(StorageClassDeclaration)`.
unfoldable pub new_scope : StorageClass → StorageClass → StorageClass
unfolding clear join
new_scope scstc stc =
    let scstc1 = clear extern_set stc scstc in
    let scstc2 = clear gshared_set stc scstc1 in
    let scstc3 = clear const_set stc scstc2 in
    let scstc4 = clear shared_set stc scstc3 in
    let scstc5 = clear safe_group stc scstc4 in join scstc5 stc

-- Declarations inside one another, the outermost first.
unfoldable pub nested_scope : StorageClass → List StorageClass → StorageClass
unfolding new_scope
nested_scope scstc [] = scstc
nested_scope scstc (stc ∷ stcs) = nested_scope (new_scope scstc stc) stcs
