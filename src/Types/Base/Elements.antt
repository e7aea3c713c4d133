-- ===== src/Types/Base/Elements.antt =====
-- What `toBasetype`, `nextOf` and `baseElemOf` of compiler/src/dmd/typesem.d give: a type that is
-- no longer a shell around another.
use dmd.Prelude.{false, ◌≡◌, refl, arith}
use dmd.Types.Tree.{
  TypeNode, EnumDeclaration, no_type, the_type, enum_declaration, type_error, type_sarray,
  type_enum,
}
use dmd.Types.Base.{
  to_basetype, to_basetype2, next_of, next_of_memtype, base_elem_of, base_elem_of_enum, is_sarray,
  default_memtype,
}

mutual
  unfolding to_basetype default_memtype

  basetype-base : (t : TypeNode) → to_basetype (to_basetype t) ≡ to_basetype t
  basetype-base (type_enum e) = basetype2-base e
  basetype-base type_error = refl
  basetype-base _ = refl

  basetype2-base : (e : EnumDeclaration) → to_basetype (to_basetype2 e) ≡ to_basetype2 e
  basetype2-base (enum_declaration e no_type) = ground arith
  basetype2-base (enum_declaration e (the_type t)) = basetype-base t

mutual
  unfolding to_basetype next_of default_memtype

  basetype-next : (t : TypeNode) → next_of (to_basetype t) ≡ next_of t
  basetype-next (type_enum e) = basetype2-next e
  basetype-next type_error = refl
  basetype-next _ = refl

  basetype2-next : (e : EnumDeclaration) → next_of (to_basetype2 e) ≡ next_of_memtype e
  basetype2-next (enum_declaration e no_type) = ground arith
  basetype2-next (enum_declaration e (the_type t)) = basetype-next t

-- One round of the loop of `baseElemOf`: an element type of a static array is looked at again.
abbrev pub elem_round : TypeNode → TypeNode
elem_round (type_sarray n _) = base_elem_of n
elem_round t = t

mutual
  unfolding to_basetype base_elem_of default_memtype

  elem-loop : (t : TypeNode) → base_elem_of t ≡ elem_round (to_basetype t)
  elem-loop (type_enum e) = elem_enum-loop e
  elem-loop type_error = refl
  elem-loop _ = refl

  elem_enum-loop : (e : EnumDeclaration) → base_elem_of_enum e ≡ elem_round (to_basetype2 e)
  elem_enum-loop (enum_declaration e no_type) = ground arith
  elem_enum-loop (enum_declaration e (the_type t)) = elem-loop t

abbrev IsElement : TypeNode → Type 0
IsElement t = (to_basetype t ≡ t) × (is_sarray t ≡ false)

mutual
  unfolding base_elem_of default_memtype to_basetype is_sarray

  elem-IsElement : (t : TypeNode) → IsElement (base_elem_of t)
  elem-IsElement (type_sarray n _) = elem-IsElement n
  elem-IsElement (type_enum e) = elem_enum-IsElement e
  elem-IsElement type_error = (refl, refl)
  elem-IsElement _ = (refl, refl)

  elem_enum-IsElement : (e : EnumDeclaration) → IsElement (base_elem_of_enum e)
  elem_enum-IsElement (enum_declaration e no_type) = ground arith
  elem_enum-IsElement (enum_declaration e (the_type t)) = elem-IsElement t

-- The base type of a type is its own base type, and has the same next type.
pub to_basetype_lem :
    (t : TypeNode)
    → (to_basetype (to_basetype t) ≡ to_basetype t) × (next_of (to_basetype t) ≡ next_of t)
to_basetype_lem t = (basetype-base t, basetype-next t)

-- The base element type satisfies the loop's equation: the base type of the type, or the base
-- element type of its elements if that is a static array. It is its own base type and no static
-- array.
pub base_elem_of_lem :
    (t : TypeNode)
    → (base_elem_of t ≡ elem_round (to_basetype t))
      × (to_basetype (base_elem_of t) ≡ base_elem_of t)
      × (is_sarray (base_elem_of t) ≡ false)
base_elem_of_lem t = let (b, n) = elem-IsElement t in (elem-loop t, b, n)
