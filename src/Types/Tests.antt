-- ===== src/Types/Tests.antt =====
-- Examples of what is asked of types (compiler/include/dmd/mtype.h).
use dmd.Prelude.{true, false, ◌&&◌, not, ◌≡◌, refl}
use dmd.Types.Tree.{TypeNode, the_type, enum_declaration, type_enum, type_sarray}
use dmd.Types.Base.{int32, to_basetype, next_of, base_elem_of, is_sarray}
use dmd.Types.Base.Elements.{elem_round, to_basetype_lem, base_elem_of_lem}
use dmd.Types.Flags.{is_ref, get_flag, set_flag, copy_flags, set, shift}
use dmd.Types.Flags.Accessors.{is_incomplete, get_flag-copy_flags}

-- `int[4]`
abbrev four : TypeNode
four = type_sarray int32 (record { dim = 4 })

-- An enumeration whose base type is `int[4][4]`.
abbrev grid : TypeNode
grid = type_enum (
    enum_declaration (record { is_anonymous = false; has_members = true; semantic_done = true })
      (the_type (type_sarray four (record { dim = 4 }))))

grid-run : base_elem_of grid ≡ int32
unfolding base_elem_of
grid-run = refl

to_basetype_lem_example :
    (to_basetype (to_basetype grid) ≡ to_basetype grid)
    × (next_of (to_basetype grid) ≡ next_of grid)
to_basetype_lem_example = to_basetype_lem grid

base_elem_of_lem_example :
    (base_elem_of grid ≡ elem_round (to_basetype grid))
    × (to_basetype (base_elem_of grid) ≡ base_elem_of grid)
    × (is_sarray (base_elem_of grid) ≡ false)
base_elem_of_lem_example = base_elem_of_lem grid

set_flag-run : set_flag is_ref true 0x0001 ≡ 0x0009
unfolding set_flag set shift
set_flag-run = refl

get_flag-copy_flags_example :
    get_flag is_ref (copy_flags 0x0209) ≡ (not (is_incomplete is_ref) && get_flag is_ref 0x0209)
get_flag-copy_flags_example = get_flag-copy_flags is_ref 0x0209
