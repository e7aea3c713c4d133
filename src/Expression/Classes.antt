-- ===== src/Expression/Classes.antt =====
-- The classes derived from `Expression` (compiler/include/dmd/visitor.h), told apart.
use dmd.Prelude.{
  ℕ, ◌==◌, ==_iff, get_elem?, Bool, true, Option, some, List, [], ◌∷◌, ◌≡◌, refl, sym, ap, ◌∙◌,
}
use dmd.Visitor.Expressions.{
  ExpressionClass, expression, declaration_exp, integer_exp, new_anon_class_exp, is_exp, real_exp,
  null_exp, typeid_exp, traits_exp, string_exp, interp_exp, new_exp, assoc_array_literal_exp,
  array_literal_exp, mixin_exp, func_exp, interval_exp, type_exp, scope_exp, identifier_exp,
  una_exp, default_init_exp, bin_exp, dsymbol_exp, template_exp, symbol_exp, tuple_exp, this_exp,
  generic_exp, var_exp, dollar_exp, super_exp, addr_exp, pre_exp, ptr_exp, neg_exp, u_add_exp,
  not_exp, com_exp, delete_exp, cast_exp, call_exp, dot_id_exp, assert_exp, throw_exp, import_exp,
  dot_template_instance_exp, array_exp, comma_exp, post_exp, pow_exp, mul_exp, div_exp, mod_exp,
  add_exp, min_exp, cat_exp, shl_exp, shr_exp, ushr_exp, equal_exp, in_exp, identity_exp, cmp_exp,
  and_exp, xor_exp, or_exp, logical_exp, cond_exp, assign_exp, bin_assign_exp, add_assign_exp,
  min_assign_exp, mul_assign_exp, div_assign_exp, mod_assign_exp, pow_assign_exp, and_assign_exp,
  or_assign_exp, xor_assign_exp, shl_assign_exp, shr_assign_exp, ushr_assign_exp, cat_assign_exp,
  cat_elem_assign_exp, cat_dchar_assign_exp, error_exp, complex_exp, struct_literal_exp,
  compound_literal_exp, objc_class_reference_exp, sym_off_exp, over_exp, halt_exp, dot_template_exp,
  dot_var_exp, delegate_exp, dot_type_exp, vector_exp, vector_array_exp, slice_exp,
  array_length_exp, delegate_ptr_exp, delegate_funcptr_exp, dot_exp, index_exp, construct_exp,
  blit_exp, remove_exp, class_reference_exp, void_init_exp, thrown_exception_exp,
  lowered_assign_exp,
}

-- A number for each class, to tell them apart.
unfoldable pub class_number : ExpressionClass → ℕ
class_number expression = 0
class_number declaration_exp = 1
class_number integer_exp = 2
class_number new_anon_class_exp = 3
class_number is_exp = 4
class_number real_exp = 5
class_number null_exp = 6
class_number typeid_exp = 7
class_number traits_exp = 8
class_number string_exp = 9
class_number interp_exp = 10
class_number new_exp = 11
class_number assoc_array_literal_exp = 12
class_number array_literal_exp = 13
class_number mixin_exp = 14
class_number func_exp = 15
class_number interval_exp = 16
class_number type_exp = 17
class_number scope_exp = 18
class_number identifier_exp = 19
class_number una_exp = 20
class_number default_init_exp = 21
class_number bin_exp = 22
class_number dsymbol_exp = 23
class_number template_exp = 24
class_number symbol_exp = 25
class_number tuple_exp = 26
class_number this_exp = 27
class_number generic_exp = 28
class_number var_exp = 29
class_number dollar_exp = 30
class_number super_exp = 31
class_number addr_exp = 32
class_number pre_exp = 33
class_number ptr_exp = 34
class_number neg_exp = 35
class_number u_add_exp = 36
class_number not_exp = 37
class_number com_exp = 38
class_number delete_exp = 39
class_number cast_exp = 40
class_number call_exp = 41
class_number dot_id_exp = 42
class_number assert_exp = 43
class_number throw_exp = 44
class_number import_exp = 45
class_number dot_template_instance_exp = 46
class_number array_exp = 47
class_number comma_exp = 48
class_number post_exp = 49
class_number pow_exp = 50
class_number mul_exp = 51
class_number div_exp = 52
class_number mod_exp = 53
class_number add_exp = 54
class_number min_exp = 55
class_number cat_exp = 56
class_number shl_exp = 57
class_number shr_exp = 58
class_number ushr_exp = 59
class_number equal_exp = 60
class_number in_exp = 61
class_number identity_exp = 62
class_number cmp_exp = 63
class_number and_exp = 64
class_number xor_exp = 65
class_number or_exp = 66
class_number logical_exp = 67
class_number cond_exp = 68
class_number assign_exp = 69
class_number bin_assign_exp = 70
class_number add_assign_exp = 71
class_number min_assign_exp = 72
class_number mul_assign_exp = 73
class_number div_assign_exp = 74
class_number mod_assign_exp = 75
class_number pow_assign_exp = 76
class_number and_assign_exp = 77
class_number or_assign_exp = 78
class_number xor_assign_exp = 79
class_number shl_assign_exp = 80
class_number shr_assign_exp = 81
class_number ushr_assign_exp = 82
class_number cat_assign_exp = 83
class_number cat_elem_assign_exp = 84
class_number cat_dchar_assign_exp = 85
class_number error_exp = 86
class_number complex_exp = 87
class_number struct_literal_exp = 88
class_number compound_literal_exp = 89
class_number objc_class_reference_exp = 90
class_number sym_off_exp = 91
class_number over_exp = 92
class_number halt_exp = 93
class_number dot_template_exp = 94
class_number dot_var_exp = 95
class_number delegate_exp = 96
class_number dot_type_exp = 97
class_number vector_exp = 98
class_number vector_array_exp = 99
class_number slice_exp = 100
class_number array_length_exp = 101
class_number delegate_ptr_exp = 102
class_number delegate_funcptr_exp = 103
class_number dot_exp = 104
class_number index_exp = 105
class_number construct_exp = 106
class_number blit_exp = 107
class_number remove_exp = 108
class_number class_reference_exp = 109
class_number void_init_exp = 110
class_number thrown_exception_exp = 111
class_number lowered_assign_exp = 112

abbrev classes : List ExpressionClass
classes =
    expression ∷ declaration_exp ∷ integer_exp ∷ new_anon_class_exp ∷ is_exp ∷ real_exp ∷ null_exp
    ∷ typeid_exp ∷ traits_exp ∷ string_exp ∷ interp_exp ∷ new_exp ∷ assoc_array_literal_exp
    ∷ array_literal_exp ∷ mixin_exp ∷ func_exp ∷ interval_exp ∷ type_exp ∷ scope_exp
    ∷ identifier_exp ∷ una_exp ∷ default_init_exp ∷ bin_exp ∷ dsymbol_exp ∷ template_exp
    ∷ symbol_exp ∷ tuple_exp ∷ this_exp ∷ generic_exp ∷ var_exp ∷ dollar_exp ∷ super_exp ∷ addr_exp
    ∷ pre_exp ∷ ptr_exp ∷ neg_exp ∷ u_add_exp ∷ not_exp ∷ com_exp ∷ delete_exp ∷ cast_exp ∷ call_exp
    ∷ dot_id_exp ∷ assert_exp ∷ throw_exp ∷ import_exp ∷ dot_template_instance_exp ∷ array_exp
    ∷ comma_exp ∷ post_exp ∷ pow_exp ∷ mul_exp ∷ div_exp ∷ mod_exp ∷ add_exp ∷ min_exp ∷ cat_exp
    ∷ shl_exp ∷ shr_exp ∷ ushr_exp ∷ equal_exp ∷ in_exp ∷ identity_exp ∷ cmp_exp ∷ and_exp ∷ xor_exp
    ∷ or_exp ∷ logical_exp ∷ cond_exp ∷ assign_exp ∷ bin_assign_exp ∷ add_assign_exp
    ∷ min_assign_exp ∷ mul_assign_exp ∷ div_assign_exp ∷ mod_assign_exp ∷ pow_assign_exp
    ∷ and_assign_exp ∷ or_assign_exp ∷ xor_assign_exp ∷ shl_assign_exp ∷ shr_assign_exp
    ∷ ushr_assign_exp ∷ cat_assign_exp ∷ cat_elem_assign_exp ∷ cat_dchar_assign_exp ∷ error_exp
    ∷ complex_exp ∷ struct_literal_exp ∷ compound_literal_exp ∷ objc_class_reference_exp
    ∷ sym_off_exp ∷ over_exp ∷ halt_exp ∷ dot_template_exp ∷ dot_var_exp ∷ delegate_exp
    ∷ dot_type_exp ∷ vector_exp ∷ vector_array_exp ∷ slice_exp ∷ array_length_exp ∷ delegate_ptr_exp
    ∷ delegate_funcptr_exp ∷ dot_exp ∷ index_exp ∷ construct_exp ∷ blit_exp ∷ remove_exp
    ∷ class_reference_exp ∷ void_init_exp ∷ thrown_exception_exp ∷ lowered_assign_exp ∷ []

class_number-classes : (c : ExpressionClass) → get_elem? classes (class_number c) ≡ some c
unfolding class_number
class_number-classes expression = refl
class_number-classes _ = refl

-- Equality of classes.
unfoldable pub same_class : ExpressionClass → ExpressionClass → Bool
same_class a b = class_number a == class_number b

pub same_class_sound : (a b : ExpressionClass) → same_class a b ≡ true → a ≡ b
unfolding same_class
same_class_sound a b h = some_inj a b (
    sym (class_number-classes a)
    ∙ ap (get_elem? classes) ((==_iff _ _).0 h)
    ∙ class_number-classes b)
  where
    some_inj : (a b : ExpressionClass) → ◌≡◌ {A = Option ExpressionClass} (some a) (some b) → a ≡ b
    some_inj a b h = cc

pub same_class_self : (a : ExpressionClass) → same_class a a ≡ true
unfolding same_class
same_class_self a = (==_iff (class_number a) (class_number a)).1 refl
