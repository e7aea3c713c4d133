-- ===== src/Expression/Op.antt =====
-- `EXP` of compiler/include/dmd/tokens.h: the operators of expressions, with their values.
use dmd.Prelude.{
  ℕ, Bool, true, ◌≡◌, refl, sym, ap, ◌∙◌, Option, some, List, [], ◌∷◌, get_elem?, ◌==◌, ==_iff,
}

pub data Exp : Type 0 where
  reserved negate cast_ null_ assert_ array call address type throw_ new_ delete_ star symbol_offset
        variable dot_variable dot_identifier dot_template_instance dot_type slice array_length
        dollar template_ dot_template_declaration declaration d_symbol typeid_ uadd remove
        new_anonymous_class array_literal assoc_array_literal struct_literal class_reference
        thrown_exception delegate_pointer delegate_function_pointer less_than greater_than
        less_or_equal greater_or_equal equal not_equal identity not_identity index is_ left_shift
        right_shift left_shift_assign right_shift_assign unsigned_right_shift
        unsigned_right_shift_assign concatenate concatenate_assign concatenate_elem_assign
        concatenate_dchar_assign add min add_assign min_assign mul div mod_ mul_assign div_assign
        mod_assign and_ or_ xor_ and_assign or_assign xor_assign assign not_ tilde plus_plus
        minus_minus construct blit dot comma question and_and or_or pre_plus_plus pre_minus_minus
        identifier string_ interpolated this_ super_ halt tuple error void_ int64 float64 complex80
        import_ delegate_ function_ mixin_ in_ break_ continue_ goto_ scope_ traits overload_set
        default_init pow pow_assign vector void_expression cant_expression show_ctfe_context
        objc_class_reference vector_array compound_literal generic interval lowered_assign_exp
        rvalue :
      Exp

-- The value of an operator: its place in the enumeration.
unfoldable pub value : Exp → ℕ
value reserved = 0
value negate = 1
value cast_ = 2
value null_ = 3
value assert_ = 4
value array = 5
value call = 6
value address = 7
value type = 8
value throw_ = 9
value new_ = 10
value delete_ = 11
value star = 12
value symbol_offset = 13
value variable = 14
value dot_variable = 15
value dot_identifier = 16
value dot_template_instance = 17
value dot_type = 18
value slice = 19
value array_length = 20
value dollar = 21
value template_ = 22
value dot_template_declaration = 23
value declaration = 24
value d_symbol = 25
value typeid_ = 26
value uadd = 27
value remove = 28
value new_anonymous_class = 29
value array_literal = 30
value assoc_array_literal = 31
value struct_literal = 32
value class_reference = 33
value thrown_exception = 34
value delegate_pointer = 35
value delegate_function_pointer = 36
value less_than = 37
value greater_than = 38
value less_or_equal = 39
value greater_or_equal = 40
value equal = 41
value not_equal = 42
value identity = 43
value not_identity = 44
value index = 45
value is_ = 46
value left_shift = 47
value right_shift = 48
value left_shift_assign = 49
value right_shift_assign = 50
value unsigned_right_shift = 51
value unsigned_right_shift_assign = 52
value concatenate = 53
value concatenate_assign = 54
value concatenate_elem_assign = 55
value concatenate_dchar_assign = 56
value add = 57
value min = 58
value add_assign = 59
value min_assign = 60
value mul = 61
value div = 62
value mod_ = 63
value mul_assign = 64
value div_assign = 65
value mod_assign = 66
value and_ = 67
value or_ = 68
value xor_ = 69
value and_assign = 70
value or_assign = 71
value xor_assign = 72
value assign = 73
value not_ = 74
value tilde = 75
value plus_plus = 76
value minus_minus = 77
value construct = 78
value blit = 79
value dot = 80
value comma = 81
value question = 82
value and_and = 83
value or_or = 84
value pre_plus_plus = 85
value pre_minus_minus = 86
value identifier = 87
value string_ = 88
value interpolated = 89
value this_ = 90
value super_ = 91
value halt = 92
value tuple = 93
value error = 94
value void_ = 95
value int64 = 96
value float64 = 97
value complex80 = 98
value import_ = 99
value delegate_ = 100
value function_ = 101
value mixin_ = 102
value in_ = 103
value break_ = 104
value continue_ = 105
value goto_ = 106
value scope_ = 107
value traits = 108
value overload_set = 109
value default_init = 110
value pow = 111
value pow_assign = 112
value vector = 113
value void_expression = 114
value cant_expression = 115
value show_ctfe_context = 116
value objc_class_reference = 117
value vector_array = 118
value compound_literal = 119
value generic = 120
value interval = 121
value lowered_assign_exp = 122
value rvalue = 123

-- `a == b` of two operators.
unfoldable pub same_op : Exp → Exp → Bool
unfolding value
same_op a b = value a == value b

-- The operators in order.
abbrev members : List Exp
members =
    reserved ∷ negate ∷ cast_ ∷ null_ ∷ assert_ ∷ array ∷ call ∷ address ∷ type ∷ throw_ ∷ new_
    ∷ delete_ ∷ star ∷ symbol_offset ∷ variable ∷ dot_variable ∷ dot_identifier
    ∷ dot_template_instance ∷ dot_type ∷ slice ∷ array_length ∷ dollar ∷ template_
    ∷ dot_template_declaration ∷ declaration ∷ d_symbol ∷ typeid_ ∷ uadd ∷ remove
    ∷ new_anonymous_class ∷ array_literal ∷ assoc_array_literal ∷ struct_literal ∷ class_reference
    ∷ thrown_exception ∷ delegate_pointer ∷ delegate_function_pointer ∷ less_than ∷ greater_than
    ∷ less_or_equal ∷ greater_or_equal ∷ equal ∷ not_equal ∷ identity ∷ not_identity ∷ index ∷ is_
    ∷ left_shift ∷ right_shift ∷ left_shift_assign ∷ right_shift_assign ∷ unsigned_right_shift
    ∷ unsigned_right_shift_assign ∷ concatenate ∷ concatenate_assign ∷ concatenate_elem_assign
    ∷ concatenate_dchar_assign ∷ add ∷ min ∷ add_assign ∷ min_assign ∷ mul ∷ div ∷ mod_ ∷ mul_assign
    ∷ div_assign ∷ mod_assign ∷ and_ ∷ or_ ∷ xor_ ∷ and_assign ∷ or_assign ∷ xor_assign ∷ assign
    ∷ not_ ∷ tilde ∷ plus_plus ∷ minus_minus ∷ construct ∷ blit ∷ dot ∷ comma ∷ question ∷ and_and
    ∷ or_or ∷ pre_plus_plus ∷ pre_minus_minus ∷ identifier ∷ string_ ∷ interpolated ∷ this_ ∷ super_
    ∷ halt ∷ tuple ∷ error ∷ void_ ∷ int64 ∷ float64 ∷ complex80 ∷ import_ ∷ delegate_ ∷ function_
    ∷ mixin_ ∷ in_ ∷ break_ ∷ continue_ ∷ goto_ ∷ scope_ ∷ traits ∷ overload_set ∷ default_init
    ∷ pow ∷ pow_assign ∷ vector ∷ void_expression ∷ cant_expression ∷ show_ctfe_context
    ∷ objc_class_reference ∷ vector_array ∷ compound_literal ∷ generic ∷ interval
    ∷ lowered_assign_exp ∷ rvalue ∷ []

value-members : (e : Exp) → get_elem? members (value e) ≡ some e
unfolding value
value-members reserved = refl
value-members _ = refl

some_inj : (a b : Exp) → ◌≡◌ {A = Option Exp} (some a) (some b) → a ≡ b
some_inj a b h = cc

pub same_op_sound : (a b : Exp) → same_op a b ≡ true → a ≡ b
unfolding same_op
same_op_sound a b h = some_inj a b (
    sym (value-members a)
    ∙ ap (get_elem? members) ((==_iff (value a) (value b)).0 h)
    ∙ value-members b)

pub same_op_self : (a : Exp) → same_op a a ≡ true
unfolding same_op
same_op_self a = (==_iff (value a) (value a)).1 refl
