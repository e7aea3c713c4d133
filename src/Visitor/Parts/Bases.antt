-- ===== src/Visitor/Parts/Bases.antt =====
-- The base classes that the headers of compiler/include/dmd declare in the family
-- of Parts.
use dmd.Prelude.{Option, none, some}
use dmd.Visitor.Parts.{
  PartClass, template_parameter, template_alias_parameter, template_type_parameter,
  template_tuple_parameter, template_value_parameter, template_this_parameter, condition,
  static_if_condition, dv_condition, debug_condition, version_condition, initializer,
  exp_initializer, struct_initializer, array_initializer, void_initializer, default_initializer,
  c_initializer, error_initializer,
}

-- The base classes in compiler/include/dmd/init.h.
base_in_init : PartClass → Option PartClass
base_in_init exp_initializer = some initializer
base_in_init struct_initializer = some initializer
base_in_init array_initializer = some initializer
base_in_init void_initializer = some initializer
base_in_init default_initializer = some initializer
base_in_init c_initializer = some initializer
base_in_init error_initializer = some initializer
base_in_init _ = none

-- The base classes in compiler/include/dmd/cond.h.
base_in_cond : PartClass → Option PartClass
unfolding base_in_init
base_in_cond static_if_condition = some condition
base_in_cond dv_condition = some condition
base_in_cond debug_condition = some dv_condition
base_in_cond version_condition = some dv_condition
base_in_cond c = base_in_init c

-- The base class of a class, those of compiler/include/dmd/template.h first; `none` for a
-- root of the family, and for a class that no header defines.
unfoldable pub base : PartClass → Option PartClass
unfolding base_in_cond
base template_alias_parameter = some template_parameter
base template_type_parameter = some template_parameter
base template_tuple_parameter = some template_parameter
base template_value_parameter = some template_parameter
base template_this_parameter = some template_type_parameter
base c = base_in_cond c
