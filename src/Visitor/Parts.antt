-- ===== src/Visitor/Parts.antt =====
-- The classes derived from `Parameter`, `TemplateParameter`, `Condition` and `Initializer`, and the class that each forwards
-- an unhandled `visit` to in compiler/include/dmd/visitor.h.
pub mod Bases
use dmd.Prelude.{Option, none, some}

pub data PartClass : Type 0 where
  parameter template_parameter template_alias_parameter template_type_parameter
        template_tuple_parameter template_value_parameter template_this_parameter condition
        static_if_condition dv_condition debug_condition version_condition initializer
        exp_initializer struct_initializer array_initializer void_initializer default_initializer
        c_initializer error_initializer :
      PartClass

-- The overloads that `Visitor` adds.
late_forward : PartClass → Option PartClass
late_forward error_initializer = some initializer
late_forward _ = none

-- `visit(C *)` of a visitor that does not override it calls `visit` at this class; `none` is the
-- assertion of a root's overload.
unfoldable pub forward : PartClass → Option PartClass
unfolding late_forward
forward template_alias_parameter = some template_parameter
forward template_type_parameter = some template_parameter
forward template_tuple_parameter = some template_parameter
forward template_value_parameter = some template_parameter
forward template_this_parameter = some template_type_parameter
forward static_if_condition = some condition
forward dv_condition = some condition
forward debug_condition = some dv_condition
forward version_condition = some dv_condition
forward exp_initializer = some initializer
forward struct_initializer = some initializer
forward array_initializer = some initializer
forward void_initializer = some initializer
forward default_initializer = some initializer
forward c_initializer = some initializer
forward c = late_forward c
