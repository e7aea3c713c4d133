-- ===== src/Expression/Fields.antt =====
-- The members of the classes of compiler/include/dmd/expression.h, less the expressions, the types
-- and the functions that an expression is made of. A pointer to a node of another kind, or to an
-- expression that is kept for messages or for a later pass, is an address.
use dmd.Prelude.{ℕ, Bool, Option}

abbrev pub Ptr : Type 0
Ptr = ℕ

abbrev pub Loc : Type 0
Loc = ℕ

pub data OwnedBy : Type 0 where
  owned_code owned_ctfe owned_cache : OwnedBy

pub data MemorySet : Type 0 where
  none_ block_assign reference_init : MemorySet

pub record IntegerExp : Type 0 where
  pub value : ℕ

pub record RealExp : Type 0 where
  pub value : Ptr

pub record ComplexExp : Type 0 where
  pub value : Ptr

pub record IdentifierExp : Type 0 where
  pub ident : Ptr

pub record DsymbolExp : Type 0 where
  pub s : Ptr
  pub has_overloads : Bool

pub record ThisExp : Type 0 where
  pub var : Ptr

pub record StringExp : Type 0 where
  pub postfix : ℕ
  pub owned_by_ctfe : OwnedBy
  pub string : Ptr
  pub length : ℕ
  pub sz : ℕ
  pub committed : Bool
  pub hex_string : Bool
  pub c_macro : Bool

pub record InterpExp : Type 0 where
  pub postfix : ℕ
  pub interpolated_set : Ptr

pub record ArrayLiteralExp : Type 0 where
  pub owned_by_ctfe : OwnedBy
  pub onstack : Bool
  pub lowering : Option Ptr
  pub aa_literal : Option Ptr

pub record AssocArrayLiteralExp : Type 0 where
  pub owned_by_ctfe : OwnedBy
  pub lowering : Option Ptr
  pub lowering_ctfe : Option Ptr

pub record StructLiteralExp : Type 0 where
  pub bit_fields : ℕ
  -- the stages that run over the literal, `apply` apart
  pub stageflags : ℕ
  -- `StageFlags.apply`
  pub applying : Bool
  pub sd : Ptr
  pub stype : Ptr
  pub sym : Ptr
  pub origin : Ptr

pub record ScopeExp : Type 0 where
  pub sds : Ptr

pub record TemplateExp : Type 0 where
  pub td : Ptr
  pub fd : Ptr

pub record NewExp : Type 0 where
  pub newtype : Ptr
  pub names : Ptr
  pub argprefix : Option Ptr
  pub onstack : Bool
  pub thrownew : Bool
  pub lowering : Option Ptr

pub record NewAnonClassExp : Type 0 where
  pub cd : Ptr

pub record SymbolExp : Type 0 where
  pub var : Ptr
  pub original_scope : Ptr
  pub has_overloads : Bool

pub record SymOffExp : Type 0 where
  pub offset : ℕ

pub record VarExp : Type 0 where
  pub delegate_was_extracted : Bool

pub record OverExp : Type 0 where
  pub vars : Ptr

pub record FuncExp : Type 0 where
  pub fd : Ptr
  pub td : Ptr
  pub tok : ℕ

pub record TraitsExp : Type 0 where
  pub ident : Ptr
  pub args : Ptr

pub record IsExp : Type 0 where
  pub targ : Ptr
  pub id : Option Ptr
  pub tspec : Option Ptr
  pub parameters : Ptr
  pub tok : ℕ
  pub tok2 : ℕ

pub record AssertExp : Type 0 where
  pub lowered_from : Option Ptr

pub record DotIdExp : Type 0 where
  pub ident : Ptr
  pub noderef : Bool
  pub wantsym : Bool
  pub arrow : Bool

pub record DotTemplateExp : Type 0 where
  pub td : Ptr

pub record DotVarExp : Type 0 where
  pub var : Ptr
  pub has_overloads : Bool

pub record DotTemplateInstanceExp : Type 0 where
  pub ti : Ptr

pub record DelegateExp : Type 0 where
  pub func : Ptr
  pub has_overloads : Bool
  pub vthis2 : Ptr

pub record DotTypeExp : Type 0 where
  pub sym : Ptr

pub record CallExp : Type 0 where
  pub names : Ptr
  pub directcall : Bool
  pub in_debug_statement : Bool
  pub ignore_attributes : Bool
  pub is_ufcs_rewrite : Bool
  pub from_op_overload : Bool
  pub from_op_assignment : Bool
  pub vthis2 : Ptr
  pub lowered_from : Option Ptr

pub record NotExp : Type 0 where
  pub lowered_from : Option Ptr

pub record CastExp : Type 0 where
  pub mod_ : ℕ
  pub trusted : Bool
  pub lowering : Option Ptr

pub record VectorExp : Type 0 where
  pub to : Ptr
  pub dim : ℕ
  pub owned_by_ctfe : OwnedBy

pub record SliceExp : Type 0 where
  pub length_var : Ptr
  pub bit_fields : ℕ

pub record IntervalExp : Type 0 where
  pub lwr : Ptr
  pub upr : Ptr

pub record ArrayExp : Type 0 where
  pub current_dimension : ℕ
  pub length_var : Ptr
  pub modifiable : Bool

pub record CommaExp : Type 0 where
  pub is_generated : Bool
  pub is_inline_sequence : Bool
  pub allow_comma_exp : Bool
  pub original_exp : Option Ptr

pub record IndexExp : Type 0 where
  pub length_var : Ptr
  pub lowered_from : Option Ptr
  pub modifiable : Bool
  pub index_is_in_bounds : Bool

pub record AssignExp : Type 0 where
  pub memset : MemorySet

pub record ConstructExp : Type 0 where
  pub lowering : Option Ptr

pub record LoweredAssignExp : Type 0 where
  pub lowering : Option Ptr

pub record GenericExp : Type 0 where
  pub cntl_exp : Ptr
  pub types : Ptr
  pub exps : Ptr

pub record DefaultInitExp : Type 0 where
  pub tok : ℕ

pub record ObjcClassReferenceExp : Type 0 where
  pub class_declaration : Ptr

-- What is asked of the declaration of a variable.
pub record VarDeclaration : Type 0 where
  -- `storage_class & STC.manifest`
  pub is_manifest : Bool
  -- `storage_class & STC.static_`
  pub is_static_storage : Bool
  -- `isStatic()`, or `storage_class & (STC.extern_ | STC.gshared)`
  pub is_global : Bool
  -- `storage_class & STC.nodtor`
  pub is_nodtor : Bool
