-- ===== src/Types/Fields.antt =====
-- The members of the classes of compiler/include/dmd/mtype.h, less the types that a type is made
-- of. A pointer to a node of another kind is an address.
use dmd.Prelude.{ℕ, Bool}

abbrev pub Ptr : Type 0
Ptr = ℕ

abbrev pub Loc : Type 0
Loc = ℕ

pub data VarArg : Type 0 where
  varargs_none varargs_variadic varargs_typesafe varargs_kr_variadic : VarArg

pub data Trust : Type 0 where
  trust_default trust_system trust_trusted trust_safe : Trust

pub data Pure : Type 0 where
  impure fwdref weak const_ : Pure

pub record TypeBasic : Type 0 where
  pub dstring : Ptr
  pub flags : ℕ

pub record TypeSArray : Type 0 where
  pub dim : Ptr

pub record TypeAArray : Type 0 where
  pub loc : Loc

pub record ParameterList : Type 0 where
  pub parameters : Ptr
  pub stc : ℕ
  pub varargs : VarArg
  pub has_identifier_list : Bool

pub record TypeFunction : Type 0 where
  pub parameter_list : ParameterList
  -- 16 flags
  pub bit_fields : ℕ
  pub linkage : ℕ
  pub trust : Trust
  pub purity : Pure
  pub inuse : ℕ
  pub inference_arguments : Ptr

pub record TypeTraits : Type 0 where
  pub loc : Loc
  pub exp : Ptr
  pub obj : Ptr

pub record TypeMixin : Type 0 where
  pub loc : Loc
  pub exps : Ptr
  pub obj : Ptr

pub record TypeQualified : Type 0 where
  pub loc : Loc
  pub idents : Ptr

pub record TypeIdentifier : Type 0 where
  pub ident : Ptr

pub record TypeInstance : Type 0 where
  pub tempinst : Ptr

pub record TypeTypeof : Type 0 where
  pub exp : Ptr
  pub inuse : ℕ

pub record TypeStruct : Type 0 where
  pub att : ℕ
  pub inuse : Bool

pub record TypeClass : Type 0 where
  pub att : ℕ
  pub cppmangle : ℕ

pub record TypeTuple : Type 0 where
  pub arguments : Ptr

pub record TypeSlice : Type 0 where
  pub lwr : Ptr
  pub upr : Ptr

-- What is asked of a function declaration beside its type.
pub record FuncDeclaration : Type 0 where
  -- the declaration itself, as an address
  pub address : Ptr
  -- the identifier is `_d_arrayctor` or `_d_arraysetctor`
  pub is_array_construction : Bool
  -- `callSideEffectLevel`
  pub side_effect_level : ℕ

-- What is asked of an enumeration beside its base type.
pub record EnumSymbol : Type 0 where
  pub is_anonymous : Bool
  pub has_members : Bool
  -- `semanticRun >= PASS.semanticdone`
  pub semantic_done : Bool
