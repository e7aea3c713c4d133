-- ===== src/Statement/Fields.antt =====
-- The members of the classes of compiler/include/dmd/statement.h, less the statements and the
-- expressions that a statement is made of. A pointer to a node of another kind, or back into the
-- tree, is an address.
use dmd.Prelude.{ℕ, Bool, Option}

abbrev pub Ptr : Type 0
Ptr = ℕ

abbrev pub Loc : Type 0
Loc = ℕ

-- What the class of a `catch` is: an erroneous type, `Object`, `Throwable`, `Exception`, or another.
pub data CatchType : Type 0 where
  terror object throwable exception other_class : CatchType

pub record DtorExpStatement : Type 0 where
  pub var : Ptr

pub record MixinStatement : Type 0 where
  pub exps : Ptr

pub record ScopeStatement : Type 0 where
  pub endloc : Loc

pub record ForwardingStatement : Type 0 where
  pub sym : Ptr

pub record WhileStatement : Type 0 where
  pub param : Ptr
  pub endloc : Loc

pub record DoStatement : Type 0 where
  pub endloc : Loc

pub record ForStatement : Type 0 where
  pub endloc : Loc
  pub related_labeled : Option Ptr

pub record ForeachStatement : Type 0 where
  pub op : ℕ
  pub parameters : Ptr
  pub endloc : Loc
  pub key : Ptr
  pub value : Ptr
  pub func : Ptr
  pub cases : Ptr
  pub gotos : Ptr

pub record ForeachRangeStatement : Type 0 where
  pub op : ℕ
  pub param : Ptr
  pub endloc : Loc
  pub key : Ptr

pub record IfStatement : Type 0 where
  pub param : Ptr
  pub endloc : Loc

pub record ConditionalStatement : Type 0 where
  pub condition : Ptr

pub record StaticForeachStatement : Type 0 where
  pub sfe : Ptr

pub record PragmaStatement : Type 0 where
  pub ident : Ptr
  pub args : Ptr

pub record StaticAssertStatement : Type 0 where
  pub sa : Ptr

pub record SwitchStatement : Type 0 where
  pub param : Ptr
  pub is_final : Bool
  pub endloc : Loc
  pub has_default : Bool
  pub has_vars : Bool
  pub sdefault : Ptr
  pub try_body : Ptr
  pub tf : Ptr
  pub goto_cases : Ptr
  pub cases : Ptr
  pub last_var : Ptr

pub record CaseStatement : Type 0 where
  pub index : ℕ
  pub last_var : Ptr
  pub extra : Ptr

pub record DefaultStatement : Type 0 where
  pub last_var : Ptr

pub record GotoDefaultStatement : Type 0 where
  pub sw : Ptr

pub record GotoCaseStatement : Type 0 where
  pub cs : Ptr

pub record ReturnStatement : Type 0 where
  pub case_dim : ℕ
  pub fes_func : Ptr
  pub scope_ : Ptr

pub record BreakStatement : Type 0 where
  pub ident : Option Ptr

pub record ContinueStatement : Type 0 where
  pub ident : Option Ptr

pub record WithStatement : Type 0 where
  pub prm : Ptr
  pub wthis : Ptr
  pub endloc : Loc

pub record TryCatchStatement : Type 0 where
  pub try_body : Ptr
  pub lowered_from_scope_guard : ℕ

pub record Catch : Type 0 where
  pub loc : Loc
  pub type_ : CatchType
  pub ident : Ptr
  pub var : Ptr
  pub errors : Bool
  pub internal_catch : Bool

pub record TryFinallyStatement : Type 0 where
  pub try_body : Ptr
  pub body_falls_thru : Bool
  pub lowered_from_scope_guard : ℕ
  pub lowered_from : Ptr

pub record ScopeGuardStatement : Type 0 where
  pub tok : ℕ

pub record ThrowStatement : Type 0 where
  pub internal_throw : Bool

pub record GotoStatement : Type 0 where
  pub ident : Ptr
  pub label : Ptr
  pub try_body : Ptr
  pub tf : Ptr
  pub os : Ptr
  pub last_var : Ptr
  pub in_ctfe_block : Bool

pub record LabelStatement : Type 0 where
  pub ident : Ptr
  pub try_body : Ptr
  pub tf : Ptr
  pub os : Ptr
  pub last_var : Ptr
  pub goto_target : Ptr
  pub extra : Ptr
  pub breaks : Bool
  pub in_ctfe_block : Bool

pub record AsmStatement : Type 0 where
  pub tokens : Ptr
  pub bit_fields : ℕ

pub record InlineAsmStatement : Type 0 where
  pub tokens : Ptr
  pub bit_fields : ℕ
  pub asmcode : Ptr
  pub regs : ℕ
  pub asmalign : ℕ
  pub refparam : Bool
  pub naked : Bool

pub record GccAsmStatement : Type 0 where
  pub tokens : Ptr
  pub bit_fields : ℕ
  pub stc : ℕ
  pub insn : Ptr
  pub args : Ptr
  pub outputargs : ℕ
  pub names : Ptr
  pub constraints : Ptr
  pub clobbers : Ptr
  pub labels : Ptr
  pub gotos : Ptr

pub record CompoundAsmStatement : Type 0 where
  pub stc_nothrow : Bool

pub record ImportStatement : Type 0 where
  pub imports : Ptr
