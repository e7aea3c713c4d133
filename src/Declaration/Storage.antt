-- ===== src/Declaration/Storage.antt =====
-- The storage classes: `enum STC` of compiler/src/dmd/astenums.d, and its copy, the macros `STC...` of
-- compiler/include/dmd/declaration.h, which leave out `tls`. A `StorageClass` is the set of the
-- flags that a word has; its bits without a name are left out.
use dmd.Prelude.{ℕ, ◌+◌, Bool, false, ◌&&◌, ◌||◌, not, ◌==◌, if◌then◌else◌, List, [], ◌∷◌}

pub data Stc : Type 0 where
  static_ extern_ const_ final_ abstract_ parameter field override_ auto_ synchronized_ deprecated_
        in_ out_ lazy_ foreach_ variadic constscoperef templateparameter ref_ scope_ scopeinferred
        return_ return_scope return_ref returninferred immutable_ manifest nodtor nothrow_ pure_ tls
        alias_ shared_ gshared wild property safe trusted system ctfe disable result nodefaultctor
        temp rvalue nogc autoref inference exptemp future local live register volatile_ ctfe_only :
      Stc

-- The values of the flags.
unfoldable pub stc_value : Stc → ℕ
stc_value static_ = 0x1
stc_value extern_ = 0x2
stc_value const_ = 0x4
stc_value final_ = 0x8
stc_value abstract_ = 0x10
stc_value parameter = 0x20
stc_value field = 0x40
stc_value override_ = 0x80
stc_value auto_ = 0x100
stc_value synchronized_ = 0x200
stc_value deprecated_ = 0x400
stc_value in_ = 0x800
stc_value out_ = 0x1000
stc_value lazy_ = 0x2000
stc_value foreach_ = 0x4000
stc_value variadic = 0x8000
stc_value constscoperef = 0x10000
stc_value templateparameter = 0x20000
stc_value ref_ = 0x40000
stc_value scope_ = 0x80000
stc_value scopeinferred = 0x100000
stc_value return_ = 0x200000
stc_value return_scope = 0x400000
stc_value return_ref = 0x800000
stc_value returninferred = 0x1000000
stc_value immutable_ = 0x2000000
stc_value manifest = 0x8000000
stc_value nodtor = 0x10000000
stc_value nothrow_ = 0x20000000
stc_value pure_ = 0x40000000
stc_value tls = 0x80000000
stc_value alias_ = 0x100000000
stc_value shared_ = 0x200000000
stc_value gshared = 0x400000000
stc_value wild = 0x800000000
stc_value property = 0x1000000000
stc_value safe = 0x2000000000
stc_value trusted = 0x4000000000
stc_value system = 0x8000000000
stc_value ctfe = 0x10000000000
stc_value disable = 0x20000000000
stc_value result = 0x40000000000
stc_value nodefaultctor = 0x80000000000
stc_value temp = 0x100000000000
stc_value rvalue = 0x200000000000
stc_value nogc = 0x400000000000
stc_value autoref = 0x800000000000
stc_value inference = 0x1000000000000
stc_value exptemp = 0x2000000000000
stc_value future = 0x4000000000000
stc_value local = 0x8000000000000
stc_value live = 0x10000000000000
stc_value register = 0x20000000000000
stc_value volatile_ = 0x40000000000000
stc_value ctfe_only = 0x80000000000000

abbrev pub every_stc : List Stc
every_stc =
    static_ ∷ extern_ ∷ const_ ∷ final_ ∷ abstract_ ∷ parameter ∷ field ∷ override_ ∷ auto_
    ∷ synchronized_ ∷ deprecated_ ∷ in_ ∷ out_ ∷ lazy_ ∷ foreach_ ∷ variadic ∷ constscoperef
    ∷ templateparameter ∷ ref_ ∷ scope_ ∷ scopeinferred ∷ return_ ∷ return_scope ∷ return_ref
    ∷ returninferred ∷ immutable_ ∷ manifest ∷ nodtor ∷ nothrow_ ∷ pure_ ∷ tls ∷ alias_ ∷ shared_
    ∷ gshared ∷ wild ∷ property ∷ safe ∷ trusted ∷ system ∷ ctfe ∷ disable ∷ result ∷ nodefaultctor
    ∷ temp ∷ rvalue ∷ nogc ∷ autoref ∷ inference ∷ exptemp ∷ future ∷ local ∷ live ∷ register
    ∷ volatile_ ∷ ctfe_only ∷ []

abbrev pub StorageClass : Type 0
StorageClass = Stc → Bool

-- `STC.none`
abbrev pub no_stc : StorageClass
no_stc _ = false

-- `STC.static_` and the like.
unfoldable pub only : Stc → StorageClass
unfolding stc_value
only s t = stc_value t == stc_value s

-- `a | b`
unfoldable pub join : StorageClass → StorageClass → StorageClass
join a b s = a s || b s

-- A union of flags, such as `STC.gshared | STC.shared_`.
unfoldable pub among : List Stc → StorageClass
unfolding only
among [] s = false
among (t ∷ group) s = only t s || among group s

-- `a & group` is not 0, for a union of flags.
unfoldable pub meets : StorageClass → List Stc → Bool
meets a [] = false
meets a (s ∷ group) = a s || meets a group

-- `a & ~group`
unfoldable pub without : List Stc → StorageClass → StorageClass
unfolding among
without group a s = a s && not (among group s)

-- The number of the flags of `a` in a union: `a & group`.
unfoldable pub number : StorageClass → List Stc → ℕ
unfolding stc_value
number a [] = 0
number a (s ∷ group) = (if a s then stc_value s else 0) + number a group

-- `STC.safeGroup`
abbrev pub safe_group : List Stc
safe_group = safe ∷ trusted ∷ system ∷ []
