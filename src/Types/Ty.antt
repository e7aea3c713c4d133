-- ===== src/Types/Ty.antt =====
-- `TY` of compiler/include/dmd/mtype.h: the kinds of types.
pub data Ty : Type 0 where
  tarray tsarray taarray tpointer treference tfunction tident tclass tstruct tenum tdelegate tnone
        tvoid tint8 tuns8 tint16 tuns16 tint32 tuns32 tint64 tuns64 tfloat32 tfloat64 tfloat80
        timaginary32 timaginary64 timaginary80 tcomplex32 tcomplex64 tcomplex80 tbool tchar twchar
        tdchar terror tinstance ttypeof ttuple tslice treturn tnull tvector tint128 tuns128 ttraits
        tmixin tnoreturn :
      Ty
