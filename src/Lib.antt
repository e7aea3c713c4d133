-- ===== src/Lib.antt =====
-- The C++ interface of the D compiler (compiler/include/dmd) and the code behind it.
--
-- The compiler is written in D; its data structures are declared a second time in the headers of
-- compiler/include/dmd, for the parts and the back ends that are written in C++. Modelled are the
-- headers that carry behaviour of their own and the class hierarchies they declare, with the D code
-- behind a header where that is where its operations are defined.
--
-- * Array is `Array<T>` of compiler/include/dmd/root/array.h. A struct of a length, an allocated
--   size and the union of one inline cell and a block is the record `Array`; each member function is
--   a definition of the same name in snake case (`insert(index, Array *)` is `insert_array`,
--   `operator[]` is `get`, `zero` is `clear`). Array/Memory has the blocks: a cell that nothing has
--   written is `none`, and an access out of a block, or a `memcpy` of ranges that overlap, has no
--   result. `Holds a c` says that the array `a` stands for the cells `c`. The 32-bit fields and the
--   64-bit arguments keep their wrap-around; `Fits n a` says that no sum of `reserve(n)` wraps.
-- * Visitor is compiler/include/dmd/visitor.h: the overloads of `visit`, which forward an unhandled
--   node to the overload of another class, over the five families of node classes (one file each),
--   and `accept` of compiler/include/dmd/ast_node.h. The base classes of the class headers stand in
--   the Bases files. Visitor/Dispatch has what holds of the dispatch over any classes. The chain of
--   calls is bounded by five, which is enough for every class.
--   Visitor/Reaches tests what a class is derived from.
-- * Types is compiler/include/dmd/mtype.h, up to the modifiers: a type is a tree (Types/Tree) whose
--   constructors are the classes, with the declarations that are asked of it. Types/Base has
--   `toBasetype`, `nextOf`, `baseElemOf` (compiler/src/dmd/typesem.d) and `getMemtype`
--   (compiler/src/dmd/enumsem.d) of types whose semantic analysis is done; Types/Flags has the flags
--   of `TypeFunction`, with the accessors of compiler/src/dmd/common/bitfields.d.
-- * Expression is compiler/include/dmd/expression.h: a node is a tree (Expression/Tree) with a
--   constructor for each class whose parts differ, and `Leaf`, `Unary` and `Binary` for the others;
--   the members of each class are in a record (Expression/Fields). Expression/Op is `EXP` of
--   compiler/include/dmd/tokens.h. Expression/Casts has the down-casts `isXxxExp`, `isUnaExp`,
--   `isBinExp` and `isBinAssignExp`, and Expression/OpClass the table `ExpOpTypePairs`, of
--   compiler/src/dmd/expression.d. Expression/Walk is `PostorderExpressionVisitor` of
--   compiler/src/dmd/visitor/postorder.d over any stoppable visitor; Walk/Dispatch ties its overloads
--   to the dispatch of Visitor. Expression/ThrowRules and Expression/CanThrow are
--   compiler/src/dmd/canthrow.d, Expression/SideEffect is compiler/src/dmd/sideeffect.d, and
--   Expression/Answers has what `blockExit` of Statement asks of an expression. Every function on the
--   trees is a structural recursion, with no fuel. What comes from code outside these files is a
--   parameter or an answer that a node carries: `isLvalue`, `toBool`, `callSideEffectLevel`,
--   `global.errors`, and the test for `Error` of a class.
-- * Modifiers is `MODFlags` and the tests of `Type` in compiler/include/dmd/mtype.h, with
--   `MODimplicitConv`, `MODmethodConv` and `MODmerge` of compiler/src/dmd/mtype.d and `addMod` of
--   compiler/src/dmd/typesem.d. A modifier is the byte itself; `Qualifier` has the nine that a type
--   can have.
-- * Statement is compiler/include/dmd/statement.h: a statement is a tree (Statement/Tree) whose
--   constructors are the classes, with the members of each class in a record (Statement/Fields); a
--   pointer back into the tree, or to a node of another kind, is an address. Statement/Queries has
--   what compiler/src/dmd/statement.d and compiler/src/dmd/visitor/postorder.d ask of a tree.
--   `enum BE` is Statement/Mask, and `blockExit` of compiler/src/dmd/blockexit.d is
--   Statement/ExitMasks and Statement/BlockExit; an expression is what `blockExit` asks of it,
--   which Expression/Answers gives.
--   Statement/BlockExit/Executions says how an execution of a statement can end, jumps into its parts
--   included, and Statement/BlockExit/Regular which statements `blockExit` gets right.
-- * Declaration is the storage classes and flags of compiler/include/dmd/declaration.h. A storage class
--   is the set of its named flags (Declaration/Storage); Declaration/Parse is `appendStorageClass` of
--   compiler/src/dmd/parse.d, with its messages as values and `-preview=in` as an argument, and
--   Declaration/Parse/Tokens the keywords that `parseStorageClasses` there reads;
--   Declaration/Scopes is the storage class of the scope that `NewScopeVisitor` of
--   compiler/src/dmd/dsymbolsem.d makes for a `StorageClassDeclaration`; Declaration/FuncAttrs is
--   `mergeFuncAttrs` of compiler/src/dmd/clone.d, over the function types of Types;
--   Declaration/Queries is the inline tests of `Declaration`; and Declaration/Bits is the bit fields of
--   `VarDeclaration` and `FuncDeclaration`, on the accessors of Types/Flags.
--
-- Prelude has what the parts share: tests on numbers, lists measured by native numbers, the monad of
-- code that may fault, and checks of a finite range by evaluation.
--
-- Not modelled: the allocator (`mem`), which gives a block of the size asked for; destructors; source
-- locations of nodes; error messages; most fields of the classes of symbols and declarations; the
-- construction, merging and caching of types; constant folding and semantic analysis of expressions;
-- the bodies of the member functions that the headers only declare, other than those named above; the
-- compiler's other passes, code generators and back ends; the runtime library (druntime).
pub mod Prelude
pub mod Array
pub mod Visitor
pub mod Types
pub mod Expression
pub mod Modifiers
pub mod Statement
pub mod Declaration
