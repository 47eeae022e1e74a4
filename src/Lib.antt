-- ===== src/Lib.antt =====
-- A model of Cova (the Go package in cova/), its lexer, optimizer, linker and
-- virtual machine, and theorems about it.
--
-- The program compiles a C-like scripting language to bytecode, links it, and runs it in a host. What
-- is modelled is the part that meets bytecode and host at run time, the machine with its memory, code
-- and status types, and three passes in front of it: the lexer, the optimizer, which folds constants on
-- the syntax tree, and the linker, which gives the machine a linked program. The host configures the
-- machine, loads the program, runs it, and answers its extern calls.
--
-- Files and the code that they model:
--   Status           cova/vm-status.go: VMStatus, its numbers and strings, VMFaultInfo
--   Kinds            cova/types.go: ValueKind, Opcode, ArithmeticOp, CompareOp, BuiltInOperation
--   Segment          cova/segment-memory.go: MemorySegment and its methods; ReadUint8 is read_uint8,
--                    and so on, all four widths over one function of the number of bytes
--   Code             cova/code-memory.go: instruction encoding (makeInstruction is make_instruction),
--                    appends, patches and reads at the instruction pointer
--   Memory           cova/program-memory.go and the addresses of cova/segment-memory.go: Read and
--                    Write methods are load_ and store_ functions
--   Program          cova/types.go: LinkedProgram and ScriptFunctionDescriptor
--   Image            cova/image.go: validateProgramImage, linkedProgramToImage and
--                    linkedProgramFromImage; Image/Blob has BuildProgramImage and OpenProgramImage,
--                    and LoadProgramImage and RunImage of cova/vm.go
--   Vm/State, Stack, Access, Number, Convert, BuiltIn, Call, Run, Load
--                    cova/vm.go: the VM record, pushes and pops, memory access, arithmetic and
--                    comparison, conversion, built-in functions, calls and returns, the instruction
--                    loop, LoadProgram, Reset, RunLoaded and Run
--   Types, Ast       cova/types.go and cova/ast.go: the types of the language and the syntax tree
--   Optimizer        cova/optimize.go: Numeric and Constant have the arithmetic on constants, Expr the
--                    folding of expressions, Stmt and Program that of statements and programs
--   Lexer            cova/lex.go: Tokens has the kinds of tokens and their tables, Scan the reading of one
--                    token or comment, Tokenize the loop over the source
--   Compiler         cova/compile.go: the tables from operators to instructions
--   Symbols          cova/types.go: SymbolBinding, ProgramSymbols and CopyProgramSymbols
--   Linker           cova/link.go: Link, and the compiled program of cova/types.go
--   Base, Exec, Bytes, Words, Outcome, Names
--                    shared: lists and integers over the native numbers, operations with a state,
--                    little-endian bytes, two's complement, results of the compiler's passes, maps
--                    with string keys
-- A module named Laws, Safe, Returns or Safety, and Code/Fields, Code/Stream, Code/Immediate,
-- Image/Load, Vm/Arithmetic, Vm/Return, Words/Bits, Optimizer/Wrapping, Signed, Unsigned, Machine,
-- Compare, Divisor, Normal, Folded, Stable, Blame, Scopes and Whole, Linker/Descriptors, Whole, Calls,
-- Script and Layout, and Lexer/Progress, Rounds, Bounds, Widths, Fits, Keeps, Order and Copied, have
-- the proofs; modules named Tests have concrete runs.
--
-- How the code is modelled. An operation takes the state and gives a result and the new state, on
-- errors too, since Go keeps what was changed before an error return. The result is `ok`, `err` with
-- a status, or `panic`, which stands for a run-time panic of Go: an index or a slice out of range, or
-- a nil pointer. A slice is its backing array, as long as the capacity, with its length. Unsigned
-- words are numbers, with `% 2 ^ w` written wherever Go wraps; signed words are integers that are
-- wrapped to their type. A bitwise or of fields that share no bit is a sum, and a mask of low bits is
-- a remainder. Go's `int` has 64 bits. The instruction pointer is the state of the reads of code.
--
-- The passes of the compiler give a value, an error of their own, or a panic. The syntax tree is a
-- value: where Go writes to a node, the model returns the new node, and the tree that an error leaves
-- half changed is dropped. A type has the address of its object, since the optimizer compares types
-- as pointers.
--
-- The instruction loop runs on fuel, one unit for each instruction, and is `none` when it runs out: a
-- program may loop for ever, so no fuel is enough for every program. The loop of the lexer has a unit of
-- fuel for each byte of the source, and each of its rounds takes a byte at least. The loop over an
-- identifier has the same.
--
-- Parameters. Go's floating-point operations and its math package are a record of functions on bit
-- patterns (Vm/FloatOps), of which nothing is assumed. The host's dispatcher, with its context, is a
-- function on the machine (Vm/Call); the safety theorems ask that it keeps sound states and does not
-- panic on them. The library that writes an image to bytes and reads it is a pair of functions
-- (Image/Blob), and what is asked of it is that it reads an image that it wrote. What the lexer calls
-- of the packages unicode, utf8 and strconv is a record of functions (Lexer/Tokens); Lexer/Progress
-- names what is asked of them.
--
-- Not modelled: the code generator (cova/compile.go but for its tables of operators) and the parser
-- (cova/parse*.go); the linker's report, which only prints; the command line, the build glue and the
-- C++ runtime (embedded/). The names of segments are left out. Memory that the host shares through
-- BindExternBlock changes only through the model's own functions and the dispatcher.
pub mod Base
pub mod Status
pub mod Exec
pub mod Bytes
pub mod Kinds
pub mod Segment
pub mod Words
pub mod Code
pub mod Program
pub mod Memory
pub mod Image
pub mod Vm
pub mod Outcome
pub mod Names
pub mod Types
pub mod Symbols
pub mod Ast
pub mod Optimizer
pub mod Linker
pub mod Lexer
pub mod Compiler
