-- ===== src/Lib.antt =====
-- Millie, a small functional language in C: a text is lexed, parsed, type checked, compiled to
-- bytecode and run on a register machine. This library models the program from the text to the
-- machine.
--
-- How the parts interact. `LexBuffer` (lexer.c) reads a buffer into an array of tokens and an
-- array of the positions of its newlines; `ParseExpression` (parser.c) walks the tokens and
-- builds a tree with the constructors of ast.c, with numbers for names that the symbol table
-- (symboltable.c) gives; `GetExpressionType` (typecheck.c) finds the type of the tree;
-- `CompileExpression` (compiler.c) turns a tree into the code of one function and of every `fn`
-- in it, and adds these to a module; `EvaluateCode` (runtime.c) runs a function of a module.
-- All of them report errors to the list of errors.c, and errors carry positions that
-- `GetLineColumnForPosition` (lexer.c) turns into lines and columns. `main` (millie.c) calls
-- them in this order, and prints the errors of a stage instead of going on.
--
-- Files. Prelude: shared helpers on native numbers, lists and partial results. Errors:
-- errors.c. Token: the tokens of platform.h. Lexer: lexer.c, `LexBuffer` as a step on the state
-- of its loop; its children are lemmas about one round (Round, Keywords, Cases, Moves) and
-- theorems about the whole (Output, Total, Faults). Position: `GetLineColumnForPosition` of
-- lexer.c. Ast: the tree of platform.h and the constructors of ast.c. Parser: the helpers of
-- parser.c, and in Parser/Grammar its productions; Remaining, Productions and Total show that
-- it ends inside of the tokens, and Lexed that the lexer's tokens let it. Bytecode: the opcodes
-- of opcodes.inc, the writing of numbers in compiler.c, their reading in runtime.c, and the
-- compiled functions of platform.h. Compiler: compiler.c, in Compiler/Context the context and
-- the writes, in Compiler/Emit literals and identifiers, in Compiler/Expressions the other
-- expressions. Runtime: runtime.c, with the instructions in Runtime/Step. Execution: the
-- compiler and the machine together; Execution/Meaning says what programs without functions and
-- tuples mean, Instructions what each instruction does, Covers, Patches and Layout are about
-- where code stands, Bindings, Scopes and Registers about what the compiler's tables hold,
-- Frames, Simulation, Branches, Correct and Programs are about running the code, Room, Returns
-- and Compiled about the room that compiling needs. Platform: arenas and array lists of
-- platform.c. SymbolTable: symboltable.c; Probe is about positions, Order about the distances
-- of entries from their places, Entries about what a table holds, Carry, Insert, Find, Reinsert
-- and Grow about the loops, Names is the list of names that the table stands for, Refines and
-- Keys are about the whole operations. Types: the nodes of types in typecheck.c and the store
-- of them, with the walks in Walk, the copies in Copy, the printed form in Format; Nodes, Laws,
-- Chains and Kept are about what steps on the store keep. Unify: unification and its reports;
-- Same says how unification relates two types, Trees and Agree what tree a type stands for,
-- Variables, Components and Sound are about unification. Typecheck: the analysis of
-- expressions; Simple gives typing rules, Judged, Reported and Static are lemmas, Monomorphic
-- and Values are about expressions without functions and tuples, Endless is about one that is
-- never analyzed. Position/Extract: the lines of the text for reports; Cut is about its
-- newlines, Lines and Columns about ExtractLine. Driver: millie.c; Arguments is the command
-- line, with Arguments/Asks and Arguments/Accepted about what it sets, Report is PrintErrors,
-- Value is FormatValue, Stages is the order of the stages, with Stages/Accepted from the text
-- of a program to its printed value.
--
-- How state corresponds. A struct that the C code changes through a pointer is a record that a
-- function takes and returns; the errors and the module, which contexts share by pointer, are
-- fields of the context that a child gets and gives back. `none` is undefined behaviour of the
-- C code, such as a read outside of the tokens or an access outside of a block, so that a
-- theorem that gives `some` also shows that there is none. What `malloc` leaves in the block of
-- bindings is a parameter of the compiler (`garbage`). A list stands for an array, and its
-- length for the count that the C code keeps beside it. Integers of w bits wrap around at 2 ^ w
-- where the code can reach that. The nodes of types are a list, a pointer to one is its place,
-- and a step on them takes and returns the store together with the errors, or says why it
-- stops: at a pointer that leads nowhere, behind the names of variables, at a call of Fail, or
-- because fuel has run out.
--
-- Bounds and fuel. The lexer's loop runs on fuel, of which `lex_buffer` gives as much as the
-- text's length: every round moves on. The parser's productions run on fuel, of which
-- `parse_expression` gives sixteen for each token and a little more, since no production calls
-- itself through more than that many others without taking a token. The compiler is structural
-- recursion on the tree. The machine runs on fuel, one bound for the depth of calls and for the
-- instructions of each call, since programs need not end. The loops of the symbol table run on
-- as much fuel as there are slots, which reaches each of them. The walks over types take fuel
-- as an argument, since a type can be cyclic: the program then does not end, and the results on
-- them either hold for all fuel or say how much is enough.
--
-- Parameters. `FindOrCreateSymbol` is a function that the parser takes, on a table of any type.
-- The hash of a string, CityHash32 of cityhash.c, is a parameter of the symbol table. The nodes
-- of the tree and of the types are values and places in a list, not memory of an arena; the
-- arena is modelled on its own, so that its overrun is not seen by the parser and the checker.
-- Not modelled: the reading of the file, the usage text and the statistics of the driver
-- (millie.c), strings but for their comparison and their creation from a part of a text
-- (string.c), the release of memory, CityHash (cityhash.c, a copy of another project), the
-- printing of tokens and trees, and the trace of the machine. Registers of the machine hold
-- words; addresses are kept apart from numbers, as typed programs do.
pub mod Prelude
pub mod Platform
pub mod Errors
pub mod Token
pub mod Lexer
pub mod Position
pub mod Ast
pub mod Parser
pub mod SymbolTable
pub mod Bytecode
pub mod Compiler
pub mod Runtime
pub mod Execution
pub mod Types
pub mod Unify
pub mod Typecheck
pub mod Driver
