-- ===== src/Lib.antt =====
-- The llscheme compiler and its runtime: the front end, from the characters of the standard input to the
-- program that code is generated for; the code generator with the scopes that it keeps; and the objects
-- of a running program with the built-in procedures on lists, vectors, strings and numbers.
--
-- Parts, and the files that model them:
--   CodeStream       src/codestream.cc: the stream of characters. A `CodeStreamStream` buffers one
--                    character; `getchar` fills the buffer and `consume` empties it. A `char` is its bit
--                    pattern. CodeStream.View says what text a stream stands for, and CodeStream.Places
--                    which line and column it has reached.
--   Token, Lexer     src/token.cc and src/lexer.cc: characters to tokens. Each `get...` is one routine
--                    of the class, over any `CodeStream`; Lexer.Chars has the character classes.
--                    Lexer.Streams compares the stream with its text, Lexer.Grammar has the lexemes,
--                    Lexer.Lexemes and Lexer.Grammar.Read what the lexer makes of them, and Lexer.Yields
--                    the sequence of tokens that a text gives.
--   Ast              src/include/astnodes.hh: nodes, and in Ast.Print the printer `finePrint`.
--   Parser           src/parser.cc: tokens to nodes, over any source of tokens. The macros CONSUME_TOK
--                    and REDUCE_STK are `attach` and `reduce_stk`, which take the rest of the loop as an
--                    argument. Parser.Grammar has the language, Parser.Grammar.Sound and
--                    Parser.Grammar.Complete its two directions, and Parser.Sources compares sources of
--                    tokens.
--   Main             src/main.cc: the loop that reads a program, `read_all`, on the stack of the three.
--                    Main.Program and Main.RoundTrip are about the whole.
--   Env              src/env.cc: the names in scope, and the references that a search through function
--                    scopes leaves behind. Env.Maps is `std::map`, Env.Scopes the search, Env.Invariant
--                    the operations one after the other, and Env.Names which names are bound.
--   Codegen          src/codegen.cc: the code of constants and quoted data, over any state, by what is
--                    asked of the LLVM builder (`request`) and how a long number is evaluated
--                    (`eval_parsed`, a call of what string->number names in scope). Codegen.Memory takes
--                    a list of instructions as the state and runs it, and Codegen.Memory.Quoted says
--                    what objects a datum is whose numbers are short.
--   Codegen.Eval     `codeGenEval` of src/codegen.cc, with the special forms. Codegen.Session is the
--                    state that it works on: the globals `eenv`, `builder` and `module`. Codegen.Calls
--                    has symbols, calls and the `request` of that state, Codegen.Forms what each special
--                    form and `createFunction` do, over the routines that generate their parts, so that
--                    Codegen.Eval is the recursion over the expression. Codegen.Eval.Check is a
--                    reference checker of expressions, and Codegen.Eval.Legal the same as a relation.
--   Driver           src/driver.cc: the table of the built-in procedures and `CheckBuiltinProcs`, which
--                    works on the environment, the functions of the module and the code.
--   Runtime          src/runtime, in C. Runtime.Heap has `struct ls_object` of
--                    src/include/runtime/object.h, as an object at an address of a heap, and
--                    Runtime.Utils the checks of src/runtime/utils.c. Runtime.PairList, Runtime.Vector
--                    and Runtime.Strings have the built-ins of src/runtime/pairlist.c, vector.c and
--                    strings.c: `builtin_list_ref` is `lsrt_builtin_listref`. They get the list of the
--                    addresses of their arguments; `argc` is its length. Runtime.Freelist has the lists
--                    of captured objects.
--   Runtime.Number   src/runtime/number.c and src/runtime/include/number.h: `struct ls_real`, its
--                    arithmetic (Arith) and order (Order), number objects (Objects), and the built-ins
--                    on them (Objects, Comparisons, Builtins; string->number in Parse, over Scan).
--                    Runtime.Small has the `int` arithmetic, on bit patterns. GMP is the record `Gmp` of
--                    its functions, a parameter, and `IntegerLaws` and `OrderLaws` what it documents of
--                    its integers. These built-ins get numbers, not addresses: each makes a new object
--                    and changes only that.
--   Runtime.Output   src/runtime/io.c: `_display` on a heap, with what has been printed as its state.
--                    Output.Values is the data that objects stand for, and its written form.
--   Base             shared names; Base.Outcome has the outcomes of a routine (a value, an `Error`, a
--                    `Fault` for undefined behaviour, fuel used up) and Base.Simulation what it means
--                    that two routines run in step.
--   Examples         concrete runs.
--
-- The parser calls the lexer through `TokenSource`, and the lexer the stream through `CodeStream`, as
-- the classes do through their pointers; `Main.lexer` puts them together. The code generator calls the
-- environment for each name, and its requests call the runtime by the names of its functions.
--
-- Fuel: a `while` or `do` loop, and the recursion of `parseSExp`, takes a number that each round
-- decreases, and `diverge` is the outcome at zero. A loop is one round for each character or token,
-- so the theorems ask for more fuel than there are of these. `read_program` gives the same fuel to
-- all its loops.
--
-- The loops along a list in the runtime run on fuel too, one round for each pair, and the calls of
-- `_display` one for each pair and vector below each other. `_ston` takes a round for each jump to
-- `restart`, of which there are two. A count of list elements that would leave the range of `int` is the
-- fault `signed_overflow`. Runtime.Small wraps around instead, as the overflow tests of its code rely on,
-- and so does the sum of lengths in string-append, where C converts a `size_t` to `int`.
--
-- Not modelled: what LLVM makes of the requests of the code generator, apart from those of constants
-- and data without long numbers, and the set-up of LLVM modules, types and the JIT in src/driver.cc;
-- of the numbers, the exact decimals of string->number, the text of a number, the square root and the
-- memory of GMP; the garbage collector, which keeps what is in use; a shortage of memory; the
-- options, the interactive mode and the output of `main`; the Python prototype; the copies and
-- destructors of nodes, since a node has one owner in this part of the program.
pub mod Base
pub mod CodeStream
pub mod Token
pub mod Lexer
pub mod Ast
pub mod Parser
pub mod Main
pub mod Env
pub mod Codegen
pub mod Driver
pub mod Runtime
pub mod Examples
