-- ===== src/Lib.antt =====
-- Tagha (tagha/tagha.c and tagha/tagha.h): a virtual machine for scripts that a C program embeds.
--
-- The program. A host loads a script into a module: a header, a memory region with an operand stack
-- and a call stack, and two symbol tables, one of functions and one of variables, in which names are
-- found by hash. It links C functions, pointers and other modules into the tables, and calls
-- functions by name or item. `_tagha_module_exec` runs the bytecode: 256 registers from the operand
-- stack pointer on, loads and stores that are tested against the module's segment, calls of
-- bytecode, of C functions and of other modules' functions, and vectors that lie in registers.
--
-- The files.
-- - Base: shared names, Boolean tests, lists over the native numbers.
-- - Words: 64-bit wrap-around, sign extension, and the operations on lanes of `w` bytes.
--   Words.Signed: the integers in two's complement.
-- - Mem: the address space as bytes, little-endian accesses, memcpy and memcmp. Mem.Laws: what a
--   store changes and what a load reads back.
-- - State: the structures and constants of tagha/tagha.h.
-- - Machine: the locals of `_tagha_module_exec`, operands, and how a handler ends.
-- - Isa: the handlers `exec_*`, one definition each under its own name. Isa.Stack has the frames,
--   Isa.Move the moves and addresses, Isa.Access loads and stores, Isa.Arith, Isa.Compare and
--   Isa.Float the arithmetic, Isa.Jump jumps and calls, Isa.Vector, Isa.VectorTest and
--   Isa.VectorFloat the vectors. Isa.Stack.Frames, Isa.Access.Segment, Isa.Access.Underflow,
--   Isa.Access.Extend, Isa.Compare.Signed, Isa.Vector.Lanes and Isa.VectorTest.AllLanes are about
--   them.
-- - Dispatch: the table of handlers in the order of TAGHA_INSTR_SET.
-- - Exec: the fetch and the loop. Exec.Framed, Exec.FrameTable and Exec.FrameRun are about the
--   operand stack pointer, Exec.MoreFuel about fuel, Exec.Footprint, Exec.FootprintVector, Exec.FootprintTable and
--   Exec.FootprintRun about the cells that an instruction changes.
-- - Symbols: the symbol tables, their filling and `_tagha_key_get_item`. Symbols.Walk, Symbols.Build,
--   Symbols.Filed and Symbols.Keep are about the filling, Symbols.Find about the lookup, and Symbols.Refine about
--   the table against a list of names.
-- - Loader and Setup: `_setup_func_table`, `_setup_var_table`, `_setup_memory` and
--   `_read_module_data`. Loader.Tables, Setup.Region and Setup.Tables are about them.
-- - Lifetime: `tagha_module_new_from_buffer`, `tagha_module_clear` and `tagha_module_free`, with the
--   addresses that are freed as a list. Lifetime.Made is about the modules that are made.
-- - Toolchain: the programs that make and print scripts. Toolchain.Opcode is the enumeration of
--   instructions of tagha/tagha.h, Toolchain.Buffer the byte buffers of Harbol as an interface.
--   Toolchain.InstrGen is tagha_toolchain/instr_gen.h; its Bytes is about what is written, its Execute
--   about running it. Toolchain.ModuleGen is tagha_toolchain/module_gen.h; its Entries, Script,
--   Reads, Loaded and LoadedVars are about the bytes of a script and what the loader finds in them.
--   Toolchain.Disasm is tagha_toolchain/disassembler/disassembler.c: Switch has its cases, Names
--   and Body its loops, Output the rest; Ends, Cases, Listing, Encoded and RoundTrip are about them,
--   and Toolchain.ModuleGen.Traversal is about its walk over generated tables. Toolchain.Asm is
--   tagha_toolchain/assembler/assembler.c: Lexer reads names and numbers, Operands has the cases of
--   the second pass, Emit the code and the pc that follow and what is about them, Directives the
--   directives of the first pass, Script the module that is written at the end. Directives.Sizes is about
--   the data of variables, Jumps about running a jump that is assembled, and Script.Listed about the
--   functions that the disassembler finds in the module.
-- - Api: the functions that a host calls. Api.Calls and Api.Natives are about them.
-- - Examples: runs on concrete bytes, and the theorems at concrete inputs.
--
-- How state is modelled. Memory is a function from addresses to bytes, with addresses modulo 2 ^ 64
-- and cells modulo 256. Pointers, size_t and the fast integers have 8 bytes, as under the x86-64 ABI.
-- The items of a symbol table lie in memory, where bytecode can read them through a register; its
-- other arrays are lists. The structure of a module is a record beside the memory. Where C defines no
-- behaviour (a division by zero, a shift by the width, memcpy on ranges that overlap, a null table,
-- an opcode beyond the table) a handler gives `undefined`. A signed overflow in arithmetic on
-- integers is taken to wrap around, as compilers do it here.
--
-- Fuel. The loop of the interpreter takes fuel, one unit for each instruction, and a nested run goes
-- on with what is left; bytecode may run forever, so no fuel is enough for all of it, and a run that
-- is out of fuel is told apart from one that returns. The walk along a chain takes the number of
-- entries as fuel, and for the lookup one more: in a filled table every chain is shorter. A name is
-- read with 2 ^ 64 as fuel, the size of the address space. The disassembler's loop over a function
-- takes one unit more than the function has bytes, since a round passes at least one of them.
--
-- Parameters. string_hash and the memory pool belong to Harbol, whose copy stands in the repository
-- (tagha/allocators, tagha/harbol_common_defines.h, tagha/harbol_common_includes.h). C functions, the
-- structures of other modules and the arithmetic of the C compiler on floats are an `Env`. The byte
-- buffers, `harbol_align_size` and the vectors of names that the toolchain uses are Harbol's too: the
-- record `IsBuf` states what the insertions append, `IsAlign` that sizes are rounded up. The lexers
-- and link maps of the assembler are Harbol's, strtod and strtoll are C's.
--
-- Not modelled: loading from a file, the texts of errors, the messages to stderr, the command lines,
-- the text that the disassembler renders from the pieces of its listing, the assembler's loops
-- over lines and labels (tagha_toolchain/assembler), and the C library for scripts (tagha_libc).
-- The link maps whose contents the assembler writes are lists in the order of their indices.
pub mod Base
pub mod Words
pub mod Mem
pub mod State
pub mod Machine
pub mod Isa
pub mod Dispatch
pub mod Exec
pub mod Symbols
pub mod Loader
pub mod Setup
pub mod Lifetime
pub mod Api
pub mod Toolchain
pub mod Examples
