-- ===== src/Lib.antt =====
-- A verification library for the Lua 5.1 runtime in C++ of this repository.
--
-- The program compiles Lua source to 32-bit instruction words (src/compiler), checks precompiled
-- functions before they run (src/runtime/bytecode_verifier.cpp) and executes them on a register
-- machine (src/vm) over a value stack (src/vm/state) and tables (src/core/table.cpp). The verifier
-- reads the words through the field accessors of src/compiler/opcode.hpp, by which the code
-- generator also writes them; the machine trusts what the verifier accepted; the tables hash and
-- compare the values of src/core/value.hpp.
--
-- The parts and their files:
--   Prelude     the shared library: tests, lists, integers, bits, results with errors
--   Opcode      src/compiler/opcode.hpp and opcode.cpp. Metadata has the enum `OpCode` and
--               `kOpcodeMetadata`; Instruction has the accessors GETARG_*, CREATE_*, SETARG_*, ISK
--               under their names in lower case; Fields and RoundTrip are proofs
--   Proto       the fields of `Proto` in src/core/function.hpp that the verifier reads
--   Verifier    src/runtime/bytecode_verifier.cpp. Checks has `verifyRegister` to `verifyJumpAt`,
--               Marking the pass that marks operand words, Instructions `verifyInstruction`, Walk
--               `verifyProto` and `run`. Flow has the moves of the program counter of the handlers
--               in src/vm/vm_handlers, Demands what they take for granted of each instruction;
--               Starts, Moves, Marks, Operands, Safety, Trees and Ends are proofs
--   Stack       src/vm/state/stack.cpp: Slots has the operations, Bounds and Contents the proofs
--   Registers   src/compiler/register_allocator.hpp
--   Value       src/core/value.hpp and `ValueHash`
--   Table       src/core/table.cpp. Nodes has the loops over the node array (`findHashNode`,
--               `rehash`), Insert `setHash` and `removeHash`, Whole, Length and Next the operations
--               of `Table`; Probe, Place, Slots, Counts, Entries, Moving, Rehash, Ready, Store,
--               Remove, Keys, Growth, GetSet, SetKey and Border are proofs
--   Codegen     src/compiler/codegen/jump_patcher.cpp: Jumps has the operations, Chains and Joins
--               the proofs
--   Gc          src/gc. Heap has the objects (src/core/gc_object.hpp) and the state of
--               `GarbageCollector`, Accounting the byte counts, Marking `mark`, `propagateMarks` and
--               the write barriers, Objects `registerObject` to `removeRoot` and
--               `writeBarrierDeferred`, Sweep `sweep` and what the destructor of a thread does
--               (src/core/upvalue.cpp, src/vm/state/lua_state.cpp), Weak the weak tables and the
--               queue of finalizers, Incremental `incrementalStep` with its phases. Barriers has the
--               store that follows a barrier. Shades, Queue, Rounds, Tricolor, Work, Live and Marked
--               are proofs on marking, Register on new objects, Deferred on the barrier that must
--               not throw, Passes, Frames, Survivors, SecondPass and Collected on the sweep,
--               Leftover, Clearing and Cleared on weak tables, and Leaving, SweepSteps, AtomicStep,
--               Ranks, Progress and Cycle on the incremental cycle
--   Upvalues    `findOrCreateUpvalue` and `closeUpvalues` of src/vm/state/lua_state.cpp, and
--               src/core/upvalue.cpp: Cells has the operations; Values, Links, Finding, Insertion,
--               Inserted and Sharing are proofs on values, the search and the creation, Closing and
--               Closed on the closing
--   Tests       runs of the modelled code at fixed inputs
--
-- How the model is to be read. Numbers are natural numbers, signed operands integers; the
-- wrap-around of u32 and u8 is written out where the source has it. A method that changes an object
-- is a function from the old record to the new one, and a method that throws or fails returns a
-- result; the state after a throw is not modelled. A double is a value of a parameter type with the
-- operations and the laws of the record `Doubles`; a pointer is its address.
--
-- The collector. The heap is a function from addresses to objects, and the lists of the collector
-- are lists of addresses. Every object is one of this collector: a marking that crosses into
-- another one is outside the model, and so is an allocation that fails, but for the barrier that
-- must not throw, whose argument tells of the capacity of the gray list. What
-- `GlobalState::markRoots` marks, the stacks of the threads among it, is the argument `shared`; the
-- finalizers, which run Lua code, are the argument `run_finalizers`. `references` holds what the
-- virtual `mark` of an object visits.
--
-- Loops. The probes of `findHashNode` take the number of nodes as their bound, as the source does;
-- the unbounded loops of `setHash` and `rehash` take it as fuel, and the theorems on them show that
-- a slot is found within it. Doubling a capacity takes 64 rounds at most, the width of `usize`. The
-- marking pass of the verifier takes one round for each word. The loops over jump lists are on
-- fuel, and any fuel beyond the length of the list is enough. The search for the length of a table
-- bisects an interval on its size as fuel, and doubles 32 times, beyond the largest `i32`.
-- `propagateMarks` counts its budget down as the source does; the largest `usize`, with which a
-- full mark calls it, is enough for a heap of that many objects. The lists of the collector end.
-- The loops over the open upvalues are on fuel, and more fuel than upvalues is enough.
--
-- Not modelled: the lexer and the parser, the scan of the stacks for roots, the run of the
-- finalizers, the choice of when a collection starts, the shutdown of the collector, strings and
-- their pool, closures and calls, the standard libraries, the C API, the debugger and the front
-- ends. They do input and output, or are left for later.
pub mod Prelude
pub mod Opcode
pub mod Proto
pub mod Verifier
pub mod Stack
pub mod Registers
pub mod Value
pub mod Table
pub mod Codegen
pub mod Gc
pub mod Upvalues
pub mod Tests
