-- ===== src/Lib.antt =====
-- Verification of the k3s virtual machine: an assembler, a class file, an interpreter with a bump
-- allocator, and the compiler of its graphs.
--
-- Parts and files:
-- - Base and its children: the native numbers' tests, lists, outcomes of calls, machine words,
-- association lists.
-- - Allocator/Region models allocator/region.h: Reset, Contains, Alloc, AllocBytes,
-- GetRemainingSpace on a record of the template's arguments and the cursor word. Allocator/Layout
-- models the pools of allocator/gc_region.h and the regions of allocator/allocator.h with Init.
-- - Classfile/ConstantPool models the ConstantPool of classfile/class_file.h; an index is a byte,
-- so the arrays are functions. Classfile/Writer and Classfile/Loader model the two halves of
-- classfile/class_file.cpp on lists of bytes, with the padding of the records as a parameter;
-- their children hold the proofs.
-- - Assembler models AsmEncoder of assembler/assembler.h: the instruction buffer, the tables of
-- names and labels, and every operation that the actions of assembler/templates/grammar.l.erb
-- call. Hash tables are association lists. Assembler/Labels and Assembler/Operands hold its
-- proofs.
-- - Gc models the collector of allocator/gc.h and the collecting half of allocator/gc_region.cpp:
-- the stages, marking, moving and rebinding, on the heap and the stack of frames of the
-- interpreter; Gc/Marking, Gc/Roots, Gc/Reach, Gc/Move, Gc/Slots and Gc/Holders hold its proofs.
-- - Interpreter models interpreter/: registers (register.h), the instruction word and the opcodes
-- of isa/isa.yaml, heap objects (types/ and allocator/object_header.h), the machine (interpreter.h
-- and the runtime around it), the New functions, the decoder that
-- interpreter/templates/inst_decoder.cpp.erb generates, every handler of Invoke in
-- interpreter.cpp, and one round of fetch, decode and dispatch. Interpreter/Frames holds the
-- proofs about the stack of frames.
-- - Jit models the compiler of jit/ir/graph. Jit/LiveInterval models analyses/live_intervals.h.
-- Jit/Graph models the instructions, the blocks and the graph (instructions.h, gen/inst.inl,
-- basic_block.h, graph.h, marker.h), where a pointer is the number of its instruction or block;
-- Jit/Graph/Block models the edges and the list operations of basic_block.h and graph.cpp, and its
-- neighbours prove that these work on the list of a block's instructions. Jit/Graph/Users models
-- the lists of the users of an instruction and ReplaceWith. Jit/Rpo models analyses/rpo.h.
-- Jit/Dominance models the questions about dominance of graph.h, basic_block.cpp and
-- instructions.cpp on given immediate dominators. Jit/Loops models analyses/loop.h, without the
-- test that the dominator tree was built. Jit/LinearOrder models analyses/linear_order.h on its
-- loops. Jit/Liveness models analyses/liveness.h, up to the life ranges of the instructions, and
-- Jit/Liveness/Fill its FillIntervals; the test of a loop's header is a parameter there.
-- Jit/RegAlloc models analyses/reg_alloc.h with the four registers of reg_descr.h on given live
-- intervals, and Jit/RegAlloc/Phis its pass over the inputs of phis; their neighbours hold the
-- proofs. Jit/Peepholes models optimizations/peepholes.h, the decision of a visit apart from the
-- change of the graph. Jit/Checks models optimizations/checks_elimination.h.
--
-- How the code is rendered: a call that may end the process returns an outcome, a value or a
-- fault; a failed ASSERT, a LOG_FATAL and an access that the language leaves undefined are
-- different faults. Machine integers are natural numbers with their wrap-around written out.
-- Objects live in a map from addresses to objects, so that registers alias them as pointers do.
-- Doubles are their 64 bits, and the arithmetic on them, with the comparisons and the conversion
-- to size_t, is a record that the definitions take as an argument.
--
-- Bounds: the stack of frames has the capacity that the interpreter reserves, 14563 frames of 288
-- bytes; a larger stack asks the stack region for more than it has. Two loops of
-- classfile/class_file.cpp run on fuel, and the theorems about them say that it is enough:
-- WriteConstantPool has 257 rounds for an 8-bit counter, LoadConstantPool as many rounds as there
-- are bytes, of which each round takes one or more. MarkAndFetchRecursively of Gc has fuel for its
-- depth, and more fuel than there are objects is enough; DFS of Jit/Rpo has fuel for its depth,
-- and as much as there are blocks is enough. DFS of Jit/LinearOrder has the same fuel and as many
-- rounds as a block's longest list of instructions. The walks of Jit/Dominance up the immediate
-- dominators have fuel for the depth of a block in their tree, and more than this depth is enough;
-- FillIntervals has a round for each range and two for each loop range, which is enough; the
-- searches of Jit/Loops have fuel for their depth as well; the walks of Jit/Dominance,
-- Jit/Peepholes, Jit/Checks and Jit/Liveness along the lists of instructions have as many rounds
-- as they are given. Every other loop is a recursion over a list.
--
-- Not modelled: a collection in the middle of the interpreter's run, which ends the run with its
-- own fault (Gc models the collection by itself); mmap and files; printing; the value that Invoke
-- returns, which nothing reads; the grammar of the assembler; the compiler's building of
-- dominators, the inlining, and the builders generated from ir.yaml.
mod Base
pub mod Allocator
pub mod Assembler
pub mod Classfile
pub mod Gc
pub mod Interpreter
pub mod Jit
