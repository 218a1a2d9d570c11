-- ===== src/Lib.antt =====
-- The JerryScript byte-code optimizer (namespace `optimizer`). It reads the compiled functions of a
-- snapshot, decodes each into a list of instructions, runs four passes over it (control flow,
-- dominators, liveness, register allocation by linear scan) and writes the instructions back.
-- `Optimizer::run` (src/optimizer.cpp) takes the functions in turn; each pass reads and changes the
-- function's instructions (src/inst.h), its basic blocks (src/basic-block.h) and its header
-- (src/bytecode.h), and asserts that the pass before it has succeeded.
--
-- Which file models which part:
--   Prelude       the names that all share, and lemmas on lists, sets of numbers, counting and bits.
--   Inst          src/inst.h: `Literal`, `Argument`, `InstFlags`, `Ins`.
--   Blocks        src/basic-block.h: `BasicBlock`, and the memory from pointers to blocks.
--   Edges         src/basic-block.cpp: `addPredecessor`, `addSuccessor`, and what removes edges.
--   Cfg           src/control-flow-analysis.cpp: `findLeaders`, `buildBlocks`, `connectBlocks`, `run`;
--                 src/inst.h: `hasNext`, `nextInst`, `prevInst`; in Cfg.Split `split` of
--                 src/basic-block.cpp.
--   Dominators    src/dominator-analysis.cpp: `dominatedBy`, `computeDominators`; in
--                 Dominators.Immediate `computeImmDominator` and `run`.
--                 Dominators.Clean is the iteration without undefined behaviour that it is compared
--                 with.
--   Liveness      src/liveness-analysis.cpp: `computeKillUe`, `setsEqual`, `computeLiveOut`,
--                 `computeLiveOuts`.
--   LiveRanges    src/liveness-analysis.cpp: `buildLiveRanges`.
--   Regalloc      src/regalloc-linear-scan.cpp: `sortIntervals`, `computeRegisterMapping`,
--                 `expireOldIntervals`, and in Regalloc.Update `updateInstructions`.
--   Bytecode      src/bytecode.h, src/bytecode.cpp: `BytecodeArguments`, `LiteralPool`,
--                 `setEncoding`, `setBytecodeEnd`; in Bytecode.Header `decodeHeader`.
--   Codec         src/inst.cpp: `decodeLiteralIndex`, the operands of branches and lines,
--                 `Literal::emit`, `Argument::emit`, the line case of `Ins::emit`.
--   Decoder       src/inst.cpp: `decodeArguments`, `processPut`; in Decoder.Group
--                 `decodeGroupOpcode`; in Decoder.Opcode `decodeCBCOpcode` and `Opcode::emit`.
--   Stream        src/bytecode.cpp: `buildInstructions`; src/inst.h: `setOffset`, `setSize`.
--   Emit          src/bytecode.cpp: `emitHeader`, `emitInstructions`, `emit`; src/inst.cpp:
--                 `Ins::emit`.
--   Snapshot      src/snapshot-readwriter.cpp: `writeSnapshot`, `write`; in Snapshot.Reading the text of an
--                 error in `read`, and src/bytecode.cpp: `countFunctions`.
--   Pipeline      `buildInstructions`, the control flow analysis on its instructions, and the
--                 liveness analysis on its graph; in Pipeline.Passes `run` of
--                 src/liveness-analysis.cpp and of src/regalloc-linear-scan.cpp.
--   Optimizer     src/optimizer.cpp, src/pass.h: `run`, `isSucceeded`, `finish`.
-- The children of a part hold its proofs, under the name of what they prove; the module Examples of
-- a part holds its tests.
--
-- State. A `BasicBlock *` is a number and the memory a function from numbers to blocks, so that
-- blocks share what they point to; a changed block is a new memory. An `Ins *` is the offset of the
-- instruction in the same way. A `std::unordered_set` of registers is a list without duplicates;
-- what is said of it speaks of membership. A `std::unordered_map` is an association list.
-- `std::sort` is an insertion sort with the code's comparison. Words are natural numbers, with the
-- remainder written out where the source wraps around; a signed word is its 32-bit pattern. A
-- failed assertion, and a read behind the end, is `none`.
--
-- Fuel. The loops of `computeLiveOuts` and `computeDominators` run on fuel: a round that changes
-- something adds a register to a set, or takes a block from a list, so the number of pairs bounds
-- the rounds. The loops that remove edges have a round for each edge of the block and one more, and
-- the search for an immediate dominator one for each dominator. The loop that writes a branch
-- offset has five rounds, one more than a word has bytes. The loop that writes a line has one round
-- for each seven bits. A turn of `buildInstructions` takes a byte at least, so the length of the code
-- and one more is enough. `readSubFunctions` descends into literals: fuel above the depth of the
-- functions is enough, where none is inside itself.
--
-- Parameters: the macros of JerryScript's byte-code.h, with their documented values as the record
-- `AreDocumented`; its decode table and opcode numbers, of which the record `AreBytes` says that
-- they fit one byte; `sizeof` of its structures, the bytes of its argument blocks, and the macro
-- that rounds a size up.
--
-- What is read from the memory of a new instruction where its constructor stores nothing, the content
-- of the output buffer with the functions of JerryScript that store into it, and what JerryScript
-- loads from a snapshot are parameters too.
--
-- Not modelled: the pointers that `Bytecode::emit` sets to the new code; the abstract values with
-- their stack and the stack delta (no pass reads them, and the operations that would read them back
-- are commented out in the source); printing and logging; files and the command line.
pub mod Pipeline
pub mod Prelude
pub mod Inst
pub mod Blocks
pub mod Liveness
pub mod LiveRanges
pub mod Regalloc
pub mod Stream
pub mod Snapshot
pub mod Bytecode
pub mod Edges
pub mod Cfg
pub mod Emit
pub mod Codec
pub mod Optimizer
pub mod Dominators
pub mod Decoder
