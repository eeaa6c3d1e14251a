-- ===== src/Lib.antt =====
-- m1sim: a simulator of 64-bit Arm programs in Go. It has a decoder of instruction words
-- (insts/decoder.go), a functional emulator that runs decoded instructions on registers and memory
-- (emu/), a timing model of a pipelined core with a branch predictor, caches and a table of
-- latencies (timing/), a loader of ELF files (loader/elf.go) and commands (cmd/).
--
-- Base holds what the parts share: Boolean tests, lists, the wrapping arithmetic of Go's integers
-- (Base/Word), facts on bit-wise operations (Base/Bits) and integers (Base/Int). A Go value of type
-- uintN or intN is the natural number of its bit pattern, below 2 ^ N, and the wrap is written out.
--
-- Insts is insts/decoder.go: the types in Insts.antt, the isX tests in Insts/Classify, the decodeX
-- methods in Insts/Branches, Insts/Memory, Insts/Data and Insts/Simd, DecodeBitmaskImmediate in
-- Insts/Bitmask, the dispatch of decodeInto in Insts/Decoder. A method that fills in an Instruction
-- takes it and returns it filled in. Insts/Encoding assembles words of the encoding to test the
-- decoder against; Insts/Classes says which test a word passes; Insts/Bounds is about the ranges of
-- the decoded fields.
--
-- Emu is emu/: RegFile, Memory, Alu, Branch, LoadStore, SimdRegFile and Simd are the files
-- regfile.go, memory.go, alu.go, branch.go, load_store.go, simd_regfile.go and simd.go; Exec and
-- Emulator are emulator.go, with the executeX handlers in Exec, by format, and execute, Step and
-- Run in Emulator. The source's units share the registers and the memory by pointers; a method of
-- the model takes the state it reads and returns the state it writes. Float arithmetic (FloatOps)
-- and the syscall handler (SyscallHandler, an interface in the source) are parameters. Run, an
-- endless loop in the source, is on fuel, and gives none if that runs out first.
--
-- Timing is timing/: Timing/BranchPredictor is branch_predictor.go of timing/pipeline,
-- Timing/Registers is the structs of registers.go, Timing/Hazard is hazard.go, with the test that
-- tickSingleIssue of pipeline.go makes for a load in Hazard/LoadUse, and Timing/Writeback is
-- WritebackSlot, WritebackSlots and Writeback of stages.go. Timing/Stages is stages.go of
-- timing/pipeline: fetch and decode in Stages.antt, the operands, results, flags and conditions in
-- Stages/Arithmetic, the bit-field moves in Stages/Bitfield, the execute stage in Stages/Execute,
-- which sets PSTATE and so gives the registers back, and the memory stage in Stages/MemoryStage.
-- Stages/Alone is the state that tickSingleIssue of pipeline.go latches between the stages, for one
-- instruction with no other in flight, with the definition alone that runs it through them. A slice
-- is a list, read out of range as a default and written out of range without effect, where Go
-- panics.
--
-- Timing/Cache is timing/cache/cache.go: Cache.antt has the state, New, Read, Write and handleMiss,
-- Cache/Drain Invalidate, Flush, Reset and ResetStats, with the loop bodies as definitions of their
-- own, Cache/Settings the configurations and results, Cache/Bytes the loops on the bytes of a
-- block; Cache/MemoryBacking is MemoryBacking of timing/cache/backing.go. The directory of the
-- package akita is the parameter Directory, whose documented behaviour is IsDirectory, and the
-- interface BackingStore is a record of its two methods, whose promise is IsBackingStore (both in
-- Cache/View). A pointer to a block is its set and way, and a map holds the fields behind it; the
-- bytes of a block are a function of the offset, of BlockSize bytes as New allocates them.
-- Cache/Coherence has what the blocks keep true of each other and of the memory (IsCoherent) and
-- the relation Sees of an address to its byte, Cache/Valid the valid caches and the memory that one
-- stands for (view). A block size of 0, for which New panics, is excluded where it matters.
-- Timing/Latency is timing/latency.
--
-- Loops of the source with a known count are structural recursions on it: the search of the highest
-- zero bit on 5, the replication of a bitmask element on 64 (one round adds at least 2 to a
-- position below 64), the lane loops on the number of lanes.
--
-- Emu/FdTable is emu/fdtable.go and Emu/Syscall is emu/syscall.go: the constants and the state
-- (Kernel) in Syscall/Settings, the stat structure in Syscall/Stat, the handlers and Handle in
-- Syscall.antt. A handler takes the state, the registers and the memory and gives them back, and
-- Handle is a SyscallHandler as the emulator takes one. The files of the host are the parameter
-- Host, a record of the functions of the package os that are called, on a state of the host; an
-- error is what the code tells apart of it (FileError); the flags of os.OpenFile, which differ
-- between hosts, are the parameter OpenFlags. A buffer that Go cannot allocate, for which it
-- panics, is a list here. The loop of readString, which ends at a 0 byte, is on fuel of 2 ^ 64
-- bytes, as many as there are addresses; without a 0 byte in the whole memory the loop of the
-- source does not end.
--
-- Timing/CacheStages is cache_stages.go of timing/pipeline: Fetch, Access and AccessSlot in
-- CacheStages.antt, of which the last two share their body (access_with); CacheStages/Waiting has a
-- call that is made again until it completes. Timing/Superscalar is superscalar.go: the issue rules
-- in Superscalar.antt, the ID/EX registers of the further slots in Superscalar/Slots;
-- Superscalar/Loop is about the loop of canIssueWith, Superscalar/Loads compares its test behind a
-- load with the pipeline's, and Superscalar/Hazards, Superscalar/Ports and Superscalar/Dual say
-- what the rules allow. Timing/FastTiming is fast_timing.go: the values of each operation in
-- FastTiming/Values, the state and what an instruction does to it in FastTiming/State,
-- executeInstruction, Tick and Run, on fuel, in FastTiming.antt. The syscall handler of the fast
-- simulation may be missing and is a parameter.
--
-- Not modelled: the loader, the options and the reset of the emulator, the tick of the pipeline
-- with its stalls, flushes and forwarding between stages and the wider ticks (pipeline.go), the
-- IF/ID, EX/MEM and MEM/WB registers of the further slots (superscalar.go), CacheBacking, the JSON
-- files of the latencies, the timing core, the commands and the benchmark harness. They are host
-- I/O, third-party packages or not done yet.
pub mod Base
pub mod Insts
pub mod Emu
pub mod Timing
